-- ===== src/Io61/Slots.antt =====
-- The slots of a file that is read through its mapping, and what `fill_new_cache` does to them.
use cs61_psets.Common.{
  ℕ, zero, suc, ◌+◌, ◌-◌, ◌%◌, ◌≤◌, ◌<◌, ◌≡◌, refl, sym, ◌∙◌, ap, inl, inr, min, true, false,
  Bool-cases, some, List, [], ◌∷◌, arith, ltb, ◌==◌, if◌then◌else◌, length, get_or, set, length-set,
  get_or-set_self, set-set, set-get_or,
}
use cs61_psets.Common.Bytes.{u32}
use cs61_psets.Io61.{
  Slot, File, rdonly, slot, set_slot, blank, int_max, scan_free, get_free_cache, finish_fill,
  fill_slot, fill_new_cache,
}

-- the slot holds the part of the file that its offset and size say
pub record Holds (n : ℕ) (c : Slot) : Type 0 where
  pub at_offset : c.str_buf ≡ c.offset
  pub size : c.buff_size ≡ min 4096 (n - c.offset)
  pub inside : c.offset < n

abbrev pub AllHold : ℕ → List Slot → Type 0
AllHold n [] = Unit
AllHold n (c ∷ cs) = (c.is_active ≡ true → Holds n c) × AllHold n cs

pub record IsReader (bytes : List ℕ) (f : File) : Type 0 where
  pub reading : f.mode ≡ rdonly
  pub regular : f.filesize ≡ some (length bytes)
  pub mapped : f.file_data ≡ bytes
  pub small : length bytes ≤ int_max
  pub slots : length f.cache ≡ 12
  pub valid : AllHold (length bytes) f.cache

pub AllHold-set :
    (n : ℕ) (cs : List Slot) (j : ℕ) (c : Slot)
    → AllHold n cs
    → (c.is_active ≡ true → Holds n c)
    → AllHold n (set cs j c)
AllHold-set n [] j c all h = tt
AllHold-set n (d ∷ cs) zero c all h = (h, all.1)
AllHold-set n (d ∷ cs) (suc j) c all h = (all.0, AllHold-set n cs j c all.1 h)

pub AllHold-get :
    (n : ℕ) (cs : List Slot) (j : ℕ)
    → AllHold n cs
    → (get_or cs j blank).is_active ≡ true
    → Holds n (get_or cs j blank)
AllHold-get n [] j all active = cc
AllHold-get n (c ∷ cs) zero all active = all.0 active
AllHold-get n (c ∷ cs) (suc j) all active = AllHold-get n cs j all.1 active

scan_free-lt :
    (cs : List Slot) (i oldest lowest : ℕ)
    → oldest < i + length cs
    → (scan_free cs i oldest lowest).0 < i + length cs
unfolding scan_free
scan_free-lt [] i oldest lowest h = h
scan_free-lt (c ∷ cs) i oldest lowest h =
    ground (arith, scan_free-lt cs (i + 1) i c.created_count, scan_free-lt cs (i + 1) oldest lowest)

-- the slot that `get_free_cache` picks, and what it does to it
pub free_slot : File → ℕ
unfolding scan_free
free_slot f = (scan_free f.cache 0 0 int_max).0

abbrev pub freed : File → Slot
freed f = record (slot f (free_slot f)) {
  is_active = if (scan_free f.cache 0 0 int_max).1 then true else (slot f (free_slot f)).is_active;
}

pub free_slot-lt : (f : File) → length f.cache ≡ 12 → free_slot f < 12
unfolding free_slot
free_slot-lt f e = omega (arith, scan_free-lt f.cache 0 0 int_max (omega arith))

get_free_cache_lem :
    (f : File)
    → get_free_cache f ≡ (record f { cache = set f.cache (free_slot f) (freed f) }, free_slot f)
unfolding get_free_cache free_slot
get_free_cache_lem f = elim (Bool-cases (scan_free f.cache 0 0 int_max).1) [
  | inl e ↦ rw e
  | inr e ↦ rw e (
      ap (λ cs. (record f { cache = cs }, free_slot f))
        (sym (set-get_or f.cache (free_slot f) blank)))
]

fill_slot_regular :
    (f : File) (i p n : ℕ)
    → f.filesize ≡ some n
    → fill_slot f i p
      ≡ finish_fill
          (set_slot f i (record (slot f i) { str_buf = p }))
          i
          p
          (if ltb ((n + u32 - p) % u32) 4096 then (n + u32 - p) % u32 else 4096)
unfolding fill_slot
fill_slot_regular f i p n e = ground arith

-- what a fill at `p` of a mapped file makes of it
abbrev pub refilled : File → (p size : ℕ) → File
refilled f p size = record f {
  cache = set f.cache (free_slot f) (record (freed f) {
    str_buf = p;
    buff_size = size;
    pos = 0;
    offset = p;
    is_active = true;
    created_count = f.cache_count + 1;
  });
  cache_count = f.cache_count + 1;
  curr_cache = some (free_slot f);
}

abbrev pub emptied : File → ℕ → File
emptied f p = record f {
  cache = set f.cache (free_slot f) (record (freed f) { str_buf = p; is_active = false });
}

module _ (f : File) (bytes : List ℕ) (v : IsReader bytes f) (p : ℕ) where
  pub slot_is : (c : Slot) → get_or (set f.cache (free_slot f) c) (free_slot f) blank ≡ c
  slot_is c =
      get_or-set_self f.cache (free_slot f) c blank (omega (arith, v.slots, free_slot-lt f v.slots))

  fill_lem :
      (size : ℕ)
      → size ≡ min 4096 (length bytes - p)
      → p ≤ length bytes
      → fill_new_cache f p
        ≡ finish_fill
            (record f { cache = set f.cache (free_slot f) (record (freed f) { str_buf = p }) })
            (free_slot f)
            p
            size
  unfolding fill_new_cache fill_slot
  fill_lem size e before =
      let left : (if ltb ((length bytes + u32 - p) % u32) 4096
            then (length bytes + u32 - p) % u32
            else 4096)
          ≡ size =
        ground (arith, v.small) in
      rw (get_free_cache_lem f) (
        fill_slot_regular (record f { cache = set f.cache (free_slot f) (freed f) }) (free_slot f) p
          (length bytes) v.regular
        ∙ rw (left, slot_is (freed f), set-set))

  pub fill_inside :
      p < length bytes → fill_new_cache f p ≡ (refilled f p (min 4096 (length bytes - p)), true)
  fill_inside before =
      let test : (min 4096 (length bytes - p) == 0) ≡ false = ground arith in
      fill_lem (min 4096 (length bytes - p)) refl (omega arith)
      ∙ unfold finish_fill in (rw (test, slot_is (record (freed f) { str_buf = p }), set-set))

  pub fill_end : p ≡ length bytes → fill_new_cache f p ≡ (emptied f p, false)
  fill_end e =
      fill_lem 0 (omega arith) (omega arith)
      ∙ unfold finish_fill in (rw (slot_is (record (freed f) { str_buf = p }), set-set))

  -- the file after a fill, and the slot that the fill made current
  pub refilled-IsReader :
      p < length bytes → IsReader bytes (refilled f p (min 4096 (length bytes - p)))
  refilled-IsReader before = record {
    reading = v.reading;
    regular = v.regular;
    mapped = v.mapped;
    small = v.small;
    slots = length-set f.cache (free_slot f) _ ∙ v.slots;
    valid =
        AllHold-set (length bytes) f.cache (free_slot f) _ v.valid
          (λ active. record { at_offset = refl; size = refl; inside = before });
  }

  pub emptied-IsReader : IsReader bytes (emptied f p)
  emptied-IsReader = record {
    reading = v.reading;
    regular = v.regular;
    mapped = v.mapped;
    small = v.small;
    slots = length-set f.cache (free_slot f) _ ∙ v.slots;
    valid = AllHold-set (length bytes) f.cache (free_slot f) _ v.valid (λ active. cc active);
  }

  pub slot-refilled :
      (size : ℕ)
      → slot (refilled f p size) (free_slot f) ≡ record (freed f) {
        str_buf = p;
        buff_size = size;
        pos = 0;
        offset = p;
        is_active = true;
        created_count = f.cache_count + 1;
      }
  slot-refilled size = slot_is _
