-- ===== src/Io61/Input.antt =====
-- What `io61_readc` and `io61_seek` deliver from a regular file: the bytes of the file at the
-- position, one after another.
use cs61_psets.Common.{
  ℕ, zero, suc, ◌+◌, ◌-◌, ◌≤◌, ◌<◌, ◌≡◌, refl, ◌∙◌, ap, ◌⊎◌, inr, min, Bool, true, false, none,
  some, List, [], ◌∷◌, arith, ltb, bind-some, length, get_or, get_elem?, set, drop, length-set,
  get_or-set_self,
}
use mathlib.Core.Path.{subst}
use cs61_psets.Io61.{Slot, File, slot, set_slot, blank, fill_new_cache}
use cs61_psets.Io61.Reading.{first_cache, buffer_rest, readc_from}
use cs61_psets.Io61.Slots.{
  IsReader, AllHold-set, AllHold-get, free_slot, free_slot-lt, freed, refilled, emptied,
  refilled-IsReader, slot-refilled,
}

-- The current slot `i`. At the end of the file it may have been given up, with its bytes all read.
pub record Current (n : ℕ) (f : File) (i : ℕ) : Type 0 where
  pub is_current : f.curr_cache ≡ some i
  pub in_cache : i < 12
  pub size : (slot f i).buff_size ≡ min 4096 (n - (slot f i).offset)
  pub inside : (slot f i).offset < n
  pub bounded : (slot f i).pos ≤ (slot f i).buff_size
  pub at_offset : (slot f i).pos < (slot f i).buff_size → (slot f i).str_buf ≡ (slot f i).offset

-- the file stands at position `p`
abbrev pub At : List ℕ → File → ℕ → Type 0
At bytes f p =
    IsReader bytes f
    × (((f.curr_cache ≡ none) × (p ≡ 0))
        ⊎ ((i : ℕ) × Current (length bytes) f i × (p ≡ (slot f i).offset + (slot f i).pos)))

get_elem?-drop :
    (xs : List ℕ) (k : ℕ) → k < length xs → get_elem? (drop k xs) 0 ≡ some (get_or xs k 0)
get_elem?-drop [] k h = absurd (omega arith)
get_elem?-drop (x ∷ xs) zero h = refl
get_elem?-drop (x ∷ xs) (suc k) h = get_elem?-drop xs k (omega arith)

first_cache-some : (f : File) (i : ℕ) → f.curr_cache ≡ some i → first_cache f ≡ (f, true)
unfolding first_cache
first_cache-some f i e = ground arith

first_cache-none :
    (f : File) (r : File × Bool) → f.curr_cache ≡ none → fill_new_cache f 0 ≡ r → first_cache f ≡ r
unfolding first_cache
first_cache-none f r e fill =
    ap (λ c. elim c [ none ↦ fill_new_cache f 0 | some i ↦ (f, true) ]) e ∙ fill

buffer_rest_regular :
    (bytes : List ℕ) (f : File) (c : Slot)
    → f.filesize ≡ some (length bytes)
    → f.file_data ≡ bytes
    → buffer_rest f c ≡ drop (c.str_buf + c.pos) bytes
buffer_rest_regular bytes f c e d = ground arith

-- the file with another position in slot `i`
abbrev pub moved : File → (i pos : ℕ) → File
moved f i pos = set_slot f i (record (slot f i) { pos = pos })

module _ (bytes : List ℕ) (f : File) (i : ℕ) (v : IsReader bytes f)
    (c : Current (length bytes) f i) where
  pub slot-moved : (pos : ℕ) → slot (moved f i pos) i ≡ record (slot f i) { pos = pos }
  slot-moved pos = get_or-set_self f.cache i _ blank (omega (arith, v.slots, c.in_cache))

  pub moved-IsReader : (pos : ℕ) → IsReader bytes (moved f i pos)
  moved-IsReader pos = record {
    reading = v.reading;
    regular = v.regular;
    mapped = v.mapped;
    small = v.small;
    slots = length-set f.cache i _ ∙ v.slots;
    valid = AllHold-set (length bytes) f.cache i _ v.valid λ active.
        let h = AllHold-get (length bytes) f.cache i v.valid active in
        record { at_offset = h.at_offset; size = h.size; inside = h.inside };
  }

  -- a move within the slot
  moved-Current :
      (pos : ℕ)
      → pos ≤ (slot f i).buff_size
      → (slot f i).str_buf ≡ (slot f i).offset
      → Current (length bytes) (moved f i pos) i
  moved-Current pos bound e = record {
    is_current = c.is_current;
    in_cache = c.in_cache;
    size = rw (slot-moved pos) c.size;
    inside = rw (slot-moved pos) c.inside;
    bounded = rw (slot-moved pos) bound;
    at_offset = λ h. rw (slot-moved pos) e;
  }

  -- a byte from the current slot
  pub readc_buffered :
      (depth : ℕ)
      → (slot f i).pos < (slot f i).buff_size
      → (f' : File) × (readc_from (suc depth) f
          ≡ some (some (get_or bytes ((slot f i).offset + (slot f i).pos) 0), f'))
        × At bytes f' ((slot f i).offset + (slot f i).pos + 1)
  unfolding readc_from
  readc_buffered depth left =
      let test : ltb (slot f i).pos (slot f i).buff_size ≡ true = ground arith in
      let byte : get_elem? (buffer_rest f (slot f i)) 0
          ≡ some (get_or bytes ((slot f i).offset + (slot f i).pos) 0) =
        rw (buffer_rest_regular bytes f (slot f i) v.regular v.mapped, c.at_offset left)
          (get_elem?-drop bytes ((slot f i).offset + (slot f i).pos)
            (omega (arith, c.size, c.inside))) in
      (
        moved f i ((slot f i).pos + 1),
        rw (first_cache-some f i c.is_current, c.is_current, test, byte) refl,
        (
          moved-IsReader ((slot f i).pos + 1),
          inr (
            i,
            moved-Current ((slot f i).pos + 1) (omega arith) (c.at_offset left),
            rw (slot-moved ((slot f i).pos + 1)) (omega arith),
          ),
        ),
      )

  -- the slot is read to its end
  pub readc_refill :
      (depth : ℕ) (g : File)
      → (slot f i).pos ≡ (slot f i).buff_size
      → fill_new_cache f ((slot f i).offset + (slot f i).pos) ≡ (g, true)
      → readc_from (suc depth) f ≡ readc_from depth g
  unfolding readc_from
  readc_refill depth g e fill =
      let test : ltb (slot f i).pos (slot f i).buff_size ≡ false = ground arith in
      rw (first_cache-some f i c.is_current) (bind-some _ c.is_current ∙ rw (fill, test) refl)

  pub readc_eof :
      (depth : ℕ) (g : File)
      → (slot f i).pos ≡ (slot f i).buff_size
      → fill_new_cache f ((slot f i).offset + (slot f i).pos) ≡ (g, false)
      → readc_from (suc depth) f ≡ some (none, g)
  unfolding readc_from
  readc_eof depth g e fill =
      let test : ltb (slot f i).pos (slot f i).buff_size ≡ false = ground arith in
      rw (first_cache-some f i c.is_current) (bind-some _ c.is_current ∙ rw (fill, test) refl)

pub readc_first :
    (depth : ℕ) (f g : File) (j : ℕ)
    → f.curr_cache ≡ none
    → fill_new_cache f 0 ≡ (g, true)
    → g.curr_cache ≡ some j
    → readc_from (suc depth) f ≡ readc_from (suc depth) g
unfolding readc_from
readc_first depth f g j e fill e' =
    rw (first_cache-none f (g, true) e fill, first_cache-some g j e') refl

pub readc_nothing :
    (depth : ℕ) (f g : File)
    → f.curr_cache ≡ none
    → fill_new_cache f 0 ≡ (g, false)
    → readc_from (suc depth) f ≡ some (none, g)
unfolding readc_from
readc_nothing depth f g e fill = rw (first_cache-none f (g, false) e fill) refl

module _ (bytes : List ℕ) (f : File) (p : ℕ) (v : IsReader bytes f) where
  abbrev refill : File
  refill = refilled f p (min 4096 (length bytes - p))

  pub refilled-Current : p < length bytes → Current (length bytes) refill (free_slot f)
  refilled-Current before = record {
    is_current = refl;
    in_cache = free_slot-lt f v.slots;
    size = rw (slot-refilled f bytes v p (min 4096 (length bytes - p))) refl;
    inside = rw (slot-refilled f bytes v p (min 4096 (length bytes - p))) before;
    bounded = rw (slot-refilled f bytes v p (min 4096 (length bytes - p))) (omega arith);
    at_offset = λ h. rw (slot-refilled f bytes v p (min 4096 (length bytes - p))) refl;
  }

  pub refilled-At : p < length bytes → At bytes refill p
  refilled-At before = (
    refilled-IsReader f bytes v p before,
    inr (
      free_slot f,
      refilled-Current before,
      rw (slot-refilled f bytes v p (min 4096 (length bytes - p))) (omega arith),
    ),
  )

  -- a byte from a slot that was just filled
  pub readc_refilled :
      (depth : ℕ)
      → p < length bytes
      → (f' : File) × (readc_from (suc depth) refill ≡ some (some (get_or bytes p 0), f'))
        × At bytes f' (p + 1)
  readc_refilled depth before =
      let slot_eq = slot-refilled f bytes v p (min 4096 (length bytes - p)) in
      let (f', e, at) =
        readc_buffered bytes refill (free_slot f) (refilled-IsReader f bytes v p before)
          (refilled-Current before) depth (rw slot_eq (omega arith)) in
      let here : (slot refill (free_slot f)).offset + (slot refill (free_slot f)).pos ≡ p =
        rw slot_eq (omega arith) in
      (
        f',
        e ∙ ap (λ q. some (some (get_or bytes q 0), f')) here,
        subst (λ q. At bytes f' (q + 1)) here at,
      )

keeps :
    (g : Slot → ℕ) (cs : List Slot) (j i : ℕ) (c : Slot)
    → g c ≡ g (get_or cs j blank)
    → g (get_or (set cs j c) i blank) ≡ g (get_or cs i blank)
keeps g [] j i c h = refl
keeps g (d ∷ cs) zero zero c h = h
keeps g (d ∷ cs) zero (suc i) c h = refl
keeps g (d ∷ cs) (suc j) zero c h = refl
keeps g (d ∷ cs) (suc j) (suc i) c h = keeps g cs j i c h

-- the current slot, after a fill at the end of the file
pub emptied-Current :
    (n : ℕ) (f : File) (i p : ℕ)
    → Current n f i
    → (slot f i).pos ≡ (slot f i).buff_size
    → Current n (emptied f p) i
      × ((slot (emptied f p) i).offset + (slot (emptied f p) i).pos
          ≡ (slot f i).offset + (slot f i).pos)
emptied-Current n f i p c full =
    let kept : (g : Slot → ℕ)
        → g (record (freed f) { str_buf = p; is_active = false }) ≡ g (slot f (free_slot f))
        → g (slot (emptied f p) i) ≡ g (slot f i) =
      λ g h.
        keeps g f.cache (free_slot f) i (record (freed f) { str_buf = p; is_active = false }) h in
    let pos_eq : (slot (emptied f p) i).pos ≡ (slot f i).pos = kept (λ d. d.pos) refl in
    let size_eq : (slot (emptied f p) i).buff_size ≡ (slot f i).buff_size =
      kept (λ d. d.buff_size) refl in
    let offset_eq : (slot (emptied f p) i).offset ≡ (slot f i).offset = kept (λ d. d.offset) refl in
    (
      record {
        is_current = c.is_current;
        in_cache = c.in_cache;
        size = omega (arith, size_eq, offset_eq, c.size);
        inside = omega (arith, offset_eq, c.inside);
        bounded = omega (arith, pos_eq, size_eq, full);
        at_offset = λ h. absurd (omega (arith, pos_eq, size_eq, full));
      },
      omega (arith, pos_eq, offset_eq),
    )
