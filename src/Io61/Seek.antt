-- ===== src/Io61/Seek.antt =====
-- `io61_seek` on a regular file that is read: the file then stands at the position asked for.
use cs61_psets.Common.{
  ℕ, suc, ◌+◌, ◌-◌, ◌%◌, ◌≤◌, ◌<◌, ◌≡◌, refl, ◌∙◌, ap, ◌⊎◌, inl, inr, min, Bool, true, false,
  Bool-cases, Option-cases, Option, none, some, List, [], ◌∷◌, ◌++◌, arith, ltb, leb, ◌==◌, if_true,
  if_false, ◌&&◌, if◌then◌else◌, length, length-set, get_or-set_self, get_or,
}
use cs61_psets.Common.Bytes.{u32}
use mathlib.Core.Path.{subst}
use cs61_psets.Io61.{
  Slot, File, rdonly, wronly, lseek_call, slot, blank, scan_offset, find_cache_offset,
}
use cs61_psets.Io61.Reading.{
  is_reverse, seek_reverse, reverse_from, seek_to, seek_read, seek_write, io61_seek,
}
use cs61_psets.Io61.Slots.{
  Holds, AllHold-get, AllHold-set, IsReader, free_slot, free_slot-lt, slot-refilled, refilled,
  fill_inside, refilled-IsReader,
}
use cs61_psets.Io61.Input.{At, moved}

-- what `find_cache_offset` finds
pub record Covers (p : ℕ) (c : Slot) : Type 0 where
  pub active : c.is_active ≡ true
  pub from : c.offset ≤ p
  pub below : p < c.offset + c.buff_size

scan_offset-Covers :
    (cs : List Slot) (k p : ℕ)
    → (scan_offset cs k p ≡ none)
      ⊎ ((j : ℕ) × (scan_offset cs k p ≡ some (k + j))
          × (j < length cs)
          × Covers p (get_or cs j blank))
unfolding scan_offset
scan_offset-Covers [] k p = inl refl
scan_offset-Covers (c ∷ cs) k p =
    elim (Bool-cases (c.is_active && leb c.offset p && ltb p (c.offset + c.buff_size))) [
      | inl e ↦ inr (
        0,
        if_true _ _ e ∙ ap some (omega arith),
        omega arith,
        record { active = ground arith; from = ground arith; below = ground arith },
      )
      | inr e ↦ elim (scan_offset-Covers cs (k + 1) p) [
        | inl h ↦ inl (if_false _ _ e ∙ h)
        | inr (j, h, bound, covers) ↦
            inr (suc j, if_false _ _ e ∙ h ∙ ap some (omega arith), omega arith, covers)
      ]
    ]

find_cases :
    (f : File) (p : ℕ)
    → (find_cache_offset f p ≡ (f, false))
      ⊎ ((j : ℕ) × (find_cache_offset f p ≡ (record f { curr_cache = some j }, true))
          × (j < length f.cache)
          × Covers p (slot f j))
unfolding find_cache_offset
find_cases f p = elim (scan_offset-Covers f.cache 0 p) [
  | inl h ↦ inl (rw (find_cache_offset, h) refl)
  | inr (j, h, bound, covers) ↦ inr (
    j,
    rw (find_cache_offset, h) (ap (λ i. (record f { curr_cache = some i }, true)) (omega arith)),
    bound,
    covers,
  )
]

-- the file once the slot `i` is current and its position is set
land :
    (bytes : List ℕ) (f : File) (i pos : ℕ)
    → IsReader bytes f
    → f.curr_cache ≡ some i
    → i < 12
    → Holds (length bytes) (slot f i)
    → pos ≤ (slot f i).buff_size
    → At bytes (moved f i pos) ((slot f i).offset + pos)
land bytes f i pos v e small h bound =
    let slot_eq : slot (moved f i pos) i ≡ record (slot f i) { pos = pos } =
      get_or-set_self f.cache i _ blank (omega (arith, v.slots)) in
    (
      record {
        reading = v.reading;
        regular = v.regular;
        mapped = v.mapped;
        small = v.small;
        slots = length-set f.cache i _ ∙ v.slots;
        valid =
            AllHold-set (length bytes) f.cache i _ v.valid
              (λ active. record { at_offset = h.at_offset; size = h.size; inside = h.inside });
      },
      inr (
        i,
        record {
          is_current = e;
          in_cache = small;
          size = rw slot_eq h.size;
          inside = rw slot_eq h.inside;
          bounded = rw slot_eq bound;
          at_offset = λ _. rw slot_eq h.at_offset;
        },
        rw slot_eq refl,
      ),
    )

seek_to-At :
    (bytes : List ℕ) (f : File) (p : ℕ)
    → IsReader bytes f
    → p < length bytes
    → (f' : File) × (seek_to f p ≡ some (f', true)) × At bytes f' p
unfolding seek_to
seek_to-At bytes f p v before = elim (find_cases f p) [
  | inl e ↦
      let slot_eq = slot-refilled f bytes v p (min 4096 (length bytes - p)) in
      let g = refilled f p (min 4096 (length bytes - p)) in
      let zero_pos : (p + u32 - (slot g (free_slot f)).offset) % u32 ≡ 0 =
        rw slot_eq (omega arith) in
      (
        moved g (free_slot f) 0,
        rw (e, fill_inside f bytes v p before, zero_pos) refl,
        subst (λ q. At bytes (moved g (free_slot f) 0) q) (rw slot_eq (omega arith))
            (land bytes g (free_slot f) 0 (refilled-IsReader f bytes v p before) refl
              (free_slot-lt f v.slots)
              (rw slot_eq (record { at_offset = refl; size = refl; inside = before }))
              (omega arith)),
      )
  | inr (j, e, bound, covers) ↦
      let h = AllHold-get (length bytes) f.cache j v.valid covers.active in
      let pos_eq : (p + u32 - (slot f j).offset) % u32 ≡ p - (slot f j).offset =
        omega (arith, covers.from, v.small, before) in
      (
        moved (record f { curr_cache = some j }) j (p - (slot f j).offset),
        rw (e, pos_eq) refl,
        subst (λ q. At bytes (moved (record f { curr_cache = some j }) j (p - (slot f j).offset)) q)
            (omega (arith, covers.from))
            (land bytes (record f { curr_cache = some j }) j (p - (slot f j).offset)
              (record {
                reading = v.reading;
                regular = v.regular;
                mapped = v.mapped;
                small = v.small;
                slots = v.slots;
                valid = v.valid;
              })
              refl (omega (arith, v.slots, bound)) h (omega (arith, covers.from, covers.below))),
      )
]

found-IsReader :
    (bytes : List ℕ) (f : File) (j : ℕ)
    → IsReader bytes f
    → IsReader bytes (record f { curr_cache = some j })
found-IsReader bytes f j v = record {
  reading = v.reading;
  regular = v.regular;
  mapped = v.mapped;
  small = v.small;
  slots = v.slots;
  valid = v.valid;
}

reverse_start : (p : ℕ) → (if ltb p 4096 then 0 else p + 1 - 4096) ≤ p
reverse_start p = ground arith

-- a fill by the lines that look for a move backwards is never at the end of the file
reverse_from-IsReader :
    (bytes : List ℕ) (f : File) (p : ℕ) (c : Slot)
    → IsReader bytes f
    → p < length bytes
    → (g : File) × (reverse_from f p c ≡ (g, true)) × IsReader bytes g
unfolding reverse_from
reverse_from-IsReader bytes f p c v before = elim (Bool-cases (is_reverse p c.offset c.pos)) [
  | inl r ↦ elim (find_cases f ((p + u32 - 1) % u32)) [
    | inl e ↦
        let start = if ltb p 4096 then 0 else p + 1 - 4096 in
        let inside : start < length bytes = omega (arith, reverse_start p) in
        (
          refilled f start (min 4096 (length bytes - start)),
          if_true _ _ r ∙ rw e (fill_inside f bytes v start inside),
          refilled-IsReader f bytes v start inside,
        )
    | inr (j, e, bound, covers) ↦
        (record f { curr_cache = some j }, if_true _ _ r ∙ rw e refl, found-IsReader bytes f j v)
  ]
  | inr r ↦ (f, if_false _ _ r, v)
]

seek_reverse-IsReader :
    (bytes : List ℕ) (f : File) (p : ℕ)
    → IsReader bytes f
    → p < length bytes
    → (g : File) × (seek_reverse f p ≡ (g, true)) × IsReader bytes g
unfolding seek_reverse
seek_reverse-IsReader bytes f p v before =
    let outcome : Option ℕ → File × Bool =
      λ c. elim c [ none ↦ (f, true) | some i ↦ reverse_from f p (slot f i) ] in
    elim (Option-cases f.curr_cache) [
      | inl e ↦ (f, ap outcome e, v)
      | inr (i, e) ↦
          let (g, e', v') = reverse_from-IsReader bytes f p (slot f i) v before in
          (g, ap outcome e ∙ e', v')
    ]

-- For a regular file that is read, `io61_seek` to a position inside the file returns what `lseek`
-- says, and the file then stands there; it needs nothing of the position before.
pub io61_seek-At :
    (bytes : List ℕ) (f : File) (p lseek : ℕ)
    → IsReader bytes f
    → p < length bytes
    → (f' : File) × (io61_seek f p lseek ≡ some (lseek == p, f')) × At bytes f' p
unfolding io61_seek seek_read
io61_seek-At bytes f p lseek v before =
    let sought : File = record f {
      fd = record f.fd { calls = f.fd.calls ++ (lseek_call p ∷ []) };
    } in
    let (g, e, v') =
      seek_reverse-IsReader bytes sought p
        (record {
          reading = v.reading;
          regular = v.regular;
          mapped = v.mapped;
          small = v.small;
          slots = v.slots;
          valid = v.valid;
        })
        before in
    let (f', e', at) = seek_to-At bytes g p v' before in
    (
      f',
      ap (λ m. elim m [ rdonly ↦ seek_read sought p lseek | wronly ↦ seek_write sought p lseek ])
            v.reading
          ∙ rw (e, e') refl,
      at,
    )
