-- ===== src/Io61/Stream.antt =====
-- The stream of characters that io61_writec, io61_write and io61_close produce.
use cs61_psets.Common.{
  ℕ, suc, ◌%◌, ◌≤◌, ◌<◌, ◌≡◌, refl, ◌⊎◌, inl, inr, true, false, some, List, [], ◌∷◌, ◌++◌, arith,
  ltb,
}
use cs61_psets.Io61.{Slot, Descriptor, File}
use cs61_psets.Io61.Writing.{first_buffer, writec_from, io61_writec}
use cs61_psets.Io61.Output.{
  Idle, output, IsWriter, writer, Kept, first_buffer-writer, Wrote, Kept-Wrote, copy-Kept,
  flush-Kept,
}

pub room_cases : (n : ℕ) → n ≤ 4096 → (n < 4096) ⊎ (n ≡ 4096)
room_cases n h = omega arith

module _ (f : File) {fd : Descriptor} {c : Slot} {cs : List Slot} {more : List ℕ} (idle : Idle cs)
    (k : Kept f fd c more) where
  -- with room in the buffer the first call of `io61_writec` returns
  writec_room :
      (depth : ℕ) (g : File) (ch : ℕ)
      → first_buffer g ≡ record (writer f c cs) { fd = fd }
      → c.pos < 4096
      → (f' : File) × (writec_from (suc depth) g ch ≡ some f')
        × Wrote f (more ++ ((ch % 256) ∷ [])) f'
  unfolding writec_from
  writec_room depth g ch first room =
      let (arr, copied, k') = copy-Kept f k ((ch % 256) ∷ []) 1 (omega arith) (omega arith) in
      let test : ltb c.pos c.buff_size ≡ true = ground (arith, k.size) in
      (_, rw (first, test, copied) refl, Kept-Wrote f idle k')

-- with a full buffer it flushes and calls itself
writec_full :
    (f : File) {fd : Descriptor} {c : Slot} {cs : List Slot} {more : List ℕ}
    → Idle cs
    → Kept f fd c more
    → (depth : ℕ) (g : File) (ch : ℕ) → first_buffer g ≡ record (writer f c cs) { fd = fd }
    → c.pos ≡ 4096
    → (f' : File) × (writec_from (suc (suc depth)) g ch ≡ some f')
      × Wrote f (more ++ ((ch % 256) ∷ [])) f'
unfolding writec_from first_buffer
writec_full f {c} {cs} idle k depth g ch first full =
    let (fd', flushed, k') = flush-Kept f idle k in
    let test : ltb c.pos c.buff_size ≡ false = ground (arith, k.size) in
    let (f', e, w) =
      writec_room f idle k' depth (record (writer f (record c { pos = 0 }) cs) { fd = fd' }) ch refl
        (omega arith) in
    (f', rw (first, test, flushed) e, w)

-- `io61_writec` puts the character, as a byte, behind what was written before, on every writer.
pub writec-output :
    {f : File} (ch : ℕ)
    → IsWriter f
    → (f' : File) × (io61_writec f ch ≡ some f')
      × IsWriter f'
      × (output f' ≡ output f ++ ((ch % 256) ∷ []))
unfolding io61_writec
writec-output {f} ch v =
    let (c, cs, first, idle, k, same) = first_buffer-writer v in
    elim (room_cases c.pos k.small) [
      | inl room ↦ let (f', e, w) = writec_room f idle k 1 f ch first room in (f', e, w.0, w.1)
      | inr full ↦ let (f', e, w) = writec_full f idle k 0 f ch first full in (f', e, w.0, w.1)
    ]
