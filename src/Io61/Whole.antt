-- ===== src/Io61/Whole.antt =====
-- `io61_write` and `io61_close` as a whole, and the order in which `io61_seek` writes.
use cs61_psets.Common.{
  ℕ, suc, ◌+◌, ◌-◌, ◌≤◌, ◌<◌, ◌≡◌, refl, sym, ◌∙◌, ap, ◌⊎◌, inl, inr, true, false, some, List, [],
  ◌++◌, append-nil, append_assoc, arith, ltb, length, take, drop, take-append-drop, nil_of_length,
}
use mathlib.Core.Path.{subst}
use cs61_psets.Io61.{Slot, Descriptor, File, slot}
use cs61_psets.Io61.Writing.{
  io61_flush, first_buffer, write_loop, write_from, io61_write, io61_close,
}
use cs61_psets.Io61.Output.{
  flush-shaped, shaped, stream, Idle, output, IsWriter, writer, Kept, first_buffer-writer, Wrote,
  Kept-Wrote, flush-Kept,
}
use cs61_psets.Io61.Stream.{room_cases}
use cs61_psets.Io61.Blocks.{Behind, write_loop_end, last_round, fill_round}

size_cases : (n room : ℕ) → (n ≡ 0) ⊎ (((0 < n) × (n ≤ room)) ⊎ (room < n))
size_cases n room = omega arith

module _ (f : File) (fd : Descriptor) (c : Slot) (cs : List Slot) (more : List ℕ) (idle : Idle cs)
    (k : Kept f fd c more) where
  loop_blocks :
      (fuel : ℕ) (buf : List ℕ)
      → c.pos < 4096
      → c.pos + length buf ≤ 8192
      → Behind f more buf 0 (
          write_loop
            (suc (suc (suc fuel)))
            (record (writer f c cs) { fd = fd })
            0
            buf
            0
            (length buf))
  loop_blocks fuel buf room bound = elim (size_cases (length buf) (4096 - c.pos)) [
    | inl z ↦
        let no_more : more ≡ more ++ buf = rw (nil_of_length buf z, append-nil) in
        (
          record (writer f c cs) { fd = fd },
          write_loop_end (suc (suc fuel)) (record (writer f c cs) { fd = fd }) buf 0 (length buf)
              (sym z),
          subst (λ bytes. Wrote f bytes (record (writer f c cs) { fd = fd })) no_more
              (Kept-Wrote f idle k),
        )
    | inr (inl (pos, fits)) ↦
        last_round f fd c cs more idle k (suc fuel) buf 0 (length buf) (length buf) (omega arith)
          (omega arith) pos (omega arith)
    | inr (inr long) ↦
        let (fd', arr, step, k') =
          fill_round f fd c cs more idle k (suc (suc fuel)) buf 0 (length buf) (length buf)
            (4096 - c.pos) (4096 - c.pos) (omega arith) (omega arith) (omega arith) (omega arith)
            long (omega arith) in
        let (f', e, w) =
          last_round f fd' (record c { arr_buf = arr; pos = 0 }) cs
            (more ++ take (4096 - c.pos) buf) idle k' fuel buf (4096 - c.pos) (length buf)
            (length buf - (4096 - c.pos)) (omega arith) (omega arith) (omega arith) (omega arith) in
        (
          f',
          step ∙ e,
          subst (λ bytes. Wrote f bytes f')
              (append_assoc more (take (4096 - c.pos) buf) (drop (4096 - c.pos) buf)
                ∙ ap (λ bytes. more ++ bytes) (take-append-drop (4096 - c.pos) buf))
              w,
        )
  ]

  write_room :
      (fuel depth : ℕ) (g : File) (buf : List ℕ)
      → first_buffer g ≡ record (writer f c cs) { fd = fd }
      → c.pos < 4096
      → c.pos + length buf ≤ 8192
      → Behind f more buf 0 (write_from (suc (suc (suc fuel))) (suc depth) g buf)
  unfolding write_from
  write_room fuel depth g buf first room bound =
      let test : ltb c.pos c.buff_size ≡ true = ground (arith, k.size) in
      let (f', e, w) = loop_blocks fuel buf room bound in (f', rw (first, test) e, w)

write_full :
    (f : File) (fd : Descriptor) (c : Slot) (cs : List Slot) (more : List ℕ)
    → Idle cs
    → Kept f fd c more
    → (fuel depth : ℕ) (g : File) (buf : List ℕ)
    → first_buffer g ≡ record (writer f c cs) { fd = fd }
    → c.pos ≡ 4096
    → length buf ≤ 8192
    → Behind f more buf 0 (write_from (suc (suc (suc fuel))) (suc (suc depth)) g buf)
unfolding write_from first_buffer
write_full f fd c cs more idle k fuel depth g buf first full bound =
    let (fd', flushed, k') = flush-Kept f idle k in
    let test : ltb c.pos c.buff_size ≡ false = ground (arith, k.size) in
    let (f', e, w) =
      write_room f fd' (record c { pos = 0 }) cs more idle k' fuel depth
        (record (writer f (record c { pos = 0 }) cs) { fd = fd' }) buf refl (omega arith)
        (omega arith) in
    (f', rw (first, test, flushed) e, w)

-- `io61_write` puts the whole of `buf` behind what was written before and returns its length, if
-- `buf` needs one flush at most: if it fits into the rest of the buffer and one more buffer.
pub write-output :
    {f : File} (buf : List ℕ)
    → IsWriter f
    → (slot f 0).pos + length buf ≤ 8192
    → (f' : File) × (io61_write f buf ≡ some (length buf, f'))
      × IsWriter f'
      × (output f' ≡ output f ++ buf)
unfolding io61_write first_buffer
write-output {f} buf v bound =
    let (c, cs, first, idle, k, same) = first_buffer-writer v in
    let fuel : length buf + 3 ≡ suc (suc (suc (length buf))) = omega arith in
    elim (room_cases c.pos k.small) [
      | inl room ↦
          let (f', e, w) =
            write_room f f.fd c cs [] idle k (length buf) 1 f buf first room (omega arith) in
          (f', rw fuel e, w.0, w.1)
      | inr full ↦
          let (f', e, w) =
            write_full f f.fd c cs [] idle k (length buf) 0 f buf first full (omega arith) in
          (f', rw fuel e, w.0, w.1)
    ]

held_first :
    {f : File} (v : IsWriter f) → output f ≡ stream f.fd.calls ++ take v.first.pos v.first.arr_buf
held_first v = rw v.shape

-- `io61_close` hands over everything that was written, and nothing else.
pub close-output :
    {f : File}
    → IsWriter f
    → (fd : Descriptor) × (io61_close f ≡ some fd) × (stream fd.calls ≡ output f)
unfolding io61_close
close-output {f} v =
    let small : v.first.pos ≤ 4096 = ground (arith, v.current) in
    let (fd, flushed, sent) = flush-shaped f v.first v.others v.idle v.room small in
    let same : f ≡ shaped f v.first v.others = ground (arith, v.shape, v.writing) in
    (fd, rw (ap io61_flush same, flushed), sent ∙ sym (held_first v))
