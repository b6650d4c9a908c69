-- ===== src/Io61/Blocks.antt =====
-- `io61_write`: the rounds of its loop, and the blocks for which it does what it promises.
use cs61_psets.Common.{
  ℕ, suc, ◌+◌, ◌-◌, ◌%◌, ◌≤◌, ◌<◌, ◌≡◌, refl, ◌∙◌, inl, inr, true, false, Option, some, List, ◌++◌,
  arith, ◌==◌, if◌then◌else◌, ◌>>=◌, length, take, drop, length-drop, take-all,
}
use cs61_psets.Common.Bytes.{u32}
use mathlib.Core.Path.{subst}
use cs61_psets.Io61.{Slot, Descriptor, File}
use cs61_psets.Io61.Writing.{copy_in, io61_flush, write_loop, chunk}
use cs61_psets.Io61.Output.{Idle, writer, Kept, Wrote, Kept-Wrote, copy-Kept, flush-Kept}
use cs61_psets.Io61.Stream.{room_cases}

-- one round of `io61_write`
write_loop_step :
    (f : File) (fd : Descriptor) (c : Slot) (cs : List Slot) (fuel : ℕ) (buf : List ℕ)
    (done total left n : ℕ) (arr : List ℕ)
    → (done == length buf) ≡ false
    → (total + u32 - done) % u32 ≡ left
    → chunk c left ≡ n
    → copy_in c.arr_buf c.pos (drop done buf) n ≡ some arr
    → write_loop (suc fuel) (record (writer f c cs) { fd = fd }) 0 buf done total ≡ (
        let g = record (writer f (record c { arr_buf = arr; pos = c.pos + n }) cs) { fd = fd } in
        if c.pos + n == c.buff_size
        then (io61_flush g >>= λ h. write_loop fuel h 0 buf (done + n) left)
        else write_loop fuel g 0 buf (done + n) left)
unfolding write_loop
write_loop_step f fd c cs fuel buf done total left n arr test el en copied =
    rw (test, el, en, copied) refl

pub write_loop_end :
    (fuel : ℕ) (g : File) (buf : List ℕ) (done total : ℕ)
    → done ≡ length buf
    → write_loop (suc fuel) g 0 buf done total ≡ some (length buf, g)
unfolding write_loop
write_loop_end fuel g buf done total e =
    let test : (done == length buf) ≡ true = ground arith in rw (test, e)

-- the bytes of `buf` from `done` on
abbrev pub Behind : File → List ℕ → List ℕ → ℕ → Option (ℕ × File) → Type 0
Behind f more buf done r =
    (f' : File) × (r ≡ some (length buf, f')) × Wrote f (more ++ drop done buf) f'

-- the round that copies all that is left, once the copy is made
last_round_copied :
    (f : File) (fd : Descriptor) (c : Slot) (cs : List Slot) (more : List ℕ) (fuel : ℕ)
    (buf : List ℕ) (done total n : ℕ) (arr : List ℕ)
    → Idle cs
    → c.buff_size ≡ 4096
    → (total + u32 - done) % u32 ≡ n
    → done + n ≡ length buf
    → 0 < n
    → c.pos + n ≤ 4096
    → copy_in c.arr_buf c.pos (drop done buf) n ≡ some arr
    → Kept f fd (record c { arr_buf = arr; pos = c.pos + n }) (more ++ drop done buf)
    → Behind f more buf done
        (write_loop (suc (suc fuel)) (record (writer f c cs) { fd = fd }) 0 buf done total)
last_round_copied f fd c cs more fuel buf done total n arr idle size el sum pos fits copied k' =
    let test : (done == length buf) ≡ false = ground arith in
    let en : chunk c n ≡ n = unfold chunk in (ground arith) in
    let step = write_loop_step f fd c cs (suc fuel) buf done total n n arr test el en copied in
    elim (room_cases (c.pos + n) fits) [
      | inl room ↦
          let more_room : (c.pos + n == c.buff_size) ≡ false = ground arith in
          let g = record (writer f (record c { arr_buf = arr; pos = c.pos + n }) cs) { fd = fd } in
          (
            g,
            step ∙ rw more_room (write_loop_end fuel g buf (done + n) n sum),
            Kept-Wrote f idle k',
          )
      | inr full ↦
          let no_room : (c.pos + n == c.buff_size) ≡ true = ground arith in
          let (fd', flushed, k'') = flush-Kept f idle k' in
          let g = record (writer f (record c { arr_buf = arr; pos = 0 }) cs) { fd = fd' } in
          (
            g,
            step ∙ rw (no_room, flushed) (write_loop_end fuel g buf (done + n) n sum),
            Kept-Wrote f idle k'',
          )
    ]

module _ (f : File) (fd : Descriptor) (c : Slot) (cs : List Slot) (more : List ℕ) (idle : Idle cs)
    (k : Kept f fd c more) where
  -- the round that copies all that is left
  pub last_round :
      (fuel : ℕ) (buf : List ℕ) (done total n : ℕ)
      → (total + u32 - done) % u32 ≡ n
      → done + n ≡ length buf
      → 0 < n
      → c.pos + n ≤ 4096
      → Behind f more buf done
          (write_loop (suc (suc fuel)) (record (writer f c cs) { fd = fd }) 0 buf done total)
  last_round fuel buf done total n el sum pos fits =
      let enough : length (drop done buf) ≡ n = omega (arith, length-drop done buf) in
      let (arr, copied, k') = copy-Kept f k (drop done buf) n (omega arith) fits in
      last_round_copied f fd c cs more fuel buf done total n arr idle k.size el sum pos fits copied
        (subst (λ bytes. Kept f fd (record c { arr_buf = arr; pos = c.pos + n }) (more ++ bytes))
          (take-all n (drop done buf) (omega arith)) k')

  -- a round that fills the buffer and flushes it
  pub fill_round :
      (fuel : ℕ) (buf : List ℕ) (done total left n next : ℕ)
      → c.pos + n ≡ 4096
      → done + n ≡ next
      → 0 < n
      → (total + u32 - done) % u32 ≡ left
      → n < left
      → next ≤ length buf
      → (fd' : Descriptor) × (arr : List ℕ) × (write_loop
            (suc fuel)
            (record (writer f c cs) { fd = fd })
            0
            buf
            done
            total
          ≡ write_loop fuel
              (record (writer f (record c { arr_buf = arr; pos = 0 }) cs) { fd = fd' })
              0
              buf
              next
              left)
        × Kept f fd' (record c { arr_buf = arr; pos = 0 }) (more ++ take n (drop done buf))
  fill_round fuel buf done total left n next fits sum pos el before has =
      let (arr, copied, k') =
        copy-Kept f k (drop done buf) n (omega (arith, length-drop done buf)) (omega arith) in
      let (fd', flushed, k'') = flush-Kept f idle k' in
      let test : (done == length buf) ≡ false = ground arith in
      let en : chunk c left ≡ n = unfold chunk in (ground (arith, k.size)) in
      let no_room : (c.pos + n == c.buff_size) ≡ true = ground (arith, k.size) in
      let step = write_loop_step f fd c cs fuel buf done total left n arr test el en copied in
      (fd', arr, step ∙ rw (no_room, flushed, sum), k'')
