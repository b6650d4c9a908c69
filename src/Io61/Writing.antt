-- ===== src/Io61/Writing.antt =====
-- pset3/io61.c: io61_writec, io61_write, io61_flush and io61_close.
use cs61_psets.Common.{
  ℕ, zero, suc, ◌+◌, ◌-◌, ◌%◌, true, Option, none, some, List, [], ◌∷◌, ◌++◌, ltb, leb, ◌==◌,
  if◌then◌else◌, ◌>>=◌, ◌>>◌, assert, length, take, drop,
}
use cs61_psets.Common.Bytes.{u32}
use cs61_psets.Io61.{
  buffer_size, Slot, rdonly, wronly, Call, write_call, Descriptor, File, slot, set_slot,
}

-- `memcpy(&arr_buf[pos], bytes, n)` with the bounds of both buffers.
unfoldable pub copy_in : (arr_buf : List ℕ) (pos : ℕ) (bytes : List ℕ) (n : ℕ) → Option (List ℕ)
copy_in arr_buf pos bytes n = do
  assert (leb n (length bytes))
  assert (leb (pos + n) (length arr_buf))
  some (take pos arr_buf ++ (take n bytes ++ drop (pos + n) arr_buf))

-- The loop of `io61_flush`: the calls of `write` that it makes, and the slots after it.
unfoldable pub flush_slots : List Slot → Option (List Call × List Slot)
flush_slots [] = some ([], [])
flush_slots (c ∷ cs) = do
  (rest, cs') ← flush_slots cs
  assert (leb c.pos (length c.arr_buf))
  some (
      if ltb 0 c.pos
      then (write_call (take c.pos c.arr_buf) ∷ rest, record c { pos = 0 } ∷ cs')
      else (rest, c ∷ cs'))

-- The result of `write` is not looked at, as in the source.
unfoldable pub io61_flush : File → Option File
unfolding flush_slots
io61_flush f = elim f.mode [
  | rdonly ↦ some f
  | wronly ↦ (do
    (calls, cache) ← flush_slots f.cache
    some (record f { cache = cache; fd = record f.fd { calls = f.fd.calls ++ calls } }))
]

-- The first lines of `io61_writec` and `io61_write`.
unfoldable pub first_buffer : File → File
first_buffer f = elim f.curr_cache [
  | none ↦
      record (set_slot f 0
        (record (slot f 0) { buff_size = buffer_size; pos = 0; is_active = true })) {
          curr_cache = some 0;
        }
  | some i ↦ f
]

-- `io61_writec` with `depth` calls left, itself included.
unfoldable pub writec_from : ℕ → File → ℕ → Option File
unfolding first_buffer copy_in io61_flush
writec_from zero f ch = none
writec_from (suc depth) f ch = do
  let g = first_buffer f
  i ← g.curr_cache
  let c = slot g i
  let again = (do h ← io61_flush g; writec_from depth h ch)
  if ltb c.pos c.buff_size
      then (do
        arr_buf ← copy_in c.arr_buf c.pos ((ch % 256) ∷ []) 1
        some (set_slot g i (record c { arr_buf = arr_buf; pos = c.pos + 1 })))
      else again

-- An empty buffer takes a character, so one recursive call is enough: see `Output`.
unfoldable pub io61_writec : File → ℕ → Option File
unfolding writec_from
io61_writec f ch = writec_from 2 f ch

-- How many bytes a round of a copying loop moves, with `total_char_left` to go.
unfoldable pub chunk : Slot → (total_char_left : ℕ) → ℕ
chunk c total_char_left =
    let char_left = (c.buff_size + u32 - c.pos) % u32 in
    if ltb char_left total_char_left then char_left else total_char_left

-- The loop of `io61_write`, over the slot `i`, with `nwritten` of `sz` bytes of `buf` copied.
unfoldable pub write_loop :
    ℕ → File → (i : ℕ) → (buf : List ℕ) → (nwritten total_char_left : ℕ) → Option (ℕ × File)
write_loop zero f i buf nwritten total_char_left = none
write_loop (suc fuel) f i buf nwritten total_char_left =
    if nwritten == length buf then some (nwritten, f) else do
      let left = (total_char_left + u32 - nwritten) % u32
      let c = slot f i
      let n = chunk c left
      arr_buf ← copy_in c.arr_buf c.pos (drop nwritten buf) n
      let g = set_slot f i (record c { arr_buf = arr_buf; pos = c.pos + n })
      let more = write_loop fuel g i buf (nwritten + n) left
      let flushed = (do h ← io61_flush g; write_loop fuel h i buf (nwritten + n) left)
      if c.pos + n == c.buff_size then flushed else more

-- `io61_write` with `depth` calls left, itself included.
unfoldable pub write_from : ℕ → ℕ → File → List ℕ → Option (ℕ × File)
unfolding first_buffer write_loop io61_flush copy_in chunk
write_from fuel zero f buf = none
write_from fuel (suc depth) f buf = do
  let g = first_buffer f
  i ← g.curr_cache
  let c = slot g i
  let again = (do h ← io61_flush g; write_from fuel depth h buf)
  if ltb c.pos c.buff_size then write_loop fuel g i buf 0 (length buf) else again

-- `sz` is the length of `buf`, and the number is what the function returns.
unfoldable pub io61_write : File → List ℕ → Option (ℕ × File)
unfolding write_from
io61_write f buf = write_from (length buf + 3) 2 f buf

-- What `io61_close` leaves behind; the descriptor is then closed and the file freed.
unfoldable pub io61_close : File → Option Descriptor
unfolding io61_flush
io61_close f = do g ← io61_flush f; some g.fd
