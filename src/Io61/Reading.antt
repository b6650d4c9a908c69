-- ===== src/Io61/Reading.antt =====
-- pset3/io61.c: io61_readc, io61_read and io61_seek.
use cs61_psets.Common.{
  ℕ, zero, suc, ◌+◌, ◌-◌, ◌%◌, Bool, true, false, Option, none, some, List, [], ◌∷◌, ◌++◌, ltb, leb,
  ◌==◌, not, if◌then◌else◌, ◌>>=◌, ◌>>◌, assert, length, get_elem?, take, drop,
}
use cs61_psets.Common.Bytes.{u32}
use cs61_psets.Io61.{
  buffer_size, Slot, rdonly, wronly, lseek_call, File, slot, set_slot, fill_new_cache,
  find_cache_offset,
}
use cs61_psets.Io61.Writing.{io61_flush, chunk}

-- The first lines of `io61_readc` and `io61_read`: `false` if there is no slot to read from.
unfoldable pub first_cache : File → File × Bool
unfolding fill_new_cache
first_cache f = elim f.curr_cache [ none ↦ fill_new_cache f 0 | some i ↦ (f, true) ]

-- The buffer that the current slot stands for, from its position on.
abbrev pub buffer_rest : File → Slot → List ℕ
buffer_rest f c = elim f.filesize [
  | none ↦ drop c.pos c.arr_buf
  | some n ↦ drop (c.str_buf + c.pos) f.file_data
]

-- `n` bytes of a buffer, if it has as many.
unfoldable pub copy_out : List ℕ → ℕ → Option (List ℕ)
copy_out bytes n = do assert (leb n (length bytes)); some (take n bytes)

-- `io61_readc` with `depth` calls left, itself included; the byte is `none` for EOF.
unfoldable pub readc_from : ℕ → File → Option (Option ℕ × File)
unfolding first_cache
readc_from zero f = none
readc_from (suc depth) f =
    let (g, ok) = first_cache f in
    if not ok then some (none, g) else do
      i ← g.curr_cache
      let c = slot g i
      let (h, filled) = fill_new_cache g (c.offset + c.pos)
      let again = readc_from depth h
      if ltb c.pos c.buff_size
          then (do
            byte ← get_elem? (buffer_rest g c) 0
            some (some byte, set_slot g i (record c { pos = c.pos + 1 })))
          else if not filled
          then some (none, h)
          else again

-- A slot that was just filled has bytes, so one recursive call is enough: see `Input`.
unfoldable pub io61_readc : File → Option (Option ℕ × File)
unfolding readc_from
io61_readc f = readc_from 2 f

-- The loop of `io61_read`, over the slot `i`: `nread` bytes are in `out`, which is `buf`.
unfoldable pub read_loop :
    ℕ → File → (i sz nread total_char_left : ℕ) → (out : List ℕ) → Option (List ℕ × File)
unfolding copy_out chunk
read_loop zero f i sz nread total_char_left out = none
read_loop (suc fuel) f i sz nread total_char_left out = if nread == sz then some (out, f) else do
  let left = (total_char_left + u32 - nread) % u32
  let c = slot f i
  let n = chunk c left
  assert (leb (nread + n) sz)
  bytes ← copy_out (buffer_rest f c) n
  let g = set_slot f i (record c { pos = c.pos + n })
  let (h, filled) = fill_new_cache g (c.offset + (c.pos + n))
  let more = read_loop fuel g i sz (nread + n) left (out ++ bytes)
  let refilled = (do j ← h.curr_cache; read_loop fuel h j sz (nread + n) left (out ++ bytes))
  if c.pos + n == c.buff_size
      then (if not filled then some (out ++ bytes, h) else refilled)
      else more

-- `io61_read` with `depth` calls left, itself included, on a buffer of `sz` bytes.
unfoldable pub read_from : ℕ → ℕ → File → ℕ → Option (List ℕ × File)
unfolding first_cache read_loop
read_from fuel zero f sz = none
read_from fuel (suc depth) f sz =
    let (g, ok) = first_cache f in
    if not ok then some ([], g) else do
      i ← g.curr_cache
      let c = slot g i
      let (h, filled) = fill_new_cache g (c.offset + c.pos)
      let again = read_from fuel depth h sz
      if ltb c.pos c.buff_size
          then read_loop fuel g i sz 0 sz []
          else if not filled
          then some ([], h)
          else again

-- The bytes that it puts into `buf`; it returns their number.
unfoldable pub io61_read : File → ℕ → Option (List ℕ × File)
unfolding read_from
io61_read f sz = read_from (sz + 3) 2 f sz

-- `pos - (offset + cpos - 1)`, as an `int`, is -1.
unfoldable pub is_reverse : (pos offset cpos : ℕ) → Bool
is_reverse pos offset cpos = (pos + u32 - (offset + cpos + u32 - 1) % u32) % u32 == u32 - 1

-- `io61_seek` on a file that is read: the lines that look for a move backwards by one byte, with
-- the current slot `c`. `false` if they return.
unfoldable pub reverse_from : File → ℕ → Slot → File × Bool
unfolding is_reverse fill_new_cache find_cache_offset
reverse_from f pos c =
    let (g, found) = find_cache_offset f ((pos + u32 - 1) % u32) in
    if is_reverse pos c.offset c.pos
    then (if found
        then (g, true)
        else fill_new_cache g (if ltb pos buffer_size then 0 else pos + 1 - buffer_size))
    else (f, true)

unfoldable pub seek_reverse : File → ℕ → File × Bool
unfolding reverse_from
seek_reverse f pos = elim f.curr_cache [ none ↦ (f, true) | some i ↦ reverse_from f pos (slot f i) ]

-- The rest of `io61_seek` on a file that is read, up to the test of what `lseek` returned; `false`
-- if it returns 0 before.
unfoldable pub seek_to : File → ℕ → Option (File × Bool)
unfolding fill_new_cache find_cache_offset
seek_to f pos =
    let (g, found) = find_cache_offset f pos in
    let (h, ok) = if found then (g, true) else fill_new_cache g pos in
    if not ok then some (h, false) else do
      i ← h.curr_cache
      let c = slot h i
      some (set_slot h i (record c { pos = (pos + u32 - c.offset) % u32 }), true)

-- The two branches of `io61_seek`, after `lseek`, which returned `lseek`; `true` stands for 0, and
-- `false` for -1.
unfoldable pub seek_read : File → (pos lseek : ℕ) → Option (Bool × File)
unfolding seek_reverse seek_to
seek_read f pos lseek =
    let (g, ok) = seek_reverse f pos in
    if not ok
    then some (true, g)
    else do (h, placed) ← seek_to g pos; some ((if placed then lseek == pos else true), h)

unfoldable pub seek_write : File → (pos lseek : ℕ) → Option (Bool × File)
seek_write f pos lseek = do g ← io61_flush f; some (lseek == pos, g)

unfoldable pub io61_seek : File → (pos lseek : ℕ) → Option (Bool × File)
unfolding seek_read seek_write
io61_seek f pos lseek =
    let sought = record f { fd = record f.fd { calls = f.fd.calls ++ (lseek_call pos ∷ []) } } in
    elim f.mode [ rdonly ↦ seek_read sought pos lseek | wronly ↦ seek_write sought pos lseek ]
