-- ===== src/Io61/Output.antt =====
-- What a file opened for writing hands to the descriptor: the characters in the order of the calls.
use cs61_psets.Common.{
  ℕ, ◌+◌, ◌≤◌, ◌<◌, ◌≡◌, refl, ◌⊎◌, inl, inr, true, none, some, List, [], ◌∷◌, ◌++◌, append-nil,
  append_assoc, arith, length, take, drop, length-append, length-take, length-drop, take-append,
}
use cs61_psets.Io61.{Slot, wronly, Call, write_call, lseek_call, Descriptor, File, slot}
use cs61_psets.Io61.Writing.{copy_in, flush_slots, io61_flush, first_buffer}

-- the bytes that the calls of `write` were given
abbrev pub stream : List Call → List ℕ
stream [] = []
stream (write_call bytes ∷ rest) = bytes ++ stream rest
stream (lseek_call pos ∷ rest) = stream rest

-- no slot but the first one holds output
abbrev pub Idle : List Slot → Type 0
Idle [] = Unit
Idle (c ∷ cs) = (c.pos ≡ 0) × Idle cs

-- what the program has written so far, whether or not it has left the buffer
abbrev pub output : File → List ℕ
output f = stream f.fd.calls ++ take (slot f 0).pos (slot f 0).arr_buf

pub record IsWriter (f : File) : Type 0 where
  pub first : Slot
  pub others : List Slot
  pub shape : f.cache ≡ first ∷ others
  pub writing : f.mode ≡ wronly
  pub idle : Idle others
  pub room : length first.arr_buf ≡ 4096
  pub current :
      ((f.curr_cache ≡ none) × (first.pos ≡ 0))
      ⊎ ((f.curr_cache ≡ some 0) × (first.buff_size ≡ 4096) × (first.pos ≤ 4096))

pub stream-append : (xs ys : List Call) → stream (xs ++ ys) ≡ stream xs ++ stream ys
stream-append [] ys = refl
stream-append (write_call bytes ∷ xs) ys = simp (stream-append xs ys, append_assoc)
stream-append (lseek_call pos ∷ xs) ys = stream-append xs ys

flush_slots-Idle : (cs : List Slot) → Idle cs → flush_slots cs ≡ some ([], cs)
unfolding flush_slots
flush_slots-Idle [] h = refl
flush_slots-Idle (c ∷ cs) h = ground (arith, flush_slots-Idle cs h.1)

-- a file open for writing with a current slot, from its parts
abbrev pub writer : File → Slot → List Slot → File
writer f c cs = record f { cache = c ∷ cs; curr_cache = some 0; mode = wronly }

-- the same whatever the current slot is
abbrev pub shaped : File → Slot → List Slot → File
shaped f c cs = record f { cache = c ∷ cs; mode = wronly }

pub flush-shaped :
    (f : File) (c : Slot) (cs : List Slot)
    → Idle cs
    → length c.arr_buf ≡ 4096
    → c.pos ≤ 4096
    → (fd : Descriptor) × (io61_flush (shaped f c cs)
        ≡ some (record (shaped f (record c { pos = 0 }) cs) { fd = fd }))
      × (stream fd.calls ≡ stream f.fd.calls ++ take c.pos c.arr_buf)
unfolding io61_flush flush_slots
flush-shaped f c cs idle room small = elim (zero_or_pos c.pos) [
  | inl z ↦ (
    record f.fd { calls = f.fd.calls ++ [] },
    ground (arith, flush_slots-Idle cs idle),
    rw (append-nil, z, append-nil),
  )
  | inr p ↦ (
    record f.fd { calls = f.fd.calls ++ (write_call (take c.pos c.arr_buf) ∷ []) },
    ground (arith, flush_slots-Idle cs idle),
    rw (stream-append f.fd.calls (write_call (take c.pos c.arr_buf) ∷ []), append-nil),
  )
]
  where
    zero_or_pos : (n : ℕ) → (n ≡ 0) ⊎ (0 < n)
    zero_or_pos n = omega arith

-- `n` bytes of `bytes` go into the buffer behind the `pos` bytes that it holds.
copy_in_lem :
    (arr bytes : List ℕ) (pos n : ℕ)
    → length arr ≡ 4096
    → n ≤ length bytes
    → pos + n ≤ 4096
    → (arr' : List ℕ) × (copy_in arr pos bytes n ≡ some arr')
      × (length arr' ≡ 4096)
      × (take (pos + n) arr' ≡ take pos arr ++ take n bytes)
unfolding copy_in
copy_in_lem arr bytes pos n room has fits = (
  take pos arr ++ (take n bytes ++ drop (pos + n) arr),
  ground arith,
  omega (
    arith,
    length-append (take pos arr) (take n bytes ++ drop (pos + n) arr),
    length-append (take n bytes) (drop (pos + n) arr),
    length-take pos arr,
    length-take n bytes,
    length-drop (pos + n) arr,
  ),
  rw (← append_assoc) (
      take-append (pos + n) (take pos arr ++ take n bytes) (drop (pos + n) arr) (
        omega (
          arith,
          length-append (take pos arr) (take n bytes),
          length-take pos arr,
          length-take n bytes,
        ))),
)

-- what is kept of a writer while its slot changes
pub record Kept (f : File) (fd : Descriptor) (c : Slot) (more : List ℕ) : Type 0 where
  pub room : length c.arr_buf ≡ 4096
  pub size : c.buff_size ≡ 4096
  pub small : c.pos ≤ 4096
  pub held : stream fd.calls ++ take c.pos c.arr_buf ≡ output f ++ more

-- what `first_buffer` makes of a writer
pub first_buffer-writer :
    {f : File}
    → IsWriter f
    → (c : Slot) × (cs : List Slot) × (first_buffer f ≡ writer f c cs)
      × Idle cs
      × Kept f f.fd c []
      × (c.pos ≡ (slot f 0).pos)
unfolding first_buffer
first_buffer-writer {f} v = elim v.current [
  | inl (e, z) ↦ (
    record v.first { buff_size = 4096; pos = 0; is_active = true },
    v.others,
    ground arith,
    v.idle,
    record {
      room = v.room;
      size = refl;
      small = omega arith;
      held = rw (v.shape, z, append-nil, append-nil);
    },
    rw (v.shape, z),
  )
  | inr (e, size, small) ↦ (
    v.first,
    v.others,
    ground arith,
    v.idle,
    record { room = v.room; size = size; small = small; held = rw (v.shape, append-nil) },
    rw v.shape,
  )
]

-- what a step of a writer returns: a writer again, which has written `more`
abbrev pub Wrote : File → List ℕ → File → Type 0
Wrote f more f' = IsWriter f' × (output f' ≡ output f ++ more)

module _ (f : File) {fd : Descriptor} {c : Slot} {more : List ℕ} (k : Kept f fd c more) where
  -- one more copy into the buffer
  pub copy-Kept :
      (bytes : List ℕ) (n : ℕ)
      → n ≤ length bytes
      → c.pos + n ≤ 4096
      → (arr : List ℕ) × (copy_in c.arr_buf c.pos bytes n ≡ some arr)
        × Kept f fd (record c { arr_buf = arr; pos = c.pos + n }) (more ++ take n bytes)
  copy-Kept bytes n has fits =
      let (arr, copied, room, held) = copy_in_lem c.arr_buf bytes c.pos n k.room has fits in
      (
        arr,
        copied,
        record {
          room = room;
          size = k.size;
          small = fits;
          held = rw (held, ← append_assoc, k.held, append_assoc);
        },
      )

module _ (f : File) {fd : Descriptor} {c : Slot} {cs : List Slot} {more : List ℕ} (idle : Idle cs)
    (k : Kept f fd c more) where
  pub Kept-Wrote : Wrote f more (record (writer f c cs) { fd = fd })
  Kept-Wrote = (
    record {
      first = c;
      others = cs;
      shape = refl;
      writing = refl;
      idle = idle;
      room = k.room;
      current = inr (refl, k.size, k.small);
    },
    k.held,
  )

  -- a flush empties the buffer
  pub flush-Kept :
      (fd' : Descriptor) × (io61_flush (record (writer f c cs) { fd = fd })
        ≡ some (record (writer f (record c { pos = 0 }) cs) { fd = fd' }))
      × Kept f fd' (record c { pos = 0 }) more
  flush-Kept =
      let (fd', flushed, sent) =
        flush-shaped (record f { fd = fd; curr_cache = some 0 }) c cs idle k.room k.small in
      (
        fd',
        flushed,
        record {
          room = k.room;
          size = k.size;
          small = omega arith;
          held = rw (sent, append-nil) k.held;
        },
      )
