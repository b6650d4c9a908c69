-- ===== src/Io61.antt =====
-- pset3/io61.c: buffered files over a file descriptor, with twelve cache slots.
-- An `io61_file` is a record, and a function that changes it returns the new one. `none` is an
-- access that C leaves undefined: a byte outside a buffer, the mapping or the caller's memory.
pub mod Reading
pub mod Writing
pub mod Slots
pub mod Output
pub mod Stream
pub mod Blocks
pub mod Whole
pub mod Input
pub mod Readc
pub mod Seek
pub mod Programs
pub mod Tests
use cs61_psets.Common.{
  ℕ, zero, suc, ◌+◌, ◌-◌, ◌%◌, ◌^◌, ◌≡◌, Bool, true, false, Option, none, some, List, [], ◌∷◌, ◌++◌,
  ltb, leb, ◌==◌, ◌&&◌, not, if◌then◌else◌, ◌>>=◌, ◌>>◌, assert, length, get_elem?, get_or, set,
  take, drop,
}
use cs61_psets.Common.Bytes.{u32}

-- BUFFER_SIZE
abbrev pub buffer_size : ℕ
buffer_size = 4096

-- NUM_CACHE
abbrev pub num_cache : ℕ
num_cache = 12

abbrev pub int_max : ℕ
int_max = 2 ^ 31 - 1

-- `cache_slot`. `str_buf` points into the mapping, so it is an index there.
pub record Slot : Type 0 where
  pub arr_buf : List ℕ
  pub str_buf : ℕ
  pub is_active : Bool
  pub pos : ℕ
  pub offset : ℕ
  pub buff_size : ℕ
  pub created_count : ℕ

-- O_RDONLY and O_WRONLY
pub data Mode : Type 0 where
  rdonly wronly : Mode

-- A system call that moves or fills the file behind the descriptor.
pub data Call : Type 0 where
  write_call : List ℕ → Call
  lseek_call : ℕ → Call

-- The kernel's side of the descriptor: the calls that it was given so far, and what the next
-- calls of `read` deliver; an empty delivery, or none, is the end of the file.
pub record Descriptor : Type 0 where
  pub calls : List Call
  pub incoming : List (List ℕ)

-- `struct io61_file`. A `filesize` or a `curr_cache` of -1 is `none`.
pub record File : Type 0 where
  pub fd : Descriptor
  pub mode : Mode
  pub file_data : List ℕ
  pub cache : List Slot
  pub filesize : Option ℕ
  pub curr_cache : Option ℕ
  pub cache_count : ℕ

abbrev pub blank : Slot
blank = record {
  arr_buf = [];
  str_buf = 0;
  is_active = false;
  pos = 0;
  offset = 0;
  buff_size = 0;
  created_count = 0;
}

abbrev pub slot : File → ℕ → Slot
slot f i = get_or f.cache i blank

abbrev pub set_slot : File → ℕ → Slot → File
set_slot f i c = record f { cache = set f.cache i c }

-- The loop of `get_free_cache`, at index `i`; `true` comes with a slot that is not active.
unfoldable pub scan_free : List Slot → (i oldest_cache lowest_count : ℕ) → ℕ × Bool
scan_free [] i oldest_cache lowest_count = (oldest_cache, false)
scan_free (c ∷ cs) i oldest_cache lowest_count =
    let older = ltb c.created_count lowest_count in
    let rest =
      scan_free cs (i + 1) (if older then i else oldest_cache)
        (if older then c.created_count else lowest_count) in
    if not c.is_active then (i, true) else rest

-- The file, with the slot made active, and the slot's index.
unfoldable pub get_free_cache : File → File × ℕ
unfolding scan_free
get_free_cache f =
    let (i, inactive) = scan_free f.cache 0 0 int_max in
    (if inactive then set_slot f i (record (slot f i) { is_active = true }) else f, i)

-- `read(fd, arr_buf, BUFFER_SIZE)`: the bytes that it delivers, and the descriptor after it.
abbrev pub delivery : Descriptor → List ℕ × Descriptor
delivery fd = elim fd.incoming [
  | [] ↦ ([], fd)
  | chunk ∷ rest ↦ (take buffer_size chunk, record fd { incoming = rest })
]

-- The end of `fill_new_cache`, with the slot `i` holding `chars_read` bytes.
unfoldable pub finish_fill : File → (i offset chars_read : ℕ) → File × Bool
finish_fill f i offset chars_read =
    if chars_read == 0 then (set_slot f i (record (slot f i) { is_active = false }), false) else (
      record (set_slot f i (record (slot f i) {
        buff_size = chars_read;
        pos = 0;
        offset = offset;
        is_active = true;
        created_count = f.cache_count + 1;
      })) { cache_count = f.cache_count + 1; curr_cache = some i },
      true,
    )

-- `fill_new_cache` with the free slot `i`. `f->filesize - offset` is of type `size_t`.
unfoldable pub fill_slot : File → (i offset : ℕ) → File × Bool
fill_slot f i offset = elim f.filesize [
  | none ↦
      let (bytes, fd) = delivery f.fd in
      let c = slot f i in
      finish_fill
        (record (set_slot f i (record c { arr_buf = bytes ++ drop (length bytes) c.arr_buf })) {
          fd = fd;
        })
        i offset (length bytes)
  | some filesize ↦
      let left = (filesize + u32 - offset) % u32 in
      finish_fill (set_slot f i (record (slot f i) { str_buf = offset })) i offset
        (if ltb left buffer_size then left else buffer_size)
]

-- `true` if the function returns a slot, which is then the current one; `false` for NULL.
unfoldable pub fill_new_cache : File → ℕ → File × Bool
fill_new_cache f offset = let (g, i) = get_free_cache f in fill_slot g i offset

-- The loop of `find_cache_offset`, at index `i`.
unfoldable pub scan_offset : List Slot → (i offset : ℕ) → Option ℕ
scan_offset [] i offset = none
scan_offset (c ∷ cs) i offset =
    let rest = scan_offset cs (i + 1) offset in
    if c.is_active && leb c.offset offset && ltb offset (c.offset + c.buff_size)
    then some i
    else rest

unfoldable pub find_cache_offset : File → ℕ → File × Bool
unfolding scan_offset
find_cache_offset f offset = elim (scan_offset f.cache 0 offset) [
  | none ↦ (f, false)
  | some i ↦ (record f { curr_cache = some i }, true)
]

-- `st_size` is what `io61_filesize` returns, `none` for -1, and `mapping` what `mmap` maps. The
-- slots stand in the block `garbage` that `malloc` returns. A size that an `int` cannot hold is
-- not modelled.
unfoldable pub io61_fdopen :
    Descriptor
    → Mode
    → (st_size : Option ℕ) → (mapping : List ℕ) → (garbage : List Slot) → Option File
io61_fdopen fd mode st_size mapping garbage = do
  assert (elim st_size [ none ↦ true | some n ↦ leb n int_max ])
  some (record {
    fd = fd;
    mode = mode;
    file_data = mapping;
    cache = garbage;
    filesize = st_size;
    curr_cache = none;
    cache_count = 0;
  })
