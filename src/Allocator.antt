-- ===== src/Allocator.antt =====
-- pset1/m61.c: the debugging allocator, on a 32-bit target.
-- A pointer is its address, and NULL is 0. `metas` and `feet` are the headers and the footers by
-- their address, whatever lies there before the allocator writes one, and `mapped` says where there
-- is memory for one: an access elsewhere faults. Blocks are taken not to
-- overlap, so that a write to one of them leaves the others, and to keep their headers when they are
-- given back to `free`. `size_t` has 32 bits and `unsigned long long` 64.
pub mod Invariant
pub mod Pushing
pub mod Taking
pub mod Freeing
pub mod Unlinking
pub mod Releasing
pub mod Again
pub mod Resizing
mod Tests
use cs61_psets.Common.Bytes.{u32, u64}
use cs61_psets.Common.{
  ℕ, zero, suc, ◌+◌, ◌-◌, ◌%◌, Bool, true, false, Option, none, some, List, [], ◌∷◌, ◌++◌, ◌*◌, ◌^◌,
  ltb, leb, ◌==◌, ◌&&◌, ◌||◌, not, if◌then◌else◌, put, ◌>>=◌,
}

-- `default_head` and `default_foot`
abbrev pub default_head : ℕ
default_head = 1234

abbrev pub default_foot : ℕ
default_foot = 4321

-- `m61_statistics`
pub record Statistics : Type 0 where
  pub nactive : ℕ
  pub active_size : ℕ
  pub ntotal : ℕ
  pub total_size : ℕ
  pub nfail : ℕ
  pub fail_size : ℕ
  pub heap_min : ℕ
  pub heap_max : ℕ

-- `m61_meta`
pub record Meta : Type 0 where
  pub header : ℕ
  pub size : ℕ
  pub is_active : Bool
  pub file : ℕ
  pub line : ℕ
  pub next : ℕ
  pub prev : ℕ

-- `heavy_stats` without its link: a bucket of `hash_table` is a list
pub record HeavyStats : Type 0 where
  pub size : ℕ
  pub file : ℕ
  pub line : ℕ
  pub allocs : ℕ

pub record Heap : Type 0 where
  pub total_stats : Statistics
  pub root : ℕ
  pub metas : ℕ → Meta
  pub feet : ℕ → ℕ
  pub mapped : ℕ → Bool
  pub hash_table : ℕ → List HeavyStats

-- sizeof(m61_meta), sizeof(m61_foot) and sizeof(long long)
abbrev pub meta_size : ℕ
meta_size = 28

abbrev pub foot_size : ℕ
foot_size = 4

abbrev pub long_long_size : ℕ
long_long_size = 8

unfoldable pub find_pad : ℕ
find_pad =
    if leb meta_size (2 * long_long_size)
    then 2 * long_long_size - meta_size
    else meta_size % long_long_size

-- `x - y` on pointers and on `unsigned long long`
abbrev pub minus : ℕ → ℕ → ℕ
minus x y = (x + u32 - y) % u32

abbrev pub minus64 : ℕ → ℕ → ℕ
minus64 x y = (x + u64 - y) % u64

-- `find_meta`, from `node` on, through `fuel` headers at most; `none` is a fault.
unfoldable pub find_meta : ℕ → Heap → (ptr node : ℕ) → Option ℕ
find_meta zero h ptr node = some 0
find_meta (suc fuel) h ptr node =
    let l_bound = (node + meta_size) % u32 in
    let u_bound = (l_bound + (h.metas node).size) % u32 in
    let rest = find_meta fuel h ptr (h.metas node).prev in
    if node == 0
    then some 0
    else if not (h.mapped node)
    then none
    else if leb l_bound ptr && leb ptr u_bound
    then some node
    else rest

-- The rest of `fill_heavy`, on the bucket that the key selects; an empty one gets its first entry.
unfoldable pub add_heavy : (size file line : ℕ) → List HeavyStats → List HeavyStats
add_heavy size file line [] = record { size = size; file = file; line = line; allocs = 1 } ∷ []
add_heavy size file line (curr ∷ rest) =
    let later = add_heavy size file line rest in
    if (curr.file == file) && (curr.line == line)
    then record curr { allocs = (curr.allocs + 1) % u64 } ∷ rest
    else curr ∷ later

-- a request that fails
abbrev pub failed : Heap → ℕ → Heap
failed h sz =
    let t = h.total_stats in
    record h {
      total_stats = record t { nfail = (t.nfail + 1) % u64; fail_size = (t.fail_size + sz) % u64 };
    }

-- What `m61_malloc` does with the block that `malloc` returned: the header, the footer, the list
-- of active headers, the statistics, and the bucket `index` of the hash table.
unfoldable pub take_block : (index : ℕ) → Heap → (ptr sz new_sz file line : ℕ) → Heap
unfolding find_pad add_heavy
take_block index h ptr sz new_sz file line =
    let t = h.total_stats in
    let at = (ptr + find_pad) % u32 in
    let blank = put h.metas at (record {
      header = default_head;
      size = sz;
      is_active = true;
      file = file;
      line = line;
      next = 0;
      prev = 0;
    }) in
    let told = put blank h.root (record (blank h.root) { next = at }) in
    let linked = put told at (record (told at) { prev = h.root }) in
    record h {
      total_stats = record t {
        nactive = (t.nactive + 1) % u64;
        active_size = (t.active_size + sz) % u64;
        ntotal = (t.ntotal + 1) % u64;
        total_size = (t.total_size + sz) % u64;
        heap_min = if (t.heap_min == 0) || ltb ptr t.heap_min then ptr else t.heap_min;
        heap_max =
            if ltb t.heap_max ((ptr + new_sz) % u32) then (ptr + new_sz) % u32 else t.heap_max;
      };
      root = at;
      metas = if h.root == 0 then blank else linked;
      feet = put h.feet ((at + meta_size + sz) % u32) default_foot;
      mapped = put (put h.mapped at true) ((at + meta_size + sz) % u32) true;
      hash_table = put h.hash_table index (add_heavy sz file line (h.hash_table index));
    }

-- `m61_malloc`: the result and the heap after it. `fresh` is what `malloc` returns, and `index` is
-- the place that `hash` gives to the file and the line.
unfoldable pub m61_malloc : (fresh index : ℕ) → Heap → (sz file line : ℕ) → ℕ × Heap
unfolding take_block find_pad
m61_malloc fresh index h sz file line =
    let new_sz = (sz + find_pad + meta_size + foot_size) % u32 in
    if ltb new_sz sz || leb (2 ^ 31) sz
    then (0, failed h sz)
    else if fresh == 0
    then (0, failed h sz)
    else ((fresh + meta_size + find_pad) % u32, take_block index h fresh sz new_sz file line)

-- The messages of `m61_free`.
pub data Message : Type 0 where
  not_in_heap invalid not_allocated wild_write : Message
  inside : (found offset : ℕ) → Message

-- `meta->next->prev = meta->prev` and `meta->prev->next = meta->next`, if there is such a header.
unfoldable pub link_back : (ℕ → Meta) → (at : ℕ) → ℕ → Meta
link_back metas at =
    let n = (metas at).next in
    if n == 0 then metas else put metas n (record (metas n) { prev = (metas at).prev })

unfoldable pub link_forth : (ℕ → Meta) → (at : ℕ) → ℕ → Meta
link_forth metas at =
    let p = (metas at).prev in
    if p == 0 then metas else put metas p (record (metas p) { next = (metas at).next })

-- The header leaves the list.
unfoldable pub unlink : Heap → (at : ℕ) → Heap
unfolding link_back link_forth
unlink h at =
    let p = (h.metas at).prev in
    let cut = record h { root = p; metas = put h.metas p (record (h.metas p) { next = 0 }) } in
    let joined = record h { metas = link_forth (link_back h.metas at) at } in
    if h.root == at then (if p == 0 then record h { root = 0 } else cut) else joined

-- The branch of `m61_free` that releases the block at `ptr` with the header `at`: the statistics,
-- then the list.
abbrev pub settle : Heap → (ptr at : ℕ) → Heap
settle h ptr at =
    let t = h.total_stats in
    let m = h.metas at in
    record h {
      total_stats = record t {
        nactive = minus64 t.nactive 1;
        active_size = minus64 t.active_size m.size;
        heap_min = if ltb at t.heap_min then m.next else t.heap_min;
        heap_max = if ltb t.heap_max ((ptr + m.size) % u32) then m.prev else t.heap_max;
      };
      metas = put h.metas at (record m { is_active = false });
    }

unfoldable pub release_block : Heap → (ptr at : ℕ) → Heap
unfolding unlink
release_block h ptr at = unlink (settle h ptr at) at

-- The checks of `m61_free`, of which the first that fails is reported; `none` is a fault.
unfoldable pub check_block : (fuel : ℕ) → Heap → (ptr at : ℕ) → Option (List Message)
unfolding find_meta
check_block fuel h ptr at =
    let m = h.metas at in
    let foot = (ptr + m.size) % u32 in
    let nearest =
      (find_meta fuel h ptr h.root >>= λ found. some (
        if found == 0
        then not_allocated ∷ []
        else not_allocated ∷ inside found (minus ptr ((found + meta_size) % u32)) ∷ [])) in
    if not (h.mapped at)
    then none
    else if not m.is_active
    then nearest
    else if not (m.header == default_head)
    then some (wild_write ∷ [])
    else if not (h.mapped foot)
    then none
    else if not (h.feet foot == default_foot)
    then some (wild_write ∷ [])
    else if m.prev == 0
    then some []
    else if not (h.mapped m.prev)
    then none
    else if not ((h.metas m.prev).next == at)
    then some (not_allocated ∷ [])
    else some []

-- The release of a block that passed the checks writes to the next header, if it is not the root.
unfoldable pub release_checked : Heap → (ptr at : ℕ) → Option Heap
unfolding release_block
release_checked h ptr at =
    let n = (h.metas at).next in
    if not (h.root == at) && not (n == 0) && not (h.mapped n)
    then none
    else some (release_block h ptr at)

-- what the checks lead to, with the messages before them
abbrev pub follow :
    Heap → (ptr at : ℕ) (first : List Message) → Option (List Message) → List Message × Option Heap
follow h ptr at first none = (first, none)
follow h ptr at first (some []) = (first, release_checked h ptr at)
follow h ptr at first (some (m ∷ rest)) = (first ++ (m ∷ rest), some h)

-- `m61_free`: the messages and the heap after it, `none` when it aborts or faults. `fuel` is for
-- `find_meta`. After the message `invalid` it goes on.
unfoldable pub m61_free : (fuel : ℕ) → Heap → (ptr : ℕ) → List Message × Option Heap
unfolding release_checked check_block
m61_free fuel h ptr =
    let t = h.total_stats in
    let at = minus ptr meta_size in
    let first : List Message = if (t.nactive == 0) || (ptr == 0) then invalid ∷ [] else [] in
    if t.ntotal == 0
    then (not_in_heap ∷ [], none)
    else follow h ptr at first (check_block fuel h ptr at)
