-- ===== src/Allocator/Tests.antt =====
-- A request of 10 bytes on the heap before the first call.
use cs61_psets.Common.Bytes.{u32}
use cs61_psets.Common.{
  ℕ, ◌^◌, ◌+◌, ◌%◌, ◌≡◌, refl, arith, inl, inr, ◌≤◌, none, false, some, [], ◌∷◌, sum_to-zero,
}
use cs61_psets.Allocator.{
  Heap, Meta, meta_size, find_pad, minus, m61_malloc, m61_free, Message, not_allocated,
}
use cs61_psets.Allocator.Invariant.{active_one, active_bytes, Inv}
use cs61_psets.Allocator.Taking.{Fresh, Taken, m61_malloc-Taken}
use cs61_psets.Allocator.Releasing.{Released, m61_free-Released}
use cs61_psets.Allocator.Resizing.{memset_call, m61_calloc}
use cs61_psets.Allocator.Again.{m61_free-m61_malloc}

abbrev blank : Meta
blank = record { header = 0; size = 0; is_active = false; file = 0; line = 0; next = 0; prev = 0 }

abbrev empty : Heap
empty = record {
  total_stats = record {
    nactive = 0;
    active_size = 0;
    ntotal = 0;
    total_size = 0;
    nfail = 0;
    fail_size = 0;
    heap_min = 0;
    heap_max = 0;
  };
  root = 0;
  metas = λ b. blank;
  feet = λ b. 0;
  mapped = λ b. false;
  hash_table = λ i. [];
}

empty-Inv : Inv empty
empty-Inv = record {
  links = record {
    place = λ b a. absurd (ground (arith, a));
    before = λ b a. inl refl;
    behind = λ b a. inl refl;
    root = inl refl;
    last = λ b a e. absurd (ground (arith, a));
  };
  readable = λ b a. absurd (ground (arith, a));
  small = λ b a. omega arith;
  count = omega (arith, sum_to-zero active_one u32 (λ b. blank) (λ i h. refl));
  bytes = omega (arith, sum_to-zero active_bytes u32 (λ b. blank) (λ i h. refl));
}

-- `malloc` returns the address 4096.
at_4096 : Fresh empty 4096
unfolding find_pad
at_4096 = inr (omega arith, refl)

m61_malloc-Taken_example : Taken 4096 empty (m61_malloc 4096 0 empty 10 7 1)
m61_malloc-Taken_example = m61_malloc-Taken 4096 0 empty 10 7 1 empty-Inv at_4096

abbrev used : Heap
used = (m61_malloc 4096 0 empty 10 7 1).1

used-Inv : Inv used
used-Inv = (m61_malloc-Taken 4096 0 empty 10 7 1 empty-Inv at_4096).0

once : 1 ≤ used.total_stats.ntotal
unfolding m61_malloc
once = omega arith

m61_free-Released_example : Released used 4128 (minus 4128 meta_size) (m61_free 3 used 4128)
m61_free-Released_example = m61_free-Released 3 used 4128 used-Inv once

pointer : 1 ≤ (4096 + meta_size + find_pad) % u32
unfolding find_pad
pointer = omega arith

m61_free-m61_malloc_example :
    let (r, h') = m61_malloc 4096 0 empty 10 7 1 in
    (h'' : Heap) × (m61_free 3 h' r ≡ ([], some h''))
    × (h''.total_stats.nactive ≡ 0)
    × (h''.total_stats.active_size ≡ 0)
    × (h''.root ≡ 0)
m61_free-m61_malloc_example =
    m61_free-m61_malloc 3 4096 0 empty 10 7 1 empty-Inv at_4096 (omega arith) pointer (omega arith)
      (omega arith) (omega arith)

-- A second `m61_free` of the block reports it.
twice :
    elim (m61_free 3 used 4128).1 [ some h ↦ (m61_free 3 h 4128).0 | none ↦ [] ]
    ≡ Message.invalid ∷ not_allocated ∷ []
unfolding m61_free m61_malloc
twice = refl

-- what `m61_malloc` returned
abbrev payload : ℕ
payload = 4128

-- 2 times 2 ^ 31 + 1 wraps to 2, and a block of 2 bytes is what `m61_calloc` returns.
overflows : (m61_calloc 4096 0 empty 2 (2 ^ 31 + 1) 7 1).calls ≡ memset_call 4128 0 2 ∷ []
unfolding m61_calloc
overflows = refl

-- A failure is counted twice.
fails_twice : (m61_calloc 0 0 empty 2 8 7 1).heap.total_stats.nfail ≡ 2
unfolding m61_calloc
fails_twice = refl
