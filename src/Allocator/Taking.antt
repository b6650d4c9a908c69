-- ===== src/Allocator/Taking.antt =====
-- `m61_malloc` keeps the heap in order.
use cs61_psets.Common.Bytes.{u32}
use cs61_psets.Common.{
  ℕ, ◌+◌, ◌%◌, ◌^◌, ◌<◌, ◌≤◌, ◌≡◌, refl, arith, inl, inr, ◌⊎◌, true, false, Bool-cases, ltb, leb,
  ◌==◌, ◌||◌,
}
use cs61_psets.Allocator.{Heap, meta_size, foot_size, find_pad, failed, take_block, m61_malloc}
use cs61_psets.Allocator.Invariant.{Active, Links, Inv}
use cs61_psets.Allocator.Pushing.{Pushed, was-Active, push-Links, push-count, push-bytes}

-- `m61_malloc` with a fresh block
pub take_block-Pushed :
    (index : ℕ) (h : Heap) (ptr sz new_sz file line : ℕ)
    → (h.metas ((ptr + find_pad) % u32)).is_active ≡ false
    → Links h
    → Pushed h (take_block index h ptr sz new_sz file line) ((ptr + find_pad) % u32) sz
unfolding take_block
take_block-Pushed index h ptr sz new_sz file line free l =
    let at = (ptr + find_pad) % u32 in
    let apart : at ≡ h.root → h.root ≡ 0 = elim l.root [
      | inl z ↦ λ e. z
      | inr (ra, rn) ↦ λ e. ground (arith, e, free, ra)
    ] in
    record {
      active = λ b. ground (arith, apart);
      prev = λ b. ground (arith, apart);
      next = λ b. ground (arith, apart);
      root = refl;
      size = λ b. ground (arith, apart);
    }

pub take_block-Active :
    (index : ℕ) (h : Heap) (ptr sz new_sz file line : ℕ)
    → (h.metas ((ptr + find_pad) % u32)).is_active ≡ false
    → Links h
    → Active (take_block index h ptr sz new_sz file line) ((ptr + find_pad) % u32)
take_block-Active index h ptr sz new_sz file line free l = ground (
  arith,
  (take_block-Pushed index h ptr sz new_sz file line free l).active ((ptr + find_pad) % u32),
)

-- memory stays
pub take_block-mapped :
    (index : ℕ) (h : Heap) (ptr sz new_sz file line a : ℕ)
    → h.mapped a ≡ true
    → (take_block index h ptr sz new_sz file line).mapped a ≡ true
unfolding take_block
take_block-mapped index h ptr sz new_sz file line a there = ground (arith, there)

pub take_block-Inv :
    (index : ℕ) (h : Heap) (ptr sz new_sz file line : ℕ)
    → (h.metas ((ptr + find_pad) % u32)).is_active ≡ false
    → 1 ≤ (ptr + find_pad) % u32
    → sz < u32
    → Inv h
    → Inv (take_block index h ptr sz new_sz file line)
unfolding take_block
take_block-Inv index h ptr sz new_sz file line free low below v =
    let h' : Heap = take_block index h ptr sz new_sz file line in
    let at = (ptr + find_pad) % u32 in
    let high : at < u32 = omega arith in
    let p = take_block-Pushed index h ptr sz new_sz file line free v.links in
    record {
      links = push-Links h h' at sz v.links free p low high;
      readable = λ b a. elim (was-Active h h' at sz v.links free p low high b a) [
        | inl e ↦ ground (arith, e)
        | inr (ne, a') ↦ ground (arith, v.readable b a')
      ];
      small = λ b a. elim (was-Active h h' at sz v.links free p low high b a) [
        | inl e ↦ ground (arith, p.size b, e, below)
        | inr (ne, a') ↦ ground (arith, p.size b, ne, v.small b a')
      ];
      count = omega (arith, v.count, push-count h h' at sz v.links free p low high);
      bytes = omega (arith, v.bytes, push-bytes h h' at sz v.links free p low high);
    }

-- `malloc` returns NULL, or a block whose header is not an active one
abbrev pub Fresh : Heap → ℕ → Type 0
Fresh h fresh =
    (fresh ≡ 0)
    ⊎ ((1 ≤ (fresh + find_pad) % u32) × ((h.metas ((fresh + find_pad) % u32)).is_active ≡ false))

-- the result and the heap of `m61_malloc`
abbrev pub Taken : (fresh : ℕ) (h : Heap) → ℕ × Heap → Type 0
Taken fresh h (r, h') =
    Inv h'
    × (((r ≡ 0) × (h'.metas ≡ h.metas))
        ⊎ ((r ≡ (fresh + meta_size + find_pad) % u32) × Active h' ((fresh + find_pad) % u32)))

failed-Taken : (fresh : ℕ) (h : Heap) (sz : ℕ) → Inv h → Taken fresh h (0, failed h sz)
failed-Taken fresh h sz v = (
  record {
    links = record {
      place = v.links.place;
      before = v.links.before;
      behind = v.links.behind;
      root = v.links.root;
      last = v.links.last;
    };
    readable = v.readable;
    small = v.small;
    count = v.count;
    bytes = v.bytes;
  },
  inl (refl, refl),
)

-- On a heap in which the statistics count the active headers and the list of them is linked,
-- `m61_malloc` keeps that, where `malloc` returns NULL or a block whose header is not active; it
-- returns NULL and the headers are as before, or the place behind a header that is active now.
pub m61_malloc-Taken :
    (fresh index : ℕ) (h : Heap) (sz file line : ℕ)
    → Inv h
    → Fresh h fresh
    → Taken fresh h (m61_malloc fresh index h sz file line)
unfolding m61_malloc
m61_malloc-Taken fresh index h sz file line v ok =
    let new_sz = (sz + find_pad + meta_size + foot_size) % u32 in
    elim (Bool-cases (ltb new_sz sz || leb (2 ^ 31) sz)) [
      | inl over ↦ rw over (failed-Taken fresh h sz v)
      | inr fits ↦ elim (Bool-cases (fresh == 0)) [
        | inl null ↦ rw (fits, null) (failed-Taken fresh h sz v)
        | inr some_ ↦ rw (fits, some_) (taken some_ (ground (arith, fits)) ok)
      ]
    ]
  where
    taken :
        (fresh == 0) ≡ false
        → sz < u32
        → Fresh h fresh
        → Taken fresh h (
          (fresh + meta_size + find_pad) % u32,
          take_block index h fresh sz ((sz + find_pad + meta_size + foot_size) % u32) file line,
        )
    taken e below (inl z) = absurd (ground (arith, e, z))
    taken e below (inr (low, free)) = (
      take_block-Inv index h fresh sz ((sz + find_pad + meta_size + foot_size) % u32) file line free
          low below v,
      inr (
        refl,
        take_block-Active index h fresh sz ((sz + find_pad + meta_size + foot_size) % u32) file line
            free v.links,
      ),
    )
