-- ===== src/Allocator/Again.antt =====
-- What `m61_malloc` returned can be freed.
use cs61_psets.Common.Bytes.{u32, u64}
use cs61_psets.Common.{
  [], some, ℕ, ◌+◌, ◌%◌, ◌^◌, ◌<◌, ◌≤◌, ◌≡◌, refl, ◌∙◌, ap, arith, inl, inr, true, false, ltb, leb,
  ◌==◌, ◌||◌,
}
use cs61_psets.Allocator.{
  Heap, Statistics, default_head, default_foot, meta_size, foot_size, find_pad, minus, take_block,
  m61_malloc, settle, release_block, release_checked, check_block, m61_free,
}
use cs61_psets.Allocator.Invariant.{Active, Inv}
use cs61_psets.Allocator.Taking.{take_block-Pushed, take_block-Inv, take_block-Active, Fresh}
use cs61_psets.Allocator.Unlinking.{release_block-Popped, unlink-stats}
use cs61_psets.Allocator.Releasing.{release_checked-some}

check_block-nil :
    (fuel : ℕ) (h : Heap) (ptr at : ℕ)
    → Inv h
    → Active h at
    → (h.metas at).header ≡ default_head
    → h.mapped ((ptr + (h.metas at).size) % u32) ≡ true
    → h.feet ((ptr + (h.metas at).size) % u32) ≡ default_foot
    → check_block fuel h ptr at ≡ some []
unfolding check_block
check_block-nil fuel h ptr at v a e m e' =
    let head : ((h.metas at).header == default_head) ≡ true = ground (arith, e) in
    let foot : (h.feet ((ptr + (h.metas at).size) % u32) == default_foot) ≡ true =
      ground (arith, e') in
    elim (v.links.before at a) [
      | inl z ↦
          let first : ((h.metas at).prev == 0) ≡ true = ground (arith, z) in
          rw (v.readable at a, a, head, m, foot, first) refl
      | inr (pa, pn) ↦
          let later : ((h.metas at).prev == 0) ≡ false =
            ground (arith, v.links.place (h.metas at).prev pa) in
          let linked : ((h.metas (h.metas at).prev).next == at) ≡ true = ground (arith, pn) in
          rw (v.readable at a, a, head, m, foot, later, v.readable (h.metas at).prev pa, linked)
            refl
    ]

-- the header and the footer that `m61_malloc` writes
take_block-marks :
    (index : ℕ) (h : Heap) (ptr sz new_sz file line : ℕ)
    → let at = (ptr + find_pad) % u32 in
      let h' = take_block index h ptr sz new_sz file line in
      ((h'.metas at).header ≡ default_head)
      × (h'.feet ((at + meta_size + sz) % u32) ≡ default_foot)
      × (h'.mapped ((at + meta_size + sz) % u32) ≡ true)
unfolding take_block
take_block-marks index h ptr sz new_sz file line = (ground arith, ground arith, ground arith)

pad : find_pad ≡ 4
unfolding find_pad
pad = refl

malloc-fits :
    (fresh index : ℕ) (h : Heap) (sz file line : ℕ)
    → 1 ≤ fresh
    → sz < 2 ^ 31
    → m61_malloc fresh index h sz file line ≡ (
      (fresh + meta_size + find_pad) % u32,
      take_block index h fresh sz ((sz + find_pad + meta_size + foot_size) % u32) file line,
    )
unfolding m61_malloc
malloc-fits fresh index h sz file line some_ fits =
    let small : (ltb ((sz + find_pad + meta_size + foot_size) % u32) sz || leb (2 ^ 31) sz)
        ≡ false =
      ground (arith, pad, fits) in
    let there : (fresh == 0) ≡ false = ground (arith, some_) in rw (small, there) refl

free-nil :
    (fuel : ℕ) (h : Heap) (ptr : ℕ)
    → check_block fuel h ptr (minus ptr meta_size) ≡ some []
    → release_checked h ptr (minus ptr meta_size) ≡ some (release_block h ptr (minus ptr meta_size))
    → 1 ≤ h.total_stats.nactive
    → 1 ≤ h.total_stats.ntotal
    → 1 ≤ ptr
    → m61_free fuel h ptr ≡ ([], some (release_block h ptr (minus ptr meta_size)))
unfolding m61_free
free-nil fuel h ptr e is active used low =
    let some_active : ((h.total_stats.nactive == 0) || (ptr == 0)) ≡ false =
      ground (arith, active, low) in
    let some_used : (h.total_stats.ntotal == 0) ≡ false = ground (arith, used) in
    rw (some_active, some_used, e, is) refl

take_block-stats :
    (index : ℕ) (h : Heap) (ptr sz new_sz file line : ℕ)
    → let t = (take_block index h ptr sz new_sz file line).total_stats in
      (t.nactive ≡ (h.total_stats.nactive + 1) % u64)
      × (t.active_size ≡ (h.total_stats.active_size + sz) % u64)
      × (t.ntotal ≡ (h.total_stats.ntotal + 1) % u64)
unfolding take_block
take_block-stats index h ptr sz new_sz file line = (refl, refl, refl)

-- the pointer, the header and the footer
pointer_back : (fresh p : ℕ) → minus ((fresh + meta_size + p) % u32) meta_size ≡ (fresh + p) % u32
pointer_back fresh p = omega arith

pointer_foot :
    (fresh p sz : ℕ)
    → ((fresh + meta_size + p) % u32 + sz) % u32 ≡ ((fresh + p) % u32 + meta_size + sz) % u32
pointer_foot fresh p sz = omega arith

settled :
    (h : Heap) (ptr at : ℕ) → (release_block h ptr at).total_stats ≡ (settle h ptr at).total_stats
unfolding release_block
settled h ptr at = unlink-stats (settle h ptr at) at

-- Where `malloc` returns a fresh block, the size is below 2 ^ 31, the counters do not wrap and the
-- pointer is not 0, `m61_free` of what `m61_malloc` returned prints nothing, and then the counts of
-- active blocks and bytes and the root are what they were before the two calls.
pub m61_free-m61_malloc :
    (fuel fresh index : ℕ) (h : Heap) (sz file line : ℕ)
    → Inv h
    → Fresh h fresh
    → 1 ≤ fresh
    → 1 ≤ (fresh + meta_size + find_pad) % u32
    → sz < 2 ^ 31
    → h.total_stats.nactive + 1 < u64
    → h.total_stats.ntotal + 1 < u64
    → let (r, h') = m61_malloc fresh index h sz file line in
      (h'' : Heap) × (m61_free fuel h' r ≡ ([], some h''))
      × (h''.total_stats.nactive ≡ h.total_stats.nactive)
      × (h''.total_stats.active_size ≡ h.total_stats.active_size)
      × (h''.root ≡ h.root)
m61_free-m61_malloc fuel fresh index h sz file line v (inl z) some_ low fits few few' =
    absurd (omega (arith, z, some_))
m61_free-m61_malloc fuel fresh index h sz file line v (inr (place, free)) some_ low fits few few' =
    let new_sz = (sz + find_pad + meta_size + foot_size) % u32 in
    let at = (fresh + find_pad) % u32 in
    let r = (fresh + meta_size + find_pad) % u32 in
    let h' = take_block index h fresh sz new_sz file line in
    let p = take_block-Pushed index h fresh sz new_sz file line free v.links in
    let a = take_block-Active index h fresh sz new_sz file line free v.links in
    let v' = take_block-Inv index h fresh sz new_sz file line free place (omega (arith, fits)) v in
    let (header, foot, mapped) = take_block-marks index h fresh sz new_sz file line in
    let back : minus r meta_size ≡ at = pointer_back fresh find_pad in
    let size : (h'.metas at).size ≡ sz = ground (arith, p.size at) in
    let foot' : h'.feet ((r + (h'.metas at).size) % u32) ≡ default_foot =
      ap (λ n. h'.feet ((r + n) % u32)) size ∙ ap h'.feet (pointer_foot fresh find_pad sz) ∙ foot in
    let mapped' : h'.mapped ((r + (h'.metas at).size) % u32) ≡ true =
      ap (λ n. h'.mapped ((r + n) % u32)) size
      ∙ ap h'.mapped (pointer_foot fresh find_pad sz)
      ∙ mapped in
    let clean : check_block fuel h' r at ≡ some [] =
      check_block-nil fuel h' r at v' a header mapped' foot' in
    let released : release_checked h' r (minus r meta_size)
        ≡ some (release_block h' r (minus r meta_size)) =
      rw back (release_checked-some h' r at v' a) in
    let o = release_block-Popped h' r at v'.links a in
    let stats = take_block-stats index h fresh sz new_sz file line in
    let same = settled h' r at in
    let clean' : check_block fuel h' r (minus r meta_size) ≡ some [] =
      ap (check_block fuel h' r) back ∙ clean in
    rw (malloc-fits fresh index h sz file line some_ fits) (
      release_block h' r at,
      free-nil fuel h' r clean' released (omega (arith, stats, few)) (omega (arith, stats, few'))
            low
          ∙ ap (λ b. ([], some (release_block h' r b))) back,
      ap {A = Statistics} (λ t. t.nactive) same ∙ omega (arith, stats, few),
      ap {A = Statistics} (λ t. t.active_size) same ∙ rw size (omega (arith, stats, v.bytes, fits)),
      ground (arith, o.root, p.root, p.prev at),
    )
