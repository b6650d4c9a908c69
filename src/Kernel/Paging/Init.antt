-- ===== src/Kernel/Paging/Init.antt =====
-- The kernel's page table after `virtual_memory_init`.
use cs61_psets.Common.{ℕ, ◌+◌, ◌*◌, ◌/◌, ◌%◌, ◌<◌, ◌≡◌, refl, ◌∙◌, ap, arith, true, some, ltb}
use cs61_psets.Kernel.Paging.{
  Memory, store, entry, clear_words, pte_addr, check_l1, Vamapping, virtual_memory_init,
  virtual_memory_lookup,
}
use cs61_psets.Kernel.Paging.Lookup.{Ready, store_same, map-lookup}

-- the kernel's page table maps each physical page to itself
abbrev pub Identity : Memory → ℕ → Type 0
Identity mem pagetable =
    (i : ℕ)
    → i < 512
    → (v : Vamapping) × (virtual_memory_lookup mem pagetable (i * 4096) ≡ some v) × (v.pn ≡ i)

linked-Ready :
    (mem : Memory) (kernel_pagetable level2 : ℕ)
    → kernel_pagetable % 4096 ≡ 0
    → level2 % 4096 ≡ 0
    → (kernel_pagetable ≡ level2 → ⊥)
    → level2 < 3145728
    → Ready (store mem (entry kernel_pagetable 0) (level2 + 7)) kernel_pagetable 0 level2 7
unfolding check_l1
linked-Ready mem kernel_pagetable level2 aligned aligned2 apart inside =
    let p : (level2 + 7) % 2 ≡ 1 = omega (arith, aligned2) in
    let w : (level2 + 7) / 2 % 2 ≡ 1 = omega (arith, aligned2) in
    let u : (level2 + 7) / 4 % 2 ≡ 1 = omega (arith, aligned2) in
    let below : ltb ((level2 + 7) / 4096 * 4096) 3145728 ≡ true =
      ground (arith, inside, aligned2) in
    let word = store_same mem (entry kernel_pagetable 0) (level2 + 7) in
    record {
      table = ap pte_addr word ∙ omega arith;
      allows = ap (λ pe. check_l1 pe 7) word ∙ rw (p, below, w, u) refl;
      aligned = aligned;
      apart = apart;
      index = omega arith;
    }

-- `virtual_memory_init` returns, for two page-aligned tables in different pages, the second below
-- MEMSIZE_VIRTUAL, and then the kernel's page table maps each physical page to itself.
pub virtual_memory_init-Identity :
    (mem : Memory) (kernel_pagetable level2 : ℕ)
    → kernel_pagetable % 4096 ≡ 0
    → level2 % 4096 ≡ 0
    → (kernel_pagetable ≡ level2 → ⊥)
    → level2 < 3145728
    → (mem' : Memory) × (virtual_memory_init mem kernel_pagetable level2 ≡ some mem')
      × Identity mem' kernel_pagetable
unfolding virtual_memory_init
virtual_memory_init-Identity mem kernel_pagetable level2 aligned aligned2 apart inside =
    let cleared = clear_words mem kernel_pagetable 1024 in
    let (mem', e, found, same) =
      map-lookup (store cleared (entry kernel_pagetable 0) (level2 + 7)) kernel_pagetable 0 level2 0
        512 0 7 (linked-Ready cleared kernel_pagetable level2 aligned aligned2 apart inside)
        (omega arith) refl (omega arith) (omega arith) refl (omega arith) in
    (
      mem',
      e,
      λ i h. (
        _,
        ap (virtual_memory_lookup mem' kernel_pagetable) (omega arith) ∙ found i 0 h (omega arith),
        omega arith,
      ),
    )
