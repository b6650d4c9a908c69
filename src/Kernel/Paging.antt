-- ===== src/Kernel/Paging.antt =====
-- pset6/k-hardware.c: virtual_memory_map and virtual_memory_lookup, with the page tables in memory.
pub mod Lookup
pub mod Init
mod Tests
use cs61_psets.Common.{
  ℕ, zero, suc, ◌+◌, ◌-◌, ◌*◌, ◌/◌, ◌%◌, ◌^◌, Bool, true, false, Option, none, some, ltb, leb, ◌==◌,
  ◌&&◌, ◌||◌, not, if◌then◌else◌, ◌>>=◌, ◌>>◌, assert,
}
use cs61_psets.Common.Bytes.{u32}

-- PAGESIZE
abbrev pub page_size : ℕ
page_size = 4096

-- MEMSIZE_PHYSICAL and MEMSIZE_VIRTUAL
abbrev pub memsize_physical : ℕ
memsize_physical = 2097152

abbrev pub memsize_virtual : ℕ
memsize_virtual = 3145728

-- The words of memory, by the address of their first byte.
abbrev pub Memory : Type 0
Memory = ℕ → ℕ

abbrev pub store : Memory → (addr word : ℕ) → Memory
store mem addr word = λ a. if a == addr then word else mem a

-- `memset(dst, 0, 4 * words)` and `memcpy(dst, src, 4 * words)` on word-aligned blocks that do
-- not overlap
unfoldable pub clear_words : Memory → (dst words : ℕ) → Memory
clear_words mem dst zero = mem
clear_words mem dst (suc words) = clear_words (store mem dst 0) (dst + 4) words

unfoldable pub copy_words : Memory → (dst src words : ℕ) → Memory
copy_words mem dst src zero = mem
copy_words mem dst src (suc words) = copy_words (store mem dst (mem src)) (dst + 4) (src + 4) words

-- L1PAGEINDEX and L2PAGEINDEX
abbrev pub l1_page_index : ℕ → ℕ
l1_page_index addr = addr / 4194304

abbrev pub l2_page_index : ℕ → ℕ
l2_page_index addr = addr / 4096 % 1024

-- `&pagetable->entry[i]`
abbrev pub entry : (pagetable i : ℕ) → ℕ
entry pagetable i = pagetable + 4 * i

-- PTE_ADDR, PTE_FLAGS and the tests of PTE_P, PTE_W and PTE_U
abbrev pub pte_addr : ℕ → ℕ
pte_addr pe = pe / 4096 * 4096

abbrev pub pte_flags : ℕ → ℕ
pte_flags pe = pe % 4096

abbrev pub has_p : ℕ → Bool
has_p pe = pe % 2 == 1

abbrev pub has_w : ℕ → Bool
has_w pe = pe / 2 % 2 == 1

abbrev pub has_u : ℕ → Bool
has_u pe = pe / 4 % 2 == 1

-- `l2pe & (pe | ~(PTE_W | PTE_U))`: PTE_W and PTE_U stay if both entries have them.
abbrev pub restrict : (l2pe pe : ℕ) → ℕ
restrict l2pe pe =
    l2pe
    - (if has_w l2pe && not (has_w pe) then 2 else 0)
    - (if has_u l2pe && not (has_u pe) then 4 else 0)

-- The assertions on the level-1 entry.
unfoldable pub check_l1 : (l1pte perm : ℕ) → Bool
check_l1 l1pte perm =
    has_p l1pte
    && ltb (pte_addr l1pte) memsize_virtual
    && (not (has_w perm) || has_w l1pte)
    && (not (has_u perm) || has_u l1pte)

-- The loop of `virtual_memory_map`, with `pages` pages to go. `l1` holds l1pageindex, -1 being
-- `none`, and `l2pagetable` what belongs to it. `pa | perm` is a sum, as `pa` is page-aligned and
-- `perm` is below 0x1000.
unfoldable pub map_loop :
    Memory → (pagetable pages : ℕ) → (l1 : Option ℕ) → (l2pagetable va pa perm : ℕ) → Option Memory
unfolding check_l1
map_loop mem pagetable zero l1 l2pagetable va pa perm = some mem
map_loop mem pagetable (suc pages) l1 l2pagetable va pa perm = do
  let cached : Bool = elim l1 [ none ↦ false | some i ↦ l1_page_index va == i ]
  let l1pte = mem (entry pagetable (l1_page_index va))
  assert (cached || check_l1 l1pte perm)
  let l2 = if cached then l2pagetable else pte_addr l1pte
  let word = if has_p perm then pa + perm else perm
  map_loop (store mem (entry l2 (l2_page_index va)) word) pagetable pages (some (l1_page_index va))
      l2 ((va + 4096) % u32) ((pa + 4096) % u32) perm

-- The assertions at the top of `virtual_memory_map`.
unfoldable pub check_map : (pagetable va pa sz perm : ℕ) → Bool
check_map pagetable va pa sz perm =
    (va % 4096 == 0)
    && (sz % 4096 == 0)
    && (leb va ((va + sz) % u32) || ((va + sz) % u32 == 0))
    && (not (has_p perm)
        || ((pa % 4096 == 0) && leb pa ((pa + sz) % u32) && leb ((pa + sz) % u32) memsize_physical))
    && ltb perm 4096
    && (pagetable % 4096 == 0)

-- `perm` is not negative.
unfoldable pub virtual_memory_map : Memory → (pagetable va pa sz perm : ℕ) → Option Memory
unfolding check_map map_loop
virtual_memory_map mem pagetable va pa sz perm = do
  assert (check_map pagetable va pa sz perm)
  map_loop mem pagetable (sz / 4096) none 0 va pa perm

-- `virtual_memory_init`, with the addresses of `kernel_pagetable_memory` and
-- `kernel_level2_pagetable`, up to the instructions that switch paging on.
unfoldable pub virtual_memory_init : Memory → (kernel_pagetable level2 : ℕ) → Option Memory
unfolding clear_words virtual_memory_map
virtual_memory_init mem kernel_pagetable level2 =
    let linked =
      store (clear_words mem kernel_pagetable 1024) (entry kernel_pagetable 0) (level2 + 7) in
    virtual_memory_map linked kernel_pagetable 0 0 2097152 7

-- `vamapping`; `none` is its value { -1, -1, 0 } for an address that is not mapped.
pub record Vamapping : Type 0 where
  pub pn : ℕ
  pub pa : ℕ
  pub perm : ℕ

unfoldable pub virtual_memory_lookup : Memory → (pagetable va : ℕ) → Option Vamapping
virtual_memory_lookup mem pagetable va =
    let pe1 = mem (entry pagetable (l1_page_index va)) in
    let pe =
      if has_p pe1 then restrict (mem (entry (pte_addr pe1) (l2_page_index va))) pe1 else pe1 in
    if has_p pe
    then some (record { pn = pe / 4096; pa = pte_addr pe + va % 4096; perm = pte_flags pe })
    else none
