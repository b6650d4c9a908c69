-- ===== src/Kernel/Checks.antt =====
-- pset6: set_pagetable of k-hardware.c and virtual_memory_check of kernel.c, as the conjunctions of
-- their assertions.
use cs61_psets.Common.{
  ℕ, zero, suc, ◌+◌, ◌/◌, ◌%◌, Bool, true, none, some, List, [], ◌∷◌, ltb, ◌==◌, ◌&&◌, ◌||◌, not,
  if◌then◌else◌, get_or,
}
use cs61_psets.Kernel.Paging.{Memory, entry, pte_addr, has_p, virtual_memory_lookup}
use cs61_psets.Kernel.Pages.{Page, no_page, above, po_kernel}
use cs61_psets.Kernel.Process.{Proc, is_free, Kernel, proc_at, minus_one}

-- the addresses of `default_int_handler` and `virtual_memory_map`
pub record Symbols : Type 0 where
  pub default_int_handler : ℕ
  pub map_code : ℕ

-- `virtual_memory_lookup(pagetable, addr).pa == addr`
abbrev pub maps_to_itself : Memory → (pagetable addr : ℕ) → Bool
maps_to_itself mem pagetable addr = elim (virtual_memory_lookup mem pagetable addr) [
  | none ↦ minus_one == addr
  | some v ↦ v.pa == addr
]

unfoldable pub set_pagetable : Symbols → Memory → (kernel_pagetable pagetable : ℕ) → Bool
unfolding virtual_memory_lookup
set_pagetable symbols mem kernel_pagetable pagetable =
    (pagetable % 4096 == 0)
    && maps_to_itself mem pagetable symbols.default_int_handler
    && maps_to_itself mem kernel_pagetable pagetable
    && maps_to_itself mem pagetable kernel_pagetable
    && maps_to_itself mem pagetable symbols.map_code

-- `expected_kernel_refcount`
unfoldable pub kernel_refcount : (kernel_pagetable : ℕ) → List Proc → ℕ
kernel_refcount kernel_pagetable [] = 1
kernel_refcount kernel_pagetable (p ∷ ps) =
    kernel_refcount kernel_pagetable ps
    + (if not (is_free p.p_state) && (p.p_pagetable == kernel_pagetable) then 1 else 0)

-- The level-2 page tables of the first `n` entries.
unfoldable pub check_entries : Memory → List Page → (pagetable expected_owner : ℕ) → (n : ℕ) → Bool
check_entries mem pageinfo pagetable expected_owner zero = true
check_entries mem pageinfo pagetable expected_owner (suc n) =
    let pte = mem (entry pagetable n) in
    let page = get_or pageinfo (pte / 4096) no_page in
    check_entries mem pageinfo pagetable expected_owner n
    && (not (has_p pte)
        || (ltb (pte / 4096) 512 && (page.owner == expected_owner) && (page.refcount == 1)))

unfoldable pub check_pagetable :
    Memory → List Page → (pagetable expected_owner expected_refcount : ℕ) → Bool
unfolding check_entries
check_pagetable mem pageinfo pagetable expected_owner expected_refcount =
    let page = get_or pageinfo (pagetable / 4096) no_page in
    (pte_addr pagetable == pagetable)
    && ltb (pagetable / 4096) 512
    && (page.owner == expected_owner)
    && (page.refcount == expected_refcount)
    && check_entries mem pageinfo pagetable expected_owner 1024

-- The page tables of the processes from number `pid` on.
unfoldable pub check_processes : Kernel → (expected_kernel_refcount : ℕ) → List Proc → ℕ → Bool
unfolding check_pagetable
check_processes k expected_kernel_refcount [] pid = true
check_processes k expected_kernel_refcount (p ∷ ps) pid =
    check_processes k expected_kernel_refcount ps (pid + 1)
    && (is_free p.p_state
        || (if p.p_pagetable == k.kernel_pagetable
            then check_pagetable k.memory k.pageinfo k.kernel_pagetable po_kernel
                expected_kernel_refcount
            else check_pagetable k.memory k.pageinfo p.p_pagetable pid 1))

-- The pages that are referenced belong to processes that are not free; an `owner` below 128 is one
-- that is not negative.
unfoldable pub check_owners : Kernel → List Page → Bool
check_owners k [] = true
check_owners k (page ∷ pages) =
    check_owners k pages
    && (not (above 0 page.refcount)
        || not (ltb page.owner 128)
        || not (is_free (proc_at k page.owner).p_state))

unfoldable pub virtual_memory_check : Kernel → Bool
unfolding kernel_refcount check_pagetable check_processes check_owners
virtual_memory_check k =
    let expected_kernel_refcount = kernel_refcount k.kernel_pagetable k.processes in
    is_free (proc_at k 0).p_state
    && check_pagetable k.memory k.pageinfo k.kernel_pagetable po_kernel expected_kernel_refcount
    && check_processes k expected_kernel_refcount k.processes 0
    && check_owners k k.pageinfo
