-- ===== src/Kernel/Process/Exit.antt =====
-- What `sys_exit` does with the physical pages.
use cs61_psets.Common.{
  ℕ, zero, suc, ◌+◌, ◌*◌, ◌≤◌, ◌<◌, ◌≡◌, refl, sym, ◌∙◌, ap, ◌⊎◌, inl, inr, arith, true, some, List,
  ltb, get_or, set, length, length-set, get_or-set_self, get_or-set_ne,
}
use mathlib.Core.Path.{subst}
use cs61_psets.Kernel.Paging.{Memory, Vamapping, virtual_memory_lookup}
use cs61_psets.Kernel.Paging.Init.{Identity}
use cs61_psets.Kernel.Pages.{Page, no_page, release, release_pages}
use cs61_psets.Kernel.Pages.Alloc.{Sound}
use cs61_psets.Kernel.Process.{no_proc, free, Kernel, proc_at, set_proc, sys_exit}

-- the pages from `i` on are released, those before it are not
abbrev Released : (pid i : ℕ) → (pages pages' : List Page) → Type 0
Released pid i pages pages' =
    (length pages' ≡ 512)
    × ((j : ℕ) → i ≤ j → j < 512 → get_or pages' j no_page ≡ release pid (get_or pages j no_page))
    × ((j : ℕ) → j < i → get_or pages' j no_page ≡ get_or pages j no_page)

order_cases : (i j : ℕ) → i ≤ j → (j ≡ i) ⊎ (i + 1 ≤ j)
order_cases i j h = omega arith

release_step :
    (mem : Memory) (pagetable pid i n : ℕ) (pages : List Page) (v : Vamapping)
    → virtual_memory_lookup mem pagetable (i * 4096) ≡ some v
    → v.pn ≡ i
    → i < length pages
    → release_pages mem pagetable pid i (suc n) pages
      ≡ release_pages mem pagetable pid
          (i + 1)
          n
          (set pages i (release pid (get_or pages i no_page)))
unfolding release_pages
release_step mem pagetable pid i n pages v found here inside =
    let test : ltb i (length pages) ≡ true = ground (arith, inside) in
    rw (release_pages, found, here, test) refl

module _ (mem : Memory) (pagetable pid : ℕ) (identity : Identity mem pagetable) where
  release_pages-Released :
      (n i : ℕ) (pages : List Page)
      → i + n ≡ 512
      → length pages ≡ 512
      → (pages' : List Page) × (release_pages mem pagetable pid i n pages ≡ some pages')
        × Released pid i pages pages'
  unfolding release_pages
  release_pages-Released zero i pages e len =
      (pages, refl, (len, (λ j h h'. absurd (omega arith)), (λ j h. refl)))
  release_pages-Released (suc n) i pages e len =
      let (v, found, here) = identity i (omega arith) in
      let page = release pid (get_or pages i no_page) in
      let (pages', rest, released) =
        release_pages-Released n (i + 1) (set pages i page) (omega arith)
          (length-set pages i page ∙ len) in
      (
        pages',
        release_step mem pagetable pid i n pages v found here (omega (arith, len, e)) ∙ rest,
        (
          released.0,
          (λ j low high. elim (order_cases i j low) [
            | inl same ↦ rw same (
                released.2 i (omega arith)
                ∙ get_or-set_self pages i page no_page (omega (arith, len)))
            | inr later ↦
                released.1 j later high
                ∙ ap (release pid) (get_or-set_ne pages page no_page (λ h. omega arith))
          ]),
          (λ j before.
              released.2 j (omega arith) ∙ get_or-set_ne pages page no_page (λ h. omega arith)),
        ),
      )

release_owned : (pid : ℕ) (page : Page) → page.owner ≡ pid → release pid page ≡ no_page
unfolding release
release_owned pid page h = ground (arith, h)

release_other :
    (pid : ℕ) (page : Page) → (page.owner ≡ pid → ⊥) → (release pid page).owner ≡ page.owner
unfolding release
release_other pid page h = ground (arith, h)

release-Sound : (pid : ℕ) (page : Page) → Sound page → Sound (release pid page)
unfolding release
release-Sound pid page s = record {
  unowned = λ h. ground (arith, h, s.unowned, s.owned);
  owned = λ h. ground (arith, h, s.unowned, s.owned);
}

-- Where the kernel's page table maps each of the 512 physical pages to itself, `sys_exit` returns,
-- and afterwards the pages that the process owned are free, each other page has the owner that it
-- had, a sound page is sound still, and the process's slot is free.
pub sys_exit-pages :
    (k : Kernel) (pid : ℕ)
    → Identity k.memory k.kernel_pagetable
    → length k.pageinfo ≡ 512
    → pid < length k.processes
    → (k' : Kernel) × (sys_exit k pid ≡ some k')
      × ((proc_at k' pid).p_state ≡ free)
      × ((j : ℕ)
          → j < 512
          → ((get_or k.pageinfo j no_page).owner ≡ pid → get_or k'.pageinfo j no_page ≡ no_page)
            × (((get_or k.pageinfo j no_page).owner ≡ pid → ⊥)
                → (get_or k'.pageinfo j no_page).owner ≡ (get_or k.pageinfo j no_page).owner)
            × (Sound (get_or k.pageinfo j no_page) → Sound (get_or k'.pageinfo j no_page)))
unfolding sys_exit
sys_exit-pages k pid identity len exists =
    let (pages', e, released) =
      release_pages-Released k.memory k.kernel_pagetable pid identity 512 0 k.pageinfo refl len in
    let page : (j : ℕ)
        → j < 512
        → get_or pages' j no_page ≡ release pid (get_or k.pageinfo j no_page) =
      λ j h. released.1 j (omega arith) h in
    (
      set_proc (record k { pageinfo = pages' }) pid (record (proc_at k pid) { p_state = free }),
      rw e refl,
      ap (λ p. p.p_state) (get_or-set_self k.processes pid _ no_proc exists),
      λ j h. (
        (λ owned. page j h ∙ release_owned pid (get_or k.pageinfo j no_page) owned),
        (λ other.
            ap (λ p. p.owner) (page j h) ∙ release_other pid (get_or k.pageinfo j no_page) other),
        (λ s.
            subst (λ p. Sound p) (sym (page j h))
              (release-Sound pid (get_or k.pageinfo j no_page) s)),
      ),
    )
