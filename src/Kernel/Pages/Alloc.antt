-- ===== src/Kernel/Pages/Alloc.antt =====
-- Which page `find_free_page` finds, and that `physical_page_alloc` takes it.
use cs61_psets.Common.{
  ℕ, zero, suc, ◌+◌, ◌*◌, ◌/◌, ◌%◌, ◌<◌, ◌≡◌, refl, ◌∙◌, ap, ◌⊎◌, inl, inr, arith, false,
  Bool-cases, none, some, List, [], ◌∷◌, leb, ◌==◌, if_true, if_false, get_or, set, length,
}
use cs61_psets.Kernel.Pages.{
  Page, no_page, scan_pages, address, find_free_page, physical_page_alloc, init_pages,
  pageinfo_init,
}

-- a page without an owner has no references, and a page with an owner has one
pub record Sound (page : Page) : Type 0 where
  pub unowned : page.owner ≡ 0 → page.refcount ≡ 0
  pub owned : (page.owner ≡ 0 → ⊥) → 0 < page.refcount

abbrev pub AllSound : List Page → Type 0
AllSound [] = Unit
AllSound (page ∷ pages) = Sound page × AllSound pages

pub AllSound-set :
    (pages : List Page) (i : ℕ) (page : Page)
    → AllSound pages
    → Sound page
    → AllSound (set pages i page)
AllSound-set [] i page all h = tt
AllSound-set (p ∷ pages) zero page all h = (h, all.1)
AllSound-set (p ∷ pages) (suc i) page all h = (all.0, AllSound-set pages i page all.1 h)

pub AllSound-get : (pages : List Page) (i : ℕ) → AllSound pages → Sound (get_or pages i no_page)
AllSound-get [] i all = record { unowned = λ h. refl; owned = λ h. absurd (h refl) }
AllSound-get (p ∷ pages) zero all = all.0
AllSound-get (p ∷ pages) (suc i) all = AllSound-get pages i all.1

taken_first :
    (p : Page) (pages : List Page) (n : ℕ)
    → (p.owner ≡ 0 → ⊥)
    → ((m : ℕ) → m < n → (get_or pages m no_page).owner ≡ 0 → ⊥)
    → (m : ℕ) → m < suc n
    → (get_or (p ∷ pages) m no_page).owner ≡ 0
    → ⊥
taken_first p pages n taken out zero h e = taken e
taken_first p pages n taken out (suc m) h e = out m (omega arith) e

-- the scan finds the lowest page without an owner, or there is none
scan_cases :
    (pages : List Page) (i : ℕ)
    → ((scan_pages pages i ≡ none)
        × ((j : ℕ) → j < length pages → (get_or pages j no_page).owner ≡ 0 → ⊥))
      ⊎ ((j : ℕ) × (scan_pages pages i ≡ some ((i + j) * 4096))
          × (j < length pages)
          × ((get_or pages j no_page).owner ≡ 0)
          × ((m : ℕ) → m < j → (get_or pages m no_page).owner ≡ 0 → ⊥))
unfolding scan_pages
scan_cases [] i = inl (refl, λ j h e. omega arith)
scan_cases (p ∷ pages) i = elim (Bool-cases (p.owner == 0)) [
  | inl e ↦ inr (
    0,
    if_true _ _ e ∙ ap some (omega arith),
    omega arith,
    ground (arith, e),
    λ m h e. omega arith,
  )
  | inr e ↦
      let taken : p.owner ≡ 0 → ⊥ = λ h. ground (arith, e, h) in
      elim (scan_cases pages (i + 1)) [
        | inl (found, out) ↦
            inl (if_false _ _ e ∙ found, taken_first p pages (length pages) taken out)
        | inr (j, found, bound, free, lowest) ↦ inr (
          suc j,
          if_false _ _ e ∙ found ∙ ap some (omega arith),
          omega arith,
          free,
          taken_first p pages j taken lowest,
        )
      ]
]

init_pages-AllSound : (end_ i n : ℕ) → AllSound (init_pages end_ i n)
unfolding init_pages
init_pages-AllSound end_ i zero = tt
init_pages-AllSound end_ i (suc n) = (
  record { unowned = λ h. ground (arith, h); owned = λ h. ground (arith, h) },
  init_pages-AllSound end_ (i + 1) n,
)

length-init_pages : (end_ i n : ℕ) → length (init_pages end_ i n) ≡ n
unfolding init_pages
length-init_pages end_ i zero = refl
length-init_pages end_ i (suc n) = ap suc (length-init_pages end_ (i + 1) n)

-- `pageinfo_init` gives each of the 512 pages no references if it has no owner, and one if it has.
pub pageinfo_init-AllSound :
    (end_ : ℕ) → AllSound (pageinfo_init end_) × (length (pageinfo_init end_) ≡ 512)
unfolding pageinfo_init
pageinfo_init-AllSound end_ = (init_pages-AllSound end_ 0 512, length-init_pages end_ 0 512)

-- what an allocation of the page `j` leaves
abbrev pub allocated : (pages : List Page) (j owner : ℕ) → List Page
allocated pages j owner = set pages j (record { owner = owner % 256; refcount = 1 })

-- On 512 sound pages, for an owner of 8 bits that is not PO_FREE, `find_free_page` returns the
-- lowest page without an owner, `physical_page_alloc` gives that page to the owner, and the pages
-- are sound again; or each page has an owner, and `physical_page_alloc` refuses what
-- `find_free_page` returns.
pub find-alloc :
    (pages : List Page) (owner : ℕ)
    → AllSound pages
    → length pages ≡ 512
    → 0 < owner
    → owner < 256
    → (((j : ℕ) → j < 512 → (get_or pages j no_page).owner ≡ 0 → ⊥)
        × (physical_page_alloc pages (find_free_page pages) owner ≡ none))
      ⊎ ((j : ℕ) × (find_free_page pages ≡ j * 4096)
          × ((get_or pages j no_page).owner ≡ 0)
          × ((m : ℕ) → m < j → (get_or pages m no_page).owner ≡ 0 → ⊥)
          × (physical_page_alloc pages (find_free_page pages) owner
              ≡ some (allocated pages j owner))
          × AllSound (allocated pages j owner))
unfolding find_free_page physical_page_alloc
find-alloc pages owner all e some_owner small = elim (scan_cases pages 0) [
  | inl (found, out) ↦ inl ((λ j h. out j (omega (arith, e))), rw found refl)
  | inr (j, found, bound, free, lowest) ↦
      let here : (0 + j) * 4096 ≡ j * 4096 = omega arith in
      let page : j * 4096 / 4096 ≡ j = omega arith in
      let unused : (get_or pages j no_page).refcount ≡ 0 =
        (AllSound-get pages j all).unowned free in
      let aligned : j * 4096 % 4096 ≡ 0 = omega arith in
      let inside : leb 2097152 (j * 4096) ≡ false = ground (arith, e, bound) in
      inr (
        j,
        ap address found ∙ here,
        free,
        lowest,
        rw (found, here, page, unused, aligned, inside) refl,
        AllSound-set pages j _ all
            (record { unowned = λ h. absurd (omega (arith, h)); owned = λ h. omega arith }),
      )
]
