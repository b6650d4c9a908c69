-- ===== src/Kernel/Pages/Tests.antt =====
-- The theorems on `pageinfo` at the state after `pageinfo_init`, for a kernel that ends at 0x44000.
use cs61_psets.Common.{ℕ, ◌*◌, ◌<◌, ◌≡◌, ◌⊎◌, arith, some, none, get_or}
use cs61_psets.Kernel.Pages.{no_page, find_free_page, physical_page_alloc, pageinfo_init}
use cs61_psets.Kernel.Pages.Alloc.{AllSound, pageinfo_init-AllSound, allocated, find-alloc}

find-alloc_example :
    (((j : ℕ) → j < 512 → (get_or (pageinfo_init 278528) j no_page).owner ≡ 0 → ⊥)
      × (physical_page_alloc (pageinfo_init 278528) (find_free_page (pageinfo_init 278528)) 1
          ≡ none))
    ⊎ ((j : ℕ) × (find_free_page (pageinfo_init 278528) ≡ j * 4096)
        × ((get_or (pageinfo_init 278528) j no_page).owner ≡ 0)
        × ((m : ℕ) → m < j → (get_or (pageinfo_init 278528) m no_page).owner ≡ 0 → ⊥)
        × (physical_page_alloc (pageinfo_init 278528) (find_free_page (pageinfo_init 278528)) 1
            ≡ some (allocated (pageinfo_init 278528) j 1))
        × AllSound (allocated (pageinfo_init 278528) j 1))
find-alloc_example =
    find-alloc (pageinfo_init 278528) 1 (pageinfo_init-AllSound 278528).0
      (pageinfo_init-AllSound 278528).1 (omega arith) (omega arith)
