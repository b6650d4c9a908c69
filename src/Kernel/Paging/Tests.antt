-- ===== src/Kernel/Paging/Tests.antt =====
-- The theorems on page tables, for a table at 4096 and its level-2 table at 8192.
use cs61_psets.Common.{ℕ, ◌+◌, ◌*◌, ◌/◌, ◌<◌, ◌≡◌, refl, arith, some}
use cs61_psets.Kernel.Paging.{Memory, store, check_l1, virtual_memory_map, virtual_memory_lookup}
use cs61_psets.Kernel.Paging.Lookup.{Ready, Outside, map-lookup}

abbrev zeros : Memory
zeros = λ a. 0

abbrev linked : Memory
linked = store zeros 4096 8199

linked-Ready : Ready linked 4096 0 8192 5
unfolding check_l1
linked-Ready = record {
  table = refl;
  allows = refl;
  aligned = refl;
  apart = λ h. omega arith;
  index = omega arith;
}

-- two pages at 0x100000, onto 0x3000 and 0x4000
map-lookup_example :
    (mem' : Memory) × (virtual_memory_map linked 4096 ((0 * 1024 + 256) * 4096) 12288 (2 * 4096) 5
      ≡ some mem')
    × ((k off : ℕ)
        → k < 2
        → off < 4096
        → virtual_memory_lookup mem' 4096 ((0 * 1024 + (256 + k)) * 4096 + off)
          ≡ some (record { pn = (12288 + k * 4096) / 4096; pa = 12288 + k * 4096 + off; perm = 5 }))
    × ((a : ℕ) → Outside 8192 256 2 a → mem' a ≡ linked a)
map-lookup_example =
    map-lookup linked 4096 0 8192 256 2 12288 5 linked-Ready (omega arith) refl (omega arith)
      (omega arith) refl (omega arith)
