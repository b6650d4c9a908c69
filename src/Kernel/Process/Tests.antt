-- ===== src/Kernel/Process/Tests.antt =====
-- The theorems on processes, for two processes in 16 slots.
use cs61_psets.Common.{ℕ, ◌<◌, ◌≡◌, refl, arith, some, ◌∷◌, replicate, get_or}
use cs61_psets.Kernel.Paging.{Memory, virtual_memory_init}
use cs61_psets.Kernel.Paging.Init.{Identity, virtual_memory_init-Identity}
use cs61_psets.Kernel.Pages.{no_page, pageinfo_init}
use cs61_psets.Kernel.Pages.Alloc.{Sound, pageinfo_init-AllSound}
use cs61_psets.Kernel.Process.{Proc, no_proc, runnable, free, Kernel, proc_at, sys_exit}
use cs61_psets.Kernel.Process.Exit.{sys_exit-pages}

abbrev initial :
    (mem : Memory) × (virtual_memory_init (λ a. 0) 4096 8192 ≡ some mem) × Identity mem 4096
initial = virtual_memory_init-Identity (λ a. 0) 4096 8192 refl refl (λ h. omega arith) (omega arith)

abbrev process : ℕ → Proc
process pid = record no_proc { p_pid = pid; p_state = runnable }

-- processes 1 and 3 are runnable, and 3 runs
abbrev two : Kernel
two = record {
  processes = no_proc ∷ process 1 ∷ no_proc ∷ process 3 ∷ replicate 12 no_proc;
  current = 3;
  pageinfo = pageinfo_init 278528;
  memory = initial.0;
  kernel_pagetable = 4096;
  console = 753664;
  offset = 1024;
}

sys_exit-pages_example :
    (k' : Kernel) × (sys_exit two 3 ≡ some k')
    × ((proc_at k' 3).p_state ≡ free)
    × ((j : ℕ)
        → j < 512
        → ((get_or two.pageinfo j no_page).owner ≡ 3 → get_or k'.pageinfo j no_page ≡ no_page)
          × (((get_or two.pageinfo j no_page).owner ≡ 3 → ⊥)
              → (get_or k'.pageinfo j no_page).owner ≡ (get_or two.pageinfo j no_page).owner)
          × (Sound (get_or two.pageinfo j no_page) → Sound (get_or k'.pageinfo j no_page)))
sys_exit-pages_example =
    sys_exit-pages two 3 initial.2 (pageinfo_init-AllSound 278528).1 (omega arith)
