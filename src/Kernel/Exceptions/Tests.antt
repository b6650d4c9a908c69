-- ===== src/Kernel/Exceptions/Tests.antt =====
-- The theorems on exceptions, for two processes in 16 slots.
use cs61_psets.Common.{
  ℕ, zero, suc, ◌+◌, ◌-◌, ◌*◌, ◌/◌, Bool, true, false, none, some, ◌∷◌, [], replicate, ltb, leb,
  ◌==◌, ◌&&◌, if◌then◌else◌,
}
use cs61_psets.Kernel.Paging.{Memory, virtual_memory_lookup}
use cs61_psets.Kernel.Pages.{Page, no_page, po_kernel}
use cs61_psets.Kernel.Process.{Registers, Proc, no_proc, runnable, Kernel}
use cs61_psets.Kernel.Checks.{Symbols}
use cs61_psets.Kernel.Exceptions.{Machine, Trap}

-- The kernel's page table at 4096, with one level-2 table at 8192, that maps each physical page to
-- itself.
abbrev memory : Memory
memory a =
    if a == 4096 then 8199 else if leb 8192 a && ltb a 10240 then (a - 8192) / 4 * 4096 + 7 else 0

abbrev maps_page : ℕ → Bool
maps_page i = elim (virtual_memory_lookup memory 4096 (i * 4096)) [
  | none ↦ false
  | some v ↦ v.pn == i
]

abbrev all_below : ℕ → (ℕ → Bool) → Bool
all_below zero p = true
all_below (suc n) p = p n && all_below n p

-- Both processes use the kernel's page table.
abbrev process : ℕ → Proc
process pid = record no_proc { p_pid = pid; p_state = runnable; p_pagetable = 4096 }

abbrev kernel_page : ℕ → Page
kernel_page refcount = record { owner = po_kernel; refcount = refcount }

-- processes 1 and 3 are runnable, and 3 runs
abbrev two : Kernel
two = record {
  processes = no_proc ∷ process 1 ∷ no_proc ∷ process 3 ∷ replicate 12 no_proc;
  current = 3;
  pageinfo = no_page ∷ kernel_page 3 ∷ kernel_page 1 ∷ replicate 509 no_page;
  memory = memory;
  kernel_pagetable = 4096;
  console = 753664;
  offset = 1024;
}

abbrev symbols : Symbols
symbols = record { default_int_handler = 262144; map_code = 266240 }

abbrev machine : Machine
machine = record { kernel = two; symbols = symbols; ticks = 9 }

abbrev interrupted : Registers
interrupted = record { reg_eax = 5; reg_esp = 1048576; others = [] }

abbrev trap : (reg_intno reg_err : ℕ) → Trap
trap reg_intno reg_err = record {
  registers = interrupted;
  reg_intno = reg_intno;
  reg_err = reg_err;
}
