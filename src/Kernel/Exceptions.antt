-- ===== src/Kernel/Exceptions.antt =====
-- pset6/kernel.c: exception and run. The log, the cursor, the pictures of memory on the screen, and
-- the keyboard are left out; the one assertion of the pictures, that a page table is aligned, is
-- among those of virtual_memory_check. A process that is run goes on until the next exception.
-- `none` is an assertion that fails, of set_pagetable and virtual_memory_check too.
pub mod Turns
pub mod Switching
mod Tests
use cs61_psets.Common.{
  ℕ, suc, ◌+◌, ◌/◌, ◌%◌, Bool, true, false, Option, none, some, ◌==◌, ◌&&◌, ◌||◌, not, ◌>>=◌,
  if◌then◌else◌,
}
use cs61_psets.Common.Bytes.{u32}
use cs61_psets.Kernel.Checks.{Symbols, set_pagetable, virtual_memory_check}
use cs61_psets.Kernel.Process.{
  Registers, Proc, broken, is_runnable, Kernel, proc_at, set_proc, set_eax, sys_page_alloc, fork,
  sys_exit, schedule,
}

-- The registers at the time of the exception, with the two fields that the handler reads.
pub record Trap : Type 0 where
  pub registers : Registers
  pub reg_intno : ℕ
  pub reg_err : ℕ

-- `ticks` beside the other variables, and where the linker has put two functions
pub record Machine : Type 0 where
  pub kernel : Kernel
  pub symbols : Symbols
  pub ticks : ℕ

-- What follows the handler: the current process runs, or `schedule` finds no process, or it panics.
pub data Resumption : Type 0 where
  runs : Machine → Resumption
  spins : Machine → Resumption
  panics : Resumption

-- INT_TIMER and the others, in the order of their numbers
abbrev pub int_pagefault : ℕ
int_pagefault = 14

abbrev pub int_timer : ℕ
int_timer = 32

abbrev pub int_sys_panic : ℕ
int_sys_panic = 48

abbrev pub int_sys_getpid : ℕ
int_sys_getpid = 49

abbrev pub int_sys_yield : ℕ
int_sys_yield = 50

abbrev pub int_sys_page_alloc : ℕ
int_sys_page_alloc = 51

abbrev pub int_sys_fork : ℕ
int_sys_fork = 52

abbrev pub int_sys_exit : ℕ
int_sys_exit = 53

-- `run`, which asserts that the process is runnable, with `set_pagetable`
unfoldable pub run : Machine → (i : ℕ) → Option Resumption
unfolding set_pagetable
run m i =
    let p = proc_at m.kernel i in
    if is_runnable p.p_state
      && set_pagetable m.symbols m.kernel.memory m.kernel.kernel_pagetable p.p_pagetable
    then some (runs (record m { kernel = record (m.kernel) { current = i } }))
    else none

-- `schedule` with the `run` that it calls
unfoldable pub reschedule : Machine → Option Resumption
unfolding schedule run
reschedule m = elim (schedule m.kernel) [ none ↦ some (spins m) | some pid ↦ run m pid ]

-- The end of `exception`.
unfoldable pub return_to : Machine → Option Resumption
unfolding run reschedule
return_to m =
    if is_runnable (proc_at m.kernel m.kernel.current).p_state
    then run m m.kernel.current
    else reschedule m

-- PFERR_USER
abbrev pub from_user : (reg_err : ℕ) → Bool
from_user reg_err = reg_err / 4 % 2 == 1

-- the first statement
abbrev pub save_registers : Kernel → Registers → Kernel
save_registers k registers =
    set_proc k k.current (record (proc_at k k.current) { p_registers = registers })

abbrev pub break_current : Kernel → Kernel
break_current k = set_proc k k.current (record (proc_at k k.current) { p_state = broken })

-- The switch and what follows it, on the machine with the saved registers.
unfoldable pub handle : Machine → (reg_intno reg_err : ℕ) → Option Resumption
unfolding reschedule return_to sys_page_alloc fork sys_exit
handle m reg_intno reg_err =
    let k = m.kernel in
    let pid = (proc_at k k.current).p_pid in
    if reg_intno == int_sys_panic
    then some panics
    else if reg_intno == int_sys_getpid
    then return_to (record m { kernel = set_eax k k.current pid })
    else if reg_intno == int_sys_yield
    then reschedule m
    else if reg_intno == int_sys_page_alloc
    then (sys_page_alloc k >>= λ k'. return_to (record m { kernel = k' }))
    else if reg_intno == int_timer
    then reschedule (record m { ticks = (m.ticks + 1) % u32 })
    else if reg_intno == int_sys_fork
    then (fork k >>= λ r. return_to (record m { kernel = r.0 }))
    else if reg_intno == int_sys_exit
    then (sys_exit k pid >>= λ k'. return_to (record m { kernel = k' }))
    else if reg_intno == int_pagefault
    then (if from_user reg_err
        then return_to (record m { kernel = break_current k })
        else some panics)
    else some panics

-- The memory is checked unless the kernel itself has faulted.
abbrev pub kernel_fault : Trap → Bool
kernel_fault t = (t.reg_intno == int_pagefault) && not (from_user t.reg_err)

unfoldable pub exception : Machine → Trap → Option Resumption
unfolding handle set_pagetable virtual_memory_check
exception m t =
    let k = save_registers m.kernel t.registers in
    if set_pagetable m.symbols k.memory k.kernel_pagetable k.kernel_pagetable
      && (kernel_fault t || virtual_memory_check k)
    then handle (record m { kernel = k }) t.reg_intno t.reg_err
    else none
