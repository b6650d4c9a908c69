-- ===== src/Kernel/Exceptions/Switching.antt =====
-- An interrupted process gives way to the next one, and one that has exited or faulted is not run.
use cs61_psets.Common.{ℕ, ◌<◌, ◌≡◌, ◌≢◌, true, false, ◌&&◌, ◌||◌}
use cs61_psets.Kernel.Checks.{set_pagetable, virtual_memory_check}
use cs61_psets.Kernel.Process.{State, is_runnable, Kernel, proc_at}
use cs61_psets.Kernel.Exceptions.{
  Machine, Trap, Resumption, runs, spins, save_registers, kernel_fault,
}

-- the assertions before the switch of `exception`
abbrev pub Passes : Machine → Trap → Type 0
Passes m t =
    let k = save_registers m.kernel t.registers in
    (set_pagetable m.symbols k.memory k.kernel_pagetable k.kernel_pagetable
      && (kernel_fault t || virtual_memory_check k))
    ≡ true

-- Process `i` is in the state `s`, and another process runs, which is runnable, or none of the 16
-- is.
pub data GoesOn (i : ℕ) (s : State) : Resumption → Type 0 where
  other :
      (m : Machine)
      → (proc_at m.kernel i).p_state ≡ s
      → m.kernel.current ≢ i
      → is_runnable (proc_at m.kernel m.kernel.current).p_state ≡ true
      → GoesOn i s (runs m)
  nobody :
      (m : Machine)
      → (proc_at m.kernel i).p_state ≡ s
      → ((j : ℕ) → j < 16 → is_runnable (proc_at m.kernel j).p_state ≡ false)
      → GoesOn i s (spins m)
