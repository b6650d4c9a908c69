-- ===== src/Kernel/Process/Schedule.antt =====
-- `schedule` runs the next runnable process in turn.
use cs61_psets.Common.{
  ℕ, zero, suc, ◌+◌, ◌%◌, ◌≤◌, ◌<◌, ◌≡◌, sym, ◌∙◌, ap, inl, inr, arith, Bool, true, false,
  Bool-cases, some, List, if_true, if_false, get_or,
}
use cs61_psets.Kernel.Process.{Proc, no_proc, Kernel, proc_at, is_runnable, schedule_from, schedule}

-- whether the process that comes `n` turns after `pid` is runnable
abbrev pub turn : (processes : List Proc) (pid n : ℕ) → Bool
turn processes pid n = is_runnable (get_or processes ((pid + n) % 16) no_proc).p_state

shift :
    (processes : List Proc) (pid k : ℕ)
    → turn processes ((pid + 1) % 16) k ≡ turn processes pid (suc k)
shift processes pid k = ap (λ q. is_runnable (get_or processes q no_proc).p_state) (omega arith)

between :
    (processes : List Proc) (pid m : ℕ)
    → turn processes pid 1 ≡ false
    → ((j : ℕ) → j < m → turn processes ((pid + 1) % 16) (suc j) ≡ false)
    → (j : ℕ) → j < suc m
    → turn processes pid (suc j) ≡ false
between processes pid m e idle zero h = e
between processes pid m e idle (suc j) h = sym (shift processes pid (suc j)) ∙ idle j (omega arith)

schedule_from-turn :
    (processes : List Proc) (pid rounds n : ℕ)
    → n < rounds
    → turn processes pid (suc n) ≡ true
    → (m : ℕ) × (schedule_from processes pid rounds ≡ some ((pid + suc m) % 16))
      × (m ≤ n)
      × (turn processes pid (suc m) ≡ true)
      × ((j : ℕ) → j < m → turn processes pid (suc j) ≡ false)
unfolding schedule_from
schedule_from-turn processes pid zero n h runs = absurd (omega arith)
schedule_from-turn processes pid (suc rounds) zero h runs =
    (0, if_true _ _ runs, omega arith, runs, λ j h. absurd (omega arith))
schedule_from-turn processes pid (suc rounds) (suc n) h runs =
    elim (Bool-cases (turn processes pid 1)) [
      | inl e ↦ (0, if_true _ _ e, omega arith, e, λ j h. absurd (omega arith))
      | inr e ↦
          let (m, found, bound, runnable, idle) =
            schedule_from-turn processes ((pid + 1) % 16) rounds n (omega arith)
              (shift processes pid (suc n) ∙ runs) in
          (
            suc m,
            if_false _ _ e ∙ found ∙ ap some (omega arith),
            omega arith,
            sym (shift processes pid (suc m)) ∙ runnable,
            between processes pid m e idle,
          )
    ]

-- If a process is runnable that comes `n + 1` turns after the current one, for an `n` below 16,
-- then `schedule` returns, with a runnable process that comes at most as many turns after it, and
-- no process between is runnable.
pub schedule-turn :
    (k : Kernel) (n : ℕ)
    → n < 16
    → turn k.processes (proc_at k k.current).p_pid (suc n) ≡ true
    → (m : ℕ) × (schedule k ≡ some (((proc_at k k.current).p_pid + suc m) % 16))
      × (m ≤ n)
      × (turn k.processes (proc_at k k.current).p_pid (suc m) ≡ true)
      × ((j : ℕ) → j < m → turn k.processes (proc_at k k.current).p_pid (suc j) ≡ false)
unfolding schedule
schedule-turn k n h runs = schedule_from-turn k.processes (proc_at k k.current).p_pid 16 n h runs
