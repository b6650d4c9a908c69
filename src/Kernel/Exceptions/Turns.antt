-- ===== src/Kernel/Exceptions/Turns.antt =====
-- Who is next when `schedule` is called.
use cs61_psets.Common.{
  ℕ, suc, ◌+◌, ◌*◌, ◌%◌, ◌≤◌, ◌<◌, ◌≡◌, refl, sym, ap, ◌∙◌, ◌⊎◌, inl, inr, arith, Bool, ◌&&◌, true,
  false, Bool-cases, none, some, List, length, get_or, set, get_or-set_self, get_or-set_ne, ◌==◌,
  ==_iff, if_true,
}
use mathlib.Core.Option.{none-ne-some}
use cs61_psets.Kernel.Paging.{Memory}
use cs61_psets.Kernel.Checks.{Symbols, set_pagetable}
use cs61_psets.Kernel.Process.{Registers, Proc, no_proc, is_runnable, Kernel, proc_at, schedule}
use cs61_psets.Kernel.Process.Schedule.{turn, schedule-turn}
use cs61_psets.Kernel.Exceptions.{Machine, runs, spins, run, reschedule, save_registers}

-- a change of a process that keeps its state keeps who is runnable
same_state :
    (ps : List Proc) (i j : ℕ) (p : Proc)
    → i < length ps
    → p.p_state ≡ (get_or ps i no_proc).p_state
    → (get_or (set ps i p) j no_proc).p_state ≡ (get_or ps j no_proc).p_state
same_state ps i j p h e = elim (Bool-cases (i == j)) [
  | inl same ↦
      let is = (==_iff i j).0 same in
      ap (λ n. (get_or (set ps i p) n no_proc).p_state) (sym is)
      ∙ ap (λ (q : Proc). q.p_state) (get_or-set_self ps i p no_proc h)
      ∙ e
      ∙ ap (λ n. (get_or ps n no_proc).p_state) is
  | inr other ↦ ap (λ (q : Proc). q.p_state) (get_or-set_ne ps p no_proc (λ is. apart other is))
]
  where
    apart : (i == j) ≡ false → i ≡ j → ⊥
    apart other is = ground (arith, other, is)

-- The process that `exception` goes on with: the first runnable one after the current one, of which
-- the registers are saved; nothing else has changed.
pub record Switched (k k' : Kernel) (registers : Registers) (n : ℕ) : Type 0 where
  pub turns : ℕ
  pub soon : turns ≤ n
  pub current : k'.current ≡ ((proc_at k k.current).p_pid + suc turns) % 16
  pub runnable : is_runnable (proc_at k' k'.current).p_state ≡ true
  pub first : (j : ℕ) → j < turns → turn k.processes (proc_at k k.current).p_pid (suc j) ≡ false
  pub processes : k'.processes ≡ (save_registers k registers).processes
  pub pageinfo : k'.pageinfo ≡ k.pageinfo
  pub memory : k'.memory ≡ k.memory

-- the page table of every runnable process passes the assertions of `set_pagetable`
abbrev pub Mapped : Symbols → Memory → (kernel_pagetable : ℕ) → List Proc → Type 0
Mapped symbols mem kernel_pagetable ps =
    (j : ℕ)
    → is_runnable (get_or ps j no_proc).p_state ≡ true
    → set_pagetable symbols mem kernel_pagetable (get_or ps j no_proc).p_pagetable ≡ true

-- a process that is changed
pub set-Mapped :
    (symbols : Symbols) (mem : Memory) (kernel_pagetable : ℕ) (ps : List Proc) (i : ℕ) (p : Proc)
    → i < length ps
    → Mapped symbols mem kernel_pagetable ps
    → (is_runnable p.p_state ≡ true
        → set_pagetable symbols mem kernel_pagetable p.p_pagetable ≡ true)
    → Mapped symbols mem kernel_pagetable (set ps i p)
set-Mapped symbols mem kernel_pagetable ps i p h mapped own j = elim (eq_cases i j) [
  | inl same ↦ rw (← same, get_or-set_self ps i p no_proc h) own
  | inr other ↦ rw (get_or-set_ne ps p no_proc other) (mapped j)
]
  where
    eq_cases : (i j : ℕ) → (i ≡ j) ⊎ (i ≡ j → ⊥)
    eq_cases i j = ground arith

both : (a b : Bool) → a ≡ true → b ≡ true → (a && b) ≡ true
both a b h h' = rw (h, h') refl

pub reschedule-runs :
    (m : Machine) (pid : ℕ)
    → schedule m.kernel ≡ some pid
    → is_runnable (proc_at m.kernel pid).p_state ≡ true
    → set_pagetable m.symbols m.kernel.memory m.kernel.kernel_pagetable
        (proc_at m.kernel pid).p_pagetable
      ≡ true
    → reschedule m ≡ some (runs (record m { kernel = record (m.kernel) { current = pid } }))
unfolding reschedule run
reschedule-runs m pid e r s =
    (λ i. elim (e i) [ none ↦ some (spins m) | some q ↦ run m q ]) ∙ if_true _ _ (both _ _ r s)

pub reschedule-spins : (m : Machine) → schedule m.kernel ≡ none → reschedule m ≡ some (spins m)
unfolding reschedule
reschedule-spins m e = λ i. elim (e i) [ none ↦ some (spins m) | some q ↦ run m q ]

-- where `schedule` finds nobody, nobody is runnable
pub schedule-nobody :
    (k : Kernel) → schedule k ≡ none → (j : ℕ) → j < 16 → is_runnable (proc_at k j).p_state ≡ false
schedule-nobody k e j h =
    let pid = (proc_at k k.current).p_pid in
    let n = (j + 15 + 15 * pid) % 16 in
    let here : (pid + suc n) % 16 ≡ j = omega (arith, h) in
    elim (Bool-cases (turn k.processes pid (suc n))) [
      | inl r ↦
          let (m, found, _, _, _) = schedule-turn k n (omega arith) r in
          absurd (none-ne-some _ (sym e ∙ found))
      | inr r ↦ ap (λ q. is_runnable (proc_at k q).p_state) (sym here) ∙ r
    ]

module _ (k : Kernel) (registers : Registers) (exists : k.current < length k.processes) where
  abbrev saved : Kernel
  saved = save_registers k registers

  saved_turn : (pid n : ℕ) → turn saved.processes pid n ≡ turn k.processes pid n
  saved_turn pid n =
      ap is_runnable (same_state k.processes k.current ((pid + n) % 16) _ exists refl)

  pub saved_pid : (proc_at saved saved.current).p_pid ≡ (proc_at k k.current).p_pid
  saved_pid = ap (λ (q : Proc). q.p_pid) (get_or-set_self k.processes k.current _ no_proc exists)

  pub save-Mapped :
      (symbols : Symbols)
      → Mapped symbols k.memory k.kernel_pagetable k.processes
      → Mapped symbols k.memory k.kernel_pagetable saved.processes
  save-Mapped symbols mapped =
      set-Mapped symbols k.memory k.kernel_pagetable k.processes k.current _ exists mapped
        (mapped k.current)

  pub reschedule-Switched :
      (symbols : Symbols) (ticks n : ℕ)
      → n < 16
      → Mapped symbols k.memory k.kernel_pagetable k.processes
      → turn k.processes (proc_at k k.current).p_pid (suc n) ≡ true
      → (k' : Kernel) × (reschedule (record { kernel = saved; symbols = symbols; ticks = ticks })
          ≡ some (runs (record { kernel = k'; symbols = symbols; ticks = ticks })))
        × Switched k k' registers n
  reschedule-Switched symbols ticks n small mapped next =
      let pid = (proc_at k k.current).p_pid in
      let same : (j : ℕ)
          → turn saved.processes (proc_at saved saved.current).p_pid j ≡ turn k.processes pid j =
        λ j. ap (λ q. turn saved.processes q j) saved_pid ∙ saved_turn pid j in
      let (m, found, soon, runs_it, idle) = schedule-turn saved n small (same (suc n) ∙ next) in
      (
        record saved { current = ((proc_at saved saved.current).p_pid + suc m) % 16 },
        reschedule-runs (record { kernel = saved; symbols = symbols; ticks = ticks }) _ found
            runs_it (save-Mapped symbols mapped _ runs_it),
        record {
          turns = m;
          soon = soon;
          current = ap (λ q. (q + suc m) % 16) saved_pid;
          runnable = runs_it;
          first = λ j h. sym (same (suc j)) ∙ idle j h;
          processes = refl;
          pageinfo = refl;
          memory = refl;
        },
      )
