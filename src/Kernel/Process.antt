-- ===== src/Kernel/Process.antt =====
-- pset6/kernel.c: processes, with fork, exit, page allocation and scheduling.

pub mod Exit
pub mod Schedule
mod Tests
use cs61_psets.Common.{
  ℕ, zero, suc, ◌+◌, ◌-◌, ◌*◌, ◌/◌, ◌%◌, ◌^◌, Bool, true, false, Option, none, some, List, [], ◌∷◌,
  ltb, leb, ◌==◌, ◌&&◌, ◌||◌, not, if◌then◌else◌, ◌>>=◌, ◌>>◌, assert, get_or, set, take, length,
  replicate,
}
use cs61_psets.Common.Bytes.{u32}
use cs61_psets.Kernel.Paging.{
  Memory, clear_words, copy_words, store, entry, has_w, pte_addr, Vamapping, virtual_memory_map,
  virtual_memory_lookup,
}
use cs61_psets.Kernel.Pages.{
  Page, no_page, above, find_free_page, find_free_page_table, physical_page_alloc, release_pages,
}

-- `procstate_t`
pub data State : Type 0 where
  free runnable blocked broken : State

abbrev pub is_free : State → Bool
is_free free = true
is_free _ = false

abbrev pub is_runnable : State → Bool
is_runnable runnable = true
is_runnable _ = false

-- `x86_registers`: those that the kernel sets one by one, and the others
pub record Registers : Type 0 where
  pub reg_eax : ℕ
  pub reg_esp : ℕ
  pub others : List ℕ

-- `proc`
pub record Proc : Type 0 where
  pub p_pid : ℕ
  pub p_registers : Registers
  pub p_state : State
  pub p_pagetable : ℕ

-- The kernel's variables and memory. `current` is the index of a process. `offset` is a variable
-- that kernel.c uses in `copy_pagetable` and does not declare.
pub record Kernel : Type 0 where
  pub processes : List Proc
  pub current : ℕ
  pub pageinfo : List Page
  pub memory : Memory
  pub kernel_pagetable : ℕ
  pub console : ℕ
  pub offset : ℕ

abbrev pub no_proc : Proc
no_proc = record {
  p_pid = 0;
  p_registers = record { reg_eax = 0; reg_esp = 0; others = [] };
  p_state = free;
  p_pagetable = 0;
}

abbrev pub proc_at : Kernel → ℕ → Proc
proc_at k i = get_or k.processes i no_proc

abbrev pub set_proc : Kernel → ℕ → Proc → Kernel
set_proc k i p = record k { processes = set k.processes i p }

abbrev pub set_eax : Kernel → (i value : ℕ) → Kernel
set_eax k i value =
    let p = proc_at k i in
    set_proc k i (record p { p_registers = record p.p_registers { reg_eax = value } })

-- -1 as 32 bits
abbrev pub minus_one : ℕ
minus_one = 4294967295

-- `copy_pagetable`; an allocation that fails is -1, with the pages that it took still taken, and
-- `none` is a failed assertion.
unfoldable pub copy_pagetable : Kernel → (pagetable owner : ℕ) → Option (Kernel × ℕ)
unfolding find_free_page_table physical_page_alloc virtual_memory_map clear_words copy_words
copy_pagetable k pagetable owner =
    let l1_addr = find_free_page_table k.pageinfo in
    elim (physical_page_alloc k.pageinfo l1_addr owner) [
      | none ↦ some (k, minus_one)
      | some pageinfo ↦
          let l2_addr = find_free_page_table pageinfo in
          elim (physical_page_alloc pageinfo l2_addr owner) [
            | none ↦ some (record k { pageinfo = pageinfo }, minus_one)
            | some pageinfo' ↦ (do
              let cleared = clear_words (clear_words k.memory l1_addr 1024) l2_addr 1024
              let linked = store cleared (entry l1_addr 0) (l2_addr + 7)
              let copied =
                  copy_words linked l2_addr (pte_addr (linked (entry pagetable 0))) (k.offset / 4)
              mem ← virtual_memory_map copied l1_addr 0 0 1048576 3
              mem' ← virtual_memory_map mem l1_addr k.console k.console 4096 7
              some (record k { pageinfo = pageinfo'; memory = mem' }, l1_addr))
          ]
    ]

-- `sys_exit`
unfoldable pub sys_exit : Kernel → ℕ → Option Kernel
unfolding release_pages
sys_exit k pid = do
  pageinfo ← release_pages k.memory k.kernel_pagetable pid 0 512 k.pageinfo
  some (set_proc (record k { pageinfo = pageinfo }) pid (record (proc_at k pid) { p_state = free }))

-- The loop of `fork` that looks for a free slot, at slot `i`.
unfoldable pub scan_slots : List Proc → (i : ℕ) → Option ℕ
scan_slots [] i = none
scan_slots (p ∷ ps) i =
    let rest = scan_slots ps (i + 1) in if is_free p.p_state then some i else rest

-- One page of the parent in `fork`; `false` if no page is left for the copy.
unfoldable pub fork_page : Kernel → (child i : ℕ) → Option (Kernel × Bool)
unfolding find_free_page physical_page_alloc virtual_memory_map virtual_memory_lookup copy_words
fork_page k child i =
    let v_addr = i * 4096 in
    elim (virtual_memory_lookup k.memory (proc_at k k.current).p_pagetable v_addr) [
      | none ↦ some (k, true)
      | some vmap ↦
          if vmap.perm == 0
          then some (k, true)
          else if has_w vmap.perm
          then (let new_p_addr = find_free_page k.pageinfo in
              elim (physical_page_alloc k.pageinfo new_p_addr child) [
                | none ↦ some (k, false)
                | some pageinfo ↦ (do
                  let copied = copy_words k.memory new_p_addr vmap.pa 1024
                  mem ←
                      virtual_memory_map copied (proc_at k child).p_pagetable v_addr new_p_addr 4096
                        vmap.perm
                  some (record k { pageinfo = pageinfo; memory = mem }, true))
              ])
          else (let page = get_or k.pageinfo vmap.pn no_page in
              if above 0 page.refcount && above 0 page.owner
              then (do
                mem ←
                    virtual_memory_map k.memory (proc_at k child).p_pagetable v_addr vmap.pa 4096 5
                some (
                  record k {
                    pageinfo =
                        set k.pageinfo vmap.pn
                          (record page { refcount = (page.refcount + 1) % 256 });
                    memory = mem;
                  },
                  true,
                ))
              else some (k, true))
    ]

-- The loop of `fork` over the pages from `i` on.
unfoldable pub fork_pages : Kernel → (child i pages : ℕ) → Option (Kernel × Bool)
unfolding fork_page
fork_pages k child i zero = some (k, true)
fork_pages k child i (suc pages) = do
  (k', ok) ← fork_page k child i
  let rest = fork_pages k' child (i + 1) pages
  if ok then rest else some (k', false)

-- The part of `fork` for a failed allocation: the parent gets -1, and the child exits.
unfoldable pub fork_fails : Kernel → (child : ℕ) → Option (Kernel × ℕ)
unfolding sys_exit
fork_fails k child = do k' ← sys_exit (set_eax k k.current minus_one) child; some (k', minus_one)

-- `fork`
unfoldable pub fork : Kernel → Option (Kernel × ℕ)
unfolding scan_slots copy_pagetable fork_pages fork_fails
fork k = elim (scan_slots (elim k.processes [ [] ↦ [] | p ∷ ps ↦ ps ]) 1) [
  | none ↦ some (k, minus_one)
  | some slot ↦ (do
    let started = set_proc k slot (record (proc_at k slot) { p_pid = slot; p_state = runnable })
    (copied, pagetable) ← copy_pagetable started (proc_at started k.current).p_pagetable slot
    let child = record (proc_at copied slot) { p_pagetable = pagetable }
    let failed = fork_fails copied slot
    let filled = (do
      (k', ok) ← fork_pages (set_proc copied slot child) slot 256 512
      let registers = (proc_at k' k.current).p_registers
      let child' = record (proc_at k' slot) { p_registers = record registers { reg_eax = 0 } }
      if ok
          then some (set_eax (set_proc k' slot child') k.current slot, slot)
          else fork_fails k' slot)
    if pagetable == minus_one then failed else filled)
]

-- The case INT_SYS_PAGE_ALLOC of `exception`.
unfoldable pub sys_page_alloc : Kernel → Option Kernel
unfolding find_free_page physical_page_alloc virtual_memory_map
sys_page_alloc k =
    let p = proc_at k k.current in
    let p_addr = find_free_page k.pageinfo in
    elim (physical_page_alloc k.pageinfo p_addr p.p_pid) [
      | none ↦ some (set_eax k k.current minus_one)
      | some pageinfo ↦ (do
        mem ← virtual_memory_map k.memory p.p_pagetable p.p_registers.reg_eax p_addr 4096 7
        some (set_eax (record k { pageinfo = pageinfo; memory = mem }) k.current 0))
    ]

-- The loop of `schedule` for the next `rounds` rounds: the process that it runs, if it finds one.
unfoldable pub schedule_from : List Proc → (pid rounds : ℕ) → Option ℕ
schedule_from processes pid zero = none
schedule_from processes pid (suc rounds) =
    let next = (pid + 1) % 16 in
    let rest = schedule_from processes next rounds in
    if is_runnable (get_or processes next no_proc).p_state then some next else rest

-- `schedule`; if the 16 processes are not runnable it spins, which is `none`.
unfoldable pub schedule : Kernel → Option ℕ
unfolding schedule_from
schedule k = schedule_from k.processes (proc_at k k.current).p_pid 16
