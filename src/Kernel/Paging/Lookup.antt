-- ===== src/Kernel/Paging/Lookup.antt =====
-- What `virtual_memory_lookup` finds after `virtual_memory_map`.
use cs61_psets.Common.{
  ℕ, zero, suc, ◌+◌, ◌*◌, ◌/◌, ◌%◌, ◌≤◌, ◌<◌, ◌≡◌, refl, sym, ◌∙◌, ap, ◌⊎◌, inl, inr, arith, true,
  none, some, ◌==◌,
}
use cs61_psets.Common.Bytes.{u32}
use cs61_psets.Kernel.Paging.{
  Memory, store, entry, l1_page_index, l2_page_index, pte_addr, pte_flags, has_p, restrict,
  check_l1, map_loop, check_map, virtual_memory_map, virtual_memory_lookup,
}

pub store_same : (mem : Memory) (a word : ℕ) → store mem a word a ≡ word
store_same mem a word = ground arith

pub store_other : (mem : Memory) (a b word : ℕ) → (a ≡ b → ⊥) → store mem a word b ≡ mem b
store_other mem a b word h = ground arith

-- The page table's entry for a range has a level-2 table in a page of its own, with what `perm`
-- asks for.
pub record Ready (mem : Memory) (pagetable i l2 perm : ℕ) : Type 0 where
  pub table : pte_addr (mem (entry pagetable i)) ≡ l2
  pub allows : check_l1 (mem (entry pagetable i)) perm ≡ true
  pub aligned : pagetable % 4096 ≡ 0
  pub apart : (pagetable ≡ l2) → ⊥
  pub index : i < 1024

-- words outside of the entries `from`, ..., `from + n - 1` of the table
abbrev pub Outside : (l2 from n a : ℕ) → Type 0
Outside l2 from n a = (k : ℕ) → from ≤ k → k < from + n → (a ≡ entry l2 k → ⊥)

-- the loop, once it knows its level-2 table, and the range is below one level-1 entry
loop_writes :
    (n : ℕ) (mem : Memory) (pagetable i l2 j pa perm : ℕ)
    → i < 1024
    → j + n ≤ 1024
    → pa + n * 4096 ≤ 2097152
    → has_p perm ≡ true
    → (mem' : Memory) × (map_loop mem pagetable n (some i) l2 ((i * 1024 + j) * 4096 % u32) pa perm
        ≡ some mem')
      × ((k : ℕ) → k < n → mem' (entry l2 (j + k)) ≡ pa + k * 4096 + perm)
      × ((a : ℕ) → Outside l2 j n a → mem' a ≡ mem a)
unfolding map_loop
loop_writes zero mem pagetable i l2 j pa perm small fits inside p =
    (mem, refl, (λ k h. absurd (omega arith)), (λ a h. refl))
loop_writes (suc n) mem pagetable i l2 j pa perm small fits inside p =
    let va = (i * 1024 + j) * 4096 % u32 in
    let mem1 = store mem (entry l2 j) (pa + perm) in
    let (mem', e, new, old) =
      loop_writes n mem1 pagetable i l2 (j + 1) (pa + 4096) perm small (omega arith) (omega arith)
        p in
    let h1 : l1_page_index va ≡ i = omega arith in
    let h2 : l2_page_index va ≡ j = omega arith in
    let h3 : (va + 4096) % u32 ≡ (i * 1024 + (j + 1)) * 4096 % u32 = omega arith in
    let h4 : (pa + 4096) % u32 ≡ pa + 4096 = omega arith in
    let h5 : (i == i) ≡ true = ground arith in
    (
      mem',
      rw (h1, h2, h3, h4, h5, p) e,
      entries mem' old new,
      λ a out.
          old a (λ k low high. out k (omega arith) (omega arith))
          ∙ store_other mem (entry l2 j) a (pa + perm)
              (λ e. out j (omega arith) (omega arith) (sym e)),
    )
  where
    entries :
        (mem' : Memory)
        → ((a : ℕ) → Outside l2 (j + 1) n a → mem' a ≡ store mem (entry l2 j) (pa + perm) a)
        → ((k : ℕ) → k < n → mem' (entry l2 (j + 1 + k)) ≡ pa + 4096 + k * 4096 + perm)
        → (k : ℕ) → k < suc n
        → mem' (entry l2 (j + k)) ≡ pa + k * 4096 + perm
    entries mem' old new zero h =
        ap (λ q. mem' (entry l2 q)) (omega arith)
        ∙ old (entry l2 j) (λ k low high e. omega arith)
        ∙ store_same mem (entry l2 j) (pa + perm)
        ∙ omega arith
    entries mem' old new (suc k) h =
        ap (λ q. mem' (entry l2 q)) (omega arith) ∙ new k (omega arith) ∙ omega arith

-- the first round looks the level-2 table up
first_round :
    (mem : Memory) (n pagetable i l2 l2' va pa perm : ℕ)
    → Ready mem pagetable i l2 perm
    → l1_page_index va ≡ i
    → map_loop mem pagetable (suc n) none l2' va pa perm
      ≡ map_loop mem pagetable (suc n) (some i) l2 va pa perm
unfolding map_loop
first_round mem n pagetable i l2 l2' va pa perm r e =
    let same : (i == i) ≡ true = ground arith in rw (e, r.allows, r.table, same) refl

restrict_allowed : (l2pe pe : ℕ) → check_l1 pe l2pe ≡ true → restrict l2pe pe ≡ l2pe
unfolding check_l1
restrict_allowed l2pe pe h = ground arith

-- `check_l1` reads three bits of its second argument
check_l1_bits : (pe a b : ℕ) → a % 8 ≡ b % 8 → check_l1 pe a ≡ check_l1 pe b
unfolding check_l1
check_l1_bits pe a b e =
    let w : a / 2 % 2 ≡ b / 2 % 2 = omega arith in
    let u : a / 4 % 2 ≡ b / 4 % 2 = omega arith in rw (w, u) refl

check_l1_present : (pe perm : ℕ) → check_l1 pe perm ≡ true → has_p pe ≡ true
unfolding check_l1
check_l1_present pe perm h = ground arith

-- a lookup through an entry that was written
lookup_entry :
    (mem : Memory) (pagetable i j l2 pa perm off : ℕ)
    → Ready mem pagetable i l2 perm
    → mem (entry l2 j) ≡ pa + perm
    → j < 1024
    → off < 4096
    → pa % 4096 ≡ 0
    → perm < 4096
    → has_p perm ≡ true
    → virtual_memory_lookup mem pagetable ((i * 1024 + j) * 4096 + off)
      ≡ some (record { pn = pa / 4096; pa = pa + off; perm = perm })
unfolding virtual_memory_lookup
lookup_entry mem pagetable i j l2 pa perm off r written small inside aligned flags p =
    let va = (i * 1024 + j) * 4096 + off in
    let h1 : l1_page_index va ≡ i = omega arith in
    let h2 : l2_page_index va ≡ j = omega arith in
    let h3 : va % 4096 ≡ off = omega arith in
    let h4 : has_p (mem (entry pagetable i)) ≡ true =
      check_l1_present (mem (entry pagetable i)) perm r.allows in
    let h5 : restrict (pa + perm) (mem (entry pagetable i)) ≡ pa + perm =
      restrict_allowed (pa + perm) (mem (entry pagetable i))
        (check_l1_bits (mem (entry pagetable i)) (pa + perm) perm (omega arith) ∙ r.allows) in
    let h6 : has_p (pa + perm) ≡ true = ap (λ b. b == 1) (omega (arith, aligned)) ∙ p in
    let h7 : pa / 4096 * 4096 ≡ pa = omega arith in
    let h8 : (pa + perm) / 4096 ≡ pa / 4096 = omega arith in
    let h9 : pte_flags (pa + perm) ≡ perm = omega arith in
    rw (h1, h4, r.table, h2, written, h5, h6, h3, h8, h9, h7) refl

map_loop-Ready :
    (mem mem' : Memory) (pagetable i l2 perm j n : ℕ)
    → Ready mem pagetable i l2 perm
    → j + n ≤ 1024
    → ((a : ℕ) → Outside l2 j n a → mem' a ≡ mem a)
    → Ready mem' pagetable i l2 perm
map_loop-Ready mem mem' pagetable i l2 perm j n r fits old =
    let l2_aligned : l2 % 4096 ≡ 0 = omega (arith, r.table) in
    let kept : mem' (entry pagetable i) ≡ mem (entry pagetable i) =
      old (entry pagetable i)
        (λ k low high e. r.apart (omega (arith, r.aligned, l2_aligned, r.index, e))) in
    record {
      table = ap pte_addr kept ∙ r.table;
      allows = ap (λ pe. check_l1 pe perm) kept ∙ r.allows;
      aligned = r.aligned;
      apart = r.apart;
      index = r.index;
    }

run_map :
    (mem : Memory) (pagetable i l2 j n pa perm : ℕ)
    → Ready mem pagetable i l2 perm
    → j + n ≤ 1024
    → pa + n * 4096 ≤ 2097152
    → has_p perm ≡ true
    → (mem' : Memory) × (map_loop mem pagetable n none 0 ((i * 1024 + j) * 4096 % u32) pa perm
        ≡ some mem')
      × ((k : ℕ) → k < n → mem' (entry l2 (j + k)) ≡ pa + k * 4096 + perm)
      × ((a : ℕ) → Outside l2 j n a → mem' a ≡ mem a)
unfolding map_loop
run_map mem pagetable i l2 j zero pa perm r fits inside p =
    (mem, refl, (λ k h. absurd (omega arith)), (λ a h. refl))
run_map mem pagetable i l2 j (suc n) pa perm r fits inside p =
    let (mem', e, new, old) =
      loop_writes (suc n) mem pagetable i l2 j pa perm r.index fits inside p in
    (
      mem',
      first_round mem n pagetable i l2 0 ((i * 1024 + j) * 4096 % u32) pa perm r
            (omega (arith, r.index))
          ∙ e,
      new,
      old,
    )

check_map_ready :
    (pagetable va pa n perm : ℕ)
    → va % 4096 ≡ 0
    → va + n * 4096 ≤ 4294967296
    → pa % 4096 ≡ 0
    → pa + n * 4096 ≤ 2097152
    → perm < 4096
    → pagetable % 4096 ≡ 0
    → check_map pagetable va pa (n * 4096) perm ≡ true
unfolding check_map
check_map_ready pagetable va pa n perm e inside f small flags g =
    let h1 : n * 4096 % 4096 ≡ 0 = omega arith in
    let h2 : (pa + n * 4096) % u32 ≡ pa + n * 4096 = omega arith in
    elim (range_cases va n inside) [
      | inl below ↦ ground (arith, h1, h2, below)
      | inr wraps ↦ ground (arith, h1, h2, wraps)
    ]
  where
    range_cases :
        (va n : ℕ)
        → va + n * 4096 ≤ 4294967296
        → ((va + n * 4096) % u32 ≡ va + n * 4096) ⊎ ((va + n * 4096) % u32 ≡ 0)
    range_cases va n h = omega arith

-- Where the level-1 entry of a range has a level-2 table in a page of its own and allows what
-- `perm` asks for, and `perm` is of 12 bits and has PTE_P, `virtual_memory_map` returns, for a
-- page-aligned range below that one entry onto physical memory that exists. Then
-- `virtual_memory_lookup` finds each address of the range at its place, with `perm`, and no word
-- but the range's entries is changed.
pub map-lookup :
    (mem : Memory) (pagetable i l2 j n pa perm : ℕ)
    → Ready mem pagetable i l2 perm
    → j + n ≤ 1024
    → pa % 4096 ≡ 0
    → pa + n * 4096 ≤ 2097152
    → perm < 4096
    → has_p perm ≡ true
    → (j < 1024)
    → (mem' : Memory) × (virtual_memory_map mem pagetable ((i * 1024 + j) * 4096) pa (n * 4096) perm
        ≡ some mem')
      × ((k off : ℕ)
          → k < n
          → off < 4096
          → virtual_memory_lookup mem' pagetable ((i * 1024 + (j + k)) * 4096 + off)
            ≡ some (record { pn = (pa + k * 4096) / 4096; pa = pa + k * 4096 + off; perm = perm }))
      × ((a : ℕ) → Outside l2 j n a → mem' a ≡ mem a)
unfolding virtual_memory_map
map-lookup mem pagetable i l2 j n pa perm r fits aligned inside flags p start =
    let va : (i * 1024 + j) * 4096 % u32 ≡ (i * 1024 + j) * 4096 = omega (arith, r.index) in
    let pages : n * 4096 / 4096 ≡ n = omega arith in
    let checks : check_map pagetable ((i * 1024 + j) * 4096) pa (n * 4096) perm ≡ true =
      check_map_ready pagetable ((i * 1024 + j) * 4096) pa n perm (omega arith)
        (omega (arith, r.index)) aligned inside flags r.aligned in
    let (mem', e, new, old) = run_map mem pagetable i l2 j n pa perm r fits inside p in
    (
      mem',
      rw (checks, pages) (rw⁻¹ va e),
      (λ k off h h'.
          lookup_entry mem' pagetable i (j + k) l2 (pa + k * 4096) perm off
            (map_loop-Ready mem mem' pagetable i l2 perm j n r fits old) (new k h) (omega arith) h'
            (omega arith) flags p),
      old,
    )
