-- ===== src/Allocator/Invariant.antt =====
-- What holds of the heap between two calls.
use cs61_psets.Common.Bytes.{u32, u64}
use cs61_psets.Common.{ℕ, ◌%◌, ◌<◌, ◌≤◌, ◌≡◌, ◌⊎◌, true, if◌then◌else◌, sum_to}
use cs61_psets.Allocator.{Heap, Meta}

abbrev pub active_one : Meta → ℕ
active_one m = if m.is_active then 1 else 0

abbrev pub active_bytes : Meta → ℕ
active_bytes m = if m.is_active then m.size else 0

-- the active header at `b`
abbrev pub Active : Heap → ℕ → Type 0
Active h b = (h.metas b).is_active ≡ true

-- the list of the active headers is linked in both directions, and ends at the root
pub record Links (h : Heap) : Type 0 where
  pub place : (b : ℕ) → Active h b → (1 ≤ b) × (b < u32)
  pub before :
      (b : ℕ)
      → Active h b
      → ((h.metas b).prev ≡ 0) ⊎ (Active h (h.metas b).prev × ((h.metas (h.metas b).prev).next ≡ b))
  pub behind :
      (b : ℕ)
      → Active h b
      → ((h.metas b).next ≡ 0) ⊎ (Active h (h.metas b).next × ((h.metas (h.metas b).next).prev ≡ b))
  pub root : (h.root ≡ 0) ⊎ (Active h h.root × ((h.metas h.root).next ≡ 0))
  pub last : (b : ℕ) → Active h b → (h.metas b).next ≡ 0 → h.root ≡ b

-- they can be read, and the statistics count them
pub record Inv (h : Heap) : Type 0 where
  pub links : Links h
  pub readable : (b : ℕ) → Active h b → h.mapped b ≡ true
  pub small : (b : ℕ) → Active h b → (h.metas b).size < u32
  pub count : h.total_stats.nactive ≡ sum_to active_one u32 h.metas % u64
  pub bytes : h.total_stats.active_size ≡ sum_to active_bytes u32 h.metas % u64
