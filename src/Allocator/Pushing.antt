-- ===== src/Allocator/Pushing.antt =====
-- A header that enters the list of the active ones.
use cs61_psets.Common.Bytes.{u32}
use cs61_psets.Common.{
  ℕ, ◌+◌, ◌<◌, ◌≤◌, ◌≡◌, sym, ◌∙◌, ap, arith, inl, inr, ◌⊎◌, true, false, ◌==◌, ◌&&◌, not,
  if◌then◌else◌, put, sum_to, sum_to-put, sum_to-ext,
}
use cs61_psets.Allocator.{Heap, Meta}
use cs61_psets.Allocator.Invariant.{active_one, active_bytes, Active, Links}

-- an inactive header at `at` becomes the root
pub record Pushed (h h' : Heap) (at sz : ℕ) : Type 0 where
  pub active : (b : ℕ) → (h'.metas b).is_active ≡ (if b == at then true else (h.metas b).is_active)
  pub prev : (b : ℕ) → (h'.metas b).prev ≡ (if b == at then h.root else (h.metas b).prev)
  pub next :
      (b : ℕ)
      → (h'.metas b).next ≡ (
          if b == at
          then 0
          else if (b == h.root) && not (h.root == 0)
          then at
          else (h.metas b).next)
  pub root : h'.root ≡ at
  pub size : (b : ℕ) → (h'.metas b).size ≡ (if b == at then sz else (h.metas b).size)

module _ (h h' : Heap) (at sz : ℕ) (l : Links h) (free : (h.metas at).is_active ≡ false)
    (p : Pushed h h' at sz) (low : 1 ≤ at) (high : at < u32) where
  pub was-Active : (b : ℕ) → Active h' b → (b ≡ at) ⊎ ((b ≡ at → ⊥) × Active h b)
  was-Active b a = ground (arith, p.active b, a)

  still : (b : ℕ) → Active h b → Active h' b
  still b a = ground (arith, p.active b, a)

  other : (b : ℕ) → Active h b → b ≡ at → ⊥
  other b a e = ground (arith, a, e, free)

  pub push-Links : Links h'
  push-Links = record {
    place = λ b a. elim (was-Active b a) [
      | inl e ↦ (omega (arith, e), omega (arith, e))
      | inr (ne, a') ↦ l.place b a'
    ];
    before = λ b a. elim (was-Active b a) [
      | inl e ↦ elim l.root [
        | inl z ↦ inl (ground (arith, p.prev b, e, z))
        | inr (ra, rn) ↦
            let q : (h'.metas b).prev ≡ h.root = ground (arith, p.prev b, e) in
            let pos = l.place h.root ra in
            rw q (inr (still h.root ra, ground (arith, p.next h.root, other h.root ra, pos.0, e)))
      ]
      | inr (ne, a') ↦
          let q : (h'.metas b).prev ≡ (h.metas b).prev = ground (arith, p.prev b, ne) in
          rw q (elim (l.before b a') [
            | inl z ↦ inl z
            | inr (qa, qn) ↦ inr (
              still (h.metas b).prev qa,
              kept (h.metas b).prev qa (omega (arith, qn, (l.place b a').0)) ∙ qn,
            )
          ])
    ];
    behind = λ b a. elim (was-Active b a) [
      | inl e ↦ inl (ground (arith, p.next b, e))
      | inr (ne, a') ↦ elim (root_cases b) [
        | inl e ↦
            let q : (h'.metas b).next ≡ at = ground (arith, p.next b, ne, e, (l.place b a').0) in
            rw q (inr (new, ground (arith, p.prev at, e)))
        | inr ne' ↦
            let q : (h'.metas b).next ≡ (h.metas b).next = ground (arith, p.next b, ne, ne') in
            rw q (elim (l.behind b a') [
              | inl z ↦ inl z
              | inr (qa, qp) ↦ inr (
                still (h.metas b).next qa,
                ground (arith, p.prev (h.metas b).next, other (h.metas b).next qa) ∙ qp,
              )
            ])
      ]
    ];
    root = inr (rw p.root new, ground (arith, p.root, p.next h'.root));
    last = λ b a e. elim (was-Active b a) [
      | inl e' ↦ p.root ∙ sym e'
      | inr (ne, a') ↦ elim (root_cases b) [
        | inl e' ↦ absurd (ground (arith, p.next b, ne, e', e, low, (l.place b a').0))
        | inr ne' ↦
            let q : (h.metas b).next ≡ 0 = ground (arith, p.next b, ne, ne', e) in
            absurd (ne' (sym (l.last b a' q)))
      ]
    ];
  }
    where
      new : Active h' at
      new = ground (arith, p.active at)

      root_cases : (b : ℕ) → (b ≡ h.root) ⊎ (b ≡ h.root → ⊥)
      root_cases b = ground arith

      kept : (b : ℕ) → Active h b → 1 ≤ (h.metas b).next → (h'.metas b).next ≡ (h.metas b).next
      kept b a more = elim l.root [
        | inl z ↦ ground (arith, p.next b, other b a, z)
        | inr (ra, rn) ↦
            let ne : b ≡ h.root → ⊥ = λ e. omega (arith, ap (λ b. (h.metas b).next) e ∙ rn, more) in
            ground (arith, p.next b, other b a, ne)
      ]

  pushed : ℕ → Meta
  pushed = put h.metas at (record (h.metas at) { is_active = true; size = sz })

  pub push-count : sum_to active_one u32 h'.metas ≡ sum_to active_one u32 h.metas + 1
  unfolding pushed
  push-count =
      let same : (b : ℕ) → active_one (h'.metas b) ≡ active_one (pushed b) =
        λ b. ground (arith, p.active b) in
      let none_yet : active_one (h.metas at) ≡ 0 = ground (arith, free) in
      omega (
        arith,
        sum_to-ext active_one u32 h'.metas pushed same,
        sum_to-put active_one u32 h.metas at (record (h.metas at) { is_active = true; size = sz })
            high,
        none_yet,
      )

  pub push-bytes : sum_to active_bytes u32 h'.metas ≡ sum_to active_bytes u32 h.metas + sz
  unfolding pushed
  push-bytes =
      let same : (b : ℕ) → active_bytes (h'.metas b) ≡ active_bytes (pushed b) =
        λ b. ground (arith, p.active b, p.size b) in
      let none_yet : active_bytes (h.metas at) ≡ 0 = ground (arith, free) in
      omega (
        arith,
        sum_to-ext active_bytes u32 h'.metas pushed same,
        sum_to-put active_bytes u32 h.metas at (record (h.metas at) { is_active = true; size = sz })
            high,
        none_yet,
      )
