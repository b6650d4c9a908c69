-- ===== src/Allocator/Freeing.antt =====
-- A header that leaves the list of the active ones.
use cs61_psets.Common.Bytes.{u32}
use cs61_psets.Common.{
  ℕ, ◌+◌, ◌≡◌, sym, ◌∙◌, ap, arith, inl, inr, ◌⊎◌, false, ◌==◌, ◌&&◌, not, if◌then◌else◌, put,
  sum_to, sum_to-put, sum_to-ext,
}
use cs61_psets.Allocator.{Heap, Meta}
use cs61_psets.Allocator.Invariant.{active_one, active_bytes, Active, Links}

-- the active header at `at` leaves the list
pub record Popped (h h' : Heap) (at : ℕ) : Type 0 where
  pub active : (b : ℕ) → (h'.metas b).is_active ≡ (if b == at then false else (h.metas b).is_active)
  pub size : (b : ℕ) → (h'.metas b).size ≡ (h.metas b).size
  pub prev :
      (b : ℕ)
      → (h'.metas b).prev ≡ (
          if (b == (h.metas at).next) && not ((h.metas at).next == 0)
          then (h.metas at).prev
          else (h.metas b).prev)
  pub next :
      (b : ℕ)
      → (h'.metas b).next ≡ (
          if (b == (h.metas at).prev) && not ((h.metas at).prev == 0)
          then (h.metas at).next
          else (h.metas b).next)
  pub root : h'.root ≡ (if h.root == at then (h.metas at).prev else h.root)

-- the root has no header behind it
pub root_end : (h : Heap) (at : ℕ) → Links h → Active h at → h.root ≡ at → (h.metas at).next ≡ 0
root_end h at l taken e = elim l.root [
  | inl z ↦ absurd (omega (arith, e, z, l.place at taken))
  | inr (ra, rn) ↦ ap (λ x. (h.metas x).next) (sym e) ∙ rn
]

module _ (h h' : Heap) (at : ℕ) (l : Links h) (taken : Active h at) (o : Popped h h' at) where
  pub was-Active : (b : ℕ) → Active h' b → (b ≡ at → ⊥) × Active h b
  was-Active b a = (ground (arith, o.active b, a), ground (arith, o.active b, a))

  still : (b : ℕ) → Active h b → (b ≡ at → ⊥) → Active h' b
  still b a ne = ground (arith, o.active b, a, ne)

  same_or_not : (i j : ℕ) → (i ≡ j) ⊎ (i ≡ j → ⊥)
  same_or_not i j = ground arith

  -- who points to another header than `at` still does
  next_kept : (q b : ℕ) → (h.metas q).next ≡ b → (b ≡ at → ⊥) → (h'.metas q).next ≡ b
  next_kept q b e ne =
      let apart : q ≡ (h.metas at).prev → (h.metas at).prev ≡ 0 = λ e'. elim (l.before at taken) [
        | inl z ↦ z
        | inr (pa, pn) ↦ absurd (ne (sym e ∙ ap (λ x. (h.metas x).next) e' ∙ pn))
      ] in
      let same : (h'.metas q).next ≡ (h.metas q).next = ground (arith, o.next q, apart) in same ∙ e

  prev_kept : (q b : ℕ) → (h.metas q).prev ≡ b → (b ≡ at → ⊥) → (h'.metas q).prev ≡ b
  prev_kept q b e ne =
      let apart : q ≡ (h.metas at).next → (h.metas at).next ≡ 0 = λ e'. elim (l.behind at taken) [
        | inl z ↦ z
        | inr (na, np) ↦ absurd (ne (sym e ∙ ap (λ x. (h.metas x).prev) e' ∙ np))
      ] in
      let same : (h'.metas q).prev ≡ (h.metas q).prev = ground (arith, o.prev q, apart) in same ∙ e

  pop-before :
      (b : ℕ)
      → Active h' b
      → ((h'.metas b).prev ≡ 0)
        ⊎ (Active h' (h'.metas b).prev × ((h'.metas (h'.metas b).prev).next ≡ b))
  pop-before b a =
      let (ne, a') = was-Active b a in
      let pos = (l.place b a').0 in
      elim (same_or_not b (h.metas at).next) [
        | inl e ↦
            let q : (h'.metas b).prev ≡ (h.metas at).prev = ground (arith, o.prev b, e, pos) in
            rw q (elim (l.before at taken) [
              | inl z ↦ inl z
              | inr (pa, pn) ↦
                  let low = (l.place (h.metas at).prev pa).0 in
                  inr (
                    still (h.metas at).prev pa
                        (λ e'. ne (e ∙ sym (ap (λ x. (h.metas x).next) e') ∙ pn)),
                    ground (arith, o.next (h.metas at).prev, e, low),
                  )
            ])
        | inr ne' ↦
            let q : (h'.metas b).prev ≡ (h.metas b).prev = ground (arith, o.prev b, ne') in
            rw q (elim (l.before b a') [
              | inl z ↦ inl z
              | inr (qa, qn) ↦
                  let not_at : (h.metas b).prev ≡ at → ⊥ =
                    λ e. ne' (sym qn ∙ ap (λ x. (h.metas x).next) e) in
                  inr (still (h.metas b).prev qa not_at, next_kept (h.metas b).prev b qn ne)
            ])
      ]

  pop-behind :
      (b : ℕ)
      → Active h' b
      → ((h'.metas b).next ≡ 0)
        ⊎ (Active h' (h'.metas b).next × ((h'.metas (h'.metas b).next).prev ≡ b))
  pop-behind b a =
      let (ne, a') = was-Active b a in
      let pos = (l.place b a').0 in
      elim (same_or_not b (h.metas at).prev) [
        | inl e ↦
            let q : (h'.metas b).next ≡ (h.metas at).next = ground (arith, o.next b, e, pos) in
            rw q (elim (l.behind at taken) [
              | inl z ↦ inl z
              | inr (na, np) ↦
                  let low = (l.place (h.metas at).next na).0 in
                  inr (
                    still (h.metas at).next na
                        (λ e'. ne (e ∙ sym (ap (λ x. (h.metas x).prev) e') ∙ np)),
                    ground (arith, o.prev (h.metas at).next, e, low),
                  )
            ])
        | inr ne' ↦
            let q : (h'.metas b).next ≡ (h.metas b).next = ground (arith, o.next b, ne') in
            rw q (elim (l.behind b a') [
              | inl z ↦ inl z
              | inr (qa, qp) ↦
                  let not_at : (h.metas b).next ≡ at → ⊥ =
                    λ e. ne' (sym qp ∙ ap (λ x. (h.metas x).prev) e) in
                  inr (still (h.metas b).next qa not_at, prev_kept (h.metas b).next b qp ne)
            ])
      ]

  pop-root : (h'.root ≡ 0) ⊎ (Active h' h'.root × ((h'.metas h'.root).next ≡ 0))
  pop-root = elim (same_or_not h.root at) [
    | inl e ↦
        let q : h'.root ≡ (h.metas at).prev = ground (arith, o.root, e) in
        rw q (elim (l.before at taken) [
          | inl z ↦ inl z
          | inr (pa, pn) ↦
              let z = root_end h at l taken e in
              let low = (l.place (h.metas at).prev pa).0 in
              inr (
                still (h.metas at).prev pa (λ e'.
                    omega (arith, sym pn ∙ ap (λ x. (h.metas x).next) e' ∙ z, l.place at taken)),
                ground (arith, o.next (h.metas at).prev, z, low),
              )
        ])
    | inr ne ↦
        let q : h'.root ≡ h.root = ground (arith, o.root, ne) in
        rw q (elim l.root [
          | inl z ↦ inl z
          | inr (ra, rn) ↦
              inr (
                still h.root ra ne,
                next_kept h.root 0 rn (λ e. omega (arith, e, l.place at taken)),
              )
        ])
  ]

  pop-last : (b : ℕ) → Active h' b → (h'.metas b).next ≡ 0 → h'.root ≡ b
  pop-last b a e =
      let (ne, a') = was-Active b a in
      let pos = (l.place b a').0 in
      elim (same_or_not b (h.metas at).prev) [
        | inl e' ↦
            let n : (h.metas at).next ≡ 0 = ground (arith, o.next b, e', pos, e) in
            ground (arith, o.root, l.last at taken n, e')
        | inr ne' ↦
            let q : (h.metas b).next ≡ 0 = ground (arith, o.next b, ne', e) in
            ground (arith, o.root, l.last b a' q, ne)
      ]

  pub pop-Links : Links h'
  pop-Links = record {
    place = λ b a. l.place b (was-Active b a).1;
    before = pop-before;
    behind = pop-behind;
    root = pop-root;
    last = pop-last;
  }

  popped : ℕ → Meta
  popped = put h.metas at (record (h.metas at) { is_active = false })

  pub pop-count : sum_to active_one u32 h'.metas + 1 ≡ sum_to active_one u32 h.metas
  unfolding popped
  pop-count =
      let same : (b : ℕ) → active_one (h'.metas b) ≡ active_one (popped b) =
        λ b. ground (arith, o.active b) in
      let one : active_one (h.metas at) ≡ 1 = ground (arith, taken) in
      omega (
        arith,
        sum_to-ext active_one u32 h'.metas popped same,
        sum_to-put active_one u32 h.metas at (record (h.metas at) { is_active = false })
            (l.place at taken).1,
        one,
      )

  pub pop-bytes :
      sum_to active_bytes u32 h'.metas + (h.metas at).size ≡ sum_to active_bytes u32 h.metas
  unfolding popped
  pop-bytes =
      let same : (b : ℕ) → active_bytes (h'.metas b) ≡ active_bytes (popped b) =
        λ b. ground (arith, o.active b, o.size b) in
      let all_of : active_bytes (h.metas at) ≡ (h.metas at).size = ground (arith, taken) in
      omega (
        arith,
        sum_to-ext active_bytes u32 h'.metas popped same,
        sum_to-put active_bytes u32 h.metas at (record (h.metas at) { is_active = false })
            (l.place at taken).1,
        all_of,
      )
