-- ===== src/Dispatch/Queue/Fifo.antt =====
-- The queue refines a list of at most MAX_QUEUE_SIZE payloads.
use cs61_psets.Common.{
  ℕ, zero, suc, ◌≤◌, ◌<◌, ◌≡◌, refl, sym, ◌⊎◌, inl, inr, arith, Option, none, some, List, [], ◌∷◌,
  ◌++◌, ltb, if◌then◌else◌, if_true, if_false, length,
}
use mathlib.Core.Path.{subst}
use cs61_psets.Dispatch.Queue.{Queue, push_back, pop_front, max_queue_size}
use cs61_psets.Dispatch.Queue.Order.{
  IsValid, count, contents, window, length-window, push_back-contents, push_back_full,
  pop_front-contents,
}

-- what the two operations mean for the payloads, and where they fail
abbrev pub enqueue : List ℕ → ℕ → Option (List ℕ)
enqueue xs x = if ltb (length xs) max_queue_size then some (xs ++ (x ∷ [])) else none

abbrev pub dequeue : List ℕ → Option (ℕ × List ℕ)
dequeue [] = none
dequeue (x ∷ xs) = some (x, xs)

-- both fail, or both return, with a valid queue of the same payloads
abbrev pub Agree : Option Queue → Option (List ℕ) → Type 0
Agree none none = Unit
Agree none (some xs) = ⊥
Agree (some q) none = ⊥
Agree (some q) (some xs) = IsValid q × (contents q ≡ xs)

abbrev pub PopsAgree : Option (ℕ × Queue) → Option (ℕ × List ℕ) → Type 0
PopsAgree none none = Unit
PopsAgree none (some (y, xs)) = ⊥
PopsAgree (some (x, q)) none = ⊥
PopsAgree (some (x, q)) (some (y, xs)) = (x ≡ y) × IsValid q × (contents q ≡ xs)

room_cases : (n : ℕ) → n ≤ 5 → (n < 5) ⊎ (n ≡ 5)
room_cases n h = omega arith

left_cases : (n : ℕ) → (n ≡ 0) ⊎ ((m : ℕ) × (n ≡ suc m))
left_cases zero = inl refl
left_cases (suc m) = inr (m, refl)

push-enqueue : (q : Queue) (x : ℕ) → IsValid q → Agree (push_back q x) (enqueue (contents q) x)
push-enqueue q x v = elim (room_cases (count q) v.bounded) [
  | inl room ↦
      let (q', e, v', is) = push_back-contents x v room in
      let there : enqueue (contents q) x ≡ some (contents q ++ (x ∷ [])) =
        if_true {b = ltb (length (contents q)) max_queue_size} _ _
          (ground (arith, length-window q.array q.head (count q), room)) in
      subst (λ o. Agree o (enqueue (contents q) x)) (sym e)
        (subst (λ o. Agree (some q') o) (sym there) (v', is))
  | inr full ↦
      let away : enqueue (contents q) x ≡ none =
        if_false {b = ltb (length (contents q)) max_queue_size} _ _
          (ground (arith, length-window q.array q.head (count q), full)) in
      subst (λ o. Agree o (enqueue (contents q) x)) (sym (push_back_full x v full))
        (subst (λ o. Agree none o) (sym away) tt)
]

pop_front_empty : (q : Queue) → IsValid q → count q ≡ 0 → pop_front q ≡ none
unfolding pop_front
pop_front_empty q v e = ground arith

pop-dequeue : (q : Queue) → IsValid q → PopsAgree (pop_front q) (dequeue (contents q))
pop-dequeue q v = elim (left_cases (count q)) [
  | inl e ↦
      subst (λ o. PopsAgree o (dequeue (contents q))) (sym (pop_front_empty q v e))
        (subst (λ n. PopsAgree none (dequeue (window q.array q.head n))) (sym e) tt)
  | inr (n, e) ↦
      let (x, q', is, v', split) = pop_front-contents n v e in
      subst (λ o. PopsAgree o (dequeue (contents q))) (sym is)
        (subst (λ xs. PopsAgree (some (x, q')) (dequeue xs)) (sym split) (refl, v', refl))
]

-- On a valid queue push_back and pop_front do with its payloads, in their order, what a bounded
-- FIFO does: they fail when it is full, and when it is empty, and else they return a valid queue
-- with the payload behind the others, and the oldest payload with a valid queue of the others.
pub queue_refines_fifo :
    (q : Queue) (x : ℕ)
    → IsValid q
    → Agree (push_back q x) (enqueue (contents q) x)
      × PopsAgree (pop_front q) (dequeue (contents q))
queue_refines_fifo q x v = (push-enqueue q x v, pop-dequeue q v)
