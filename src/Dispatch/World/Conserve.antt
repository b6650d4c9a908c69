-- ===== src/Dispatch/World/Conserve.antt =====
-- No request is lost or served twice: each section only moves requests between the places that
-- hold them.
use cs61_psets.Common.{
  ℕ, zero, suc, ◌+◌, ◌<◌, ◌≤◌, ◌≡◌, ◌==◌, ◌&&◌, refl, ◌⊎◌, inl, inr, Option-cases, Bool-cases, true,
  false, Option, none, some, List, [], ◌∷◌, ◌++◌, arith, get_elem?, set,
}
use cs61_psets.Dispatch.Queue.{Queue}
use cs61_psets.Dispatch.Queue.Order.{
  IsValid, count, contents, size-count, empty-contents, push_back-contents, pop_front-contents,
}
use cs61_psets.Dispatch.World.{
  Dispatcher, reading, full_wait, full_ready, done_wait, done_ready, finished, Driver, ready,
  waiting, driving, exited, World, Signal, nobody, one_full, one_empty, one_done, all_empty,
  dispatch_loop, finish_loop, dispatcher_step, driver_enter, driver_complete, driver_step, System,
  wake_all, ended, woke, no_waiter, Delivered, dispatcher_runs, driver_runs,
}

-- the queue is valid, as long as there is one
abbrev pub QueueOk : Option Queue → Type 0
QueueOk none = Unit
QueueOk (some q) = IsValid q

abbrev pub queued : Option Queue → List ℕ
queued none = []
queued (some q) = contents q

-- the requests that the dispatcher has in hand or has not read
abbrev pub coming : Dispatcher → List ℕ
coming (reading rest) = rest
coming (full_wait req rest) = req ∷ rest
coming (full_ready req rest) = req ∷ rest
coming _ = []

-- the sum over a list, so `λ _. 1` counts, and an indicator function counts one request
abbrev pub weight : (ℕ → ℕ) → List ℕ → ℕ
weight f [] = 0
weight f (x ∷ xs) = f x + weight f xs

abbrev pub on_ride : (ℕ → ℕ) → List Driver → ℕ
on_ride f [] = 0
on_ride f (d ∷ ds) = weight f (ended d) + on_ride f ds

abbrev pub load : (ℕ → ℕ) → System → ℕ
load f s =
    weight f (coming s.dispatcher)
    + weight f (queued s.world.queue)
    + on_ride f s.drivers
    + weight f s.served

module _ (f : ℕ → ℕ) where
  pub weight-append : (xs ys : List ℕ) → weight f (xs ++ ys) ≡ weight f xs + weight f ys
  weight-append [] ys = omega arith
  weight-append (x ∷ xs) ys = omega (arith, weight-append xs ys)

  pub on_ride-set :
      (ds : List Driver) (i : ℕ) (old new : Driver)
      → get_elem? ds i ≡ some old
      → on_ride f (set ds i new) + weight f (ended old) ≡ on_ride f ds + weight f (ended new)
  on_ride-set [] i old new e = cc
  on_ride-set (d ∷ ds) zero old new e = ground arith
  on_ride-set (d ∷ ds) (suc i) old new e = omega (arith, on_ride-set ds i old new e)

  on_ride-wake_all : (ds : List Driver) → on_ride f (wake_all ds) ≡ on_ride f ds
  on_ride-wake_all [] = refl
  on_ride-wake_all (ready ∷ ds) = omega (arith, on_ride-wake_all ds)
  on_ride-wake_all (waiting ∷ ds) = omega (arith, on_ride-wake_all ds)
  on_ride-wake_all (driving r ∷ ds) = omega (arith, on_ride-wake_all ds)
  on_ride-wake_all (exited ∷ ds) = omega (arith, on_ride-wake_all ds)

  -- waking threads moves no request
  pub Delivered-weight :
      (signal : Signal) (d : Dispatcher) (ds : List Driver) (d' : Dispatcher) (ds' : List Driver)
      → Delivered signal d ds d' ds'
      → weight f (coming d') + on_ride f ds' ≡ weight f (coming d) + on_ride f ds
  Delivered-weight nobody d ds d' ds' h = ground arith
  Delivered-weight one_full d ds d' ds' h = ground arith
  Delivered-weight one_empty d ds d' ds' (e, woke i w e') =
      ground (arith, on_ride-set ds i waiting ready w)
  Delivered-weight one_empty d ds d' ds' (e, no_waiter n e') = ground arith
  Delivered-weight one_done d ds d' ds' h = ground arith
  Delivered-weight all_empty d ds d' ds' h = ground (arith, on_ride-wake_all ds)

module _ (w : World) {q : Queue} (v : IsValid q) (has : w.queue ≡ some q) where
  pub dispatch_loop_room :
      (req : ℕ) (rest : List ℕ)
      → count q < 5
      → (q' : Queue) × (dispatch_loop w req rest
          ≡ some (record w { queue = some q' }, reading rest, one_empty))
        × IsValid q'
        × (contents q' ≡ contents q ++ (req ∷ []))
  unfolding dispatch_loop
  dispatch_loop_room req rest room =
      let (q', pushed, v', c) = push_back-contents req v room in
      (q', rw (has, size-count v) (ground arith), v', c)

  pub dispatch_loop_full :
      (req : ℕ) (rest : List ℕ)
      → count q ≡ 5
      → dispatch_loop w req rest ≡ some (w, full_wait req rest, nobody)
  unfolding dispatch_loop
  dispatch_loop_full req rest full = rw (has, size-count v) (ground arith)

  pub driver_enter_waits :
      count q ≡ 0 → w.exit_drivers ≡ false → driver_enter w ≡ some (w, waiting, nobody)
  unfolding driver_enter
  driver_enter_waits e stay = rw (has, (empty-contents v).1 e, stay)

  pub driver_enter_exits : w.exit_drivers ≡ true → driver_enter w ≡ some (w, exited, nobody)
  unfolding driver_enter
  driver_enter_exits leave = rw (has, leave) (ground arith)

  pub driver_enter_takes :
      (n : ℕ)
      → count q ≡ suc n
      → w.exit_drivers ≡ false
      → (req : ℕ) × (q' : Queue) × (driver_enter w
          ≡ some (record w { queue = some q' }, driving req, one_full))
        × IsValid q'
        × (contents q ≡ req ∷ contents q')
  unfolding driver_enter
  driver_enter_takes n e stay =
      let (req, q', popped, v', c) = pop_front-contents n v e in
      (req, q', rw (has, stay) (ground (arith, empty-contents v)), v', c)

-- what holds of the result, if there is one
abbrev pub Holds {ℓ κ} : {A : Type ℓ} → (A → Type κ) → Option A → Type κ
Holds P none = Unit
Holds P (some a) = P a

pub Holds-mono {ℓ κ μ} :
    {A : Type ℓ} {P : A → Type κ} {Q : A → Type μ} (r : Option A)
    → ((a : A) → P a → Q a)
    → Holds P r
    → Holds Q r
Holds-mono none weaken h = tt
Holds-mono (some a) weaken h = weaken a h

-- a section keeps the queue valid, and moves requests between the dispatcher and the queue
abbrev pub Moved : (ℕ → ℕ) → Dispatcher → Option Queue → World × Dispatcher × Signal → Type 0
Moved f d q (w', d', signal) =
    QueueOk w'.queue
    × (weight f (coming d') + weight f (queued w'.queue)
        ≡ weight f (coming d) + weight f (queued q))

-- the same for a driver
abbrev pub MovedBy : (ℕ → ℕ) → Option Queue → World × Driver × Signal → Type 0
MovedBy f q (w', d', signal) =
    QueueOk w'.queue × (weight f (ended d') + weight f (queued w'.queue) ≡ weight f (queued q))

pub le_cases : (n : ℕ) → n ≤ 5 → (n < 5) ⊎ (n ≡ 5)
le_cases n h = omega arith

pub zero_cases : (n : ℕ) → (n ≡ 0) ⊎ ((m : ℕ) × (n ≡ suc m))
zero_cases zero = inl refl
zero_cases (suc m) = inr (m, refl)

module _ (f : ℕ → ℕ) (w : World) where
  dispatch_loop-Moved :
      (d : Dispatcher) (req : ℕ) (rest : List ℕ)
      → weight f (coming d) ≡ f req + weight f rest
      → QueueOk w.queue
      → Holds (Moved f d w.queue) (dispatch_loop w req rest)
  dispatch_loop-Moved d req rest same ok = elim (Option-cases w.queue) [
    | inl e ↦ unfold dispatch_loop in (rw e tt)
    | inr (q, e) ↦
        let v : IsValid q = rw e at ok in
        elim (le_cases (count q) v.bounded) [
          | inl room ↦
              let (q', r, v', c) = dispatch_loop_room w v e req rest room in
              rw (r, e) (v', rw c (omega (arith, weight-append f (contents q) (req ∷ []))))
          | inr full ↦ rw (dispatch_loop_full w v e req rest full) (ok, rw same)
        ]
  ]

  finish_loop-Moved : QueueOk w.queue → Moved f done_ready w.queue (finish_loop w)
  unfolding finish_loop
  finish_loop-Moved ok = ground arith

  driver_enter-MovedBy : QueueOk w.queue → Holds (MovedBy f w.queue) (driver_enter w)
  driver_enter-MovedBy ok = elim (Option-cases w.queue) [
    | inl e ↦ unfold driver_enter in (rw e tt)
    | inr (q, e) ↦
        let v : IsValid q = rw e at ok in
        elim (Bool-cases w.exit_drivers) [
          | inl leave ↦ rw (driver_enter_exits w v e leave) (ok, omega arith)
          | inr stay ↦ elim (zero_cases (count q)) [
            | inl z ↦ rw (driver_enter_waits w v e z stay) (ok, omega arith)
            | inr (m, c) ↦
                let (req, q', r, v', split) = driver_enter_takes w v e m c stay in
                rw (r, e) (v', rw split (omega arith))
          ]
        ]
  ]

  driver_complete-MovedBy :
      QueueOk w.queue
      → (w.dispatch_done ≡ true → w.rides_done + 1 ≡ w.total_rides → queued w.queue ≡ [])
      → Holds (MovedBy f w.queue) (driver_complete w)
  unfolding driver_complete
  driver_complete-MovedBy ok last =
      elim (Bool-cases (w.dispatch_done && (w.rides_done + 1 == w.total_rides))) [
        | inl t ↦ elim (Option-cases w.queue) [
          | inl e ↦ rw (t, e) tt
          | inr (q, e) ↦
              let none_left : queued w.queue ≡ [] = last (ground arith) (ground arith) in
              let no_contents : contents q ≡ [] = rw e at none_left in
              rw (t, e) (tt, rw no_contents)
        ]
        | inr t ↦ rw t (ok, omega arith)
      ]

  pub driver_step-MovedBy :
      (d : Driver)
      → QueueOk w.queue
      → driver_runs d ≡ true
      → ((req : ℕ)
          → d ≡ driving req
          → w.dispatch_done ≡ true
          → w.rides_done + 1 ≡ w.total_rides
          → queued w.queue ≡ [])
      → Holds (MovedBy f w.queue) (driver_step w d)
  unfolding driver_step
  driver_step-MovedBy ready ok runs last = driver_enter-MovedBy ok
  driver_step-MovedBy waiting ok runs last = cc
  driver_step-MovedBy (driving req) ok runs last = driver_complete-MovedBy ok (last req refl)
  driver_step-MovedBy exited ok runs last = cc

pub dispatcher_step-Moved :
    (f : ℕ → ℕ) (w : World) (d : Dispatcher)
    → QueueOk w.queue
    → dispatcher_runs d ≡ true
    → Holds (Moved f d w.queue) (dispatcher_step w d)
unfolding dispatcher_step
dispatcher_step-Moved f w (reading (req ∷ rest)) ok runs =
    dispatch_loop-Moved f (record w { total_rides = w.total_rides + 1 }) (reading (req ∷ rest)) req
      rest refl ok
dispatcher_step-Moved f w (reading []) ok runs =
    finish_loop-Moved f (record w { dispatch_done = true }) ok
dispatcher_step-Moved f w (full_wait req rest) ok runs = cc
dispatcher_step-Moved f w (full_ready req rest) ok runs =
    dispatch_loop-Moved f w (full_ready req rest) req rest refl ok
dispatcher_step-Moved f w done_wait ok runs = cc
dispatcher_step-Moved f w done_ready ok runs = finish_loop-Moved f w ok
dispatcher_step-Moved f w finished ok runs = cc
