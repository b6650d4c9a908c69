-- ===== src/Dispatch/World/Section.antt =====
-- What one section does to the counters and the flags of the world.
use cs61_psets.Common.{
  ℕ, ◌+◌, ◌≡◌, ◌==◌, ◌&&◌, refl, ◌⊎◌, inl, inr, Option-cases, Bool-cases, Bool, true, false, none,
  List, [], ◌∷◌, arith, length,
}
use cs61_psets.Dispatch.Queue.Order.{IsValid, count}
use cs61_psets.Dispatch.World.{
  Dispatcher, reading, full_wait, full_ready, done_wait, done_ready, finished, Driver, ready,
  waiting, driving, exited, World, Signal, dispatch_loop, finish_loop, dispatcher_step,
  driver_enter, driver_complete, driver_step, ended, dispatcher_runs, driver_runs,
}
use cs61_psets.Dispatch.World.Conserve.{
  QueueOk, Holds-mono, Holds, le_cases, zero_cases, dispatch_loop_room, dispatch_loop_full,
  driver_enter_waits, driver_enter_exits, driver_enter_takes,
}

-- the requests that are not counted yet
abbrev pub unread : Dispatcher → ℕ
unread (reading rest) = length rest
unread (full_wait req rest) = length rest
unread (full_ready req rest) = length rest
unread _ = 0

-- the dispatcher has read everything
abbrev pub closing : Dispatcher → Bool
closing done_wait = true
closing done_ready = true
closing finished = true
closing _ = false

-- every ride is over, and no request will come
abbrev pub Over : World → Type 0
Over w = (w.dispatch_done ≡ true) × (w.rides_done ≡ w.total_rides)

-- what a section of the dispatcher does to the counters and the flags
abbrev pub Booked : World → Dispatcher → World × Dispatcher × Signal → Type 0
Booked w d (w', d', signal) =
    (w'.total_rides + unread d' ≡ w.total_rides + unread d)
    × (w'.rides_done ≡ w.rides_done)
    × (w'.dispatch_done ≡ closing d')
    × (Over w → Over w')
    × (w'.exit_drivers ≡ true → (w.exit_drivers ≡ true) ⊎ Over w')
    × (w'.queue ≡ none → w.queue ≡ none)
    × (d' ≡ finished → w'.exit_drivers ≡ true)

dispatch_loop-Booked :
    (w : World) (req : ℕ) (rest : List ℕ)
    → QueueOk w.queue
    → w.dispatch_done ≡ false
    → Holds (Booked w (reading rest)) (dispatch_loop w req rest)
dispatch_loop-Booked w req rest ok busy = elim (Option-cases w.queue) [
  | inl e ↦ unfold dispatch_loop in (rw e tt)
  | inr (q, e) ↦
      let v : IsValid q = rw e at ok in
      elim (le_cases (count q) v.bounded) [
        | inl room ↦
            let (q', r, v', c) = dispatch_loop_room w v e req rest room in
            rw r (refl, refl, busy, λ o. o, λ x. inl x, λ x. cc x, λ x. cc x)
        | inr full ↦
            rw (dispatch_loop_full w v e req rest full)
              (refl, refl, busy, λ o. o, λ x. inl x, λ x. x, λ x. cc x)
      ]
]

finish_loop-Booked : (w : World) → w.dispatch_done ≡ true → Booked w done_ready (finish_loop w)
unfolding finish_loop
finish_loop-Booked w done = ground arith

pub dispatcher_step-Booked :
    (w : World) (d : Dispatcher)
    → QueueOk w.queue
    → dispatcher_runs d ≡ true
    → w.dispatch_done ≡ closing d
    → Holds (Booked w d) (dispatcher_step w d)
unfolding dispatcher_step
dispatcher_step-Booked w (reading (req ∷ rest)) ok runs phase =
    Holds-mono (dispatch_loop (record w { total_rides = w.total_rides + 1 }) req rest)
      (λ r b. (omega (arith, b.0), b.1, b.2, λ o. cc (o.0), b.4, b.5, b.6))
      (dispatch_loop-Booked (record w { total_rides = w.total_rides + 1 }) req rest ok phase)
dispatcher_step-Booked w (reading []) ok runs phase =
    let b = finish_loop-Booked (record w { dispatch_done = true }) refl in
    (omega (arith, b.0), b.1, b.2, λ o. cc (o.0), b.4, b.5, b.6)
dispatcher_step-Booked w (full_ready req rest) ok runs phase =
    dispatch_loop-Booked w req rest ok phase
dispatcher_step-Booked w done_ready ok runs phase = finish_loop-Booked w phase
dispatcher_step-Booked w (full_wait req rest) ok runs phase = cc
dispatcher_step-Booked w done_wait ok runs phase = cc
dispatcher_step-Booked w finished ok runs phase = cc

-- the same for a driver
abbrev pub BookedBy : World → Driver → World × Driver × Signal → Type 0
BookedBy w old (w', new, signal) =
    (w'.total_rides ≡ w.total_rides)
    × (w'.rides_done ≡ w.rides_done + length (ended old))
    × (w'.dispatch_done ≡ w.dispatch_done)
    × (w'.exit_drivers ≡ w.exit_drivers)
    × (w'.queue ≡ none → (w.queue ≡ none) ⊎ Over w')
    × (new ≡ exited → (w.exit_drivers ≡ true) ⊎ Over w')

driver_enter-BookedBy : (w : World) → QueueOk w.queue → Holds (BookedBy w ready) (driver_enter w)
driver_enter-BookedBy w ok = elim (Option-cases w.queue) [
  | inl e ↦ unfold driver_enter in (rw e tt)
  | inr (q, e) ↦
      let v : IsValid q = rw e at ok in
      elim (Bool-cases w.exit_drivers) [
        | inl leave ↦
            rw (driver_enter_exits w v e leave)
              (refl, omega arith, refl, refl, λ x. inl x, λ x. inl leave)
        | inr stay ↦ elim (zero_cases (count q)) [
          | inl z ↦
              rw (driver_enter_waits w v e z stay)
                (refl, omega arith, refl, refl, λ x. inl x, λ x. cc x)
          | inr (m, c) ↦
              let (req, q', r, v', split) = driver_enter_takes w v e m c stay in
              rw r (refl, omega arith, refl, refl, λ x. cc x, λ x. cc x)
        ]
      ]
]

driver_complete-BookedBy :
    (w : World) (req : ℕ) → Holds (BookedBy w (driving req)) (driver_complete w)
unfolding driver_complete
driver_complete-BookedBy w req =
    elim (Bool-cases (w.dispatch_done && (w.rides_done + 1 == w.total_rides))) [
      | inl t ↦ elim (Option-cases w.queue) [
        | inl e ↦ rw (t, e) tt
        | inr (q, e) ↦
            let over : Over (record w { rides_done = w.rides_done + 1 }) = ground arith in
            rw (t, e) (refl, refl, refl, refl, λ x. inr over, λ x. inr over)
      ]
      | inr t ↦ rw t (refl, refl, refl, refl, λ x. inl x, λ x. cc x)
    ]

pub driver_step-BookedBy :
    (w : World) (d : Driver)
    → QueueOk w.queue
    → driver_runs d ≡ true
    → Holds (BookedBy w d) (driver_step w d)
unfolding driver_step
driver_step-BookedBy w ready ok runs = driver_enter-BookedBy w ok
driver_step-BookedBy w (driving req) ok runs = driver_complete-BookedBy w req
driver_step-BookedBy w waiting ok runs = cc
driver_step-BookedBy w exited ok runs = cc
