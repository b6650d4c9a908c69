-- ===== src/Dispatch/World/Progress.antt =====
-- No assertion fails, and no access faults, as long as the queue is not freed.
use cs61_psets.Common.{
  ℕ, ◌+◌, ◌≡◌, refl, inl, inr, Bool-cases, Option, none, some, List, [], ◌∷◌, ◌==◌, ◌&&◌, length,
  get_elem?,
}
use cs61_psets.Dispatch.Queue.{Queue}
use cs61_psets.Dispatch.Queue.Order.{IsValid, count}
use cs61_psets.Dispatch.World.{
  Dispatcher, reading, full_wait, full_ready, done_wait, done_ready, finished, Driver, ready,
  waiting, driving, exited, World, nobody, one_done, dispatch_loop, dispatcher_step, driver_enter,
  driver_complete, driver_step, System, start, Reach,
}
use cs61_psets.Dispatch.World.Conserve.{
  le_cases, zero_cases, dispatch_loop_room, dispatch_loop_full, driver_enter_waits,
  driver_enter_exits, driver_enter_takes,
}
use cs61_psets.Dispatch.World.Rides.{run-Inv}

-- a section that returns
abbrev pub Returns {ℓ} : {A : Type ℓ} → Option A → Type ℓ
Returns {A} r = (a : A) × (r ≡ some a)

dispatch_loop-Returns :
    (w : World) {q : Queue} (req : ℕ) (rest : List ℕ)
    → w.queue ≡ some q
    → IsValid q
    → Returns (dispatch_loop w req rest)
dispatch_loop-Returns w {q} req rest has v = elim (le_cases (count q) v.bounded) [
  | inl room ↦ let (q', r, v', c) = dispatch_loop_room w v has req rest room in (_, r)
  | inr full ↦ (_, dispatch_loop_full w v has req rest full)
]

dispatcher_step-Returns :
    (w : World) {q : Queue} (d : Dispatcher)
    → w.queue ≡ some q
    → IsValid q
    → Returns (dispatcher_step w d)
unfolding dispatcher_step
dispatcher_step-Returns w (reading (req ∷ rest)) has v =
    dispatch_loop-Returns (record w { total_rides = w.total_rides + 1 }) req rest has v
dispatcher_step-Returns w (reading []) has v = (_, refl)
dispatcher_step-Returns w (full_ready req rest) has v = dispatch_loop-Returns w req rest has v
dispatcher_step-Returns w done_ready has v = (_, refl)
dispatcher_step-Returns w (full_wait req rest) has v = (_, refl)
dispatcher_step-Returns w done_wait has v = (_, refl)
dispatcher_step-Returns w finished has v = (_, refl)

driver_enter-Returns :
    (w : World) {q : Queue} → w.queue ≡ some q → IsValid q → Returns (driver_enter w)
driver_enter-Returns w {q} has v = elim (Bool-cases w.exit_drivers) [
  | inl leave ↦ (_, driver_enter_exits w v has leave)
  | inr stay ↦ elim (zero_cases (count q)) [
    | inl z ↦ (_, driver_enter_waits w v has z stay)
    | inr (m, c) ↦ let (req, q', r, v', split) = driver_enter_takes w v has m c stay in (_, r)
  ]
]

driver_complete-Returns : (w : World) {q : Queue} → w.queue ≡ some q → Returns (driver_complete w)
unfolding driver_complete
driver_complete-Returns w has =
    elim (Bool-cases (w.dispatch_done && (w.rides_done + 1 == w.total_rides))) [
      | inl t ↦ (
        (record w { rides_done = w.rides_done + 1; queue = none }, exited, one_done),
        rw (t, has),
      )
      | inr t ↦ ((record w { rides_done = w.rides_done + 1 }, ready, nobody), rw t)
    ]

driver_step-Returns :
    (w : World) {q : Queue} (d : Driver) → w.queue ≡ some q → IsValid q → Returns (driver_step w d)
unfolding driver_step
driver_step-Returns w ready has v = driver_enter-Returns w has v
driver_step-Returns w (driving req) has v = driver_complete-Returns w has
driver_step-Returns w waiting has v = (_, refl)
driver_step-Returns w exited has v = (_, refl)

-- In every state of a run in which the queue is not freed, the next section of the dispatcher and
-- of every driver returns: no assertion of queue.c fails, and no freed memory is read.
pub sections_return :
    (q : Queue) (input : List ℕ) (drivers : ℕ) {s t : System}
    → length q.array ≡ 16
    → start (some q) input drivers ≡ some s
    → Reach s t
    → {now : Queue} → t.world.queue ≡ some now
    → Returns (dispatcher_step t.world t.dispatcher)
      × ((i : ℕ) (d : Driver) → get_elem? t.drivers i ≡ some d → Returns (driver_step t.world d))
sections_return q input drivers {t} slots starts run has =
    let v : IsValid _ = rw has at ((run-Inv q input drivers slots starts run).queue_ok) in
    (
      dispatcher_step-Returns t.world t.dispatcher has v,
      λ i d found. driver_step-Returns t.world d has v,
    )
