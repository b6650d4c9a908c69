-- ===== src/Dispatch/World/Rides.antt =====
-- What a run of dispatch.c achieves: every request of the input gets one ride.
use cs61_psets.Common.{
  ℕ, zero, suc, ◌≡◌, refl, sym, ◌∙◌, ap, true, false, some, List, [], ◌∷◌, arith, get_elem?, length,
  replicate,
}
use mathlib.Core.Path.{subst}
use cs61_psets.Dispatch.Queue.{Queue, queue_init}
use cs61_psets.Dispatch.Queue.Order.{queue_init-IsValid}
use cs61_psets.Dispatch.World.{
  reading, finished, Driver, ready, waiting, driving, exited, start, System, Reach,
}
use cs61_psets.Dispatch.World.Conserve.{weight, on_ride, load}
use cs61_psets.Dispatch.World.Section.{Over}
use cs61_psets.Dispatch.World.Invariant.{
  Inv, one, has_exited, weight-one, Inv-Reach, load-Reach, over_idle, closing-coming,
}

on_ride-replicate : (f : ℕ → ℕ) (n : ℕ) → on_ride f (replicate n ready) ≡ 0
on_ride-replicate f zero = refl
on_ride-replicate f (suc n) = omega (arith, on_ride-replicate f n)

has_exited-replicate : (n : ℕ) → has_exited (replicate n ready) ≡ false
has_exited-replicate zero = refl
has_exited-replicate (suc n) = has_exited-replicate n

has_exited_of : (ds : List Driver) (i : ℕ) → get_elem? ds i ≡ some exited → has_exited ds ≡ true
has_exited_of [] i e = cc
has_exited_of (d ∷ ds) zero e = let d' : d ≡ exited = cc in rw d'
has_exited_of (exited ∷ ds) (suc i) e = refl
has_exited_of (ready ∷ ds) (suc i) e = has_exited_of ds i e
has_exited_of (waiting ∷ ds) (suc i) e = has_exited_of ds i e
has_exited_of (driving req ∷ ds) (suc i) e = has_exited_of ds i e

idle_on_ride : (f : ℕ → ℕ) (ds : List Driver) → on_ride one ds ≡ 0 → on_ride f ds ≡ 0
idle_on_ride f [] h = refl
idle_on_ride f (ready ∷ ds) h = omega (arith, idle_on_ride f ds)
idle_on_ride f (waiting ∷ ds) h = omega (arith, idle_on_ride f ds)
idle_on_ride f (exited ∷ ds) h = omega (arith, idle_on_ride f ds)
idle_on_ride f (driving req ∷ ds) h = absurd (omega arith)

module _ (q : Queue) (input : List ℕ) (drivers : ℕ) where
  abbrev pub initial : System
  initial = record {
    world = record {
      queue = some (queue_init q);
      total_rides = 0;
      rides_done = 0;
      dispatch_done = false;
      exit_drivers = false;
    };
    dispatcher = reading input;
    drivers = replicate drivers ready;
    served = [];
  }

  start-initial : start (some q) input drivers ≡ some initial
  unfolding start
  start-initial = refl

  load-initial : (f : ℕ → ℕ) → load f initial ≡ weight f input
  unfolding queue_init
  load-initial f = omega (arith, on_ride-replicate f drivers)

  initial-Inv : length q.array ≡ 16 → Inv (length input) initial
  initial-Inv slots =
      let fresh = queue_init-IsValid q slots in
      record {
        queue_ok = fresh.0;
        conserved = load-initial one ∙ weight-one input;
        counted = omega arith;
        ridden = refl;
        phase = refl;
        leaving = λ x. cc x;
        freed = λ x. cc x;
        gone = λ x. cc (has_exited-replicate drivers, x);
        left = λ x. cc x;
      }

module _ (q : Queue) (input : List ℕ) (drivers : ℕ) {s t : System} (slots : length q.array ≡ 16)
    (starts : start (some q) input drivers ≡ some s) (run : Reach s t) where
  from_initial : Reach (initial q input drivers) t
  from_initial =
      let e : s ≡ initial q input drivers = cc (starts, start-initial q input drivers) in
      subst (λ x. Reach x t) e run

  -- The invariant holds in every state of a run.
  pub run-Inv : Inv (length input) t
  run-Inv = Inv-Reach (initial-Inv q input drivers slots) from_initial

  pub load-run : (f : ℕ → ℕ) → load f t ≡ weight f input
  load-run f =
      load-Reach f (initial-Inv q input drivers slots) from_initial ∙ load-initial q input drivers f

  over_weight : Over t.world → (f : ℕ → ℕ) → weight f t.served ≡ weight f input
  over_weight over f =
      let idle = over_idle run-Inv over in
      let c = closing-coming t.dispatcher (sym run-Inv.phase ∙ over.0) in
      omega (
        arith,
        load-run f,
        ap (weight f) idle.1,
        ap (weight f) c.0,
        idle_on_ride f t.drivers idle.0,
      )

  over_total : Over t.world → t.world.total_rides ≡ length input
  over_total over =
      let c = closing-coming t.dispatcher (sym run-Inv.phase ∙ over.0) in
      omega (arith, run-Inv.counted, c.1)

  -- When the dispatcher has returned, each request of the input has had exactly as many rides as
  -- it stands on the input, the counters agree with the input's length, and no driver rides.
  pub served_all :
      t.dispatcher ≡ finished
      → ((f : ℕ → ℕ) → weight f t.served ≡ weight f input)
        × (t.world.total_rides ≡ length input)
        × (t.world.rides_done ≡ length input)
        × (on_ride one t.drivers ≡ 0)
  served_all end =
      let over = run-Inv.leaving (run-Inv.left end) in
      (over_weight over, over_total over, over.1 ∙ over_total over, (over_idle run-Inv over).0)

  -- No driver returns while a ride is still to come or under way.
  pub exits_last :
      (i : ℕ)
      → get_elem? t.drivers i ≡ some exited
      → ((f : ℕ → ℕ) → weight f t.served ≡ weight f input) × (t.world.rides_done ≡ length input)
  exits_last i found =
      let over = run-Inv.gone (has_exited_of t.drivers i found) in
      (over_weight over, over.1 ∙ over_total over)
