-- ===== src/Dispatch/World/Invariant.antt =====
-- What holds in every state that the threads can reach.
use cs61_psets.Common.{
  ℕ, zero, suc, ◌+◌, ◌<◌, ◌≡◌, refl, ◌⊎◌, inl, inr, Bool, true, false, none, some, List, [], ◌∷◌,
  arith, get_elem?, set, length, length-append, ap, sym, ◌∙◌,
}
use cs61_psets.Dispatch.World.{
  Dispatcher, reading, full_wait, full_ready, done_wait, done_ready, finished, Driver, ready,
  waiting, driving, exited, Signal, nobody, one_full, one_empty, one_done, all_empty, System,
  wake_full, wake_done, wake_all, ended, woke, no_waiter, Delivered, Step, dispatcher_section,
  driver_section, spurious_driver, spurious_dispatcher, Reach, here, next,
}
use cs61_psets.Dispatch.World.Conserve.{
  QueueOk, queued, coming, weight, on_ride, load, weight-append, on_ride-set, Delivered-weight,
  Moved, MovedBy, dispatcher_step-Moved, driver_step-MovedBy,
}
use mathlib.Core.Path.{subst}
use cs61_psets.Dispatch.World.Section.{
  unread, closing, Over, Booked, BookedBy, dispatcher_step-Booked, driver_step-BookedBy,
}

abbrev pub one : ℕ → ℕ
one _ = 1

pub weight-one : (xs : List ℕ) → weight one xs ≡ length xs
weight-one [] = refl
weight-one (x ∷ xs) = omega (arith, weight-one xs)

nil_of_weight : (xs : List ℕ) → weight one xs ≡ 0 → xs ≡ []
nil_of_weight [] h = refl
nil_of_weight (x ∷ xs) h = absurd (omega arith)

abbrev pub has_exited : List Driver → Bool
has_exited [] = false
has_exited (exited ∷ ds) = true
has_exited (_ ∷ ds) = has_exited ds

-- `n` requests are on the input.
pub record Inv (n : ℕ) (s : System) : Type 0 where
  pub queue_ok : QueueOk s.world.queue
  pub conserved : load one s ≡ n
  pub counted : s.world.total_rides + unread s.dispatcher ≡ n
  pub ridden : s.world.rides_done ≡ length s.served
  pub phase : s.world.dispatch_done ≡ closing s.dispatcher
  pub leaving : s.world.exit_drivers ≡ true → Over s.world
  pub freed : s.world.queue ≡ none → Over s.world
  pub gone : has_exited s.drivers ≡ true → Over s.world
  pub left : s.dispatcher ≡ finished → s.world.exit_drivers ≡ true

on_ride-pos :
    (ds : List Driver) (i req : ℕ) → get_elem? ds i ≡ some (driving req) → 0 < on_ride one ds
on_ride-pos ds i req e = omega (arith, on_ride-set one ds i (driving req) ready e)

pub closing-coming : (d : Dispatcher) → closing d ≡ true → (coming d ≡ []) × (unread d ≡ 0)
closing-coming (reading rest) h = cc
closing-coming (full_wait req rest) h = cc
closing-coming (full_ready req rest) h = cc
closing-coming done_wait h = (refl, refl)
closing-coming done_ready h = (refl, refl)
closing-coming finished h = (refl, refl)

-- when the last ride ends after the input has, nothing is queued
last_ride :
    {n : ℕ} {s : System}
    → Inv n s
    → 0 < on_ride one s.drivers
    → s.world.dispatch_done ≡ true
    → s.world.rides_done + 1 ≡ s.world.total_rides
    → queued s.world.queue ≡ []
last_ride {n} {s} v riding done last = nil_of_weight (queued s.world.queue) (
    let c = closing-coming s.dispatcher (sym v.phase ∙ done) in
    omega (arith, v.conserved, v.counted, c.1, ap (weight one) c.0, weight-one s.served))

coming-wake : (d : Dispatcher) → coming (wake_done (wake_full d)) ≡ coming d
coming-wake (full_wait req rest) = refl
coming-wake done_wait = refl
coming-wake (reading rest) = refl
coming-wake (full_ready req rest) = refl
coming-wake done_ready = refl
coming-wake finished = refl

module _ (f : ℕ → ℕ) {n : ℕ} {s t : System} (v : Inv n s) where
  -- A section of a thread neither loses nor duplicates a request.
  pub load-Step : Step s t → load f t ≡ load f s
  load-Step (dispatcher_section d signal runs e del same) =
      let m : Moved f s.dispatcher s.world.queue (t.world, d, signal) =
        rw e at (dispatcher_step-Moved f s.world s.dispatcher v.queue_ok runs) in
      omega (
        arith,
        m.1,
        Delivered-weight f signal d s.drivers t.dispatcher t.drivers del,
        ap (weight f) same,
      )
  load-Step (driver_section i old new signal found runs e del same) =
      let m : MovedBy f s.world.queue (t.world, new, signal) = rw e at (
        driver_step-MovedBy f s.world old v.queue_ok runs
          (λ req is. last_ride v (on_ride-pos s.drivers i req (rw is at found)))) in
      omega (
        arith,
        m.1,
        Delivered-weight f signal s.dispatcher (set s.drivers i new) t.dispatcher t.drivers del,
        on_ride-set f s.drivers i old new found,
        ap (weight f) same,
        weight-append f s.served (ended old),
      )
  load-Step (spurious_driver i found e) =
      ap (load f) e ∙ omega (arith, on_ride-set f s.drivers i waiting ready found)
  load-Step (spurious_dispatcher e) = ap (load f) e ∙ rw (coming-wake s.dispatcher)

has_exited-set_ready :
    (ds : List Driver) (i : ℕ)
    → get_elem? ds i ≡ some waiting
    → has_exited (set ds i ready) ≡ has_exited ds
has_exited-set_ready [] i e = refl
has_exited-set_ready (waiting ∷ ds) zero e = refl
has_exited-set_ready (ready ∷ ds) zero e = refl
has_exited-set_ready (driving req ∷ ds) zero e = refl
has_exited-set_ready (exited ∷ ds) zero e = cc
has_exited-set_ready (waiting ∷ ds) (suc i) e = has_exited-set_ready ds i e
has_exited-set_ready (ready ∷ ds) (suc i) e = has_exited-set_ready ds i e
has_exited-set_ready (driving req ∷ ds) (suc i) e = has_exited-set_ready ds i e
has_exited-set_ready (exited ∷ ds) (suc i) e = refl

has_exited-set :
    (ds : List Driver) (i : ℕ) (new : Driver)
    → has_exited (set ds i new) ≡ true
    → (has_exited ds ≡ true) ⊎ (new ≡ exited)
has_exited-set [] i new h = inl h
has_exited-set (d ∷ ds) zero ready h = inl (ground arith)
has_exited-set (d ∷ ds) zero waiting h = inl (ground arith)
has_exited-set (d ∷ ds) zero (driving req) h = inl (ground arith)
has_exited-set (d ∷ ds) zero exited h = inr refl
has_exited-set (waiting ∷ ds) (suc i) new h = has_exited-set ds i new h
has_exited-set (ready ∷ ds) (suc i) new h = has_exited-set ds i new h
has_exited-set (driving req ∷ ds) (suc i) new h = has_exited-set ds i new h
has_exited-set (exited ∷ ds) (suc i) new h = inl refl

has_exited-wake_all : (ds : List Driver) → has_exited (wake_all ds) ≡ has_exited ds
has_exited-wake_all [] = refl
has_exited-wake_all (waiting ∷ ds) = has_exited-wake_all ds
has_exited-wake_all (ready ∷ ds) = has_exited-wake_all ds
has_exited-wake_all (driving req ∷ ds) = has_exited-wake_all ds
has_exited-wake_all (exited ∷ ds) = refl

wake-kept :
    (d : Dispatcher)
    → (unread (wake_full d) ≡ unread d)
      × (closing (wake_full d) ≡ closing d)
      × (unread (wake_done d) ≡ unread d)
      × (closing (wake_done d) ≡ closing d)
wake-kept (full_wait req rest) = (refl, refl, refl, refl)
wake-kept done_wait = (refl, refl, refl, refl)
wake-kept (reading rest) = (refl, refl, refl, refl)
wake-kept (full_ready req rest) = (refl, refl, refl, refl)
wake-kept done_ready = (refl, refl, refl, refl)
wake-kept finished = (refl, refl, refl, refl)

Delivered-kept :
    (signal : Signal) (d : Dispatcher) (ds : List Driver) (d' : Dispatcher) (ds' : List Driver)
    → Delivered signal d ds d' ds'
    → (unread d' ≡ unread d) × (closing d' ≡ closing d) × (has_exited ds' ≡ has_exited ds)
Delivered-kept nobody d ds d' ds' h = ground arith
Delivered-kept one_full d ds d' ds' h = ground (arith, wake-kept d)
Delivered-kept one_empty d ds d' ds' (e, woke i w e') = ground (arith, has_exited-set_ready ds i w)
Delivered-kept one_empty d ds d' ds' (e, no_waiter n e') = ground arith
Delivered-kept one_done d ds d' ds' h = ground (arith, wake-kept d)
Delivered-kept all_empty d ds d' ds' h = ground (arith, has_exited-wake_all ds)

wake-finished : (d : Dispatcher) → wake_done (wake_full d) ≡ finished → d ≡ finished
wake-finished (full_wait req rest) h = cc
wake-finished done_wait h = cc
wake-finished (reading rest) h = cc
wake-finished (full_ready req rest) h = cc
wake-finished done_ready h = cc
wake-finished finished h = refl

Delivered-finished :
    (signal : Signal) (d : Dispatcher) (ds : List Driver) (d' : Dispatcher) (ds' : List Driver)
    → Delivered signal d ds d' ds'
    → d' ≡ finished
    → d ≡ finished
Delivered-finished nobody d ds d' ds' h e = cc (h.0)
Delivered-finished one_full d ds d' ds' h e = ground (arith, h.0)
Delivered-finished one_empty d ds d' ds' h e = cc (h.0)
Delivered-finished one_done d ds d' ds' h e = ground (arith, h.0)
Delivered-finished all_empty d ds d' ds' h e = cc (h.0)

-- Once every ride is over nothing is queued, and nobody is on a ride.
pub over_idle :
    {n : ℕ} {s : System}
    → Inv n s
    → Over s.world
    → (on_ride one s.drivers ≡ 0) × (queued s.world.queue ≡ [])
over_idle {n} {s} v over =
    let c = closing-coming s.dispatcher (sym v.phase ∙ over.0) in
    let facts : on_ride one s.drivers + weight one (queued s.world.queue) ≡ 0 = omega (
      arith,
      v.conserved,
      v.counted,
      v.ridden,
      over.1,
      c.1,
      ap (weight one) c.0,
      weight-one s.served,
    ) in
    (omega arith, nil_of_weight (queued s.world.queue) (omega arith))

-- Every step keeps the invariant.
pub Inv-Step : {n : ℕ} {s t : System} → Inv n s → Step s t → Inv n t
Inv-Step {n} {s} {t} v (dispatcher_section d signal runs e del same) =
    let m : Moved one s.dispatcher s.world.queue (t.world, d, signal) =
      rw e at (dispatcher_step-Moved one s.world s.dispatcher v.queue_ok runs) in
    let b : Booked s.world s.dispatcher (t.world, d, signal) =
      rw e at (dispatcher_step-Booked s.world s.dispatcher v.queue_ok runs v.phase) in
    let k = Delivered-kept signal d s.drivers t.dispatcher t.drivers del in
    record {
      queue_ok = m.0;
      conserved = load-Step one v (dispatcher_section d signal runs e del same) ∙ v.conserved;
      counted = omega (arith, b.0, k.0, v.counted);
      ridden = b.1 ∙ v.ridden ∙ sym (ap length same);
      phase = b.2 ∙ sym k.1;
      leaving = λ x. elim (b.4 x) [ inl y ↦ b.3 (v.leaving y) | inr y ↦ y ];
      freed = λ x. b.3 (v.freed (b.5 x));
      gone = λ x. b.3 (v.gone (sym k.2 ∙ x));
      left = λ x. b.6 (Delivered-finished signal d s.drivers t.dispatcher t.drivers del x);
    }
Inv-Step {n} {s} {t} v (driver_section i old new signal found runs e del same) =
    let m : MovedBy one s.world.queue (t.world, new, signal) = rw e at (
      driver_step-MovedBy one s.world old v.queue_ok runs
        (λ req is. last_ride v (on_ride-pos s.drivers i req (rw is at found)))) in
    let b : BookedBy s.world old (t.world, new, signal) =
      rw e at (driver_step-BookedBy s.world old v.queue_ok runs) in
    let k = Delivered-kept signal s.dispatcher (set s.drivers i new) t.dispatcher t.drivers del in
    let stays : Over s.world → Over t.world = λ o.
      let idle = over_idle v o in
      (
        b.2 ∙ o.0,
        omega (
          arith,
          b.0,
          b.1,
          o.1,
          idle.0,
          weight-one (ended old),
          on_ride-set one s.drivers i old ready found,
        ),
      ) in
    record {
      queue_ok = m.0;
      conserved =
          load-Step one v (driver_section i old new signal found runs e del same) ∙ v.conserved;
      counted = omega (arith, b.0, k.0, v.counted);
      ridden = omega (arith, b.1, v.ridden, ap length same, length-append s.served (ended old));
      phase = b.2 ∙ v.phase ∙ sym k.1;
      leaving = λ x. stays (v.leaving (sym b.3 ∙ x));
      freed = λ x. elim (b.4 x) [ inl y ↦ stays (v.freed y) | inr y ↦ y ];
      gone = λ x. elim (has_exited-set s.drivers i new (sym k.2 ∙ x)) [
        | inl y ↦ stays (v.gone y)
        | inr y ↦ elim (b.5 y) [ inl z ↦ stays (v.leaving z) | inr z ↦ z ]
      ];
      left = λ x.
          b.3
          ∙ v.left (
              Delivered-finished signal s.dispatcher (set s.drivers i new) t.dispatcher t.drivers
                del x);
    }
Inv-Step {n} {s} {t} v (spurious_driver i found e) = subst (Inv n) (sym e) (record {
  queue_ok = v.queue_ok;
  conserved = omega (arith, v.conserved, on_ride-set one s.drivers i waiting ready found);
  counted = v.counted;
  ridden = v.ridden;
  phase = v.phase;
  leaving = v.leaving;
  freed = v.freed;
  gone = λ x. v.gone (sym (has_exited-set_ready s.drivers i found) ∙ x);
  left = v.left;
})
Inv-Step {n} {s} {t} v (spurious_dispatcher e) =
    let k = wake-kept (wake_full s.dispatcher) in
    let l = wake-kept s.dispatcher in
    subst (Inv n) (sym e) (record {
      queue_ok = v.queue_ok;
      conserved = rw (coming-wake s.dispatcher) v.conserved;
      counted = omega (arith, v.counted, k.2, l.0);
      ridden = v.ridden;
      phase = v.phase ∙ sym l.1 ∙ sym k.3;
      leaving = v.leaving;
      freed = v.freed;
      gone = v.gone;
      left = λ x. v.left (wake-finished s.dispatcher x);
    })

pub Inv-Reach : {n : ℕ} {s t : System} → Inv n s → Reach s t → Inv n t
Inv-Reach v here = v
Inv-Reach v (next r st) = Inv-Step (Inv-Reach v r) st

pub load-Reach : (f : ℕ → ℕ) {n : ℕ} {s t : System} → Inv n s → Reach s t → load f t ≡ load f s
load-Reach f v here = refl
load-Reach f v (next r st) = load-Step f (Inv-Reach v r) st ∙ load-Reach f v r
