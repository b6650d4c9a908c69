-- ===== src/Dispatch/World/Tests.antt =====
-- One request and one driver, from the start to the dispatcher's return, and the theorems there.
use cs61_psets.Common.{
  ℕ, suc, zero, ◌≡◌, refl, true, false, some, [], ◌∷◌, get_elem?, replicate, length,
}
use cs61_psets.Dispatch.Queue.{Queue, queue_init, size, push_back, pop_front, empty}
use cs61_psets.Dispatch.World.{
  reading, finished, Driver, ready, waiting, driving, exited, nobody, one_full, one_empty,
  all_empty, start, dispatcher_step, driver_step, System, Reach, here, next, dispatcher_section,
  driver_section, no_waiter,
}
use cs61_psets.Dispatch.World.Conserve.{weight, on_ride}
use cs61_psets.Dispatch.World.Invariant.{one}
use cs61_psets.Dispatch.World.Rides.{served_all, exits_last, initial}
use cs61_psets.Dispatch.World.Progress.{Returns, sections_return}

abbrev slots : Queue
slots = record { head = 0; tail = 0; array = replicate 16 0 }

abbrev at_start : System
at_start = initial slots (7 ∷ []) 1

-- after the dispatcher has put request 7 into the queue
abbrev dispatched : System
dispatched = record {
  world = record {
    queue = some (record { head = 0; tail = 1; array = 7 ∷ replicate 15 0 });
    total_rides = 1;
    rides_done = 0;
    dispatch_done = false;
    exit_drivers = false;
  };
  dispatcher = reading [];
  drivers = ready ∷ [];
  served = [];
}

abbrev taken : System
taken = record {
  world = record {
    queue = some (record { head = 1; tail = 1; array = 7 ∷ replicate 15 0 });
    total_rides = 1;
    rides_done = 0;
    dispatch_done = false;
    exit_drivers = false;
  };
  dispatcher = reading [];
  drivers = driving 7 ∷ [];
  served = [];
}

abbrev ridden : System
ridden = record taken {
  world = record {
    queue = some (record { head = 1; tail = 1; array = 7 ∷ replicate 15 0 });
    total_rides = 1;
    rides_done = 1;
    dispatch_done = false;
    exit_drivers = false;
  };
  drivers = ready ∷ [];
  served = 7 ∷ [];
}

abbrev closed : System
closed = record ridden {
  world = record {
    queue = some (record { head = 1; tail = 1; array = 7 ∷ replicate 15 0 });
    total_rides = 1;
    rides_done = 1;
    dispatch_done = true;
    exit_drivers = true;
  };
  dispatcher = finished;
}

abbrev returned : System
returned = record closed { drivers = exited ∷ [] }

starts : start (some slots) (7 ∷ []) 1 ≡ some at_start
unfolding start queue_init
starts = refl

nobody_waits : (i : ℕ) → get_elem? (ready ∷ []) i ≡ some waiting → ⊥
nobody_waits zero e = cc
nobody_waits (suc i) e = cc

run_taken : Reach at_start taken
unfolding queue_init size push_back pop_front empty dispatcher_step driver_step
run_taken =
    next
      (next here (
        dispatcher_section (reading []) one_empty refl refl (refl, no_waiter nobody_waits refl)
          refl))
      (driver_section 0 ready (driving 7) one_full refl refl refl (refl, refl) refl)

run_closed : Reach at_start closed
unfolding queue_init size push_back pop_front empty dispatcher_step driver_step
run_closed =
    next
      (next run_taken (driver_section 0 (driving 7) ready nobody refl refl refl (refl, refl) refl))
      (dispatcher_section finished all_empty refl refl (refl, refl) refl)

run_returned : Reach at_start returned
unfolding size empty driver_step
run_returned =
    next run_closed (driver_section 0 ready exited nobody refl refl refl (refl, refl) refl)

served_all_example :
    ((f : ℕ → ℕ) → weight f (7 ∷ []) ≡ weight f (7 ∷ []))
    × (closed.world.total_rides ≡ length {A = ℕ} (7 ∷ []))
    × (closed.world.rides_done ≡ length {A = ℕ} (7 ∷ []))
    × (on_ride one closed.drivers ≡ 0)
served_all_example = served_all slots (7 ∷ []) 1 refl starts run_closed refl

exits_last_example :
    ((f : ℕ → ℕ) → weight f (7 ∷ []) ≡ weight f (7 ∷ []))
    × (returned.world.rides_done ≡ length {A = ℕ} (7 ∷ []))
exits_last_example = exits_last slots (7 ∷ []) 1 refl starts run_returned 0 refl

sections_return_example :
    Returns (dispatcher_step taken.world taken.dispatcher)
    × ((i : ℕ) (d : Driver)
        → get_elem? taken.drivers i ≡ some d
        → Returns (driver_step taken.world d))
sections_return_example = sections_return slots (7 ∷ []) 1 refl starts run_taken refl
