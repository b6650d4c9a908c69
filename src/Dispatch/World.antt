-- ===== src/Dispatch/World.antt =====
-- pset5/dispatch/dispatch.c and dispatch.h: the dispatcher and the drivers around one mutex.
-- A thread holds the lock from `pthread_mutex_lock`, or its return from `pthread_cond_wait`, to
-- the next wait or unlock; such a section is one function here, and the sections of the threads
-- interleave freely. `none` is a failed assertion or an access to the freed queue.
pub mod Conserve
pub mod Invariant
pub mod Progress
pub mod Section
pub mod Rides
mod Tests
use cs61_psets.Common.{
  ℕ, ◌+◌, ◌≡◌, Bool, true, false, Option, none, some, List, [], ◌∷◌, ◌++◌, ◌==◌, ◌&&◌, not,
  if◌then◌else◌, ◌>>=◌, get_elem?, set, replicate,
}
use cs61_psets.Dispatch.Queue.{Queue, size, push_back, pop_front, empty, queue_init, max_queue_size}

-- Where the dispatcher stands between two sections, with the requests that it has not read.
pub data Dispatcher : Type 0 where
  reading : List ℕ → Dispatcher
  full_wait full_ready : ℕ → List ℕ → Dispatcher
  done_wait done_ready finished : Dispatcher

-- A driver is about to take the lock, waits on `cond_empty`, is on a ride, or has returned.
pub data Driver : Type 0 where
  ready waiting : Driver
  driving : ℕ → Driver
  exited : Driver

-- `world_t` without the lock and the condition variables; the queue is `none` once it is freed.
pub record World : Type 0 where
  pub queue : Option Queue
  pub total_rides : ℕ
  pub rides_done : ℕ
  pub dispatch_done : Bool
  pub exit_drivers : Bool

-- Which threads a section wakes: `pthread_cond_signal` and `pthread_cond_broadcast`.
pub data Signal : Type 0 where
  nobody one_full one_empty one_done all_empty : Signal

-- `init_world` when `malloc` returns a queue; it returns -1 when it does not.
unfoldable pub init_world : Option Queue → Option World
init_world fresh = do
  q ← fresh
  some (record {
    queue = some (queue_init q);
    total_rides = 0;
    rides_done = 0;
    dispatch_done = false;
    exit_drivers = false;
  })

-- The loop of `dispatch` and what follows it, with the lock held.
unfoldable pub dispatch_loop : World → ℕ → List ℕ → Option (World × Dispatcher × Signal)
dispatch_loop w req rest = do
  q ← w.queue
  n ← size q
  if n == max_queue_size
      then some (w, full_wait req rest, nobody)
      else do q' ← push_back q req; some (record w { queue = some q' }, reading rest, one_empty)

-- The end of `dispatcher_thread`, from its loop on `cond_done` on.
unfoldable pub finish_loop : World → World × Dispatcher × Signal
finish_loop w =
    if not (w.total_rides == w.rides_done)
    then (w, done_wait, nobody)
    else (record w { exit_drivers = true }, finished, all_empty)

-- One section of `dispatcher_thread` and of the `dispatch` that it calls.
unfoldable pub dispatcher_step : World → Dispatcher → Option (World × Dispatcher × Signal)
unfolding dispatch_loop finish_loop
dispatcher_step w (reading (req ∷ rest)) =
    dispatch_loop (record w { total_rides = w.total_rides + 1 }) req rest
dispatcher_step w (reading []) = some (finish_loop (record w { dispatch_done = true }))
dispatcher_step w (full_ready req rest) = dispatch_loop w req rest
dispatcher_step w done_ready = some (finish_loop w)
dispatcher_step w blocked = some (w, blocked, nobody)

-- A driver from the lock at the top of its loop, or from its wake-up, to the next unlock or wait.
unfoldable pub driver_enter : World → Option (World × Driver × Signal)
driver_enter w = do
  q ← w.queue
  if empty q && not w.exit_drivers
      then some (w, waiting, nobody)
      else if w.exit_drivers
      then some (w, exited, nobody)
      else do (req, q') ← pop_front q; some (record w { queue = some q' }, driving req, one_full)

-- A driver after its ride.
unfoldable pub driver_complete : World → Option (World × Driver × Signal)
driver_complete w =
    let done = w.rides_done + 1 in
    if w.dispatch_done && (done == w.total_rides)
    then (do q ← w.queue; some (record w { rides_done = done; queue = none }, exited, one_done))
    else some (record w { rides_done = done }, ready, nobody)

-- One section of `driver_thread`.
unfoldable pub driver_step : World → Driver → Option (World × Driver × Signal)
unfolding driver_enter driver_complete
driver_step w ready = driver_enter w
driver_step w (driving req) = driver_complete w
driver_step w blocked = some (w, blocked, nobody)

-- All threads, with the requests whose rides are over in the order of their ends.
pub record System : Type 0 where
  pub world : World
  pub dispatcher : Dispatcher
  pub drivers : List Driver
  pub served : List ℕ

-- `main` of dispatch_test.c with `NUM_DRIVERS` as `drivers`: the requests are on stdin, and each
-- thread is about to run.
unfoldable pub start : Option Queue → List ℕ → ℕ → Option System
unfolding init_world
start fresh requests drivers = do
  w ← init_world fresh
  some (record {
    world = w;
    dispatcher = reading requests;
    drivers = replicate drivers ready;
    served = [];
  })

abbrev pub dispatcher_runs : Dispatcher → Bool
dispatcher_runs (full_wait req rest) = false
dispatcher_runs done_wait = false
dispatcher_runs finished = false
dispatcher_runs _ = true

abbrev pub driver_runs : Driver → Bool
driver_runs waiting = false
driver_runs exited = false
driver_runs _ = true

abbrev pub wake_full : Dispatcher → Dispatcher
wake_full (full_wait req rest) = full_ready req rest
wake_full d = d

abbrev pub wake_done : Dispatcher → Dispatcher
wake_done done_wait = done_ready
wake_done d = d

abbrev pub wake_driver : Driver → Driver
wake_driver waiting = ready
wake_driver d = d

abbrev pub wake_all : List Driver → List Driver
wake_all [] = []
wake_all (d ∷ ds) = wake_driver d ∷ wake_all ds

-- What a driver's section adds to the rides that are over.
abbrev pub ended : Driver → List ℕ
ended (driving req) = req ∷ []
ended _ = []

-- A signal on `cond_empty` wakes a waiting driver, if there is one.
pub data Notified (ds ds' : List Driver) : Type 0 where
  woke : (i : ℕ) → get_elem? ds i ≡ some waiting → ds' ≡ set ds i ready → Notified ds ds'
  no_waiter : ((i : ℕ) → get_elem? ds i ≡ some waiting → ⊥) → ds' ≡ ds → Notified ds ds'

-- The dispatcher alone waits on `cond_full` and `cond_done`.
abbrev pub Delivered : Signal → Dispatcher → List Driver → Dispatcher → List Driver → Type 0
Delivered nobody d ds d' ds' = (d' ≡ d) × (ds' ≡ ds)
Delivered one_full d ds d' ds' = (d' ≡ wake_full d) × (ds' ≡ ds)
Delivered one_empty d ds d' ds' = (d' ≡ d) × Notified ds ds'
Delivered one_done d ds d' ds' = (d' ≡ wake_done d) × (ds' ≡ ds)
Delivered all_empty d ds d' ds' = (d' ≡ d) × (ds' ≡ wake_all ds)

-- One section of one thread, or a wake-up without a signal, which POSIX allows.
pub data Step (s t : System) : Type 0 where
  dispatcher_section :
      (d : Dispatcher) (signal : Signal)
      → dispatcher_runs s.dispatcher ≡ true
      → dispatcher_step s.world s.dispatcher ≡ some (t.world, d, signal)
      → Delivered signal d s.drivers t.dispatcher t.drivers
      → t.served ≡ s.served
      → Step s t
  driver_section :
      (i : ℕ) (old new : Driver) (signal : Signal)
      → get_elem? s.drivers i ≡ some old
      → driver_runs old ≡ true
      → driver_step s.world old ≡ some (t.world, new, signal)
      → Delivered signal s.dispatcher (set s.drivers i new) t.dispatcher t.drivers
      → t.served ≡ s.served ++ ended old
      → Step s t
  spurious_driver :
      (i : ℕ)
      → get_elem? s.drivers i ≡ some waiting
      → t ≡ record s { drivers = set s.drivers i ready }
      → Step s t
  spurious_dispatcher : t ≡ record s { dispatcher = wake_done (wake_full s.dispatcher) } → Step s t

pub data Reach (s : System) : System → Type 0 where
  here : Reach s s
  next : {t u : System} → Reach s t → Step t u → Reach s u
