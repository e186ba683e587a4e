-- ===== src/Workers/Pool.antt =====
-- tasks/workers/pool.go, and `Stop` of tasks/workers/worker.go: the goroutines of a pool and any
-- number of callers of `Stop`, interleaved with calls of `Start` and of `SetShutdownTimeout`. A
-- goroutine is in the list while it has not returned, so that the wait group is at zero exactly if
-- the list is empty. A goroutine is at its `select`, blocked in `Dequeue`, or processing a task.
pub mod Laws
pub mod Stopping
use architecture_playground.Base.{
  ℕ, zero, suc, ◌+◌, Bool, true, false, not, ◌||◌, List, [], ◌∷◌, ◌++◌, Option, none, some, eqb,
  ltb, if◌then◌else◌, String,
}
use architecture_playground.Base.Int.{ℤ, pos}
use architecture_playground.Errors.{Fields, nil, field, text, size, duration, flag}
use architecture_playground.Logger.{info, warn}

-- Where a goroutine is in its loop.
pub data Spot : Type 0 where
  selecting : Spot
  dequeuing : Spot
  processing : Spot

-- A running `w.Start(workerCtx)`: the worker's place in the pool, and the number of the context.
pub record Goroutine : Type 0 where
  pub worker : ℕ
  pub context : ℕ
  pub spot : Spot

-- How far a caller of `Stop` is, with the cancel function that it read: outside it; before the call
-- of that function; after closing the channels of so many workers; waiting for the goroutines or for
-- the timeout.
pub data Phase : Type 0 where
  idle : Phase
  cancelling : Option ℕ → Phase
  closing : Option ℕ → ℕ → Phase
  waiting : Option ℕ → Phase

-- An entry that the pool hands to its logger.
pub record Notice : Type 0 where
  pub level : ℕ
  pub message : String
  pub fields : Fields

-- The callers of `Stop` have numbers. The cancel function is known by the number of its context.
pub record WorkerPool : Type 0 where
  pub worker_count : ℕ
  pub cancel_fn : Option ℕ
  pub contexts : ℕ  -- made so far
  pub cancelled : ℕ → Bool
  pub stop_closed : ℕ → Bool  -- of a worker's `stopCh`
  pub running : List Goroutine
  pub phase : ℕ → Phase
  pub shutdown_timeout : ℤ  -- in nanoseconds
  pub notices : List Notice  -- newest first

-- 30 seconds
abbrev pub default_timeout : ℤ
default_timeout = pos 30000000000

-- `NewWorkerPool`
abbrev pub new_worker_pool : ℕ → WorkerPool
new_worker_pool n = record {
  worker_count = n;
  cancel_fn = none;
  contexts = 0;
  cancelled = λ c. false;
  stop_closed = λ i. false;
  running = [];
  phase = λ c. idle;
  shutdown_timeout = default_timeout;
  notices = [];
}

-- `GetWorkerCount`
abbrev pub get_worker_count : WorkerPool → ℕ
get_worker_count p = p.worker_count

-- `SetShutdownTimeout`, which holds the lock.
abbrev pub set_shutdown_timeout : ℤ → WorkerPool → WorkerPool
set_shutdown_timeout t p = record p { shutdown_timeout = t }

abbrev pub starting_notice : WorkerPool → Notice
starting_notice p = record {
  level = info;
  message = "starting worker pool";
  fields = field "worker_count" (size p.worker_count) nil;
}

abbrev pub started_notice : WorkerPool → Notice
started_notice p = record {
  level = info;
  message = "worker pool started succesfully";
  fields = field "active_workers" (size p.worker_count) nil;
}

abbrev pub stopping_notice : WorkerPool → Notice
stopping_notice p = record {
  level = info;
  message = "stopping worker pool";
  fields =
      field "worker_count" (size p.worker_count)
        (field "timeout" (duration p.shutdown_timeout) nil);
}

abbrev pub graceful_notice : Notice
graceful_notice = record {
  level = info;
  message = "worker pool stopped gracefully";
  fields = field "shutdown_time" (text "within_timeout") nil;
}

abbrev pub forced_notice : WorkerPool → Notice
forced_notice p = record {
  level = warn;
  message = "worker pool shutdown timed out";
  fields = field "timeout" (duration p.shutdown_timeout) (field "forced_shutdown" (flag true) nil);
}

-- One goroutine for each of the first workers.
abbrev pub spawn : ℕ → ℕ → List Goroutine
spawn c zero = []
spawn c (suc n) = record { worker = n; context = c; spot = selecting } ∷ spawn c n

-- `Start`, which holds the lock; the cancel function of an earlier start is overwritten.
abbrev pub start : WorkerPool → WorkerPool
start p = record p {
  cancel_fn = some p.contexts;
  contexts = p.contexts + 1;
  running = spawn p.contexts p.worker_count ++ p.running;
  notices = started_notice p ∷ starting_notice p ∷ p.notices;
}

abbrev pub mark : ℕ → (ℕ → Bool) → ℕ → Bool
mark i f j = if eqb i j then true else f j

-- `if cancelFn != nil { cancelFn() }`
abbrev pub cancel : Option ℕ → (ℕ → Bool) → ℕ → Bool
cancel none f = f
cancel (some c) f = mark c f

-- What the loop of a worker looks at before it takes a task.
abbrev pub signalled : WorkerPool → Goroutine → Bool
signalled p g = p.cancelled g.context || p.stop_closed g.worker

-- One caller moves on.
abbrev pub set_phase : ℕ → Phase → (ℕ → Phase) → ℕ → Phase
set_phase c f phases d = if eqb c d then f else phases d

-- The next step of a call of `Stop`; `Worker.Stop` closes a channel at most once.
abbrev pub stop_step : Phase → ℕ → WorkerPool → Option WorkerPool
stop_step idle c p = some (record p {
  phase = set_phase c (cancelling p.cancel_fn) p.phase;
  notices = stopping_notice p ∷ p.notices;
})
stop_step (cancelling f) c p =
    some (record p { cancelled = cancel f p.cancelled; phase = set_phase c (closing f 0) p.phase })
stop_step (closing f i) c p =
    if ltb i p.worker_count
    then some (record p {
      stop_closed = mark i p.stop_closed;
      phase = set_phase c (closing f (suc i)) p.phase;
    })
    else (some (record p { phase = set_phase c (waiting f) p.phase }))
stop_step (waiting f) c p = none

-- The end of the wait, which clears the cancel function: if all goroutines have returned, or after
-- the timeout.
abbrev pub end_stop : Notice → ℕ → WorkerPool → WorkerPool
end_stop notice c p = record p {
  cancel_fn = none;
  phase = set_phase c idle p.phase;
  notices = notice ∷ p.notices;
}

abbrev pub all_returned : List Goroutine → Bool
all_returned [] = true
all_returned (g ∷ gs) = false

abbrev pub ends : Phase → Bool → Notice → ℕ → WorkerPool → Option WorkerPool
ends (waiting f) ready notice c p = if ready then some (end_stop notice c p) else none
ends _ ready notice c p = none

abbrev pub goroutine : List Goroutine → ℕ → Option Goroutine
goroutine [] k = none
goroutine (g ∷ gs) zero = some g
goroutine (g ∷ gs) (suc k) = goroutine gs k

abbrev pub without : List Goroutine → ℕ → List Goroutine
without [] k = []
without (g ∷ gs) zero = gs
without (g ∷ gs) (suc k) = g ∷ without gs k

abbrev pub put : List Goroutine → ℕ → Spot → List Goroutine
put [] k spot = []
put (g ∷ gs) zero spot = record g { spot = spot } ∷ gs
put (g ∷ gs) (suc k) spot = g ∷ put gs k spot

-- The actions of a goroutine, at a place of the list: its `select` finds a signal and it returns; or
-- it finds none, and it goes on to `Dequeue`, which blocks; `Dequeue` gives it a task, or an error
-- of the queue, or ends because its context is cancelled; and it ends with its task.
pub data Action : Type 0 where
  starts : Action
  sets_timeout : ℤ → Action
  stops wait_ends times_out : ℕ → Action
  parent_cancels : ℕ → Action
  returns works takes_task dequeue_fails wakes finishes : ℕ → Action

abbrev pub on_goroutine : Option Goroutine → (Goroutine → Option WorkerPool) → Option WorkerPool
on_goroutine none f = none
on_goroutine (some g) f = f g

-- What is left after the step, if the goroutine is where it can make it.
abbrev pub at_select : Spot → Bool → WorkerPool → Option WorkerPool
at_select selecting ready q = if ready then some q else none
at_select _ ready q = none

abbrev pub at_dequeue : Spot → Bool → WorkerPool → Option WorkerPool
at_dequeue dequeuing ready q = if ready then some q else none
at_dequeue _ ready q = none

abbrev pub at_task : Spot → WorkerPool → Option WorkerPool
at_task processing q = some q
at_task _ q = none

abbrev pub moved_to : WorkerPool → ℕ → Spot → WorkerPool
moved_to p k spot = record p { running = put p.running k spot }

unfoldable pub act : Action → WorkerPool → Option WorkerPool
act starts p = some (start p)
act (sets_timeout t) p = some (set_shutdown_timeout t p)
act (stops c) p = stop_step (p.phase c) c p
act (wait_ends c) p = ends (p.phase c) (all_returned p.running) graceful_notice c p
act (times_out c) p = ends (p.phase c) true (forced_notice p) c p
act (parent_cancels c) p = some (record p { cancelled = mark c p.cancelled })
act (returns k) p =
    on_goroutine (goroutine p.running k)
      (λ g. at_select g.spot (signalled p g) (record p { running = without p.running k }))
act (works k) p =
    on_goroutine (goroutine p.running k)
      (λ g. at_select g.spot (not (signalled p g)) (moved_to p k dequeuing))
act (takes_task k) p =
    on_goroutine (goroutine p.running k) (λ g. at_dequeue g.spot true (moved_to p k processing))
act (dequeue_fails k) p =
    on_goroutine (goroutine p.running k) (λ g. at_dequeue g.spot true (moved_to p k selecting))
act (wakes k) p =
    on_goroutine (goroutine p.running k)
      (λ g. at_dequeue g.spot (p.cancelled g.context) (moved_to p k selecting))
act (finishes k) p =
    on_goroutine (goroutine p.running k) (λ g. at_task g.spot (moved_to p k selecting))

abbrev pub chain : Option WorkerPool → (WorkerPool → Option WorkerPool) → Option WorkerPool
chain none f = none
chain (some p) f = f p

-- An interleaving.
unfoldable pub interleave : List Action → WorkerPool → Option WorkerPool
unfolding act
interleave [] p = some p
interleave (a ∷ rest) p = chain (act a p) (interleave rest)
