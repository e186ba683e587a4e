-- ===== src/Tests/Overlapping.antt =====
-- A submission, and a worker that holds its task.
use architecture_playground.Base.{ℕ, String, ◌≡◌, refl, List, [], ◌∷◌, ◌++◌, Option, none, some}
use architecture_playground.World.{World, ok}
use architecture_playground.World.Laws.{Returns}
use architecture_playground.Context.{ExecutionContext}
use architecture_playground.Store.{memory_store}
use architecture_playground.Runners.{asynchronous}
use architecture_playground.Orchestrator.{submit_task}
use architecture_playground.Workers.{process_task}
use architecture_playground.Workers.Laws.{made_worker}
use architecture_playground.Workers.Overlap.{Flight, here, later, submits, takes, Stays}
use architecture_playground.Workers.Overlap.Safety.{Reach-IsOverlapped}
use architecture_playground.Tests.Setup.{ctx}
use architecture_playground.Tests.Serving.{tick, strokes, strokes_injective}
use architecture_playground.Tests.Redis.{Values, printed}
use architecture_playground.Tests.Tracking.{queue, Waits, registry, fifo, tame, no_task, first}

-- The state that a run ends in.
abbrev end_of : {A : Type 0} → Option (A × World Values) → World Values
end_of none = first
end_of (some (a, w)) = w

-- The first submission.
abbrev waiting : World Values
unfolding submit_task
waiting =
    end_of (submit_task tick memory_store (asynchronous queue registry) ctx "print" (1 ∷ []) first)

submitted_first :
    submit_task tick memory_store (asynchronous queue registry) ctx "print" (1 ∷ []) first
    ≡ some ((0, none), waiting)
unfolding submit_task strokes architecture_playground.Store.save architecture_playground.Base.lookup
    architecture_playground.Execution.StateManager.transition_to_queued
    architecture_playground.Store.update architecture_playground.Base.insert
    architecture_playground.Registry.register architecture_playground.Queue.redis_enqueue
submitted_first = refl

-- Worker 1 takes it.
abbrev flying : World Values
unfolding architecture_playground.Queue.redis_dequeue
flying = end_of (queue.dequeue ctx waiting)

abbrev decoded : ExecutionContext
decoded = record { task = some 1; error = none; start_time = 0; end_time = none }

abbrev flight : Flight
flight = record { worker = 1; ctx = ctx; context = decoded; at = 1; copy = printed 0 }

taken_first : queue.dequeue ctx waiting ≡ some (ok decoded, flying)
unfolding submit_task strokes architecture_playground.Store.save architecture_playground.Base.lookup
    architecture_playground.Execution.StateManager.transition_to_queued
    architecture_playground.Store.update architecture_playground.Base.insert
    architecture_playground.Registry.register architecture_playground.Queue.redis_enqueue
    architecture_playground.Queue.redis_dequeue
taken_first = refl

flying_object : flying.heap 1 ≡ some (printed 0)
unfolding submit_task strokes architecture_playground.Store.save architecture_playground.Base.lookup
    architecture_playground.Execution.StateManager.transition_to_queued
    architecture_playground.Store.update architecture_playground.Base.insert
    architecture_playground.Registry.register architecture_playground.Queue.redis_enqueue
    architecture_playground.Queue.redis_dequeue
flying_object = refl

Reach-IsOverlapped_example :
    Stays tick Waits first (flight ∷ []) flying
    × ((before : List Flight) (f : Flight) (after : List Flight)
        → flight ∷ [] ≡ before ++ f ∷ after
        → Returns
            (process_task tick (made_worker tick f.worker queue registry) f.ctx f.context flying)
            (λ _ w'. Stays tick Waits first (before ++ after) w'))
Reach-IsOverlapped_example =
    Reach-IsOverlapped tick queue registry Waits strokes_injective fifo tame [] no_task (
      later (later here (submits ctx "print" (1 ∷ []) (0, none) submitted_first))
        (takes 1 ctx decoded 1 (printed 0) taken_first refl flying_object))
