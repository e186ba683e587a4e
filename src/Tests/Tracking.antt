-- ===== src/Tests/Tracking.antt =====
-- The asynchronous program over the test server: a submission, a worker's round and a query, and a
-- worker that empties the queue.
use architecture_playground.Base.{◌≤◌, ℕ, refl, List, [], ◌∷◌}
use architecture_playground.Task.{Task}
use architecture_playground.World.{World}
use architecture_playground.World.Laws.{Returns, Returns-map}
use architecture_playground.Store.{memory_store}
use architecture_playground.Store.View.{view}
use architecture_playground.Registry.{HandlerRegistry}
use architecture_playground.Registry.Laws.{AllTame}
use architecture_playground.Queue.{TaskQueue, redis_queue}
use architecture_playground.Queue.Fifo.{IsFifo, IsPrompt}
use architecture_playground.Queue.Fifo.Redis.{WaitsAt}
use architecture_playground.Queue.Fifo.Redis.Calls.{redis_queue-IsFifo, redis_queue-IsPrompt}
use architecture_playground.Runners.{asynchronous}
use architecture_playground.Orchestrator.{submit_task}
use architecture_playground.Main.{handlers}
use architecture_playground.Main.Laws.{new_world, handlers-AllTame}
use architecture_playground.Workers.{process_next_task}
use architecture_playground.Workers.Laws.{made_worker}
use architecture_playground.Workers.Tracked.{IsTracked}
use architecture_playground.Store.Advance.{Advances}
use architecture_playground.Workers.Steps.{submit_task-IsTracked}
use architecture_playground.Workers.Rounds.{process_next_task-IsTracked}
use architecture_playground.Workers.System.{here, later, submits, works, Reach-IsTracked}
use architecture_playground.Workers.Liveness.{Finishes, new_world-IsTracked, start-Reach}
use architecture_playground.Tests.Setup.{ctx}
use architecture_playground.Tests.Serving.{strokes_injective, tick, outside}
use architecture_playground.Tests.Redis.{
  Values, redis, codec, contents, client-IsRedis, client-IsResponsive, codec-IsLossless,
}

abbrev pub queue : TaskQueue Values
queue = redis_queue codec redis

abbrev pub Waits : Values → List Task → Type 0
Waits = WaitsAt codec contents "tasks"

abbrev pub registry : HandlerRegistry Values
registry = handlers tick outside

pub fifo : IsFifo queue Waits
fifo = redis_queue-IsFifo codec redis contents client-IsRedis codec-IsLossless

pub tame : AllTame registry
tame = handlers-AllTame tick outside

pub no_task : Waits [] []
no_task = record { oldest_first = []; stored = refl; encoded = tt }

prompt : IsPrompt queue Waits ctx
prompt =
    redis_queue-IsPrompt codec redis contents client-IsRedis codec-IsLossless ctx
      client-IsResponsive

abbrev pub first : World Values
first = new_world []

first-IsTracked : IsTracked tick Waits [] first
first-IsTracked = new_world-IsTracked tick Waits [] no_task

-- One submission, and the round of worker 1 that takes it.
submit_run :
    Returns
      (submit_task tick memory_store (asynchronous queue registry) ctx "print" (1 ∷ []) first)
      (λ r w'. (us : List Task) × IsTracked tick Waits us w' × Advances (view first) (view w'))
submit_run =
    Returns-map
      (submit_task-IsTracked tick Waits [] first first-IsTracked strokes_injective "print" (1 ∷ [])
        queue registry ctx fifo.send)
      (λ r w' h. (h.0, h.1, h.2))

abbrev second : World Values
second = submit_run.world

round_run :
    Returns
      (process_next_task tick (made_worker tick 1 queue registry) ctx second)
      (λ _ w'. (us : List Task) × IsTracked tick Waits us w')
round_run =
    Returns-map
      (process_next_task-IsTracked tick 1 queue registry ctx Waits submit_run.holds.0 second
        submit_run.holds.1 tame fifo)
      (λ _ w' h. (h.0, h.1))

abbrev third : World Values
third = round_run.world

Reach-IsTracked_example :
    (ts : List Task) × IsTracked tick Waits ts third × Advances (view first) (view third)
Reach-IsTracked_example =
    Reach-IsTracked tick queue registry Waits strokes_injective fifo tame first
      ([], first-IsTracked)
      (later (later here (submits ctx "print" (1 ∷ []) submit_run.value submit_run.run))
        (works 1 ctx round_run.run))

start-Reach_example : (n : ℕ) × ((m : ℕ) → n ≤ m → Finishes tick queue registry 2 ctx second m)
start-Reach_example =
    start-Reach tick queue registry Waits strokes_injective fifo tame [] no_task second
      (later here (submits ctx "print" (1 ∷ []) submit_run.value submit_run.run)) 2 ctx prompt
