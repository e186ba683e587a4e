-- ===== src/Tests/Executing.antt =====
-- Whole executions: synchronous, asynchronous, and by a worker.
use architecture_playground.Base.{◌≡◌, refl, [], ◌∷◌, none, some, arith, lookup}
use architecture_playground.Task.{Task, queued, can_transition_to}
use architecture_playground.World.{World, ok, write_at}
use architecture_playground.World.Laws.{Returns, Frame, Local}
use architecture_playground.Context.{ExecutionContext}
use architecture_playground.Store.{memory_store}
use architecture_playground.Store.View.{view}
use architecture_playground.Queue.{Client, Codec, RedisTaskQueue, redis_queue}
use architecture_playground.Queue.Laws.{redis_queue-IsCalm}
use architecture_playground.Runners.{synchronous, asynchronous}
use architecture_playground.Runners.Laws.{IsStructured}
use architecture_playground.Execution.StateManager.Stored.{Holds}
use architecture_playground.Execution.StateManager.Copied.{Mirrors}
use architecture_playground.Execution.Workflow.{
  default_state_manager, default_result_handler, execute_sync, execute_async,
}
use architecture_playground.Execution.Workflow.Sync.{SettledAt, execute_sync_lem}
use architecture_playground.Execution.Workflow.Async.{Handed, execute_async_lem}
use architecture_playground.Orchestrator.{submit_task}
use architecture_playground.Orchestrator.Laws.{Submitted, submit_task_sync}
use architecture_playground.Orchestrator.Queued.{Accepted, submit_task_async}
use architecture_playground.Workers.{process_task}
use architecture_playground.Workers.Laws.{made_worker, Processed, process_task_lem}
use architecture_playground.Tests.Setup.{
  Server, env, ctx, old, busy, busy-IsWellFormed, registry, registry-AllTame,
}

abbrev execution : ExecutionContext
execution = record { task = some 0; error = none; start_time = 9; end_time = none }

busy-Holds : Holds 0 old busy
unfolding lookup
busy-Holds = record { at = refl; stored = refl }

execute_sync_lem_example :
    Returns
      (execute_sync env
        (default_state_manager env memory_store)
        (default_result_handler env)
        (synchronous registry)
        ctx
        execution
        busy)
      (λ e w'. IsStructured e × Local 0 0 busy w' × SettledAt 0 old e w')
unfolding can_transition_to
execute_sync_lem_example =
    execute_sync_lem env registry ctx execution 0 old busy refl busy-Holds refl registry-AllTame

submit_task_sync_example :
    Returns
      (submit_task env memory_store (synchronous registry) ctx "sleep" (1 ∷ []) busy)
      (λ r w'. Submitted "id-1" "sleep" (1 ∷ []) busy r.1 r.0 w')
unfolding view lookup
submit_task_sync_example =
    submit_task_sync env registry ctx "sleep" (1 ∷ []) busy busy-IsWellFormed refl registry-AllTame

-- A server that takes every call, and a queue on it.
abbrev client : Client Server
client = record {
  ping = λ s. (s, none);
  lpush = λ c name bytes s. (s, none);
  brpop = λ c name s. (s, ok ([] ∷ [] ∷ []));
  llen = λ c name s. (s, ok 0);
  del = λ c name s. (s, none);
  shut = λ s. (s, none);
}

abbrev codec : Codec
codec = record {
  marshal = λ m. ok [];
  unmarshal = λ b. ok (record {
    task = some (record old { status = queued });
    error = none;
    start_time = 9;
    end_time = none;
  });
}

abbrev redis : RedisTaskQueue Server
redis = record { client = client; queue_name = "tasks" }

execute_async_lem_example :
    Returns
      (execute_async env
        (default_state_manager env memory_store)
        (default_result_handler env)
        (asynchronous (redis_queue codec redis) registry)
        ctx
        execution
        busy)
      (λ e w'.
        IsStructured e
        × Frame 0 0 busy w'
        × ((t' : Task) × Holds 0 t' w' × Handed env old e t' busy))
unfolding can_transition_to
execute_async_lem_example =
    execute_async_lem env (redis_queue codec redis) registry ctx execution 0 old busy refl
      busy-Holds refl (redis_queue-IsCalm codec redis)

submit_task_async_example :
    Returns
      (submit_task env memory_store
        (asynchronous (redis_queue codec redis) registry)
        ctx
        "sleep"
        (1 ∷ [])
        busy)
      (λ r w'. Accepted "id-1" "sleep" (1 ∷ []) busy r.1 r.0 w')
unfolding view lookup
submit_task_async_example =
    submit_task_async env (redis_queue codec redis) registry ctx "sleep" (1 ∷ []) busy
      busy-IsWellFormed refl (redis_queue-IsCalm codec redis)

-- The store's task is queued, and the worker has decoded a copy at address 1.
abbrev waiting : Task
waiting = record old { status = queued }

abbrev taken : World Server
taken = record busy { heap = write_at (write_at busy.heap 0 waiting) 1 waiting; next = 2 }

taken-Mirrors : Mirrors 1 0 waiting waiting taken
unfolding lookup
taken-Mirrors = record { at = refl; stored = refl; original = refl; apart = omega arith }

process_task_lem_example :
    Returns
      (process_task env
        (made_worker env 1 (redis_queue codec redis) registry)
        ctx
        (record execution { task = some 1 })
        taken)
      (λ _ w'.
        Local 1 0 taken w'
        × ((u' : Task) × (w'.heap 0 ≡ some u') × Processed "print" registry waiting u'))
unfolding can_transition_to
process_task_lem_example =
    process_task_lem env 1 (redis_queue codec redis) registry ctx
      (record execution { task = some 1 }) 1 0 waiting waiting taken refl taken-Mirrors refl
      registry-AllTame
