-- ===== src/Runners.antt =====
-- tasks/runners: the synchronous runner, the asynchronous runner, and any other.
pub mod Laws
pub mod Delivery
use architecture_playground.Base.{String, ◌<>◌, Bool, true, false, Option, none, some}
use architecture_playground.Errors.{
  Err, task_error, error_text, Fields, nil, field, text, new_execution_error, new_not_found_error,
  is_task_error,
}
use architecture_playground.Task.{Task}
use architecture_playground.World.{M, pure, ◌>>=◌, ◌>>◌, on_error, on_some, deref}
use architecture_playground.Context.{ExecutionContext, Ctx}
use architecture_playground.Registry.{HandlerRegistry, get_handler}
use architecture_playground.Queue.{TaskQueue}

-- The interface `Runner`, by its dynamic type: the workflow asks whether it is asynchronous.
pub data Runner (R : Type 0) : Type 0 where
  synchronous : HandlerRegistry R → Runner R
  asynchronous : TaskQueue R → HandlerRegistry R → Runner R
  another : (Ctx → ExecutionContext → M R (Option Err)) → Runner R

-- `isAsyncRunner` of the workflow.
abbrev pub is_async_runner : {R : Type 0} → Runner R → Bool
is_async_runner (synchronous r) = false
is_async_runner (asynchronous q r) = true
is_async_runner (another f) = false

abbrev pub execution_details : Task → Err → Fields
execution_details task e =
    field "task_id" (text task.id)
      (field "task_type" (text task.type) (field "error" (text (error_text e)) nil))

module _ {R : Type 0} where
  -- A structured error is kept, any other is wrapped as an execution error.
  abbrev wrap_error : String → ExecutionContext → Err → M R (Option Err)
  wrap_error message x e =
      on_some (is_task_error e)
        (do
          task ← deref x.task
          pure (some (task_error (new_execution_error message (execution_details task e)))))
        (λ _. pure (some e))

  unfoldable pub run_sync : HandlerRegistry R → Ctx → ExecutionContext → M R (Option Err)
  unfolding deref get_handler
  run_sync registry ctx x = do
    task ← deref x.task
    on_some (get_handler task.type registry)
        (pure (
          some (
            task_error
              (new_not_found_error ("no handler registered for task type: " <> task.type)))))
        (λ handler. do
          failed ← handler ctx x.task
          on_error failed (λ e. wrap_error "task execution failed" x e) (pure none))

  unfoldable pub run_async :
      TaskQueue R → HandlerRegistry R → Ctx → ExecutionContext → M R (Option Err)
  unfolding deref get_handler
  run_async queue registry ctx x = do
    task ← deref x.task
    on_some (get_handler task.type registry)
        (pure (
          some (
            task_error
              (new_not_found_error ("no handler registered for task type: " <> task.type)))))
        (λ _. do
          failed ← queue.enqueue ctx x
          on_error failed (λ e. wrap_error "failed to enqueue task" x e) (pure none))

  unfoldable pub run : Runner R → Ctx → ExecutionContext → M R (Option Err)
  unfolding run_sync run_async
  run (synchronous registry) ctx x = run_sync registry ctx x
  run (asynchronous queue registry) ctx x = run_async queue registry ctx x
  run (another f) ctx x = f ctx x
