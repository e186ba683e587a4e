-- ===== src/Orchestrator.antt =====
-- tasks/orchestrator/orchestrator.go, over any store, with the default execution components.
pub mod Laws
pub mod Queued
pub mod Settled
pub mod Jobs
use architecture_playground.Base.{ℕ, String, ◌<>◌, List, Option, none, some, length}
use architecture_playground.Errors.{
  Err, task_error, error_text, nil, field, text, size, new_internal_error, new_not_found_error,
}
use architecture_playground.Task.{new_task, status_text}
use architecture_playground.World.{
  M, Env, Result, ok, err, pure, ◌>>=◌, ◌>>◌, on_error, on_result, deref, alloc, now, new_uuid,
}
use architecture_playground.Logger.{log_task}
use architecture_playground.Context.{Ctx}
use architecture_playground.Store.{TaskStore}
use architecture_playground.Runners.{Runner}
use architecture_playground.Execution.Workflow.{
  default_state_manager, default_result_handler, new_default_execution_workflow, execute,
}

module _ {R : Type 0} (env : Env) (store : TaskStore R) where
  -- `executeTask` of an orchestrator that `NewDefaultOrchestrator` made.
  unfoldable pub execute_task : Runner R → Ctx → ℕ → M R (Option Err)
  unfolding execute
  execute_task runner ctx task =
      let workflow =
        new_default_execution_workflow runner (default_state_manager env store)
          (default_result_handler env) in
      execute env workflow.state_manager workflow.result_handler workflow.runner ctx (some task)

  -- The task's address, and the error. In the first log call the ID and the message stand in the
  -- order of the source.
  unfoldable pub submit_task : Runner R → Ctx → String → List ℕ → M R (ℕ × Option Err)
  unfolding deref alloc now new_uuid log_task execute_task
  submit_task runner ctx type payload = do
    uuid ← new_uuid env
    t ← now env
    p ← alloc (new_task uuid t type payload)
    lost ← store.save p
    task ← deref (some p)
    on_error lost
        (λ e. do
          log_task env "failed to save task" task.id (field "error" (text (error_text e)) nil)
          pure (p, some (task_error (new_internal_error "failed to save task"))))
        (do
          log_task env task.id "task submitted" (
              field "task_type" (text task.type)
                (field "payload_size" (size (length task.payload)) nil))
          failed ← execute_task runner ctx p
          pure (p, failed))

module _ {R : Type 0} (store : TaskStore R) where
  unfoldable pub get_task : String → M R (Result ℕ)
  get_task task_id = do
    r ← store.get task_id
    on_result r
        (λ _. pure (err (task_error (new_not_found_error ("task " <> task_id <> " not found")))))
        (λ p. pure (ok p))

  unfoldable pub get_task_status : String → M R (Result String)
  unfolding get_task deref
  get_task_status task_id = do
    r ← get_task task_id
    on_result r (λ e. pure (err e))
        (λ p. do task ← deref (some p); pure (ok (status_text task.status)))
