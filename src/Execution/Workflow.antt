-- ===== src/Execution/Workflow.antt =====
-- execution/workflow.go, over any runner, state manager and result handler.
pub mod Sync
pub mod Async
pub mod Abandoned
use architecture_playground.Base.{String, Bool, Option, none, some, ℕ, if◌then◌else◌}
use architecture_playground.Errors.{Err, error_text, nil, field, text}
use architecture_playground.Task.{status_text}
use architecture_playground.World.{M, Env, pure, ◌>>=◌, ◌>>◌, on_error, deref, assign}
use architecture_playground.Logger.{log_task, log_error}
use architecture_playground.Context.{ExecutionContext, Ctx, new_execution_context, set_error}
use architecture_playground.Store.{TaskStore}
use architecture_playground.Runners.{Runner, is_async_runner, run}
use architecture_playground.Execution.StateManager.{
  transition_to_queued, transition_to_running, transition_to_failed, transition_to_completed,
}
use architecture_playground.Execution.ResultHandler.{handle_success, handle_failure}

-- The interface `StateManager`.
pub record StateManager (R : Type 0) : Type 0 where
  pub to_running : ExecutionContext → M R (Option Err)
  pub to_queued : ExecutionContext → M R (Option Err)
  pub to_failed : ExecutionContext → M R (Option Err)
  pub to_completed : ExecutionContext → M R (Option Err)

-- The interface `ResultHandler`.
pub record ResultHandler (R : Type 0) : Type 0 where
  pub success : ExecutionContext → M R ExecutionContext
  pub failure : ExecutionContext → M R (Unit {0})

-- The fields of `DefaultExecutionWorkflow`; the logger is in `Env`.
pub record DefaultExecutionWorkflow (R : Type 0) : Type 0 where
  pub runner : Runner R
  pub state_manager : StateManager R
  pub result_handler : ResultHandler R

abbrev pub new_default_execution_workflow :
    {R : Type 0} → Runner R → StateManager R → ResultHandler R → DefaultExecutionWorkflow R
new_default_execution_workflow runner state_manager result_handler = record {
  runner = runner;
  state_manager = state_manager;
  result_handler = result_handler;
}

abbrev pub default_state_manager : {R : Type 0} → Env → TaskStore R → StateManager R
default_state_manager env store = record {
  to_running = transition_to_running env store;
  to_queued = transition_to_queued env store;
  to_failed = transition_to_failed env store;
  to_completed = transition_to_completed env store;
}

abbrev pub default_result_handler : {R : Type 0} → Env → ResultHandler R
default_result_handler env = record { success = handle_success env; failure = handle_failure }

module _ {R : Type 0} (env : Env) (sm : StateManager R) (rh : ResultHandler R) where
  -- The state manager's own failure is only logged.
  log_lost_transition : String → ExecutionContext → Err → Option Err → M R (Unit {0})
  unfolding deref log_error
  log_lost_transition message x original lost =
      on_error lost
        (λ te. do
          task ← deref x.task
          log_error env message (
              field "task_id" (text task.id) (
                field "transition_error" (text (error_text te))
                  (field "original_error" (text (error_text original)) nil))))
        (pure tt)

  -- The error branch of the transition to queued.
  unfoldable pub abandon_queueing : ExecutionContext → Err → M R (Option Err)
  unfolding deref log_task set_error log_lost_transition
  abandon_queueing x e = do
    task ← deref x.task
    log_task env task.id "failed to transition to queued" (field "error" (text (error_text e)) nil)
    x ← set_error env x e
    rh.failure x
    lost ← sm.to_failed x
    log_lost_transition "failed to transition task to failed state" x e lost
    pure (some e)

  -- The error branch of the enqueueing. The transition to failed is called twice.
  unfoldable pub abandon_enqueueing : ExecutionContext → Err → M R (Option Err)
  unfolding deref assign log_task set_error log_lost_transition
  abandon_enqueueing x e = do
    task ← deref x.task
    log_task env task.id "failed to enqueue task" (field "error" (text (error_text e)) nil)
    x ← set_error env x e
    assign x.task (record task { result = error_text e })
    rh.failure x
    _ ← sm.to_failed x
    lost ← sm.to_failed x
    log_lost_transition "failed to transition task to failed state after enqueue failure" x e lost
    pure (some e)

  unfoldable pub execute_async : Runner R → Ctx → ExecutionContext → M R (Option Err)
  unfolding deref log_task run abandon_queueing abandon_enqueueing
  execute_async runner ctx x = do
    refused ← sm.to_queued x
    on_error refused (λ e. abandon_queueing x e)
        do
          failed ← run runner ctx x
          on_error failed (λ e. abandon_enqueueing x e)
              do task ← deref x.task; log_task env task.id "task successfully queued" nil; pure none

  -- The error branch of the run.
  unfoldable pub fail_sync : ExecutionContext → Err → M R (Option Err)
  unfolding deref log_task set_error log_lost_transition
  fail_sync x e = do
    task ← deref x.task
    log_task env task.id "execution failed" (field "error" (text (error_text e)) nil)
    x ← set_error env x e
    rh.failure x
    lost ← sm.to_failed x
    log_lost_transition "failed to transition task to failed state" x e lost
    pure (some e)

  -- What follows a run without error.
  unfoldable pub complete_sync : ExecutionContext → M R (Option Err)
  unfolding deref log_task log_error
  complete_sync x = do
    x ← rh.success x
    lost ← sm.to_completed x
    task ← deref x.task
    on_error lost
        (λ e.
          log_error env "failed to transition task to completed state after successful execution"
            (field "task_id" (text task.id) (field "error" (text (error_text e)) nil)))
        (pure tt)
    log_task env task.id "task completed" (field "status" (text (status_text task.status)) nil)
    pure none

  unfoldable pub execute_sync : Runner R → Ctx → ExecutionContext → M R (Option Err)
  unfolding run fail_sync complete_sync
  execute_sync runner ctx x = do
    refused ← sm.to_running x
    on_error refused (λ e. pure (some e))
        do failed ← run runner ctx x; on_error failed (λ e. fail_sync x e) (complete_sync x)

  unfoldable pub execute : Runner R → Ctx → Option ℕ → M R (Option Err)
  unfolding new_execution_context execute_async execute_sync
  execute runner ctx task = do
    x ← new_execution_context env task
    if is_async_runner runner then execute_async runner ctx x else (execute_sync runner ctx x)
