-- ===== src/Execution/StateManager.antt =====
-- execution/state_manager.go, over any store.
pub mod Stored
pub mod Copied
use architecture_playground.Base.{String, Option, none, some}
use architecture_playground.Errors.{Err, error_text, Fields, nil, field, text, time}
use architecture_playground.Task.{
  Task, TaskStatus, queued, running, done, failed, status_text, set_status,
}
use architecture_playground.World.{
  M, Env, pure, panic, ◌>>=◌, ◌>>◌, on_error, on_some, deref, assign, now,
}
use architecture_playground.Logger.{log_task, log_error}
use architecture_playground.Context.{ExecutionContext}
use architecture_playground.Store.{TaskStore}

module _ {R : Type 0} where
  -- `execCtx.Task.SetStatus(s)`
  unfoldable pub set_task_status : ExecutionContext → TaskStatus → M R (Option Err)
  unfolding deref assign set_status
  set_task_status x s = do t ← deref x.task; let r = set_status t s; assign x.task r.0; pure r.1

-- `execCtx.Error.Error()`: a nil error panics.
abbrev original_error : {R : Type 0} → ExecutionContext → M R String
original_error x = on_some x.error panic (λ e. pure (error_text e))

module _ {R : Type 0} (env : Env) (store : TaskStore R) where
  unfoldable pub transition_to_queued : ExecutionContext → M R (Option Err)
  unfolding set_task_status deref assign now log_task
  transition_to_queued x = do
    refused ← set_task_status x queued
    on_error refused (λ e. pure (some e))
        do
          t ← now env
          task ← deref x.task
          assign x.task (record task { queued_at = some t })
          task ← deref x.task
          lost ← store.update task.id task.status ""
          task ← deref x.task
          on_error lost
              (λ e. do
                log_task env task.id "failed to update queued status"
                    (field "error" (text (error_text e)) nil)
                pure (some e))
              (do
                log_task env task.id "tasks queued for processing"
                    (field "queued_at" (time task.queued_at) nil)
                pure none)

  unfoldable pub transition_to_running : ExecutionContext → M R (Option Err)
  unfolding set_task_status deref assign now log_task
  transition_to_running x = do
    t ← now env
    task ← deref x.task
    assign x.task (record task { started_at = some t })
    refused ← set_task_status x running
    on_error refused (λ e. pure (some e))
        do
          task ← deref x.task
          lost ← store.update task.id task.status task.result
          on_error lost
              (λ e. do
                task ← deref x.task
                log_task env task.id "failed to update running status"
                    (field "error" (text (error_text e)) nil)
                pure none)
              (pure none)

  unfoldable pub transition_to_failed : ExecutionContext → M R (Option Err)
  unfolding set_task_status deref assign now log_task log_error
  transition_to_failed x = do
    t ← now env
    task ← deref x.task
    assign x.task (record task { completed_at = some t })
    refused ← set_task_status x failed
    on_error refused
        (λ e. do
          task ← deref x.task
          log_error env "failed to set task status to failed"
              (field "task_id" (text task.id) (field "error" (text (error_text e)) nil)))
        (pure tt)
    task ← deref x.task
    lost ← store.update task.id task.status task.result
    on_error lost
        (λ e. do
          task ← deref x.task
          original ← original_error x
          log_task env task.id "failed to update task failure state" (
              field "update_error" (text (error_text e))
                (field "original_error" (text original) nil))
          pure none)
        (pure none)

  unfoldable pub transition_to_completed : ExecutionContext → M R (Option Err)
  unfolding set_task_status deref assign now log_task
  transition_to_completed x = do
    t ← now env
    task ← deref x.task
    assign x.task (record task { completed_at = some t })
    refused ← set_task_status x done
    on_error refused (λ e. pure (some e))
        do
          task ← deref x.task
          lost ← store.update task.id task.status task.result
          on_error lost
              (λ e. do
                task ← deref x.task
                log_task env task.id "failed to update final task state" (
                    field "error" (text (error_text e))
                      (field "final_status" (text (status_text task.status)) nil))
                pure none)
              (pure none)
