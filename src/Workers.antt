-- ===== src/Workers.antt =====
-- tasks/workers/worker.go: the background worker. Its state manager is a parameter.
pub mod Laws
pub mod Pool
pub mod Tracked
pub mod Steps
pub mod Finishing
pub mod Rounds
pub mod System
pub mod Draining
pub mod Liveness
pub mod Overlap
use architecture_playground.Base.{
  ℕ, String, ◌<>◌, Bool, true, false, List, [], ◌∷◌, Option, none, some,
}
use architecture_playground.Errors.{Err, plain, error_text, nil, field, text, size}
use architecture_playground.World.{
  M, Env, pure, ◌>>=◌, ◌>>◌, on_error, on_result, on_some, deref, assign,
}
use architecture_playground.Logger.{log_task, log_info, log_error}
use architecture_playground.Context.{ExecutionContext, Ctx, set_error}
use architecture_playground.Registry.{HandlerRegistry, get_handler}
use architecture_playground.Queue.{TaskQueue}
use architecture_playground.Execution.Workflow.{StateManager}

-- `stopCh` and `stopOnce` are in the state of the pool (Workers/Pool).
pub record Worker (R : Type 0) : Type 0 where
  pub id : ℕ
  pub queue : TaskQueue R
  pub state_manager : StateManager R
  pub registry : HandlerRegistry R

-- What the `select` of a round of the loop finds ready; `ready_none` is its default case. Where
-- both channels are ready Go chooses one.
pub data Ready : Type 0 where
  context_done stop_closed ready_none : Ready

module _ {R : Type 0} (env : Env) (w : Worker R) where
  unfoldable pub execute_task : Ctx → Option ℕ → M R (Option Err)
  unfolding deref get_handler
  execute_task ctx p = do
    task ← deref p
    on_some (get_handler task.type w.registry)
        (pure (some (plain ("no handler registered for task type: " <> task.type))))
        (λ handler. handler ctx p)

  unfoldable pub handle_task_success : ExecutionContext → M R (Unit {0})
  unfolding deref log_task log_error
  handle_task_success x = do
    lost ← w.state_manager.to_completed x
    task ← deref x.task
    on_error lost
        (λ e. log_error env "failed to update task status to completed" (
          field "task_id" (text task.id)
            (field "worker_id" (size w.id) (field "error" (text (error_text e)) nil))))
        (pure tt)
    log_task env task.id "task completed successfully"
        (field "worker_id" (size w.id) (field "result" (text task.result) nil))

  unfoldable pub handle_task_failure : ExecutionContext → Err → M R (Unit {0})
  unfolding deref assign log_task log_error set_error
  handle_task_failure x e = do
    task ← deref x.task
    log_task env task.id "task execution failed"
        (field "worker_id" (size w.id) (field "error" (text (error_text e)) nil))
    x ← set_error env x e
    assign x.task (record task { result = error_text e })
    lost ← w.state_manager.to_failed x
    on_error lost
        (λ te. do
          task ← deref x.task
          log_error env "failed to update task status to failed" (
              field "task_id" (text task.id)
                (field "worker_id" (size w.id) (field "error" (text (error_text te)) nil))))
        (pure tt)

  -- What follows a successful dequeue.
  unfoldable pub process_task : Ctx → ExecutionContext → M R (Unit {0})
  unfolding deref log_task log_error execute_task handle_task_success handle_task_failure
  process_task ctx x = do
    task ← deref x.task
    log_task env task.id "worker processing task"
        (field "worker_id" (size w.id) (field "task_type" (text task.type) nil))
    refused ← w.state_manager.to_running x
    on_error refused
        (λ e. do
          task ← deref x.task
          log_error env "failed to update task status to running" (
              field "task_id" (text task.id)
                (field "worker_id" (size w.id) (field "error" (text (error_text e)) nil))))
        (do
          failed ← execute_task ctx x.task
          on_error failed (λ e. handle_task_failure x e) (handle_task_success x))

  -- `ctx` as it is when the wait for a task ends.
  unfoldable pub process_next_task : Ctx → M R (Unit {0})
  unfolding process_task log_error
  process_next_task ctx = do
    next ← w.queue.dequeue ctx
    on_result next
        (λ e.
          on_some ctx.cancelled
            (log_error env "failed to dequeue task"
              (field "worker_id" (size w.id) (field "error" (text (error_text e)) nil)))
            (λ _. pure tt))
        (λ x. process_task ctx x)

  -- The `for` loop, round by round: whether it has returned when the rounds are over.
  unfoldable loop : Ctx → List Ready → M R Bool
  loop ctx [] = pure false
  loop ctx (context_done ∷ rounds) = do
    log_info env "worker stopping due to context cancellation" (field "worker_id" (size w.id) nil)
    log_info env "worker stopped" (field "worker_id" (size w.id) nil)
    pure true
  loop ctx (stop_closed ∷ rounds) = do
    log_info env "worker stopping" (field "worker_id" (size w.id) nil)
    log_info env "worker stopped" (field "worker_id" (size w.id) nil)
    pure true
  loop ctx (ready_none ∷ rounds) = do process_next_task ctx; loop ctx rounds

  unfoldable pub start : Ctx → List Ready → M R Bool
  unfolding loop log_info
  start ctx rounds = do
    log_info env "worker starting" (field "worker_id" (size w.id) nil)
    loop ctx rounds
