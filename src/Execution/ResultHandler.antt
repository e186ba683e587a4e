-- ===== src/Execution/ResultHandler.antt =====
-- execution/result_handler.go
pub mod Laws
use architecture_playground.Base.{String, ◌<>◌, ◌==◌, Option, none, some, if◌then◌else◌}
use architecture_playground.Errors.{Err, error_text, TaskError, type_name, is_task_error}
use architecture_playground.World.{M, Env, pure, panic, ◌>>=◌, ◌>>◌, on_some, deref, assign}
use architecture_playground.Context.{ExecutionContext, set_success}

module _ {R : Type 0} where
  unfoldable pub handle_success : Env → ExecutionContext → M R ExecutionContext
  unfolding set_success
  handle_success env x = set_success env x

  -- A nil error panics, where a text is needed.
  unfoldable pub handle_failure : ExecutionContext → M R (Unit {0})
  unfolding deref assign
  handle_failure x = do
    task ← deref x.task
    if task.result == ""
        then on_some x.error panic (λ e.
          on_some (is_task_error e)
            (assign x.task (record task { result = "execution failed: " <> error_text e }))
            (λ te.
              assign x.task
                (record task { result = "task " <> type_name te.type <> ": " <> te.message })))
        else (pure tt)
