-- ===== src/Execution/ResultHandler/Laws.antt =====
-- The text that a failed task carries.
use text.Mathlib.TextLemmas.{append-eq-nil_iff}
use architecture_playground.Base.{
  ℕ, String, ◌<>◌, ◌==◌, ◌≡◌, ◌≢◌, some, arith, if◌then◌else◌, eq_iff,
}
use architecture_playground.Errors.{Err, task_error, plain, type_name}
use architecture_playground.Task.{Task}
use architecture_playground.World.{World}
use architecture_playground.World.Laws.{Returns, returns, Local}
use architecture_playground.Context.{ExecutionContext}
use architecture_playground.Execution.StateManager.Stored.{Holds}
use architecture_playground.Execution.ResultHandler.{handle_failure}

-- The fallback for an error that no handler described.
abbrev pub failure_text : Err → String
failure_text (task_error e) = "task " <> (type_name e.type <> (": " <> e.message))
failure_text (plain s) = "execution failed: " <> s

-- The result of a failed task: the handler's own, where it has left one.
abbrev pub final_result : String → Err → String
final_result r e = if r == "" then failure_text e else r

module _ {R : Type 0} (x : ExecutionContext) (p : ℕ) (t : Task) (w : World R) (e : Err)
    (task : x.task ≡ some p) (error : x.error ≡ some e) (h : Holds p t w) where
  -- `HandleFailure` keeps a result that is there, and otherwise writes the fallback text.
  pub handle_failure_lem :
      Returns
        (handle_failure x w)
        (λ _ w'. Local p p w w' × Holds p (record t { result = final_result t.result e }) w')
  unfolding handle_failure
  handle_failure_lem = returns _ _ (ground arith)

failure_text-ne-nil : (e : Err) → failure_text e ≢ ""
failure_text-ne-nil (task_error e) h = ground (arith, append-eq-nil_iff.0 h, eq_iff "task " "")
failure_text-ne-nil (plain s) h =
    ground (arith, append-eq-nil_iff.0 h, eq_iff "execution failed: " "")

pub final_result-ne-nil : (r : String) (e : Err) → final_result r e ≢ ""
final_result-ne-nil r e = ground (arith, eq_iff r "", failure_text-ne-nil e)
