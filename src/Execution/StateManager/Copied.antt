-- ===== src/Execution/StateManager/Copied.antt =====
-- The transitions of a task that a worker decoded: the store holds another object under its ID,
-- and only the status and the result are carried over to that.
use architecture_playground.Base.{ℕ, ◌≡◌, ◌≢◌, none, some, lookup, arith, eqb_iff}
use architecture_playground.Task.{Task, running, done, failed, can_transition_to, set_status}
use architecture_playground.World.{World, Env}
use architecture_playground.World.Laws.{Returns, returns, Local}
use architecture_playground.Context.{ExecutionContext}
use architecture_playground.Store.{memory_store, update}
use architecture_playground.Execution.StateManager.{
  transition_to_running, transition_to_failed, transition_to_completed,
}

-- The task at p is the copy t; the store holds u, at q, under the same ID.
pub record Mirrors {R : Type 0} (p q : ℕ) (t u : Task) (w : World R) : Type 0 where
  pub at : w.heap p ≡ some t
  pub stored : lookup t.id w.tasks ≡ some q
  pub original : w.heap q ≡ some u
  pub apart : p ≢ q

module _ {R : Type 0} (env : Env) (x : ExecutionContext) (p q : ℕ) (t u : Task) (w : World R)
    (task : x.task ≡ some p) (h : Mirrors p q t u w) where
  pub running_copied :
      can_transition_to t.status running ≡ none
      → Returns (transition_to_running env memory_store x w) (λ e w'.
        (e ≡ none)
        × Local p q w w'
        × Mirrors p q
            (record t { status = running; started_at = some (env.time_at w.reads) })
            (record u { status = running; result = t.result })
            w')
  unfolding transition_to_running update set_status
  running_copied allowed = returns _ _ (ground (arith, eqb_iff p q))

  pub failed_copied :
      can_transition_to t.status failed ≡ none
      → Returns (transition_to_failed env memory_store x w) (λ e w'.
        (e ≡ none)
        × Local p q w w'
        × Mirrors p q
            (record t { status = failed; completed_at = some (env.time_at w.reads) })
            (record u { status = failed; result = t.result })
            w')
  unfolding transition_to_failed update set_status
  failed_copied allowed = returns _ _ (ground (arith, eqb_iff p q))

  pub completed_copied :
      can_transition_to t.status done ≡ none
      → Returns (transition_to_completed env memory_store x w) (λ e w'.
        (e ≡ none)
        × Local p q w w'
        × Mirrors p q
            (record t { status = done; completed_at = some (env.time_at w.reads) })
            (record u { status = done; result = t.result })
            w')
  unfolding transition_to_completed update set_status
  completed_copied allowed = returns _ _ (ground (arith, eqb_iff p q))

  -- A refused start changes the copy's start time and nothing in the store.
  pub running_copied_refused :
      can_transition_to t.status running ≢ none
      → Returns (transition_to_running env memory_store x w) (λ e w'.
        (e ≢ none)
        × Local p q w w'
        × Mirrors p q (record t { started_at = some (env.time_at w.reads) }) u w')
  unfolding transition_to_running update set_status
  running_copied_refused refused = returns _ _ (ground (arith, eqb_iff p q))
