-- ===== src/Execution/StateManager/Stored.antt =====
-- The transitions of a task that the memory store holds by the same pointer.
use architecture_playground.Base.{
  ℕ, String, ◌≡◌, ◌≢◌, refl, Option, none, some, lookup, arith, eqb_iff, eq_iff, ◌==◌,
  if◌then◌else◌, Option-cases, inl, inr,
}
use architecture_playground.Task.{
  Task, queued, running, done, failed, can_transition_to, set_status,
}
use architecture_playground.World.{World, Env}
use architecture_playground.World.Laws.{Returns, returns, Quiet, Frame, Local}
use architecture_playground.Context.{ExecutionContext}
use architecture_playground.Registry.Laws.{ResultOnly}
use architecture_playground.Store.{memory_store, update}
use architecture_playground.Store.View.{view, IsWellFormed}
use architecture_playground.Execution.StateManager.{
  transition_to_queued, transition_to_running, transition_to_failed, transition_to_completed,
}

-- The task at p is t, and the store holds it by this pointer.
pub record Holds {R : Type 0} (p : ℕ) (t : Task) (w : World R) : Type 0 where
  pub at : w.heap p ≡ some t
  pub stored : lookup t.id w.tasks ≡ some p

pub Holds-Quiet :
    {R : Type 0} {p : ℕ} {t : Task} {w w' : World R} → Holds p t w → Quiet w w' → Holds p t w'
Holds-Quiet h f = ground arith

-- A run that wrote only the task's result leaves it held.
pub Holds-Local :
    {R : Type 0} {p : ℕ} {t : Task} {w w' : World R}
    → Holds p t w
    → Local p p w w'
    → ResultOnly t (w'.heap p)
    → (r : String) × Holds p (record t { result = r }) w'
Holds-Local {p} {t} {w} {w'} h f k = go (w'.heap p) refl k
  where
    go :
        (o : Option Task)
        → w'.heap p ≡ o
        → ResultOnly t o
        → (r : String) × Holds p (record t { result = r }) w'
    go none e k = absurd k
    go (some t') e k = (t'.result, record { at = ground arith; stored = ground arith })

module _ {R : Type 0} (env : Env) (x : ExecutionContext) (p : ℕ) (t : Task) (w : World R)
    (task : x.task ≡ some p) (h : Holds p t w) where
  pub running_stored :
      can_transition_to t.status running ≡ none
      → Returns (transition_to_running env memory_store x w) (λ e w'.
        (e ≡ none)
        × Local p p w w'
        × Holds p (record t { status = running; started_at = some (env.time_at w.reads) }) w')
  unfolding transition_to_running update set_status
  running_stored allowed = returns _ _ (ground arith)

  pub running_refused :
      can_transition_to t.status running ≢ none
      → Returns (transition_to_running env memory_store x w) (λ e w'.
        (e ≢ none)
        × Local p p w w'
        × Holds p (record t { started_at = some (env.time_at w.reads) }) w')
  unfolding transition_to_running update set_status
  running_refused refused = returns _ _ (ground arith)

  pub queued_stored :
      can_transition_to t.status queued ≡ none
      → Returns (transition_to_queued env memory_store x w) (λ e w'.
        (e ≡ none)
        × Local p p w w'
        × Holds p
            (record t { status = queued; queued_at = some (env.time_at w.reads); result = "" })
            w')
  unfolding transition_to_queued update set_status
  queued_stored allowed = returns _ _ (ground arith)

  pub queued_refused :
      can_transition_to t.status queued ≢ none
      → Returns
          (transition_to_queued env memory_store x w)
          (λ e w'. (e ≢ none) × Local p p w w' × Holds p t w')
  unfolding transition_to_queued update set_status
  queued_refused refused = returns _ _ (ground arith)

  pub failed_stored :
      can_transition_to t.status failed ≡ none
      → Returns (transition_to_failed env memory_store x w) (λ e w'.
        (e ≡ none)
        × Local p p w w'
        × Holds p (record t { status = failed; completed_at = some (env.time_at w.reads) }) w')
  unfolding transition_to_failed update set_status
  failed_stored allowed = returns _ _ (ground arith)

  pub failed_refused :
      can_transition_to t.status failed ≢ none
      → Returns (transition_to_failed env memory_store x w) (λ e w'.
        (e ≡ none)
        × Local p p w w'
        × Holds p (record t { completed_at = some (env.time_at w.reads) }) w')
  unfolding transition_to_failed update set_status
  failed_refused refused = returns _ _ (ground arith)

  pub completed_stored :
      can_transition_to t.status done ≡ none
      → Returns (transition_to_completed env memory_store x w) (λ e w'.
        (e ≡ none)
        × Local p p w w'
        × Holds p (record t { status = done; completed_at = some (env.time_at w.reads) }) w')
  unfolding transition_to_completed update set_status
  completed_stored allowed = returns _ _ (ground arith)

  pub completed_refused :
      can_transition_to t.status done ≢ none
      → Returns (transition_to_completed env memory_store x w) (λ e w'.
        (e ≢ none)
        × Local p p w w'
        × Holds p (record t { completed_at = some (env.time_at w.reads) }) w')
  unfolding transition_to_completed update set_status
  completed_refused refused = returns _ _ (ground arith)

module _ {R : Type 0} (p : ℕ) (t t' : Task) (w w' : World R) (v : IsWellFormed w) (h : Holds p t w)
    (f : Frame p p w w') (h' : Holds p t' w') (same : t'.id ≡ t.id) where
  -- A run that touched only the held task is seen under its ID alone.
  pub view-Frame : (j : String) → view w' j ≡ (if t.id == j then some t' else view w j)
  unfolding view
  view-Frame j = elim (Option-cases (lookup j w.tasks)) [
    | inl e ↦ ground (arith, eq_iff t.id j)
    | inr (q, e) ↦ ground (arith, v.stored j q e, eq_iff t.id j, eqb_iff p q, f.same_heap q)
  ]

  pub Frame-IsWellFormed : IsWellFormed w'
  Frame-IsWellFormed = record {
    stored = λ j q e. ground (arith, v.stored j q, eqb_iff p q, f.same_heap q);
    unused = λ q k. ground (arith, v.unused q, v.unused p, f.same_heap q);
  }
