-- ===== src/Task/Transitions.antt =====
-- The lifecycle as a relation, and what every history of status changes obeys.
use architecture_playground.Base.{◌≡◌, refl, ◌↔◌, none}
use architecture_playground.Task.{
  TaskStatus, submitted, queued, running, done, failed, can_transition_to,
}

-- The intended lifecycle, written down independently of the table.
infix 40 ◌⟶◌
pub data ◌⟶◌ : TaskStatus → TaskStatus → Type 0 where
  start : submitted ⟶ running
  enqueue : submitted ⟶ queued
  reject : submitted ⟶ failed
  pick : queued ⟶ running
  drop : queued ⟶ failed
  finish : running ⟶ done
  crash : running ⟶ failed

pub ruleset edges = (start, enqueue, reject, pick, drop, finish, crash)

allowed_of_edge : {s t : TaskStatus} → s ⟶ t → can_transition_to s t ≡ none
unfolding can_transition_to
allowed_of_edge start = refl
allowed_of_edge enqueue = refl
allowed_of_edge reject = refl
allowed_of_edge pick = refl
allowed_of_edge drop = refl
allowed_of_edge finish = refl
allowed_of_edge crash = refl

edge_of_allowed : (s t : TaskStatus) → can_transition_to s t ≡ none → s ⟶ t
unfolding can_transition_to
edge_of_allowed submitted running h = start
edge_of_allowed submitted queued h = enqueue
edge_of_allowed submitted failed h = reject
edge_of_allowed queued running h = pick
edge_of_allowed queued failed h = drop
edge_of_allowed running done h = finish
edge_of_allowed running failed h = crash
edge_of_allowed _ _ h = cc

-- `canTransitionTo` returns nil exactly for the seven edges of the lifecycle, also where a status
-- is an unknown text.
pub can_transition_to_iff : (s t : TaskStatus) → (can_transition_to s t ≡ none) ↔ (s ⟶ t)
can_transition_to_iff s t = (edge_of_allowed s t, allowed_of_edge)
