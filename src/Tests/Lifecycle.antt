-- ===== src/Tests/Lifecycle.antt =====
-- The lifecycle of one task.
use mathlib.Core.List.{Memᴰ}
use architecture_playground.Base.{◌≤◌, ◌≡◌, ◌↔◌, refl, List, [], ◌∷◌, none}
use architecture_playground.Task.{
  TaskStatus, submitted, queued, running, done, failed, can_transition_to, set_status,
}
use architecture_playground.Task.Transitions.{◌⟶◌, can_transition_to_iff}
use architecture_playground.Task.Lifecycle.{set_all, set_all-le, set_all_final, done_needs_running}
use architecture_playground.Tests.Setup.{old}

abbrev history : List TaskStatus
history = queued ∷ done ∷ running ∷ done ∷ failed ∷ []

history_ends : ((set_all old history).0.status ≡ done) × ((set_all old history).1 ≡ 3)
unfolding set_all set_status
history_ends = (refl, refl)

can_transition_to_iff_example : (can_transition_to submitted queued ≡ none) ↔ (submitted ⟶ queued)
can_transition_to_iff_example = can_transition_to_iff submitted queued

set_all-le_example : (set_all old history).1 ≤ 3
set_all-le_example = set_all-le old history

set_all_final_example :
    set_all (record old { status = done }) history ≡ (record old { status = done }, 0)
set_all_final_example = set_all_final (record old { status = done }) history refl

done_needs_running_example : Memᴰ running history
done_needs_running_example = done_needs_running old history refl history_ends.0
