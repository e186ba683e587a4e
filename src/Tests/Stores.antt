-- ===== src/Tests/Stores.antt =====
-- The memory store with one task.
use architecture_playground.Base.{ℕ, String, ◌≡◌, ◌≢◌, refl, none, some, lookup}
use architecture_playground.World.{ok}
use architecture_playground.World.Laws.{Returns}
use architecture_playground.Store.{get}
use architecture_playground.Store.Quiet.{SameStore}
use architecture_playground.Store.View.{view}
use architecture_playground.Store.Laws.{get_found}
use architecture_playground.Tests.Setup.{old, busy, busy-IsWellFormed}

get_found_example : Returns (get "id-0" busy) (λ r w'.
    (q : ℕ) × (r ≡ ok q)
    × (busy.heap q ≡ none)
    × (w'.heap q ≡ some old)
    × ((j : String) → lookup j w'.tasks ≢ some q)
    × SameStore busy w')
unfolding view lookup
get_found_example = get_found busy "id-0" old busy-IsWellFormed refl
