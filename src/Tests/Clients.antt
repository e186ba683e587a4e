-- ===== src/Tests/Clients.antt =====
-- A client of the memory store: it saves a task twice, gets it, scribbles over the copy, updates the
-- task and gets it again.
use architecture_playground.Base.{ℕ, String, ◌≡◌, refl, List, [], ◌∷◌, Option, none, some}
use architecture_playground.Task.{failed, done}
use architecture_playground.World.Laws.{Returns}
use architecture_playground.Store.{memory_store}
use architecture_playground.Store.View.{view, IsWellFormed}
use architecture_playground.Store.Contract.{
  Operation, saves, gets, updates, writes, accepted, refused, found, perform_all, answers,
  after_all,
}
use architecture_playground.Store.Contract.Refined.{perform_all-after_all}
use architecture_playground.Tests.Setup.{old, empty, empty-IsWellFormed}

abbrev calls : List Operation
calls =
    saves old
    ∷ saves old
    ∷ gets "id-0"
    ∷ writes 0 (record old { status = failed })
    ∷ updates "id-0" done "ok"
    ∷ gets "id-0"
    ∷ gets "id-9"
    ∷ []

replies :
    answers (view empty) calls
    ≡ accepted
      ∷ refused
      ∷ found old
      ∷ accepted
      ∷ accepted
      ∷ found (record old { status = done; result = "ok" })
      ∷ refused
      ∷ []
unfolding view architecture_playground.Base.lookup
replies = refl

perform_all-after_all_example : Returns (perform_all memory_store [] calls empty) (λ rs w'.
    (rs ≡ answers (view empty) calls)
    × ((id : String) → view w' id ≡ after_all (view empty) calls id)
    × IsWellFormed w')
perform_all-after_all_example = perform_all-after_all calls empty empty-IsWellFormed
