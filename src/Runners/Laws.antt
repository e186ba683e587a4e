-- ===== src/Runners/Laws.antt =====
-- The synchronous runner over tame handlers: it returns, and every error is structured.
use architecture_playground.Base.{ℕ, ◌≡◌, Option, none, some, arith, Option-cases, inl, inr}
use architecture_playground.Errors.{Err, task_error}
use architecture_playground.Task.{Task}
use architecture_playground.World.{World}
use architecture_playground.World.Laws.{Returns, returns, Local, Local-refl}
use architecture_playground.Context.{ExecutionContext, Ctx}
use architecture_playground.Registry.{HandlerRegistry, get_handler}
use architecture_playground.Registry.Laws.{ResultOnly, AllTame}
use architecture_playground.Runners.{run_sync}

-- No error, or one with a type and an HTTP code.
abbrev pub IsStructured : Option Err → Type 0
IsStructured none = Unit
IsStructured (some (task_error e)) = Unit
IsStructured (some (Err.plain s)) = ⊥

abbrev pub Ran : {R : Type 0} → ℕ → Task → World R → Option Err → World R → Type 0
Ran p t w e w' = IsStructured e × Local p p w w' × ResultOnly t (w'.heap p)

module _ {R : Type 0} (registry : HandlerRegistry R) (ctx : Ctx) (x : ExecutionContext) (p : ℕ)
    (t : Task) (w : World R) (task : x.task ≡ some p) (at : w.heap p ≡ some t) where
  -- With handlers that write only their task's result, the synchronous runner returns, reports only
  -- structured errors, and changes no more than that result.
  pub run_sync_lem : AllTame registry → Returns (run_sync registry ctx x w) (Ran p t w)
  unfolding run_sync
  run_sync_lem tame = elim (Option-cases (get_handler t.type registry)) [
    | inl missing ↦ returns _ _ (ground (arith, Local-refl p p w))
    | inr (h, found) ↦ returns _ _ (ground (arith, (tame t.type h found).tame ctx p t w at))
  ]
