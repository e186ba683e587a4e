-- ===== src/Context.antt =====
-- tasks/context/context.go: the record of one execution. A nil task pointer, a nil error and a
-- zero end time are `none`. Functions that change it return the new record.
use architecture_playground.Base.{ℕ, Option, none, some}
use architecture_playground.Errors.{Err}
use architecture_playground.World.{M, Env, pure, ◌>>=◌, now}

pub record ExecutionContext : Type 0 where
  pub task : Option ℕ
  pub error : Option Err
  pub start_time : ℕ
  pub end_time : Option ℕ

-- A `context.Context`: why it is cancelled, if it is.
pub record Ctx : Type 0 where
  pub cancelled : Option Err

module _ {R : Type 0} (env : Env) where
  unfoldable pub new_execution_context : Option ℕ → M R ExecutionContext
  unfolding now
  new_execution_context task = do
    t ← now env
    pure (record { task = task; error = none; start_time = t; end_time = none })

  unfoldable pub set_error : ExecutionContext → Err → M R ExecutionContext
  unfolding now
  set_error e x = do t ← now env; pure (record e { error = some x; end_time = some t })

  unfoldable pub set_success : ExecutionContext → M R ExecutionContext
  unfolding now
  set_success e = do t ← now env; pure (record e { end_time = some t })
