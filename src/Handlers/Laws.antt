-- ===== src/Handlers/Laws.antt =====
-- The print and the sleep handler: every branch, and that both are tame.
use architecture_playground.Base.{
  ℕ, zero, suc, String, ◌<>◌, ◌≡◌, refl, fun_ext, Option, none, some, arith,
}
use architecture_playground.Base.Int.{ℤ, pos, negsuc, mul64, show_int}
use architecture_playground.Errors.{Err, task_error, validation_error}
use architecture_playground.Task.{Task}
use architecture_playground.World.{World, Env, Result, ok, err}
use architecture_playground.World.Laws.{Returns, returns, Local}
use architecture_playground.Context.{Ctx}
use architecture_playground.Handlers.{Payloads, second, Sleeper, run_print, run_sleep}

abbrev pub IsValidation : Option Err → Type 0
IsValidation none = ⊥
IsValidation (some (task_error e)) = (e.type ≡ validation_error) × (e.code ≡ 400)
IsValidation (some (Err.plain s)) = ⊥

-- What `print` does with a decoded payload.
abbrev pub PrintOutcome : {R : Type 0} → ℕ → Task → Result String → Option Err → World R → Type 0
PrintOutcome p t (ok m) e w' =
    (e ≡ none) × (w'.heap p ≡ some (record t { result = "printed: " <> m }))
PrintOutcome p t (err x) e w' = IsValidation e × (w'.heap p ≡ some t)

-- A sleeper whose call returns and changes nothing that the program sees.
pub record IsQuiet {R : Type 0} (sleeper : Sleeper R) : Type 0 where
  pub outcome : Ctx → ℤ → Option Err
  pub quiet : (ctx : Ctx) (d : ℤ) (w : World R) → sleeper ctx d w ≡ some (outcome ctx d, w)

-- What `sleep` does after a wait of the given outcome.
abbrev pub SleptOutcome : {R : Type 0} → ℕ → Task → ℤ → Option Err → Option Err → World R → Type 0
SleptOutcome p t s none e w' =
    (e ≡ none) × (w'.heap p ≡ some (record t { result = "slept: " <> show_int s <> " seconds" }))
SleptOutcome p t s (some x) e w' = (e ≡ some x) × (w'.heap p ≡ some t)

-- What `sleep` does with a decoded payload, given how a wait ends.
abbrev pub SleepOutcome :
    {R : Type 0} → ℕ → Task → (ℤ → Option Err) → Result (Option ℤ) → Option Err → World R → Type 0
SleepOutcome p t wait (ok (some (pos (suc n)))) e w' =
    SleptOutcome p t (pos (suc n)) (wait (mul64 (pos (suc n)) second)) e w'
SleepOutcome p t wait _ e w' = IsValidation e × (w'.heap p ≡ some t)

module _ {R : Type 0} (env : Env) (json : Payloads) (ctx : Ctx) (p : ℕ) (t : Task) (w : World R)
    (at : w.heap p ≡ some t) where
  -- The print handler succeeds exactly on a payload that decodes, and then reports the message;
  -- otherwise it answers a validation error and leaves the task.
  pub run_print_lem :
      Returns
        (run_print env json ctx (some p) w)
        (λ e w'. Local p p w w' × PrintOutcome p t (json.decode_print t.payload) e w')
  unfolding run_print
  run_print_lem = returns _ _ (ground arith)

  -- The sleep handler waits for a decoded number of seconds above 0 and reports it, passes on the
  -- error of a wait that was cut short, and answers a validation error to every other payload;
  -- in the last two cases the task is left as it was.
  pub run_sleep_lem :
      (sleeper : Sleeper R) (quiet : IsQuiet sleeper)
      → Returns (run_sleep env json sleeper ctx (some p) w) (λ e w'.
        Local p p w w' × SleepOutcome p t (quiet.outcome ctx) (json.decode_sleep t.payload) e w')
  unfolding run_sleep
  run_sleep_lem sleeper quiet = by_payload (json.decode_sleep t.payload) refl
    where
      by_payload :
          (r : Result (Option ℤ))
          → json.decode_sleep t.payload ≡ r
          → Returns
              (run_sleep env json sleeper ctx (some p) w)
              (λ e w'. Local p p w w' × SleepOutcome p t (quiet.outcome ctx) r e w')
      by_payload (ok (some (pos (suc n)))) h =
          rw (fun_ext λ c. fun_ext λ d. fun_ext λ v. quiet.quiet c d v) (returns _ _ (ground arith))
      by_payload (ok (some (pos zero))) h = returns _ _ (ground arith)
      by_payload (ok (some (negsuc n))) h = returns _ _ (ground arith)
      by_payload (ok none) h = returns _ _ (ground arith)
      by_payload (err x) h = returns _ _ (ground arith)
