-- ===== src/Handlers.antt =====
-- tasks/handlers/print.go and tasks/handlers/sleep.go. `json.Unmarshal` of a payload is a
-- parameter: the decoded field, or the error. A missing `seconds` is the nil pointer, `none`.
pub mod Laws
pub mod Tame
use architecture_playground.Base.{ℕ, String, ◌<>◌, List, Option, none, some, ◌^◌, if◌then◌else◌}
use architecture_playground.Base.Int.{ℤ, pos, leb_ℤ, mul64, show_int}
use architecture_playground.Errors.{
  Err, task_error, error_text, nil, field, text, int, new_validation_error,
}
use architecture_playground.World.{
  M, Env, Result, pure, ◌>>=◌, ◌>>◌, on_error, on_result, on_some, deref, assign,
}
use architecture_playground.Logger.{log_task}
use architecture_playground.Context.{Ctx}
use architecture_playground.Registry.{TaskHandler}

-- What encoding/json does with a payload.
pub record Payloads : Type 0 where
  pub decode_print : List ℕ → Result String
  pub decode_sleep : List ℕ → Result (Option ℤ)

-- `time.Second`, in nanoseconds.
abbrev pub second : ℕ
second = 1000000000

-- `Sleeper`
abbrev pub Sleeper : Type 0 → Type 0
Sleeper R = Ctx → ℤ → M R (Option Err)

-- Which channel of the `select` is ready first: `ctx.Done()`, with the context's error, or the timer.
pub data Ready : Type 0 where
  cancelled : Err → Ready
  fired : Ready

unfoldable pub real_sleeper : {R : Type 0} → (Ctx → ℤ → Ready) → Sleeper R
real_sleeper select ctx d = elim (select ctx d) [ cancelled e ↦ pure (some e) | fired ↦ pure none ]

module _ {R : Type 0} (env : Env) (json : Payloads) where
  unfoldable pub run_print : TaskHandler R
  unfolding deref assign log_task
  run_print ctx p = do
    task ← deref p
    on_result (json.decode_print task.payload)
        (λ e. pure (
          some (
            task_error (
              new_validation_error "invalid print payload"
                (field "task_id" (text task.id) (field "error" (text (error_text e)) nil))))))
        (λ message. do
          log_task env task.id "executing print task" (field "message" (text message) nil)
          assign p (record task { result = "printed: " <> message })
          pure none)

  sleep_for : Sleeper R → Ctx → Option ℕ → ℤ → M R (Option Err)
  unfolding deref assign log_task mul64
  sleep_for sleeper ctx p seconds = do
    task ← deref p
    log_task env task.id "executing sleep task" (field "seconds" (int seconds) nil)
    stopped ← sleeper ctx (mul64 seconds second)
    task ← deref p
    on_error stopped
        (λ e. do
          log_task env task.id "sleep task cancelled"
              (field "seconds" (int seconds) (field "error" (text (error_text e)) nil))
          pure (some e))
        (do
          assign p (record task { result = "slept: " <> show_int seconds <> " seconds" })
          pure none)

  unfoldable pub run_sleep : Sleeper R → TaskHandler R
  unfolding deref sleep_for
  run_sleep sleeper ctx p = do
    task ← deref p
    on_result (json.decode_sleep task.payload)
        (λ e. pure (
          some (
            task_error (
              new_validation_error "invalid sleep payload"
                (field "task_id" (text task.id) (field "error" (text (error_text e)) nil))))))
        (λ seconds.
          on_some seconds
            (pure (
              some (
                task_error (
                  new_validation_error "missing or invalid 'seconds' field"
                    (field "task_id" (text task.id) nil)))))
            (λ s.
              if leb_ℤ s (pos 0)
              then pure (
                  some (
                    task_error (
                      new_validation_error "invalid sleep duration: must be > 0"
                        (field "task_id" (text task.id) (field "seconds" (int s) nil)))))
              else (sleep_for sleeper ctx p s)))
