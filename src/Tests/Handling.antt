-- ===== src/Tests/Handling.antt =====
-- The handlers and the runner on one task.
use architecture_playground.Base.{refl, none, some, arith}
use architecture_playground.Base.Int.{ℤ, pos, negsuc}
use architecture_playground.Errors.{plain}
use architecture_playground.World.Laws.{Returns, Local}
use architecture_playground.Context.{ExecutionContext, Ctx}
use architecture_playground.World.{ok}
use architecture_playground.Handlers.{
  Payloads, Ready, cancelled, fired, real_sleeper, run_print, run_sleep,
}
use architecture_playground.Handlers.Laws.{
  PrintOutcome, SleptOutcome, SleepOutcome, run_print_lem, run_sleep_lem,
}
use architecture_playground.Handlers.Tame.{real_sleeper-IsQuiet, run_sleep_wraps}
use architecture_playground.Runners.{run_sync}
use architecture_playground.Runners.Laws.{Ran, run_sync_lem}
use architecture_playground.Tests.Setup.{
  Server, env, ctx, json, old, busy, registry, registry-AllTame,
}

run_print_lem_example :
    Returns
      (run_print env json ctx (some 0) busy)
      (λ e w'. Local 0 0 busy w' × PrintOutcome 0 old (json.decode_print old.payload) e w')
run_print_lem_example = run_print_lem env json ctx 0 old busy refl

run_sleep_lem_example :
    Returns (run_sleep env json (real_sleeper (λ c d. fired)) ctx (some 0) busy) (λ e w'.
      Local 0 0 busy w'
      × SleepOutcome 0 old
          ((real_sleeper-IsQuiet {R = Server} (λ c d. fired)).outcome ctx)
          (json.decode_sleep old.payload)
          e
          w')
run_sleep_lem_example =
    run_sleep_lem env json ctx 0 old busy refl (real_sleeper (λ c d. fired))
      (real_sleeper-IsQuiet (λ c d. fired))

-- A context that is cancelled, a payload of 9223372037 seconds, and a timer that only fires at once
-- for a negative duration.
abbrev long : Payloads
long = record json { decode_sleep = λ b. ok (some (pos 9223372037)) }

abbrev past_only : Ctx → ℤ → Ready
past_only c (negsuc d) = fired
past_only c (pos d) = cancelled (plain "context canceled")

run_sleep_wraps_example :
    Returns
      (run_sleep env long (real_sleeper past_only) ctx (some 0) busy)
      (λ e w'. Local 0 0 busy w' × SleptOutcome 0 old (pos 9223372037) none e w')
run_sleep_wraps_example =
    run_sleep_wraps env long ctx 0 old busy 9223372037 past_only (λ d. refl) refl refl (omega arith)
      (omega arith)

abbrev execution : ExecutionContext
execution = record { task = some 0; error = some (plain "boom"); start_time = 9; end_time = none }

run_sync_lem_example : Returns (run_sync registry ctx execution busy) (Ran 0 old busy)
run_sync_lem_example = run_sync_lem registry ctx execution 0 old busy refl refl registry-AllTame
