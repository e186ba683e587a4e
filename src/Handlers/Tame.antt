-- ===== src/Handlers/Tame.antt =====
-- The handlers of the program are tame, and how long the sleep handler waits.
use mathlib.Core.Path.{subst}
use architecture_playground.Base.{
  ℕ, zero, suc, ◌-◌, ◌*◌, ◌≤◌, ◌^◌, String, ◌≡◌, refl, Option, none, some, arith,
}
use architecture_playground.Base.Int.{ℤ, pos, negsuc, mul64}
use architecture_playground.Errors.{Err}
use architecture_playground.Task.{Task}
use architecture_playground.World.{World, Env, Result, ok, err}
use architecture_playground.World.Laws.{Returns, Returns-map, Local}
use architecture_playground.Context.{Ctx}
use architecture_playground.Registry.Laws.{IsTame, ResultOnly}
use architecture_playground.Handlers.{
  Payloads, second, Sleeper, Ready, cancelled, fired, real_sleeper, run_print, run_sleep,
}
use architecture_playground.Handlers.Laws.{
  IsQuiet, PrintOutcome, SleptOutcome, SleepOutcome, run_print_lem, run_sleep_lem,
}

module _ {R : Type 0} (p : ℕ) (t : Task) where
  print_written :
      (r : Result String) (e : Option Err) (w' : World R)
      → PrintOutcome p t r e w'
      → ResultOnly t (w'.heap p)
  print_written (ok m) e w' h = ground arith
  print_written (err x) e w' h = ground arith

  slept_written :
      (s : ℤ) (stopped e : Option Err) (w' : World R)
      → SleptOutcome p t s stopped e w'
      → ResultOnly t (w'.heap p)
  slept_written s none e w' h = ground arith
  slept_written s (some x) e w' h = ground arith

  sleep_written :
      (wait : ℤ → Option Err) (r : Result (Option ℤ)) (e : Option Err) (w' : World R)
      → SleepOutcome p t wait r e w'
      → ResultOnly t (w'.heap p)
  sleep_written wait (ok (some (pos (suc n)))) e w' h =
      slept_written (pos (suc n)) (wait (mul64 (pos (suc n)) second)) e w' h
  sleep_written wait (ok (some (pos zero))) e w' h = ground arith
  sleep_written wait (ok (some (negsuc n))) e w' h = ground arith
  sleep_written wait (ok none) e w' h = ground arith
  sleep_written wait (err x) e w' h = ground arith

module _ {R : Type 0} (env : Env) (json : Payloads) where
  pub run_print-IsTame : IsTame (run_print {R = R} env json)
  run_print-IsTame = record {
    tame = λ ctx p t w at.
        Returns-map (run_print_lem env json ctx p t w at)
          (λ e w' h. (h.0, print_written p t (json.decode_print t.payload) e w' h.1));
  }

  pub run_sleep-IsTame :
      (sleeper : Sleeper R) → IsQuiet sleeper → IsTame (run_sleep env json sleeper)
  run_sleep-IsTame sleeper quiet = record {
    tame = λ ctx p t w at.
        Returns-map (run_sleep_lem env json ctx p t w at sleeper quiet) (λ e w' h.
          (h.0, sleep_written p t (quiet.outcome ctx) (json.decode_sleep t.payload) e w' h.1));
  }

-- The production sleeper is quiet: it ends by the timer or with the context's error.
abbrev ready_error : Ready → Option Err
ready_error (cancelled e) = some e
ready_error fired = none

pub real_sleeper-IsQuiet :
    {R : Type 0} (select : Ctx → ℤ → Ready) → IsQuiet (real_sleeper {R = R} select)
unfolding real_sleeper
real_sleeper-IsQuiet select = record {
  outcome = λ ctx d. ready_error (select ctx d);
  quiet = λ ctx d w. ground arith;
}

-- The wait is the payload's number of seconds, in nanoseconds, up to 9223372036 seconds.
pub mul64-second : (n : ℕ) → n ≤ 9223372036 → mul64 (pos n) second ≡ pos (n * second)
unfolding mul64
mul64-second n h = ground arith

-- From there up to 18446744073 seconds the 64-bit product wraps to a negative duration.
pub mul64-second_wraps :
    (n : ℕ) → 9223372037 ≤ n → n ≤ 18446744073 → (d : ℕ) × (mul64 (pos n) second ≡ negsuc d)
unfolding mul64
mul64-second_wraps n lo hi = (2 ^ 64 - n * second - 1, ground arith)

-- For a payload of 9223372037 to 18446744073 seconds the sleep handler does not sleep: with a timer
-- that fires at once for a negative duration, and whatever it does for others, the handler returns
-- without an error and reports that it slept so long, where the object of the task holds it; it
-- touches nothing else but the clock and the log.
pub run_sleep_wraps :
    {R : Type 0} (env : Env) (json : Payloads) (ctx : Ctx) (p : ℕ) (t : Task) (w : World R) (n : ℕ)
    (select : Ctx → ℤ → Ready)
    → ((d : ℕ) → select ctx (negsuc d) ≡ fired)
    → w.heap p ≡ some t
    → json.decode_sleep t.payload ≡ ok (some (pos n))
    → 9223372037 ≤ n
    → n ≤ 18446744073
    → Returns
        (run_sleep env json (real_sleeper select) ctx (some p) w)
        (λ e w'. Local p p w w' × SleptOutcome p t (pos n) none e w')
unfolding real_sleeper-IsQuiet
run_sleep_wraps env json ctx p t w zero select past at payload lo hi = absurd (omega (arith, lo))
run_sleep_wraps env json ctx p t w (suc n) select past at payload lo hi =
    let quiet = real_sleeper-IsQuiet select in
    let (d, wraps) = mul64-second_wraps (suc n) lo hi in
    let at_once : quiet.outcome ctx (mul64 (pos (suc n)) second) ≡ none = rw (wraps, past d) refl in
    Returns-map (run_sleep_lem env json ctx p t w at (real_sleeper select) quiet) (λ e w' h. (
      h.0,
      subst (λ o. SleptOutcome p t (pos (suc n)) o e w') at_once
          (subst (λ r. SleepOutcome p t (quiet.outcome ctx) r e w') payload h.1),
    ))
