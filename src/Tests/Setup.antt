-- ===== src/Tests/Setup.antt =====
-- The data of the tests: a clock, one UUID, two worlds, and the handlers of the program.
use architecture_playground.Base.{
  ◌+◌, refl, true, [], ◌∷◌, none, some, arith, lookup, eq_iff, eqb_iff,
}
use architecture_playground.Base.Int.{pos}
use architecture_playground.Task.{Task, new_task}
use architecture_playground.World.{World, Env, ok, write_at}
use architecture_playground.Context.{Ctx}
use architecture_playground.Store.View.{IsWellFormed}
use architecture_playground.Registry.{HandlerRegistry, new_registry, register, get_handler}
use architecture_playground.Registry.Laws.{AllTame, register-AllTame}
use architecture_playground.Handlers.{Payloads, fired, real_sleeper, run_print, run_sleep}
use architecture_playground.Handlers.Tame.{run_print-IsTame, run_sleep-IsTame, real_sleeper-IsQuiet}

abbrev pub Server : Type 0
Server = Unit {0}

abbrev pub env : Env
env = record { time_at = λ n. 100 + n; uuid_at = λ n. "id-1"; marshals = λ e. true; level = 0 }

abbrev pub ctx : Ctx
ctx = record { cancelled = none }

abbrev pub json : Payloads
json = record { decode_print = λ b. ok "hello"; decode_sleep = λ b. ok (some (pos 2)) }

abbrev pub empty : World Server
empty = record {
  heap = λ p. none;
  next = 0;
  tasks = [];
  output = [];
  reads = 0;
  ids = 0;
  server = tt;
}

abbrev pub old : Task
old = new_task "id-0" 7 "print" []

-- One task stored, at address 0.
abbrev pub busy : World Server
busy = record empty { heap = write_at empty.heap 0 old; next = 1; tasks = ("id-0", 0) ∷ [] }

pub empty-IsWellFormed : IsWellFormed empty
unfolding lookup
empty-IsWellFormed = record { stored = λ id p e. ground arith; unused = λ p h. refl }

pub busy-IsWellFormed : IsWellFormed busy
unfolding lookup
busy-IsWellFormed = record {
  stored = λ id p e. ground (arith, eq_iff id "id-0", eqb_iff 0 p);
  unused = λ p h. ground arith;
}

abbrev pub registry : HandlerRegistry Server
registry =
    register "print" (run_print env json)
      (register "sleep" (run_sleep env json (real_sleeper (λ c d. fired))) new_registry)

none-AllTame : AllTame {R = Server} new_registry
unfolding get_handler lookup
none-AllTame type h e = ground arith

pub registry-AllTame : AllTame registry
registry-AllTame = register-AllTame "print" _ _ (run_print-IsTame env json) (
    register-AllTame "sleep" _ _ (run_sleep-IsTame env json _ (real_sleeper-IsQuiet (λ c d. fired)))
      none-AllTame)
