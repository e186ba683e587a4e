-- ===== src/Tests/Filling.antt =====
-- A registry in which a type is bound twice, and a log whose level hides a message.
use architecture_playground.Base.{
  ℕ, ◌+◌, String, ◌≡◌, refl, List, [], ◌∷◌, ◌++◌, none, some, contains, length,
}
use mathlib.Core.List.{reverse}
use architecture_playground.Errors.{nil}
use architecture_playground.World.{Env}
use architecture_playground.Logger.{debug, info, error}
use architecture_playground.Logger.Filter.{Message, write_all, passed, lines_at, write_all_lem}
use architecture_playground.Registry.{TaskHandler, new_registry, get_handler, get_registered_types}
use architecture_playground.Registry.Filled.{
  is_some, AllDistinct, register_all, bound, register_all_lem,
}
use architecture_playground.Handlers.{run_print, run_sleep, real_sleeper, fired}
use architecture_playground.Tests.Setup.{Server, env, json, empty}

abbrev bindings : List (String × TaskHandler Server)
bindings =
    ("print", run_sleep env json (real_sleeper (λ c d. fired)))
    ∷ ("sleep", run_sleep env json (real_sleeper (λ c d. fired)))
    ∷ ("print", run_print env json)
    ∷ []

register_all_lem_example :
    ((t : String) → get_handler t (register_all bindings new_registry) ≡ bound t bindings none)
    × ((t : String)
        → contains (get_registered_types (register_all bindings new_registry)) t
          ≡ is_some (bound t bindings none))
    × AllDistinct (get_registered_types (register_all bindings new_registry))
register_all_lem_example = register_all_lem bindings

abbrev quiet : Env
quiet = record env { level = info }

abbrev message : ℕ → String → Message
message level text = record { level = level; text = text; fields = nil }

abbrev messages : List Message
messages = message info "one" ∷ message debug "two" ∷ message error "three" ∷ []

two_pass : passed quiet messages ≡ message info "one" ∷ message error "three" ∷ []
two_pass = refl

write_all_lem_example :
    write_all quiet messages empty
    ≡ some (
      tt,
      record empty {
        output = reverse (lines_at quiet 0 (passed quiet messages)) ++ [];
        reads = 0 + length (passed quiet messages);
      },
    )
write_all_lem_example = write_all_lem quiet messages empty
