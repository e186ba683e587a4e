-- ===== src/Registry.antt =====
-- tasks/registry/registry.go and the handler interface of tasks/handlers/handler.go. The registry
-- is filled when the process starts; its map is an association list, in one of the orders in which
-- Go may walk it.
pub mod Laws
pub mod Filled
use architecture_playground.Base.{ℕ, String, List, [], Option, lookup, insert, keys}
use architecture_playground.Errors.{Err}
use architecture_playground.World.{M}
use architecture_playground.Context.{Ctx}

-- `TaskHandler`: its `Run` method.
abbrev pub TaskHandler : Type 0 → Type 0
TaskHandler R = Ctx → Option ℕ → M R (Option Err)

abbrev pub HandlerRegistry : Type 0 → Type 0
HandlerRegistry R = List (String × TaskHandler R)

module _ {R : Type 0} where
  abbrev pub new_registry : HandlerRegistry R
  new_registry = []

  -- `Register` binds the type anew where it was bound already.
  unfoldable pub register : String → TaskHandler R → HandlerRegistry R → HandlerRegistry R
  register type handler r = insert type handler r

  unfoldable pub get_handler : String → HandlerRegistry R → Option (TaskHandler R)
  get_handler type r = lookup type r

  unfoldable pub get_registered_types : HandlerRegistry R → List String
  get_registered_types r = keys r
