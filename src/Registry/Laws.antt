-- ===== src/Registry/Laws.antt =====
-- What the library expects of a handler, and lookups in the registry.
use mathlib.Core.Path.{subst}
use mathlib.Core.Option.{some-injective}
use architecture_playground.Base.{
  ℕ, String, ◌≡◌, Option, none, some, ◌==◌, if◌then◌else◌, lookup-insert, Bool-cases, inl, inr,
}
use architecture_playground.Task.{Task}
use architecture_playground.World.{World}
use architecture_playground.World.Laws.{Returns, Local}
use architecture_playground.Context.{Ctx}
use architecture_playground.Registry.{TaskHandler, HandlerRegistry, register, get_handler}

-- The object is the task t, but for its result.
abbrev pub ResultOnly : Task → Option Task → Type 0
ResultOnly t none = ⊥
ResultOnly t (some t') = t' ≡ record t { result = t'.result }

-- A handler that returns, and writes nothing but its task's result.
pub record IsTame {R : Type 0} (h : TaskHandler R) : Type 0 where
  pub tame :
      (ctx : Ctx) (p : ℕ) (t : Task) (w : World R)
      → w.heap p ≡ some t
      → Returns (h ctx (some p) w) (λ e w'. Local p p w w' × ResultOnly t (w'.heap p))

abbrev pub AllTame : {R : Type 0} → HandlerRegistry R → Type 0
AllTame {R} r = (type : String) (h : TaskHandler R) → get_handler type r ≡ some h → IsTame h

-- `Get` after `Register` finds the new handler under its type and the others as before.
pub get_handler-register :
    {R : Type 0} (type other : String) (h : TaskHandler R) (r : HandlerRegistry R)
    → get_handler other (register type h r)
      ≡ (if type == other then some h else get_handler other r)
unfolding get_handler register
get_handler-register type other h r = lookup-insert type other h r

pub register-AllTame :
    {R : Type 0} (type : String) (h : TaskHandler R) (r : HandlerRegistry R)
    → IsTame h
    → AllTame r
    → AllTame (register type h r)
register-AllTame {R} type h r tame all other g found = elim (Bool-cases (type == other)) [
  | inl same ↦
      let e : some h ≡ some g = rw (get_handler-register type other h r, same) at found in
      subst IsTame (some-injective h g e) tame
  | inr differ ↦ all other g (rw (get_handler-register type other h r, differ) at found)
]
