-- ===== src/Registry/Filled.antt =====
-- A registry that was filled by any sequence of calls of `Register`.
use architecture_playground.Base.{
  String, ◌≡◌, ◌∙◌, sym, ap, refl, arith, Bool, true, false, Bool-cases, inl, inr, List, [], ◌∷◌,
  Option, none, some, ◌==◌, eq_iff, if◌then◌else◌, lookup, insert, lookup-insert, keys, contains,
}
use architecture_playground.Registry.{
  TaskHandler, HandlerRegistry, new_registry, register, get_handler, get_registered_types,
}
use architecture_playground.Registry.Laws.{get_handler-register}

abbrev pub is_some {ℓ} : {A : Type ℓ} → Option A → Bool
is_some none = false
is_some (some a) = true

-- No type is listed twice.
abbrev pub AllDistinct : List String → Type 0
AllDistinct [] = Unit
AllDistinct (x ∷ xs) = (contains xs x ≡ false) × AllDistinct xs

module _ {V : Type 0} where
  contains-keys : (t : String) (m : List (String × V)) → contains (keys m) t ≡ is_some (lookup t m)
  unfolding lookup
  contains-keys t [] = refl
  contains-keys t ((name, v) ∷ rest) =
      ground (arith, contains-keys t rest, eq_iff t name, eq_iff name t)

  insert-AllDistinct :
      (key : String) (v : V) (m : List (String × V))
      → AllDistinct (keys m)
      → AllDistinct (keys (insert key v m))
  unfolding insert
  insert-AllDistinct key v [] h = (refl, tt)
  insert-AllDistinct key v ((name, old) ∷ rest) (out, h) = elim (Bool-cases (key == name)) [
    | inl same ↦ rw same (out, h)
    | inr differ ↦ rw differ (
      contains-keys name (insert key v rest)
          ∙ ap is_some (lookup-insert key name v rest)
          ∙ (rw differ (sym (contains-keys name rest) ∙ out)),
      insert-AllDistinct key v rest h,
    )
  ]

module _ {R : Type 0} where
  abbrev pub register_all : List (String × TaskHandler R) → HandlerRegistry R → HandlerRegistry R
  register_all [] r = r
  register_all ((type, handler) ∷ bs) r = register_all bs (register type handler r)

  -- The handler that was bound last to a type, else the one given.
  abbrev pub bound :
      String → List (String × TaskHandler R) → Option (TaskHandler R) → Option (TaskHandler R)
  bound t [] last = last
  bound t ((type, handler) ∷ bs) last = bound t bs (if type == t then some handler else last)

  get_handler-register_all :
      (t : String) (bs : List (String × TaskHandler R)) (r : HandlerRegistry R)
      → get_handler t (register_all bs r) ≡ bound t bs (get_handler t r)
  get_handler-register_all t [] r = refl
  get_handler-register_all t ((type, handler) ∷ bs) r =
      get_handler-register_all t bs (register type handler r)
      ∙ ap (bound t bs) (get_handler-register type t handler r)

  register_all-AllDistinct :
      (bs : List (String × TaskHandler R)) (r : HandlerRegistry R)
      → AllDistinct (keys r)
      → AllDistinct (keys (register_all bs r))
  unfolding register
  register_all-AllDistinct [] r h = h
  register_all-AllDistinct ((type, handler) ∷ bs) r h =
      register_all-AllDistinct bs (insert type handler r) (insert-AllDistinct type handler r h)

  -- After any sequence of registrations in a new registry, a type has the handler that was bound to
  -- it last and no other, and the registered types are those that have a handler, each listed once.
  pub register_all_lem :
      (bs : List (String × TaskHandler R))
      → ((t : String) → get_handler t (register_all bs new_registry) ≡ bound t bs none)
        × ((t : String)
            → contains (get_registered_types (register_all bs new_registry)) t
              ≡ is_some (bound t bs none))
        × AllDistinct (get_registered_types (register_all bs new_registry))
  unfolding get_handler get_registered_types lookup
  register_all_lem bs = (
    λ t. get_handler-register_all t bs new_registry,
    λ t.
        contains-keys t (register_all bs new_registry)
        ∙ ap is_some (get_handler-register_all t bs new_registry),
    register_all-AllDistinct bs new_registry tt,
  )
