-- ===== src/Config/Normal.antt =====
-- Validation of a validated configuration changes nothing, and the level that the logger gets from it.
use Prim.Native.Char.{Char}
use mathlib.Core.List.{reverse, reverse-append, reverse-reverse}
use architecture_playground.Base.{
  String, eq_iff, ◌≡◌, refl, sym, ap, ◌∙◌, ◌⊎◌, inl, inr, true, false, List, [], ◌∷◌, ◌++◌, none,
  arith, contains, to_upper, chars, of_chars, Bool-cases,
}
use architecture_playground.Logger.{parse_level, info}
use architecture_playground.Config.Parse.{is_space, drop_spaces, trim_space}
use architecture_playground.Config.{Config, valid_levels, validate}
use architecture_playground.Config.Laws.{
  IsAcceptable, normalised, validate_iff, validate-normalised,
}

chars-of_chars : (cs : List Char) → chars (of_chars cs) ≡ cs
chars-of_chars [] = refl
chars-of_chars (c ∷ cs) = ap (λ r. c ∷ r) (chars-of_chars cs)

-- No space in front.
abbrev IsTight : List Char → Type 0
IsTight [] = Unit
IsTight (c ∷ cs) = is_space c ≡ false

drop_spaces-IsTight : (cs : List Char) → IsTight (drop_spaces cs)
unfolding drop_spaces
drop_spaces-IsTight [] = tt
drop_spaces-IsTight (c ∷ cs) = elim (Bool-cases (is_space c)) [
  | inl e ↦ rw e (drop_spaces-IsTight cs)
  | inr e ↦ rw e e
]

drop_spaces_tight : (cs : List Char) → IsTight cs → drop_spaces cs ≡ cs
unfolding drop_spaces
drop_spaces_tight [] h = refl
drop_spaces_tight (c ∷ cs) h = rw h

drop_spaces-suffix : (cs : List Char) → (p : List Char) × (cs ≡ p ++ drop_spaces cs)
unfolding drop_spaces
drop_spaces-suffix [] = ([], refl)
drop_spaces-suffix (c ∷ cs) = elim (Bool-cases (is_space c)) [
  | inl e ↦ let (p, s) = drop_spaces-suffix cs in rw e (c ∷ p, ap (λ r. c ∷ r) s)
  | inr e ↦ rw e ([], refl)
]

IsTight-prefix : (z s : List Char) → IsTight (z ++ s) → IsTight z
IsTight-prefix [] s h = tt
IsTight-prefix (c ∷ z) s h = h

-- What `TrimSpace` does to the characters.
abbrev trimmed : List Char → List Char
trimmed cs = reverse (drop_spaces (reverse (drop_spaces cs)))

trimmed-IsTight : (cs : List Char) → IsTight (trimmed cs)
trimmed-IsTight cs =
    let a = drop_spaces cs in
    let (p, e) = drop_spaces-suffix (reverse a) in
    let whole : a ≡ trimmed cs ++ reverse p =
      sym (reverse-reverse a) ∙ ap reverse e ∙ reverse-append p (drop_spaces (reverse a)) in
    IsTight-prefix (trimmed cs) (reverse p) (rw whole at (drop_spaces-IsTight cs))

trimmed_idempotent : (cs : List Char) → trimmed (trimmed cs) ≡ trimmed cs
trimmed_idempotent cs = rw (drop_spaces_tight (trimmed cs) (trimmed-IsTight cs)) (
    rw (reverse-reverse (drop_spaces (reverse (drop_spaces cs))))
      (ap reverse (drop_spaces_tight _ (drop_spaces-IsTight (reverse (drop_spaces cs))))))

pub trim_space_idempotent : (s : String) → trim_space (trim_space s) ≡ trim_space s
unfolding trim_space
trim_space_idempotent s =
    rw (chars-of_chars (trimmed (chars s))) (ap of_chars (trimmed_idempotent (chars s)))

-- The five levels, one of which a validated configuration has.
levels-cases :
    (u : String)
    → contains valid_levels u ≡ true
    → (u ≡ "DEBUG") ⊎ (u ≡ "INFO") ⊎ (u ≡ "WARN") ⊎ (u ≡ "ERROR") ⊎ (u ≡ "FATAL")
levels-cases u h =
    ground (
      arith,
      eq_iff "DEBUG" u,
      eq_iff "INFO" u,
      eq_iff "WARN" u,
      eq_iff "ERROR" u,
      eq_iff "FATAL" u,
    )

level_normal : (u : String) → contains valid_levels u ≡ true → to_upper (trim_space u) ≡ u
unfolding to_upper trim_space
level_normal u h = by_level (levels-cases u h)
  where
    by_level :
        (u ≡ "DEBUG") ⊎ (u ≡ "INFO") ⊎ (u ≡ "WARN") ⊎ (u ≡ "ERROR") ⊎ (u ≡ "FATAL")
        → to_upper (trim_space u) ≡ u
    by_level (inl e) = rw e refl
    by_level (inr (inl e)) = rw e refl
    by_level (inr (inr (inl e))) = rw e refl
    by_level (inr (inr (inr (inl e)))) = rw e refl
    by_level (inr (inr (inr (inr e)))) = rw e refl

normalised-IsAcceptable : (c : Config) → IsAcceptable c → IsAcceptable (normalised c)
unfolding normalised
normalised-IsAcceptable c a = record {
  port_low = a.port_low;
  port_high = a.port_high;
  level = rw (level_normal (to_upper (trim_space c.log_level)) a.level) a.level;
  task_low = a.task_low;
  task_high = a.task_high;
  shutdown_low = a.shutdown_low;
  shutdown_high = a.shutdown_high;
  version = rw (trim_space_idempotent c.version) a.version;
  workers = a.workers;
  redis = a.redis;
  queue = a.queue;
}

normalised_idempotent : (c : Config) → IsAcceptable c → normalised (normalised c) ≡ normalised c
unfolding normalised
normalised_idempotent c a =
    rw (level_normal (to_upper (trim_space c.log_level)) a.level)
      (rw (trim_space_idempotent c.version) refl)

-- Validating the normal form of an acceptable configuration succeeds and changes nothing.
pub validate_idempotent :
    (c : Config) → IsAcceptable c → validate (normalised c) ≡ (normalised c, none)
validate_idempotent c a =
    validate-normalised (normalised c) (normalised-IsAcceptable c a)
    ∙ ap (λ d. (d, none)) (normalised_idempotent c a)

-- An accepted configuration is still accepted with the level FATAL in place of its own, and the
-- logger that is made with that level has the level INFO, so that it shows more than was asked for.
pub parse_level-validate_fatal :
    (c : Config)
    → (validate c).1 ≡ none
    → ((validate (record c { log_level = "FATAL" })).1 ≡ none)
      × (parse_level (validate (record c { log_level = "FATAL" })).0.log_level ≡ info)
unfolding normalised parse_level to_upper trim_space
parse_level-validate_fatal c accepted =
    let a = (validate_iff c).0 accepted in
    let b : IsAcceptable (record c { log_level = "FATAL" }) = record {
      port_low = a.port_low;
      port_high = a.port_high;
      level = refl;
      task_low = a.task_low;
      task_high = a.task_high;
      shutdown_low = a.shutdown_low;
      shutdown_high = a.shutdown_high;
      version = a.version;
      workers = a.workers;
      redis = a.redis;
      queue = a.queue;
    } in
    let e = validate-normalised (record c { log_level = "FATAL" }) b in (rw e refl, rw e refl)
