-- ===== src/Logger/Filter.antt =====
-- What a sequence of calls of the logger leaves in the log.
use mathlib.Core.List.{reverse, reverse-cons, append_assoc}
use architecture_playground.Base.{
  ℕ, ◌+◌, ◌≡◌, ◌∙◌, sym, ap, arith, String, ltb, Bool-cases, inl, inr, List, [], ◌∷◌, ◌++◌, some,
  length, if◌then◌else◌,
}
use architecture_playground.Errors.{Fields}
use architecture_playground.World.{World, Env, M, Line, pure, ◌>>◌}
use architecture_playground.Logger.{write_log_entry, made_entry, entry_line}

-- The arguments of a call.
pub record Message : Type 0 where
  pub level : ℕ
  pub text : String
  pub fields : Fields

module _ (env : Env) where
  unfoldable pub write_all : {R : Type 0} → List Message → M R (Unit {0})
  unfolding write_log_entry
  write_all [] = pure tt
  write_all (m ∷ ms) = write_log_entry env m.level m.text m.fields >> write_all ms

  -- The messages of the logger's level and above.
  abbrev pub passed : List Message → List Message
  passed [] = []
  passed (m ∷ ms) = if ltb m.level env.level then passed ms else m ∷ passed ms

  -- Their lines, the oldest first, where n is the number of the first's reading of the clock.
  abbrev pub lines_at : ℕ → List Message → List Line
  lines_at n [] = []
  lines_at n (m ∷ ms) =
      entry_line env (made_entry (env.time_at n) m.level m.text m.fields) ∷ lines_at (n + 1) ms

  -- A sequence of messages leaves in the log, in their order, one line for each message of the
  -- logger's level and above and none for another, and reads the clock once for each line; it
  -- changes nothing else.
  pub write_all_lem :
      {R : Type 0} (ms : List Message) (w : World R)
      → write_all ms w
        ≡ some (
          tt,
          record w {
            output = reverse (lines_at w.reads (passed ms)) ++ w.output;
            reads = w.reads + length (passed ms);
          },
        )
  unfolding write_all write_log_entry
  write_all_lem [] w = ground arith
  write_all_lem (m ∷ ms) w = elim (Bool-cases (ltb m.level env.level)) [
    | inl hidden ↦ rw hidden (write_all_lem ms w)
    | inr shown ↦
        let line = entry_line env (made_entry (env.time_at w.reads) m.level m.text m.fields) in
        let later = lines_at (w.reads + 1) (passed ms) in
        let newest : reverse later ++ (line ∷ w.output) ≡ reverse (line ∷ later) ++ w.output =
          sym (append_assoc (reverse later) (line ∷ []) w.output)
          ∙ ap (λ l. l ++ w.output) (sym (reverse-cons line later)) in
        let one_more : w.reads + 1 + length (passed ms) ≡ w.reads + length (m ∷ passed ms) =
          omega arith in
        rw shown (
          write_all_lem ms (record w { output = line ∷ w.output; reads = w.reads + 1 })
          ∙ cc (newest, one_more))
  ]
