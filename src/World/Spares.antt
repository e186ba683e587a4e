-- ===== src/World/Spares.antt =====
-- The objects that the store does not hold, such as the tasks that workers decoded for themselves.
use architecture_playground.Base.{arith, ℕ, ◌<◌, ◌≤◌, String, ◌≡◌, ◌≢◌, ◌∙◌, some, lookup}
use architecture_playground.World.{World}
use architecture_playground.World.Laws.{Quiet}

abbrev pub Unstored : {R : Type 0} → World R → ℕ → Type 0
Unstored w p = (j : String) → lookup j w.tasks ≢ some p

-- They stay as they are, and the store does not come to hold them.
pub record Spares {R : Type 0} (w w' : World R) : Type 0 where
  pub same_object : (p : ℕ) → p < w.next → Unstored w p → w'.heap p ≡ w.heap p
  pub unstored : (p : ℕ) → p < w.next → Unstored w p → Unstored w' p
  pub grown : w.next ≤ w'.next

pub Spares-trans : {R : Type 0} {w w' w'' : World R} → Spares w w' → Spares w' w'' → Spares w w''
Spares-trans {R} {w} {w'} {w''} f g = record {
  same_object = λ p low out.
      g.same_object p (omega (arith, low, f.grown)) (f.unstored p low out)
      ∙ f.same_object p low out;
  unstored = λ p low out. g.unstored p (omega (arith, low, f.grown)) (f.unstored p low out);
  grown = omega (arith, f.grown, g.grown);
}

pub Spares-Quiet : {R : Type 0} {w w' : World R} → Quiet w w' → Spares w w'
Spares-Quiet {R} {w} {w'} f = record {
  same_object = λ p low out. ground (arith, f.same_heap);
  unstored = λ p low out j e. out j (ground (arith, e, f.same_tasks));
  grown = omega (arith, f.same_next);
}
