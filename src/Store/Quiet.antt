-- ===== src/Store/Quiet.antt =====
-- The abstract store where only the clock and the log change.
use architecture_playground.Base.{ℕ, ◌<◌, ap, arith, String, ◌≡◌, ◌∙◌}
use architecture_playground.World.{World}
use architecture_playground.World.Laws.{Quiet}
use architecture_playground.World.Spares.{Spares, Spares-trans, Spares-Quiet}
use architecture_playground.Store.View.{view, IsWellFormed}

-- Logging and reading the clock change nothing for the store.
pub view-Quiet : {R : Type 0} {w w' : World R} → Quiet w w' → (id : String) → view w' id ≡ view w id
unfolding view
view-Quiet f id = ground (arith, f.same_heap, f.same_tasks)

pub IsWellFormed-Quiet :
    {R : Type 0} {w w' : World R} → IsWellFormed w → Quiet w w' → IsWellFormed w'
IsWellFormed-Quiet v f = record {
  stored = λ id p e. ground (arith, f.same_heap, f.same_tasks, v.stored id p);
  unused = λ p h. ground (arith, f.same_heap, f.same_next, v.unused p);
}

-- The abstract store, the IDs that were issued and the server are as before; there may be new
-- objects that the store does not hold, and the old ones stay.
pub record SameStore {R : Type 0} (w w' : World R) : Type 0 where
  pub same_view : (id : String) → view w' id ≡ view w id
  pub valid : IsWellFormed w'
  pub same_ids : w'.ids ≡ w.ids
  pub same_server : w'.server ≡ w.server
  pub spares : Spares w w'
  pub same_tasks : w'.tasks ≡ w.tasks
  pub old_heap : (p : ℕ) → p < w.next → w'.heap p ≡ w.heap p

pub SameStore-Quiet : {R : Type 0} {w w' : World R} → IsWellFormed w → Quiet w w' → SameStore w w'
SameStore-Quiet v f = record {
  same_view = view-Quiet f;
  valid = IsWellFormed-Quiet v f;
  same_ids = f.same_ids;
  same_server = f.same_server;
  spares = Spares-Quiet f;
  same_tasks = f.same_tasks;
  old_heap = λ p low. ap (λ h. h p) f.same_heap;
}

pub SameStore-trans :
    {R : Type 0} {w w' w'' : World R} → SameStore w w' → SameStore w' w'' → SameStore w w''
SameStore-trans f g = record {
  same_view = λ j. g.same_view j ∙ f.same_view j;
  valid = g.valid;
  same_ids = g.same_ids ∙ f.same_ids;
  same_server = g.same_server ∙ f.same_server;
  spares = Spares-trans f.spares g.spares;
  same_tasks = g.same_tasks ∙ f.same_tasks;
  old_heap = λ p low. g.old_heap p (omega (arith, low, f.spares.grown)) ∙ f.old_heap p low;
}
