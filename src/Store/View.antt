-- ===== src/Store/View.antt =====
-- The abstract store, a partial map from task IDs to tasks, and how the memory store's pointers
-- represent it. A stored task stays reachable through the pointer that was saved.
use architecture_playground.Base.{
  ℕ, String, ◌≤◌, ◌≡◌, Option, none, some, lookup, ◌==◌, if◌then◌else◌,
}
use architecture_playground.Task.{Task, TaskStatus}
use architecture_playground.World.{World}

abbrev pub follow : {R : Type 0} → World R → Option ℕ → Option Task
follow w none = none
follow w (some p) = w.heap p

-- What the store holds under an ID.
unfoldable pub view : {R : Type 0} → World R → String → Option Task
view w id = follow w (lookup id w.tasks)

abbrev pub Carries : String → Option Task → Type 0
Carries id none = ⊥
Carries id (some t) = t.id ≡ id

-- Every stored pointer leads to a task that carries the ID it is stored under, and what lies past
-- the end of the heap is not allocated.
pub record IsWellFormed {R : Type 0} (w : World R) : Type 0 where
  pub stored : (id : String) (p : ℕ) → lookup id w.tasks ≡ some p → Carries id (w.heap p)
  pub unused : (p : ℕ) → w.next ≤ p → w.heap p ≡ none

-- The contract: saving under a fresh ID adds an entry, updating changes two fields of one.
abbrev pub saved : (String → Option Task) → Task → String → Option Task
saved m t j = if t.id == j then some t else m j

abbrev set_outcome : TaskStatus → String → Option Task → Option Task
set_outcome s r none = none
set_outcome s r (some t) = some (record t { status = s; result = r })

abbrev pub updated : (String → Option Task) → String → TaskStatus → String → String → Option Task
updated m id s r j = if id == j then set_outcome s r (m j) else m j
