-- ===== src/Store.antt =====
-- tasks/store/store.go and tasks/store/memory.go: the contract, and the in-memory store. Each
-- method holds the store's lock from its first to its last step, so it is one step here; the
-- memory store does not read its context argument.
pub mod View
pub mod Laws
pub mod Quiet
pub mod Advance
pub mod Contract
use architecture_playground.Base.{ℕ, String, ◌<>◌, Option, none, some, lookup, insert}
use architecture_playground.Errors.{Err, plain}
use architecture_playground.Task.{Task, TaskStatus}
use architecture_playground.World.{
  World, M, Result, ok, err, pure, ◌>>=◌, ◌>>◌, on_some, deref, assign, alloc,
}

-- The interface `TaskStore`. A task is passed by its address.
pub record TaskStore (R : Type 0) : Type 0 where
  pub save : ℕ → M R (Option Err)
  pub get : String → M R (Result ℕ)
  pub update : String → TaskStatus → String → M R (Option Err)

module _ {R : Type 0} where
  -- `s.tasks[id]`
  unfoldable pub find_task : String → M R (Option ℕ)
  find_task id w = some (lookup id w.tasks, w)

  -- `s.tasks[id] = task`
  unfoldable pub put_task : String → ℕ → M R (Unit {0})
  put_task id p w = some (tt, record w { tasks = insert id p w.tasks })

  unfoldable pub save : ℕ → M R (Option Err)
  unfolding find_task put_task deref
  save p = do
    t ← deref (some p)
    found ← find_task t.id
    on_some found (put_task t.id p >> pure none)
        (λ _. pure (some (plain ("task with ID " <> t.id <> " already exists"))))

  -- The result is the address of a copy.
  unfoldable pub get : String → M R (Result ℕ)
  unfolding find_task deref alloc
  get id = do
    found ← find_task id
    on_some found (pure (err (plain ("task with ID " <> id <> " not found"))))
        (λ p. do task ← deref (some p); copied ← alloc task; pure (ok copied))

  unfoldable pub update : String → TaskStatus → String → M R (Option Err)
  unfolding find_task deref assign
  update id status result = do
    found ← find_task id
    on_some found (pure (some (plain ("task with ID " <> id <> " not found")))) (λ p. do
      task ← deref (some p)
      assign (some p) (record task { status = status; result = result })
      pure none)

-- `MemoryTaskStore` as the interface.
abbrev pub memory_store : {R : Type 0} → TaskStore R
memory_store = record { save = save; get = get; update = update }
