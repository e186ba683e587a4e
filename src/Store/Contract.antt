-- ===== src/Store/Contract.antt =====
-- The contract of a task store as a client sees it, over any sequence of calls: what each call
-- replies, by an abstract map from IDs to tasks. A client may write through what `Get` gave it.
pub mod Copies
pub mod Steps
pub mod Refined
use architecture_playground.Base.{ℕ, zero, suc, String, List, [], ◌∷◌, Option, none, some}
use architecture_playground.Task.{Task, TaskStatus}
use architecture_playground.World.{
  M, pure, ◌>>=◌, ◌>>◌, on_error, on_result, on_some, deref, assign, alloc,
}
use architecture_playground.Store.{TaskStore}
use architecture_playground.Store.Advance.{Held}
use architecture_playground.Store.View.{saved, updated}

-- A call, or a write to the i-th of the copies that the client got, the last one first.
pub data Operation : Type 0 where
  saves : Task → Operation
  gets : String → Operation
  updates : String → TaskStatus → String → Operation
  writes : ℕ → Task → Operation

pub data Reply : Type 0 where
  accepted : Reply
  refused : Reply
  found : Task → Reply

abbrev pub element : ℕ → List ℕ → Option ℕ
element i [] = none
element zero (p ∷ ps) = some p
element (suc i) (p ∷ ps) = element i ps

module _ {R : Type 0} (store : TaskStore R) where
  -- A client's calls: it makes the tasks that it saves, and keeps the copies that it gets.
  unfoldable pub perform : List ℕ → Operation → M R (Reply × List ℕ)
  unfolding alloc deref assign
  perform ps (saves t) = do
    p ← alloc t
    lost ← store.save p
    on_error lost (λ _. pure (refused, ps)) (pure (accepted, ps))
  perform ps (gets id) = do
    r ← store.get id
    on_result r (λ _. pure (refused, ps)) (λ p. do t ← deref (some p); pure (found t, p ∷ ps))
  perform ps (updates id status result) = do
    lost ← store.update id status result
    on_error lost (λ _. pure (refused, ps)) (pure (accepted, ps))
  perform ps (writes i t) =
      on_some (element i ps) (pure (accepted, ps)) (λ p. do assign (some p) t; pure (accepted, ps))

  unfoldable pub perform_all : List ℕ → List Operation → M R (List Reply)
  unfolding perform
  perform_all ps [] = pure []
  perform_all ps (op ∷ ops) = do r ← perform ps op; rs ← perform_all r.1 ops; pure (r.0 ∷ rs)

-- What the abstract map replies, and what becomes of it.
abbrev pub present : Option Task → Reply → Reply → Reply
present none missing there = missing
present (some t) missing there = there

abbrev pub found_or_refused : Option Task → Reply
found_or_refused none = refused
found_or_refused (some t) = found t

abbrev pub answer : Held → Operation → Reply
answer m (saves t) = present (m t.id) accepted refused
answer m (gets id) = found_or_refused (m id)
answer m (updates id status result) = present (m id) refused accepted
answer m (writes i t) = accepted

abbrev pub saved_once : Option Task → Held → Task → Held
saved_once none m t = saved m t
saved_once (some t') m t = m

abbrev pub after : Held → Operation → Held
after m (saves t) = saved_once (m t.id) m t
after m (gets id) = m
after m (updates id status result) = updated m id status result
after m (writes i t) = m

abbrev pub answers : Held → List Operation → List Reply
answers m [] = []
answers m (op ∷ ops) = answer m op ∷ answers (after m op) ops

abbrev pub after_all : Held → List Operation → Held
after_all m [] = m
after_all m (op ∷ ops) = after_all (after m op) ops
