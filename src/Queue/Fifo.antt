-- ===== src/Queue/Fifo.antt =====
-- The contract of the queue, first in first out, over an abstract list of the tasks that wait.
pub mod Redis
use architecture_playground.Base.{
  length, ℕ, ◌+◌, String, ◌≡◌, List, [], ◌∷◌, ◌++◌, Option, none, some,
}
use architecture_playground.Errors.{Err}
use architecture_playground.Task.{Task}
use architecture_playground.World.{World, Result, ok, err, write_at}
use architecture_playground.World.Laws.{Returns, Returns-map}
use architecture_playground.Context.{ExecutionContext, Ctx}
use architecture_playground.Queue.{TaskQueue}
use architecture_playground.Queue.Laws.{Kept, Delivers, OnSend}

-- What a task keeps on its way through JSON; its payload may be written in another form, and its
-- times lose what JSON does not hold.
pub record Resembles (t t' : Task) : Type 0 where
  pub same_id : t'.id ≡ t.id
  pub same_type : t'.type ≡ t.type
  pub same_status : t'.status ≡ t.status

-- A call that succeeds puts the task behind those that wait, and one that fails changes nothing.
abbrev pub Appends :
    {R : Type 0} → (R → List Task → Type 0) → ExecutionContext → Task → R → R → Type 0
Appends Waits x t s s' = x.error ≡ none → (ts : List Task) → Waits s ts → Waits s' (ts ++ t ∷ [])

abbrev pub Keeps : {R : Type 0} → (R → List Task → Type 0) → R → R → Type 0
Keeps Waits s s' = (ts : List Task) → Waits s ts → Waits s' ts

-- The first of the tasks that wait was taken, as a new object at the end of the heap.
pub record Taken {R : Type 0} (Waits : R → List Task → Type 0) (ts : List Task) (w : World R)
    (x : ExecutionContext) (w' : World R) : Type 0 where
  pub first : Task
  pub rest : List Task
  pub copy : Task
  pub in_order : ts ≡ first ∷ rest
  pub resembles : Resembles first copy
  pub waits : Waits w'.server rest
  pub points : x.task ≡ some w.next
  pub new_heap : w'.heap ≡ write_at w.heap w.next copy
  pub new_next : w'.next ≡ w.next + 1
  pub same_tasks : w'.tasks ≡ w.tasks
  pub same_ids : w'.ids ≡ w.ids

-- How a call of `Dequeue` ends: without a task all keep waiting.
abbrev pub OnTake :
    {R : Type 0}
    → (R → List Task → Type 0)
    → List Task
    → World R
    → Result ExecutionContext
    → World R
    → Type 0
OnTake Waits ts w (ok x) w' = Taken Waits ts w x w'
OnTake Waits ts w (err e) w' = Kept w w' × Waits w'.server ts

-- A depth that is told is the number of tasks that wait, and they keep waiting.
abbrev pub OnDepth :
    {R : Type 0} → (R → List Task → Type 0) → List Task → World R → Result ℕ → World R → Type 0
OnDepth Waits ts w (ok n) w' = (n ≡ length ts) × Kept w w' × Waits w'.server ts
OnDepth Waits ts w (err e) w' = Kept w w' × Waits w'.server ts

-- First in, first out: `Waits s ts` says that the tasks ts wait, the oldest first.
pub record IsFifo {R : Type 0} (queue : TaskQueue R) (Waits : R → List Task → Type 0) : Type 0 where
  pub send : Delivers queue (Appends Waits) (Keeps Waits)
  pub take :
      (ctx : Ctx) (w : World R) (ts : List Task)
      → Waits w.server ts
      → Returns (queue.dequeue ctx w) (OnTake Waits ts w)
  pub depth :
      (ctx : Ctx) (w : World R) (ts : List Task)
      → Waits w.server ts
      → Returns (queue.get_queue_depth ctx w) (OnDepth Waits ts w)

-- Under this context, `Dequeue` hands a task out where one waits.
pub record IsPrompt {R : Type 0} (queue : TaskQueue R) (Waits : R → List Task → Type 0) (ctx : Ctx)
    : Type 0 where
  pub hands :
      (w : World R) (t : Task) (ts : List Task)
      → Waits w.server (t ∷ ts)
      → (x : ExecutionContext) × (w' : World R) × (queue.dequeue ctx w ≡ some (ok x, w'))
