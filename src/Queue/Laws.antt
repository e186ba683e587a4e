-- ===== src/Queue/Laws.antt =====
-- What the workflow needs of a queue, and that the Redis queue gives it whatever the server does.
use architecture_playground.Base.{ℕ, ◌≡◌, refl, ap, Option, none, some, arith}
use architecture_playground.Errors.{Err}
use architecture_playground.Task.{Task}
use architecture_playground.World.{World}
use architecture_playground.World.Laws.{Returns, Returns-map, returns, Frame}
use architecture_playground.Context.{ExecutionContext, Ctx}
use architecture_playground.Queue.{TaskQueue, Codec, RedisTaskQueue, redis_enqueue, redis_queue}

-- Only the server, the clock and the log may differ.
pub record Kept {R : Type 0} (w w' : World R) : Type 0 where
  pub same_heap : w'.heap ≡ w.heap
  pub same_tasks : w'.tasks ≡ w.tasks
  pub same_next : w'.next ≡ w.next
  pub same_ids : w'.ids ≡ w.ids

pub Kept-refl : {R : Type 0} (w : World R) → Kept w w
Kept-refl w = record { same_heap = refl; same_tasks = refl; same_next = refl; same_ids = refl }

-- A queue that returns from `Enqueue`, and leaves the tasks of the process alone.
pub record IsCalm {R : Type 0} (queue : TaskQueue R) : Type 0 where
  pub calm :
      (ctx : Ctx) (x : ExecutionContext) (p : ℕ) (t : Task) (w : World R)
      → x.task ≡ some p
      → w.heap p ≡ some t
      → Returns (queue.enqueue ctx x w) (λ e w'. Kept w w')

module _ {R : Type 0} (codec : Codec) (q : RedisTaskQueue R) where
  pub redis_queue-IsCalm : IsCalm (redis_queue codec q)
  unfolding redis_enqueue
  redis_queue-IsCalm = record { calm = λ ctx x p t w task at. returns _ _ (ground arith) }

-- What a call of `Enqueue` does to the server, by its outcome.
abbrev pub OnSend :
    {R : Type 0}
    → (ExecutionContext → Task → R → R → Type 0)
    → (R → R → Type 0)
    → ExecutionContext
    → Task
    → Option Err
    → R
    → R
    → Type 0
OnSend Sent Unsent x t none s s' = Sent x t s s'
OnSend Sent Unsent x t (some e) s s' = Unsent s s'

-- A calm queue of which it is known what a call does to the server.
pub record Delivers {R : Type 0} (queue : TaskQueue R)
    (Sent : ExecutionContext → Task → R → R → Type 0) (Unsent : R → R → Type 0) : Type 0 where
  pub deliver :
      (ctx : Ctx) (x : ExecutionContext) (p : ℕ) (t : Task) (w : World R)
      → x.task ≡ some p
      → w.heap p ≡ some t
      → Returns
          (queue.enqueue ctx x w)
          (λ e w'. Kept w w' × OnSend Sent Unsent x t e w.server w'.server)
  pub unsent_refl : (s : R) → Unsent s s

OnSend-any :
    {R : Type 0} (x : ExecutionContext) (t : Task) (e : Option Err) (s s' : R)
    → OnSend {R = R} (λ _ _ _ _. Unit) (λ _ _. Unit) x t e s s'
OnSend-any x t none s s' = tt
OnSend-any x t (some e) s s' = tt

-- Of every calm queue that much is known.
pub IsCalm-Delivers :
    {R : Type 0} (queue : TaskQueue R)
    → IsCalm queue
    → Delivers queue (λ _ _ _ _. Unit) (λ _ _. Unit)
IsCalm-Delivers queue c = record {
  deliver = λ ctx x p t w task at.
      Returns-map (c.calm ctx x p t w task at) (λ e w' k. (k, OnSend-any x t e w.server w'.server));
  unsent_refl = λ s. tt;
}

pub Frame-Kept : {R : Type 0} (p q : ℕ) (w w' : World R) → Kept w w' → Frame p q w w'
Frame-Kept p q w w' k = record {
  same_tasks = k.same_tasks;
  same_next = k.same_next;
  same_ids = k.same_ids;
  same_heap = λ a _ _. ap (λ (m : ℕ → Option Task). m a) k.same_heap;
}
