-- ===== src/Queue.antt =====
-- tasks/queue/queue.go and tasks/queue/redis.go. The Redis client and its server, and encoding/json,
-- are parameters.
pub mod Laws
pub mod Fifo
pub mod Testcontainer
use architecture_playground.Base.{
  ℕ, String, ◌<>◌, List, [], ◌∷◌, Option, none, some, length, show_nat,
}
use architecture_playground.Errors.{Err, plain, error_text}
use architecture_playground.Task.{Task}
use architecture_playground.World.{
  World, M, Result, ok, err, pure, ◌>>=◌, ◌>>◌, on_error, on_result, on_some, deref, alloc,
}
use architecture_playground.Context.{ExecutionContext, Ctx}

-- The interface `TaskQueue`.
pub record TaskQueue (R : Type 0) : Type 0 where
  pub enqueue : Ctx → ExecutionContext → M R (Option Err)
  pub dequeue : Ctx → M R (Result ExecutionContext)
  pub get_queue_depth : Ctx → M R (Result ℕ)
  pub close : M R (Option Err)

-- `redis.Client`, as far as the queue and its tests call it. `brpop` gives the reply that ends the wait.
pub record Client (R : Type 0) : Type 0 where
  pub ping : R → R × Option Err
  pub lpush : Ctx → String → List ℕ → R → R × Option Err
  pub brpop : Ctx → String → R → R × Result (List (List ℕ))
  pub llen : Ctx → String → R → R × Result ℕ
  pub del : Ctx → String → R → R × Option Err
  pub shut : R → R × Option Err

-- An execution context as it is marshalled: the pointer is followed.
pub record Message : Type 0 where
  pub task : Option Task
  pub error : Option Err
  pub start_time : ℕ
  pub end_time : Option ℕ

-- encoding/json on execution contexts.
pub record Codec : Type 0 where
  pub marshal : Message → Result (List ℕ)
  pub unmarshal : List ℕ → Result Message

pub record RedisTaskQueue (R : Type 0) : Type 0 where
  pub client : Client R
  pub queue_name : String

-- `result[1]` of a reply of two elements, else the count of its elements.
abbrev pub second_of : List (List ℕ) → Result (List ℕ)
second_of (name ∷ value ∷ []) = ok value
second_of reply = err (
    plain (
      "unexpected BRPop result format. Should have 2 elements but got " <> show_nat (length reply)))

module _ {R : Type 0} where
  -- A call to the server.
  unfoldable pub call : {A : Type 0} → (R → R × A) → M R A
  call f w = some ((f w.server).1, record w { server = (f w.server).0 })

  -- `NewRedisTaskQueue`, given `redis.ParseURL` followed by `redis.NewClient`, which makes a client
  -- just where the URL is accepted.
  unfoldable pub new_redis_task_queue :
      (String → R → R × Result (Client R)) → String → String → M R (Result (RedisTaskQueue R))
  unfolding call
  new_redis_task_queue new_client url queue_name = do
    made ← call (new_client url)
    on_result made (λ e. pure (err (plain ("invalid Redis URL: " <> error_text e))))
        (λ client. do
          lost ← call client.ping
          on_error lost (λ e. pure (err (plain ("failed to connect to Redis: " <> error_text e))))
              (pure (ok (record { client = client; queue_name = queue_name }))))

  -- What `json.Marshal` reads of the context.
  unfoldable pub to_message : ExecutionContext → M R Message
  unfolding deref
  to_message x =
      on_some x.task
        (pure (record {
          task = none;
          error = x.error;
          start_time = x.start_time;
          end_time = x.end_time;
        }))
        (λ p. do
          task ← deref (some p)
          pure (record {
            task = some task;
            error = x.error;
            start_time = x.start_time;
            end_time = x.end_time;
          }))

  -- What `json.Unmarshal` builds: a task object of its own.
  unfoldable pub from_message : Message → M R ExecutionContext
  unfolding alloc
  from_message m =
      on_some m.task
        (pure (record {
          task = none;
          error = m.error;
          start_time = m.start_time;
          end_time = m.end_time;
        }))
        (λ t. do
          p ← alloc t
          pure (record {
            task = some p;
            error = m.error;
            start_time = m.start_time;
            end_time = m.end_time;
          }))

module _ {R : Type 0} (codec : Codec) (q : RedisTaskQueue R) where
  unfoldable pub redis_enqueue : Ctx → ExecutionContext → M R (Option Err)
  unfolding call to_message
  redis_enqueue ctx x = do
    m ← to_message x
    on_result (codec.marshal m)
        (λ e. pure (some (plain ("failed to marshal task: " <> error_text e))))
        (λ bytes. call (q.client.lpush ctx q.queue_name bytes))

  unfoldable pub redis_dequeue : Ctx → M R (Result ExecutionContext)
  unfolding call from_message
  redis_dequeue ctx = do
    reply ← call (q.client.brpop ctx q.queue_name)
    on_result reply (λ e. pure (err (plain ("failed to dequeue task: " <> error_text e))))
        (λ parts.
          on_result (second_of parts) (λ e. pure (err e))
            (λ value.
              on_result (codec.unmarshal value)
                (λ e. pure (err (plain ("failed to unmarshall task: " <> error_text e))))
                (λ m. do x ← from_message m; pure (ok x))))

  unfoldable pub redis_get_queue_depth : Ctx → M R (Result ℕ)
  unfolding call
  redis_get_queue_depth ctx = call (q.client.llen ctx q.queue_name)

  unfoldable pub redis_close : M R (Option Err)
  unfolding call
  redis_close = call q.client.shut

  abbrev pub redis_queue : TaskQueue R
  redis_queue = record {
    enqueue = redis_enqueue;
    dequeue = redis_dequeue;
    get_queue_depth = redis_get_queue_depth;
    close = redis_close;
  }
