-- ===== src/Queue/Fifo/Redis/Calls.antt =====
-- The Redis queue meets the contract, over a server that keeps lists and JSON that keeps tasks.
use mathlib.Core.Path.{subst}
use mathlib.Core.List.{reverse, reverse-append, reverse-reverse}
use architecture_playground.Base.{
  arith, ℕ, ◌+◌, String, ◌<>◌, ◌≡◌, ◌∙◌, refl, sym, ap, List, [], ◌∷◌, ◌++◌, Option, none, some,
}
use architecture_playground.Errors.{Err, plain, error_text}
use architecture_playground.Task.{Task}
use architecture_playground.World.{World, Result, ok, err, write_at}
use architecture_playground.World.Laws.{Returns, returns}
use architecture_playground.Context.{ExecutionContext, Ctx}
use architecture_playground.Queue.{
  Codec, Message, RedisTaskQueue, redis_enqueue, redis_dequeue, redis_get_queue_depth, redis_queue,
}
use architecture_playground.Queue.Laws.{Kept, Kept-refl, OnSend}
use architecture_playground.Queue.Fifo.{Appends, Keeps, Taken, OnTake, OnDepth, IsFifo, IsPrompt}
use architecture_playground.Queue.Fifo.Redis.{
  AfterPush, AfterPop, IsRedis, IsResponsive, Encodes, IsLossless, AllEncode, AllEncode-append,
  WaitsAt, AfterCount, length-WaitsAt, popped,
}

module _ {R : Type 0} (codec : Codec) (q : RedisTaskQueue R) (contents : R → String → List (List ℕ))
    (redis : IsRedis q.client contents) (lossless : IsLossless codec) where
  abbrev Waits : R → List Task → Type 0
  Waits = WaitsAt codec contents q.queue_name

  -- What is at the server is as it was, and so the tasks wait.
  still_waits :
      (ts : List Task) (s s' : R)
      → contents s' q.queue_name ≡ contents s q.queue_name
      → Waits s ts
      → Waits s' ts
  still_waits ts s s' same waits = record {
    oldest_first = waits.oldest_first;
    stored = same ∙ waits.stored;
    encoded = waits.encoded;
  }

  pushed :
      (x : ExecutionContext) (t : Task) (bytes : List ℕ) (s s' : R) (e : Option Err)
      → AfterPush (contents s q.queue_name) bytes e (contents s' q.queue_name)
      → (x.error ≡ none → Encodes codec bytes t)
      → OnSend (Appends Waits) (Keeps Waits) x t e s s'
  pushed x t bytes s s' none h enc = λ clean ts waits. record {
    oldest_first = waits.oldest_first ++ bytes ∷ [];
    stored =
        h ∙ ap (λ r. bytes ∷ r) waits.stored ∙ sym (reverse-append waits.oldest_first (bytes ∷ []));
    encoded = AllEncode-append codec waits.oldest_first ts bytes t waits.encoded (enc clean);
  }
  pushed x t bytes s s' (some e) h enc = λ ts waits. still_waits ts s s' h waits

  abbrev marshalled : ExecutionContext → Task → Message
  marshalled x t = record {
    task = some t;
    error = x.error;
    start_time = x.start_time;
    end_time = x.end_time;
  }

  sent :
      (ctx : Ctx) (x : ExecutionContext) (p : ℕ) (t : Task) (w : World R)
      → x.task ≡ some p
      → w.heap p ≡ some t
      → (o : Result (List ℕ)) → codec.marshal (marshalled x t) ≡ o
      → Returns
          (redis_enqueue codec q ctx x w)
          (λ e w'. Kept w w' × OnSend (Appends Waits) (Keeps Waits) x t e w.server w'.server)
  unfolding redis_enqueue
  sent ctx x p t w task at (err e) h = record {
    value = some (plain ("failed to marshal task: " <> error_text e));
    world = w;
    run = ground arith;
    holds = (Kept-refl w, λ ts waits. waits);
  }
  sent ctx x p t w task at (ok bytes) h =
      let r = q.client.lpush ctx q.queue_name bytes w.server in
      record {
        value = r.1;
        world = record w { server = r.0 };
        run = ground arith;
        holds = (
          record { same_heap = refl; same_tasks = refl; same_next = refl; same_ids = refl },
          pushed x t bytes w.server r.0 r.1 (redis.pushes ctx q.queue_name bytes w.server)
              (λ clean. lossless (marshalled x t) t bytes clean refl h),
        );
      }

  took_ok :
      (ctx : Ctx) (w : World R) (ts : List Task) (waits : Waits w.server ts) (reply : List (List ℕ))
      → (q.client.brpop ctx q.queue_name w.server).1 ≡ ok reply
      → AfterPop
          (contents w.server q.queue_name)
          (ok reply)
          (contents (q.client.brpop ctx q.queue_name w.server).0 q.queue_name)
      → (x : ExecutionContext) × (w' : World R) × (redis_dequeue codec q ctx w ≡ some (ok x, w'))
        × Taken Waits ts w x w'
  unfolding redis_dequeue
  took_ok ctx w ts waits reply h (name, last, shape, order) =
      let s' = (q.client.brpop ctx q.queue_name w.server).0 in
      let new = contents s' q.queue_name in
      let (t, rest, front, enc, others) =
        popped codec waits.oldest_first new last ts (sym waits.stored ∙ order) waits.encoded in
      (
        record {
          task = some w.next;
          error = enc.message.error;
          start_time = enc.message.start_time;
          end_time = enc.message.end_time;
        },
        record w { server = s'; heap = write_at w.heap w.next enc.copy; next = w.next + 1 },
        ground (arith, enc.decodes, enc.holds_copy),
        record {
          first = t;
          rest = rest;
          copy = enc.copy;
          in_order = front;
          resembles = enc.resembles;
          waits = record {
            oldest_first = reverse new;
            stored = sym (reverse-reverse new);
            encoded = others;
          };
          points = refl;
          new_heap = refl;
          new_next = refl;
          same_tasks = refl;
          same_ids = refl;
        },
      )

  took :
      (ctx : Ctx) (w : World R) (ts : List Task) (waits : Waits w.server ts)
      (o : Result (List (List ℕ)))
      → (q.client.brpop ctx q.queue_name w.server).1 ≡ o
      → AfterPop
          (contents w.server q.queue_name)
          o
          (contents (q.client.brpop ctx q.queue_name w.server).0 q.queue_name)
      → Returns (redis_dequeue codec q ctx w) (OnTake Waits ts w)
  unfolding redis_dequeue
  took ctx w ts waits (err e) h same = record {
    value = err (plain ("failed to dequeue task: " <> error_text e));
    world = record w { server = (q.client.brpop ctx q.queue_name w.server).0 };
    run = ground arith;
    holds = (
      record { same_heap = refl; same_tasks = refl; same_next = refl; same_ids = refl },
      still_waits ts w.server (q.client.brpop ctx q.queue_name w.server).0 same waits,
    );
  }
  took ctx w ts waits (ok reply) h after =
      let (x, w', run, taken) = took_ok ctx w ts waits reply h after in
      record { value = ok x; world = w'; run = run; holds = taken }

  counted :
      (ts : List Task) (w : World R) (s' : R) (r : Result ℕ)
      → AfterCount (contents w.server q.queue_name) r (contents s' q.queue_name)
      → Waits w.server ts
      → OnDepth Waits ts w r (record w { server = s' })
  counted ts w s' (ok n) (same_count, same) waits = (
    same_count ∙ length-WaitsAt codec contents q.queue_name w.server ts waits,
    record { same_heap = refl; same_tasks = refl; same_next = refl; same_ids = refl },
    still_waits ts w.server s' same waits,
  )
  counted ts w s' (err e) same waits = (
    record { same_heap = refl; same_tasks = refl; same_next = refl; same_ids = refl },
    still_waits ts w.server s' same waits,
  )

  -- Over a client that tries each command once and loses no reply, and whose errors mean that nothing
  -- was done, and JSON that gives a like task back, the Redis queue is first in, first out: a call of `Enqueue` that succeeds puts the task behind those that
  -- wait, a call of `Dequeue` that succeeds takes the one that has waited longest, a call of
  -- `GetQueueDepth` that succeeds gives their number, and a call that fails leaves them as they are.
  pub redis_queue-IsFifo : IsFifo (redis_queue codec q) Waits
  unfolding redis_get_queue_depth
  redis_queue-IsFifo = record {
    send = record {
      deliver =
          λ ctx x p t w task at. sent ctx x p t w task at (codec.marshal (marshalled x t)) refl;
      unsent_refl = λ s ts waits. waits;
    };
    take = λ ctx w ts waits.
        took ctx w ts waits (q.client.brpop ctx q.queue_name w.server).1 refl
          (redis.pops ctx q.queue_name w.server);
    depth = λ ctx w ts waits. returns _ _ (
        counted ts w (q.client.llen ctx q.queue_name w.server).0
          (q.client.llen ctx q.queue_name w.server).1 (redis.counts ctx q.queue_name w.server)
          waits);
  }

  -- Where a task waits, the list at the server is not empty.
  filled :
      (bs : List (List ℕ)) (t : Task) (ts : List Task)
      → AllEncode codec bs (t ∷ ts)
      → (l : List (List ℕ)) → l ≡ reverse bs
      → (b : List ℕ) × (rest : List (List ℕ)) × (l ≡ b ∷ rest)
  filled bs t ts h (b ∷ rest) e = (b, rest, refl)
  filled bs t ts h [] e =
      let none_left : bs ≡ [] = sym (reverse-reverse bs) ∙ ap reverse (sym e) in
      absurd (subst (λ z. AllEncode codec z (t ∷ ts)) none_left h)

  -- The Redis queue hands a task out where one waits, if the server replies.
  pub redis_queue-IsPrompt :
      (ctx : Ctx) → IsResponsive q.client contents ctx → IsPrompt (redis_queue codec q) Waits ctx
  unfolding redis_dequeue
  redis_queue-IsPrompt ctx answers = record {
    hands = λ w t ts waits.
        let (b, rest, full) =
          filled waits.oldest_first t ts waits.encoded (contents w.server q.queue_name)
            waits.stored in
        let (reply, ready) = answers q.queue_name w.server b rest full in
        let (x, w', run, taken) =
          took_ok ctx w (t ∷ ts) waits reply ready
            (rw ready at (redis.pops ctx q.queue_name w.server)) in
        (x, w', run);
  }
