-- ===== src/Queue/Testcontainer.antt =====
-- tasks/queue/redis_testcontainer.go: the queue that the integration tests run on. Docker, its
-- container and the Redis client are parameters.
pub mod Shown
pub mod Url
pub mod Retries
pub mod Setup
use architecture_playground.Base.{
  ℕ, zero, suc, ◌+◌, ◌-◌, ◌*◌, String, ◌<>◌, List, [], ◌∷◌, Option, none, some, show_nat, ltb, ◌==◌,
  if◌then◌else◌,
}
use architecture_playground.Errors.{Err, plain, error_text}
use architecture_playground.World.{
  World, M, Env, Result, ok, err, pure, ◌>>=◌, ◌>>◌, on_error, on_result, on_some, now, panic,
}
use architecture_playground.Context.{Ctx}
use architecture_playground.Queue.{
  Client, Codec, RedisTaskQueue, call, new_redis_task_queue, redis_close,
}

-- What a test shows of its run: `redis.NewClient` made a client; `NewRedisTaskQueue` returned a
-- queue; a queue was closed, and its client with it; the container was told to terminate;
-- `time.Sleep` in milliseconds; and `t.Logf`.
pub data Event : Type 0 where
  dialed : Event
  opened : Event
  closed : Event
  ended : Event
  slept : ℕ → Event
  logged : String → Event

-- Docker and Redis, and the events so far, newest first.
pub record Bench (R : Type 0) : Type 0 where
  pub outside : R
  pub events : List Event

-- `RedisContainer` of testcontainers-go, as far as the helper calls it. `mapped_port` gives the text
-- of the port.
pub record Container (R : Type 0) : Type 0 where
  pub connection_string : R → R × Result String
  pub host : R → R × Result String
  pub mapped_port : String → R → R × Result String
  pub terminate : R → R × Option Err

-- What `t.Skipf` and `t.Fatalf` leave of the test, or the value that is returned.
pub data Verdict (A : Type 0) : Type 0 where
  ready : A → Verdict A
  skipped : String → Verdict A
  fatal : String → Verdict A

abbrev pub on_bench : {R A : Type 0} → (R → R × A) → Bench R → Bench R × A
on_bench f b = (record b { outside = (f b.outside).0 }, (f b.outside).1)

abbrev pub client_on_bench : {R : Type 0} → Client R → Client (Bench R)
client_on_bench client = record {
  ping = on_bench client.ping;
  lpush = λ ctx name bytes. on_bench (client.lpush ctx name bytes);
  brpop = λ ctx name. on_bench (client.brpop ctx name);
  llen = λ ctx name. on_bench (client.llen ctx name);
  del = λ ctx name. on_bench (client.del ctx name);
  shut = on_bench client.shut;
}

abbrev pub client_of : {R : Type 0} → Result (Client R) → Result (Client (Bench R))
client_of (ok client) = ok (client_on_bench client)
client_of (err e) = err e

abbrev pub events_of_new : {R : Type 0} → Result (Client R) → List Event → List Event
events_of_new (ok client) es = dialed ∷ es
events_of_new (err e) es = es

abbrev pub new_client_on_bench :
    {R : Type 0}
    → (String → R → R × Result (Client R))
    → String
    → Bench R
    → Bench R × Result (Client (Bench R))
new_client_on_bench new_client url b =
    let r = new_client url b.outside in
    (record { outside = r.0; events = events_of_new r.1 b.events }, client_of r.1)

-- An error as `%v` prints it.
abbrev pub printed_error : Option Err → String
printed_error none = "<nil>"
printed_error (some e) = error_text e

-- `context.Background()`
abbrev pub background : Ctx
background = record { cancelled = none }

abbrev pub max_retries : ℕ
max_retries = 5

abbrev pub queue_name_of : String → ℕ → String
queue_name_of test t = "test_queue_" <> test <> "_" <> show_nat t

-- `fmt.Errorf` of a failed attempt.
abbrev pub attempt_failed : String → ℕ → Err → Err
attempt_failed what attempt e =
    plain (what <> " (attempt " <> show_nat (attempt + 1) <> "): " <> error_text e)

module _ {R : Type 0} where
  unfoldable pub note : Event → M (Bench R) (Unit {0})
  note e w = some (tt, record w { server = record w.server { events = e ∷ w.server.events } })

  unfoldable pub find_port : Container R → M (Bench R) (Result String)
  unfolding call
  find_port c = do
    port ← call (on_bench (c.mapped_port "6379/tcp"))
    on_result port (λ e. call (on_bench (c.mapped_port "6379"))) (λ p. pure (ok p))

  -- The attempts that are left, the number of this one, and the last error: the URL, empty where
  -- all attempts failed.
  unfoldable pub find_url : Container R → ℕ → ℕ → Option Err → M (Bench R) (String × Option Err)
  unfolding call note find_port
  find_url c zero attempt lost = pure ("", lost)
  find_url c (suc left) attempt lost = do
    direct ← call (on_bench c.connection_string)
    on_result direct
        (λ _. do
          host ← call (on_bench c.host)
          on_result host
              (λ e. do
                note (slept 100)
                find_url c left (attempt + 1)
                    (some (attempt_failed "failed to get host" attempt e)))
              (λ name. do
                port ← find_port c
                on_result port
                    (λ e. do
                      note (slept 100)
                      find_url c left (attempt + 1)
                          (some (attempt_failed "failed to get port" attempt e)))
                    (λ p. pure ("redis://" <> name <> ":" <> p <> "/1", lost))))
        (λ url. pure (url <> "/1", lost))

  -- What is logged and slept before the next retry.
  unfoldable pub before_retry : ℕ → Option Err → M (Bench R) (Unit {0})
  unfolding note
  before_retry i lost =
      if ltb i (max_retries - 1)
      then (do
        note (
            logged (
              "Failed to connect to Redis, retrying... ("
              <> show_nat (i + 1)
              <> "/"
              <> show_nat max_retries
              <> "): "
              <> printed_error lost))
        note (slept ((i + 1) * 500)))
      else pure tt

module _ {R : Type 0} (codec : Codec) (new_client : String → R → R × Result (Client R)) where
  -- The retries that are left, the number of this one, and the last error of `NewRedisTaskQueue`.
  unfoldable pub make_queue :
      String
      → String
      → ℕ
      → ℕ
      → Option Err
      → M (Bench R) (Option (RedisTaskQueue (Bench R)) × Option Err)
  unfolding call note before_retry new_redis_task_queue redis_close
  make_queue url name zero i lost = pure (none, lost)
  make_queue url name (suc left) i lost = do
    made ← new_redis_task_queue (new_client_on_bench new_client) url name
    on_result made (λ e. do before_retry i (some e); make_queue url name left (i + 1) (some e))
        (λ q. do
          note opened
          dead ← call q.client.ping
          on_error dead
              (λ _. do
                failed ← redis_close codec q
                note closed
                before_retry i none
                make_queue url name left (i + 1) none)
              (pure (some q, none)))

  unfoldable pub end_container : Container R → M (Bench R) (Option Err)
  unfolding call note
  end_container c = do note ended; call (on_bench c.terminate)

  -- The function that `setupRedisTestcontainer` returns.
  unfoldable pub cleanup :
      Container R → Option (RedisTaskQueue (Bench R)) → String → M (Bench R) (Unit {0})
  unfolding call note redis_close end_container
  cleanup c queue name = do
    on_some queue (pure tt) (λ q. do
      lost ← call (q.client.del background name)
      failed ← redis_close codec q
      note closed)
    failed ← end_container c
    on_error failed (λ e. note (logged ("Failed to terminate container: " <> error_text e)))
        (pure tt)

  unfoldable pub setup_on :
      Container R
      → String
      → M (Bench R) (Verdict (RedisTaskQueue (Bench R) × M (Bench R) (Unit {0})))
  unfolding call note find_url make_queue end_container cleanup
  setup_on c name = do
    found ← find_url c 3 0 none
    if found.0 == ""
        then (do
          lost ← end_container c
          pure (
              fatal (
                "Failed to get Redis connection details after 3 attempts: "
                <> printed_error found.1)))
        else (do
          note (logged ("Redis container started at: " <> found.0 <> " (queue: " <> name <> ")"))
          made ← make_queue found.0 name max_retries 0 none
          on_some made.0
              (do
                lost ← end_container c
                pure (
                    fatal (
                      "Failed to create working Redis queue after "
                      <> show_nat max_retries
                      <> " retries: "
                      <> printed_error made.1)))
              (λ q. do
                lost ← call (q.client.del background name)
                pure (ready (q, cleanup c (some q) name))))

  -- `redis.Run` returns a container, which may be nil, and an error.
  unfoldable pub setup_redis_testcontainer :
      Env
      → (R → R × (Option (Container R) × Option Err))
      → String
      → M (Bench R) (Verdict (RedisTaskQueue (Bench R) × M (Bench R) (Unit {0})))
  unfolding call now setup_on
  setup_redis_testcontainer env run test = do
    t ← now env
    started ← call (on_bench run)
    on_error started.1
        (λ e. pure (skipped ("Failed to start Redis testcontainer: " <> error_text e)))
        (on_some started.0 panic (λ c. setup_on c (queue_name_of test t)))
