-- ===== src/Queue/Testcontainer/Retries.antt =====
-- The retries of `NewRedisTaskQueue`, each with a Ping of its own.
use mathlib.Core.Path.{subst}
use architecture_playground.Base.{
  arith, ℕ, zero, suc, ◌+◌, ◌-◌, ◌*◌, ◌≤◌, ◌≡◌, ◌∙◌, ap, refl, String, List, ◌∷◌, Option, none,
  some, Bool-cases, inl, inr, ltb, if◌then◌else◌,
}
use architecture_playground.Errors.{Err}
use architecture_playground.World.{World, Result, ok, err}
use architecture_playground.World.Laws.{
  Returns, Returns-map, Returns-bind, Returns-on_result, Returns-on_error, returns,
}
use architecture_playground.Context.{Ctx}
use architecture_playground.Queue.{
  Client, Codec, RedisTaskQueue, call, new_redis_task_queue, redis_close,
}
use architecture_playground.Queue.Testcontainer.{
  Event, dialed, new_client_on_bench, opened, closed, Bench, client_on_bench, max_retries, note,
  before_retry, make_queue,
}
use architecture_playground.Queue.Testcontainer.Shown.{
  Shown, Shown-refl, events_of, dials_in, opens_in, closes_in, ends_in, sleep_in,
}

-- What is slept before the retry after the i-th, and from there on.
abbrev pub wait_at : ℕ → ℕ
wait_at i = if ltb i (max_retries - 1) then (i + 1) * 500 else 0

abbrev pub waits : ℕ → ℕ → ℕ
waits zero i = 0
waits (suc left) i = wait_at i + waits left (i + 1)

module _ {R : Type 0} (new_client : String → R → R × Result (Client R)) (url name : String) where
  -- A queue of this name on a client for this URL.
  pub record Linked (q : RedisTaskQueue (Bench R)) : Type 0 where
    pub client : Client R
    pub asked : R
    pub made : (new_client url asked).1 ≡ ok client
    pub is : q ≡ record { client = client_on_bench client; queue_name = name }

  -- A queue, with its client; or no queue, and at most one client, which nobody closes.
  abbrev pub NewOf : List Event → Result (RedisTaskQueue (Bench R)) → List Event → Type 0
  NewOf es (ok q) es' = (es' ≡ dialed ∷ es) × Linked q
  NewOf es (err e) es' = (n : ℕ) × (n ≤ 1) × Shown n 0 0 0 0 es es'

  pub new_redis_task_queue_lem :
      (w : World (Bench R))
      → Returns
          (new_redis_task_queue (new_client_on_bench new_client) url name w)
          (λ r w'. NewOf (events_of w) r (events_of w'))
  unfolding new_redis_task_queue call
  new_redis_task_queue_lem w = linked (new_client url w.server.outside).1 refl
    where
      linked :
          (r : Result (Client R))
          → (new_client url w.server.outside).1 ≡ r
          → Returns
              (new_redis_task_queue (new_client_on_bench new_client) url name w)
              (λ r w'. NewOf (events_of w) r (events_of w'))
      linked (err e) k = rw k (returns _ _ (0, omega arith, Shown-refl (events_of w)))
      linked (ok client) k =
          let s = (new_client url w.server.outside).0 in
          rw k (
            Returns-on_error (client.ping s).1 _ _ _
              (λ e _. returns _ _ (
                1,
                omega arith,
                record {
                  dialed = omega arith;
                  opened = omega arith;
                  closed = omega arith;
                  ended = omega arith;
                  slept = omega arith;
                },
              ))
              (λ _.
                returns _ _ (
                  refl,
                  record { client = client; asked = w.server.outside; made = k; is = refl },
                )))

  -- Its calls show nothing.
  module _ (q : RedisTaskQueue (Bench R)) (l : Linked q) (b : Bench R) where
    pub Linked-ping : (q.client.ping b).0.events ≡ b.events
    Linked-ping = rw (l.is) refl

    pub Linked-shut : (q.client.shut b).0.events ≡ b.events
    Linked-shut = rw (l.is) refl

    pub Linked-del : (ctx : Ctx) (key : String) → (q.client.del ctx key b).0.events ≡ b.events
    Linked-del ctx key = rw (l.is) refl

    answered : (q.client.ping b).1 ≡ none → (l.client.ping b.outside).1 ≡ none
    answered e = subst (λ p. (p.client.ping b).1 ≡ none) l.is e

  -- Such a queue, whose client has answered a Ping.
  pub record Works (q : RedisTaskQueue (Bench R)) : Type 0 where
    pub linked : Linked q
    pub before : R
    pub answers : (linked.client.ping before).1 ≡ none

  abbrev pub WorksOf : Option (RedisTaskQueue (Bench R)) → Type 0
  WorksOf none = Unit
  WorksOf (some q) = Works q

abbrev pub kept : {A : Type 0} → Option A → ℕ
kept none = 0
kept (some a) = 1

module _ {R : Type 0} (codec : Codec) (new_client : String → R → R × Result (Client R)) where
  before_retry_lem :
      (i : ℕ) (lost : Option Err) (w : World (Bench R))
      → Returns
          (before_retry i lost w)
          (λ _ w'. Shown 0 0 0 0 (wait_at i) (events_of w) (events_of w'))
  unfolding before_retry note
  before_retry_lem i lost w = elim (Bool-cases (ltb i (max_retries - 1))) [
    | inl more ↦ rw more (
        returns _ _ (record {
          dialed = omega arith;
          opened = omega arith;
          closed = omega arith;
          ended = omega arith;
          slept = omega arith;
        }))
    | inr last ↦ rw last (
        returns _ _ (record {
          dialed = omega arith;
          opened = omega arith;
          closed = omega arith;
          ended = omega arith;
          slept = omega arith;
        }))
  ]

  module _ (url name : String) where
    -- What retries may lead to: all the queues that were returned were closed, but for the one that
    -- works; so many clients were lost, whose first Ping failed.
    pub record Retried (left i : ℕ) (es : List Event)
        (r : Option (RedisTaskQueue (Bench R)) × Option Err) (w' : World (Bench R)) : Type 0 where
      pub tries : ℕ
      pub lost : ℕ
      pub few : lost + tries + kept r.0 ≤ left
      pub shown :
          Shown
            (lost + tries + kept r.0)
            (tries + kept r.0)
            tries
            0
            (waits left i)
            es
            (events_of w')
      pub works : WorksOf new_client url name r.0

    -- One more retry, that lost a client, or closed the queue that it got, or did neither.
    after_try :
        (m n left i : ℕ) (es es2 : List Event) (r : Option (RedisTaskQueue (Bench R)) × Option Err)
        (w' : World (Bench R))
        → m + n ≤ 1
        → Shown (m + n) n n 0 (wait_at i) es es2
        → Retried left (i + 1) es2 r w'
        → Retried (suc left) i es r w'
    after_try m n left i es es2 r w' one s h = record {
      tries = h.tries + n;
      lost = h.lost + m;
      few = omega (arith, h.few, one);
      shown = record {
        dialed = omega (arith, s.dialed, h.shown.dialed);
        opened = omega (arith, s.opened, h.shown.opened);
        closed = omega (arith, s.closed, h.shown.closed);
        ended = omega (arith, s.ended, h.shown.ended);
        slept = omega (arith, s.slept, h.shown.slept);
      };
      works = h.works;
    }

    lost_Shown :
        (m sleep : ℕ) (es es1 es2 : List Event)
        → Shown m 0 0 0 0 es es1
        → Shown 0 0 0 0 sleep es1 es2
        → Shown (m + 0) 0 0 0 sleep es es2
    lost_Shown m sleep es es1 es2 h k = record {
      dialed = omega (arith, h.dialed, k.dialed);
      opened = omega (arith, h.opened, k.opened);
      closed = omega (arith, h.closed, k.closed);
      ended = omega (arith, h.ended, k.ended);
      slept = omega (arith, h.slept, k.slept);
    }

    closed_Shown :
        (sleep : ℕ) (es es1 es2 : List Event)
        → es1 ≡ opened ∷ dialed ∷ es
        → Shown 0 0 0 0 sleep (closed ∷ es1) es2
        → Shown 1 1 1 0 sleep es es2
    closed_Shown sleep es es1 es2 e h = record {
      dialed = omega (arith, h.dialed, ap dials_in e);
      opened = omega (arith, h.opened, ap opens_in e);
      closed = omega (arith, h.closed, ap closes_in e);
      ended = omega (arith, h.ended, ap ends_in e);
      slept = omega (arith, h.slept, ap sleep_in e);
    }

    opened_Shown :
        (sleep : ℕ) (es es1 : List Event) → es1 ≡ opened ∷ dialed ∷ es → Shown 1 1 0 0 sleep es es1
    opened_Shown sleep es es1 e = record {
      dialed = omega (arith, ap dials_in e);
      opened = omega (arith, ap opens_in e);
      closed = omega (arith, ap closes_in e);
      ended = omega (arith, ap ends_in e);
      slept = omega (arith, ap sleep_in e);
    }

    pub make_queue_lem :
        (left i : ℕ) (lost : Option Err) (w : World (Bench R))
        → Returns
            (make_queue codec new_client url name left i lost w)
            (Retried left i (events_of w))
    unfolding make_queue call note redis_close
    make_queue_lem zero i lost w =
        returns _ _
          (record { tries = 0; lost = 0; few = omega arith; shown = Shown-refl _; works = tt })
    make_queue_lem (suc left) i lost w =
        Returns-bind (new_redis_task_queue (new_client_on_bench new_client) url name) _ w
          (new_redis_task_queue_lem new_client url name w)
          (λ r w1 made.
            Returns-on_result r _ _ w1
              (λ e k.
                let (m, one, shown) =
                  subst (λ r. NewOf new_client url name (events_of w) r (events_of w1)) k made in
                Returns-bind (before_retry i (some e)) _ w1 (before_retry_lem i (some e) w1)
                  (λ _ w2 waited. Returns-map (make_queue_lem left (i + 1) (some e) w2) (λ r w' h.
                    after_try m 0 left i (events_of w) (events_of w2) r w' (omega (arith, one))
                      (lost_Shown m (wait_at i) (events_of w) (events_of w1) (events_of w2) shown
                        waited)
                      h)))
              (λ q k.
                let (same, l) =
                  subst (λ r. NewOf new_client url name (events_of w) r (events_of w1)) k made in
                let b1 = record w1.server { events = opened ∷ w1.server.events } in
                let b2 = (q.client.ping b1).0 in
                let b3 = (q.client.shut b2).0 in
                let w3 = record w1 { server = record b3 { events = closed ∷ b3.events } } in
                let open_still : b2.events ≡ opened ∷ dialed ∷ events_of w =
                  Linked-ping new_client url name q l b1 ∙ ap (λ es. opened ∷ es) same in
                Returns-on_error (q.client.ping b1).1 _ _ _
                  (λ e _.
                    Returns-bind (before_retry i none) _ w3 (before_retry_lem i none w3)
                      (λ _ w2 waited. Returns-map (make_queue_lem left (i + 1) none w2) (λ r w' h.
                        after_try 0 1 left i (events_of w) (events_of w2) r w' (omega arith)
                          (closed_Shown (wait_at i) (events_of w) b3.events (events_of w2)
                            (Linked-shut new_client url name q l b2 ∙ open_still) waited)
                          h)))
                  (λ alive. returns _ _ (record {
                    tries = 0;
                    lost = 0;
                    few = omega arith;
                    shown = opened_Shown (waits (suc left) i) (events_of w) b2.events open_still;
                    works = record {
                      linked = l;
                      before = w1.server.outside;
                      answers = answered new_client url name q l b1 alive;
                    };
                  }))))
