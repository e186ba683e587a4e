-- ===== src/Queue/Testcontainer/Setup.antt =====
-- What `setupRedisTestcontainer` ends in, and what it leaves behind.
use mathlib.Core.Path.{subst}
use architecture_playground.Base.{
  arith, ℕ, ◌+◌, ◌≤◌, ◌≡◌, ◌∙◌, ◌⊎◌, inl, inr, ap, refl, String, ◌<>◌, ◌==◌, eq_iff, List, ◌∷◌,
  Option, none, some, Bool-cases,
}
use architecture_playground.Errors.{Err}
use architecture_playground.World.{World, M, Env, Result, now}
use architecture_playground.World.Laws.{
  Returns, Returns-map, Returns-bind, Returns-on_error, Returns-on_some, returns,
}
use architecture_playground.Queue.{Client, Codec, RedisTaskQueue, call, redis_close}
use architecture_playground.Queue.Testcontainer.{
  Event, closed, ended, logged, Bench, Container, Verdict, ready, skipped, fatal, background,
  max_retries, queue_name_of, note, find_url, make_queue, end_container, cleanup, setup_on,
  setup_redis_testcontainer,
}
use architecture_playground.Queue.Testcontainer.Shown.{
  Shown, events_of, dials_in, opens_in, closes_in, ends_in, sleep_in,
}
use architecture_playground.Queue.Testcontainer.Url.{FoundUrl, find_url_lem}
use architecture_playground.Queue.Testcontainer.Retries.{
  Linked, Linked-del, Linked-shut, Works, WorksOf, kept, make_queue_lem,
}

module _ {R : Type 0} (codec : Codec) (new_client : String → R → R × Result (Client R))
    (c : Container R) where
  -- The returned function closes the queue and ends the container, each once.
  cleanup_lem :
      (url name : String) (q : RedisTaskQueue (Bench R))
      → Linked new_client url name q
      → (w : World (Bench R))
      → Returns
          (cleanup codec new_client c (some q) name w)
          (λ _ w'. Shown 0 0 1 1 0 (events_of w) (events_of w'))
  unfolding cleanup call note redis_close end_container
  cleanup_lem url name q l w =
      let b1 = (q.client.del background name w.server).0 in
      let b2 = (q.client.shut b1).0 in
      let same : b2.events ≡ events_of w =
        Linked-shut new_client url name q l b1
        ∙ Linked-del new_client url name q l w.server background name in
      Returns-on_error (c.terminate b2.outside).1 _ _ _
        (λ e _. returns _ _ (logged_Shown (left_Shown same))) (λ _. returns _ _ (left_Shown same))
    where
      logged_Shown :
          {text : String} {es : List Event}
          → Shown 0 0 1 1 0 (events_of w) es
          → Shown 0 0 1 1 0 (events_of w) (logged text ∷ es)
      logged_Shown h = record {
        dialed = h.dialed;
        opened = h.opened;
        closed = h.closed;
        ended = h.ended;
        slept = h.slept;
      }

      left_Shown :
          {es : List Event} → es ≡ events_of w → Shown 0 0 1 1 0 (events_of w) (ended ∷ closed ∷ es)
      left_Shown e = record {
        dialed = omega (arith, ap dials_in e);
        opened = omega (arith, ap opens_in e);
        closed = omega (arith, ap closes_in e);
        ended = omega (arith, ap ends_in e);
        slept = omega (arith, ap sleep_in e);
      }

  -- What a test may be left with.
  pub record Usable (name : String) (es : List Event) (q : RedisTaskQueue (Bench R))
      (clean : M (Bench R) (Unit {0})) (w' : World (Bench R)) : Type 0 where
    pub url : String
    pub found : FoundUrl c url
    pub works : Works new_client url name q
    pub tries : ℕ
    pub lost : ℕ
    pub few : lost + tries ≤ 4
    pub shown : Shown (lost + tries + 1) (tries + 1) tries 0 5300 es (events_of w')
    pub cleans :
        (w1 : World (Bench R))
        → Returns (clean w1) (λ _ w2. Shown 0 0 1 1 0 (events_of w1) (events_of w2))

  abbrev pub Left :
      String
      → List Event
      → Verdict (RedisTaskQueue (Bench R) × M (Bench R) (Unit {0}))
      → World (Bench R)
      → Type 0
  Left name es (ready (q, clean)) w' = Usable name es q clean w'
  Left name es (skipped why) w' = ⊥
  Left name es (fatal why) w' =
      (tries lost : ℕ) × (lost + tries ≤ 5)
      × Shown (lost + tries) tries tries 1 5300 es (events_of w')

  setup_on_lem :
      (name : String) (w : World (Bench R))
      → Returns (setup_on codec new_client c name w) (Left name (events_of w))
  unfolding setup_on call note end_container
  setup_on_lem name w =
      Returns-bind (find_url c 3 0 none) _ w (find_url_lem c 3 0 none w) (λ r w1 (shown, found).
        elim (Bool-cases (r.0 == "")) [
          | inl empty ↦ rw empty (returns _ _ (0, 0, omega arith, in_all 0 0 (omega arith) shown))
          | inr url ↦
              let line =
                logged ("Redis container started at: " <> r.0 <> " (queue: " <> name <> ")") in
              let w2 = record w1 { server = record w1.server { events = line ∷ events_of w1 } } in
              rw url (
                Returns-bind (make_queue codec new_client r.0 name max_retries 0 none) _ w2
                  (make_queue_lem codec new_client r.0 name max_retries 0 none w2)
                  (λ m w3 h.
                    Returns-on_some m.0 _ _ w3
                      (λ missing. returns _ _ (
                        h.tries,
                        h.lost,
                        omega (arith, h.few),
                        in_all h.tries h.lost (omega arith)
                            (both h.tries h.lost (ap kept missing) refl shown h.shown),
                      ))
                      (λ q present.
                        let works = subst (WorksOf new_client r.0 name) present h.works in
                        let same =
                          Linked-del new_client r.0 name q works.linked w3.server background name in
                        returns _ _ (record {
                          url = r.0;
                          found = elim found [
                            | inl empty ↦ absurd (cc ((eq_iff r.0 "").1 empty, url))
                            | inr f ↦ f
                          ];
                          works = works;
                          tries = h.tries;
                          lost = h.lost;
                          few = omega (arith, h.few, ap kept present);
                          shown = both h.tries h.lost (ap kept present) same shown h.shown;
                          cleans = cleanup_lem r.0 name q works.linked;
                        }))))
        ])
    where
      both :
          (tries lost : ℕ) {text : String} {k k' : ℕ} {es es1 es2 es3 : List Event}
          → k ≡ k'
          → es3 ≡ es2
          → Shown 0 0 0 0 300 es es1
          → Shown (lost + tries + k) (tries + k) tries 0 5000 (logged text ∷ es1) es2
          → Shown (lost + tries + k') (tries + k') tries 0 5300 es es3
      both tries lost few same h h' = record {
        dialed = omega (arith, few, h.dialed, h'.dialed, ap dials_in same);
        opened = omega (arith, few, h.opened, h'.opened, ap opens_in same);
        closed = omega (arith, h.closed, h'.closed, ap closes_in same);
        ended = omega (arith, h.ended, h'.ended, ap ends_in same);
        slept = omega (arith, h.slept, h'.slept, ap sleep_in same);
      }

      in_all :
          (tries lost : ℕ) {sleep : ℕ} {es es' : List Event}
          → sleep ≤ 5300
          → Shown (lost + tries + 0) (tries + 0) tries 0 sleep es es'
          → Shown (lost + tries) tries tries 1 5300 es (ended ∷ es')
      in_all tries lost low h = record {
        dialed = omega (arith, h.dialed);
        opened = omega (arith, h.opened);
        closed = omega (arith, h.closed);
        ended = omega (arith, h.ended);
        slept = omega (arith, h.slept, low);
      }

module _ {R : Type 0} (codec : Codec) (new_client : String → R → R × Result (Client R)) where
  -- `redis.Run` reported an error; or it gave a container.
  abbrev pub Ends :
      Env
      → (R → R × (Option (Container R) × Option Err))
      → String
      → World (Bench R)
      → Verdict (RedisTaskQueue (Bench R) × M (Bench R) (Unit {0}))
      → World (Bench R)
      → Type 0
  Ends env run test w v w' =
      ((e : Err) × (why : String) × ((run w.server.outside).1.1 ≡ some e)
        × (v ≡ skipped why)
        × (events_of w' ≡ events_of w))
      ⊎ ((c : Container R) × ((run w.server.outside).1 ≡ (some c, none))
          × Left codec new_client c (queue_name_of test (env.time_at w.reads)) (events_of w) v w')

  -- Where `redis.Run` gives a container if it reports no error, and whatever else Docker, the
  -- container, the URL parser and Redis answer, the helper returns, after at most 5300 milliseconds
  -- of sleep. If `redis.Run` reports an error the test is skipped, and no container is told to
  -- terminate, nor one that was given with the error. If the test fails, the container was told once
  -- to terminate. Else the helper gives a queue named by the test and the time, on a URL that the
  -- container gave and a client that answered a Ping, and has not told the container to terminate;
  -- the function that it also gives closes the queue and tells the container to terminate, each
  -- once. Of at most five clients that were made, those of which `NewRedisTaskQueue` returned a
  -- queue were closed, each once, but for the one that is given; the others, whose first Ping
  -- failed, were not.
  pub setup_redis_testcontainer_lem :
      (env : Env) (run : R → R × (Option (Container R) × Option Err)) (test : String)
      (w : World (Bench R))
      → ((s : R) → (run s).1.1 ≡ none → (c : Container R) × ((run s).1.0 ≡ some c))
      → Returns (setup_redis_testcontainer codec new_client env run test w) (Ends env run test w)
  unfolding setup_redis_testcontainer call now
  setup_redis_testcontainer_lem env run test w gives =
      let started = (run w.server.outside).1 in
      Returns-on_error started.1 _ _ _ (λ e refused. returns _ _ (inl (e, _, refused, refl, refl)))
        (λ fine.
          let (c, given) = gives w.server.outside fine in
          Returns-on_some started.0 _ _ _ (λ missing. absurd (cc (missing, given)))
            (λ c' here.
              Returns-map
                (setup_on_lem codec new_client c' (queue_name_of test (env.time_at w.reads)) _)
                (λ v w' left.
                  inr (c', ap (λ o. (o, started.1)) here ∙ ap (λ o. (some c', o)) fine, left))))
