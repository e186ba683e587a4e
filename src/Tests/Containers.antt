-- ===== src/Tests/Containers.antt =====
-- The container of the integration tests: one that answers, and one that gives no address.
use architecture_playground.Base.{ℕ, ◌≡◌, refl, String, ◌<>◌, List, [], ◌∷◌, Option, none, some}
use architecture_playground.Errors.{Err, plain}
use architecture_playground.World.{World, Result, ok, err}
use architecture_playground.World.Laws.{Returns}
use architecture_playground.Queue.{Client}
use architecture_playground.Queue.Testcontainer.{
  Event, ended, slept, Bench, Container, fatal, setup_on, make_queue, setup_redis_testcontainer,
}
use architecture_playground.Queue.Testcontainer.Shown.{events_of, dials_in, closes_in}
use architecture_playground.Queue.Testcontainer.Setup.{Ends, setup_redis_testcontainer_lem}
use architecture_playground.Main.Laws.{new_world}
use architecture_playground.Tests.Serving.{tick}
use architecture_playground.Tests.Redis.{Values, client, codec}

abbrev up : Container Values
up = record {
  connection_string = λ s. (s, ok "redis://here:1");
  host = λ s. (s, ok "here");
  mapped_port = λ name s. (s, ok "1");
  terminate = λ s. (s, none);
}

abbrev lost : Container Values
lost = record up {
  connection_string = λ s. (s, err (plain "no address"));
  host = λ s. (s, err (plain "no host"));
}

abbrev new_client : String → Values → Values × Result (Client Values)
new_client url s = (s, ok client)

-- A server that answers no Ping.
abbrev silent : String → Values → Values × Result (Client Values)
silent url s = (s, ok (record client { ping = λ s. (s, some (plain "no answer")) }))

abbrev bench : World (Bench Values)
bench = new_world (record { outside = []; events = [] })

-- Three attempts, and the container is ended.
gives_up :
    setup_on codec new_client lost "q" bench
    ≡ some (
      fatal (
          "Failed to get Redis connection details after 3 attempts: "
          <> "failed to get host (attempt 3): no host"),
      record bench {
        server = record { outside = []; events = ended ∷ slept 100 ∷ slept 100 ∷ slept 100 ∷ [] };
      },
    )
unfolding setup_on architecture_playground.Base.show_nat
gives_up = refl

abbrev events_after : {A : Type 0} → Option (A × World (Bench Values)) → List Event
events_after none = []
events_after (some (a, w)) = events_of w

-- Five clients are made, and none is closed.
clients_left :
    (dials_in (events_after (make_queue codec silent "redis://here:1/1" "q" 5 0 none bench)) ≡ 5)
    × (closes_in (events_after (make_queue codec silent "redis://here:1/1" "q" 5 0 none bench)) ≡ 0)
unfolding make_queue
clients_left = (refl, refl)

abbrev run : Values → Values × (Option (Container Values) × Option Err)
run s = (s, (some up, none))

setup_redis_testcontainer_lem_example :
    Returns
      (setup_redis_testcontainer codec new_client tick run "TestQueue" bench)
      (Ends codec new_client tick run "TestQueue" bench)
setup_redis_testcontainer_lem_example =
    setup_redis_testcontainer_lem codec new_client tick run "TestQueue" bench (λ s _. (up, refl))
