-- ===== src/Api/Health/Laws.antt =====
-- What the health check answers.
use architecture_playground.Base.{
  ℕ, true, ◌≡◌, refl, none, some, ◌==◌, if◌then◌else◌, Bool-cases, inl, inr,
}
use architecture_playground.World.{World, Env}
use architecture_playground.World.Laws.{Returns, returns, Quiet}
use architecture_playground.Registry.{HandlerRegistry}
use architecture_playground.Config.{Config}
use architecture_playground.Api.Writer.{Body, Response}
use architecture_playground.Api.Submit.{Request, Http}
use architecture_playground.Api.Health.{handle_health}

module _ {R : Type 0} (env : Env) (http : Http) (cfg : Config) (registry : HandlerRegistry R)
    (start_time : ℕ) (req : Request) (r : Response) (w : World R) where
  -- A health check answers 200, or 405 if it is not a GET, and only reads the clock.
  pub handle_health_lem :
      r.sent ≡ none
      → ((b : Body) → http.encodes b ≡ true)
      → Returns
          (handle_health env http cfg registry start_time req r w)
          (λ r' w'. Quiet w w' × (r'.sent ≡ some (if req.method == "GET" then 200 else 405)))
  unfolding handle_health
  handle_health_lem unsent encodable = elim (Bool-cases (req.method == "GET")) [
    | inl get ↦ rw get (
        rw encodable (
          returns _ _ (
            record {
              same_heap = refl;
              same_tasks = refl;
              same_next = refl;
              same_ids = refl;
              same_server = refl;
            },
            rw unsent refl,
          )))
    | inr other ↦ rw other (
        returns _ _ (
          record {
            same_heap = refl;
            same_tasks = refl;
            same_next = refl;
            same_ids = refl;
            same_server = refl;
          },
          rw unsent refl,
        ))
  ]
