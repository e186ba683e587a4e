-- ===== src/Api/Status/Laws.antt =====
-- What the status handler answers, over the memory store.
use architecture_playground.Base.{
  arith, String, true, ◌≡◌, ◌≢◌, ◌∙◌, refl, none, some, ◌∷◌, eq_iff, ◌==◌, Bool-cases, Option-cases,
  inl, inr,
}
use architecture_playground.Errors.{nil, field, text}
use architecture_playground.Task.{Task, status_text}
use architecture_playground.World.{World, Env}
use architecture_playground.World.Laws.{Returns}
use architecture_playground.Logger.Laws.{log_info-Quiet}
use architecture_playground.Store.{memory_store}
use architecture_playground.Store.View.{view, IsWellFormed}
use architecture_playground.Store.Quiet.{
  SameStore, SameStore-trans, SameStore-Quiet, view-Quiet, IsWellFormed-Quiet,
}
use architecture_playground.Runners.{Runner}
use architecture_playground.Orchestrator.Laws.{get_task_status_found, get_task_status_missing}
use architecture_playground.Api.Path.{path_parts}
use architecture_playground.Api.Writer.{Response, task_status_response}
use architecture_playground.Api.Submit.{
  Request, Orchestrator, Http, default_orchestrator, not_allowed,
}
use architecture_playground.Api.Submit.Laws.{
  Answered, Quiet-trans, respond_with_error_lem, Returns-by,
}
use architecture_playground.Api.Status.{
  task_id_of, answer_status, handle_task_status, invalid_url, id_required,
}

-- A request that asks for the status of a task.
pub record Asks (req : Request) (id : String) : Type 0 where
  pub get : req.method ≡ "GET"
  pub named : task_id_of (path_parts req.path) ≡ some id
  pub given : id ≢ ""

module _ {R : Type 0} (env : Env) (http : Http) (orch : Orchestrator R) (req : Request)
    (r : Response) (w : World R) where
  -- A request that is not a GET, or whose path does not name a task, answers 400, without the
  -- orchestrator: the tasks and the server stay.
  pub handle_task_status_refused :
      r.sent ≡ none
      → ((id : String) → Asks req id → ⊥)
      → Returns (handle_task_status env http orch req r w) (Answered w 400)
  unfolding handle_task_status
  handle_task_status_refused unsent h = elim (Bool-cases (req.method == "GET")) [
    | inr a ↦
        Returns-by (ground arith) (respond_with_error_lem env http.encodes not_allowed r unsent w)
    | inl a ↦ elim (Option-cases (task_id_of (path_parts req.path))) [
      | inl b ↦
          Returns-by (ground arith) (respond_with_error_lem env http.encodes invalid_url r unsent w)
      | inr (id, b) ↦ elim (Bool-cases (id == "")) [
        | inl c ↦
            Returns-by (ground arith)
              (respond_with_error_lem env http.encodes id_required r unsent w)
        | inr c ↦ absurd (
            h id (record {
              get = (eq_iff req.method "GET").0 a;
              named = b;
              given = ground (arith, eq_iff id "");
            }))
      ]
    ]
  ]

  asked :
      (id : String)
      → Asks req id
      → handle_task_status env http orch req r w ≡ answer_status env http orch req id r w
  unfolding handle_task_status
  asked id a = ground (arith, eq_iff req.method "GET", eq_iff id "", a.get, a.named)

module _ {R : Type 0} (env : Env) (http : Http) (runner : Runner R) (req : Request) (id : String)
    (r : Response) (w : World R) (asks : Asks req id) (valid : IsWellFormed w)
    (unsent : r.sent ≡ none) where
  -- A request for the status of a stored task, whose response can be encoded, answers 200 with its
  -- ID and status, and changes neither the store nor the server.
  pub handle_task_status_found :
      (t : Task)
      → view w id ≡ some t
      → http.encodes (task_status_response id (status_text t.status)) ≡ true
      → Returns
          (handle_task_status env http (default_orchestrator env memory_store runner) req r w)
          (λ r' w'.
            (r'.sent ≡ some 200)
            × (r'.written ≡ task_status_response id (status_text t.status) ∷ r.written)
            × SameStore w w')
  unfolding answer_status view
  handle_task_status_found t h encodable =
      let o = default_orchestrator env memory_store runner in
      let a =
        log_info-Quiet env "task status request"
          (field "http_method" (text req.method)
            (field "http_path" (text req.path) (field "task_id" (text id) nil)))
          w in
      let b =
        get_task_status_found id a.world (IsWellFormed-Quiet valid a.holds) t
          (view-Quiet a.holds id ∙ h) in
      Returns-by (asked env http o req r w id asks) (record {
        value = record r {
          content_type = "application/json";
          sent = some 200;
          written = task_status_response id (status_text t.status) ∷ r.written;
        };
        world = b.world;
        run = ground (arith, unsent, encodable, a.run, b.run, b.holds.0);
        holds = (refl, refl, SameStore-trans (SameStore-Quiet valid a.holds) b.holds.1);
      })

  -- A request for an unknown task answers 404, and the tasks and the server stay.
  pub handle_task_status_missing :
      view w id ≡ none
      → Returns
          (handle_task_status env http (default_orchestrator env memory_store runner) req r w)
          (Answered w 404)
  unfolding answer_status
  handle_task_status_missing h =
      let o = default_orchestrator env memory_store runner in
      let a =
        log_info-Quiet env "task status request"
          (field "http_method" (text req.method)
            (field "http_path" (text req.path) (field "task_id" (text id) nil)))
          w in
      let b =
        get_task_status_missing id a.world (IsWellFormed-Quiet valid a.holds)
          (view-Quiet a.holds id ∙ h) in
      let c = respond_with_error_lem env http.encodes b.holds.0 r unsent a.world in
      Returns-by (asked env http o req r w id asks) (record {
        value = c.value;
        world = c.world;
        run = ground (arith, a.run, b.run, c.run, b.holds.1, b.holds.3);
        holds = (Quiet-trans a.holds c.holds.0, ground arith, ground arith);
      })
