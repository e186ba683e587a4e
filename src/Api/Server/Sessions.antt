-- ===== src/Api/Server/Sessions.antt =====
-- What a client sees that submits a task and asks for it later.
use architecture_playground.Base.{
  arith, ℕ, String, ◌<>◌, chars, ◌≡◌, ◌≢◌, refl, List, [], ◌∷◌, Option, some, eq_refl,
}
use architecture_playground.Errors.{Err}
use architecture_playground.Task.{Task, status_text}
use architecture_playground.World.{World, M, Env, pure, ◌>>=◌}
use architecture_playground.World.Laws.{Returns}
use architecture_playground.Context.{Ctx}
use architecture_playground.Store.{memory_store}
use architecture_playground.Store.View.{view}
use architecture_playground.Registry.{HandlerRegistry}
use architecture_playground.Runners.{synchronous}
use architecture_playground.Execution.Workflow.Sync.{Outcome}
use architecture_playground.Config.{Config}
use architecture_playground.Orchestrator.Settled.{
  IsSettled, next_id_fresh, Lasts, Lasts-trans, Quiet-Lasts, SameStore-Lasts, Submitted-Lasts,
}
use architecture_playground.Api.Path.Laws.{NoSlash, path_parts-tasks}
use architecture_playground.Api.Writer.{Response, new_response, task_status_response}
use architecture_playground.Api.Submit.{
  Request, SubmitRequest, Http, handle_submit, default_orchestrator,
}
use architecture_playground.Api.Submit.Laws.{Admits}
use architecture_playground.Api.Submit.Sync.{Answers, handle_submit_sync}
use architecture_playground.Api.Status.{handle_task_status}
use architecture_playground.Api.Status.Laws.{Asks, handle_task_status_found}
use architecture_playground.Api.Server.{Mux, Visit, new_server, serve_all}
use architecture_playground.Api.Server.Laws.{dependencies, IsServed, serve_all_lem}

-- The request for the status of a task.
abbrev pub asking : String → Request
asking id = record { method = "GET"; path = "/tasks/" <> id; body = [] }

asking-Asks : (id : String) → NoSlash (chars id) → id ≢ "" → Asks (asking id) id
asking-Asks id plain given = record {
  get = refl;
  named = rw (path_parts-tasks id plain given) refl;
  given = given;
}

module _ {R : Type 0} (env : Env) (http : Http) (mux : Mux) (registry : HandlerRegistry R)
    (cfg : Config) (start_time : ℕ) where
  -- A submission, any requests of other clients, and the query for the task with the given ID.
  abbrev pub session : Ctx → Request → List Visit → String → M R (Response × Response)
  session ctx req visits id = do
    answer ←
        handle_submit env http (default_orchestrator env memory_store (synchronous registry)) ctx
          req new_response
    others ←
        serve_all env (new_server env http mux start_time (dependencies env registry cfg)) visits
    later ←
        handle_task_status env http (default_orchestrator env memory_store (synchronous registry))
          (asking id) new_response
    pure (answer, later)

  -- The answers to both requests are about one task, which is over.
  pub record IsConsistent (id : String) (answer later : Response) : Type 0 where
    pub task : Task
    pub failure : Option Err
    pub same_id : task.id ≡ id
    pub outcome : Outcome failure task
    pub answers : Answers task failure new_response answer
    pub found : later.sent ≡ some 200
    pub told : later.written ≡ task_status_response id (status_text task.status) ∷ []

  -- From a settled state a client that submits an acceptable request, and asks for the task under the
  -- ID that it was given after any other requests were served, gets both answers; the second has the
  -- status 200 and tells how the execution ended that the first one reported: done, or failed.
  pub session_lem :
      IsServed env http mux registry
      → (ctx : Ctx) (req : Request) (s : SubmitRequest) → Admits http req s
      → (visits : List Visit) (w : World R) → IsSettled env w
      → NoSlash (chars (env.uuid_at w.ids))
      → env.uuid_at w.ids ≢ ""
      → Returns
          (session ctx req visits (env.uuid_at w.ids) w)
          (λ rs w'. Lasts env w w' × IsConsistent (env.uuid_at w.ids) rs.0 rs.1)
  session_lem h ctx req s admits visits w settled plain given =
      let id = env.uuid_at w.ids in
      let a =
        handle_submit_sync env http registry ctx s new_response w refl h.encodable req admits
          settled.valid (next_id_fresh env w settled h.unique) h.tame in
      let v = a.holds in
      let sub = v.submitted in
      let f =
        Submitted-Lasts env w settled s.type s.payload v.failure v.address v.returned h.unique
          sub in
      let f1 =
        Lasts-trans env w v.returned a.world f
          (Quiet-Lasts env v.returned f.settled a.world v.quiet) in
      let b = serve_all_lem env http mux registry cfg start_time h visits a.world f1.settled in
      let stored : view v.returned id ≡ some sub.task = ground (arith, sub.stored id, eq_refl id) in
      let kept : view b.world id ≡ some sub.task =
        b.holds.0.lasting id sub.task
          ((Quiet-Lasts env v.returned f.settled a.world v.quiet).lasting id sub.task stored) in
      let c =
        handle_task_status_found env http (synchronous registry) (asking id) id new_response b.world
          (asking-Asks id plain given) b.holds.0.settled.valid refl sub.task kept (h.encodable _) in
      record {
        value = (a.value, c.value);
        world = c.world;
        run = ground (arith, a.run, b.run, c.run);
        holds = (
          Lasts-trans env w b.world c.world (Lasts-trans env w a.world b.world f1 b.holds.0)
              (SameStore-Lasts env b.world b.holds.0.settled c.world c.holds.2),
          record {
            task = sub.task;
            failure = v.failure;
            same_id = sub.same_id;
            outcome = sub.outcome;
            answers = v.answers;
            found = c.holds.0;
            told = c.holds.1;
          },
        );
      }
