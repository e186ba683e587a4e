-- ===== src/Api/Server/Routes.antt =====
-- The submission and the status query of the synchronous program, on every request.
use architecture_playground.Base.{
  arith, ℕ, true, ◌≡◌, ◌≢◌, Option, none, some, Option-cases, inl, inr,
}
use architecture_playground.Errors.{Err, task_error}
use architecture_playground.Task.{Task}
use architecture_playground.World.{World, Env}
use architecture_playground.World.Laws.{Returns, Returns-map}
use architecture_playground.Context.{Ctx}
use architecture_playground.Store.{memory_store}
use architecture_playground.Store.View.{view}
use architecture_playground.Registry.{HandlerRegistry}
use architecture_playground.Registry.Laws.{AllTame}
use architecture_playground.Runners.{synchronous}
use architecture_playground.Orchestrator.Settled.{
  IsSettled, Unique, next_id_fresh, Lasts, Lasts-trans, SameStore-Lasts, Quiet-Lasts,
  Submitted-Lasts,
}
use architecture_playground.Api.Writer.{Body, Response}
use architecture_playground.Api.Submit.{Request, Http, handle_submit, default_orchestrator}
use architecture_playground.Api.Submit.Laws.{Answered, handle_submit_refused}
use architecture_playground.Api.Submit.Cases.{Admits-cases}
use architecture_playground.Api.Submit.Sync.{Answers, handle_submit_sync}
use architecture_playground.Api.Status.{handle_task_status}
use architecture_playground.Api.Status.Laws.{
  handle_task_status_refused, handle_task_status_found, handle_task_status_missing,
}
use architecture_playground.Api.Status.Cases.{Asks-cases}

-- The state is settled, no task was lost or changed, and a status was sent.
abbrev pub Settles : {R : Type 0} → Env → World R → Response → World R → Type 0
Settles env w r w' = Lasts env w w' × (r.sent ≢ none)

Answers-sent : (t : Task) (e : Option Err) (r r' : Response) → Answers t e r r' → r'.sent ≢ none
Answers-sent t none r r' a h = ground (arith, a)
Answers-sent t (some (task_error x)) r r' a h = ground (arith, a)
Answers-sent t (some (Err.plain x)) r r' a h = ground (arith, a)

module _ {R : Type 0} (env : Env) (http : Http) (registry : HandlerRegistry R) (ctx : Ctx)
    (req : Request) (r : Response) (w : World R) (unsent : r.sent ≡ none)
    (s : IsSettled env w) where
  Answered-Settles :
      (code : ℕ) (r' : Response) (w' : World R) → Answered w code r' w' → Settles env w r' w'
  Answered-Settles code r' w' a = (Quiet-Lasts env w s w' a.0, λ h. ground (arith, a.1))

  pub submit_Settles :
      Unique env
      → ((b : Body) → http.encodes b ≡ true)
      → AllTame registry
      → Returns
          (handle_submit env http
            (default_orchestrator env memory_store (synchronous registry))
            ctx
            req
            r
            w)
          (Settles env w)
  submit_Settles unique encodable tame =
      let o = default_orchestrator env memory_store (synchronous registry) in
      elim (Admits-cases http req) [
        | inr refused ↦
            Returns-map (handle_submit_refused env http o ctx req r w unsent refused)
              (λ r' w' a. Answered-Settles 400 r' w' a)
        | inl (b, admits) ↦
            let fresh = next_id_fresh env w s unique in
            Returns-map
              (handle_submit_sync env http registry ctx b r w unsent encodable req admits s.valid
                fresh tame)
              (λ r' w' v. (
                (let kept =
                      Submitted-Lasts env w s b.type b.payload v.failure v.address v.returned unique
                        v.submitted in
                    Lasts-trans env w v.returned w' kept
                      (Quiet-Lasts env v.returned kept.settled w' v.quiet)),
                Answers-sent v.submitted.task v.failure r r' v.answers,
              ))
      ]

  pub status_Settles :
      ((b : Body) → http.encodes b ≡ true)
      → Returns
          (handle_task_status env http
            (default_orchestrator env memory_store (synchronous registry))
            req
            r
            w)
          (Settles env w)
  status_Settles encodable =
      let o = default_orchestrator env memory_store (synchronous registry) in
      let runner = synchronous registry in
      elim (Asks-cases req) [
        | inr refused ↦
            Returns-map (handle_task_status_refused env http o req r w unsent refused)
              (λ r' w' a. Answered-Settles 400 r' w' a)
        | inl (id, asks) ↦ elim (Option-cases (view w id)) [
          | inl missing ↦
              Returns-map
                (handle_task_status_missing env http runner req id r w asks s.valid unsent missing)
                (λ r' w' a. Answered-Settles 404 r' w' a)
          | inr (t, found) ↦
              Returns-map
                (handle_task_status_found env http runner req id r w asks s.valid unsent t found
                  (encodable _))
                (λ r' w' a. (SameStore-Lasts env w s w' a.2, λ h. ground (arith, a.0)))
        ]
      ]
