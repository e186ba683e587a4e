-- ===== src/Api/Server/Laws.antt =====
-- The server of the synchronous program answers every request and keeps every task settled.
use architecture_playground.Base.{
  arith, ℕ, ◌+◌, suc, sym, ap, true, ◌≡◌, ◌≢◌, ◌∙◌, refl, List, [], ◌∷◌, length, none, ◌==◌,
  Bool-cases, Option-cases, inl, inr,
}
use architecture_playground.World.{World, Env}
use architecture_playground.World.Laws.{Returns, Returns-map, Quiet-refl, ticked}
use architecture_playground.Context.{Ctx}
use architecture_playground.Store.{memory_store}
use architecture_playground.Registry.{HandlerRegistry}
use architecture_playground.Registry.Laws.{AllTame}
use architecture_playground.Runners.{synchronous}
use architecture_playground.Config.{Config}
use architecture_playground.Orchestrator.Settled.{
  IsSettled, Unique, Lasts, Lasts-refl, Lasts-trans, Quiet-Lasts,
}
use architecture_playground.Api.Writer.{Body, Response, new_response}
use architecture_playground.Api.Submit.{Request, Http, default_orchestrator}
use architecture_playground.Api.Submit.Laws.{Returns-by}
use architecture_playground.Api.Health.Laws.{handle_health_lem}
use architecture_playground.Api.Middleware.Laws.{logging_middleware-Quiet}
use architecture_playground.Api.Server.{
  Mux, Dependencies, Visit, patterns, route, new_router, new_server, serve_all,
}
use architecture_playground.Api.Server.Routes.{Settles, submit_Settles, status_Settles}

-- A status was sent in each response.
abbrev pub AllSent : List Response → Type 0
AllSent [] = Unit
AllSent (r ∷ rs) = (r.sent ≢ none) × AllSent rs

-- What the server is made with, for the synchronous program.
abbrev pub dependencies : {R : Type 0} → Env → HandlerRegistry R → Config → Dependencies R
dependencies env registry cfg = record {
  orchestrator = default_orchestrator env memory_store (synchronous registry);
  registry = registry;
  config = cfg;
}

-- What the server relies on: IDs are not repeated, responses can be encoded, the handlers write only
-- their task's result, and the answer of net/http to a path without a route sends a status.
pub record IsServed {R : Type 0} (env : Env) (http : Http) (mux : Mux)
    (registry : HandlerRegistry R) : Type 0 where
  pub unique : Unique env
  pub encodable : (b : Body) → http.encodes b ≡ true
  pub tame : AllTame registry
  pub fallback : (req : Request) (r : Response) → (mux.fallback req r).sent ≢ none

module _ {R : Type 0} (env : Env) (http : Http) (mux : Mux) (registry : HandlerRegistry R)
    (cfg : Config) (start_time : ℕ) (h : IsServed env http mux registry) where
  route-Settles :
      (ctx : Ctx) (req : Request) (r : Response) (w : World R)
      → r.sent ≡ none
      → IsSettled env w
      → Returns
          (route env http mux (dependencies env registry cfg) ctx start_time req r w)
          (Settles env w)
  unfolding route
  route-Settles ctx req r w unsent s = elim (Option-cases (mux.pattern_of patterns req.path)) [
    | inl e ↦ rw e (record {
      value = mux.fallback req r;
      world = w;
      run = refl;
      holds = (Lasts-refl env w s, h.fallback req r);
    })
    | inr (pattern, e) ↦ elim (Bool-cases (pattern == "/submit")) [
      | inl a ↦
          Returns-by (ground (arith, e, a))
            (submit_Settles env http registry ctx req r w unsent s h.unique h.encodable h.tame)
      | inr a ↦ elim (Bool-cases (pattern == "/health")) [
        | inl b ↦ Returns-by (ground (arith, e, a, b)) (
            Returns-map
              (handle_health_lem env http cfg registry start_time req r w unsent h.encodable)
              (λ r' w' q. (Quiet-Lasts env w s w' q.0, λ k. ground (arith, q.1))))
        | inr b ↦
            Returns-by (ground (arith, e, a, b))
              (status_Settles env http registry ctx req r w unsent s h.encodable)
      ]
    ]
  ]

  handler_Settles :
      (v : Visit) (r : Response) (w : World R)
      → r.sent ≡ none
      → IsSettled env w
      → Returns
          ((new_server env http mux start_time (dependencies env registry cfg)).handler v r w)
          (Settles env w)
  unfolding new_router new_server
  handler_Settles v r w unsent s =
      let w1 = record w { reads = w.reads + 1 } in
      let s1 = Quiet-Lasts env w s w1 (ticked (Quiet-refl w)) in
      let a = route-Settles v.ctx v.request r w1 unsent s1.settled in
      Returns-map
        (logging_middleware-Quiet env
          (route env http mux (dependencies env registry cfg) v.ctx start_time) v.caller v.request r
          w a.value a.world a.run)
        (λ r' w' q. (
          Lasts-trans env w w1 w' s1 (
              Lasts-trans env w1 a.world w' a.holds.0
                (Quiet-Lasts env a.world a.holds.0.settled w' q.1)),
          λ k. a.holds.1 (ap (λ (x : Response). x.sent) (sym q.0) ∙ k),
        ))

  -- From a settled state every list of requests is served without a panic: there is an answer to
  -- each, each with a status; at the end the state is settled again, and every task that was stored is
  -- as it was.
  pub serve_all_lem :
      (visits : List Visit) (w : World R)
      → IsSettled env w
      → Returns
          (serve_all env
            (new_server env http mux start_time (dependencies env registry cfg))
            visits
            w)
          (λ rs w'. Lasts env w w' × (length rs ≡ length visits) × AllSent rs)
  unfolding serve_all
  serve_all_lem [] w s = record {
    value = [];
    world = w;
    run = refl;
    holds = (Lasts-refl env w s, refl, tt);
  }
  serve_all_lem (v ∷ rest) w s =
      let a = handler_Settles v new_response w refl s in
      let b = serve_all_lem rest a.world a.holds.0.settled in
      record {
        value = a.value ∷ b.value;
        world = b.world;
        run = ground (arith, a.run, b.run);
        holds = (
          Lasts-trans env w a.world b.world a.holds.0 b.holds.0,
          ap suc b.holds.1,
          (a.holds.1, b.holds.2),
        );
      }
