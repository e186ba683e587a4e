-- ===== src/Logger/Laws.antt =====
-- Levels, what the filter lets through, and that logging changes the log and the clock alone.
use architecture_playground.Base.{arith, ℕ, String, refl, ◌≤◌, ◌≡◌, ◌∷◌, true}
use architecture_playground.Base.Int.{ℤ}
use architecture_playground.Errors.{Fields}
use architecture_playground.World.{World, Env, LogEntry, json}
use architecture_playground.World.Laws.{Returns, returns, Quiet}
use architecture_playground.Logger.{
  log_task, log_error, log_info, log_http, http_fields, made_entry, info,
}

module _ {R : Type 0} (env : Env) (message : String) (f : Fields) (w : World R) where
  pub log_task-Quiet : (id : String) → Returns (log_task env id message f w) (λ _ w'. Quiet w w')
  unfolding log_task
  log_task-Quiet id = returns _ _ (record {
    same_heap = refl;
    same_tasks = refl;
    same_next = refl;
    same_ids = refl;
    same_server = refl;
  })

  pub log_error-Quiet : Returns (log_error env message f w) (λ _ w'. Quiet w w')
  unfolding log_error
  log_error-Quiet = returns _ _ (record {
    same_heap = refl;
    same_tasks = refl;
    same_next = refl;
    same_ids = refl;
    same_server = refl;
  })

  pub log_info-Quiet : Returns (log_info env message f w) (λ _ w'. Quiet w w')
  unfolding log_info
  log_info-Quiet = returns _ _ (record {
    same_heap = refl;
    same_tasks = refl;
    same_next = refl;
    same_ids = refl;
    same_server = refl;
  })

module _ {R : Type 0} (env : Env) (f : Fields) (w : World R) where
  pub log_http-Quiet :
      (method path : String) (status : ℕ) (elapsed : ℤ)
      → Returns (log_http env method path status elapsed f w) (λ _ w'. Quiet w w')
  unfolding log_http
  log_http-Quiet method path status elapsed = returns _ _ (record {
    same_heap = refl;
    same_tasks = refl;
    same_next = refl;
    same_ids = refl;
    same_server = refl;
  })

module _ {R : Type 0} (env : Env) (w : World R) (shown : env.level ≤ info)
    (encodable : (e : LogEntry) → env.marshals e ≡ true) where
  -- A request's entry is the newest line, if the level is shown and the entry can be encoded.
  pub log_http_lem :
      (method path : String) (status : ℕ) (elapsed : ℤ) (f : Fields)
      → Returns (log_http env method path status elapsed f w) (λ _ w'.
        Quiet w w'
        × (w'.output
            ≡ json (
                made_entry
                  (env.time_at w.reads)
                  info
                  "HTTP request completed"
                  (http_fields method path status elapsed f))
              ∷ w.output))
  unfolding log_http
  log_http_lem method path status elapsed f =
      let e =
        made_entry (env.time_at w.reads) info "HTTP request completed"
          (http_fields method path status elapsed f) in
      returns _ _ (
        record {
          same_heap = refl;
          same_tasks = refl;
          same_next = refl;
          same_ids = refl;
          same_server = refl;
        },
        ground (arith, shown, encodable e),
      )
