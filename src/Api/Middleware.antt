-- ===== src/Api/Middleware.antt =====
-- api/middleware/logging.go. The duration of a request is that between two readings of the
-- monotonic clock.
pub mod Laws
use architecture_playground.Base.{
  ℕ, ◌-◌, String, ◌==◌, List, [], ◌∷◌, Option, none, some, if◌then◌else◌,
}
use architecture_playground.Base.Int.{pos}
use architecture_playground.Errors.{Fields, nil, field, text}
use architecture_playground.World.{M, Env, pure, ◌>>=◌, ◌>>◌, now, on_some}
use architecture_playground.Logger.{log_http}
use architecture_playground.Api.Writer.{Response}
use architecture_playground.Api.Submit.{Request}

abbrev pub Handler : Type 0 → Type 0
Handler R = Request → Response → M R Response

-- What a request also carries, for the log.
pub record Caller : Type 0 where
  pub remote_addr : String
  pub user_agent : String

abbrev pub client_fields : Caller → Fields
client_fields c =
    field "remote_addr" (text c.remote_addr) (field "user_agent" (text c.user_agent) nil)

module _ {R : Type 0} (env : Env) where
  unfoldable pub logging_middleware : Handler R → Caller → Handler R
  unfolding now log_http
  logging_middleware next client req r = do
    start_time ← now env
    r ← next req r
    t ← now env
    log_http env req.method req.path r.status_code (pos (t - start_time)) (client_fields client)
    pure r
