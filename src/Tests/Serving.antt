-- ===== src/Tests/Serving.antt =====
-- Runs of the whole process, with IDs that are never repeated.
use mathlib.Core.Path.{◌≡◌, refl, ap}
use architecture_playground.Base.{
  arith, ℕ, zero, suc, String, true, ◌==◌, if◌then◌else◌, List, [], ◌∷◌, length, none, some,
}
use architecture_playground.World.{Env}
use architecture_playground.World.Laws.{Returns}
use architecture_playground.Handlers.{fired}
use architecture_playground.Config.{load_config}
use architecture_playground.Orchestrator.Settled.{IsSettled, Lasts}
use architecture_playground.Api.Writer.{write_header}
use architecture_playground.Api.Submit.{Request}
use architecture_playground.Api.Server.{Mux, Visit, listening, new_server, serve_all}
use architecture_playground.Api.Server.Laws.{IsServed, AllSent, dependencies, serve_all_lem}
use architecture_playground.Api.Server.Sessions.{session, IsConsistent, session_lem}
use architecture_playground.Main.{Outside, handlers, main}
use architecture_playground.Main.Laws.{
  new_world, new_world-IsSettled, handlers-AllTame, EndsBy, main_lem,
}
use architecture_playground.Tests.Setup.{Server, ctx, json}
use architecture_playground.Tests.Answering.{
  http, submitted, posted-Admits, differ, posted, asked, browser,
}
use architecture_playground.Tests.Configuring.{default, unset}

unfoldable pub strokes : ℕ → String
strokes zero = ""
strokes (suc n) = String.◌∷◌ "x" (strokes n)

abbrev rest_of : String → String
rest_of String.[] = ""
rest_of (String.◌∷◌ c s) = s

pub strokes_injective : (m n : ℕ) → strokes m ≡ strokes n → m ≡ n
unfolding strokes
strokes_injective zero zero e = refl
strokes_injective zero (suc n) e = cc
strokes_injective (suc m) zero e = cc
strokes_injective (suc m) (suc n) e = ap suc (strokes_injective m n (ap rest_of e))

abbrev pub tick : Env
tick = record { time_at = λ n. n; uuid_at = strokes; marshals = λ e. true; level = 0 }

abbrev mux : Mux
mux = record {
  pattern_of = λ patterns path.
      if path == "/submit"
      then some "/submit"
      else if path == "/health"
      then some "/health"
      else if path == "/tasks/x"
      then some "/tasks/"
      else none;
  fallback = λ req r. write_header 404 (record r { sent = none });
}

abbrev pub outside : Outside
outside = record { os = unset; payloads = json; select = λ c d. fired; http = http; mux = mux }

abbrev visit : Request → Visit
visit req = record { ctx = ctx; caller = browser; request = req }

abbrev visits : List Visit
visits = visit posted ∷ visit (asked "/tasks/x") ∷ visit (asked "/health") ∷ visit (asked "/") ∷ []

tick-IsServed : IsServed tick http mux (handlers {R = Server} tick outside)
tick-IsServed = record {
  unique = strokes_injective;
  encodable = λ b. refl;
  tame = handlers-AllTame tick outside;
  fallback = λ req r e. cc;
}

serve_all_lem_example :
    Returns
      (serve_all tick
        (new_server tick http mux 0 (dependencies tick (handlers tick outside) default))
        visits
        (new_world tt))
      (λ rs w'. Lasts tick (new_world tt) w' × (length rs ≡ 4) × AllSent rs)
serve_all_lem_example =
    serve_all_lem tick http mux (handlers tick outside) default 0 tick-IsServed visits
      (new_world tt) (new_world-IsSettled tick tt)

main_lem_example :
    Returns
      (main tick outside (listening visits) none (new_world tt))
      (λ x w'. IsSettled tick w' × EndsBy (load_config unset) (listening visits) none x)
main_lem_example =
    main_lem tick outside
      (record { unique = strokes_injective; encodable = λ b. refl; fallback = λ req r e. cc })
      (listening visits) none tt

-- IDs that are not empty.
abbrev named : Env
named = record tick { uuid_at = λ n. strokes (suc n) }

named-IsServed : IsServed named http mux (handlers {R = Server} named outside)
named-IsServed = record {
  unique = λ m n e. omega (arith, strokes_injective (suc m) (suc n) e);
  encodable = λ b. refl;
  tame = handlers-AllTame named outside;
  fallback = λ req r e. cc;
}

session_lem_example :
    Returns
      (session named http mux
        (handlers named outside)
        default
        0
        ctx
        posted
        visits
        "x"
        (new_world tt))
      (λ rs w'.
        Lasts named (new_world tt) w'
        × IsConsistent named http mux (handlers {R = Server} named outside) default 0 "x" rs.0 rs.1)
unfolding strokes
session_lem_example =
    session_lem named http mux (handlers named outside) default 0 named-IsServed ctx posted
      submitted posted-Admits visits (new_world tt) (new_world-IsSettled named tt) (refl, tt)
      (differ "x" "" refl)
