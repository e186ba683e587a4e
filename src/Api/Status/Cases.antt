-- ===== src/Api/Status/Cases.antt =====
-- A status request asks for a task or is refused.
use architecture_playground.Base.{
  arith, String, eq_iff, ◌==◌, ◌⊎◌, inl, inr, Bool-cases, Option-cases,
}
use architecture_playground.Api.Path.{path_parts}
use architecture_playground.Api.Submit.{Request}
use architecture_playground.Api.Status.{task_id_of}
use architecture_playground.Api.Status.Laws.{Asks}

-- Whether a request asks for a task, and for which, can be told.
pub Asks-cases : (req : Request) → ((id : String) × Asks req id) ⊎ ((id : String) → Asks req id → ⊥)
Asks-cases req = elim (Bool-cases (req.method == "GET")) [
  | inr other ↦ inr (λ id a. ground (arith, eq_iff req.method "GET", a.get))
  | inl get ↦ elim (Option-cases (task_id_of (path_parts req.path))) [
    | inl e ↦ inr (λ id a. cc (e, a.named))
    | inr (id, e) ↦ elim (Bool-cases (id == "")) [
      | inl empty ↦ inr (λ j a. a.given (cc (e, a.named, (eq_iff id "").0 empty)))
      | inr full ↦ inl (
        id,
        record {
          get = (eq_iff req.method "GET").0 get;
          named = e;
          given = ground (arith, eq_iff id "");
        },
      )
    ]
  ]
]
