-- ===== src/Api/Submit/Cases.antt =====
-- A submission request is let through or refused.
use mathlib.Core.Path.{subst}
use architecture_playground.Base.{
  arith, len, ◌≡◌, refl, length, ltb, eq_iff, ◌==◌, ◌⊎◌, inl, inr, Bool-cases,
}
use architecture_playground.World.{Result, ok, err}
use architecture_playground.Api.Submit.{
  Request, SubmitRequest, Http, max_body_size, max_payload_size, max_type_len,
}
use architecture_playground.Api.Submit.Laws.{IsChecked, Admits}

IsChecked-cases : (s : SubmitRequest) → IsChecked s ⊎ (IsChecked s → ⊥)
IsChecked-cases s = elim (Bool-cases (s.type == "")) [
  | inl a ↦ inr (λ c. c.typed ((eq_iff s.type "").0 a))
  | inr a ↦ elim (Bool-cases (ltb max_type_len (len s.type))) [
    | inl b ↦ inr (λ c. ground (arith, c.type_short))
    | inr b ↦ elim (Bool-cases (ltb max_payload_size (length s.payload))) [
      | inl d ↦ inr (λ c. ground (arith, c.payload_short))
      | inr d ↦ inl (record {
        typed = ground (arith, eq_iff s.type "");
        type_short = ground arith;
        payload_short = ground arith;
      })
    ]
  ]
]

-- Whether a request is let through, and with which body, can be told.
pub Admits-cases :
    (http : Http) (req : Request)
    → ((s : SubmitRequest) × Admits http req s) ⊎ ((s : SubmitRequest) → Admits http req s → ⊥)
Admits-cases http req = go (http.decode_submit max_body_size req.body) refl
  where
    go :
        (o : Result SubmitRequest)
        → http.decode_submit max_body_size req.body ≡ o
        → ((s : SubmitRequest) × Admits http req s) ⊎ ((s : SubmitRequest) → Admits http req s → ⊥)
    go (err x) e = inr (λ s a. cc (e, a.decoded))
    go (ok s) e = elim (Bool-cases (req.method == "POST")) [
      | inr other ↦ inr (λ s' a. ground (arith, eq_iff req.method "POST", a.post))
      | inl post ↦ elim (IsChecked-cases s) [
        | inl c ↦
            inl (s, record { post = (eq_iff req.method "POST").0 post; decoded = e; checked = c })
        | inr no_c ↦ inr (λ s' a. no_c (subst IsChecked (cc (e, a.decoded)) a.checked))
      ]
    ]
