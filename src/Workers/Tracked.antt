-- ===== src/Workers/Tracked.antt =====
-- The asynchronous program between its steps: every stored task waits in the queue or is over.
use mathlib.Core.Path.{subst}
use architecture_playground.Base.{
  arith, ℕ, ◌<◌, String, ◌≡◌, ◌≢◌, ◌∙◌, ◌⊎◌, refl, sym, fun_ext, true, List, [], ◌∷◌, ◌++◌, none,
  some, ◌==◌, eq_iff, Bool-cases, Option-cases, inl, inr,
}
use architecture_playground.Task.{Task, queued, is_final}
use architecture_playground.World.{World, Env}
use architecture_playground.Store.Advance.{Held, With}
use architecture_playground.Store.View.{view, IsWellFormed}
use architecture_playground.Store.Quiet.{SameStore}
use architecture_playground.Queue.Laws.{Kept}
use architecture_playground.Orchestrator.Settled.{Unique}

-- A task that waits, and that the store holds as queued under the same ID.
abbrev pub IsQueued : Held → Task → Type 0
IsQueued v t = (t.status ≡ queued) × ((u : Task) × (v t.id ≡ some u) × (u.status ≡ queued))

abbrev pub AllQueued : Held → List Task → Type 0
AllQueued v [] = Unit
AllQueued v (t ∷ ts) = IsQueued v t × AllQueued v ts

abbrev pub Among : String → List Task → Type 0
Among id [] = ⊥
Among id (t ∷ ts) = (t.id ≡ id) ⊎ Among id ts

abbrev pub Absent : String → List Task → Type 0
Absent id [] = Unit
Absent id (t ∷ ts) = (t.id ≢ id) × Absent id ts

abbrev pub Distinct : List Task → Type 0
Distinct [] = Unit
Distinct (t ∷ ts) = Absent t.id ts × Distinct ts

-- The task ts wait, each once and held as queued; every other task of the store is done or failed;
-- and all IDs were issued.
pub record IsTracked {R : Type 0} (env : Env) (Waits : R → List Task → Type 0) (ts : List Task)
    (w : World R) : Type 0 where
  pub waits : Waits w.server ts
  pub valid : IsWellFormed w
  pub all_queued : AllQueued (view w) ts
  pub distinct : Distinct ts
  pub covered :
      (id : String) (u : Task)
      → view w id ≡ some u
      → (is_final u.status ≡ true) ⊎ ((u.status ≡ queued) × Among id ts)
  pub issued :
      (id : String) (u : Task) → view w id ≡ some u → (k : ℕ) × (k < w.ids) × (id ≡ env.uuid_at k)

pub Absent-of_none :
    (v : Held) (id : String) (ts : List Task) → AllQueued v ts → v id ≡ none → Absent id ts
Absent-of_none v id [] h e = tt
Absent-of_none v id (t ∷ ts) h e = (λ same. cc (h.0.1.1, e, same), Absent-of_none v id ts h.1 e)

pub AllQueued-With :
    (v v' : Held) (id : String) (u : Task) (ts : List Task)
    → With v id u v'
    → Absent id ts
    → AllQueued v ts
    → AllQueued v' ts
AllQueued-With v v' id u [] with_u h q = tt
AllQueued-With v v' id u (t ∷ ts) with_u h q = (
  (q.0.0, (q.0.1.0, ground (arith, with_u t.id, eq_iff id t.id, h.0, q.0.1.1), q.0.1.2)),
  AllQueued-With v v' id u ts with_u h.1 q.1,
)

pub AllQueued-append :
    (v : Held) (ts : List Task) (t : Task)
    → AllQueued v ts
    → IsQueued v t
    → AllQueued v (ts ++ t ∷ [])
AllQueued-append v [] t h q = (q, tt)
AllQueued-append v (u ∷ ts) t h q = (h.0, AllQueued-append v ts t h.1 q)

pub Among-append : (id : String) (ts us : List Task) → Among id ts → Among id (ts ++ us)
Among-append id [] us h = absurd h
Among-append id (t ∷ ts) us (inl e) = inl e
Among-append id (t ∷ ts) us (inr h) = inr (Among-append id ts us h)

pub Among-last : (t : Task) (ts : List Task) → Among t.id (ts ++ t ∷ [])
Among-last t [] = inl refl
Among-last t (u ∷ ts) = inr (Among-last t ts)

Absent-append :
    (id : String) (ts : List Task) (t : Task) → Absent id ts → t.id ≢ id → Absent id (ts ++ t ∷ [])
Absent-append id [] t h k = (k, tt)
Absent-append id (u ∷ ts) t h k = (h.0, Absent-append id ts t h.1 k)

pub Distinct-append :
    (ts : List Task) (t : Task) → Distinct ts → Absent t.id ts → Distinct (ts ++ t ∷ [])
Distinct-append [] t h k = (tt, tt)
Distinct-append (u ∷ ts) t h k =
    (Absent-append u.id ts t h.0 (λ e. k.0 (sym e)), Distinct-append ts t h.1 k.1)

pub AllQueued-same :
    (v v' : Held) (ts : List Task) → ((j : String) → v' j ≡ v j) → AllQueued v ts → AllQueued v' ts
AllQueued-same v v' ts same h = subst (λ z. AllQueued z ts) (sym (fun_ext same)) h

module _ {R : Type 0} (env : Env) (Waits : R → List Task → Type 0) (ts : List Task) (w : World R)
    (s : IsTracked env Waits ts w) where
  -- The next ID is new.
  pub next_id_new : Unique env → view w (env.uuid_at w.ids) ≡ none
  next_id_new unique = elim (Option-cases (view w (env.uuid_at w.ids))) [
    | inl e ↦ e
    | inr (t, e) ↦
        let (k, low, same) = s.issued (env.uuid_at w.ids) t e in
        absurd (omega (arith, low, unique w.ids k same))
  ]

  -- IDs stay issued where one that was issued now holds another task.
  pub issued_With :
      (w' : World R) (id : String) (u : Task)
      → With (view w) id u (view w')
      → ((k : ℕ) × (k < w'.ids) × (id ≡ env.uuid_at k))
      → ((k : ℕ) → k < w.ids → k < w'.ids)
      → (j : String) (t : Task) → view w' j ≡ some t
      → (k : ℕ) × (k < w'.ids) × (j ≡ env.uuid_at k)
  issued_With w' id u with_u known more j t e = elim (Bool-cases (id == j)) [
    | inl same ↦ (known.0, known.1, sym ((eq_iff id j).0 same) ∙ known.2)
    | inr other ↦
        let (k, low, is) = s.issued j t (sym (rw other at (with_u j)) ∙ e) in (k, more k low, is)
  ]

  -- What leaves the store and the queue as they are, and issues no ID.
  pub same-IsTracked :
      (w' : World R)
      → Waits w'.server ts
      → IsWellFormed w'
      → ((id : String) → view w' id ≡ view w id)
      → w'.ids ≡ w.ids
      → IsTracked env Waits ts w'
  same-IsTracked w' waits valid same_view same_ids = record {
    waits = waits;
    valid = valid;
    all_queued = AllQueued-same (view w) (view w') ts same_view s.all_queued;
    distinct = s.distinct;
    covered = λ id u e. s.covered id u (sym (same_view id) ∙ e);
    issued = λ id u e.
        let (k, low, same) = s.issued id u (sym (same_view id) ∙ e) in
        (k, omega (arith, low, same_ids), same);
  }

  pub SameStore-IsTracked : (w' : World R) → SameStore w w' → IsTracked env Waits ts w'
  SameStore-IsTracked w' f =
      same-IsTracked w' (subst (λ r. Waits r ts) (sym f.same_server) s.waits) f.valid f.same_view
        f.same_ids

  pub Kept-IsTracked : (w' : World R) → Waits w'.server ts → Kept w w' → IsTracked env Waits ts w'
  unfolding view
  Kept-IsTracked w' waits k =
      same-IsTracked w' waits
        (record {
          stored = λ id p e. ground (arith, k.same_heap, k.same_tasks, s.valid.stored id p);
          unused = λ p h. ground (arith, k.same_heap, k.same_next, s.valid.unused p);
        })
        (λ id. ground (arith, k.same_heap, k.same_tasks)) k.same_ids
