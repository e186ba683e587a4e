-- ===== src/Workers/Overlap/Lists.antt =====
-- Tasks and flights taken out of a list, or put in the place of a like one.
use architecture_playground.Base.{
  arith, ℕ, ◌≤◌, String, ◌≡◌, ◌≢◌, ◌∙◌, ◌⊎◌, inl, inr, refl, sym, ap, List, [], ◌∷◌, ◌++◌,
}
use architecture_playground.Task.{Task}
use architecture_playground.World.{World}
use architecture_playground.World.Spares.{Spares}
use architecture_playground.Queue.Fifo.{Resembles}
use architecture_playground.Workers.Tracked.{IsQueued, AllQueued, Among, Absent, Distinct}
use architecture_playground.Store.Advance.{Held}
use architecture_playground.Workers.Overlap.{Flight, copies, IsHeld, AllHeld, Elsewhere, Apart}

module _ (c : Task) (ys : List Task) where
  pub AllQueued-out :
      (v : Held) (xs : List Task)
      → AllQueued v (xs ++ c ∷ ys)
      → IsQueued v c × AllQueued v (xs ++ ys)
  AllQueued-out v [] h = h
  AllQueued-out v (x ∷ xs) h = let (q, rest) = AllQueued-out v xs h.1 in (q, (h.0, rest))

  pub Among-out :
      (i : String) (xs : List Task) → Among i (xs ++ c ∷ ys) → (c.id ≡ i) ⊎ Among i (xs ++ ys)
  Among-out i [] h = h
  Among-out i (x ∷ xs) (inl e) = inr (inl e)
  Among-out i (x ∷ xs) (inr h) = elim (Among-out i xs h) [ inl e ↦ inl e | inr k ↦ inr (inr k) ]

  Absent-out :
      (i : String) (xs : List Task) → Absent i (xs ++ c ∷ ys) → (c.id ≢ i) × Absent i (xs ++ ys)
  Absent-out i [] h = h
  Absent-out i (x ∷ xs) h = let (k, rest) = Absent-out i xs h.1 in (k, (h.0, rest))

  pub Distinct-out :
      (xs : List Task) → Distinct (xs ++ c ∷ ys) → Absent c.id (xs ++ ys) × Distinct (xs ++ ys)
  Distinct-out [] h = h
  Distinct-out (x ∷ xs) h =
      let (k, rest) = Absent-out x.id xs h.0 in
      let (a, d) = Distinct-out xs h.1 in ((λ e. k (sym e), a), (rest, d))

-- A copy in the place of the task that it resembles.
module _ (t c : Task) (like : Resembles t c) (ys : List Task) where
  pub AllQueued-copy :
      (v : Held) (xs : List Task) → AllQueued v (xs ++ t ∷ ys) → AllQueued v (xs ++ c ∷ ys)
  AllQueued-copy v [] h =
      ((like.same_status ∙ h.0.0, (h.0.1.0, ap v like.same_id ∙ h.0.1.1, h.0.1.2)), h.1)
  AllQueued-copy v (x ∷ xs) h = (h.0, AllQueued-copy v xs h.1)

  pub Among-copy : (i : String) (xs : List Task) → Among i (xs ++ t ∷ ys) → Among i (xs ++ c ∷ ys)
  Among-copy i [] (inl e) = inl (like.same_id ∙ e)
  Among-copy i [] (inr h) = inr h
  Among-copy i (x ∷ xs) (inl e) = inl e
  Among-copy i (x ∷ xs) (inr h) = inr (Among-copy i xs h)

  Absent-copy : (i : String) (xs : List Task) → Absent i (xs ++ t ∷ ys) → Absent i (xs ++ c ∷ ys)
  Absent-copy i [] h = (λ e. h.0 (sym like.same_id ∙ e), h.1)
  Absent-copy i (x ∷ xs) h = (h.0, Absent-copy i xs h.1)

  Absent-same : (zs : List Task) → Absent t.id zs → Absent c.id zs
  Absent-same [] h = tt
  Absent-same (z ∷ zs) h = (λ e. h.0 (e ∙ like.same_id), Absent-same zs h.1)

  pub Distinct-copy : (xs : List Task) → Distinct (xs ++ t ∷ ys) → Distinct (xs ++ c ∷ ys)
  Distinct-copy [] h = (Absent-same ys h.0, h.1)
  Distinct-copy (x ∷ xs) h = (Absent-copy x.id xs h.0, Distinct-copy xs h.1)

pub copies-append : (fs gs : List Flight) → copies (fs ++ gs) ≡ copies fs ++ copies gs
copies-append [] gs = refl
copies-append (f ∷ fs) gs = ap (λ ts. f.copy ∷ ts) (copies-append fs gs)

module _ {R : Type 0} (w w' : World R) where
  -- What spares the objects outside the store leaves the flights as they are.
  pub AllHeld-Spares : (fs : List Flight) → Spares w w' → AllHeld w fs → AllHeld w' fs
  AllHeld-Spares [] sp h = tt
  AllHeld-Spares (f ∷ fs) sp h = (
    record {
      points = h.0.points;
      held = sp.same_object f.at h.0.low h.0.out ∙ h.0.held;
      low = omega (arith, h.0.low, sp.grown);
      out = sp.unstored f.at h.0.low h.0.out;
    },
    AllHeld-Spares fs sp h.1,
  )

pub AllHeld-append :
    {R : Type 0} (w : World R) (fs : List Flight) (f : Flight)
    → AllHeld w fs
    → IsHeld w f
    → AllHeld w (fs ++ f ∷ [])
AllHeld-append w [] f h k = (k, tt)
AllHeld-append w (g ∷ fs) f h k = (h.0, AllHeld-append w fs f h.1 k)

pub AllHeld-out :
    {R : Type 0} (w : World R) (fs : List Flight) (f : Flight) (gs : List Flight)
    → AllHeld w (fs ++ f ∷ gs)
    → IsHeld w f × AllHeld w (fs ++ gs)
AllHeld-out w [] f gs h = h
AllHeld-out w (e ∷ fs) f gs h = let (k, rest) = AllHeld-out w fs f gs h.1 in (k, (h.0, rest))

-- An address beyond the objects in flight.
pub Elsewhere-low :
    {R : Type 0} (w : World R) (p : ℕ) (fs : List Flight)
    → w.next ≤ p
    → AllHeld w fs
    → Elsewhere p fs
Elsewhere-low w p [] k h = tt
Elsewhere-low w p (f ∷ fs) k h =
    (λ e. absurd (omega (arith, e, h.0.low)), Elsewhere-low w p fs k h.1)

Elsewhere-append :
    (p : ℕ) (fs : List Flight) (f : Flight) → Elsewhere p fs → f.at ≢ p → Elsewhere p (fs ++ f ∷ [])
Elsewhere-append p [] f h k = (k, tt)
Elsewhere-append p (g ∷ fs) f h k = (h.0, Elsewhere-append p fs f h.1 k)

pub Apart-append :
    (fs : List Flight) (f : Flight) → Apart fs → Elsewhere f.at fs → Apart (fs ++ f ∷ [])
Apart-append [] f h k = (tt, tt)
Apart-append (g ∷ fs) f h k =
    (Elsewhere-append g.at fs f h.0 (λ e. k.0 (sym e)), Apart-append fs f h.1 k.1)

Elsewhere-out :
    (p : ℕ) (fs : List Flight) (f : Flight) (gs : List Flight)
    → Elsewhere p (fs ++ f ∷ gs)
    → (f.at ≢ p) × Elsewhere p (fs ++ gs)
Elsewhere-out p [] f gs h = h
Elsewhere-out p (e ∷ fs) f gs h = let (k, rest) = Elsewhere-out p fs f gs h.1 in (k, (h.0, rest))

pub Apart-out :
    (fs : List Flight) (f : Flight) (gs : List Flight)
    → Apart (fs ++ f ∷ gs)
    → Elsewhere f.at (fs ++ gs) × Apart (fs ++ gs)
Apart-out [] f gs h = h
Apart-out (e ∷ fs) f gs h =
    let (k, rest) = Elsewhere-out e.at fs f gs h.0 in
    let (a, d) = Apart-out fs f gs h.1 in ((λ i. k (sym i), a), (rest, d))
