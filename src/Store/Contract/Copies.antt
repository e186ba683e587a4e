-- ===== src/Store/Contract/Copies.antt =====
-- The copies that a client holds, and the memory store, have no object in common.
use architecture_playground.Base.{
  arith, ℕ, zero, suc, ◌+◌, ◌≡◌, eqb_iff, String, refl, List, [], ◌∷◌, some, lookup, insert,
  lookup-insert, Option-cases, Bool-cases, eqb, inl, inr,
}
use architecture_playground.Task.{Task}
use architecture_playground.World.{World, write_at}
use architecture_playground.World.Spares.{Unstored}
use architecture_playground.Store.View.{view, IsWellFormed}
use architecture_playground.Store.Contract.{element}

abbrev pub AllCopies : {R : Type 0} → World R → List ℕ → Type 0
AllCopies w [] = Unit
AllCopies w (p ∷ ps) = ((t : Task) × (w.heap p ≡ some t)) × Unstored w p × AllCopies w ps

pub AllCopies-element :
    {R : Type 0} (w : World R) (i : ℕ) (p : ℕ) (ps : List ℕ)
    → element i ps ≡ some p
    → AllCopies w ps
    → ((t : Task) × (w.heap p ≡ some t)) × Unstored w p
AllCopies-element w i p [] e h = absurd (ground (arith, e))
AllCopies-element w zero p (q ∷ ps) e h = ground (arith, e, h.0, h.1)
AllCopies-element w (suc i) p (q ∷ ps) e h = AllCopies-element w i p ps e h.2

module _ {R : Type 0} (w : World R) where
  -- The client, or the store, writes to an object.
  write_at_held :
      (p q : ℕ) (t u : Task) → w.heap p ≡ some u → (t' : Task) × (write_at w.heap q t p ≡ some t')
  write_at_held p q t u at = elim (Bool-cases (eqb q p)) [
    | inl same ↦ (t, rw same refl)
    | inr other ↦ (u, rw other at)
  ]

  pub AllCopies-write_at :
      (q : ℕ) (t : Task) (ps : List ℕ)
      → AllCopies w ps
      → AllCopies (record w { heap = write_at w.heap q t }) ps
  AllCopies-write_at q t [] h = tt
  AllCopies-write_at q t (p ∷ ps) ((u, at), out, h) =
      (write_at_held p q t u at, out, AllCopies-write_at q t ps h)

  -- An object that the store does not hold is written.
  module _ (v : IsWellFormed w) (p : ℕ) (t : Task) (old : Task) (at : w.heap p ≡ some old)
      (out : Unstored w p) where
    pub view-spare : (id : String) → view (record w { heap = write_at w.heap p t }) id ≡ view w id
    unfolding view
    view-spare id = elim (Option-cases (lookup id w.tasks)) [
      | inl e ↦ rw e refl
      | inr (q, e) ↦ rw e (ground (arith, out id, e, eqb_iff p q))
    ]

    pub spare-IsWellFormed : IsWellFormed (record w { heap = write_at w.heap p t })
    spare-IsWellFormed = record {
      stored = λ id q e. ground (arith, v.stored id q e, out id, e, eqb_iff p q);
      unused = λ q h. ground (arith, v.unused q h, at, eqb_iff p q);
    }

  -- A new object, which the store comes to hold or not.
  module _ (v : IsWellFormed w) (t : Task) where
    pub AllCopies-alloc :
        (ps : List ℕ)
        → AllCopies w ps
        → AllCopies (record w { heap = write_at w.heap w.next t; next = w.next + 1 }) ps
    AllCopies-alloc [] h = tt
    AllCopies-alloc (p ∷ ps) ((u, at), out, h) =
        ((u, ground (arith, at, v.unused w.next, eqb_iff w.next p)), out, AllCopies-alloc ps h)

    pub AllCopies-stored :
        (id : String) (ps : List ℕ)
        → AllCopies w ps
        → AllCopies
            (record w {
              heap = write_at w.heap w.next t;
              next = w.next + 1;
              tasks = insert id w.next w.tasks;
            })
            ps
    AllCopies-stored id [] h = tt
    AllCopies-stored id (p ∷ ps) ((u, at), out, h) = (
      (u, ground (arith, at, v.unused w.next, eqb_iff w.next p)),
      λ j e. ground (arith, out j, e, lookup-insert id j w.next w.tasks, at, v.unused w.next),
      AllCopies-stored id ps h,
    )
