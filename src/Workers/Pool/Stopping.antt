-- ===== src/Workers/Pool/Stopping.antt =====
-- What a call of `Stop` achieves, whatever the interleaving.
use mathlib.Core.Path.{subst}
use architecture_playground.Base.{
  arith, ℕ, ◌≡◌, refl, Bool, true, false, List, [], ◌∷◌, Option, none, some, Option-cases, inl, inr,
  ◌∙◌,
}
use architecture_playground.Workers.Pool.{
  Goroutine, Spot, selecting, dequeuing, processing, WorkerPool, waiting, new_worker_pool,
  signalled, goroutine, Action, wait_ends, returns, works, wakes, finishes, act, interleave, chain,
  end_stop, graceful_notice, at_select,
}
use architecture_playground.Workers.Pool.Laws.{
  Within, ClosedBelow, Cancelled, IsSound, goroutine-Within, Keeps, Then, Kept, act-Kept,
}

Keeps-trans : (p q r : WorkerPool) → Keeps p q → Keeps q r → Keeps p r
Keeps-trans p q r f g = record {
  count = g.count ∙ f.count;
  closed = λ i e. g.closed i (f.closed i e);
  cancelled = λ c e. g.cancelled c (f.cancelled c e);
}

Then-chain :
    (o : Option WorkerPool) (f : WorkerPool → Option WorkerPool) (P Q : WorkerPool → Type 0)
    → Then o P
    → ((p : WorkerPool) → P p → Then (f p) Q)
    → Then (chain o f) Q
Then-chain none f P Q h k = tt
Then-chain (some p) f P Q h k = k p h

Then-map :
    (o : Option WorkerPool) (P Q : WorkerPool → Type 0)
    → Then o P
    → ((p : WorkerPool) → P p → Q p)
    → Then o Q
Then-map none P Q h k = tt
Then-map (some p) P Q h k = k p h

interleave-Kept :
    (actions : List Action) (p : WorkerPool) → IsSound p → Then (interleave actions p) (Kept p)
unfolding interleave
interleave-Kept [] p h = (record { count = refl; closed = λ i e. e; cancelled = λ c e. e }, h)
interleave-Kept (a ∷ rest) p h =
    Then-chain (act a p) (interleave rest) (Kept p) (Kept p) (act-Kept p h a) (λ q k.
      Then-map (interleave rest q) (Kept q) (Kept p) (interleave-Kept rest q k.1)
        (λ r m. (Keeps-trans p q r k.0 m.0, m.1)))

Then-of :
    (o : Option WorkerPool) (P : WorkerPool → Type 0) (p : WorkerPool) → o ≡ some p → Then o P → P p
Then-of o P p e h = rw e at h

new-IsSound : (n : ℕ) → IsSound (new_worker_pool n)
new-IsSound n = record { within = tt; progress = λ c. tt }

-- A goroutine returns, once it is back at its `select`.
abbrev pub leaves : Spot → List Action → List Action
leaves selecting rest = returns 0 ∷ rest
leaves dequeuing rest = wakes 0 ∷ returns 0 ∷ rest
leaves processing rest = finishes 0 ∷ returns 0 ∷ rest

-- The first goroutine of the list returns, and so on; then the wait of a caller is over.
abbrev pub leaving : ℕ → List Goroutine → List Action
leaving c [] = wait_ends c ∷ []
leaving c (g ∷ gs) = leaves g.spot (leaving c gs)

-- The context of every goroutine that is blocked in `Dequeue` is that of the cancel function.
abbrev pub BlockedIn : Option ℕ → List Goroutine → Type 0
BlockedIn f [] = Unit
BlockedIn f (g ∷ gs) = (g.spot ≡ dequeuing → f ≡ some g.context) × BlockedIn f gs

at_select_off : (s : Spot) (b : Bool) (q : WorkerPool) → b ≡ false → at_select s b q ≡ none
at_select_off selecting b q e = rw e refl
at_select_off dequeuing b q e = refl
at_select_off processing b q e = refl

module _ (c : ℕ) (f : Option ℕ) (p : WorkerPool) (h : ClosedBelow p.worker_count p)
    (cancelled : Cancelled f p) (stopping : p.phase c ≡ waiting f) where
  leave :
      (gs : List Goroutine)
      → Within p.worker_count gs
      → BlockedIn f gs
      → interleave (leaving c gs) (record p { running = gs })
        ≡ some (end_stop graceful_notice c (record p { running = [] }))
  unfolding interleave act
  leave [] w b = rw stopping refl
  leave (g ∷ gs) w b = from g.spot refl (leave gs w.1 b.1)
    where
      shut : signalled p g ≡ true
      shut = ground (arith, h g.worker w.0)

      from :
          (s : Spot)
          → g.spot ≡ s
          → interleave (leaving c gs) (record p { running = gs })
            ≡ some (end_stop graceful_notice c (record p { running = [] }))
          → interleave (leaves g.spot (leaving c gs)) (record p { running = g ∷ gs })
            ≡ some (end_stop graceful_notice c (record p { running = [] }))
      from selecting e rest = rw (e, shut) rest
      from dequeuing e rest =
          let awake : p.cancelled g.context ≡ true = subst (λ o. Cancelled o p) (b.0 e) cancelled in
          rw (e, awake) (rw shut rest)
      from processing e rest = rw (e, shut) rest

module _ (n c : ℕ) (f : Option ℕ) (before : List Action) (p : WorkerPool)
    (reached : interleave before (new_worker_pool n) ≡ some p)
    (stopping : p.phase c ≡ waiting f) where
  reached-Kept : Kept (new_worker_pool n) p
  reached-Kept =
      Then-of (interleave before (new_worker_pool n)) (Kept (new_worker_pool n)) p reached
        (interleave-Kept before (new_worker_pool n) (new-IsSound n))

  signalled_all : Cancelled f p × ClosedBelow p.worker_count p
  signalled_all = rw stopping at (reached-Kept.1.progress c)

  -- Once a call of `Stop` waits for the goroutines, no goroutine of the pool begins another round of
  -- work, even if the pool is started again.
  pub stop_for_good :
      (after : List Action) (q : WorkerPool)
      → interleave after p ≡ some q
      → (k : ℕ) → act (works k) q ≡ none
  unfolding act
  stop_for_good after q later k =
      let (kept, sound) =
        Then-of (interleave after p) (Kept p) q later (interleave-Kept after p reached-Kept.1) in
      elim (Option-cases (goroutine q.running k)) [
        | inl e ↦ rw e refl
        | inr (g, e) ↦
            let low = goroutine-Within q.worker_count q.running k g sound.within e in
            let shut =
              kept.closed g.worker (signalled_all.1 g.worker (ground (arith, kept.count, low))) in
            rw e (at_select_off g.spot _ _ (ground (arith, shut)))
      ]

  -- Once a call of `Stop` waits, and if every goroutine that is blocked in `Dequeue` is of the start
  -- whose cancel function the call read, every goroutine can return without another task from the
  -- queue: it ends with its task, or its `Dequeue` ends with its context, and then it finds a signal.
  -- When all have returned, the call ends as a graceful one, whatever other callers of `Stop` did.
  pub stop_can_end :
      BlockedIn f p.running
      → interleave (leaving c p.running) p
        ≡ some (end_stop graceful_notice c (record p { running = [] }))
  stop_can_end blocked =
      leave c f p signalled_all.1 signalled_all.0 stopping p.running reached-Kept.1.within blocked
