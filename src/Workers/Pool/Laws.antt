-- ===== src/Workers/Pool/Laws.antt =====
-- Stopping a pool stops every worker, for good.
use mathlib.Core.Path.{subst}
use architecture_playground.Base.{
  arith, ℕ, zero, suc, ◌<◌, ◌≤◌, ◌≡◌, refl, Bool, true, false, List, [], ◌∷◌, ◌++◌, Option, none,
  some, eqb, eqb_iff, ltb, sym, ap, Bool-cases, inl, inr, not, if◌then◌else◌,
}
use architecture_playground.Workers.Pool.{
  Goroutine, Spot, selecting, dequeuing, processing, WorkerPool, Phase, idle, cancelling, closing,
  waiting, spawn, start, signalled, stop_step, mark, cancel, ends, all_returned, goroutine, without,
  put, Action, Notice, graceful_notice, forced_notice, set_phase, end_stop, set_shutdown_timeout,
  sets_timeout, starts, stops, wait_ends, times_out, parent_cancels, returns, works, takes_task,
  dequeue_fails, wakes, finishes, act, on_goroutine, at_select, at_dequeue, at_task, moved_to,
}

-- Every goroutine runs one of the first n workers.
abbrev pub Within : ℕ → List Goroutine → Type 0
Within n [] = Unit
Within n (g ∷ gs) = (g.worker < n) × Within n gs

-- The channels of the workers before this one are closed.
abbrev pub ClosedBelow : ℕ → WorkerPool → Type 0
ClosedBelow n p = (i : ℕ) → i < n → p.stop_closed i ≡ true

-- The context of the cancel function is cancelled.
abbrev pub Cancelled : Option ℕ → WorkerPool → Type 0
Cancelled none p = Unit
Cancelled (some c) p = p.cancelled c ≡ true

abbrev Progress : Phase → WorkerPool → Type 0
Progress idle p = Unit
Progress (cancelling f) p = Unit
Progress (closing f i) p = Cancelled f p × ClosedBelow i p
Progress (waiting f) p = Cancelled f p × ClosedBelow p.worker_count p

pub record IsSound (p : WorkerPool) : Type 0 where
  pub within : Within p.worker_count p.running
  pub progress : (c : ℕ) → Progress (p.phase c) p

spawn-Within : (n m c : ℕ) (gs : List Goroutine) → m ≤ n → Within n gs → Within n (spawn c m ++ gs)
spawn-Within n zero c gs h w = w
spawn-Within n (suc m) c gs h w = (omega arith, spawn-Within n m c gs (omega arith) w)

without-Within : (n : ℕ) (gs : List Goroutine) (k : ℕ) → Within n gs → Within n (without gs k)
without-Within n [] k w = tt
without-Within n (g ∷ gs) zero w = w.1
without-Within n (g ∷ gs) (suc k) w = (w.0, without-Within n gs k w.1)

put-Within :
    (n : ℕ) (gs : List Goroutine) (k : ℕ) (spot : Spot) → Within n gs → Within n (put gs k spot)
put-Within n [] k spot w = tt
put-Within n (g ∷ gs) zero spot w = w
put-Within n (g ∷ gs) (suc k) spot w = (w.0, put-Within n gs k spot w.1)

pub goroutine-Within :
    (n : ℕ) (gs : List Goroutine) (k : ℕ) (g : Goroutine)
    → Within n gs
    → goroutine gs k ≡ some g
    → g.worker < n
goroutine-Within n [] k g w h = absurd (ground arith)
goroutine-Within n (f ∷ gs) zero g w h = ground arith
goroutine-Within n (f ∷ gs) (suc k) g w h = goroutine-Within n gs k g w.1 h

-- What each action keeps: the number of workers, every closed channel and every cancelled context.
pub record Keeps (p p' : WorkerPool) : Type 0 where
  pub count : p'.worker_count ≡ p.worker_count
  pub closed : (i : ℕ) → p.stop_closed i ≡ true → p'.stop_closed i ≡ true
  pub cancelled : (c : ℕ) → p.cancelled c ≡ true → p'.cancelled c ≡ true

-- What holds of the state after an action, if there is one.
abbrev pub Then : Option WorkerPool → (WorkerPool → Type 0) → Type 0
Then none P = Unit
Then (some p) P = P p

abbrev pub Kept : WorkerPool → WorkerPool → Type 0
Kept p p' = Keeps p p' × IsSound p'

mark_closed :
    (i n : ℕ) (p : WorkerPool)
    → ClosedBelow i p
    → (j : ℕ) → j < suc i
    → mark i p.stop_closed j ≡ true
mark_closed i n p h j l = ground (arith, eqb_iff i j, h j)

Cancelled-Keeps : (f : Option ℕ) (p q : WorkerPool) → Keeps p q → Cancelled f p → Cancelled f q
Cancelled-Keeps none p q k h = tt
Cancelled-Keeps (some c) p q k h = k.cancelled c h

Progress-Keeps : (f : Phase) (p q : WorkerPool) → Keeps p q → Progress f p → Progress f q
Progress-Keeps idle p q k h = tt
Progress-Keeps (cancelling c) p q k h = tt
Progress-Keeps (closing f i) p q k h = (Cancelled-Keeps f p q k h.0, λ j l. k.closed j (h.1 j l))
Progress-Keeps (waiting f) p q k h =
    (Cancelled-Keeps f p q k h.0, λ j l. k.closed j (h.1 j (ground (arith, l, k.count))))

cancel-Cancelled :
    (f : Option ℕ) (p q : WorkerPool) → q.cancelled ≡ cancel f p.cancelled → Cancelled f q
cancel-Cancelled none p q e = tt
cancel-Cancelled (some c) p q e = ground (arith, ap (λ h. h c) e, eqb_iff c c)

cancel-kept : (f : Option ℕ) (marks : ℕ → Bool) (c : ℕ) → marks c ≡ true → cancel f marks c ≡ true
cancel-kept none marks c h = h
cancel-kept (some d) marks c h = ground (arith, h)

still_closed :
    (p q : WorkerPool)
    → q.worker_count ≡ p.worker_count
    → q.stop_closed ≡ p.stop_closed
    → q.cancelled ≡ p.cancelled
    → Keeps p q
still_closed p q n e f = record {
  count = n;
  closed = λ i h. cc (e, h);
  cancelled = λ c h. cc (f, h);
}

-- One caller moves on.
moved-Kept :
    (c : ℕ) (f : Phase) (p q : WorkerPool)
    → IsSound p
    → Keeps p q
    → q.running ≡ p.running
    → q.phase ≡ set_phase c f p.phase
    → Progress f q
    → Kept p q
moved-Kept c f p q s keeps running step new = (
  keeps,
  record {
    within = rw (running, keeps.count) s.within;
    progress = λ d. elim (Bool-cases (eqb c d)) [
      | inl same ↦
          let at_f : q.phase d ≡ f = rw (step, same) refl in
          subst (λ g. Progress g q) (sym at_f) new
      | inr other ↦
          let at_old : q.phase d ≡ p.phase d = rw (step, other) refl in
          subst (λ g. Progress g q) (sym at_old)
            (Progress-Keeps (p.phase d) p q keeps (s.progress d))
    ];
  },
)

-- No caller moves.
same-Kept :
    (p q : WorkerPool)
    → IsSound p
    → Keeps p q
    → q.phase ≡ p.phase
    → Within p.worker_count q.running
    → Kept p q
same-Kept p q s keeps f w = (
  keeps,
  record {
    within = rw (keeps.count) w;
    progress = λ c.
        subst (λ g. Progress g q) (sym (ap (λ h. h c) f))
          (Progress-Keeps (p.phase c) p q keeps (s.progress c));
  },
)

stop_step-Kept :
    (f : Phase) (c : ℕ) (p : WorkerPool)
    → IsSound p
    → Progress f p
    → Then (stop_step f c p) (Kept p)
stop_step-Kept idle c p s h =
    moved-Kept c (cancelling p.cancel_fn) p _ s (still_closed p _ refl refl refl) refl refl tt
stop_step-Kept (cancelling f) c p s h =
    moved-Kept c (closing f 0) p _ s
      (record { count = refl; closed = λ i k. k; cancelled = cancel-kept f p.cancelled }) refl refl
      (cancel-Cancelled f p _ refl, λ i l. absurd (omega (arith, l)))
stop_step-Kept (closing f i) c p s h = elim (Bool-cases (ltb i p.worker_count)) [
  | inl e ↦ rw e (
      let keeps : Keeps p _ = record {
        count = refl;
        closed = λ j k. ground (arith, k);
        cancelled = λ d k. k;
      } in
      moved-Kept c (closing f (suc i)) p _ s keeps refl refl
        (Cancelled-Keeps f p _ keeps h.0, mark_closed i i p h.1))
  | inr e ↦ rw e (
      moved-Kept c (waiting f) p _ s (still_closed p _ refl refl refl) refl refl (
        Cancelled-Keeps f p _ (still_closed p _ refl refl refl) h.0,
        λ j l. h.1 j (ground (arith, l)),
      ))
]
stop_step-Kept (waiting f) c p s h = tt

ends-Kept :
    (f : Phase) (b : Bool) (n : Notice) (c : ℕ) (p : WorkerPool)
    → IsSound p
    → Then (ends f b n c p) (Kept p)
ends-Kept idle b n c p s = tt
ends-Kept (cancelling f) b n c p s = tt
ends-Kept (closing f i) b n c p s = tt
ends-Kept (waiting f) true n c p s =
    moved-Kept c idle p (end_stop n c p) s (still_closed p _ refl refl refl) refl refl tt
ends-Kept (waiting f) false n c p s = tt

if-Kept : (b : Bool) (p q : WorkerPool) → Kept p q → Then (if b then some q else none) (Kept p)
if-Kept true p q h = h
if-Kept false p q h = tt

at_select-Kept :
    (s : Spot) (b : Bool) (p q : WorkerPool) → Kept p q → Then (at_select s b q) (Kept p)
at_select-Kept selecting b p q h = if-Kept b p q h
at_select-Kept dequeuing b p q h = tt
at_select-Kept processing b p q h = tt

at_dequeue-Kept :
    (s : Spot) (b : Bool) (p q : WorkerPool) → Kept p q → Then (at_dequeue s b q) (Kept p)
at_dequeue-Kept selecting b p q h = tt
at_dequeue-Kept dequeuing b p q h = if-Kept b p q h
at_dequeue-Kept processing b p q h = tt

at_task-Kept : (s : Spot) (p q : WorkerPool) → Kept p q → Then (at_task s q) (Kept p)
at_task-Kept selecting p q h = tt
at_task-Kept dequeuing p q h = tt
at_task-Kept processing p q h = h

on_goroutine-Kept :
    (p : WorkerPool) (o : Option Goroutine) (f : Goroutine → Option WorkerPool)
    → ((g : Goroutine) → Then (f g) (Kept p))
    → Then (on_goroutine o f) (Kept p)
on_goroutine-Kept p none f h = tt
on_goroutine-Kept p (some g) f h = h g

module _ (p : WorkerPool) (h : IsSound p) where
  running-Kept :
      (gs : List Goroutine) → Within p.worker_count gs → Kept p (record p { running = gs })
  running-Kept gs w = same-Kept p _ h (still_closed p _ refl refl refl) refl w

  moved_to-Kept : (k : ℕ) (spot : Spot) → Kept p (moved_to p k spot)
  moved_to-Kept k spot =
      running-Kept (put p.running k spot) (put-Within p.worker_count p.running k spot h.within)

  -- Every action keeps the number of workers, the closed channels, the cancelled contexts and the
  -- soundness of the state.
  pub act-Kept : (a : Action) → Then (act a p) (Kept p)
  unfolding act
  act-Kept starts =
      same-Kept p (start p) h (still_closed p _ refl refl refl) refl
        (spawn-Within p.worker_count p.worker_count p.contexts p.running (omega arith) h.within)
  act-Kept (sets_timeout t) =
      same-Kept p (set_shutdown_timeout t p) h (still_closed p _ refl refl refl) refl h.within
  act-Kept (stops c) = stop_step-Kept (p.phase c) c p h (h.progress c)
  act-Kept (wait_ends c) = ends-Kept (p.phase c) (all_returned p.running) graceful_notice c p h
  act-Kept (times_out c) = ends-Kept (p.phase c) true (forced_notice p) c p h
  act-Kept (parent_cancels n) =
      same-Kept p (record p { cancelled = mark n p.cancelled }) h
        (record {
          count = refl;
          closed = λ i e. e;
          cancelled = λ c e. cancel-kept (some n) p.cancelled c e;
        })
        refl h.within
  act-Kept (returns k) = on_goroutine-Kept p (goroutine p.running k) _ (λ g.
      at_select-Kept g.spot (signalled p g) p _
        (running-Kept (without p.running k) (without-Within p.worker_count p.running k h.within)))
  act-Kept (works k) =
      on_goroutine-Kept p (goroutine p.running k) _
        (λ g. at_select-Kept g.spot (not (signalled p g)) p _ (moved_to-Kept k dequeuing))
  act-Kept (takes_task k) =
      on_goroutine-Kept p (goroutine p.running k) _
        (λ g. at_dequeue-Kept g.spot true p _ (moved_to-Kept k processing))
  act-Kept (dequeue_fails k) =
      on_goroutine-Kept p (goroutine p.running k) _
        (λ g. at_dequeue-Kept g.spot true p _ (moved_to-Kept k selecting))
  act-Kept (wakes k) =
      on_goroutine-Kept p (goroutine p.running k) _
        (λ g. at_dequeue-Kept g.spot (p.cancelled g.context) p _ (moved_to-Kept k selecting))
  act-Kept (finishes k) =
      on_goroutine-Kept p (goroutine p.running k) _
        (λ g. at_task-Kept g.spot p _ (moved_to-Kept k selecting))
