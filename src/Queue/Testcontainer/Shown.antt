-- ===== src/Queue/Testcontainer/Shown.antt =====
-- What the events of a test run tell: clients made, queues returned and closed, containers ended, time slept.
use architecture_playground.Base.{arith, ℕ, ◌+◌, ◌≤◌, ◌≡◌, List, [], ◌∷◌}
use architecture_playground.World.{World}
use architecture_playground.Queue.Testcontainer.{Event, dialed, opened, closed, ended, slept, Bench}

abbrev pub dials_in : List Event → ℕ
dials_in [] = 0
dials_in (dialed ∷ es) = dials_in es + 1
dials_in (_ ∷ es) = dials_in es

abbrev pub opens_in : List Event → ℕ
opens_in [] = 0
opens_in (opened ∷ es) = opens_in es + 1
opens_in (_ ∷ es) = opens_in es

abbrev pub closes_in : List Event → ℕ
closes_in [] = 0
closes_in (closed ∷ es) = closes_in es + 1
closes_in (_ ∷ es) = closes_in es

abbrev pub ends_in : List Event → ℕ
ends_in [] = 0
ends_in (ended ∷ es) = ends_in es + 1
ends_in (_ ∷ es) = ends_in es

abbrev pub sleep_in : List Event → ℕ
sleep_in [] = 0
sleep_in (slept n ∷ es) = sleep_in es + n
sleep_in (_ ∷ es) = sleep_in es

-- From es to es': so many clients were made, and so many queues returned and closed; a container
-- was told so many times to terminate; at most so many milliseconds were slept.
pub record Shown (dials opens closes ends sleep : ℕ) (es es' : List Event) : Type 0 where
  pub dialed : dials_in es' ≡ dials_in es + dials
  pub opened : opens_in es' ≡ opens_in es + opens
  pub closed : closes_in es' ≡ closes_in es + closes
  pub ended : ends_in es' ≡ ends_in es + ends
  pub slept : sleep_in es' ≤ sleep_in es + sleep

pub Shown-trans :
    {d o c e s d' o' c' e' s' : ℕ} {es es' es'' : List Event}
    → Shown d o c e s es es'
    → Shown d' o' c' e' s' es' es''
    → Shown (d + d') (o + o') (c + c') (e + e') (s + s') es es''
Shown-trans h k = record {
  dialed = omega (arith, h.dialed, k.dialed);
  opened = omega (arith, h.opened, k.opened);
  closed = omega (arith, h.closed, k.closed);
  ended = omega (arith, h.ended, k.ended);
  slept = omega (arith, h.slept, k.slept);
}

pub Shown-refl : (es : List Event) → Shown 0 0 0 0 0 es es
Shown-refl es = record {
  dialed = omega arith;
  opened = omega arith;
  closed = omega arith;
  ended = omega arith;
  slept = omega arith;
}

abbrev pub events_of : {R : Type 0} → World (Bench R) → List Event
events_of w = w.server.events
