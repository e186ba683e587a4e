-- ===== src/Queue/Testcontainer/Url.antt =====
-- The attempts to find where the container listens.
use mathlib.Core.Path.{subst}
use architecture_playground.Base.{
  arith, ℕ, zero, suc, ◌+◌, ◌*◌, ◌≡◌, ◌⊎◌, inl, inr, refl, String, ◌<>◌, List, ◌∷◌, Option,
}
use architecture_playground.Errors.{Err}
use architecture_playground.World.{World, Result, ok, err}
use architecture_playground.World.Laws.{
  Returns, Returns-map, Returns-bind, Returns-on_result, returns,
}
use architecture_playground.Queue.{call}
use architecture_playground.Queue.Testcontainer.{
  Event, Bench, Container, on_bench, note, slept, find_port, find_url,
}
use architecture_playground.Queue.Testcontainer.Shown.{Shown, events_of}

-- The port that the container gave, for one of the two names that it is asked for.
pub data FoundPort {R : Type 0} (c : Container R) : String → Type 0 where
  with_protocol : (s : R) {p : String} → (c.mapped_port "6379/tcp" s).1 ≡ ok p → FoundPort c p
  bare : (s : R) {p : String} → (c.mapped_port "6379" s).1 ≡ ok p → FoundPort c p

-- The container gave the URL, or its host and port.
pub data FoundUrl {R : Type 0} (c : Container R) : String → Type 0 where
  whole : (s : R) {u : String} → (c.connection_string s).1 ≡ ok u → FoundUrl c (u <> "/1")
  parts :
      (s : R) {name p : String}
      → (c.host s).1 ≡ ok name
      → FoundPort c p
      → FoundUrl c ("redis://" <> name <> ":" <> p <> "/1")

abbrev pub PortOf : {R : Type 0} → Container R → Result String → Type 0
PortOf c (ok p) = FoundPort c p
PortOf c (err e) = Unit

module _ (left : ℕ) (es es' : List Event) where
  still_Shown : es' ≡ es → Shown 0 0 0 0 (suc left * 100) es es'
  still_Shown e = rw e (record {
    dialed = omega arith;
    opened = omega arith;
    closed = omega arith;
    ended = omega arith;
    slept = omega arith;
  })

  waited_Shown :
      Shown 0 0 0 0 (left * 100) (slept 100 ∷ es) es' → Shown 0 0 0 0 (suc left * 100) es es'
  waited_Shown h = record {
    dialed = h.dialed;
    opened = h.opened;
    closed = h.closed;
    ended = h.ended;
    slept = omega (arith, h.slept);
  }

module _ {R : Type 0} (c : Container R) where
  -- The port costs no time.
  find_port_lem :
      (w : World (Bench R))
      → Returns (find_port c w) (λ r w'. (events_of w' ≡ events_of w) × PortOf c r)
  unfolding find_port call
  find_port_lem w =
      Returns-on_result (c.mapped_port "6379/tcp" w.server.outside).1 _ _ _
        (λ e _. second (c.mapped_port "6379" s).1 refl)
        (λ p k. returns _ _ (refl, with_protocol w.server.outside k))
    where
      s : R
      s = (c.mapped_port "6379/tcp" w.server.outside).0

      second :
          (r : Result String)
          → (c.mapped_port "6379" s).1 ≡ r
          → Returns
              (call
                (on_bench (c.mapped_port "6379"))
                (record w { server = record w.server { outside = s } }))
              (λ r w'. (events_of w' ≡ events_of w) × PortOf c r)
      second (ok p) k = returns _ _ (refl, rw k (bare s k))
      second (err e) k = returns _ _ (refl, rw k tt)

  -- What attempts may lead to.
  abbrev pub Tried : ℕ → List Event → String × Option Err → World (Bench R) → Type 0
  Tried left es r w' = Shown 0 0 0 0 (left * 100) es (events_of w') × ((r.0 ≡ "") ⊎ FoundUrl c r.0)

  again :
      (left : ℕ) (es es' : List Event) {o : Option ((String × Option Err) × World (Bench R))}
      → es' ≡ es
      → Returns o (Tried left (slept 100 ∷ es'))
      → Returns o (Tried (suc left) es)
  again left es es' same h = Returns-map h (λ r w' (shown, found). (
    waited_Shown left es (events_of w')
        (subst (λ l. Shown 0 0 0 0 (left * 100) (slept 100 ∷ l) (events_of w')) same shown),
    found,
  ))

  pub find_url_lem :
      (left attempt : ℕ) (lost : Option Err) (w : World (Bench R))
      → Returns (find_url c left attempt lost w) (Tried left (events_of w))
  unfolding find_url call note
  find_url_lem zero attempt lost w = returns _ _ (
    record {
      dialed = omega arith;
      opened = omega arith;
      closed = omega arith;
      ended = omega arith;
      slept = omega arith;
    },
    inl refl,
  )
  find_url_lem (suc left) attempt lost w =
      let s = (c.connection_string w.server.outside).0 in
      Returns-on_result (c.connection_string w.server.outside).1 _ _ _
        (λ e _.
          Returns-on_result (c.host s).1 _ _ _
            (λ e _. again left (events_of w) _ refl (find_url_lem left (attempt + 1) _ _))
            (λ name host. Returns-bind (find_port c) _ _ (find_port_lem _) (λ r w' (same, port).
              Returns-on_result r _ _ w'
                (λ e _. again left (events_of w) _ same (find_url_lem left (attempt + 1) _ _))
                (λ p k. returns _ _ (
                  still_Shown left (events_of w) _ same,
                  inr (parts s host (subst (PortOf c) k port)),
                )))))
        (λ url k.
          returns _ _ (still_Shown left (events_of w) _ refl, inr (whole w.server.outside k)))
