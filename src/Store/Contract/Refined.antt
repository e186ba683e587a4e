-- ===== src/Store/Contract/Refined.antt =====
-- The memory store replies as the abstract map does.
use architecture_playground.Base.{ℕ, ◌≡◌, ◌∙◌, ap, String, refl, List, [], ◌∷◌}
use architecture_playground.World.{World}
use architecture_playground.World.Laws.{Returns, Returns-map, Returns-bind, returns}
use architecture_playground.Store.{memory_store}
use architecture_playground.Store.View.{view, IsWellFormed}
use architecture_playground.Store.Advance.{Held}
use architecture_playground.Store.Contract.{
  Operation, perform, perform_all, answer, after, answers, after_all,
}
use architecture_playground.Store.Contract.Steps.{Matches, performs_lem}

module _ {R : Type 0} where
  performs_all :
      (ops : List Operation) (m : Held) (ps : List ℕ) (w : World R)
      → Matches m ps w
      → Returns
          (perform_all memory_store ps ops w)
          (λ rs w'. (rs ≡ answers m ops) × (ps' : List ℕ) × Matches (after_all m ops) ps' w')
  unfolding perform_all
  performs_all [] m ps w h = returns _ _ (refl, ps, h)
  performs_all (op ∷ ops) m ps w h =
      Returns-bind (perform memory_store ps op) _ w (performs_lem m ps w h op)
        (λ r w1 (answered, h1).
          Returns-bind (perform_all memory_store r.1 ops) _ w1
            (performs_all ops (after m op) r.1 w1 h1)
            (λ rs w2 (rest, ps', h2).
              returns _ _ (ap (λ a. a ∷ rs) answered ∙ ap (λ l. answer m op ∷ l) rest, ps', h2)))

  -- The memory store refines a map: from a well-formed store, every sequence of calls of `Save`,
  -- `Get` and `Update`, and of writes of the client through the copies that `Get` gave it, returns,
  -- gets the replies that the map from IDs to tasks gives, and leaves in the store what the map then
  -- holds. So a write through a copy is never seen.
  pub perform_all-after_all :
      (ops : List Operation) (w : World R)
      → IsWellFormed w
      → Returns (perform_all memory_store [] ops w) (λ rs w'.
        (rs ≡ answers (view w) ops)
        × ((id : String) → view w' id ≡ after_all (view w) ops id)
        × IsWellFormed w')
  perform_all-after_all ops w v =
      Returns-map
        (performs_all ops (view w) [] w (record { valid = v; seen = λ id. refl; copies = tt }))
        (λ rs w' (replies, _, h). (replies, h.seen, h.valid))
