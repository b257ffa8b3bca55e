-- ===== src/Decoder/Final.antt =====
-- src/include/dcd/clevel-decoder.h, FindBestState: the choice of the state that the result is read from.
-- The active states are given by their token's cost and their final cost, in the order of the
-- list, and the chosen state by its position, or `none` for null.
pub mod Choice
use opendcd.Prelude.{
  ℕ, zero, suc, ◌+◌, Bool, true, false, Option, none, some, List, [], ◌∷◌, ◌==◌, ◌&&◌, ◌||◌,
  if◌then◌else◌,
}
use opendcd.Prelude.Float.{Float, add, lt, max_cost}

-- What FindBestState reads of a search state.
pub record FinalState (F : Type 0) : Type 0 where
  pub cost : F
  pub final_cost : F

-- kRequireFinal, kBackoff and kAnyFinal of src/include/dcd/constants.h
pub data FinalMode : Type 0 where
  require_final backoff any_final : FinalMode

module _ {F : Type 0} ⦃f : Float F⦄ where
  -- SearchState::AcceptCost
  abbrev pub accept_cost : FinalState F → F
  accept_cost s = add s.cost s.final_cost

  -- The loop over the final states, from position `i` on.
  unfoldable pub best_final : ℕ → List (FinalState F) → Option ℕ × F → Option ℕ × F
  best_final i [] r = r
  best_final i (s ∷ ss) (state, best) =
      best_final (i + 1) ss
        (if lt (accept_cost s) best then (some i, accept_cost s) else (state, best))

  -- The second loop, which compares the cost of the state's token and keeps its accept cost.
  unfoldable pub best_any : ℕ → List (FinalState F) → Option ℕ × F → Option ℕ × F
  best_any i [] r = r
  best_any i (s ∷ ss) (state, best) =
      best_any (i + 1) ss (if lt s.cost best then (some i, accept_cost s) else (state, best))

  -- The first loop runs unless the mode is kAnyFinal; its result is returned if there is a state,
  -- or if a final one is required.
  unfoldable pub find_best_state : FinalMode → List (FinalState F) → Option ℕ
  unfolding best_final best_any
  find_best_state any_final ss = (best_any 0 ss (none, max_cost)).0
  find_best_state require_final ss = (best_final 0 ss (none, max_cost)).0
  find_best_state backoff ss =
      let (state, best) = best_final 0 ss (none, max_cost) in
      elim state [ some i ↦ some i | none ↦ (best_any 0 ss (none, best)).0 ]
