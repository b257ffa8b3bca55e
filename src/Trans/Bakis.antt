-- ===== src/Trans/Bakis.antt =====
-- src/include/dcd/hmm-transition-model.h: ExpandLeftToRight, which updates the tokens of a left-to-right
-- HMM in place, from the last state down.
use opendcd.Prelude.{
  ℕ, zero, suc, ◌-◌, ◌*◌, ◌≤◌, ◌≡◌, ◌⊎◌, false, List, ◌∷◌, ℤ, pos, get_or, set, arith, ◌||◌,
  if◌then◌else◌,
}
use opendcd.Prelude.Float.{Float, key, add, lt, min, max_cost, zero_cost}
use opendcd.Token.{Token, inactive, active, clear, set_value, set_cost}

module _ {F : Type 0} ⦃f : Float F⦄ (score : ℤ → F) (weights : List F) (states : List ℤ) where
  -- The new token of a state: its own along the loop, or that of the state before.
  unfoldable pub arrive : ℕ → Token F → Token F → Token F
  unfolding set_value set_cost
  arrive i previous current =
      let am_cost = score (get_or states i (pos 0)) in
      let loop = add (add current.cost (get_or weights (2 * i - 1) zero_cost)) am_cost in
      let prev = add (add previous.cost (get_or weights (2 * i - 2) zero_cost)) am_cost in
      if lt loop prev then set_cost loop current else set_value previous.tb prev current

  -- One round of the loop, on the tokens and the best cost.
  unfoldable pub round : ℕ → List (Token F) × F → List (Token F) × F
  round i (tokens, best) =
      let current = get_or tokens i inactive in
      let previous = get_or tokens (i - 1) inactive in
      let t = arrive i previous current in
      if active current || active previous
      then (set tokens i t, min best t.cost)
      else (tokens, best)

  -- `for (int i = 3; i > 0; --i)`
  unfoldable pub rounds : ℕ → List (Token F) × F → List (Token F) × F
  unfolding round
  rounds zero r = r
  rounds (suc n) r = rounds n (round (suc n) r)

  unfoldable pub expand_left_to_right : List (Token F) → List (Token F) × (F × F)
  unfolding rounds
  expand_left_to_right tokens =
      let (ts, best) = rounds 3 (tokens, max_cost) in
      (set ts 0 (clear (get_or ts 0 inactive)), (best, max_cost))

  -- The same update from the tokens before the frame.
  unfoldable pub hop : ℕ → Token F → Token F → Token F
  hop i previous current =
      if active current || active previous then arrive i previous current else current

  -- An inactive token has the cost that Clear gives it.
  abbrev pub IsToken : Token F → Type 0
  IsToken t = active t ≡ false → t.cost ≡ max_cost

  module _ (t0 t1 t2 t3 : Token F) (rest : List (Token F)) where
    abbrev before : List (Token F)
    before = t0 ∷ t1 ∷ t2 ∷ t3 ∷ rest

    tokens-expand_left_to_right :
        (expand_left_to_right before).0 ≡ clear t0 ∷ hop 1 t0 t1 ∷ hop 2 t1 t2 ∷ hop 3 t2 t3 ∷ rest
    unfolding expand_left_to_right hop
    tokens-expand_left_to_right = ground arith

    lower-expand_left_to_right :
        IsToken t1
        → IsToken t2
        → IsToken t3
        → (key (expand_left_to_right before).1.0 ≤ key (hop 1 t0 t1).cost)
          × (key (expand_left_to_right before).1.0 ≤ key (hop 2 t1 t2).cost)
          × (key (expand_left_to_right before).1.0 ≤ key (hop 3 t2 t3).cost)
    unfolding expand_left_to_right hop
    lower-expand_left_to_right h1 h2 h3 = (ground arith, ground arith, ground arith)

    choice-expand_left_to_right :
        ((expand_left_to_right before).1.0 ≡ max_cost)
        ⊎ ((expand_left_to_right before).1.0 ≡ (hop 1 t0 t1).cost)
        ⊎ ((expand_left_to_right before).1.0 ≡ (hop 2 t1 t2).cost)
        ⊎ ((expand_left_to_right before).1.0 ≡ (hop 3 t2 t3).cost)
    unfolding expand_left_to_right hop
    choice-expand_left_to_right = ground arith

    -- The in-place loop gives each state what it would have from the tokens before the frame, and
    -- empties the entry token. The cost that it returns is no higher than that of the three new
    -- tokens, and is one of theirs or kMaxCost, if the inactive ones among the old had kMaxCost.
    pub expand_left_to_right_lem :
        IsToken t1
        → IsToken t2
        → IsToken t3
        → ((expand_left_to_right before).0
            ≡ clear t0 ∷ hop 1 t0 t1 ∷ hop 2 t1 t2 ∷ hop 3 t2 t3 ∷ rest)
          × ((key (expand_left_to_right before).1.0 ≤ key (hop 1 t0 t1).cost)
              × (key (expand_left_to_right before).1.0 ≤ key (hop 2 t1 t2).cost)
              × (key (expand_left_to_right before).1.0 ≤ key (hop 3 t2 t3).cost))
          × (((expand_left_to_right before).1.0 ≡ max_cost)
              ⊎ ((expand_left_to_right before).1.0 ≡ (hop 1 t0 t1).cost)
              ⊎ ((expand_left_to_right before).1.0 ≡ (hop 2 t1 t2).cost)
              ⊎ ((expand_left_to_right before).1.0 ≡ (hop 3 t2 t3).cost))
    expand_left_to_right_lem h1 h2 h3 = (
      tokens-expand_left_to_right,
      lower-expand_left_to_right h1 h2 h3,
      choice-expand_left_to_right,
    )
