-- ===== src/Decoder/Final/Choice.antt =====
-- src/include/dcd/clevel-decoder.h, FindBestState: which state each mode chooses.
use opendcd.Prelude.{
  ℕ, suc, ◌+◌, ◌≤◌, ◌<◌, ◌≡◌, refl, ap, ◌∙◌, ◌⊎◌, inl, inr, Bool-cases, Option-cases, if◌then◌else◌,
  Option, none, some, List, [], ◌∷◌, ◌++◌, All, get_elem?, length, arith,
}
use opendcd.Prelude.Float.{Float, key, lt, max_cost}
use opendcd.Decoder.Final.{
  FinalState, require_final, backoff, accept_cost, best_final, best_any, find_best_state,
}

module _ {F : Type 0} ⦃f : Float F⦄ where
  -- The state at a position is one that `best_final` may choose.
  abbrev pub IsBestFinal : List (FinalState F) → ℕ → Type 0
  IsBestFinal ss i =
      (s : FinalState F) × (get_elem? ss i ≡ some s)
      × (key (accept_cost s) < key {F = F} max_cost)
      × All (λ t. key (accept_cost s) ≤ key (accept_cost t)) ss

  -- No state has an accept cost under kMaxCost.
  abbrev pub NoFinal : List (FinalState F) → Type 0
  NoFinal ss = All (λ s. key {F = F} max_cost ≤ key (accept_cost s)) ss

  best_final-none :
      (i : ℕ) (ss : List (FinalState F))
      → NoFinal ss
      → best_final i ss (none, max_cost) ≡ (none, max_cost)
  unfolding best_final
  best_final-none i [] h = refl
  best_final-none i (s ∷ ss) h = ground (arith, best_final-none (i + 1) ss h.1)

  -- Every state's accept cost is at least kMaxCost, so the second loop goes on to the last state.
  best_any-last :
      (i : ℕ) (ss : List (FinalState F)) (s : FinalState F) (state : Option ℕ) (best : F)
      → NoFinal (ss ++ s ∷ [])
      → All (λ t. key t.cost < key {F = F} max_cost) (ss ++ s ∷ [])
      → key {F = F} max_cost ≤ key best
      → (best_any i (ss ++ s ∷ []) (state, best)).0 ≡ some (i + length ss)
  unfolding best_any
  best_any-last i [] s state best h k m = ground arith
  best_any-last i (t ∷ ss) s state best h k m =
      ground (arith, best_any-last (i + 1) ss s (some i) (accept_cost t) h.1 k.1)

  -- When no active state is final, and each costs less than kMaxCost, FindBestState with back-off
  -- returns the last active state, whichever is the cheapest.
  pub find_best_state-last :
      (ss : List (FinalState F)) (s : FinalState F)
      → NoFinal (ss ++ s ∷ [])
      → All (λ t. key t.cost < key {F = F} max_cost) (ss ++ s ∷ [])
      → find_best_state backoff (ss ++ s ∷ []) ≡ some (length ss)
  unfolding find_best_state
  find_best_state-last ss s h k =
      rw (best_final-none 0 (ss ++ s ∷ []) h, find_best_state)
        (rw (best_final-none 0 (ss ++ s ∷ []) h)
          (best_any-last 0 ss s none max_cost h k (omega arith) ∙ ap some (omega arith)))

  best_final-lower :
      (i : ℕ) (ss : List (FinalState F)) (r : Option ℕ × F)
      → (key (best_final i ss r).1 ≤ key r.1)
        × All (λ s. key (best_final i ss r).1 ≤ key (accept_cost s)) ss
  unfolding best_final
  best_final-lower i [] r = (omega arith, tt)
  best_final-lower i (s ∷ ss) (state, best) =
      let next : Option ℕ × F =
        if lt (accept_cost s) best then (some i, accept_cost s) else (state, best) in
      let (le, rest) = best_final-lower (i + 1) ss next in (ground arith, (ground arith, rest))

  best_final-choice :
      (i : ℕ) (ss : List (FinalState F)) (r : Option ℕ × F)
      → (best_final i ss r ≡ r)
        ⊎ ((k : ℕ) × (s : FinalState F) × (get_elem? ss k ≡ some s)
            × (best_final i ss r ≡ (some (i + k), accept_cost s))
            × (key (accept_cost s) < key r.1))
  unfolding best_final
  best_final-choice i [] r = inl refl
  best_final-choice i (s ∷ ss) (state, best) = elim (Bool-cases (lt (accept_cost s) best)) [
    | inl new ↦
        let less : key (accept_cost s) < key best = ground arith in
        rw new (elim (best_final-choice (i + 1) ss (some i, accept_cost s)) [
          | inl e ↦ inr (0, s, refl, e ∙ ground arith, less)
          | inr (k, t, at, e, h) ↦ inr (suc k, t, at, e ∙ ground arith, omega arith)
        ])
    | inr old ↦ rw old (elim (best_final-choice (i + 1) ss (state, best)) [
      | inl e ↦ inl e
      | inr (k, t, at, e, h) ↦ inr (suc k, t, at, e ∙ ground arith, h)
    ])
  ]

  -- With a final state required, FindBestState returns a state with the least accept cost, under
  -- kMaxCost, or null, and then no state has one under kMaxCost. With back-off it returns the same,
  -- unless that is null.
  pub find_best_state-final :
      (ss : List (FinalState F))
      → (((i : ℕ) × (find_best_state require_final ss ≡ some i) × IsBestFinal ss i)
          ⊎ ((find_best_state require_final ss ≡ none) × NoFinal ss))
        × ((find_best_state require_final ss ≡ none)
            ⊎ (find_best_state backoff ss ≡ find_best_state require_final ss))
  unfolding find_best_state
  find_best_state-final ss =
      let lower = (best_final-lower 0 ss (none, max_cost)).1 in
      (
        elim (best_final-choice 0 ss (none, max_cost)) [
          | inl e ↦ inr (ap (λ (r : Option ℕ × F). r.0) e, rw e at lower)
          | inr (k, s, at, e, h) ↦ inl (
            k,
            ap (λ (r : Option ℕ × F). r.0) e ∙ ap some (omega arith),
            (s, at, h, rw e at lower),
          )
        ],
        elim (Option-cases (best_final 0 ss (none, max_cost)).0) [
          | inl e ↦ inl e
          | inr (i, e) ↦ inr (rw (e, find_best_state))
        ],
      )
