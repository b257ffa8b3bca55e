-- ===== src/Decoder/Arc/Cost.antt =====
-- src/include/dcd/clevel-decoder.h, GetBestCost: the cost that a search arc reports.
use opendcd.Prelude.{ℕ, zero, suc, ◌+◌, ◌≤◌, ◌<◌, ◌≡◌, refl, ◌∙◌, ◌⊎◌, inl, inr, arith}
use opendcd.Prelude.Float.{Float, key, min}
use opendcd.Decoder.Arc.{SearchArc, token_at, best_cost_from, get_best_cost}

module _ {F : Type 0} ⦃f : Float F⦄ (a : SearchArc F) where
  best_cost_from-le : (n i : ℕ) (best : F) → key (best_cost_from a n i best) ≤ key best
  unfolding best_cost_from
  best_cost_from-le zero i best = omega arith
  best_cost_from-le (suc n) i best =
      ground (arith, best_cost_from-le n (i + 1) (min best (token_at a i).cost))

  best_cost_from-lower :
      (n i j : ℕ) (best : F)
      → i ≤ j
      → j < i + n
      → key (best_cost_from a n i best) ≤ key (token_at a j).cost
  unfolding best_cost_from
  best_cost_from-lower zero i j best h k = absurd (omega arith)
  best_cost_from-lower (suc n) i j best h k = ground (
    arith,
    best_cost_from-le n (i + 1) (min best (token_at a i).cost),
    best_cost_from-lower n (i + 1) j (min best (token_at a i).cost),
  )

  best_cost_from-choice :
      (n i : ℕ) (best : F)
      → (best_cost_from a n i best ≡ best)
        ⊎ ((j : ℕ) × (j < i + n) × (best_cost_from a n i best ≡ (token_at a j).cost))
  unfolding best_cost_from
  best_cost_from-choice zero i best = inl refl
  best_cost_from-choice (suc n) i best =
      elim (best_cost_from-choice n (i + 1) (min best (token_at a i).cost)) [
        | inr (j, h, e) ↦ inr (j, omega arith, e)
        | inl e ↦
            elim (let c : (min best (token_at a i).cost ≡ best)
                  ⊎ (min best (token_at a i).cost ≡ (token_at a i).cost) =
                ground arith in
              c) [ inl old ↦ inl (e ∙ old) | inr new ↦ inr (i, omega arith, e ∙ new) ]
      ]

  -- GetBestCost is the cost of one of the arc's tokens, the entry token and those of its states,
  -- and no higher than that of any.
  pub get_best_cost_lem :
      ((j : ℕ) → j ≤ a.num_states → key (get_best_cost a) ≤ key (token_at a j).cost)
      × ((j : ℕ) × (j ≤ a.num_states) × (get_best_cost a ≡ (token_at a j).cost))
  unfolding get_best_cost
  get_best_cost_lem = (
    λ j h. elim (let c : (j ≡ 0) ⊎ (1 ≤ j) = omega arith in c) [
      | inl e ↦ rw e (best_cost_from-le a.num_states 1 (token_at a 0).cost)
      | inr k ↦ best_cost_from-lower a.num_states 1 j (token_at a 0).cost k (omega arith)
    ],
    elim (best_cost_from-choice a.num_states 1 (token_at a 0).cost) [
      | inl e ↦ (0, omega arith, e)
      | inr (j, h, e) ↦ (j, omega arith, e)
    ],
  )
