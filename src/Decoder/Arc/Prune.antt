-- ===== src/Decoder/Arc/Prune.antt =====
-- src/include/dcd/clevel-decoder.h, SearchArc::Prune, whose test is the sum of the two costs, read as a
-- Boolean.
use opendcd.Prelude.{
  ℕ, zero, suc, ◌+◌, ◌≤◌, ◌<◌, ◌≡◌, ◌≢◌, ◌⊎◌, refl, inl, inr, Bool, true, false, get_or-set, set,
  length-set, get_or_beyond, arith, ==_iff, ◌==◌,
}
use opendcd.Prelude.Float.{Float, key, add, zero_cost}
use opendcd.Token.{inactive, active, clear}
use opendcd.Decoder.Arc.{SearchArc, token_at, prune_from, prune}

module _ {F : Type 0} ⦃f : Float F⦄ (threshold : F) where
  abbrev pub Nonzero : SearchArc F → ℕ → Type 0
  Nonzero a j = key (add (token_at a j).cost threshold) ≢ key {F = F} zero_cost

  abbrev cleared : SearchArc F → ℕ → SearchArc F
  cleared a i = record a { tokens = set a.tokens i (clear (token_at a i)) }

  active-cleared : (a : SearchArc F) (i : ℕ) → active (token_at (cleared a i) i) ≡ false
  unfolding active clear inactive
  active-cleared a i = ground (
    arith,
    get_or-set a.tokens i i (clear (token_at a i)) inactive,
    get_or_beyond (set a.tokens i (clear (token_at a i))) i inactive,
    length-set a.tokens i (clear (token_at a i)),
    ==_iff i i,
  )

  token_at-cleared : (a : SearchArc F) (i j : ℕ) → i < j → token_at (cleared a i) j ≡ token_at a j
  token_at-cleared a i j h =
      ground (arith, get_or-set a.tokens i j (clear (token_at a i)) inactive, ==_iff i j)

  token_at-prune_from :
      (n i j : ℕ) (b : SearchArc F) (act : Bool)
      → j < i
      → token_at (prune_from threshold n i (b, act)).0 j ≡ token_at b j
  unfolding prune_from
  token_at-prune_from zero i j b act h = refl
  token_at-prune_from (suc n) i j b act h = ground (
    arith,
    token_at-prune_from n (i + 1) j b true,
    token_at-prune_from n (i + 1) j (cleared b i) act,
    get_or-set b.tokens i j (clear (token_at b i)) inactive,
    ==_iff i j,
  )

  prune_from-clears :
      (n i : ℕ) (b : SearchArc F)
      → ((j : ℕ) → i ≤ j → j < i + n → Nonzero b j)
      → ((prune_from threshold n i (b, false)).1 ≡ false)
        × ((j : ℕ)
            → i ≤ j
            → j < i + n
            → active (token_at (prune_from threshold n i (b, false)).0 j) ≡ false)
  unfolding prune_from
  prune_from-clears zero i b h = (refl, λ j k m. absurd (omega arith))
  prune_from-clears (suc n) i b h =
      let skip : (key (add (token_at b i).cost threshold) == key {F = F} zero_cost) ≡ false =
        ground (arith, h i) in
      let (act, rest) =
        prune_from-clears n (i + 1) (cleared b i)
          (λ j k m. rw (token_at-cleared b i j (omega arith)) (h j (omega arith) (omega arith))) in
      rw (skip, prune_from)
        (
          act,
          λ j k m. elim (let c : (j ≡ i) ⊎ (i + 1 ≤ j) = omega arith in c) [
            | inl e ↦
                rw (e, token_at-prune_from n (i + 1) i (cleared b i) false (omega arith))
                  (active-cleared b i)
            | inr k' ↦ rest j k' (omega arith)
          ],
        )

  -- Prune reports that no token is left and clears every token of the arc, also those whose cost is
  -- within the threshold, as soon as no token's cost and the threshold add up to zero.
  pub prune-clears_all :
      (a : SearchArc F)
      → ((j : ℕ) → j ≤ a.num_states → Nonzero a j)
      → ((prune threshold a).1 ≡ false)
        × ((j : ℕ) → j ≤ a.num_states → active (token_at (prune threshold a).0 j) ≡ false)
  unfolding prune
  prune-clears_all a h =
      let (act, off) = prune_from-clears (a.num_states + 1) 0 a (λ j _ k. h j (omega arith)) in
      (act, λ j k. off j (omega arith) (omega arith))
