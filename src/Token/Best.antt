-- ===== src/Token/Best.antt =====
-- src/include/dcd/token.h: what combining a sequence of tokens leaves behind.
use opendcd.Prelude.{◌≤◌, ◌≡◌, ◌⊎◌, inl, refl, List, [], ◌∷◌, arith, All}
use opendcd.Prelude.Float.{Float, key}
use opendcd.Token.{Token, combine}

module _ {F : Type 0} ⦃f : Float F⦄ where
  -- Calls `Combine` with each token of the list in turn.
  unfoldable pub combine_all : Token F → List (Token F) → Token F
  combine_all t [] = t
  combine_all t (x ∷ xs) = combine_all (combine t x).0 xs

  abbrev pub IsOneOf : Token F → Token F → List (Token F) → Type 0
  IsOneOf u t [] = u ≡ t
  IsOneOf u t (x ∷ xs) = (u ≡ t) ⊎ IsOneOf u x xs

  combine-choice : (t x : Token F) → ((combine t x).0 ≡ t) ⊎ ((combine t x).0 ≡ x)
  unfolding combine
  combine-choice t x = ground arith

  IsOneOf-here : (t : Token F) (xs : List (Token F)) → IsOneOf t t xs
  IsOneOf-here t [] = refl
  IsOneOf-here t (x ∷ xs) = inl refl

  IsOneOf-swap : (u t x : Token F) (xs : List (Token F)) → IsOneOf u t xs → (u ≡ t) ⊎ IsOneOf u x xs
  IsOneOf-swap u t x [] h = inl h
  IsOneOf-swap u t x (y ∷ ys) h = ground arith

  combine_all-IsOneOf : (t : Token F) (xs : List (Token F)) → IsOneOf (combine_all t xs) t xs
  unfolding combine_all
  combine_all-IsOneOf t [] = refl
  combine_all-IsOneOf t (x ∷ xs) = ground (
    arith,
    combine-choice t x,
    combine_all-IsOneOf (combine t x).0 xs,
    IsOneOf-swap (combine_all (combine t x).0 xs) (combine t x).0 x xs,
  )

  combine_all-lower :
      (t : Token F) (xs : List (Token F))
      → (key (combine_all t xs).cost ≤ key t.cost)
        × All (λ x. key (combine_all t xs).cost ≤ key x.cost) xs
  unfolding combine combine_all
  combine_all-lower t [] = ground arith
  combine_all-lower t (x ∷ xs) = ground (arith, combine_all-lower (combine t x).0 xs)

  -- Combining a token with a list of tokens in turn leaves one of them, with its traceback,
  -- and none of them, the first included, has a lower cost.
  pub combine_all_best :
      (t : Token F) (xs : List (Token F))
      → IsOneOf (combine_all t xs) t xs
        × (key (combine_all t xs).cost ≤ key t.cost)
        × All (λ x. key (combine_all t xs).cost ≤ key x.cost) xs
  combine_all_best t xs =
      (combine_all-IsOneOf t xs, (combine_all-lower t xs).0, (combine_all-lower t xs).1)
