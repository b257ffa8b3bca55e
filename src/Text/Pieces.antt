-- ===== src/Text/Pieces.antt =====
-- src/lib/text-utils.cc: the pieces of SplitStringToVector at a set of delimiters, with and without the
-- empty ones.
use opendcd.Prelude.{
  ℕ, zero, suc, ◌+◌, ◌<◌, ◌≡◌, refl, sym, ap, subst, ◌∙◌, ◌⊎◌, inl, inr, Bool, true, false, not,
  some, Option-cases, List, [], ◌∷◌, ◌++◌, All, length, arith, ◌||◌, if◌then◌else◌,
}
use opendcd.Text.{is_empty, is_one_of, find_first_of, push_if, split_loop, split_string_to_vector}
use opendcd.Text.Split.{IsPiece, find_first_of-IsFound}

-- The characters that are no delimiters, in order.
unfoldable pub others : List ℕ → List ℕ → List ℕ
others delim [] = []
others delim (c ∷ s) = let rest = others delim s in if is_one_of delim c then rest else c ∷ rest

unfoldable pub flat : List (List ℕ) → List ℕ
flat [] = []
flat (x ∷ xs) = x ++ flat xs

-- What the pieces are to a string.
pub record IsCut (delim : List ℕ) (omit : Bool) (s : List ℕ) (out : List (List ℕ)) : Type 0 where
  pub pieces : All (IsPiece delim) out
  pub characters : flat out ≡ others delim s
  pub omitted : (omit ≡ false) ⊎ All (λ x. is_empty x ≡ false) out

others-piece : (delim s : List ℕ) → IsPiece delim s → others delim s ≡ s
unfolding others
others-piece delim [] h = refl
others-piece delim (c ∷ s) h = rw h.0 (ap (λ (xs : List ℕ). c ∷ xs) (others-piece delim s h.1))

others-append :
    (delim before : List ℕ) (c : ℕ) (rest : List ℕ)
    → IsPiece delim before
    → is_one_of delim c ≡ true
    → others delim (before ++ c ∷ rest) ≡ before ++ others delim rest
unfolding others
others-append delim [] c rest h on = rw on refl
others-append delim (b ∷ before) c rest h on =
    rw h.0 (ap (λ (xs : List ℕ). b ∷ xs) (others-append delim before c rest h.1 on))

push_if-IsCut :
    (delim : List ℕ) (omit : Bool) (piece s rest : List ℕ) (out : List (List ℕ))
    → IsPiece delim piece
    → IsCut delim omit rest out
    → others delim s ≡ piece ++ others delim rest
    → IsCut delim omit s (push_if (not omit || not (is_empty piece)) piece out)
unfolding push_if flat
push_if-IsCut delim false piece s rest out h v e = record {
  pieces = (h, v.pieces);
  characters = rw (v.characters, e) refl;
  omitted = inl refl;
}
push_if-IsCut delim true [] s rest out h v e = record {
  pieces = v.pieces;
  characters = v.characters ∙ sym e;
  omitted = v.omitted;
}
push_if-IsCut delim true (c ∷ piece) s rest out h v e = record {
  pieces = (h, v.pieces);
  characters = rw (v.characters, e) refl;
  omitted = inr (refl, elim v.omitted [ inl no' ↦ absurd (ground arith) | inr k ↦ k ]);
}

empty-IsCut : (delim : List ℕ) (omit : Bool) → IsCut delim omit [] []
unfolding flat others
empty-IsCut delim omit = record { pieces = tt; characters = refl; omitted = inr tt }

pub append_nil : (xs : List ℕ) → xs ≡ xs ++ []
append_nil [] = refl
append_nil (x ∷ xs) = ap (λ (ys : List ℕ). x ∷ ys) (append_nil xs)

last-IsCut :
    (delim : List ℕ) (omit : Bool) (s : List ℕ)
    → IsPiece delim s
    → IsCut delim omit s (push_if (not omit || not (is_empty s)) s [])
last-IsCut delim omit s h =
    push_if-IsCut delim omit s s [] [] h (empty-IsCut delim omit)
      (others-piece delim s h ∙ append_nil s ∙ unfold others in refl)

split_loop-IsCut :
    (delim : List ℕ) (omit : Bool) (n : ℕ) (s : List ℕ)
    → length s < n
    → (out : List (List ℕ)) × (split_loop n delim omit s ≡ some out) × IsCut delim omit s out
unfolding split_loop
split_loop-IsCut delim omit zero s h = absurd (omega arith)
split_loop-IsCut delim omit (suc n) s h =
    let before = (find_first_of delim s).0 in
    let (found, piece) = find_first_of-IsFound delim s in
    elim (Option-cases (find_first_of delim s).1) [
      | inl e ↦
          let whole : s ≡ before = rw e at found in
          (
            push_if (not omit || not (is_empty s)) before [],
            rw (e, split_loop) refl,
            subst (λ b. IsCut delim omit s (push_if (not omit || not (is_empty s)) b [])) whole
                (last-IsCut delim omit s (subst (IsPiece delim) (sym whole) piece)),
          )
      | inr (rest, e) ↦
          let (c, one, q, k) = rw e at found in
          let (out, r, cut) = split_loop-IsCut delim omit n rest (omega arith) in
          (
            push_if (not omit || not (is_empty before)) before out,
            rw (e, split_loop) (rw r refl),
            push_if-IsCut delim omit before s rest out piece cut
                (ap (others delim) q ∙ others-append delim before c rest piece one),
          )
    ]

-- Splitting at any set of delimiters ends. No piece has a delimiter in it, the pieces one after the
-- other are the string's characters that are no delimiters, and no piece is empty if empty strings are
-- omitted.
pub split_string-IsCut :
    (delim full : List ℕ) (omit : Bool)
    → (out : List (List ℕ)) × (split_string_to_vector full delim omit ≡ some out)
      × IsCut delim omit full out
unfolding split_string_to_vector
split_string-IsCut delim full omit =
    split_loop-IsCut delim omit (length full + 1) full (omega arith)
