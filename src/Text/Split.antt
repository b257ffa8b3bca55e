-- ===== src/Text/Split.antt =====
-- src/lib/text-utils.cc: SplitStringToVector against JoinVectorToString, and its pieces.
use opendcd.Prelude.{
  ℕ, zero, suc, ◌+◌, ◌<◌, ◌≡◌, refl, sym, ap, subst, ◌∙◌, inl, inr, true, false, Bool-cases, Option,
  none, some, Option-cases, List, [], ◌∷◌, ◌++◌, All, length, arith, ==_iff,
}
use opendcd.Text.{
  is_one_of, find_first_of, push_if, split_loop, split_string_to_vector, join_vector_to_string,
}

-- The string has no delimiter in it.
abbrev pub IsPiece : List ℕ → List ℕ → Type 0
IsPiece delim xs = All (λ c. is_one_of delim c ≡ false) xs

-- What a search for a delimiter returns.
abbrev pub IsFound : List ℕ → List ℕ → List ℕ → Option (List ℕ) → Type 0
IsFound delim s before none = s ≡ before
IsFound delim s before (some rest) =
    (c : ℕ) × (is_one_of delim c ≡ true) × (s ≡ before ++ c ∷ rest) × (length rest < length s)

IsFound-cons :
    (delim s before : List ℕ) (found : Option (List ℕ)) (c : ℕ)
    → IsFound delim s before found
    → IsFound delim (c ∷ s) (c ∷ before) found
IsFound-cons delim s before none c h = ap (λ (xs : List ℕ). c ∷ xs) h
IsFound-cons delim s before (some rest) c (d, e, q, k) =
    (d, e, ap (λ (xs : List ℕ). c ∷ xs) q, omega arith)

pub find_first_of-IsFound :
    (delim s : List ℕ)
    → IsFound delim s (find_first_of delim s).0 (find_first_of delim s).1
      × IsPiece delim (find_first_of delim s).0
unfolding find_first_of
find_first_of-IsFound delim [] = (refl, tt)
find_first_of-IsFound delim (c ∷ s) = elim (Bool-cases (is_one_of delim c)) [
  | inl on ↦ rw on ((c, on, refl, omega arith), tt)
  | inr off ↦
      let (found, piece) = find_first_of-IsFound delim s in
      rw off (IsFound-cons delim s _ _ c found, (off, piece))
]

is_one_of-single : (c d : ℕ) → is_one_of (d ∷ []) c ≡ true → c ≡ d
unfolding is_one_of
is_one_of-single c d h = ground (arith, ==_iff c d)

-- Pieces that are at least one, and join to the string.
abbrev IsJoined : ℕ → List ℕ → List (List ℕ) → Type 0
IsJoined d s [] = ⊥
IsJoined d s (x ∷ xs) = join_vector_to_string (x ∷ xs) (d ∷ []) false ≡ s

IsJoined-cons :
    (d : ℕ) (piece s : List ℕ) (out : List (List ℕ))
    → IsJoined d s out
    → IsJoined d (piece ++ d ∷ s) (piece ∷ out)
unfolding join_vector_to_string
IsJoined-cons d piece s [] h = absurd h
IsJoined-cons d piece s (x ∷ xs) h = ap (λ (ys : List ℕ). piece ++ d ∷ ys) h

IsJoined_lem :
    (d : ℕ) (s : List ℕ) (out : List (List ℕ))
    → IsJoined d s out
    → join_vector_to_string out (d ∷ []) false ≡ s
IsJoined_lem d s [] h = absurd h
IsJoined_lem d s (x ∷ xs) h = h

split_loop-IsJoined :
    (d n : ℕ) (s : List ℕ)
    → length s < n
    → (out : List (List ℕ)) × (split_loop n (d ∷ []) false s ≡ some out)
      × IsJoined d s out
      × All (IsPiece (d ∷ [])) out
unfolding split_loop
split_loop-IsJoined d zero s h = absurd (omega arith)
split_loop-IsJoined d (suc n) s h =
    let before = (find_first_of (d ∷ []) s).0 in
    let (found, piece) = find_first_of-IsFound (d ∷ []) s in
    elim (Option-cases (find_first_of (d ∷ []) s).1) [
      | inl e ↦ (
        before ∷ [],
        rw (e, split_loop) (unfold push_if in refl),
        unfold join_vector_to_string in sym (rw e at found),
        (piece, tt),
      )
      | inr (rest, e) ↦
          let (c, one, q, k) = rw e at found in
          let (out, r, joined, pieces) = split_loop-IsJoined d n rest (omega arith) in
          (
            before ∷ out,
            rw (e, split_loop) (rw r (unfold push_if in refl)),
            subst (λ (x : List ℕ). IsJoined d x (before ∷ out))
                (ap (λ x. before ++ x ∷ rest) (sym (is_one_of-single c d one)) ∙ sym q)
                (IsJoined-cons d before rest out joined),
            (piece, pieces),
          )
    ]

-- Splitting at a single character without dropping empty strings ends, its pieces are free of that
-- character, and joining them with it gives the string back.
pub join-split_string :
    (d : ℕ) (full : List ℕ)
    → (out : List (List ℕ)) × (split_string_to_vector full (d ∷ []) false ≡ some out)
      × (join_vector_to_string out (d ∷ []) false ≡ full)
      × All (IsPiece (d ∷ [])) out
unfolding split_string_to_vector
join-split_string d full =
    let (out, e, joined, pieces) = split_loop-IsJoined d (length full + 1) full (omega arith) in
    (out, e, IsJoined_lem d full out joined, pieces)
