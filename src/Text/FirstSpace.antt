-- ===== src/Text/FirstSpace.antt =====
-- src/lib/text-utils.cc, SplitStringOnFirstSpace: the first word of a string and the rest.
use opendcd.Prelude.{
  ℕ, ◌≡◌, refl, sym, ap, subst, ◌∙◌, ◌⊎◌, inl, inr, true, false, Bool-cases, Option, none, some,
  Option-cases, List, [], ◌∷◌, ◌++◌, arith, if◌then◌else◌,
}
use opendcd.Text.{is_empty, is_one_of, find_first_of, white_chars, erase_end, erase_start}
use opendcd.Text.Split.{IsPiece, find_first_of-IsFound}
use opendcd.Text.Pieces.{append_nil}
use opendcd.Text.Trim.{
  IsWhite, starts_white, ends_white, is_empty-nil, erase_end-cut, erase_start-cut,
}

-- `*rest`, from what stands behind next_white: empty if next_white or next_nonwhite is npos, and
-- what goes from next_nonwhite up to last_nonwhite otherwise.
unfoldable pub rest_behind : Option (List ℕ) → List ℕ
unfolding erase_start erase_end
rest_behind none = []
rest_behind (some s) = let next = erase_start s in if is_empty next then [] else erase_end next

-- SplitStringOnFirstSpace: `*first` and `*rest`. What starts at first_nonwhite is empty if that is npos.
unfoldable pub split_string_on_first_space : List ℕ → List ℕ × List ℕ
unfolding erase_start find_first_of rest_behind
split_string_on_first_space str =
    let from = erase_start str in
    let (first, found) = find_first_of white_chars from in
    if is_empty from then ([], []) else (first, rest_behind found)

-- What the first word and the rest are to the string.
pub record IsFirstSplit (s first rest : List ℕ) : Type 0 where
  pub before : List ℕ
  pub gap : List ℕ
  pub after : List ℕ
  pub parts : s ≡ before ++ (first ++ (gap ++ (rest ++ after)))
  pub white : IsWhite before × IsWhite gap × IsWhite after
  pub word : IsPiece white_chars first
  pub starts : starts_white rest ≡ false
  pub ends : ends_white rest ≡ false
  pub apart : (rest ≡ []) ⊎ ((is_empty first ≡ false) × (is_empty gap ≡ false))

rest_behind-some : (s : List ℕ) → rest_behind (some s) ≡ erase_end (erase_start s)
rest_behind-some s = elim (Bool-cases (is_empty (erase_start s))) [
  | inl no' ↦
      unfold rest_behind in
      (rw no' (sym (ap erase_end (is_empty-nil _ no') ∙ unfold erase_end in refl)))
  | inr yes' ↦ unfold rest_behind in (rw yes' refl)
]

starts_white-append : (xs ys : List ℕ) → starts_white (xs ++ ys) ≡ false → starts_white xs ≡ false
unfolding starts_white
starts_white-append [] ys h = refl
starts_white-append (x ∷ xs) ys h = h

word_first :
    (first rest : List ℕ) (c : ℕ)
    → is_one_of white_chars c ≡ true
    → starts_white (first ++ c ∷ rest) ≡ false
    → is_empty first ≡ false
unfolding starts_white
word_first [] rest c on h = absurd (ground arith)
word_first (x ∷ first) rest c on h = refl

-- The first word stands in front of a white character.
behind_word :
    (before from first r : List ℕ) (c : ℕ)
    → IsWhite before
    → starts_white from ≡ false
    → is_one_of white_chars c ≡ true
    → from ≡ first ++ c ∷ r
    → IsPiece white_chars first
    → IsFirstSplit (before ++ from) first (rest_behind (some r))
behind_word before from first r c w starts on e piece =
    let (gap, e_gap, w_gap, s_next) = erase_start-cut r in
    let (after, e_after, w_after, ends) = erase_end-cut (erase_start r) in
    subst (IsFirstSplit (before ++ from) first) (sym (rest_behind-some r)) record {
      before = before;
      gap = c ∷ gap;
      after = after;
      parts =
          ap (λ (xs : List ℕ). before ++ xs)
            (e
              ∙ ap (λ (xs : List ℕ). first ++ c ∷ xs)
                  (e_gap ∙ ap (λ (xs : List ℕ). gap ++ xs) e_after));
      white = (w, (on, w_gap), w_after);
      word = piece;
      starts = starts_white-append _ after (subst (λ x. starts_white x ≡ false) e_after s_next);
      ends = ends;
      apart = inr (word_first first r c on (subst (λ x. starts_white x ≡ false) e starts), refl);
    }

-- The first word goes to the end.
last_word :
    (before first : List ℕ)
    → IsWhite before
    → IsPiece white_chars first
    → IsFirstSplit (before ++ first) first []
last_word before first w piece = record {
  before = before;
  gap = [];
  after = [];
  parts = ap (λ (xs : List ℕ). before ++ xs) (append_nil first);
  white = (w, tt, tt);
  word = piece;
  starts = unfold starts_white in refl;
  ends = unfold ends_white in refl;
  apart = inl refl;
}

-- What SplitStringOnFirstSpace returns, with white characters in front of it, between the two and
-- behind: the first word has no white character in it, and the rest neither starts nor ends with one.
-- If there is a rest, then there are a first word and a white character between the two.
pub split_string_on_first_space-IsFirstSplit :
    (s : List ℕ)
    → IsFirstSplit s (split_string_on_first_space s).0 (split_string_on_first_space s).1
unfolding split_string_on_first_space
split_string_on_first_space-IsFirstSplit s =
    let (before, e, w, starts) = erase_start-cut s in
    let from = erase_start s in
    let (found, piece) = find_first_of-IsFound white_chars from in
    let split = split_string_on_first_space s in
    subst (λ x. IsFirstSplit x split.0 split.1) (sym e)
      (elim (Bool-cases (is_empty from)) [
        | inl no' ↦ rw (no', is_empty-nil _ no') (last_word before [] w tt)
        | inr yes' ↦ elim (Option-cases (find_first_of white_chars from).1) [
          | inl q ↦
              let whole : from ≡ (find_first_of white_chars from).0 = rw q at found in
              rw (yes', q)
                (subst (λ x. IsFirstSplit (before ++ x) (find_first_of white_chars from).0 [])
                  (sym whole) (last_word before _ w piece))
          | inr (r, q) ↦
              let (c, on, cut, k) = rw q at found in
              rw (yes', q) (behind_word before from _ r c w starts on cut piece)
        ]
      ])
