-- ===== src/Examples/Text.antt =====
-- src/lib/text-utils.cc at short strings, "a,,b" and one with white characters around, by codes.
use opendcd.Prelude.{ℕ, ◌≡◌, refl, true, false, some, List, [], ◌∷◌, All}
use opendcd.Text.{split_string_to_vector, join_vector_to_string, trim}
use opendcd.Text.Split.{IsPiece, join-split_string}
use opendcd.Text.FirstSpace.{
  IsFirstSplit, split_string_on_first_space, split_string_on_first_space-IsFirstSplit,
}
use opendcd.Text.Pieces.{IsCut, split_string-IsCut}

abbrev text : List ℕ
text = 97 ∷ 44 ∷ 44 ∷ 98 ∷ []

join-split_string_example :
    (out : List (List ℕ)) × (split_string_to_vector text (44 ∷ []) false ≡ some out)
    × (join_vector_to_string out (44 ∷ []) false ≡ text)
    × All (IsPiece (44 ∷ [])) out
join-split_string_example = join-split_string 44 text

split_string-IsCut_example :
    (out : List (List ℕ)) × (split_string_to_vector text (32 ∷ 44 ∷ []) true ≡ some out)
    × IsCut (32 ∷ 44 ∷ []) true text out
split_string-IsCut_example = split_string-IsCut (32 ∷ 44 ∷ []) text true

pieces-text : split_string_to_vector text (32 ∷ 44 ∷ []) true ≡ some ((97 ∷ []) ∷ (98 ∷ []) ∷ [])
unfolding split_string_to_vector
pieces-text = refl

abbrev padded : List ℕ
padded = 32 ∷ 9 ∷ 97 ∷ 32 ∷ 98 ∷ 10 ∷ []

trim-padded : trim padded ≡ 97 ∷ 32 ∷ 98 ∷ []
unfolding trim
trim-padded = refl

split_string_on_first_space-IsFirstSplit_example :
    IsFirstSplit padded
      (split_string_on_first_space padded).0
      (split_string_on_first_space padded).1
split_string_on_first_space-IsFirstSplit_example = split_string_on_first_space-IsFirstSplit padded

first_space-padded : split_string_on_first_space padded ≡ (97 ∷ [], 98 ∷ [])
unfolding split_string_on_first_space
first_space-padded = refl

first_space-white : split_string_on_first_space (32 ∷ 10 ∷ []) ≡ ([], [])
unfolding split_string_on_first_space
first_space-white = refl
