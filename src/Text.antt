-- ===== src/Text.antt =====
-- src/lib/text-utils.cc: splitting, joining and trimming strings. A string is the list of its characters'
-- codes, and an index into it is the rest of the string from there on.
pub mod Split
pub mod Pieces
pub mod Trim
pub mod FirstSpace
use Prim.Native.Char.{code}
use Prim.Native.String.{String}
use opendcd.Prelude.{
  ℕ, zero, suc, ◌+◌, Bool, true, false, not, Option, none, some, List, [], ◌∷◌, ◌++◌, length, ◌==◌,
  ◌&&◌, ◌||◌, if◌then◌else◌,
}

-- The code points of a text: its bytes, if it is ASCII.
abbrev pub codes : String → List ℕ
codes String.[] = []
codes (String.◌∷◌ c s) = code c ∷ codes s

abbrev pub is_empty : List ℕ → Bool
is_empty [] = true
is_empty (x ∷ xs) = false

-- Whether a character is one of `delim`.
unfoldable pub is_one_of : List ℕ → ℕ → Bool
is_one_of [] c = false
is_one_of (d ∷ delim) c = (c == d) || is_one_of delim c

-- find_first_of: what stands before the first delimiter, and after it; `none` is npos.
unfoldable pub find_first_of : List ℕ → List ℕ → List ℕ × Option (List ℕ)
unfolding is_one_of
find_first_of delim [] = ([], none)
find_first_of delim (c ∷ s) =
    let (before, found) = find_first_of delim s in
    if is_one_of delim c then ([], some s) else (c ∷ before, found)

-- `if (cond) out->push_back(piece)`, in front of what the later rounds push
unfoldable pub push_if : Bool → List ℕ → List (List ℕ) → List (List ℕ)
push_if keep piece out = if keep then piece ∷ out else out

-- The loop of SplitStringToVector, from `start` on. `none` is out of fuel.
unfoldable pub split_loop : ℕ → List ℕ → Bool → List ℕ → Option (List (List ℕ))
unfolding find_first_of push_if
split_loop zero delim omit s = none
split_loop (suc n) delim omit s =
    let (piece, found) = find_first_of delim s in
    elim found [
      | none ↦ some (push_if (not omit || not (is_empty s)) piece [])
      | some rest ↦ elim (split_loop n delim omit rest) [
        | none ↦ none
        | some out ↦ some (push_if (not omit || not (is_empty piece)) piece out)
      ]
    ]

-- SplitStringToVector, where every round but the last goes past a delimiter
unfoldable pub split_string_to_vector : List ℕ → List ℕ → Bool → Option (List (List ℕ))
unfolding split_loop
split_string_to_vector full delim omit = split_loop (length full + 1) delim omit full

-- JoinVectorToString
unfoldable pub join_vector_to_string : List (List ℕ) → List ℕ → Bool → List ℕ
join_vector_to_string [] delim omit = []
join_vector_to_string (x ∷ []) delim omit = if not omit || not (is_empty x) then x else []
join_vector_to_string (x ∷ y ∷ xs) delim omit =
    let rest = join_vector_to_string (y ∷ xs) delim omit in
    if not omit || not (is_empty x)
    then x ++ (if not omit || not (is_empty y) then delim ++ rest else rest)
    else rest

-- The characters " \t\n\r\f\v"
abbrev pub white_chars : List ℕ
white_chars = 32 ∷ 9 ∷ 10 ∷ 13 ∷ 12 ∷ 11 ∷ []

-- Erases what follows the last character that is not white, the whole string if there is none.
unfoldable pub erase_end : List ℕ → List ℕ
unfolding is_one_of
erase_end [] = []
erase_end (c ∷ s) =
    let rest = erase_end s in if is_empty rest && is_one_of white_chars c then [] else c ∷ rest

-- Erases what precedes the first character that is not white.
unfoldable pub erase_start : List ℕ → List ℕ
unfolding is_one_of
erase_start [] = []
erase_start (c ∷ s) = let rest = erase_start s in if is_one_of white_chars c then rest else c ∷ s

-- Trim
unfoldable pub trim : List ℕ → List ℕ
unfolding erase_end erase_start
trim s = erase_start (erase_end s)
