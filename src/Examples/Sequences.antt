-- ===== src/Examples/Sequences.antt =====
-- src/include/dcd/mbr-decode.h at a short word sequence, and at a transducer with one path.
use opendcd.Prelude.{
  ℕ, zero, suc, ◌+◌, ◌*◌, ◌<◌, ◌≡◌, refl, some, List, [], ◌∷◌, length, get_or, arith, ◌==◌,
}
use opendcd.Mbr.{Arc, Fst, Semiring, get_linear_symbol_sequence, normalize_eps, remove_eps}
use opendcd.Mbr.Epsilon.{normalize_eps_lem}
use opendcd.Mbr.Linear.{at_arc, at_end, get_linear_symbol_sequence-IsLinear}

abbrev words : List ℕ
words = 5 ∷ 0 ∷ 7 ∷ []

normalize_eps-words : normalize_eps words ≡ 0 ∷ 5 ∷ 0 ∷ 7 ∷ 0 ∷ []
unfolding normalize_eps
normalize_eps-words = refl

normalize_eps_lem_example :
    (length (normalize_eps words) ≡ 1 + length (remove_eps words) * 2)
    × (get_or (normalize_eps words) 0 1 ≡ 0)
    × ((j : ℕ)
        → j < length (remove_eps words)
        → (get_or (normalize_eps words) (j * 2 + 1) 0 ≡ get_or (remove_eps words) j 0)
          × (get_or (normalize_eps words) (j * 2 + 2) 1 ≡ 0))
normalize_eps_lem_example = normalize_eps_lem words

-- Weights are costs, and Zero is 99.
abbrev costs : Semiring ℕ
costs = record { one_weight = 0; zero_weight = 99; times = λ a b. a + b; is_zero = λ w. w == 99 }

abbrev arc : ℕ → ℕ → ℕ → Arc ℕ
arc label weight next = record { ilabel = label; olabel = label; weight = weight; nextstate = next }

abbrev arcs : ℕ → List (Arc ℕ)
arcs zero = arc 5 1 1 ∷ []
arcs (suc zero) = arc 0 2 2 ∷ []
arcs (suc (suc q)) = []

abbrev final : ℕ → ℕ
final zero = 99
final (suc zero) = 99
final (suc (suc q)) = 4

abbrev path : Fst ℕ
path = record { start = some 0; arcs = arcs; final = final }

get_linear_symbol_sequence-IsLinear_example :
    get_linear_symbol_sequence costs path 3
    ≡ some (some (record { isymbols = 5 ∷ []; osymbols = 5 ∷ []; total = 7 }))
unfolding remove_eps
get_linear_symbol_sequence-IsLinear_example =
    get_linear_symbol_sequence-IsLinear costs path 3 0 (arc 5 1 1 ∷ arc 0 2 2 ∷ []) 4 refl
      (at_arc refl refl (at_arc refl refl (at_end refl refl))) (omega arith)
