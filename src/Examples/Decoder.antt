-- ===== src/Examples/Decoder.antt =====
-- src/include/dcd/clevel-decoder.h at small search arcs and lists of states, with fixed-point costs.
use opendcd.Prelude.{ℕ, ◌+◌, ◌≤◌, ◌≡◌, refl, ◌⊎◌, none, some, List, [], ◌∷◌, pos, set, arith}
use opendcd.Prelude.Float.{fixed, max_cost}
use opendcd.Token.{Token, inactive}
use opendcd.Decoder.Arc.{SearchArc, search_arc}
use opendcd.Decoder.Arc.Prune.{Nonzero}
use opendcd.Decoder.Final.{FinalState, backoff, require_final, find_best_state}
use opendcd.Decoder.Final.Choice.{IsBestFinal, NoFinal, find_best_state-final}
use opendcd.Decoder.Enter.{ArcStore, expand_into_arcs}
use opendcd.Decoder.Enter.Listed.{IsListed, IsEntered, expand_into_arcs-IsEntered}

abbrev entry : ℕ → Token ℕ
entry c = record { tb = some 1; cost = c }

-- An arc with three states and tokens in the first two.
abbrev two_tokens : SearchArc ℕ
two_tokens =
    let a = search_arc (pos 7) (pos 8) 100005 (pos 3) 100001 3 in
    record a { tokens = set (set a.tokens 1 (entry 100040)) 2 (entry 100030) }

-- Every token of `two_tokens` costs more than -200, so none of the sums is zero.
two_tokens-Nonzero : (j : ℕ) → j ≤ 3 → Nonzero 100200 two_tokens j
unfolding search_arc inactive
two_tokens-Nonzero j h = ground arith

abbrev not_final : ℕ → FinalState ℕ
not_final c = record { cost = c; final_cost = 2147583647 }

abbrev no_final : List (FinalState ℕ)
no_final = not_final 100003 ∷ not_final 100005 ∷ []

abbrev some_final : List (FinalState ℕ)
some_final =
    not_final 100003
    ∷ record { cost = 100020; final_cost = 100001 }
    ∷ record { cost = 100010; final_cost = 100004 }
    ∷ []

find_best_state-final_example :
    (((i : ℕ) × (find_best_state require_final some_final ≡ some i) × IsBestFinal some_final i)
      ⊎ ((find_best_state require_final some_final ≡ none) × NoFinal some_final))
    × ((find_best_state require_final some_final ≡ none)
        ⊎ (find_best_state backoff some_final ≡ find_best_state require_final some_final))
find_best_state-final_example = find_best_state-final some_final

abbrev idle : ArcStore ℕ
idle = record {
  arc = λ a. search_arc (pos 7) (pos 8) (100000 + a) (pos 3) 100001 3;
  active_arcs = [];
}

idle-IsListed : IsListed idle
unfolding search_arc
idle-IsListed = record { listed = λ a. ground arith; nodup = tt }

expand_into_arcs-IsEntered_example :
    IsEntered
      (entry 100040)
      100050
      (pos 12)
      refl
      (4 ∷ 30 ∷ 2 ∷ [])
      idle
      (expand_into_arcs (entry 100040) 100050 (pos 12) (4 ∷ 30 ∷ 2 ∷ []) idle).0
      max_cost
      (expand_into_arcs (entry 100040) 100050 (pos 12) (4 ∷ 30 ∷ 2 ∷ []) idle).1
expand_into_arcs-IsEntered_example =
    expand_into_arcs-IsEntered (entry 100040) 100050 (pos 12) refl (4 ∷ 30 ∷ 2 ∷ []) idle
      idle-IsListed
