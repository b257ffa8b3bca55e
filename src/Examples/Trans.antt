-- ===== src/Examples/Trans.antt =====
-- src/include/dcd/hmm-transition-model.h and src/include/dcd/generic-transition-model.h at small
-- topologies, with fixed-point costs.
use opendcd.Prelude.{
  ℕ, zero, suc, ◌+◌, ◌≤◌, ◌≡◌, refl, ◌⊎◌, some, List, [], ◌∷◌, ℤ, pos, length, arith,
}
use opendcd.Prelude.Float.{key, fixed, max_cost}
use opendcd.Token.{Token, active, clear, inactive}
use opendcd.Trans.{TopoArc, Topology, expand_generic, expand_hmm}
use opendcd.Trans.Viterbi.{cands, IsTopology}
use opendcd.Trans.Expand.{IsViterbi, expand_IsViterbi}
use opendcd.Trans.Bakis.{expand_left_to_right, expand_left_to_right_lem, hop}

abbrev state_score : ℤ → ℕ
state_score (pos n) = 100000 + n
state_score _ = 100000

abbrev topo_arc : ℕ → ℕ → ℕ → TopoArc ℕ
topo_arc l w n = record { ilabel = pos l; weight = w; nextstate = n }

-- Two emitting states after the entry state, each with a loop.
abbrev two_states : Topology ℕ
two_states =
    (topo_arc 1 100000 1 ∷ [])
    ∷ (topo_arc 1 100007 1 ∷ topo_arc 2 100007 2 ∷ [])
    ∷ (topo_arc 2 100003 2 ∷ [])
    ∷ []

two_states-IsTopology : IsTopology two_states (length two_states)
two_states-IsTopology zero = (omega arith, tt)
two_states-IsTopology (suc zero) = (omega arith, (omega arith, tt))
two_states-IsTopology (suc (suc zero)) = (omega arith, tt)
two_states-IsTopology (suc (suc (suc i))) = tt

abbrev token : ℕ → ℕ → Token ℕ
token b c = record { tb = some b; cost = c }

abbrev tokens_before : List (Token ℕ)
tokens_before = token 4 100050 ∷ token 5 100020 ∷ inactive ∷ inactive ∷ []

abbrev scratch : List (Token ℕ)
scratch = inactive ∷ inactive ∷ token 9 100001 ∷ []

expand_IsViterbi_example :
    IsViterbi 100200 3
      (cands state_score two_states tokens_before 2 0)
      tokens_before
      (expand_hmm state_score two_states 100200 scratch tokens_before).0
      (expand_hmm state_score two_states 100200 scratch tokens_before).1.0
    × IsViterbi 100200 3
        (cands state_score two_states tokens_before 2 0)
        tokens_before
        (expand_generic state_score two_states 100200 2147583647 scratch tokens_before).0
        (expand_generic state_score two_states 100200 2147583647 scratch tokens_before).1.0
expand_IsViterbi_example =
    expand_IsViterbi state_score two_states 100200 scratch tokens_before two_states-IsTopology
      (omega arith) (omega arith) 2147583647 (omega arith)

abbrev loop_weights : List ℕ
loop_weights = 100001 ∷ 100002 ∷ 100001 ∷ 100002 ∷ 100001 ∷ 100002 ∷ []

abbrev labels : List ℤ
labels = pos 0 ∷ pos 1 ∷ pos 2 ∷ pos 3 ∷ []

abbrev bakis_hop : ℕ → Token ℕ → Token ℕ → Token ℕ
bakis_hop = hop state_score loop_weights labels

abbrev bakis_after : List (Token ℕ) × (ℕ × ℕ)
bakis_after =
    expand_left_to_right state_score loop_weights labels
      (token 4 100050 ∷ token 5 100020 ∷ inactive ∷ inactive ∷ [])

expand_left_to_right_lem_example :
    (bakis_after.0
      ≡ clear (token 4 100050)
        ∷ bakis_hop 1 (token 4 100050) (token 5 100020)
        ∷ bakis_hop 2 (token 5 100020) inactive
        ∷ bakis_hop 3 inactive inactive
        ∷ [])
    × ((key bakis_after.1.0 ≤ key (bakis_hop 1 (token 4 100050) (token 5 100020)).cost)
        × (key bakis_after.1.0 ≤ key (bakis_hop 2 (token 5 100020) inactive).cost)
        × (key bakis_after.1.0 ≤ key (bakis_hop 3 inactive inactive).cost))
    × ((bakis_after.1.0 ≡ max_cost)
        ⊎ (bakis_after.1.0 ≡ (bakis_hop 1 (token 4 100050) (token 5 100020)).cost)
        ⊎ (bakis_after.1.0 ≡ (bakis_hop 2 (token 5 100020) inactive).cost)
        ⊎ (bakis_after.1.0 ≡ (bakis_hop 3 inactive inactive).cost))
unfolding inactive active
expand_left_to_right_lem_example =
    expand_left_to_right_lem state_score loop_weights labels (token 4 100050) (token 5 100020)
      inactive inactive [] (λ h. ground arith) (λ h. refl) (λ h. refl)
