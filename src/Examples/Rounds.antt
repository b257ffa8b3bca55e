-- ===== src/Examples/Rounds.antt =====
-- src/include/dcd/clevel-decoder.h, ExpandActiveArcs_ArcExpansion at two active arcs and a null entry. The
-- transition model adds the label of the arc to the cost of its first token.
use opendcd.Prelude.{
  ℕ, zero, suc, ◌+◌, ◌≡◌, refl, Option, none, some, List, [], ◌∷◌, ℤ, pos, negsuc, ==_iff, arith,
  get_elem?, Bool-cases, sym, ap, ◌⊎◌, inl, inr, ◌==◌, if◌then◌else◌,
}
use opendcd.Prelude.Float.{fixed}
use opendcd.Token.{Token}
use opendcd.Decoder.Arc.{SearchArc, search_arc}
use opendcd.Decoder.Expansion.{ArcSearch, ArcSearchOptions, Thresholds, arc_expansion}
use opendcd.Decoder.Expansion.Exact.{IsExact}
use opendcd.Decoder.Expansion.Step.{IsRound}
use opendcd.Decoder.Expansion.Pruned.{arc_expansion-IsRound}

abbrev label_cost : ℤ → ℕ
label_cost (pos n) = 100000 + n
label_cost (negsuc n) = 100000

abbrev advance : ℤ → Thresholds ℕ → List (Token ℕ) → List (Token ℕ) × ℕ × ℕ
advance label opts tokens = (tokens, label_cost label, 100000)

abbrev options : ArcSearchOptions ℕ
options = record { beam = 100003; band = 2; acoustic_lookahead = 100000; delta = 100001 }

abbrev idle_arc : ℕ → SearchArc ℕ
idle_arc a = search_arc (pos a) (pos 8) 100000 (pos 3) 100001 3

-- Arcs 2 and 9 are active.
abbrev arcs : ℕ → SearchArc ℕ
arcs a = record (idle_arc a) { time = if a == 2 then pos 5 else if a == 9 then pos 5 else negsuc 0 }

abbrev active : List (Option ℕ)
active = some 2 ∷ none ∷ some 9 ∷ []

abbrev search : ArcSearch ℕ
search = record {
  arc = arcs;
  active_arcs = active;
  arc_costs = 0 ∷ 0 ∷ 0 ∷ [];
  threshold = fixed.max_cost;
  best_arc_cost = fixed.max_cost;
  worst_arc_cost = 0;
  num_arcs_pruned = 0;
  total_num_arcs_pruned = 0;
  total_num_arcs_lookahead_pruned = 0;
  total_num_arc_expanded = 0;
  max_active_arcs = 3;
}

entry-cases :
    (i a : ℕ) → get_elem? active i ≡ some (some a) → ((i ≡ 0) × (a ≡ 2)) ⊎ ((i ≡ 2) × (a ≡ 9))
entry-cases zero a h = inl (refl, cc)
entry-cases (suc zero) a h = cc
entry-cases (suc (suc zero)) a h = inr (refl, cc)
entry-cases (suc (suc (suc i))) a h = cc

active-IsExact : IsExact arcs active
unfolding search_arc
active-IsExact = record {
  sound = λ a i h. ground (arith, entry-cases i a h, ==_iff a 2, ==_iff a 9);
  complete = λ a h. elim (Bool-cases (a == 2)) [
    | inl two ↦ (0, ap (λ n. some (some n)) (sym ((==_iff a 2).0 two)))
    | inr other ↦ (2, ap (λ n. some (some n)) (ground (arith, ==_iff a 9)))
  ];
  unique = λ a i j h k. ground (arith, entry-cases i a h, entry-cases j a k);
}

arc_expansion-IsRound_example : IsRound options 3 (arc_expansion advance options search)
arc_expansion-IsRound_example = arc_expansion-IsRound options advance search active-IsExact refl

-- The arc with label 9 is too costly beside the one with label 2.
arc_expansion-prunes :
    (arc_expansion advance options search).search.active_arcs ≡ some 2 ∷ none ∷ none ∷ []
unfolding arc_expansion search_arc
arc_expansion-prunes = refl
