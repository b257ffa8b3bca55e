-- ===== src/Examples/Expansions.antt =====
-- src/include/dcd/arc-expand-fst.h at a transducer with one emitting arc and one epsilon out of its
-- start state, in either order. Label 0 has a topology of three states, label 1 is the epsilon.
use opendcd.Prelude.{ℕ, ◌≡◌, refl, true, false, none, some, List, [], ◌∷◌}
use opendcd.ArcExpand.{
  Arc, Expanded, Fst, Sources, add_element, arc_expand, at_state, enter_element, expand_state,
  find_element, is_epsilon,
}
use opendcd.ArcExpand.Numbering.{IsAdded, IsNumbered, add_element-IsAdded, enter_element-IsNumbered}
use opendcd.ArcExpand.Outer.{IsPushed, expand_state-IsPushed}
use opendcd.ArcExpand.Labels.{IsLabelled, find_type_label-behind_epsilon, find_type_label-expanded}

abbrev arc : ℕ → ℕ → Arc ℕ
arc label next = record { ilabel = label; olabel = 7; weight = 3; nextstate = next }

abbrev topology : ℕ → Fst ℕ
topology n = record { start = 0; num_states = n; arcs = λ s. []; final = λ s. 0 }

abbrev transducer : List (Arc ℕ) → Fst ℕ
transducer arcs = record { start = 0; num_states = 2; arcs = λ s. arcs; final = λ s. 5 }

abbrev sources : List (Arc ℕ) → Sources ℕ
sources arcs = record {
  fst = transducer arcs;
  arcs = topology 3 ∷ topology 2 ∷ [];
  epsilons = 1 ∷ [];
  numstates = 3 ∷ 2 ∷ [];
  zero_weight = 0;
}

constructed :
    (arcs : List (Arc ℕ))
    → arc_expand (transducer arcs) (topology 3 ∷ topology 2 ∷ []) 0 ≡ sources arcs
unfolding arc_expand
constructed arcs = refl

abbrev blank : Expanded ℕ
blank = record {
  elements = [];
  element2state = [];
  start = none;
  pushed = λ s. [];
  has_arcs = λ s. false;
  finals = λ s. none;
}

blank-IsNumbered : IsNumbered blank
unfolding find_element
blank-IsNumbered = record { sizes = refl; found = λ e d. (λ h. cc, λ h. cc) }

-- The start state is numbered.
abbrev started : Expanded ℕ
started = record blank { elements = at_state 0 ∷ []; element2state = (at_state 0, 0) ∷ [] }

started-IsNumbered : IsNumbered started
unfolding enter_element find_element
started-IsNumbered = enter_element-IsNumbered (at_state 0) blank blank-IsNumbered refl

add_element-IsAdded_example :
    (d : ℕ) × (y : Expanded ℕ) × (add_element (at_state 4) started ≡ some (d, y))
    × IsAdded (at_state 4) started d y
add_element-IsAdded_example = add_element-IsAdded (at_state 4) started started-IsNumbered

abbrev emitting_first : List (Arc ℕ)
emitting_first = arc 0 1 ∷ arc 1 1 ∷ []

abbrev epsilon_first : List (Arc ℕ)
epsilon_first = arc 1 1 ∷ arc 0 1 ∷ []

expand_state-IsPushed_example :
    (y : Expanded ℕ) × (expand_state (sources epsilon_first) 0 started ≡ some y)
    × IsPushed (sources epsilon_first) 0 0 0 epsilon_first started y
    × (y.has_arcs 0 ≡ true)
expand_state-IsPushed_example =
    expand_state-IsPushed (sources epsilon_first) 0 0 started started-IsNumbered refl

find_type_label-expanded_example :
    (y : Expanded ℕ) × (expand_state (sources emitting_first) 0 started ≡ some y)
    × IsLabelled (sources emitting_first) 0 0 y 0 0 0
unfolding is_epsilon
find_type_label-expanded_example =
    find_type_label-expanded (sources emitting_first) 0 0 started [] (arc 1 1 ∷ []) (arc 0 1)
      started-IsNumbered refl refl refl tt refl

find_type_label-behind_epsilon_example :
    (y : Expanded ℕ) × (expand_state (sources epsilon_first) 0 started ≡ some y)
    × IsLabelled (sources epsilon_first) 0 0 y 1 0 1
unfolding is_epsilon
find_type_label-behind_epsilon_example =
    find_type_label-behind_epsilon (sources epsilon_first) 0 0 started [] [] (arc 1 1) (arc 0 1)
      started-IsNumbered refl refl refl tt refl refl
