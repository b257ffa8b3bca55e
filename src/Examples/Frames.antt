-- ===== src/Examples/Frames.antt =====
-- src/include/dcd/clevel-decoder.h, ExpandActiveArcs, at one active arc, whose last token goes on to the state
-- behind the arc. The transition model leaves the tokens as they are.
use opendcd.Prelude.{
  ℕ, zero, suc, ◌≡◌, refl, ap, true, false, Option, none, some, List, [], ◌∷◌, All, get_elem?,
  get_or, ℤ, pos, negsuc, ◌==◌, ==_iff, arith, if◌then◌else◌,
}
use opendcd.Prelude.Float.{fixed}
use opendcd.Token.{Token, inactive}
use opendcd.Lattice.{LatticeOptions, init_state}
use opendcd.Decoder.Arc.{SearchArc, get_exit_cost}
use opendcd.Decoder.State.{SearchState, search_state}
use opendcd.Decoder.Expansion.{ArcSearch, ArcSearchOptions, Thresholds}
use opendcd.Decoder.Expansion.Exact.{IsExact}
use opendcd.Decoder.Compaction.{Frame, expand_active_arcs}
use opendcd.Decoder.Compaction.Kept.{IsArc}
use opendcd.Decoder.Compaction.Exact.{expand_active_arcs-IsExact}

abbrev advance : ℤ → Thresholds ℕ → List (Token ℕ) → List (Token ℕ) × ℕ × ℕ
advance label opts tokens = (tokens, 100002, 100000)

abbrev options : ArcSearchOptions ℕ
options = record { beam = 100010; band = 2; acoustic_lookahead = 100000; delta = 100001 }

abbrev best_of_all : LatticeOptions ℕ
best_of_all = record { gen_lattice = false; lattice_beam = 100010 }

abbrev numbered : ℕ → SearchState ℕ → SearchState ℕ
numbered state x = record x { state_id = pos state }

-- Arc 2 is active.
abbrev arcs : ℕ → SearchArc ℕ
arcs a = record {
  tokens = inactive ∷ record { tb = some 0; cost = 100001 } ∷ [];
  dest = none;
  ilabel = pos 4;
  olabel = pos 8;
  weight = 100000;
  nextstate = pos 3;
  exit_weight = 100001;
  num_states = 1;
  num_expansions = 0;
  time = if a == 2 then pos 5 else negsuc 0;
}

abbrev search : ArcSearch ℕ
search = record {
  arc = arcs;
  active_arcs = some 2 ∷ [];
  arc_costs = [];
  threshold = 100000;
  best_arc_cost = 100000;
  worst_arc_cost = 100000;
  num_arcs_pruned = 0;
  total_num_arcs_pruned = 0;
  total_num_arcs_lookahead_pruned = 0;
  total_num_arc_expanded = 0;
  max_active_arcs = 0;
}

abbrev frame : Frame ℕ
frame = record {
  search = search;
  hash = record {
    cell = λ a. search_state 100000;
    entries = [];
    pool = [];
    fresh = 7;
    use_pool = true;
    num_allocs = 0;
    num_frees = 0;
    num_requests = 0;
    num_misses = 0;
    num_hits = 0;
  };
  active_states = [];
  lattice = record {
    cell = λ a. init_state (pos 0) (pos 0) (pos 0) (pos 0) 100000;
    fresh = 1;
    used_list = 0 ∷ [];
    free_list = [];
    next_id = 1;
    num_allocs = 1;
    num_frees = 0;
    use_pool = true;
  };
  time = pos 5;
  num_exit_tokens = 0;
  num_exit_tokens_pruned = 0;
  total_num_arcs_hisogram_pruned = 0;
  num_active_arcs_after_prune = 0;
  num_active_arcs = 1;
}

abbrev or_same : Frame ℕ → Option (Frame ℕ) → Frame ℕ
or_same d none = d
or_same d (some d') = d'

abbrev run : Option (Frame ℕ)
run = expand_active_arcs numbered best_of_all options advance (λ costs n. get_or costs n 0) 0 frame

abbrev after : Frame ℕ
after = or_same frame run

run-active_arcs : after.search.active_arcs ≡ some 2 ∷ []
unfolding expand_active_arcs get_exit_cost
run-active_arcs = refl

run-active_states : after.active_states ≡ some 7 ∷ []
unfolding expand_active_arcs get_exit_cost search_state
run-active_states = refl

run-after : run ≡ some after
unfolding expand_active_arcs get_exit_cost
run-after = refl

entry-first : (i a : ℕ) → get_elem? search.active_arcs i ≡ some (some a) → (i ≡ 0) × (a ≡ 2)
entry-first zero a h = (refl, cc)
entry-first (suc i) a h = cc

frame-IsExact : IsExact arcs search.active_arcs
frame-IsExact = record {
  sound = λ a i h. ground (arith, entry-first i a h, ==_iff a 2);
  complete = λ a h. (0, ap (λ n. some (some n)) (ground (arith, ==_iff a 2)));
  unique = λ a i j h k. ground (arith, entry-first i a h, entry-first j a k);
}

expand_active_arcs-IsExact_example :
    IsExact after.search.arc after.search.active_arcs × All IsArc after.search.active_arcs
expand_active_arcs-IsExact_example =
    expand_active_arcs-IsExact numbered best_of_all options advance (λ costs n. get_or costs n 0) 0
      frame after frame-IsExact run-after
