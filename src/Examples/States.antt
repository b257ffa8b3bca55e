-- ===== src/Examples/States.antt =====
-- src/include/dcd/clevel-decoder.h at two search states, with fixed-point costs: the one at address 5 is
-- not active, the one at 6 is, and holds the lattice state 1.
use opendcd.Prelude.{
  ℕ, zero, suc, ◌+◌, ◌≡◌, refl, inl, inr, true, false, some, [], ◌∷◌, pos, negsuc, update, arith,
  ==_iff, ◌==◌, get_elem?, Bool-cases,
}
use opendcd.Prelude.Float.{fixed}
use opendcd.Token.{Token, active, inactive}
use opendcd.Lattice.{Lattice, LatticeOptions, init_state}
use opendcd.Lattice.Valid.{IsValid}
use opendcd.Lattice.Pool.{empty_lattice, create_start_state, new_state}
use opendcd.Lattice.Pool.Fresh.{new_state-IsValid}
use opendcd.Lattice.Pool.Start.{empty_lattice-IsValid, create_start_state-IsValid}
use opendcd.Decoder.Arc.{SearchArc, search_arc, get_exit_token}
use opendcd.Decoder.Enter.{ArcStore}
use opendcd.Decoder.Enter.Listed.{IsListed}
use opendcd.Decoder.State.{
  SearchState, StateStore, search_state, activate, set_token_from, state_active,
}
use opendcd.Decoder.State.Active.{IsActiveList, IsActivated, activate-IsActivated}
use opendcd.Decoder.State.Arrive.{IsArrived, set_token_from-IsArrived}
use opendcd.Decoder.Advance.{Search, expand_active_states}
use opendcd.Decoder.Advance.Emptied.{IsKept, IsFilled, expand_active_states-IsKept}

abbrev waiting : Token ℕ
waiting = record { tb = some 1; cost = 100040 }

-- A state with its position and its token.
abbrev listed_state : ℕ → Token ℕ → SearchState ℕ
listed_state i t = record {
  token = t;
  last_activated = pos 3;
  ref_count = pos 0;
  index = pos i;
  state_id = pos 9;
  num_activations = 1;
  in_eps_queue = false;
  final_cost = 100000;
  arcs = 4 ∷ 2 ∷ [];
  eps_arcs = [];
}

abbrev two_states : StateStore ℕ
two_states = record {
  state = update (λ a. search_state 100000) 6 (listed_state 0 waiting);
  active_states = some 6 ∷ [];
}

two_states-IsActiveList : IsActiveList two_states
unfolding search_state active inactive
two_states-IsActiveList = record {
  at = two_states-at;
  token = λ a. elim (Bool-cases (6 == a)) [
    | inl e ↦ rw e (inl (refl, 0, refl))
    | inr n ↦ rw n (inr (refl, refl))
  ];
}
  where
    two_states-at :
        (a i : ℕ)
        → (get_elem? two_states.active_states i ≡ some (some a)
            → (two_states.state a).index ≡ pos i)
          × ((two_states.state a).index ≡ pos i
              → get_elem? two_states.active_states i ≡ some (some a))
    two_states-at a zero = ground (arith, ==_iff 6 a)
    two_states-at a (suc i) = ground (arith, ==_iff 6 a)

activate-IsActivated_example :
    (s' : StateStore ℕ) × (activate waiting (pos 4) 5 two_states ≡ some s')
    × IsActivated waiting 5 two_states s'
unfolding active
activate-IsActivated_example =
    activate-IsActivated waiting (pos 4) 5 two_states two_states-IsActiveList refl

abbrev idle_arcs : ArcStore ℕ
idle_arcs = record {
  arc = λ a. search_arc (pos 7) (pos 8) (100000 + a) (pos 3) 100001 3;
  active_arcs = [];
}

idle_arcs-IsListed : IsListed idle_arcs
unfolding search_arc
idle_arcs-IsListed = record { listed = λ a. ground arith; nodup = tt }

abbrev frame : Search ℕ
frame = record {
  states = two_states;
  arcs = idle_arcs;
  best_state_cost = 100040;
  time = pos 4;
  max_active_states = 0;
  total_num_states_pruned = 0;
  total_num_states_expanded = 0;
}

frame-IsFilled : IsFilled two_states.active_states 0
frame-IsFilled zero h k = (6, refl)
frame-IsFilled (suc j) h k = absurd (omega arith)

expand_active_states-IsKept_example :
    (d' : Search ℕ) × (expand_active_states 100010 frame ≡ some d')
    × IsKept frame d'
    × (d'.states.active_states ≡ [])
    × ((a : ℕ) → state_active (d'.states.state a) ≡ false)
expand_active_states-IsKept_example =
    expand_active_states-IsKept 100010 frame refl two_states-IsActiveList idle_arcs-IsListed
      frame-IsFilled

-- The lattice with its start state 0 and the state 1.
abbrev lattice : Lattice ℕ
lattice =
    (new_state (pos 0) (pos 1)
      (create_start_state (pos 0)
        (empty_lattice true (λ a. init_state (negsuc 0) (negsuc 0) (negsuc 0) (negsuc 0) 0) 0)).1).1

lattice-IsValid : IsValid lattice
lattice-IsValid =
    (new_state-IsValid (pos 0) (pos 1) _
      (create_start_state-IsValid (pos 0) _ (empty_lattice-IsValid true _ 0))).0

used-lattice : lattice.used_list ≡ 0 ∷ 1 ∷ []
unfolding new_state create_start_state empty_lattice
used-lattice = refl

-- An arc of a single state whose token is about to leave.
abbrev leaving : SearchArc ℕ
leaving = record (search_arc (pos 7) (pos 8) 100005 (pos 3) 100001 0) { tokens = waiting ∷ [] }

exit-leaving : get_exit_token leaving ≡ record { tb = some 1; cost = 100041 }
unfolding get_exit_token search_arc active
exit-leaving = refl

abbrev wide : LatticeOptions ℕ
wide = record { gen_lattice = true; lattice_beam = 101000 }

set_token_from-IsArrived_example :
    (costs : ℕ × ℕ) × (s' : StateStore ℕ) × (l' : Lattice ℕ) × (set_token_from leaving
        (pos 4)
        100060
        wide
        5
        two_states
        lattice
      ≡ some (costs, s', l'))
    × IsArrived leaving 5 two_states s' l' costs.0
unfolding search_state inactive get_exit_token search_arc active
set_token_from-IsArrived_example =
    set_token_from-IsArrived leaving (pos 4) 100060 wide 5 1 two_states lattice
      two_states-IsActiveList lattice-IsValid (inl refl) refl (rw used-lattice (inr (inl refl)))
      (omega arith) (omega arith)
