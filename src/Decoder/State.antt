-- ===== src/Decoder/State.antt =====
-- src/include/dcd/clevel-decoder.h, class SearchState, and the list of active states. Search states live
-- in a store under addresses; a null pointer in the list is `none`. The arcs are addresses of search
-- arcs. `none` as a result is the fatal error, a failed assertion, or a read at the index -1.
pub mod Active
pub mod Sync
pub mod Arrive
use opendcd.Prelude.{
  ℕ, ◌+◌, Bool, true, false, Option, none, some, List, [], ◌∷◌, ◌++◌, ℤ, pos, negsuc, update,
  length, set, get_elem?, ◌==◌, if◌then◌else◌,
}
use opendcd.Prelude.Float.{Float, add, lt, max_cost}
use opendcd.Token.{Token, inactive, active, clear}
use opendcd.Lattice.{Lattice, State, LatticeOptions, ArcInfo}
use opendcd.Lattice.Pool.{new_state, add_arc}
use opendcd.Decoder.Arc.{SearchArc, get_exit_token}

pub record SearchState (F : Type 0) : Type 0 where
  pub token : Token F
  pub last_activated : ℤ
  pub ref_count : ℤ
  pub index : ℤ
  pub state_id : ℤ
  pub num_activations : ℕ
  pub in_eps_queue : Bool
  pub final_cost : F
  pub arcs : List ℕ
  pub eps_arcs : List ℕ

pub record StateStore (F : Type 0) : Type 0 where
  pub state : ℕ → SearchState F
  pub active_states : List (Option ℕ)

-- `(*active_states)[i]`, out of bounds for a negative index
abbrev pub entry_at : List (Option ℕ) → ℤ → Option ℕ
entry_at xs (pos i) = elim (get_elem? xs i) [ none ↦ none | some e ↦ e ]
entry_at xs (negsuc i) = none

-- `(*active_states)[i] = 0`
abbrev pub null_at : List (Option ℕ) → ℤ → List (Option ℕ)
null_at xs (pos i) = set xs i none
null_at xs (negsuc i) = xs

-- `index_ == -1`
abbrev pub is_unlisted : ℤ → Bool
is_unlisted (pos n) = false
is_unlisted (negsuc n) = n == 0

abbrev pub is_at : Option ℕ → ℕ → Bool
is_at none a = false
is_at (some b) a = b == a

module _ {F : Type 0} ⦃f : Float F⦄ where
  -- SearchState::SearchState; the final cost is not set, and is a parameter
  unfoldable pub search_state : F → SearchState F
  unfolding inactive
  search_state final_cost = record {
    token = inactive;
    last_activated = negsuc 0;
    ref_count = pos 0;
    index = negsuc 0;
    state_id = negsuc 0;
    num_activations = 0;
    in_eps_queue = false;
    final_cost = final_cost;
    arcs = [];
    eps_arcs = [];
  }

  -- SearchState::Clear
  unfoldable pub clear_search_state : SearchState F → SearchState F
  unfolding clear
  clear_search_state s = record s {
    arcs = [];
    eps_arcs = [];
    final_cost = max_cost;
    in_eps_queue = false;
    index = negsuc 0;
    last_activated = negsuc 0;
    ref_count = pos 0;
    state_id = negsuc 0;
    token = clear s.token;
  }

  -- SearchState::Active
  abbrev pub state_active : SearchState F → Bool
  state_active s = active s.token

  -- The state stores its position, and its address goes to the end of the list.
  unfoldable pub push_state : ℕ → SearchState F → StateStore F → StateStore F
  push_state a x s = record {
    state = update s.state a (record x { index = pos (length s.active_states) });
    active_states = s.active_states ++ some a ∷ [];
  }

  -- The two ways of Activate: an active state keeps the better token, another one takes the new one.
  unfoldable pub refresh : Token F → ℤ → SearchState F → SearchState F
  refresh token time x = record x {
    token = if lt token.cost x.token.cost then token else x.token;
    last_activated = time;
  }

  unfoldable pub wake : Token F → ℤ → SearchState F → SearchState F
  wake token time x = record x {
    token = token;
    num_activations = x.num_activations + 1;
    last_activated = time;
  }

  -- SearchState::Activate
  unfoldable pub activate : Token F → ℤ → ℕ → StateStore F → Option (StateStore F)
  unfolding push_state refresh wake
  activate token time a s =
      let x = s.state a in
      if state_active x
      then (if is_at (entry_at s.active_states x.index) a
          then some (record s { state = update s.state a (refresh token time x) })
          else none)
      else some (push_state a (wake token time x) s)

  -- SearchState::Deactivate
  unfoldable pub deactivate : ℕ → StateStore F → StateStore F
  unfolding clear
  deactivate a s =
      let x = s.state a in
      record {
        state = update s.state a (record x { token = clear x.token; index = negsuc 0 });
        active_states = null_at s.active_states x.index;
      }

  -- float Combine(token, arc, lattice, time, threshold, opts) of src/include/dcd/token.h. Reading the
  -- forward cost of a null source is `none`.
  unfoldable pub combine_lattice :
      Token F
      → Token F
      → ArcInfo F
      → ℤ
      → ℤ
      → LatticeOptions F
      → Lattice F
      → Option (Token F × (F × F) × Lattice F)
  unfolding active new_state add_arc
  combine_lattice t token arc nextstate time opts l =
      let (dest, l') : ℕ × Lattice F = elim t.tb [
        | some b ↦ (b, l)
        | none ↦ new_state time nextstate l
      ] in
      elim token.tb [
        | none ↦ none
        | some src ↦
            let (l'', costs) = add_arc src dest token.cost arc opts l' in
            some (record { tb = some dest; cost = costs.1 }, costs, l'')
      ]

  abbrev pub arc_info : SearchArc F → ArcInfo F
  arc_info x = record { ilabel = x.ilabel; olabel = x.olabel; weight = x.weight }

  -- The token of a state that has been combined, with the entry into the list at its first token.
  unfoldable pub place : Token F → ℤ → ℕ → StateStore F → StateStore F
  unfolding push_state
  place t time a s =
      let x = s.state a in
      if is_unlisted x.index
      then push_state a (record x { token = t; last_activated = time }) s
      else record s { state = update s.state a (record x { token = t }) }

  -- pair SetToken(arc, time, threshold, active_states, lattice, opts)
  unfoldable pub set_token_from :
      SearchArc F
      → ℤ
      → F
      → LatticeOptions F
      → ℕ
      → StateStore F
      → Lattice F
      → Option ((F × F) × StateStore F × Lattice F)
  unfolding get_exit_token combine_lattice place
  set_token_from arc time threshold opts a s l =
      let token = get_exit_token arc in
      let x = s.state a in
      if lt token.cost threshold
      then elim (combine_lattice x.token token (arc_info arc) arc.nextstate time opts l) [
        | none ↦ none
        | some (t, costs, l') ↦ some (costs, place t time a s, l')
      ]
      else some ((max_cost, max_cost), s, l)
