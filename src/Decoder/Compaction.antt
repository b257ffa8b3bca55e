-- ===== src/Decoder/Compaction.antt =====
-- src/include/dcd/clevel-decoder.h, ExpandActiveArcs: the list compaction, in which tokens that leave an arc
-- go on to the search state behind it, and the whole of ExpandActiveArcs. The list is compacted in
-- place: the places before `j` are `kept`, those from `j` to `i` are null. `init` is SearchState::Init.
-- `none` is a failure of SetToken, an arc without a next state, or an index out of bounds.
pub mod Kept
pub mod Exact
use opendcd.Prelude.{
  ℕ, ◌+◌, Bool, true, false, Option, none, some, List, [], ◌∷◌, ◌++◌, ℤ, pos, negsuc, update,
  length, if◌then◌else◌,
}
use opendcd.Prelude.Partial.{◌>>=◌}
use opendcd.Prelude.Float.{Float, add, lt, le, max_cost}
use opendcd.Token.{Token}
use opendcd.Lattice.{Lattice, LatticeOptions}
use opendcd.Decoder.Arc.{SearchArc, deactivate_arc, get_best_cost, get_exit_cost}
use opendcd.Decoder.State.{SearchState, StateStore, set_token_from}
use opendcd.Decoder.Hash.{SearchHash, find_search_state}
use opendcd.Decoder.Expansion.{
  ArcSearch, ArcSearchOptions, Round, Thresholds, arc_expansion, band_pruning, start_expansion,
  swap_arcs,
}

-- The decoder's fields that ExpandActiveArcs reads and writes; the search states are in the hash.
pub record Frame (F : Type 0) : Type 0 where
  pub search : ArcSearch F
  pub hash : SearchHash F
  pub active_states : List (Option ℕ)
  pub lattice : Lattice F
  pub time : ℤ
  pub num_exit_tokens : ℕ
  pub num_exit_tokens_pruned : ℕ
  pub total_num_arcs_hisogram_pruned : ℕ
  pub num_active_arcs_after_prune : ℕ
  pub num_active_arcs : ℕ

module _ {F : Type 0} ⦃f : Float F⦄ (init : ℕ → SearchState F → SearchState F)
    (lattice_options : LatticeOptions F) (options : ArcSearchOptions F) where
  -- SearchArc::FindNextState, at the first call
  unfoldable pub find_dest : ℤ → ℕ → Frame F → Option (ℕ × Frame F)
  unfolding find_search_state
  find_dest (negsuc n) a d = none
  find_dest (pos n) a d =
      let (b, hash) = find_search_state init n d.hash in
      some (
        b,
        record d {
          hash = hash;
          search = record d.search {
            arc = update d.search.arc a (record (d.search.arc a) { dest = some b });
          };
        },
      )

  -- SearchArc::FindNextState
  unfoldable pub find_next_state : ℕ → Frame F → Option (ℕ × Frame F)
  unfolding find_dest
  find_next_state a d = elim (d.search.arc a).dest [
    | some b ↦ some (b, d)
    | none ↦ find_dest (d.search.arc a).nextstate a d
  ]

  -- ExpandToFollowingState
  unfoldable pub expand_to_following_state : ℕ → F → Frame F → Option (F × Frame F)
  unfolding find_next_state set_token_from
  expand_to_following_state a threshold d = do
    (b, d') ← find_next_state a d
    (costs, states, lattice) ←
        set_token_from (d'.search.arc a) d'.time threshold lattice_options b
          (record { state = d'.hash.cell; active_states = d'.active_states }) d'.lattice
    some (
      costs.0,
      record d' {
        hash = record d'.hash { cell = states.state };
        active_states = states.active_states;
        lattice = lattice;
      },
    )

  -- The threshold after an arrival
  unfoldable pub lower_threshold : F → Frame F → Frame F
  lower_threshold cost d =
      if lt (add cost options.beam) d.search.threshold
      then record d { search = record d.search { threshold = add cost options.beam } }
      else d

  -- The token that leaves an arc, under kMaxCost
  unfoldable pub exit_arc : ℕ → F → Frame F → Option (Frame F)
  unfolding expand_to_following_state lower_threshold
  exit_arc a exit_cost d =
      if lt exit_cost d.search.threshold
      then (expand_to_following_state a d.search.threshold d >>= λ (cost, d').
          some (lower_threshold cost d'))
      else some (record d { num_exit_tokens_pruned = d.num_exit_tokens_pruned + 1 })

  -- What is done at an arc that is kept
  unfoldable pub leave_arc : ℕ → Frame F → Option (Frame F)
  unfolding exit_arc
  leave_arc a d =
      let exit_cost = get_exit_cost (d.search.arc a) in
      if lt exit_cost max_cost
      then exit_arc a exit_cost (record d { num_exit_tokens = d.num_exit_tokens + 1 })
      else some d

  -- The branch of an arc over the threshold
  unfoldable pub remove_arc : ℕ → Frame F → Frame F
  unfolding deactivate_arc
  remove_arc a d = record d {
    search = record d.search { arc = update d.search.arc a (deactivate_arc (d.search.arc a)).0 };
    total_num_arcs_hisogram_pruned = d.total_num_arcs_hisogram_pruned + 1;
  }

  -- The loop of ExpandActiveArcs_ListCompaction over the entries that are left
  unfoldable pub compact_entries :
      List (Option ℕ) → List (Option ℕ) → Frame F → Option (List (Option ℕ) × Frame F)
  unfolding leave_arc remove_arc
  compact_entries kept [] d = some (kept, d)
  compact_entries kept (none ∷ entries) d = compact_entries kept entries d
  compact_entries kept (some a ∷ entries) d =
      let removed = compact_entries kept entries (remove_arc a d) in
      if le (get_best_cost (d.search.arc a)) d.search.threshold
      then (leave_arc a d >>= λ d'. compact_entries (kept ++ some a ∷ []) entries d')
      else removed

  -- ExpandActiveArcs_ListCompaction
  unfoldable pub list_compaction : Frame F → Option (Frame F)
  unfolding compact_entries
  list_compaction d = do
    (kept, d') ← compact_entries [] d.search.active_arcs d
    some (record d' {
      search = record d'.search { active_arcs = kept };
      num_active_arcs_after_prune = length kept;
    })

  module _ (advance : ℤ → Thresholds F → List (Token F) → List (Token F) × F × F)
      (nth_element : List F → ℕ → F) (zero_cost : F) where
    -- ExpandActiveArcs
    unfoldable pub expand_active_arcs : Frame F → Option (Frame F)
    unfolding start_expansion arc_expansion swap_arcs band_pruning list_compaction
    expand_active_arcs d =
        let r = arc_expansion advance options (start_expansion zero_cost d.search) in
        let s : ArcSearch F = record r.search {
          best_arc_cost = r.best_cost;
          worst_arc_cost = r.worst_cost;
        } in
        do
          s' ← swap_arcs 0 r.best_index s
          d' ← list_compaction (record d { search = band_pruning nth_element options s' })
          some (record d' {
            search = record d'.search { arc_costs = [] };
            num_active_arcs = length d'.search.active_arcs;
          })
