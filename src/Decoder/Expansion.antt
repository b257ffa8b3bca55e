-- ===== src/Decoder/Expansion.antt =====
-- src/include/dcd/clevel-decoder.h, ExpandActiveArcs up to the band pruning: the transition model advances
-- the tokens inside each active arc by a frame, and arcs that are too costly are deactivated. The
-- transition model is a parameter of the class; `advance` is its Expand, from the label of the arc,
-- the thresholds in the options and the tokens to the tokens after the frame, the best cost and the
-- look-ahead cost. `nth_element` is the library's: the item at a place of the sorted list.
pub mod Exact
pub mod Step
pub mod Pruned
pub mod Swap
use opendcd.Prelude.{
  ℕ, zero, suc, ◌+◌, Bool, true, false, Option, none, some, List, [], ◌∷◌, ◌++◌, ℤ, update, length,
  set, replicate, ltb, get_elem?, ◌&&◌, if◌then◌else◌,
}
use opendcd.Prelude.Float.{Float, key, add, lt, le, max, neg, max_cost}
use opendcd.Token.{Token}
use opendcd.Decoder.Arc.{SearchArc, arc_active, deactivate_arc, get_best_cost}

-- The thresholds of ArcExpandOptions
pub record Thresholds (F : Type 0) : Type 0 where
  pub threshold : F
  pub lbest : F
  pub lthreshold : F

-- The band is not negative; the source compares the int with a size_t.
pub record ArcSearchOptions (F : Type 0) : Type 0 where
  pub beam : F
  pub band : ℕ
  pub acoustic_lookahead : F
  -- kDelta of the transducer library
  pub delta : F

-- The decoder's fields that the expansion reads and writes; a null pointer in the list is `none`.
pub record ArcSearch (F : Type 0) : Type 0 where
  pub arc : ℕ → SearchArc F
  pub active_arcs : List (Option ℕ)
  pub arc_costs : List F
  pub threshold : F
  pub best_arc_cost : F
  pub worst_arc_cost : F
  pub num_arcs_pruned : ℕ
  pub total_num_arcs_pruned : ℕ
  pub total_num_arcs_lookahead_pruned : ℕ
  pub total_num_arc_expanded : ℕ
  pub max_active_arcs : ℕ

-- The variables of ExpandActiveArcs_ArcExpansion; an index of -1 is `none`.
pub record Round (F : Type 0) : Type 0 where
  pub search : ArcSearch F
  pub best_cost : F
  pub best_lookahead_cost : F
  pub lookahead_threshold : F
  pub worst_cost : F
  pub best_index : Option ℕ
  pub opts : Thresholds F

-- An arc that the loop does away with: too costly, or too costly with the look-ahead
pub data Pruning : Type 0 where
  by_cost by_lookahead : Pruning

unfoldable pub count_pruned : {F : Type 0} → Pruning → ArcSearch F → ArcSearch F
count_pruned by_cost s = record s { total_num_arcs_pruned = s.total_num_arcs_pruned + 1 }
count_pruned by_lookahead s = record s {
  total_num_arcs_lookahead_pruned = s.total_num_arcs_lookahead_pruned + 1;
}

module _ {F : Type 0} ⦃f : Float F⦄ where
  -- A pruned arc is deactivated, and its place in the list is null.
  unfoldable pub drop_arc : Pruning → ℕ → ℕ → SearchArc F → Round F → Round F
  unfolding deactivate_arc count_pruned
  drop_arc why i a x r = record r {
    search = count_pruned why (record r.search {
      arc = update r.search.arc a (deactivate_arc x).0;
      active_arcs = set r.search.active_arcs i none;
      num_arcs_pruned = r.search.num_arcs_pruned + 1;
    });
  }

  -- The costs that ComputeBand collects
  unfoldable pub band_costs : (ℕ → SearchArc F) → List (Option ℕ) → List F
  unfolding get_best_cost
  band_costs arc [] = []
  band_costs arc (none ∷ entries) = band_costs arc entries
  band_costs arc (some a ∷ entries) =
      let rest = band_costs arc entries in
      if arc_active (arc a) then get_best_cost (arc a) ∷ rest else rest

  -- SwapArcs; an index out of bounds is `none`.
  unfoldable pub swap_arcs : ℕ → Option ℕ → ArcSearch F → Option (ArcSearch F)
  swap_arcs i none s = none
  swap_arcs i (some j) s = elim (get_elem? s.active_arcs i) [
    | none ↦ none
    | some a ↦ elim (get_elem? s.active_arcs j) [
      | none ↦ none
      | some b ↦ some (record s { active_arcs = set (set s.active_arcs i b) j a })
    ]
  ]

  -- resize of the vector of costs, whose new items are zero
  unfoldable pub resize_costs : F → ℕ → List F → List F
  resize_costs zero_cost zero costs = []
  resize_costs zero_cost (suc n) [] = zero_cost ∷ resize_costs zero_cost n []
  resize_costs zero_cost (suc n) (c ∷ costs) = c ∷ resize_costs zero_cost n costs

  -- The start of ExpandActiveArcs
  unfoldable pub start_expansion : F → ArcSearch F → ArcSearch F
  unfolding resize_costs
  start_expansion zero_cost s =
      let n = length s.active_arcs in
      record s {
        num_arcs_pruned = 0;
        best_arc_cost = max_cost;
        worst_arc_cost = neg max_cost;
        threshold = max_cost;
        arc_costs = resize_costs zero_cost n s.arc_costs;
        max_active_arcs = if ltb s.max_active_arcs n then n else s.max_active_arcs;
      }

module _ {F : Type 0} ⦃f : Float F⦄ (options : ArcSearchOptions F) where
  -- `search_opts_.acoustic_lookahead > kDelta`
  abbrev pub looks_ahead : Bool
  looks_ahead = lt options.delta options.acoustic_lookahead

  -- What the look-ahead cost of an arc that it does not prune changes, if there is a look-ahead
  unfoldable pub note_lookahead : F → Round F → Round F
  note_lookahead look r =
      if looks_ahead && lt look r.best_lookahead_cost
      then record r {
        best_lookahead_cost = look;
        lookahead_threshold = add look options.beam;
        opts = record r.opts { lbest = look; lthreshold = add look options.beam };
      }
      else r

  -- What a new best cost changes
  unfoldable pub note_cost : ℕ → F → Round F → Round F
  note_cost i cost r =
      if lt cost r.best_cost
      then record r {
        best_cost = cost;
        best_index = some i;
        opts = record r.opts { threshold = add cost options.beam };
        search = record r.search { threshold = add cost options.beam };
      }
      else r

  unfoldable pub keep_arc : ℕ → ℕ → SearchArc F → F → Round F → Round F
  unfolding note_cost
  keep_arc i a x cost r =
      let r' = note_cost i cost r in
      record r' {
        search = record r'.search {
          arc = update r'.search.arc a x;
          arc_costs = set r'.search.arc_costs i cost;
        };
        worst_cost = max r'.worst_cost cost;
      }

module _ {F : Type 0} ⦃f : Float F⦄
    (advance : ℤ → Thresholds F → List (Token F) → List (Token F) × F × F)
    (options : ArcSearchOptions F) where
  -- SearchArc::Expand
  unfoldable pub expand_search_arc : Thresholds F → SearchArc F → SearchArc F × F × F
  expand_search_arc opts x =
      let (tokens, cost, look) = advance x.ilabel opts x.tokens in
      (record x { tokens = tokens; num_expansions = x.num_expansions + 1 }, cost, look)

  -- The round of the loop at an arc
  unfoldable pub expand_arc : ℕ → ℕ → Round F → Round F
  unfolding expand_search_arc drop_arc note_lookahead keep_arc
  expand_arc i a r =
      let (x, cost, look) = expand_search_arc r.opts (r.search.arc a) in
      if le r.search.threshold cost
      then drop_arc by_cost i a x r
      else if looks_ahead options && lt r.lookahead_threshold look
      then drop_arc by_lookahead i a x r
      else keep_arc options i a x cost (note_lookahead options look r)

  unfoldable pub expand_entry : ℕ → Option ℕ → Round F → Round F
  unfolding expand_arc
  expand_entry i none r = r
  expand_entry i (some a) r = expand_arc i a r

  -- The loop of ExpandActiveArcs_ArcExpansion from `i` on, over the entries that are left
  unfoldable pub expand_entries : ℕ → List (Option ℕ) → Round F → Round F
  unfolding expand_entry
  expand_entries i [] r = r
  expand_entries i (e ∷ entries) r = expand_entries (suc i) entries (expand_entry i e r)

  -- ExpandActiveArcs_ArcExpansion of the whole list
  unfoldable pub arc_expansion : ArcSearch F → Round F
  unfolding expand_entries
  arc_expansion s = expand_entries 0 s.active_arcs (record {
    search = record s { total_num_arc_expanded = s.total_num_arc_expanded + length s.active_arcs };
    best_cost = max_cost;
    best_lookahead_cost = max_cost;
    lookahead_threshold = max_cost;
    worst_cost = neg max_cost;
    best_index = none;
    opts = record { threshold = max_cost; lbest = max_cost; lthreshold = max_cost };
  })

module _ {F : Type 0} ⦃f : Float F⦄ (nth_element : List F → ℕ → F)
    (options : ArcSearchOptions F) where
  -- ComputeBand
  unfoldable pub compute_band : ArcSearch F → F
  unfolding band_costs
  compute_band s =
      let costs = band_costs s.arc s.active_arcs in
      if ltb options.band (length costs) then nth_element costs options.band else max_cost

  -- ExpandActiveArcs_BandPruning
  unfoldable pub band_pruning : ArcSearch F → ArcSearch F
  unfolding compute_band
  band_pruning s =
      if ltb options.band (length s.arc_costs) then record s { threshold = compute_band s } else s
