-- ===== src/Decoder/Compaction/Exact.antt =====
-- src/include/dcd/clevel-decoder.h, ExpandActiveArcs: the list of active arcs after a frame.
use opendcd.Prelude.{ℕ, zero, suc, ◌≡◌, refl, ap, some, List, [], ◌∷◌, All, length, ℤ}
use opendcd.Prelude.Partial.{Ends, bind-Ends, Ends-some}
use opendcd.Prelude.Float.{Float}
use opendcd.Token.{Token}
use opendcd.Lattice.{LatticeOptions}
use opendcd.Decoder.State.{SearchState}
use opendcd.Decoder.Expansion.{
  ArcSearchOptions, Thresholds, arc_expansion, band_pruning, resize_costs, start_expansion,
  swap_arcs,
}
use opendcd.Decoder.Expansion.Exact.{IsExact}
use opendcd.Decoder.Expansion.Pruned.{arc_expansion-IsRound}
use opendcd.Decoder.Expansion.Swap.{band_pruning-IsExact, swap_arcs-IsExact}
use opendcd.Decoder.Compaction.{Frame, expand_active_arcs, list_compaction}
use opendcd.Decoder.Compaction.Kept.{IsArc, list_compaction-IsCompact}

module _ {F : Type 0} ⦃f : Float F⦄ (init : ℕ → SearchState F → SearchState F)
    (lattice_options : LatticeOptions F) (options : ArcSearchOptions F)
    (advance : ℤ → Thresholds F → List (Token F) → List (Token F) × F × F)
    (nth_element : List F → ℕ → F) (zero_cost : F) where
  length-resize_costs : (n : ℕ) (costs : List F) → n ≡ length (resize_costs zero_cost n costs)
  unfolding resize_costs
  length-resize_costs zero costs = refl
  length-resize_costs (suc n) [] = ap suc (length-resize_costs n [])
  length-resize_costs (suc n) (c ∷ costs) = ap suc (length-resize_costs n costs)

  expand_active_arcs-Ends :
      (d : Frame F)
      → IsExact d.search.arc d.search.active_arcs
      → Ends
          (expand_active_arcs init lattice_options options advance nth_element zero_cost d)
          (λ d'. IsExact d'.search.arc d'.search.active_arcs × All IsArc d'.search.active_arcs)
  unfolding expand_active_arcs start_expansion
  expand_active_arcs-Ends d v =
      let s = start_expansion zero_cost d.search in
      let r = arc_expansion advance options s in
      let h =
        arc_expansion-IsRound options advance s v
          (length-resize_costs (length d.search.active_arcs) d.search.arc_costs) in
      bind-Ends
        (swap_arcs 0 r.best_index
          (record r.search { best_arc_cost = r.best_cost; worst_arc_cost = r.worst_cost }))
        _ (λ s'. IsExact s'.arc s'.active_arcs) _ (swap_arcs-IsExact 0 r.best_index _ h.exact)
        λ s' w.
          bind-Ends
            (list_compaction init lattice_options options
              (record d { search = band_pruning nth_element options s' }))
            _ _ _
            (list_compaction-IsCompact init lattice_options options _
              (band_pruning-IsExact nth_element options s' w))
            λ d' (exact, arcs, lower). (exact, arcs)

  -- ExpandActiveArcs, if it succeeds, keeps the list of active arcs exact, each active arc at one place, and
  -- leaves no null entry in it.
  pub expand_active_arcs-IsExact :
      (d d' : Frame F)
      → IsExact d.search.arc d.search.active_arcs
      → expand_active_arcs init lattice_options options advance nth_element zero_cost d ≡ some d'
      → IsExact d'.search.arc d'.search.active_arcs × All IsArc d'.search.active_arcs
  expand_active_arcs-IsExact d d' v e = Ends-some _ _ d' e (expand_active_arcs-Ends d v)
