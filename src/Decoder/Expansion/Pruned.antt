-- ===== src/Decoder/Expansion/Pruned.antt =====
-- src/include/dcd/clevel-decoder.h, ExpandActiveArcs_ArcExpansion: the list of active arcs and the best arc
-- after the loop.
use opendcd.Prelude.{
  ℕ, suc, ◌+◌, ◌<◌, ◌≡◌, refl, sym, ap, ◌∙◌, subst, Bool-cases, Option, none, some, List, [], ◌∷◌,
  length, set, get_elem?, get_elem?-set, ℤ, arith, ==_iff, ◌&&◌, ◌⊎◌, inl, inr,
}
use opendcd.Prelude.Float.{Float, lt, le}
use opendcd.Token.{Token}
use opendcd.Decoder.Arc.{arc_active}
use opendcd.Decoder.Expansion.{
  ArcSearch, ArcSearchOptions, by_cost, by_lookahead, Round, Thresholds, arc_expansion, expand_arc,
  expand_entries, expand_entry, expand_search_arc, looks_ahead, note_lookahead,
}
use opendcd.Decoder.Expansion.Exact.{null-entry, before, IsExact}
use opendcd.Decoder.Expansion.Step.{
  IsRound, note_lookahead-search, keep_arc-list, keep_arc-IsRound, drop_arc-IsRound,
  note_lookahead-IsRound,
}

module _ {F : Type 0} ⦃f : Float F⦄ (options : ArcSearchOptions F)
    (advance : ℤ → Thresholds F → List (Token F) → List (Token F) × F × F) where
  expand_arc-IsRound :
      (i a : ℕ) (r : Round F)
      → IsRound options i r
      → get_elem? r.search.active_arcs i ≡ some (some a)
      → IsRound options (suc i) (expand_arc advance options i a r)
  unfolding expand_arc expand_search_arc
  expand_arc-IsRound i a r v at =
      let (x, cost, look) = expand_search_arc advance options r.opts (r.search.arc a) in
      elim (Bool-cases (le r.search.threshold cost)) [
        | inl costly ↦ rw costly (drop_arc-IsRound options by_cost i a x r v at)
        | inr cheap ↦
            rw cheap (elim (Bool-cases (looks_ahead options && lt r.lookahead_threshold look)) [
              | inl costly ↦ rw costly (drop_arc-IsRound options by_lookahead i a x r v at)
              | inr cheap' ↦ rw cheap' (
                  keep_arc-IsRound options i a x cost (note_lookahead options look r)
                    (note_lookahead-IsRound options look i r v)
                    (ap (λ (s : ArcSearch F). get_elem? s.active_arcs i)
                        (note_lookahead-search options look r)
                      ∙ at)
                    (sym (
                      ap (λ (s : ArcSearch F). arc_active (s.arc a))
                        (note_lookahead-search options look r))))
            ])
      ]

  skip-IsRound :
      (i : ℕ) (r : Round F)
      → IsRound options i r
      → get_elem? r.search.active_arcs i ≡ some none
      → IsRound options (suc i) r
  skip-IsRound i r v at = record {
    exact = v.exact;
    sizes = v.sizes;
    lower = λ j a m h.
        v.lower j a
          (before (λ e. null-entry (sym at ∙ ap (get_elem? r.search.active_arcs) e ∙ h)) m) h;
    best = λ b e. let (m, at', k, t) = v.best b e in (omega arith, at', k, t);
  }

  expand_arc-list :
      (i a : ℕ) (r : Round F)
      → ((expand_arc advance options i a r).search.active_arcs ≡ r.search.active_arcs)
        ⊎ ((expand_arc advance options i a r).search.active_arcs ≡ set r.search.active_arcs i none)
  unfolding expand_arc
  expand_arc-list i a r =
      let (x, cost, look) = expand_search_arc advance options r.opts (r.search.arc a) in
      elim (Bool-cases (le r.search.threshold cost)) [
        | inl costly ↦ rw costly (inr refl)
        | inr cheap ↦
            rw cheap (elim (Bool-cases (looks_ahead options && lt r.lookahead_threshold look)) [
              | inl costly ↦ rw costly (inr refl)
              | inr cheap' ↦ rw cheap' (inl (keep_arc-list options i a x cost look r))
            ])
      ]

  expand_arc-later :
      (i a : ℕ) (r : Round F) (j : ℕ)
      → i < j
      → get_elem? (expand_arc advance options i a r).search.active_arcs j
        ≡ get_elem? r.search.active_arcs j
  expand_arc-later i a r j m = elim (expand_arc-list i a r) [
    | inl e ↦ ap (λ xs. get_elem? xs j) e
    | inr e ↦
        ap (λ xs. get_elem? xs j) e
        ∙ ground (arith, get_elem?-set r.search.active_arcs i j none, ==_iff i j)
  ]

  expand_entries-IsRound :
      (i : ℕ) (entries : List (Option ℕ)) (r : Round F)
      → IsRound options i r
      → ((j : ℕ) → get_elem? entries j ≡ get_elem? r.search.active_arcs (i + j))
      → IsRound options (i + length entries) (expand_entries advance options i entries r)
  unfolding expand_entries expand_entry
  expand_entries-IsRound i [] r v same = subst (λ j. IsRound options j r) (omega arith) v
  expand_entries-IsRound i (none ∷ entries) r v same =
      subst (λ j. IsRound options j (expand_entries advance options (suc i) entries r))
        (omega arith)
        (expand_entries-IsRound (suc i) entries r
          (skip-IsRound i r v (ap (get_elem? r.search.active_arcs) (omega arith) ∙ sym (same 0)))
          (λ j. same (suc j) ∙ ap (get_elem? r.search.active_arcs) (omega arith)))
  expand_entries-IsRound i (some a ∷ entries) r v same =
      let at = ap (get_elem? r.search.active_arcs) (omega arith) ∙ sym (same 0) in
      let r' = expand_arc advance options i a r in
      subst (λ j. IsRound options j (expand_entries advance options (suc i) entries r'))
        (omega arith)
        (expand_entries-IsRound (suc i) entries r' (expand_arc-IsRound i a r v at) (λ j.
          same (suc j)
          ∙ ap (get_elem? r.search.active_arcs) (omega arith)
          ∙ sym (expand_arc-later i a r (suc i + j) (omega arith))))

  -- With the list of active arcs exact and a cost for each place, ExpandActiveArcs_ArcExpansion keeps the
  -- list exact: the arcs that it prunes are deactivated and taken off. The best cost is at most that
  -- of every arc that is left; if there is a best place, its arc is left and has the best cost, and
  -- the threshold is the best cost plus the beam.
  pub arc_expansion-IsRound :
      (s : ArcSearch F)
      → IsExact s.arc s.active_arcs
      → length s.active_arcs ≡ length s.arc_costs
      → IsRound options (length s.active_arcs) (arc_expansion advance options s)
  unfolding arc_expansion
  arc_expansion-IsRound s v sizes =
      subst (λ j. IsRound options j (arc_expansion advance options s)) (omega arith)
        (expand_entries-IsRound 0 s.active_arcs _
          (record {
            exact = v;
            sizes = sizes;
            lower = λ j a m h. absurd (omega arith);
            best = λ b e. cc;
          })
          (λ j. ap (get_elem? s.active_arcs) (omega arith)))
