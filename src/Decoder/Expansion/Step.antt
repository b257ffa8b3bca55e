-- ===== src/Decoder/Expansion/Step.antt =====
-- src/include/dcd/clevel-decoder.h, ExpandActiveArcs_ArcExpansion: one round of the loop.
use opendcd.Prelude.{
  ℕ, suc, ◌+◌, ◌≤◌, ◌<◌, ◌≡◌, ◌≢◌, refl, sym, ap, ◌∙◌, true, false, Bool-cases, none, some, length,
  length-set, set, get_elem?, get_elem?_bound, get_or, get_or-set, update, arith, ==_iff, ◌==◌,
  ◌&&◌, ltb, inl, inr,
}
use opendcd.Prelude.Float.{Float, key, add, lt, max_cost}
use opendcd.Decoder.Arc.{SearchArc, arc_active, deactivate_arc}
use opendcd.Decoder.Expansion.{
  ArcSearch, ArcSearchOptions, Pruning, by_cost, by_lookahead, Round, count_pruned, drop_arc,
  keep_arc, looks_ahead, note_cost, note_lookahead,
}
use opendcd.Decoder.Expansion.Exact.{
  at-set, not-set, false-true, index-eq, before, IsExact, IsExact-drop, IsExact-write,
}

module _ {F : Type 0} ⦃f : Float F⦄ (options : ArcSearchOptions F) where
  -- What holds before the round of the loop at place `i`.
  pub record IsRound (i : ℕ) (r : Round F) : Type 0 where
    pub exact : IsExact r.search.arc r.search.active_arcs
    pub sizes : length r.search.active_arcs ≡ length r.search.arc_costs
    pub lower :
        (j a : ℕ)
        → j < i
        → get_elem? r.search.active_arcs j ≡ some (some a)
        → key r.best_cost ≤ key (get_or r.search.arc_costs j max_cost)
    pub best :
        (b : ℕ)
        → r.best_index ≡ some b
        → (b < i)
          × ((a : ℕ) × (get_elem? r.search.active_arcs b ≡ some (some a)))
          × (get_or r.search.arc_costs b max_cost ≡ r.best_cost)
          × (r.search.threshold ≡ add r.best_cost options.beam)

  pub note_lookahead-IsRound :
      (look : F) (i : ℕ) (r : Round F) → IsRound i r → IsRound i (note_lookahead options look r)
  unfolding note_lookahead
  note_lookahead-IsRound look i r v =
      elim (Bool-cases (looks_ahead options && lt look r.best_lookahead_cost)) [
        | inl less ↦
            rw less (record { exact = v.exact; sizes = v.sizes; lower = v.lower; best = v.best })
        | inr more ↦ rw more v
      ]

  pub note_lookahead-search :
      (look : F) (r : Round F) → (note_lookahead options look r).search ≡ r.search
  unfolding note_lookahead
  note_lookahead-search look r =
      elim (Bool-cases (looks_ahead options && lt look r.best_lookahead_cost)) [
        | inl less ↦ rw less refl
        | inr more ↦ rw more refl
      ]

  note_cost-list :
      (i : ℕ) (cost : F) (r : Round F)
      → (note_cost options i cost r).search.active_arcs ≡ r.search.active_arcs
  unfolding note_cost
  note_cost-list i cost r = elim (Bool-cases (lt cost r.best_cost)) [
    | inl less ↦ rw less refl
    | inr more ↦ rw more refl
  ]

  pub keep_arc-list :
      (i a : ℕ) (x : SearchArc F) (cost look : F) (r : Round F)
      → (keep_arc options i a x cost (note_lookahead options look r)).search.active_arcs
        ≡ r.search.active_arcs
  unfolding keep_arc
  keep_arc-list i a x cost look r =
      note_cost-list i cost (note_lookahead options look r)
      ∙ ap (λ (s : ArcSearch F). s.active_arcs) (note_lookahead-search look r)

  -- A round at an arc that is pruned, without the counter of the kind of pruning
  dropped-IsRound :
      (i a : ℕ) (x : SearchArc F) (r : Round F)
      → IsRound i r
      → get_elem? r.search.active_arcs i ≡ some (some a)
      → arc_active x ≡ false
      → IsRound (suc i) (record r {
        search = record r.search {
          arc = update r.search.arc a x;
          active_arcs = set r.search.active_arcs i none;
          num_arcs_pruned = r.search.num_arcs_pruned + 1;
        };
      })
  dropped-IsRound i a x r v at off = record {
    exact = IsExact-drop r.search.arc r.search.active_arcs a i x v.exact at off;
    sizes = length-set r.search.active_arcs i none ∙ v.sizes;
    lower = λ j b m h.
        let (n, old) = at-set r.search.active_arcs i j b h in v.lower j b (before n m) old;
    best = λ b e.
        let (m, (c, h), k, t) = v.best b e in
        (omega arith, (c, not-set r.search.active_arcs i b c (λ q. omega arith) h), k, t);
  }

  pub drop_arc-IsRound :
      (why : Pruning) (i a : ℕ) (x : SearchArc F) (r : Round F)
      → IsRound i r
      → get_elem? r.search.active_arcs i ≡ some (some a)
      → IsRound (suc i) (drop_arc why i a x r)
  unfolding drop_arc count_pruned deactivate_arc
  drop_arc-IsRound by_cost i a x r v at =
      let w = dropped-IsRound i a (deactivate_arc x).0 r v at refl in
      record { exact = w.exact; sizes = w.sizes; lower = w.lower; best = w.best }
  drop_arc-IsRound by_lookahead i a x r v at =
      let w = dropped-IsRound i a (deactivate_arc x).0 r v at refl in
      record { exact = w.exact; sizes = w.sizes; lower = w.lower; best = w.best }

  -- A round at an arc that is kept, the new best cost being at most this arc's and the old best
  pub keep_arc-IsRound :
      (i a : ℕ) (x : SearchArc F) (cost : F) (r : Round F)
      → IsRound i r
      → get_elem? r.search.active_arcs i ≡ some (some a)
      → arc_active x ≡ arc_active (r.search.arc a)
      → IsRound (suc i) (keep_arc options i a x cost r)
  unfolding keep_arc note_cost
  keep_arc-IsRound i a x cost r v at same =
      let bound : ltb i (length r.search.arc_costs) ≡ true =
        ground (arith, get_elem?_bound r.search.active_arcs i (some a), v.sizes) in
      let here : get_or (set r.search.arc_costs i cost) i max_cost ≡ cost =
        ground (arith, get_or-set r.search.arc_costs i i cost max_cost, ==_iff i i) in
      let elsewhere : (j : ℕ)
          → i ≢ j
          → get_or (set r.search.arc_costs i cost) j max_cost
            ≡ get_or r.search.arc_costs j max_cost =
        λ j n. ground (arith, get_or-set r.search.arc_costs i j cost max_cost, ==_iff i j) in
      let lower' : (best : F)
          → key best ≤ key cost
          → key best ≤ key r.best_cost
          → (j b : ℕ) → j < suc i
          → get_elem? r.search.active_arcs j ≡ some (some b)
          → key best ≤ key (get_or (set r.search.arc_costs i cost) j max_cost) =
        λ best p q j b m h. elim (Bool-cases (i == j)) [
          | inl e ↦ rw (← (==_iff i j).0 e, here) p
          | inr e ↦
              let n : i ≢ j = λ k. false-true (sym e ∙ (==_iff i j).1 k) in
              rw (elsewhere j n) (omega (arith, q, v.lower j b (before n m) h))
        ] in
      elim (Bool-cases (lt cost r.best_cost)) [
        | inl less ↦ rw less (record {
          exact = IsExact-write r.search.arc r.search.active_arcs a x v.exact same;
          sizes = v.sizes ∙ sym (length-set r.search.arc_costs i cost);
          lower = lower' cost (omega arith) (ground arith);
          best = λ b e. rw (← index-eq e) (omega arith, (a, at), here, refl);
        })
        | inr more ↦ rw more (record {
          exact = IsExact-write r.search.arc r.search.active_arcs a x v.exact same;
          sizes = v.sizes ∙ sym (length-set r.search.arc_costs i cost);
          lower = lower' r.best_cost (ground arith) (omega arith);
          best = λ b e.
              let (m, at', k, t) = v.best b e in
              (omega arith, at', elsewhere b (λ q. omega arith) ∙ k, t);
        })
      ]
