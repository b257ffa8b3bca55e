-- ===== src/Lattice/Pool/Join.antt =====
-- src/include/dcd/lattice.h: AddArc, the invariant of the lists, and a sequence of arrivals.
use opendcd.Prelude.{
  ℕ, ◌≤◌, ◌≡◌, refl, ◌∙◌, ◌⊎◌, inl, inr, Bool-cases, List, [], ◌∷◌, ◌++◌, Has, All, All-change,
  negsuc, update, arith, ==_iff, ◌==◌, some,
}
use opendcd.Prelude.Float.{Float, key, sub, zero_cost}
use opendcd.Lattice.{
  Lattice, State, LatticeArc, LatticeOptions, ArcInfo, preds, sources, link, add_arc_state,
}
use opendcd.Lattice.Valid.{IsValid, Indexed-change}
use opendcd.Lattice.Pool.{add_arc}

module _ {F : Type 0} where
  Has-sources-snoc :
      (xs : List (LatticeArc F)) (x : LatticeArc F) (p src : ℕ)
      → x.prevstate ≡ some src
      → Has p (sources (xs ++ x ∷ []))
      → (p ≡ src) ⊎ Has p (sources xs)
  unfolding sources link
  Has-sources-snoc [] x p src e h = ground arith
  Has-sources-snoc (y ∷ ys) x p src e h = ground (arith, Has-sources-snoc ys x p src e)

module _ {F : Type 0} ⦃f : Float F⦄ where
  preds-add_arc_state :
      (src : ℕ) (sc cost : F) (arc : ArcInfo F) (opts : LatticeOptions F) (s : State F) (p : ℕ)
      → Has p (preds (add_arc_state src sc cost arc opts s).0)
      → (p ≡ src) ⊎ Has p (preds s)
  unfolding add_arc_state preds link
  preds-add_arc_state src sc cost arc opts s p h = ground (
    arith,
    Has-sources-snoc s.arcs
        (record {
          prevstate = some src;
          ilabel = arc.ilabel;
          olabel = arc.olabel;
          am_weight = sub (sub cost sc) arc.weight;
          lm_weight = arc.weight;
          dur_weight = zero_cost;
        })
        p src,
  )

  index-add_arc_state :
      (src : ℕ) (sc cost : F) (arc : ArcInfo F) (opts : LatticeOptions F) (s : State F)
      → (add_arc_state src sc cost arc opts s).0.index ≡ s.index
  unfolding add_arc_state
  index-add_arc_state src sc cost arc opts s = ground arith

  preds-update :
      (src dest b p : ℕ) (cost : F) (arc : ArcInfo F) (opts : LatticeOptions F) (l : Lattice F)
      → Has p (
          preds (
            update l.cell dest
              (add_arc_state src (l.cell src).forwards_cost cost arc opts (l.cell dest)).0
              b))
      → (p ≡ src) ⊎ Has p (preds (l.cell b))
  preds-update src dest b p cost arc opts l h = elim (Bool-cases (dest == b)) [
    | inl e ↦
        let e' = (==_iff dest b).0 e in
        elim (preds-add_arc_state src (l.cell src).forwards_cost cost arc opts (l.cell dest) p
          (rw e at h)) [ inl q ↦ inl q | inr q ↦ inr (rw (← e') q) ]
    | inr e ↦ inr (rw e at h)
  ]

  -- AddArc between two states that are in use keeps a valid lattice valid: the lists, the indexes
  -- and the counters stay, and the new back pointers lead into the used list.
  pub add_arc-IsValid :
      (src dest : ℕ) (cost : F) (arc : ArcInfo F) (opts : LatticeOptions F) (l : Lattice F)
      → IsValid l
      → Has src l.used_list
      → IsValid (add_arc src dest cost arc opts l).0
  unfolding add_arc
  add_arc-IsValid src dest cost arc opts l v h =
      let sc = (l.cell src).forwards_cost in
      let s = (add_arc_state src sc cost arc opts (l.cell dest)).0 in
      let same : (b : ℕ) → (update l.cell dest s b).index ≡ (l.cell b).index = λ b.
        ground (arith, ==_iff dest b, index-add_arc_state src sc cost arc opts (l.cell dest)) in
      record {
        indexed =
            Indexed-change l.cell (update l.cell dest s) 0 l.used_list (λ b _. same b) v.indexed;
        freed =
            All-change (λ b. (l.cell b).index ≡ negsuc 0)
              (λ b. (update l.cell dest s b).index ≡ negsuc 0) l.free_list (λ b _ e. same b ∙ e)
              v.freed;
        free_nodup = v.free_nodup;
        used_in_heap = v.used_in_heap;
        free_in_heap = v.free_in_heap;
        balanced = v.balanced;
        linked = λ b p hb hp. elim (preds-update src dest b p cost arc opts l hp) [
          | inl e ↦ rw e h
          | inr old ↦ v.linked b p hb old
        ];
      }

-- One arrival at a lattice state: the source, its forward cost, the cost of the token and the arc.
pub record Arrival (F : Type 0) : Type 0 where
  pub src : ℕ
  pub src_cost : F
  pub cost : F
  pub arc : ArcInfo F

module _ {F : Type 0} ⦃f : Float F⦄ where
  -- AddArc for each arrival in turn.
  unfoldable pub arrive : LatticeOptions F → State F → List (Arrival F) → State F
  arrive opts s [] = s
  arrive opts s (x ∷ xs) = arrive opts (add_arc_state x.src x.src_cost x.cost x.arc opts s).0 xs

  -- The best arc and the forward cost are those of an arrival.
  abbrev pub IsFrom : State F → List (Arrival F) → Type 0
  IsFrom t [] = ⊥
  IsFrom t (x ∷ xs) =
      ((t.best_arc.prevstate ≡ some x.src)
        × (t.best_arc.ilabel ≡ x.arc.ilabel)
        × (t.best_arc.olabel ≡ x.arc.olabel)
        × (t.best_arc.lm_weight ≡ x.arc.weight)
        × (t.best_arc.am_weight ≡ sub (sub x.cost x.src_cost) x.arc.weight)
        × (t.forwards_cost ≡ x.cost))
      ⊎ IsFrom t xs

  abbrev pub Keeps : State F → State F → Type 0
  Keeps t s = (t.best_arc ≡ s.best_arc) × (t.forwards_cost ≡ s.forwards_cost)

  add_arc_state-choice :
      (s : State F) (x : Arrival F) (opts : LatticeOptions F)
      → Keeps (add_arc_state x.src x.src_cost x.cost x.arc opts s).0 s
        ⊎ IsFrom (add_arc_state x.src x.src_cost x.cost x.arc opts s).0 (x ∷ [])
  unfolding add_arc_state
  add_arc_state-choice s x opts = ground arith

  add_arc_state-lower :
      (s : State F) (x : Arrival F) (opts : LatticeOptions F)
      → (key (add_arc_state x.src x.src_cost x.cost x.arc opts s).0.forwards_cost
          ≤ key s.forwards_cost)
        × (key (add_arc_state x.src x.src_cost x.cost x.arc opts s).0.forwards_cost ≤ key x.cost)
  unfolding add_arc_state
  add_arc_state-lower s x opts = (ground arith, ground arith)

  arrive-choice :
      (opts : LatticeOptions F) (s : State F) (xs : List (Arrival F))
      → Keeps (arrive opts s xs) s ⊎ IsFrom (arrive opts s xs) xs
  unfolding arrive
  arrive-choice opts s [] = inl (refl, refl)
  arrive-choice opts s (x ∷ xs) =
      let s' = (add_arc_state x.src x.src_cost x.cost x.arc opts s).0 in
      ground (arith, arrive-choice opts s' xs, add_arc_state-choice s x opts)

  arrive-lower :
      (opts : LatticeOptions F) (s : State F) (xs : List (Arrival F))
      → (key (arrive opts s xs).forwards_cost ≤ key s.forwards_cost)
        × All (λ x. key (arrive opts s xs).forwards_cost ≤ key x.cost) xs
  unfolding arrive
  arrive-lower opts s [] = (omega arith, tt)
  arrive-lower opts s (x ∷ xs) =
      let s' = (add_arc_state x.src x.src_cost x.cost x.arc opts s).0 in
      let lower = arrive-lower opts s' xs in
      let one = add_arc_state-lower s x opts in (omega arith, (omega arith, lower.1))

  -- After any arrivals at a state its forward cost is the least of its own and theirs, and the best
  -- arc is its own, or has the source, the labels and the split of the cost of an arrival with that cost.
  pub arrive_best :
      (opts : LatticeOptions F) (s : State F) (xs : List (Arrival F))
      → (Keeps (arrive opts s xs) s ⊎ IsFrom (arrive opts s xs) xs)
        × (key (arrive opts s xs).forwards_cost ≤ key s.forwards_cost)
        × All (λ x. key (arrive opts s xs).forwards_cost ≤ key x.cost) xs
  arrive_best opts s xs =
      (arrive-choice opts s xs, (arrive-lower opts s xs).0, (arrive-lower opts s xs).1)
