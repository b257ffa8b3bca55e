-- ===== src/ArcExpand/Outer.antt =====
-- src/include/dcd/arc-expand-fst.h, Expand at a state of the transducer: the arcs that it pushes.
use opendcd.Prelude.{
  ℕ, ◌≡◌, ◌≢◌, refl, sym, ap, ◌∙◌, true, some, List, [], ◌∷◌, ◌++◌, append-nil, append_assoc,
  get_elem?, update, update_same, update_other,
}
use opendcd.ArcExpand.{
  Arc, Element, Expanded, Sources, at_state, outer_element, push_arc, set_arcs, expand_outer,
  expand_element, expand_state,
}
use opendcd.ArcExpand.Numbering.{IsNumbered, add_element-IsAdded}

module _ {W : Type 0} (src : Sources W) where
  -- The pushed arcs are those out of the state, in order, with output label and weight; each leads to
  -- the number of the element that outer_element gives.
  abbrev pub IsOuter : ℕ → List Element → ℕ → List (Arc W) → List (Arc W) → Type 0
  IsOuter state elements i [] [] = Unit
  IsOuter state elements i [] (b ∷ bs) = ⊥
  IsOuter state elements i (a ∷ rest) [] = ⊥
  IsOuter state elements i (a ∷ rest) (b ∷ bs) =
      (b.ilabel ≡ 0)
      × (b.olabel ≡ a.olabel)
      × (b.weight ≡ a.weight)
      × (get_elem? elements b.nextstate ≡ some (outer_element src state i a).0)
      × IsOuter state elements (outer_element src state i a).1 rest bs

  -- What the loop of Expand over arcs leaves.
  pub record IsPushed (s state i : ℕ) (arcs : List (Arc W)) (x y : Expanded W) : Type 0 where
    pub numbered : IsNumbered y
    pub kept :
        (d : ℕ) (e : Element) → get_elem? x.elements d ≡ some e → get_elem? y.elements d ≡ some e
    pub out : List (Arc W)
    pub pushed : y.pushed s ≡ x.pushed s ++ out
    pub outer : IsOuter state y.elements i arcs out
    pub others : (k : ℕ) → k ≢ s → y.pushed k ≡ x.pushed k
    pub finals : y.finals ≡ x.finals

  expand_outer-IsPushed :
      (s state i : ℕ) (arcs : List (Arc W)) (x : Expanded W)
      → IsNumbered x
      → (y : Expanded W) × (expand_outer src s state i arcs x ≡ some y)
        × IsPushed s state i arcs x y
  unfolding expand_outer push_arc
  expand_outer-IsPushed s state i [] x v = (
    x,
    refl,
    record {
      numbered = v;
      kept = λ d e h. h;
      out = [];
      pushed = sym (append-nil _);
      outer = tt;
      others = λ k n. refl;
      finals = refl;
    },
  )
  expand_outer-IsPushed s state i (a ∷ rest) x v =
      let (d, z, q, added) = add_element-IsAdded (outer_element src state i a).0 x v in
      let b : Arc W = record { ilabel = 0; olabel = a.olabel; weight = a.weight; nextstate = d } in
      let zs : IsNumbered (push_arc s b z) = record {
        sizes = added.numbered.sizes;
        found = added.numbered.found;
      } in
      let (y, r, ih) =
        expand_outer-IsPushed s state (outer_element src state i a).1 rest (push_arc s b z) zs in
      let same : z.pushed ≡ x.pushed = ap (λ (w : Expanded W). w.pushed) added.extended.cache in
      let step : update z.pushed s (z.pushed s ++ b ∷ []) s ≡ x.pushed s ++ b ∷ [] =
        update_same z.pushed s _ ∙ ap (λ f. f s ++ b ∷ []) same in
      (
        y,
        rw q r,
        record {
          numbered = ih.numbered;
          kept = λ k e h. ih.kept k e (added.extended.kept k e h);
          out = b ∷ ih.out;
          pushed =
              ih.pushed ∙ ap (λ xs. xs ++ ih.out) step ∙ append_assoc (x.pushed s) (b ∷ []) ih.out;
          outer = (refl, refl, refl, ih.kept d _ added.here, ih.outer);
          others = λ k n. ih.others k n ∙ update_other z.pushed s k _ n ∙ ap (λ f. f k) same;
          finals = ih.finals ∙ ap (λ (w : Expanded W). w.finals) added.extended.cache;
        },
      )

  -- Expand of a number whose element is a state of the transducer succeeds, keeps the numbering, and
  -- appends one arc for each arc out of that state, which leads to the element of outer_element; the
  -- arcs of other numbers stay, and the arcs count as expanded.
  pub expand_state-IsPushed :
      (s q : ℕ) (x : Expanded W)
      → IsNumbered x
      → get_elem? x.elements s ≡ some (at_state q)
      → (y : Expanded W) × (expand_state src s x ≡ some y)
        × IsPushed s q 0 (src.fst.arcs q) x y
        × (y.has_arcs s ≡ true)
  unfolding expand_state expand_element set_arcs
  expand_state-IsPushed s q x v h =
      let (y, r, p) = expand_outer-IsPushed s q 0 (src.fst.arcs q) x v in
      (
        set_arcs s y,
        rw (h, r) refl,
        record {
          numbered = record { sizes = p.numbered.sizes; found = p.numbered.found };
          kept = p.kept;
          out = p.out;
          pushed = p.pushed;
          outer = p.outer;
          others = p.others;
          finals = p.finals;
        },
        update_same y.has_arcs s true,
      )
