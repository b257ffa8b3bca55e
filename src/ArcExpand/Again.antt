-- ===== src/ArcExpand/Again.antt =====
-- src/include/dcd/arc-expand-fst.h, NumArcs and Final: what a second Expand of a state does.
use opendcd.Prelude.{
  ℕ, ◌+◌, ◌≡◌, refl, ap, ◌∙◌, true, false, none, some, List, [], ◌∷◌, ◌++◌, length, length-append,
  get_elem?, update, arith,
}
use opendcd.ArcExpand.{
  Arc, Element, Expanded, Sources, at_state, outer_element, element_final, expand_state,
  final_weight, num_arcs,
}
use opendcd.ArcExpand.Numbering.{IsNumbered}
use opendcd.ArcExpand.Outer.{IsOuter, expand_state-IsPushed}

module _ {W : Type 0} (src : Sources W) where
  IsOuter-length :
      (state : ℕ) (elements : List Element) (arcs out : List (Arc W)) (i : ℕ)
      → IsOuter src state elements i arcs out
      → length out ≡ length arcs
  IsOuter-length state elements [] [] i h = refl
  IsOuter-length state elements [] (b ∷ out) i h = absurd h
  IsOuter-length state elements (a ∷ arcs) [] i h = absurd h
  IsOuter-length state elements (a ∷ arcs) (b ∷ out) i h =
      omega (arith, IsOuter-length state elements arcs out (outer_element src state i a).1 h.4)

  num_arcs-expands :
      (s n : ℕ) (x y : Expanded W)
      → x.has_arcs s ≡ false
      → expand_state src s x ≡ some y
      → length (y.pushed s) ≡ n
      → num_arcs src s x ≡ some (n, y)
  unfolding num_arcs
  num_arcs-expands s n x y fresh r m = rw (fresh, r, m) refl

  num_arcs-counts :
      (s n : ℕ) (x : Expanded W)
      → x.has_arcs s ≡ true
      → length (x.pushed s) ≡ n
      → num_arcs src s x ≡ some (n, x)
  unfolding num_arcs
  num_arcs-counts s n x done' m = rw (done', m) refl

  final_weight-expands :
      (s q : ℕ) (x y : Expanded W)
      → x.finals s ≡ none
      → expand_state src s x ≡ some y
      → get_elem? y.elements s ≡ some (at_state q)
      → final_weight src s x
        ≡ some (src.fst.final q, record y { finals = update y.finals s (some (src.fst.final q)) })
  unfolding final_weight element_final
  final_weight-expands s q x y none' r h = rw (none', final_weight, r, h) refl

  -- NumArcs of a state of the transducer that is not expanded is the number of its arcs; Final after
  -- that gives its final weight, and pushes the arcs once more: NumArcs is then twice their number.
  pub final_weight-pushes_again :
      (s q : ℕ) (x : Expanded W)
      → IsNumbered x
      → get_elem? x.elements s ≡ some (at_state q)
      → x.has_arcs s ≡ false
      → x.pushed s ≡ []
      → x.finals s ≡ none
      → (y z : Expanded W) × (num_arcs src s x ≡ some (length (src.fst.arcs q), y))
        × (final_weight src s y ≡ some (src.fst.final q, z))
        × (num_arcs src s z ≡ some (length (src.fst.arcs q) + length (src.fst.arcs q), z))
  final_weight-pushes_again s q x v h fresh empty no_final =
      let (y, r, p, _) = expand_state-IsPushed src s q x v h in
      let (z, r', p', expanded) = expand_state-IsPushed src s q y p.numbered (p.kept s _ h) in
      let n = IsOuter-length q y.elements (src.fst.arcs q) p.out 0 p.outer in
      let n' = IsOuter-length q z.elements (src.fst.arcs q) p'.out 0 p'.outer in
      let once : length (y.pushed s) ≡ length (src.fst.arcs q) =
        ap length (p.pushed ∙ ap (λ xs. xs ++ p.out) empty) ∙ n in
      let twice : length (z.pushed s) ≡ length (src.fst.arcs q) + length (src.fst.arcs q) =
        ap length p'.pushed ∙ length-append (y.pushed s) p'.out ∙ omega (arith, once, n') in
      (
        y,
        record z { finals = update z.finals s (some (src.fst.final q)) },
        num_arcs-expands s _ x y fresh r once,
        final_weight-expands s q y z (ap (λ f. f s) p.finals ∙ no_final) r'
            (p'.kept s _ (p.kept s _ h)),
        num_arcs-counts s _ (record z { finals = update z.finals s (some (src.fst.final q)) })
            expanded twice,
      )
