-- ===== src/ArcExpand/Numbering.antt =====
-- src/include/dcd/arc-expand-fst.h, AddElement: the numbers of the elements.
use opendcd.Prelude.{
  ℕ, ◌≡◌, refl, sym, ap, ◌∙◌, subst, Bool, true, false, Bool-cases, Option, none, some,
  Option-cases, [], ◌∷◌, length, length-append, get_elem?, get_elem?-snoc, arith, ==_iff, ◌==◌,
  ◌&&◌, ◌↔◌, inl, inr,
}
use opendcd.ArcExpand.{
  Element, Expanded, same_id, element_equal, find_element, enter_element, number_element,
  add_element,
}

none-some : {A : Type 0} {a : A} → none ≡ some a → ⊥
none-some h = cc

false-true : false ≡ true → ⊥
false-true h = cc

same_id_iff : (a b : Option ℕ) → (same_id a b ≡ true) ↔ (a ≡ b)
unfolding same_id
same_id_iff none none = (λ e. refl, λ e. refl)
same_id_iff none (some b) = (λ e. cc, λ e. cc)
same_id_iff (some a) none = (λ e. cc, λ e. cc)
same_id_iff (some a) (some b) = ground (arith, ==_iff a b)

Element-eq :
    (e f : Element) → e.state ≡ f.state → e.arcstate ≡ f.arcstate → e.index ≡ f.index → e ≡ f
Element-eq e f p q r i = record { state = p i; arcstate = q i; index = r i }

and-cases : (a b c : Bool) → (a && b && c) ≡ true → (a ≡ true) × (b ≡ true) × (c ≡ true)
and-cases true true true h = (refl, refl, refl)
and-cases true true false h = cc
and-cases true false c h = cc
and-cases false b c h = cc

element_equal_iff : (e f : Element) → (element_equal e f ≡ true) ↔ (e ≡ f)
unfolding element_equal
element_equal_iff e f = (
  λ h.
      let (p, q, r) = and-cases _ _ _ h in
      Element-eq e f ((==_iff _ _).0 p) ((same_id_iff _ _).0 q) ((same_id_iff _ _).0 r),
  λ p. subst (λ g. element_equal e g ≡ true) p (self e),
)
  where
    self : (e : Element) → element_equal e e ≡ true
    self e =
        rw
          (
            (==_iff e.state e.state).1 refl,
            (same_id_iff e.arcstate e.arcstate).1 refl,
            (same_id_iff e.index e.index).1 refl,
          )
          refl

some-eq : {A : Type 0} (a b : A) → some a ≡ some b → a ≡ b
some-eq a b h = cc

module _ {W : Type 0} where
  -- The numbering: an element is entered with a number exactly if it stands at that place.
  pub record IsNumbered (x : Expanded W) : Type 0 where
    pub sizes : length x.elements ≡ length x.element2state
    pub found :
        (e : Element) (d : ℕ)
        → (find_element e x.element2state ≡ some d) ↔ (get_elem? x.elements d ≡ some e)

  -- The elements that have a number keep it, and the cache is as it was.
  pub record IsExtended (x y : Expanded W) : Type 0 where
    pub kept :
        (d : ℕ) (e : Element) → get_elem? x.elements d ≡ some e → get_elem? y.elements d ≡ some e
    pub cache : y ≡ record x { elements = y.elements; element2state = y.element2state }

  enter_element-here :
      (e : Element) (x : Expanded W)
      → get_elem? (enter_element e x).1.elements (enter_element e x).0 ≡ some e
  unfolding enter_element
  enter_element-here e x = (get_elem?-snoc x.elements e e (length x.elements)).1 (inr (refl, refl))

  pub enter_element-IsNumbered :
      (e : Element) (x : Expanded W)
      → IsNumbered x
      → find_element e x.element2state ≡ none
      → IsNumbered (enter_element e x).1
  unfolding enter_element find_element
  enter_element-IsNumbered e x v h = record {
    sizes = length-append x.elements (e ∷ []) ∙ omega (arith, v.sizes);
    found = λ f d.
        let snoc = get_elem?-snoc x.elements e f d in
        elim (Bool-cases (element_equal e f)) [
          | inl same ↦ rw same (
            λ p. snoc.1 (inr (sym (some-eq _ _ p), (element_equal_iff e f).0 same)),
            λ p. elim (snoc.0 p) [
              | inl q ↦ absurd (
                  none-some
                    (sym h ∙ (v.found e d).1 (q ∙ ap some (sym ((element_equal_iff e f).0 same)))))
              | inr (k, q) ↦ ap some (sym k)
            ],
          )
          | inr other ↦ rw other (
            λ p. snoc.1 (inl ((v.found f d).0 p)),
            λ p. elim (snoc.0 p) [
              | inl q ↦ (v.found f d).1 q
              | inr (k, q) ↦ absurd (false-true (sym other ∙ (element_equal_iff e f).1 q))
            ],
          )
        ];
  }

  enter_element-IsExtended : (e : Element) (x : Expanded W) → IsExtended x (enter_element e x).1
  unfolding enter_element
  enter_element-IsExtended e x = record {
    kept = λ d f h. (get_elem?-snoc x.elements e f d).1 (inl h);
    cache = refl;
  }

  -- What AddElement leaves: the element has the number that is returned.
  pub record IsAdded (e : Element) (x : Expanded W) (d : ℕ) (y : Expanded W) : Type 0 where
    pub numbered : IsNumbered y
    pub here : get_elem? y.elements d ≡ some e
    pub extended : IsExtended x y

  number_element-IsAdded :
      (e : Element) (x : Expanded W)
      → IsNumbered x
      → IsAdded e x (number_element e x).0 (number_element e x).1
  unfolding number_element
  number_element-IsAdded e x v = elim (Option-cases (find_element e x.element2state)) [
    | inl new ↦
        rw (new, number_element)
          (record {
            numbered = enter_element-IsNumbered e x v new;
            here = enter_element-here e x;
            extended = enter_element-IsExtended e x;
          })
    | inr (d, old) ↦
        rw (old, number_element)
          (record {
            numbered = v;
            here = (v.found e d).0 old;
            extended = record { kept = λ k f h. h; cache = refl };
          })
  ]

  -- AddElement keeps the numbering, passes the check of the sizes, and returns the number of the
  -- element; the elements that have a number keep it, and nothing else changes.
  pub add_element-IsAdded :
      (e : Element) (x : Expanded W)
      → IsNumbered x
      → (d : ℕ) × (y : Expanded W) × (add_element e x ≡ some (d, y)) × IsAdded e x d y
  unfolding add_element
  add_element-IsAdded e x v =
      let y = (number_element e x).1 in
      let added = number_element-IsAdded e x v in
      let same : (length y.elements == length y.element2state) ≡ true =
        (==_iff _ _).1 added.numbered.sizes in
      ((number_element e x).0, y, rw same refl, added)
