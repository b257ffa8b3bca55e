-- ===== src/ArcExpand/Labels.antt =====
-- src/include/dcd/arc-expand-fst.h, Expand and FindTypeLabel: the label that a pushed arc's element has.
use opendcd.Prelude.{
  ℕ, zero, suc, ◌+◌, ◌≡◌, refl, ap, ◌∙◌, subst, true, false, some, List, [], ◌∷◌, ◌++◌, length,
  get_elem?, All, arith,
}
use opendcd.ArcExpand.{
  Arc, Element, Expanded, Sources, at_state, is_epsilon, outer_element, find_arc, find_type_label,
  expand_state,
}
use opendcd.ArcExpand.Numbering.{IsNumbered}
use opendcd.ArcExpand.Outer.{IsOuter, expand_state-IsPushed}

get_elem-middle :
    {A : Type 0} (xs ys : List A) (a : A) (n : ℕ)
    → length xs ≡ n
    → get_elem? (xs ++ a ∷ ys) n ≡ some a
get_elem-middle [] ys a zero h = refl
get_elem-middle [] ys a (suc n) h = absurd (omega arith)
get_elem-middle (x ∷ xs) ys a zero h = absurd (omega arith)
get_elem-middle (x ∷ xs) ys a (suc n) h = get_elem-middle xs ys a n (omega arith)

get_elem-next :
    {A : Type 0} (xs ys : List A) (b a : A) (n : ℕ)
    → length xs ≡ n
    → get_elem? (xs ++ b ∷ a ∷ ys) (suc n) ≡ some a
get_elem-next [] ys b a zero h = refl
get_elem-next [] ys b a (suc n) h = absurd (omega arith)
get_elem-next (x ∷ xs) ys b a zero h = absurd (omega arith)
get_elem-next (x ∷ xs) ys b a (suc n) h = get_elem-next xs ys b a n (omega arith)

-- The start of the arc with an index out of a state
abbrev pub inside : ℕ → ℕ → Element
inside state i = record { state = state; arcstate = some 0; index = some i }

module _ {W : Type 0} (src : Sources W) where
  -- No arc has an epsilon as its input label.
  abbrev pub IsEmitting : List (Arc W) → Type 0
  IsEmitting arcs = All (λ a. is_epsilon src.epsilons a.ilabel ≡ false) arcs

  -- What is pushed for arcs behind some that are no epsilons
  abbrev IsBehind : ℕ → List Element → ℕ → List (Arc W) → List (Arc W) → List (Arc W) → Type 0
  IsBehind state elements i before rest out =
      (front back : List (Arc W)) × (out ≡ front ++ back)
      × (length front ≡ length before)
      × IsOuter src state elements (i + length before) rest back

  IsOuter-IsBehind :
      (state : ℕ) (elements : List Element) (before rest out : List (Arc W)) (i : ℕ)
      → IsEmitting before
      → IsOuter src state elements i (before ++ rest) out
      → IsBehind state elements i before rest out
  unfolding outer_element
  IsOuter-IsBehind state elements [] rest out i h k =
      ([], out, refl, refl, subst (λ j. IsOuter src state elements j rest out) (omega arith) k)
  IsOuter-IsBehind state elements (a ∷ before) rest [] i h k = absurd k
  IsOuter-IsBehind state elements (a ∷ before) rest (b ∷ out) i h k =
      let next : (outer_element src state i a).1 ≡ suc i = rw (h.0) refl in
      let tail' = subst (λ j. IsOuter src state elements j (before ++ rest) out) next k.4 in
      let (front, back, e, n, o) =
        IsOuter-IsBehind state elements before rest out (suc i) h.1 tail' in
      (
        b ∷ front,
        back,
        ap (λ (xs : List (Arc W)). b ∷ xs) e,
        omega arith,
        subst (λ j. IsOuter src state elements j rest back) (omega arith) o,
      )

  outer_element-emitting :
      (state i : ℕ) (a : Arc W)
      → is_epsilon src.epsilons a.ilabel ≡ false
      → outer_element src state i a ≡ (inside state i, suc i)
  unfolding outer_element
  outer_element-emitting state i a h = rw h refl

  outer_element-epsilon :
      (state i : ℕ) (a : Arc W)
      → is_epsilon src.epsilons a.ilabel ≡ true
      → outer_element src state i a ≡ (at_state a.nextstate, i)
  unfolding outer_element
  outer_element-epsilon state i a h = rw h refl

  behind_first :
      (q i : ℕ) (elements : List Element) (a : Arc W) (rest back : List (Arc W))
      → is_epsilon src.epsilons a.ilabel ≡ false
      → IsOuter src q elements i (a ∷ rest) back
      → (b : Arc W) × (bs : List (Arc W)) × (back ≡ b ∷ bs)
        × (get_elem? elements b.nextstate ≡ some (inside q i))
  behind_first q i elements a rest [] h k = absurd k
  behind_first q i elements a rest (b ∷ bs) h k =
      (b, bs, refl, k.3 ∙ ap (λ p. some p.0) (outer_element-emitting q i a h))

  behind_second :
      (q i : ℕ) (elements : List Element) (eps a : Arc W) (rest back : List (Arc W))
      → is_epsilon src.epsilons eps.ilabel ≡ true
      → is_epsilon src.epsilons a.ilabel ≡ false
      → IsOuter src q elements i (eps ∷ a ∷ rest) back
      → (b' b : Arc W) × (bs : List (Arc W)) × (back ≡ b' ∷ b ∷ bs)
        × (get_elem? elements b.nextstate ≡ some (inside q i))
  behind_second q i elements eps a rest [] h h' k = absurd k
  behind_second q i elements eps a rest (b' ∷ back) h h' k =
      let same = ap (λ p. p.1) (outer_element-epsilon q i eps h) in
      let (b, bs, e, l) =
        behind_first q i elements a rest back h'
          (subst (λ j. IsOuter src q elements j (a ∷ rest) back) same k.4) in
      (b', b, bs, ap (λ (xs : List (Arc W)). b' ∷ xs) e, l)

  find_type_label-place :
      (q n : ℕ) (before after : List (Arc W)) (a : Arc W)
      → src.fst.arcs q ≡ before ++ a ∷ after
      → length before ≡ n
      → find_type_label src (inside q n) n ≡ some a.ilabel
  unfolding find_type_label find_arc
  find_type_label-place q n before after a e h = rw (e, get_elem-middle before after a n h) refl

  -- The arc that was pushed at a place leads into the arc out of q with an index, which has a label.
  abbrev pub IsLabelled : ℕ → ℕ → Expanded W → ℕ → ℕ → ℕ → Type 0
  IsLabelled s q y place index label =
      (b : Arc W) × (get_elem? (y.pushed s) place ≡ some b)
      × (get_elem? y.elements b.nextstate ≡ some (inside q index))
      × (find_type_label src (inside q index) index ≡ some label)

  -- If neither an arc nor those before it are epsilons, what Expand pushes for it leads to an element
  -- at which FindTypeLabel finds the arc's own label.
  pub find_type_label-expanded :
      (s q : ℕ) (x : Expanded W) (before after : List (Arc W)) (a : Arc W)
      → IsNumbered x
      → get_elem? x.elements s ≡ some (at_state q)
      → x.pushed s ≡ []
      → src.fst.arcs q ≡ before ++ a ∷ after
      → IsEmitting before
      → is_epsilon src.epsilons a.ilabel ≡ false
      → (y : Expanded W) × (expand_state src s x ≡ some y)
        × IsLabelled s q y (length before) (length before) a.ilabel
  find_type_label-expanded s q x before after a v h empty e quiet emits =
      let (y, r, p, _) = expand_state-IsPushed src s q x v h in
      let o = subst (λ arcs. IsOuter src q y.elements 0 arcs p.out) e p.outer in
      let (front, back, cut, n, o') =
        IsOuter-IsBehind q y.elements before (a ∷ after) p.out 0 quiet o in
      let (b, bs, head', l) = behind_first q (0 + length before) y.elements a after back emits o' in
      let pushed' : y.pushed s ≡ front ++ b ∷ bs =
        p.pushed ∙ ap (λ xs. xs ++ p.out) empty ∙ cut ∙ ap (λ xs. front ++ xs) head' in
      (
        y,
        r,
        (
          b,
          ap (λ xs. get_elem? xs (length before)) pushed'
              ∙ get_elem-middle front bs b (length before) n,
          l ∙ ap (λ i. some (inside q i)) (omega arith),
          find_type_label-place q (length before) before after a e refl,
        ),
      )

  -- If an arc comes right behind the first epsilon, what Expand pushes for it leads to an element
  -- at which FindTypeLabel finds the label of that epsilon.
  pub find_type_label-behind_epsilon :
      (s q : ℕ) (x : Expanded W) (before after : List (Arc W)) (eps a : Arc W)
      → IsNumbered x
      → get_elem? x.elements s ≡ some (at_state q)
      → x.pushed s ≡ []
      → src.fst.arcs q ≡ before ++ eps ∷ a ∷ after
      → IsEmitting before
      → is_epsilon src.epsilons eps.ilabel ≡ true
      → is_epsilon src.epsilons a.ilabel ≡ false
      → (y : Expanded W) × (expand_state src s x ≡ some y)
        × IsLabelled s q y (suc (length before)) (length before) eps.ilabel
  find_type_label-behind_epsilon s q x before after eps a v h empty e quiet silent emits =
      let (y, r, p, _) = expand_state-IsPushed src s q x v h in
      let o = subst (λ arcs. IsOuter src q y.elements 0 arcs p.out) e p.outer in
      let (front, back, cut, n, o') =
        IsOuter-IsBehind q y.elements before (eps ∷ a ∷ after) p.out 0 quiet o in
      let (b', b, bs, head', l) =
        behind_second q (0 + length before) y.elements eps a after back silent emits o' in
      let pushed' : y.pushed s ≡ front ++ b' ∷ b ∷ bs =
        p.pushed ∙ ap (λ xs. xs ++ p.out) empty ∙ cut ∙ ap (λ xs. front ++ xs) head' in
      (
        y,
        r,
        (
          b,
          ap (λ xs. get_elem? xs (suc (length before))) pushed'
              ∙ get_elem-next front bs b' b (length before) n,
          l ∙ ap (λ i. some (inside q i)) (omega arith),
          find_type_label-place q (length before) before (a ∷ after) eps e refl,
        ),
      )
