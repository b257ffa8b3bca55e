-- ===== src/ArcExpand.antt =====
-- src/include/dcd/arc-expand-fst.h: the transducer whose arcs are expanded into the topologies of their
-- input labels. The transducers that are read are parameters: a state's arcs are a list, over which
-- ArcIterator goes in order and in which Seek finds a place. What the base class keeps for a state is
-- the list that PushArc appends to, whether SetArcs was called, and the final weight. Each transducer
-- has a start state. `none` is FSTERROR, or an access out of bounds. Left out: symbols and properties.
pub mod Numbering
pub mod Outer
pub mod Again
pub mod Labels
use opendcd.Prelude.{
  ℕ, zero, suc, ◌+◌, ◌-◌, Bool, true, false, not, Option, none, some, List, [], ◌∷◌, ◌++◌, length,
  get_elem?, update, leb, ◌==◌, ◌&&◌, ◌||◌, if◌then◌else◌,
}
use opendcd.Prelude.Partial.{◌>>=◌}

pub record Arc (W : Type 0) : Type 0 where
  pub ilabel : ℕ
  pub olabel : ℕ
  pub weight : W
  pub nextstate : ℕ

pub record Fst (W : Type 0) : Type 0 where
  pub start : ℕ
  pub num_states : ℕ
  pub arcs : ℕ → List (Arc W)
  pub final : ℕ → W

-- A pair of a state and a place inside an arc that leaves it; `none` is -1.
pub record Element : Type 0 where
  pub state : ℕ
  pub arcstate : Option ℕ
  pub index : Option ℕ

-- An element at a state, between arcs
abbrev pub at_state : ℕ → Element
at_state s = record { state = s; arcstate = none; index = none }

unfoldable pub same_id : Option ℕ → Option ℕ → Bool
same_id none none = true
same_id none (some b) = false
same_id (some a) none = false
same_id (some a) (some b) = a == b

-- ElementEqual
unfoldable pub element_equal : Element → Element → Bool
unfolding same_id
element_equal e1 e2 =
    (e1.state == e2.state) && same_id e1.arcstate e2.arcstate && same_id e1.index e2.index

-- What the constructor keeps: the transducers, the labels of epsilons and the numbers of states.
pub record Sources (W : Type 0) : Type 0 where
  pub fst : Fst W
  pub arcs : List (Fst W)
  pub epsilons : List ℕ
  pub numstates : List ℕ
  pub zero_weight : W

unfoldable pub is_epsilon : List ℕ → ℕ → Bool
is_epsilon [] label = false
is_epsilon (i ∷ epsilons) label = (i == label) || is_epsilon epsilons label

module _ {W : Type 0} where
  -- The loop of the constructor from `i` on
  unfoldable pub find_epsilons : ℕ → List (Fst W) → List ℕ
  find_epsilons i [] = []
  find_epsilons i (type ∷ types) =
      let rest = find_epsilons (suc i) types in if type.num_states == 2 then i ∷ rest else rest

  unfoldable pub count_states : List (Fst W) → List ℕ
  count_states [] = []
  count_states (type ∷ types) = type.num_states ∷ count_states types

  -- The constructor
  unfoldable pub arc_expand : Fst W → List (Fst W) → W → Sources W
  unfolding find_epsilons count_states
  arc_expand fst arcs zero_weight = record {
    fst = fst;
    arcs = arcs;
    epsilons = find_epsilons 0 arcs;
    numstates = count_states arcs;
    zero_weight = zero_weight;
  }

-- The elements that have a number, and the cache of the base class.
pub record Expanded (W : Type 0) : Type 0 where
  pub elements : List Element
  pub element2state : List (Element × ℕ)
  pub start : Option ℕ
  pub pushed : ℕ → List (Arc W)
  pub has_arcs : ℕ → Bool
  pub finals : ℕ → Option W

-- element2state_.find
unfoldable pub find_element : Element → List (Element × ℕ) → Option ℕ
unfolding element_equal
find_element e [] = none
find_element e ((f, d) ∷ m) =
    let rest = find_element e m in if element_equal f e then some d else rest

module _ {W : Type 0} where
  -- AddElement of an element that is not there
  unfoldable pub enter_element : Element → Expanded W → ℕ × Expanded W
  enter_element e x = (
    length x.elements,
    record x {
      elements = x.elements ++ e ∷ [];
      element2state = (e, length x.elements) ∷ x.element2state;
    },
  )

  -- AddElement without its last check
  unfoldable pub number_element : Element → Expanded W → ℕ × Expanded W
  unfolding find_element enter_element
  number_element e x = elim (find_element e x.element2state) [
    | none ↦ enter_element e x
    | some d ↦ (d, x)
  ]

  -- AddElement
  unfoldable pub add_element : Element → Expanded W → Option (ℕ × Expanded W)
  unfolding number_element
  add_element e x =
      let (d, y) = number_element e x in
      if length y.elements == length y.element2state then some (d, y) else none

  -- PushArc and SetArcs
  unfoldable pub push_arc : ℕ → Arc W → Expanded W → Expanded W
  push_arc s a x = record x { pushed = update x.pushed s (x.pushed s ++ a ∷ []) }

  unfoldable pub set_arcs : ℕ → Expanded W → Expanded W
  set_arcs s x = record x { has_arcs = update x.has_arcs s true }

  -- FindArc of an element with an index
  unfoldable pub find_arc : Fst W → Element → ℕ → Option (Arc W)
  find_arc fst e index = get_elem? (fst.arcs e.state) index

  module _ (src : Sources W) where
    -- The element that an arc out of a state of the transducer leads to, and the next index
    unfoldable pub outer_element : ℕ → ℕ → Arc W → Element × ℕ
    unfolding is_epsilon
    outer_element state i a =
        if is_epsilon src.epsilons a.ilabel
        then (at_state a.nextstate, i)
        else (record { state = state; arcstate = some 0; index = some i }, suc i)

    -- The first loop of Expand
    unfoldable pub expand_outer : ℕ → ℕ → ℕ → List (Arc W) → Expanded W → Option (Expanded W)
    unfolding outer_element add_element push_arc
    expand_outer s state i [] x = some x
    expand_outer s state i (a ∷ rest) x =
        let (e, i') = outer_element state i a in
        do
          (d, y) ← add_element e x
          expand_outer s state i' rest (
              push_arc s
                (record { ilabel = 0; olabel = a.olabel; weight = a.weight; nextstate = d }) y)

    -- The element that an arc inside of a topology leads to
    unfoldable pub inner_element : Element → ℕ → ℕ → ℕ → Option Element
    unfolding find_arc
    inner_element e index laststate next =
        if next == laststate
        then (do a ← find_arc src.fst e index; some (at_state a.nextstate))
        else some (record { state = e.state; arcstate = some next; index = some index })

    -- The second loop of Expand
    unfoldable pub expand_inner :
        ℕ → Element → ℕ → ℕ → List (Arc W) → Expanded W → Option (Expanded W)
    unfolding inner_element add_element push_arc
    expand_inner s e index laststate [] x = some x
    expand_inner s e index laststate (a ∷ rest) x = do
      delement ← inner_element e index laststate a.nextstate
      (d, y) ← add_element delement x
      expand_inner s e index laststate rest (
          push_arc s (record { ilabel = a.ilabel; olabel = 0; weight = a.weight; nextstate = d }) y)

    -- FindTypeLabel of an element with an index
    unfoldable pub find_type_label : Element → ℕ → Option ℕ
    unfolding find_arc
    find_type_label e index = do a ← find_arc src.fst e index; some a.ilabel

    -- The branch of Expand at a state inside an arc. The label kNoLabel is no place in `arcs`.
    unfoldable pub expand_inside : ℕ → Element → ℕ → ℕ → Expanded W → Option (Expanded W)
    unfolding find_type_label expand_inner
    expand_inside s e arcstate index x = do
      ilabel ← find_type_label e index
      type ← get_elem? src.arcs ilabel
      size ← get_elem? src.numstates ilabel
      if leb size 1 then none else expand_inner s e index (size - 1) (type.arcs arcstate) x

    -- Expand by the element of the state
    unfoldable pub expand_element : ℕ → Element → Expanded W → Option (Expanded W)
    unfolding expand_outer expand_inside set_arcs
    expand_element s e x = elim e.arcstate [
      | none ↦ expand_outer s e.state 0 (src.fst.arcs e.state) x >>= λ y. some (set_arcs s y)
      | some arcstate ↦ elim e.index [
        | none ↦ none
        | some index ↦ expand_inside s e arcstate index x >>= λ y. some (set_arcs s y)
      ]
    ]

    -- Expand
    unfoldable pub expand_state : ℕ → Expanded W → Option (Expanded W)
    unfolding expand_element
    expand_state s x = do e ← get_elem? x.elements s; expand_element s e x

    -- Start
    unfoldable pub find_start : Expanded W → Option (ℕ × Expanded W)
    unfolding add_element
    find_start x = elim x.start [
      | some s ↦ some (s, x)
      | none ↦ do
        (d, y) ← add_element (at_state src.fst.start) x
        some (d, record y { start = some d })
    ]

    -- The final weight of an element
    unfoldable pub element_final : Element → W
    element_final e = elim e.arcstate [ none ↦ src.fst.final e.state | some a ↦ src.zero_weight ]

    -- Final
    unfoldable pub final_weight : ℕ → Expanded W → Option (W × Expanded W)
    unfolding expand_state element_final
    final_weight s x = elim (x.finals s) [
      | some w ↦ some (w, x)
      | none ↦ do
        y ← expand_state s x
        e ← get_elem? y.elements s
        some (element_final e, record y { finals = update y.finals s (some (element_final e)) })
    ]

    -- NumArcs
    unfoldable pub num_arcs : ℕ → Expanded W → Option (ℕ × Expanded W)
    unfolding expand_state
    num_arcs s x = do
      y ← (if x.has_arcs s then some x else expand_state s x)
      some (length (y.pushed s), y)

  -- FstState and ArcState
  unfoldable pub fst_state : ℕ → Expanded W → Option ℕ
  fst_state s x = get_elem? x.elements s >>= λ e. some e.state

  unfoldable pub arc_state : ℕ → Expanded W → Option (Option ℕ)
  arc_state s x = get_elem? x.elements s >>= λ e. some e.arcstate
