-- ===== src/Decoder/Expansion/Swap.antt =====
-- src/include/dcd/clevel-decoder.h, SwapArcs and ComputeBand: the list of active arcs stays exact.
use opendcd.Prelude.{
  ℕ, ◌<◌, ◌≡◌, sym, ap, ◌∙◌, false, Bool-cases, Option, none, some, Option-cases, List, ltb, length,
  length-set, set, get_elem?, get_elem?-set, get_elem?_bound, arith, ==_iff, ◌==◌, inl, inr,
  if◌then◌else◌,
}
use opendcd.Prelude.Partial.{Ends}
use opendcd.Prelude.Float.{Float}
use opendcd.Decoder.Arc.{SearchArc}
use opendcd.Decoder.Expansion.{ArcSearch, ArcSearchOptions, band_pruning, swap_arcs}
use opendcd.Decoder.Expansion.Exact.{IsExact}

-- Where SwapArcs takes the item at a place from.
abbrev swapped : ℕ → ℕ → ℕ → ℕ
swapped i j k = if j == k then i else if i == k then j else k

swapped_twice : (i j k : ℕ) → swapped i j (swapped i j k) ≡ k
swapped_twice i j k =
    ground (arith, ==_iff j k, ==_iff i k, ==_iff j i, ==_iff i j, ==_iff j j, ==_iff i i)

elem-set_same :
    {A : Type 0} (xs : List A) (i : ℕ) (a : A) → i < length xs → get_elem? (set xs i a) i ≡ some a
elem-set_same xs i a h = ground (arith, get_elem?-set xs i i a, ==_iff i i)

elem-set_other :
    {A : Type 0} (xs : List A) (i k : ℕ) (a : A)
    → (i == k) ≡ false
    → get_elem? (set xs i a) k ≡ get_elem? xs k
elem-set_other xs i k a h = ground (arith, get_elem?-set xs i k a)

set-swapped :
    {A : Type 0} (xs : List A) (i j k : ℕ) (a b : A)
    → get_elem? xs i ≡ some a
    → get_elem? xs j ≡ some b
    → get_elem? (set (set xs i b) j a) k ≡ get_elem? xs (swapped i j k)
set-swapped xs i j k a b h h' =
    let bound : j < length (set xs i b) =
      omega (arith, get_elem?_bound xs j b h', length-set xs i b) in
    elim (Bool-cases (j == k)) [
      | inl at ↦ rw at (
          ap (get_elem? (set (set xs i b) j a)) (sym ((==_iff j k).0 at))
          ∙ elem-set_same (set xs i b) j a bound
          ∙ sym h)
      | inr off ↦ rw off (elim (Bool-cases (i == k)) [
        | inl at ↦ rw at (
            elem-set_other (set xs i b) j k a off
            ∙ ap (get_elem? (set xs i b)) (sym ((==_iff i k).0 at))
            ∙ elem-set_same xs i b (get_elem?_bound xs i a h)
            ∙ sym h')
        | inr off' ↦ rw off' (elem-set_other (set xs i b) j k a off ∙ elem-set_other xs i k b off')
      ])
    ]

module _ {F : Type 0} ⦃f : Float F⦄ where
  pub IsExact-swap :
      (arc : ℕ → SearchArc F) (xs : List (Option ℕ)) (i j : ℕ) (e e' : Option ℕ)
      → get_elem? xs i ≡ some e
      → get_elem? xs j ≡ some e'
      → IsExact arc xs
      → IsExact arc (set (set xs i e') j e)
  IsExact-swap arc xs i j e e' h h' v = record {
    sound = λ a k m. v.sound a (swapped i j k) (sym (set-swapped xs i j k e e' h h') ∙ m);
    complete = λ a on.
        let (k, m) = v.complete a on in
        (
          swapped i j k,
          set-swapped xs i j (swapped i j k) e e' h h'
              ∙ ap (get_elem? xs) (swapped_twice i j k)
              ∙ m,
        );
    unique = λ a k l m n.
        sym (swapped_twice i j k)
        ∙ ap (swapped i j) (
            v.unique a (swapped i j k) (swapped i j l) (sym (set-swapped xs i j k e e' h h') ∙ m)
              (sym (set-swapped xs i j l e e' h h') ∙ n))
        ∙ swapped_twice i j l;
  }

  -- SwapArcs keeps the list exact and has no effect on the arcs.
  pub swap_arcs-IsExact :
      (i : ℕ) (place : Option ℕ) (s : ArcSearch F)
      → IsExact s.arc s.active_arcs
      → Ends (swap_arcs i place s) (λ s'. IsExact s'.arc s'.active_arcs)
  unfolding swap_arcs
  swap_arcs-IsExact i none s v = tt
  swap_arcs-IsExact i (some j) s v = elim (Option-cases (get_elem? s.active_arcs i)) [
    | inl out ↦ rw (out, swap_arcs) tt
    | inr (e, h) ↦ elim (Option-cases (get_elem? s.active_arcs j)) [
      | inl out ↦ rw (h, out, swap_arcs) tt
      | inr (e', h') ↦ rw (h, h', swap_arcs) (IsExact-swap s.arc s.active_arcs i j e e' h h' v)
    ]
  ]

  pub band_pruning-IsExact :
      (nth_element : List F → ℕ → F) (options : ArcSearchOptions F) (s : ArcSearch F)
      → IsExact s.arc s.active_arcs
      → IsExact
          (band_pruning nth_element options s).arc
          (band_pruning nth_element options s).active_arcs
  unfolding band_pruning
  band_pruning-IsExact nth_element options s v =
      elim (Bool-cases (ltb options.band (length s.arc_costs))) [
        | inl over ↦ rw over v
        | inr under ↦ rw under v
      ]
