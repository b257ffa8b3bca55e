-- ===== src/Decoder/Expansion/Exact.antt =====
-- src/include/dcd/clevel-decoder.h: the list of active arcs, with null entries, against the arcs' own
-- state.
use opendcd.Prelude.{
  ℕ, suc, ◌<◌, ◌≡◌, ◌≢◌, refl, sym, ap, ◌∙◌, true, false, Bool-cases, Option, none, some, List, set,
  get_elem?, get_elem?-set, get_elem?_bound, update, update_same, update_other, arith, ==_iff, ◌==◌,
  inl, inr,
}
use opendcd.Prelude.Float.{Float}
use opendcd.Decoder.Arc.{SearchArc, arc_active}

-- A write of null at a place
pub at-set :
    (xs : List (Option ℕ)) (i j a : ℕ)
    → get_elem? (set xs i none) j ≡ some (some a)
    → (i ≢ j) × (get_elem? xs j ≡ some (some a))
at-set xs i j a h =
    ground (arith, get_elem?-set xs i j none, ==_iff i j, get_elem?_bound xs j (some a))

pub not-set :
    (xs : List (Option ℕ)) (i j a : ℕ)
    → i ≢ j
    → get_elem? xs j ≡ some (some a)
    → get_elem? (set xs i none) j ≡ some (some a)
not-set xs i j a n h = ground (arith, get_elem?-set xs i j none, ==_iff i j)

pub before : {i j : ℕ} → i ≢ j → j < suc i → j < i
before n m = ground arith

pub index-eq : {a b : ℕ} → some a ≡ some b → a ≡ b
index-eq h = cc

pub null-entry : {a : ℕ} → ◌≡◌ {A = Option (Option ℕ)} (some none) (some (some a)) → ⊥
null-entry h = cc

entry-eq : {a b : ℕ} → ◌≡◌ {A = Option (Option ℕ)} (some (some a)) (some (some b)) → a ≡ b
entry-eq h = cc

pub false-true : false ≡ true → ⊥
false-true h = cc

module _ {F : Type 0} ⦃f : Float F⦄ where
  -- The list holds exactly the active arcs, each at one place.
  pub record IsExact (arc : ℕ → SearchArc F) (active : List (Option ℕ)) : Type 0 where
    pub sound : (a i : ℕ) → get_elem? active i ≡ some (some a) → arc_active (arc a) ≡ true
    pub complete :
        (a : ℕ) → arc_active (arc a) ≡ true → (i : ℕ) × (get_elem? active i ≡ some (some a))
    pub unique :
        (a i j : ℕ)
        → get_elem? active i ≡ some (some a)
        → get_elem? active j ≡ some (some a)
        → i ≡ j

  pub same-active :
      (arc : ℕ → SearchArc F) (a b : ℕ) (x : SearchArc F)
      → arc_active x ≡ arc_active (arc a)
      → arc_active (update arc a x b) ≡ arc_active (arc b)
  same-active arc a b x h = elim (Bool-cases (a == b)) [
    | inl same ↦ rw same (h ∙ ap (λ c. arc_active (arc c)) ((==_iff a b).0 same))
    | inr other ↦ rw other refl
  ]

  pub IsExact-drop :
      (arc : ℕ → SearchArc F) (active : List (Option ℕ)) (a i : ℕ) (x : SearchArc F)
      → IsExact arc active
      → get_elem? active i ≡ some (some a)
      → arc_active x ≡ false
      → IsExact (update arc a x) (set active i none)
  IsExact-drop arc active a i x v at off = record {
    sound = λ b j h.
        let (n, old) = at-set active i j b h in
        let other : b ≢ a = λ e. n (v.unique a i j at (old ∙ ap (λ c. some (some c)) e)) in
        rw (update_other arc a b x other) (v.sound b j old);
    complete = λ b on.
        let other : b ≢ a = λ e. false-true (
          sym off
          ∙ ap arc_active (sym (update_same arc a x))
          ∙ ap (λ c. arc_active (update arc a x c)) (sym e)
          ∙ on) in
        let (j, old) = v.complete b (sym (ap arc_active (update_other arc a b x other)) ∙ on) in
        let n : i ≢ j = λ e. other (entry-eq (sym old ∙ ap (get_elem? active) (sym e) ∙ at)) in
        (j, not-set active i j b n old);
    unique = λ b j k h h'. v.unique b j k (at-set active i j b h).1 (at-set active i k b h').1;
  }

  pub IsExact-write :
      (arc : ℕ → SearchArc F) (active : List (Option ℕ)) (a : ℕ) (x : SearchArc F)
      → IsExact arc active
      → arc_active x ≡ arc_active (arc a)
      → IsExact (update arc a x) active
  IsExact-write arc active a x v same = record {
    sound = λ b j h. same-active arc a b x same ∙ v.sound b j h;
    complete = λ b on. v.complete b (sym (same-active arc a b x same) ∙ on);
    unique = v.unique;
  }
