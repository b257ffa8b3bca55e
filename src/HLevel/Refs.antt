-- ===== src/HLevel/Refs.antt =====
-- src/include/dcd/hlevel-decoder.h, HToken: the reference counts of the tokens.
pub mod Delete
pub mod New
use opendcd.Prelude.{
  ℕ, zero, suc, ◌+◌, ◌-◌, ◌≤◌, ◌<◌, ◌≡◌, ◌≢◌, refl, sym, ap, subst, fun_ext, ◌∙◌, inl, inr, true,
  false, Bool-cases, Option, none, some, Option-cases, List, [], ◌∷◌, Has, NoDup, length, update,
  update_same, update_other, leb, ◌==◌, ==_iff, if◌then◌else◌, arith,
}
use opendcd.Prelude.Distinct.{
  remove, Has-remove, Has-remove_other, NoDup-remove, remove_other, length-remove_lt,
}
use opendcd.ArcExpand.{Arc}
use opendcd.HLevel.{
  HToken, Tokens, Tropical, add_token, count_up, count_down, arc_weight, new_token, token_delete,
}

-- One reference to `a`
abbrev pub at : ℕ → ℕ → ℕ
at a b = if a == b then 1 else 0

abbrev pub at_pointer : Option ℕ → ℕ → ℕ
at_pointer none b = 0
at_pointer (some a) b = at a b

module _ {F : Type 0} where
  -- The references that a token holds.
  abbrev pub held : Option (HToken F) → ℕ → ℕ
  held none b = 0
  held (some t) b = at_pointer t.prev b

  -- The references that the tokens of a list hold.
  unfoldable pub refs : (ℕ → Option (HToken F)) → ℕ → List ℕ → ℕ
  refs cell b [] = 0
  refs cell b (x ∷ xs) = held (cell x) b + refs cell b xs

  -- The tokens `live`, each of which is referred to, with `outside` counting the references that no token
  -- holds.
  pub record IsCounted (s : Tokens F) (live : List ℕ) (outside : ℕ → ℕ) : Type 0 where
    pub nodup : NoDup live
    pub below : (a : ℕ) → Has a live → a < s.fresh
    pub alive : (a : ℕ) → Has a live → (t : HToken F) × (s.cell a ≡ some t)
    pub dead : (a : ℕ) → ¬ Has a live → s.cell a ≡ none
    pub counted :
        (a : ℕ) (t : HToken F) → s.cell a ≡ some t → t.ref_count ≡ outside a + refs s.cell a live
    pub roots : (a : ℕ) → 0 < outside a → Has a live
    pub inner : (a : ℕ) → 0 < refs s.cell a live → Has a live
    pub used : (a : ℕ) → Has a live → 0 < outside a + refs s.cell a live

  pub some_token : (t t' : HToken F) → some t ≡ some t' → t ≡ t'
  some_token t t' e = cc

  pub some_count : (t t' : HToken F) → some t ≡ some t' → t.ref_count ≡ t'.ref_count
  some_count t t' e = cc

  pub refs-frame :
      (cell cell' : ℕ → Option (HToken F)) (b : ℕ) (xs : List ℕ)
      → ((x : ℕ) → Has x xs → held (cell' x) b ≡ held (cell x) b)
      → refs cell' b xs ≡ refs cell b xs
  unfolding refs
  refs-frame cell cell' b [] e = refl
  refs-frame cell cell' b (x ∷ xs) e =
      omega (arith, e x (inl refl), refs-frame cell cell' b xs (λ y h. e y (inr h)))

  refs-remove :
      (cell : ℕ → Option (HToken F)) (a b : ℕ) (xs : List ℕ)
      → NoDup xs
      → Has a xs
      → refs cell b xs ≡ held (cell a) b + refs cell b (remove a xs)
  unfolding refs remove
  refs-remove cell a b [] d h = elim h [ ]
  refs-remove cell a b (x ∷ xs) d h = elim (Bool-cases (a == x)) [
    | inl same ↦
        let e : a ≡ x = (==_iff a x).0 same in
        rw same (
          ap (λ (y : ℕ). held (cell y) b + refs cell b xs) (sym e)
          ∙ ap (λ (ys : List ℕ). held (cell a) b + refs cell b ys)
              (sym (remove_other a xs (λ k. d.0 (subst (λ y. Has y xs) e k)))))
    | inr other ↦
        let k : Has a xs = elim h [ inl e ↦ ground (arith, ==_iff a x) | inr k ↦ k ] in
        rw other (omega (arith, refs-remove cell a b xs d.1 k))
  ]

  -- What stays of the tokens that are left: all but their reference counts.
  pub record IsKept (s s' : Tokens F) : Type 0 where
    pub token :
        (a : ℕ) (t' : HToken F)
        → s'.cell a ≡ some t'
        → (t : HToken F) × (s.cell a ≡ some t)
          × (t'.arc ≡ t.arc)
          × (t'.prev ≡ t.prev)
          × (t'.weight ≡ t.weight)

  pub IsCounted-same :
      (s : Tokens F) (live : List ℕ) (outside outside' : ℕ → ℕ)
      → ((b : ℕ) → outside b ≡ outside' b)
      → IsCounted s live outside
      → IsCounted s live outside'
  IsCounted-same s live outside outside' e v = subst (IsCounted s live) (fun_ext e) v

  module _ (s : Tokens F) (a : ℕ) (t : HToken F) (at_a : s.cell a ≡ some t) where
    -- The token, with another reference count
    unfoldable pub recount : ℕ → Tokens F
    recount n = record s { cell = update s.cell a (some (record t { ref_count = n })) }

    held-recount : (n x b : ℕ) → held ((recount n).cell x) b ≡ held (s.cell x) b
    unfolding recount
    held-recount n x b = elim (Bool-cases (a == x)) [
      | inl same ↦
          let e : a ≡ x = (==_iff a x).0 same in
          rw same (ap (λ (o : Option (HToken F)). held o b) (sym at_a ∙ ap s.cell e))
      | inr other ↦ rw other refl
    ]

    -- One reference more or less, and as many outside
    pub recount-IsCounted :
        (n : ℕ) (live : List ℕ) (outside outside' : ℕ → ℕ)
        → IsCounted s live outside
        → n + outside a ≡ t.ref_count + outside' a
        → ((b : ℕ) → b ≢ a → outside' b ≡ outside b)
        → Has a live
        → 0 < n
        → IsCounted (recount n) live outside'
    unfolding recount
    recount-IsCounted n live outside outside' v e same h some_left =
        let cell' = (recount n).cell in
        let equal : (b : ℕ) → refs cell' b live ≡ refs s.cell b live =
          λ b. refs-frame s.cell cell' b live (λ x _. held-recount n x b) in
        let other : (b : ℕ) → b ≢ a → cell' b ≡ s.cell b = λ b m. update_other s.cell a b _ m in
        record {
          nodup = v.nodup;
          below = v.below;
          alive = λ b k. elim (Bool-cases (a == b)) [
            | inl q ↦ rw q (record t { ref_count = n }, refl)
            | inr q ↦ rw q (v.alive b k)
          ];
          dead = λ b k. other b (λ q. k (subst (λ y. Has y live) (sym q) h)) ∙ v.dead b k;
          counted = λ b t' q. elim (Bool-cases (a == b)) [
            | inl r ↦
                let z : a ≡ b = (==_iff a b).0 r in
                let w : some (record t { ref_count = n }) ≡ some t' =
                  sym (update_same s.cell a _) ∙ ap cell' z ∙ q in
                let count : n ≡ t'.ref_count = some_count (record t { ref_count = n }) t' w in
                subst (λ y. t'.ref_count ≡ outside' y + refs cell' y live) z
                  (omega (arith, count, v.counted a t at_a, equal a))
            | inr r ↦
                let m : b ≢ a = λ z. ground (arith, ==_iff a b) in
                omega (arith, v.counted b t' (sym (other b m) ∙ q), equal b, same b m)
          ];
          roots = λ b k. elim (Bool-cases (a == b)) [
            | inl q ↦ subst (λ y. Has y live) ((==_iff a b).0 q) h
            | inr q ↦ v.roots b (subst (λ m. 0 < m) (same b (λ r. ground (arith, ==_iff a b))) k)
          ];
          inner = λ b k. v.inner b (subst (λ m. 0 < m) (equal b) k);
          used = λ b k. elim (Bool-cases (a == b)) [
            | inl q ↦
                subst (λ y. 0 < outside' y + refs cell' y live) ((==_iff a b).0 q)
                  (omega (arith, v.counted a t at_a, equal a))
            | inr q ↦ omega (arith, v.used b k, equal b, same b (λ z. ground (arith, ==_iff a b)))
          ];
        }

    -- The token is gone, and its reference to another counts as one outside.
    unfoldable pub gone : Tokens F
    gone = record s { cell = update s.cell a none }

    pub gone-IsCounted :
        (live : List ℕ) (outside : ℕ → ℕ)
        → IsCounted s live (λ b. at a b + outside b)
        → t.ref_count ≡ 1
        → IsCounted gone (remove a live) (λ b. at_pointer t.prev b + outside b)
    unfolding gone
    gone-IsCounted live outside v one =
        let cell' = gone.cell in
        let h : Has a live = v.roots a (ground (arith, ==_iff a a)) in
        let other : (b : ℕ) → b ≢ a → cell' b ≡ s.cell b = λ b m. update_other s.cell a b none m in
        let split : (b : ℕ)
            → refs s.cell b live ≡ at_pointer t.prev b + refs cell' b (remove a live) =
          λ b.
            refs-remove s.cell a b live v.nodup h
            ∙ ap (λ (o : Option (HToken F)). held o b + refs s.cell b (remove a live)) at_a
            ∙ ap (λ (m : ℕ). at_pointer t.prev b + m)
                (sym (
                  refs-frame s.cell cell' b (remove a live) (λ x k.
                    ap (λ (o : Option (HToken F)). held o b)
                      (other x (Has-remove a x live k).1)))) in
        let self : at a a ≡ 1 = ground (arith, ==_iff a a) in
        let none_left : (outside a ≡ 0) × (refs s.cell a live ≡ 0) =
          omega (arith, v.counted a t at_a) in
        let not_a : (b : ℕ)
            → 0 < at_pointer t.prev b + outside b + refs cell' b (remove a live)
            → b ≢ a =
          λ b k e.
            let k' : 0 < at_pointer t.prev a + outside a + refs cell' a (remove a live) =
              subst (λ y. 0 < at_pointer t.prev y + outside y + refs cell' y (remove a live)) e k in
            absurd (omega (arith, split a, none_left.0, none_left.1)) in
        record {
          nodup = NoDup-remove a live v.nodup;
          below = λ b k. v.below b (Has-remove a b live k).0;
          alive = λ b k.
              let (k', m) = Has-remove a b live k in
              let (t', e) = v.alive b k' in (t', other b m ∙ e);
          dead = λ b k. elim (Bool-cases (a == b)) [
            | inl q ↦ rw q refl
            | inr q ↦
                let m : b ≢ a = λ z. ground (arith, ==_iff a b) in
                other b m ∙ v.dead b (λ k'. k (Has-remove_other a b live k' m))
          ];
          counted = λ b t' q. elim (Bool-cases (a == b)) [
            | inl r ↦
                let z : a ≡ b = (==_iff a b).0 r in
                let w : none ≡ some t' = sym (update_same s.cell a none) ∙ ap cell' z ∙ q in cc
            | inr r ↦
                let m : b ≢ a = λ z. ground (arith, ==_iff a b) in
                let zero_at : at a b ≡ 0 = rw r refl in
                omega (arith, v.counted b t' (sym (other b m) ∙ q), split b, zero_at)
          ];
          roots = λ b k.
              let m = not_a b (omega arith) in
              let zero_at : at a b ≡ 0 = ground (arith, ==_iff a b, m) in
              let b_live : Has b live = elim (Bool-cases (leb 1 (outside b))) [
                | inl q ↦ v.roots b (ground arith)
                | inr q ↦ v.inner b (let z : outside b ≡ 0 = ground arith in omega (arith, split b))
              ] in
              Has-remove_other a b live b_live m;
          inner = λ b k.
              let m = not_a b (omega arith) in
              Has-remove_other a b live (v.inner b (omega (arith, split b))) m;
          used = λ b k.
              let (k', m) = Has-remove a b live k in
              let zero_at : at a b ≡ 0 = ground (arith, ==_iff a b, m) in
              omega (arith, v.used b k', split b, zero_at);
        }
