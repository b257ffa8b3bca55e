-- ===== src/HLevel/Refs/New.antt =====
-- src/include/dcd/hlevel-decoder.h, the constructors of HToken.
use opendcd.Prelude.{
  ℕ, ◌+◌, ◌<◌, ◌≡◌, ◌≢◌, refl, sym, ap, subst, ◌∙◌, inl, inr, Bool-cases, Option, none, some, List,
  ◌∷◌, Has, update_same, update_other, leb, ◌==◌, ==_iff, arith,
}
use opendcd.ArcExpand.{Arc}
use opendcd.HLevel.{HToken, Tokens, Tropical, add_token, count_up, arc_weight, new_token}
use opendcd.HLevel.Refs.{
  at, at_pointer, held, refs, refs-frame, IsCounted, IsCounted-same, recount, recount-IsCounted,
  some_count, some_token,
}
use opendcd.HLevel.Refs.Delete.{recount-IsKept}

module _ {F : Type 0} (s : Tokens F) (live : List ℕ) (outside : ℕ → ℕ) where
  -- Nothing refers to an address that is not in use.
  no_refs : IsCounted s live outside → (outside s.fresh ≡ 0) × (refs s.cell s.fresh live ≡ 0)
  no_refs v =
      let out : ¬ Has s.fresh live = λ h. absurd (let k = v.below s.fresh h in omega arith) in
      (
        elim (Bool-cases (leb 1 (outside s.fresh))) [
          | inl q ↦ absurd (out (v.roots s.fresh (ground arith)))
          | inr q ↦ ground arith
        ],
        elim (Bool-cases (leb 1 (refs s.cell s.fresh live))) [
          | inl q ↦ absurd (out (v.inner s.fresh (ground arith)))
          | inr q ↦ ground arith
        ],
      )

module _ {F : Type 0} (s : Tokens F) (live : List ℕ) (outside : ℕ → ℕ) (arc : Arc F) (w : F)
    (prev : Option ℕ) where
  -- A token takes over a reference that was counted from outside.
  add_token-IsCounted :
      IsCounted s live (λ b. at_pointer prev b + outside b)
      → IsCounted (add_token arc w prev s).1 (s.fresh ∷ live) (λ b. at s.fresh b + outside b)
  unfolding add_token refs
  add_token-IsCounted v =
      let cell' = (add_token arc w prev s).1.cell in
      let none_there = no_refs s live (λ b. at_pointer prev b + outside b) v in
      let other : (b : ℕ) → b ≢ s.fresh → cell' b ≡ s.cell b =
        λ b m. update_other s.cell s.fresh b _ m in
      let new : cell' s.fresh ≡ some record { arc = arc; prev = prev; ref_count = 1; weight = w } =
        update_same s.cell s.fresh _ in
      let old : (x : ℕ) → Has x live → x ≢ s.fresh =
        λ x h e. absurd (let k = v.below x h in omega (arith, e)) in
      let sum : (b : ℕ) → refs cell' b (s.fresh ∷ live) ≡ at_pointer prev b + refs s.cell b live =
        λ b.
          ap (λ (o : Option (HToken F)). held o b + refs cell' b live) new
          ∙ ap (λ (m : ℕ). at_pointer prev b + m)
              (refs-frame s.cell cell' b live
                (λ x h. ap (λ (o : Option (HToken F)). held o b) (other x (old x h)))) in
      let self : at s.fresh s.fresh ≡ 1 = ground (arith, ==_iff s.fresh s.fresh) in
      let there : (b : ℕ) → 0 < at_pointer prev b + outside b + refs s.cell b live → Has b live =
        λ b k. elim (Bool-cases (leb 1 (refs s.cell b live))) [
          | inl q ↦ v.inner b (ground arith)
          | inr q ↦ v.roots b (let z : refs s.cell b live ≡ 0 = ground arith in omega arith)
        ] in
      record {
        nodup = ((λ h. old s.fresh h refl), v.nodup);
        below =
            λ b h. elim h [ inl e ↦ omega (arith, e) | inr k ↦ let l = v.below b k in omega arith ];
        alive = λ b h. elim h [
          | inl e ↦ (record { arc = arc; prev = prev; ref_count = 1; weight = w }, ap cell' e ∙ new)
          | inr k ↦ let (t, q) = v.alive b k in (t, other b (old b k) ∙ q)
        ];
        dead = λ b h. other b (λ e. h (inl e)) ∙ v.dead b (λ k. h (inr k));
        counted = λ b t q. elim (Bool-cases (s.fresh == b)) [
          | inl r ↦
              let z : s.fresh ≡ b = (==_iff s.fresh b).0 r in
              let u = sym new ∙ ap cell' z ∙ q in
              let count : 1 ≡ t.ref_count =
                some_count record { arc = arc; prev = prev; ref_count = 1; weight = w } t u in
              subst (λ y. t.ref_count ≡ (at s.fresh y + outside y) + refs cell' y (s.fresh ∷ live))
                z (omega (arith, count, self, sum s.fresh, none_there.0, none_there.1))
          | inr r ↦
              let m : b ≢ s.fresh = λ z. ground (arith, ==_iff s.fresh b) in
              let zero_at : at s.fresh b ≡ 0 = rw r refl in
              omega (arith, v.counted b t (sym (other b m) ∙ q), sum b, zero_at)
        ];
        roots = λ b k. elim (Bool-cases (s.fresh == b)) [
          | inl r ↦ inl (sym ((==_iff s.fresh b).0 r))
          | inr r ↦ let zero_at : at s.fresh b ≡ 0 = rw r refl in inr (there b (omega arith))
        ];
        inner = λ b k. inr (there b (omega (arith, sum b)));
        used = λ b k. elim k [
          | inl e ↦
              subst (λ y. 0 < (at s.fresh y + outside y) + refs cell' y (s.fresh ∷ live)) (sym e)
                (omega (arith, self))
          | inr h ↦ omega (arith, v.used b h, sum b)
        ];
      }

module _ {F : Type 0} (l : Tropical F) (s : Tokens F) (live : List ℕ) (outside : ℕ → ℕ) where
  -- What a new token is
  pub record IsMade (arc : Arc F) (prev : Option ℕ) (w : F) (a : ℕ) (s' : Tokens F) : Type 0 where
    pub counted : IsCounted s' (a ∷ live) (λ b. at a b + outside b)
    pub cell : s'.cell a ≡ some record { arc = arc; prev = prev; ref_count = 1; weight = w }
    pub others :
        (b : ℕ) (t : HToken F)
        → Has b live
        → s.cell b ≡ some t
        → (t' : HToken F) × (s'.cell b ≡ some t')
          × (t'.arc ≡ t.arc)
          × (t'.prev ≡ t.prev)
          × (t'.weight ≡ t.weight)

  -- A token without a predecessor
  pub new_token-first :
      (arc : Arc F) (ac : Option F)
      → IsCounted s live outside
      → (a : ℕ) × (s' : Tokens F) × (new_token l arc ac none s ≡ some (a, s'))
        × IsMade arc none (arc_weight l arc.weight ac) a s'
  unfolding new_token
  new_token-first arc ac v =
      let w = arc_weight l arc.weight ac in
      let c =
        add_token-IsCounted s live outside arc w none (
          IsCounted-same s live outside (λ b. at_pointer none b + outside b) (λ b. omega arith)
            v) in
      (
        s.fresh,
        (add_token arc w none s).1,
        unfold add_token in refl,
        record {
          counted = c;
          cell = unfold add_token in update_same s.cell s.fresh _;
          others = λ b t h e. (
            t,
            unfold add_token in
                (update_other s.cell s.fresh b _
                    (λ z. absurd (let k = v.below b h in omega (arith, z)))
                  ∙ e),
            refl,
            refl,
            refl,
          );
        },
      )

  -- A token behind another: the other has one reference more.
  pub new_token-IsMade :
      (arc : Arc F) (ac : Option F) (p : ℕ) (t : HToken F)
      → IsCounted s live outside
      → Has p live
      → s.cell p ≡ some t
      → (a : ℕ) × (s' : Tokens F) × (new_token l arc ac (some p) s ≡ some (a, s'))
        × IsMade arc (some p) (arc_weight l (l.times t.weight arc.weight) ac) a s'
  unfolding new_token
  new_token-IsMade arc ac p t v h e =
      let w = arc_weight l (l.times t.weight arc.weight) ac in
      let s1 = recount s p t e (t.ref_count + 1) in
      let self : at p p ≡ 1 = ground (arith, ==_iff p p) in
      let v1 : IsCounted s1 live (λ b. at_pointer (some p) b + outside b) =
        recount-IsCounted s p t e (t.ref_count + 1) live outside
          (λ b. at_pointer (some p) b + outside b) v (omega arith)
          (λ b m. ground (arith, ==_iff p b)) h (omega arith) in
      (
        s1.fresh,
        (add_token arc w (some p) s1).1,
        rw e (unfold add_token count_up recount in refl),
        record {
          counted = add_token-IsCounted s1 live outside arc w (some p) v1;
          cell = unfold add_token in update_same s1.cell s1.fresh _;
          others = λ b t1 h1 e1.
              let (t', q) = v1.alive b h1 in
              let (t2, q2, a2, p2, w2) = (recount-IsKept s p t e (t.ref_count + 1)).token b t' q in
              let z : some t2 ≡ some t1 = sym q2 ∙ e1 in
              let z' : t2 ≡ t1 = some_token t2 t1 z in
              (
                t',
                unfold add_token in
                    (update_other s1.cell s1.fresh b _
                        (λ y. absurd (let k = v1.below b h1 in omega (arith, y)))
                      ∙ q),
                a2 ∙ ap (λ (x : HToken F). x.arc) z',
                p2 ∙ ap (λ (x : HToken F). x.prev) z',
                w2 ∙ ap (λ (x : HToken F). x.weight) z',
              );
        },
      )
