-- ===== src/Trans/Relax/Fold.antt =====
-- src/include/dcd/generic-transition-model.h: the candidates of a slot in a sequence of relaxations.
use opendcd.Prelude.{
  ℕ, ◌≤◌, ◌<◌, ◌≡◌, refl, ap, ◌∙◌, ◌⊎◌, inl, inr, List, [], ◌∷◌, All, length, arith,
}
use opendcd.Prelude.Float.{Float, key}
use opendcd.Token.{Token, inactive}
use opendcd.Trans.{Expansion}
use opendcd.Trans.Relax.{
  Cand, cost_of, relax_all, slot, over, step, length-step, step-slot_mono, step-slot_cand,
  step-slot_choice,
}
use opendcd.Trans.Relax.Best.{Below, Attained, Below-step, Attained-step}

module _ {F : Type 0} ⦃f : Float F⦄ where
  -- The token is a candidate for slot `j`, extended, and within the threshold.
  abbrev pub IsCand : F → ℕ → List (Cand F) → Token F → Type 0
  IsCand thr j [] t = ⊥
  IsCand thr j (c ∷ cs) t =
      ((c.dest ≡ j) × (t.tb ≡ c.token.tb) × (t.cost ≡ cost_of c) × (key (cost_of c) ≤ key thr))
      ⊎ IsCand thr j cs t

  -- No candidate for slot `j` within the threshold is cheaper than the token.
  abbrev pub IsLeast : F → ℕ → List (Cand F) → Token F → Type 0
  IsLeast thr j cs t =
      All (λ c. c.dest ≡ j → key (cost_of c) ≤ key thr → key t.cost ≤ key (cost_of c)) cs

  module _ (thr : F) where
    abbrev InRange : ℕ → List (Cand F) → Type 0
    InRange n cs = All (λ c. c.dest < n) cs

    relax_all_mono :
        (cs : List (Cand F)) (e : Expansion F) (j : ℕ)
        → InRange (length e.next) cs
        → key (slot e j).cost ≤ key thr
        → key (slot (relax_all (over thr) cs e) j).cost ≤ key (slot e j).cost
    unfolding relax_all
    relax_all_mono [] e j h k = omega arith
    relax_all_mono (c ∷ cs) e j h k =
        let e' = step thr e c in
        let one = step-slot_mono thr e c j h.0 k in
        let rest = relax_all_mono cs e' j (rw (length-step thr e c) h.1) (omega arith) in
        omega arith

    pub relax_all-IsLeast :
        (cs : List (Cand F)) (e : Expansion F) (j : ℕ)
        → InRange (length e.next) cs
        → IsLeast thr j cs (slot (relax_all (over thr) cs e) j)
    unfolding relax_all
    relax_all-IsLeast [] e j h = tt
    relax_all-IsLeast (c ∷ cs) e j h =
        let e' = step thr e c in
        let h' : InRange (length e'.next) cs = rw (length-step thr e c) h.1 in
        (
          λ q k.
              let one = step-slot_cand thr e c j h.0 q k in
              let rest = relax_all_mono cs e' j h' (omega arith) in omega arith,
          relax_all-IsLeast cs e' j h',
        )

    relax_all-choice :
        (cs : List (Cand F)) (e : Expansion F) (j : ℕ)
        → InRange (length e.next) cs
        → (slot (relax_all (over thr) cs e) j ≡ slot e j)
          ⊎ (slot (relax_all (over thr) cs e) j ≡ inactive)
          ⊎ IsCand thr j cs (slot (relax_all (over thr) cs e) j)
    unfolding relax_all
    relax_all-choice [] e j h = inl refl
    relax_all-choice (c ∷ cs) e j h =
        let e' = step thr e c in
        elim (relax_all-choice cs e' j (rw (length-step thr e c) h.1)) [
          | inr (inl off) ↦ inr (inl off)
          | inr (inr k) ↦ inr (inr (inr k))
          | inl same ↦ elim (step-slot_choice thr e c j h.0) [
            | inl old ↦ inl (same ∙ old)
            | inr (inl off) ↦ inr (inl (same ∙ off))
            | inr (inr (q, t, w, k)) ↦ inr (
                inr (
                  inl (
                    q,
                    ap (λ (x : Token F). x.tb) same ∙ t,
                    ap (λ (x : Token F). x.cost) same ∙ w,
                    k,
                  )))
          ]
        ]

    pub relax_all-IsCand :
        (cs : List (Cand F)) (e : Expansion F) (j : ℕ)
        → InRange (length e.next) cs
        → slot e j ≡ inactive
        → (slot (relax_all (over thr) cs e) j ≡ inactive)
          ⊎ IsCand thr j cs (slot (relax_all (over thr) cs e) j)
    relax_all-IsCand cs e j h k = elim (relax_all-choice cs e j h) [
      | inl same ↦ inl (same ∙ k)
      | inr other ↦ other
    ]

    pub relax_all-best :
        (n : ℕ) (cs : List (Cand F)) (e : Expansion F)
        → InRange n cs
        → n ≤ length e.next
        → Below thr n e × Attained thr n e
        → Below thr n (relax_all (over thr) cs e) × Attained thr n (relax_all (over thr) cs e)
    unfolding relax_all
    relax_all-best n [] e h le a = a
    relax_all-best n (c ∷ cs) e h le a =
        let len = length-step thr e c in
        let inside : c.dest < length e.next = omega (arith, h.0) in
        relax_all-best n cs (step thr e c) h.1 (rw len le)
          (Below-step thr n e c inside a.0, Attained-step thr n e c h.0 inside a.1)
