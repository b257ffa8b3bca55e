-- ===== src/HLevel/Refs/Delete.antt =====
-- src/include/dcd/hlevel-decoder.h, HTokenDelete and the destructor of HToken.
use opendcd.Prelude.{
  ℕ, zero, suc, ◌+◌, ◌-◌, ◌<◌, ◌≡◌, refl, sym, ap, ◌∙◌, inl, inr, true, false, Bool-cases, none,
  some, Option-cases, List, Has, length, update_same, update_other, ◌==◌, ==_iff, arith,
}
use opendcd.Prelude.Distinct.{remove, length-remove_lt}
use opendcd.HLevel.{HToken, Tokens, count_down, token_delete}
use opendcd.HLevel.Refs.{
  at, at_pointer, IsCounted, IsCounted-same, IsKept, recount, recount-IsCounted, gone,
  gone-IsCounted,
}

module _ {F : Type 0} where
  IsKept-refl : (s : Tokens F) → IsKept s s
  IsKept-refl s = record { token = λ a t e. (t, e, refl, refl, refl) }

  IsKept-trans : (s s' s'' : Tokens F) → IsKept s s' → IsKept s' s'' → IsKept s s''
  IsKept-trans s s' s'' v w = record {
    token = λ a t e.
        let (t1, e1, a1, p1, w1) = w.token a t e in
        let (t2, e2, a2, p2, w2) = v.token a t1 e1 in (t2, e2, a1 ∙ a2, p1 ∙ p2, w1 ∙ w2);
  }

  pub recount-IsKept :
      (s : Tokens F) (a : ℕ) (t : HToken F) (at_a : s.cell a ≡ some t) (n : ℕ)
      → IsKept s (recount s a t at_a n)
  unfolding recount
  recount-IsKept s a t at_a n = record {
    token = λ b t' e. elim (Bool-cases (a == b)) [
      | inl same ↦
          let z : a ≡ b = (==_iff a b).0 same in
          let q : some (record t { ref_count = n }) ≡ some t' =
            sym (update_same s.cell a _) ∙ ap (recount s a t at_a n).cell z ∙ e in
          (t, ap s.cell (sym z) ∙ at_a, (cc), (cc), (cc))
      | inr other ↦ (
        t',
        sym (update_other s.cell a b _ (λ z. ground (arith, ==_iff a b))) ∙ e,
        refl,
        refl,
        refl,
      )
    ];
  }

  gone-IsKept :
      (s : Tokens F) (a : ℕ) (t : HToken F) (at_a : s.cell a ≡ some t) → IsKept s (gone s a t at_a)
  unfolding gone
  gone-IsKept s a t at_a = record {
    token = λ b t' e. elim (Bool-cases (a == b)) [
      | inl same ↦
          let q : none ≡ some t' =
            sym (update_same s.cell a none) ∙ ap (gone s a t at_a).cell ((==_iff a b).0 same) ∙ e in
          (t', (cc), refl, refl, refl)
      | inr other ↦ (
        t',
        sym (update_other s.cell a b _ (λ z. ground (arith, ==_iff a b))) ∙ e,
        refl,
        refl,
        refl,
      )
    ];
  }

  delete_shared :
      (n a : ℕ) (s : Tokens F) (t : HToken F) (e : s.cell a ≡ some t)
      → (t.ref_count == 1) ≡ false
      → token_delete (suc n) a s ≡ some (recount s a t e (t.ref_count - 1))
  unfolding token_delete count_down recount
  delete_shared n a s t e many = rw (e, token_delete) (rw many refl)

  delete_last :
      (n a : ℕ) (s : Tokens F) (t : HToken F) (e : s.cell a ≡ some t)
      → (t.ref_count == 1) ≡ true
      → t.prev ≡ none
      → token_delete (suc n) a s ≡ some (gone s a t e)
  unfolding token_delete gone
  delete_last n a s t e one last = rw (e, token_delete) (rw (one, last) refl)

  delete_more :
      (n a p : ℕ) (s : Tokens F) (t : HToken F) (e : s.cell a ≡ some t)
      → (t.ref_count == 1) ≡ true
      → t.prev ≡ some p
      → token_delete (suc n) a s ≡ token_delete n p (gone s a t e)
  unfolding token_delete gone
  delete_more n a p s t e one more = rw (e, token_delete) (rw (one, more) refl)

  -- HTokenDelete of a reference that is counted from outside, with fuel for more tokens than there are,
  -- ends. If the counts are exact and every token is referred to, then so it is afterwards: the tokens that
  -- are left are those that are still referred to, with exact counts and the same arcs, predecessors and
  -- weights.
  pub token_delete-IsCounted :
      (n a : ℕ) (s : Tokens F) (live : List ℕ) (outside : ℕ → ℕ)
      → IsCounted s live (λ b. at a b + outside b)
      → length live < n
      → (s' : Tokens F) × (live' : List ℕ) × (token_delete n a s ≡ some s')
        × IsCounted s' live' outside
        × IsKept s s'
        × (length live' < n)
  unfolding token_delete
  token_delete-IsCounted zero a s live outside v l = absurd (omega arith)
  token_delete-IsCounted (suc n) a s live outside v l =
      let h : Has a live = v.roots a (ground (arith, ==_iff a a)) in
      let (t, e) = v.alive a h in
      let self : at a a ≡ 1 = ground (arith, ==_iff a a) in
      let count = v.counted a t e in
      elim (Bool-cases (t.ref_count == 1)) [
        | inr many ↦ (
          recount s a t e (t.ref_count - 1),
          live,
          delete_shared n a s t e many,
          recount-IsCounted s a t e (t.ref_count - 1) live (λ b. at a b + outside b) outside v
              (omega arith) (λ b m. ground (arith, ==_iff a b)) h (ground arith),
          recount-IsKept s a t e (t.ref_count - 1),
          omega arith,
        )
        | inl one ↦
            let w = gone-IsCounted s a t e live outside v (ground arith) in
            let shorter = length-remove_lt a live h in
            elim (Option-cases t.prev) [
              | inl last ↦ (
                gone s a t e,
                remove a live,
                delete_last n a s t e one last,
                IsCounted-same (gone s a t e) (remove a live) (λ b. at_pointer t.prev b + outside b)
                    outside (λ b. rw last (omega arith)) w,
                gone-IsKept s a t e,
                omega arith,
              )
              | inr (p, more) ↦
                  let (s', live', r, w', k, l') =
                    token_delete-IsCounted n p (gone s a t e) (remove a live) outside
                      (IsCounted-same (gone s a t e) (remove a live)
                        (λ b. at_pointer t.prev b + outside b) (λ b. at p b + outside b)
                        (λ b. rw more refl) w)
                      (omega arith) in
                  (
                    s',
                    live',
                    delete_more n a p s t e one more ∙ r,
                    w',
                    IsKept-trans s (gone s a t e) s' (gone-IsKept s a t e) k,
                    omega arith,
                  )
            ]
      ]
