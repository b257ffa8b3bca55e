-- ===== src/Trans/Relax/Best.antt =====
-- src/include/dcd/generic-transition-model.h: the best cost that a relaxation with pruning returns.
use opendcd.Prelude.{
  ℕ, ◌≤◌, ◌<◌, ◌≡◌, sym, ap, ◌∙◌, ◌⊎◌, inl, inr, true, get_or, length, get_or-set, arith, ==_iff,
}
use opendcd.Prelude.Float.{Float, key, max_cost}
use opendcd.Token.{inactive, clear, combine_weighted}
use opendcd.Trans.{Expansion, relax}
use opendcd.Trans.Relax.{Cand, slot, over, step, slot-step}

module _ {F : Type 0} ⦃f : Float F⦄ (thr : F) (n : ℕ) where
  -- The best cost is no higher than that of any of the first `n` slots.
  abbrev pub Below : Expansion F → Type 0
  Below e =
      (key e.best ≤ key {F = F} max_cost) × ((j : ℕ) → j < n → key e.best ≤ key (slot e j).cost)

  best-step_mono : (e : Expansion F) (c : Cand F) → key (step thr e c).best ≤ key e.best
  unfolding relax
  best-step_mono e c = ground arith

  best-step_new :
      (e : Expansion F) (c : Cand F)
      → c.dest < length e.next
      → (over thr (combine_weighted (slot e c.dest) c.token c.extend).1 ≡ true)
        ⊎ (key (step thr e c).best ≤ key (slot (step thr e c) c.dest).cost)
  unfolding relax combine_weighted
  best-step_new e c h = ground (
    arith,
    get_or-set e.next c.dest c.dest
        (combine_weighted (get_or e.next c.dest inactive) c.token c.extend).0 inactive,
    ==_iff c.dest c.dest,
  )

  pub Below-step :
      (e : Expansion F) (c : Cand F) → c.dest < length e.next → Below e → Below (step thr e c)
  unfolding clear inactive
  Below-step e c h b = (
    omega (arith, best-step_mono e c, b.0),
    λ j k. ground (
      arith,
      slot-step thr e c j h,
      ==_iff c.dest j,
      best-step_mono e c,
      best-step_new e c h,
      b.0,
      b.1 j k,
    ),
  )

  -- The best cost is that of one of them, within the threshold, or was never lowered.
  abbrev pub Attained : Expansion F → Type 0
  Attained e =
      (e.best ≡ max_cost)
      ⊎ ((j : ℕ) × (j < n) × (e.best ≡ (slot e j).cost) × (key e.best ≤ key thr))

  best-step_choice :
      (e : Expansion F) (c : Cand F)
      → c.dest < length e.next
      → (((step thr e c).best ≡ e.best)
          × ((over thr (combine_weighted (slot e c.dest) c.token c.extend).1 ≡ true)
              ⊎ (key e.best ≤ key (combine_weighted (slot e c.dest) c.token c.extend).1)))
        ⊎ (((step thr e c).best ≡ (slot (step thr e c) c.dest).cost)
            × (key (step thr e c).best ≤ key thr))
  unfolding relax combine_weighted
  best-step_choice e c h = ground (
    arith,
    get_or-set e.next c.dest c.dest
        (combine_weighted (get_or e.next c.dest inactive) c.token c.extend).0 inactive,
    ==_iff c.dest c.dest,
  )

  keep-attained :
      (e : Expansion F) (c : Cand F) (j : ℕ)
      → c.dest < length e.next
      → e.best ≡ (slot e j).cost
      → key e.best ≤ key thr
      → (over thr (combine_weighted (slot e c.dest) c.token c.extend).1 ≡ true)
        ⊎ (key e.best ≤ key (combine_weighted (slot e c.dest) c.token c.extend).1)
      → (slot (step thr e c) j).cost ≡ e.best
  unfolding combine_weighted
  keep-attained e c j h q k o =
      ground (arith, slot-step thr e c j h, ==_iff c.dest j, ap (λ (x : F). key x) q)

  pub Attained-step :
      (e : Expansion F) (c : Cand F)
      → c.dest < n
      → c.dest < length e.next
      → Attained e
      → Attained (step thr e c)
  Attained-step e c hn h a = elim (best-step_choice e c h) [
    | inr new ↦ inr (c.dest, hn, new.0, new.1)
    | inl (same, o) ↦ elim a [
      | inl none' ↦ inl (same ∙ none')
      | inr (j, lt', q, k) ↦ inr (j, lt', same ∙ sym (keep-attained e c j h q k o), rw same k)
    ]
  ]
