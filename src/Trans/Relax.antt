-- ===== src/Trans/Relax.antt =====
-- src/include/dcd/generic-transition-model.h: what a sequence of relaxations with pruning computes.
pub mod Best
pub mod Fold
use opendcd.Prelude.{
  ℕ, ◌+◌, ◌≤◌, ◌<◌, ◌≡◌, refl, sym, ap, ◌∙◌, ◌⊎◌, inl, inr, Bool, true, false, Bool-cases, List, [],
  ◌∷◌, ◌++◌, All, get_or, set, length, get_or-set, length-set, arith, ==_iff, ◌==◌, if◌then◌else◌,
}
use opendcd.Prelude.Float.{Float, key, add, lt, max_cost}
use opendcd.Token.{Token, inactive, clear, combine_weighted}
use opendcd.Trans.{Expansion, relax}

-- One candidate for a destination: a token, extended by the cost of an arc.
pub record Cand (F : Type 0) : Type 0 where
  pub token : Token F
  pub extend : F
  pub dest : ℕ

module _ {F : Type 0} ⦃f : Float F⦄ where
  abbrev pub cost_of : Cand F → F
  cost_of c = add c.token.cost c.extend

  unfoldable pub relax_all : (F → Bool) → List (Cand F) → Expansion F → Expansion F
  relax_all pruned [] e = e
  relax_all pruned (c ∷ cs) e = relax_all pruned cs (relax pruned c.token c.extend c.dest e)

  pub relax_all-append :
      (pruned : F → Bool) (cs ds : List (Cand F)) (e : Expansion F)
      → relax_all pruned (cs ++ ds) e ≡ relax_all pruned ds (relax_all pruned cs e)
  unfolding relax_all
  relax_all-append pruned [] ds e = refl
  relax_all-append pruned (c ∷ cs) ds e =
      relax_all-append pruned cs ds (relax pruned c.token c.extend c.dest e)

  abbrev pub slot : Expansion F → ℕ → Token F
  slot e j = get_or e.next j inactive

module _ {F : Type 0} ⦃f : Float F⦄ (thr : F) where
  abbrev pub over : F → Bool
  over cost = lt thr cost

  abbrev pub step : Expansion F → Cand F → Expansion F
  step e c = relax over c.token c.extend c.dest e

  pub length-step : (e : Expansion F) (c : Cand F) → length (step e c).next ≡ length e.next
  unfolding relax
  length-step e c = ground (
    arith,
    length-set e.next c.dest
        (clear (combine_weighted (get_or e.next c.dest inactive) c.token c.extend).0),
    length-set e.next c.dest (combine_weighted (get_or e.next c.dest inactive) c.token c.extend).0,
  )

  -- The slot of the destination after a step, and the other slots.
  module _ (e : Expansion F) (c : Cand F) (j : ℕ) (h : c.dest < length e.next) where
    pub slot-step : slot (step e c) j ≡ (
        if c.dest == j
        then (if over (combine_weighted (slot e c.dest) c.token c.extend).1
            then clear (combine_weighted (slot e c.dest) c.token c.extend).0
            else (combine_weighted (slot e c.dest) c.token c.extend).0)
        else slot e j)
    unfolding relax
    slot-step = ground (
      arith,
      get_or-set e.next c.dest j
          (clear (combine_weighted (get_or e.next c.dest inactive) c.token c.extend).0) inactive,
      get_or-set e.next c.dest j
          (combine_weighted (get_or e.next c.dest inactive) c.token c.extend).0 inactive,
    )

    pub step-slot_mono :
        key (slot e j).cost ≤ key thr → key (slot (step e c) j).cost ≤ key (slot e j).cost
    unfolding combine_weighted
    step-slot_mono k = ground (arith, slot-step, ==_iff c.dest j)

    pub step-slot_cand :
        c.dest ≡ j → key (cost_of c) ≤ key thr → key (slot (step e c) j).cost ≤ key (cost_of c)
    unfolding combine_weighted
    step-slot_cand q k = ground (arith, slot-step, ==_iff c.dest j)

    -- where the token of a slot comes from
    pub step-slot_choice :
        (slot (step e c) j ≡ slot e j)
        ⊎ (slot (step e c) j ≡ inactive)
        ⊎ ((c.dest ≡ j)
            × ((slot (step e c) j).tb ≡ c.token.tb)
            × ((slot (step e c) j).cost ≡ cost_of c)
            × (key (cost_of c) ≤ key thr))
    unfolding combine_weighted clear inactive
    step-slot_choice = ground (arith, slot-step, ==_iff c.dest j)
