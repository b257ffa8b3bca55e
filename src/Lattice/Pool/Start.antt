-- ===== src/Lattice/Pool/Start.antt =====
-- src/include/dcd/lattice.h: the empty lattice and the start state.
use opendcd.Prelude.{
  ℕ, ◌≡◌, refl, ◌∙◌, inl, inr, Bool, Bool-cases, ◌==◌, All-change, ℤ, negsuc, update, arith, ==_iff,
}
use opendcd.Prelude.Float.{Float, zero_cost}
use opendcd.Lattice.{Lattice, State, preds}
use opendcd.Lattice.Valid.{IsValid, Indexed-change}
use opendcd.Lattice.Pool.{new_state, create_start_state, empty_lattice}
use opendcd.Lattice.Pool.Fresh.{new_state-IsValid}

module _ {F : Type 0} ⦃f : Float F⦄ where
  start_preds : (s : State F) (w : F) → preds (record s { forwards_cost = w }) ≡ preds s
  unfolding preds
  start_preds s w = refl

  -- A forward cost that is written keeps the lists valid.
  cost-IsValid :
      (l : Lattice F) (a : ℕ) (w : F)
      → IsValid l
      → IsValid (record l { cell = update l.cell a (record (l.cell a) { forwards_cost = w }) })
  cost-IsValid l a w v =
      let c = update l.cell a (record (l.cell a) { forwards_cost = w }) in
      let index : (b : ℕ) → (c b).index ≡ (l.cell b).index = λ b. ground (arith, ==_iff a b) in
      let links : (b : ℕ) → preds (c b) ≡ preds (l.cell b) = λ b. elim (Bool-cases (a == b)) [
        | inl e ↦ rw (e, start_preds, (==_iff a b).0 e)
        | inr e ↦ rw e
      ] in
      record {
        indexed = Indexed-change l.cell c 0 l.used_list (λ b _. index b) v.indexed;
        freed =
            All-change (λ b. (l.cell b).index ≡ negsuc 0) (λ b. (c b).index ≡ negsuc 0) l.free_list
              (λ b _ e. index b ∙ e) v.freed;
        free_nodup = v.free_nodup;
        used_in_heap = v.used_in_heap;
        free_in_heap = v.free_in_heap;
        balanced = v.balanced;
        linked = λ b p hb hp. v.linked b p hb (rw (links b) at hp);
      }

  -- CreateStartState keeps a valid lattice valid.
  pub create_start_state-IsValid :
      (state : ℤ) (l : Lattice F) → IsValid l → IsValid (create_start_state state l).1
  unfolding create_start_state
  create_start_state-IsValid state l v =
      let l' = (new_state (negsuc 0) state l).1 in
      cost-IsValid l' (new_state (negsuc 0) state l).0 zero_cost
        (new_state-IsValid (negsuc 0) state l v).0

pub empty_lattice-IsValid :
    {F : Type 0} (pool : Bool) (cell : ℕ → State F) (fresh : ℕ)
    → IsValid (empty_lattice pool cell fresh)
unfolding empty_lattice
empty_lattice-IsValid pool cell fresh = record {
  indexed = tt;
  freed = tt;
  free_nodup = tt;
  used_in_heap = tt;
  free_in_heap = tt;
  balanced = refl;
  linked = λ a p h k. h;
}
