-- ===== src/Decoder/State/Sync.antt =====
-- src/include/dcd/clevel-decoder.h, SetToken, and src/include/dcd/token.h, Combine: a token that leaves
-- an arc arrives in a search state, and the arrival is recorded in the lattice.
use opendcd.Prelude.{
  ℕ, ◌≤◌, ◌<◌, ◌≡◌, refl, sym, subst, ◌∙◌, ◌⊎◌, inl, inr, true, none, some, [], ◌∷◌, ℤ, Has,
  Has-append, arith, ==_iff,
}
use opendcd.Prelude.Float.{Float, key, max_cost}
use opendcd.Token.{Token, active}
use opendcd.Lattice.{Lattice, LatticeOptions, ArcInfo, add_arc_state, init_state}
use opendcd.Lattice.Valid.{IsValid}
use opendcd.Lattice.Pool.{new_state, enter_state, take_cell, add_arc}
use opendcd.Lattice.Pool.Fresh.{new_state-IsValid}
use opendcd.Lattice.Pool.Join.{add_arc-IsValid}
use opendcd.Decoder.State.{combine_lattice}

module _ {F : Type 0} ⦃f : Float F⦄ where
  -- The token is empty, or it has the forward cost of the lattice state that it holds.
  abbrev pub IsInSync : Token F → Lattice F → Type 0
  IsInSync t l =
      (t.tb ≡ none)
      ⊎ ((b : ℕ) × (t.tb ≡ some b) × Has b l.used_list × ((l.cell b).forwards_cost ≡ t.cost))

  -- What a combination of `t` with an arriving token promises of the result, `t'` in `l'`.
  pub record IsCombined (t token t' : Token F) (cost : F) (l' : Lattice F) : Type 0 where
    pub valid : IsValid l'
    pub sync :
        (b : ℕ) × (t'.tb ≡ some b) × Has b l'.used_list × ((l'.cell b).forwards_cost ≡ t'.cost)
    pub lower : key t'.cost ≤ key token.cost
    pub improves : (t.tb ≡ none) ⊎ (key t'.cost ≤ key t.cost)
    pub choice : (t'.cost ≡ token.cost) ⊎ ((t'.cost ≡ t.cost) × (active t ≡ true))
    pub arrival : cost ≡ token.cost

  -- The costs that AddArc returns.
  add_arc-costs :
      (src dest : ℕ) (cost : F) (arc : ArcInfo F) (opts : LatticeOptions F) (l : Lattice F)
      → (((add_arc src dest cost arc opts l).0.cell dest).forwards_cost
          ≡ (add_arc src dest cost arc opts l).1.1)
        × ((add_arc src dest cost arc opts l).1.0 ≡ cost)
        × ((((add_arc src dest cost arc opts l).1.1 ≡ cost)
              × (key cost < key (l.cell dest).forwards_cost))
            ⊎ (((add_arc src dest cost arc opts l).1.1 ≡ (l.cell dest).forwards_cost)
                × (key (l.cell dest).forwards_cost ≤ key cost)))
  unfolding add_arc add_arc_state
  add_arc-costs src dest cost arc opts l = (ground (arith, ==_iff dest dest), refl, ground arith)

  used-add_arc :
      (src dest : ℕ) (cost : F) (arc : ArcInfo F) (opts : LatticeOptions F) (l : Lattice F)
      → (add_arc src dest cost arc opts l).0.used_list ≡ l.used_list
  unfolding add_arc
  used-add_arc src dest cost arc opts l = refl

  cost-new_state :
      (time state : ℤ) (l : Lattice F)
      → ((new_state time state l).1.cell (new_state time state l).0).forwards_cost ≡ max_cost
  unfolding new_state enter_state init_state
  cost-new_state time state l = ground (arith, ==_iff (take_cell l).0 (take_cell l).0)

  -- `x` is the lesser of `c` and `o`.
  abbrev IsLesser : F → F → F → Type 0
  IsLesser x c o = ((x ≡ c) × (key c < key o)) ⊎ ((x ≡ o) × (key o ≤ key c))

  IsLesser-bounds :
      (x c o : F) → IsLesser x c o → (key x ≤ key c) × (key x ≤ key o) × ((x ≡ c) ⊎ (x ≡ o))
  IsLesser-bounds x c o h = (ground arith, ground arith, ground arith)

  IsLesser-first : (x c o : F) → IsLesser x c o → key c < key o → x ≡ c
  IsLesser-first x c o h k = ground arith

  module _ (t token : Token F) (arc : ArcInfo F) (nextstate time : ℤ) (opts : LatticeOptions F)
      (l : Lattice F) (src : ℕ) (v : IsValid l) (from : token.tb ≡ some src)
      (used : Has src l.used_list) (under : key token.cost < key {F = F} max_cost) where
    combine_lattice-old :
        (b : ℕ)
        → t.tb ≡ some b
        → Has b l.used_list
        → (l.cell b).forwards_cost ≡ t.cost
        → (t' : Token F) × (costs : F × F) × (l' : Lattice F) × (combine_lattice t token arc
              nextstate time opts l
            ≡ some (t', costs, l'))
          × IsCombined t token t' costs.0 l'
    unfolding combine_lattice active
    combine_lattice-old b e h q =
        let (fwd, same, least) = add_arc-costs src b token.cost arc opts l in
        let (le, le', one) = IsLesser-bounds _ _ _ least in
        let x = (add_arc src b token.cost arc opts l).1.1 in
        (
          record { tb = some b; cost = (add_arc src b token.cost arc opts l).1.1 },
          (add_arc src b token.cost arc opts l).1,
          (add_arc src b token.cost arc opts l).0,
          rw (from, e, combine_lattice) refl,
          record {
            valid = add_arc-IsValid src b token.cost arc opts l v used;
            sync = (b, refl, rw (used-add_arc src b token.cost arc opts l) h, fwd);
            lower = le;
            improves = inr (subst (λ c. key x ≤ key c) q le');
            choice = elim one [ inl c ↦ inl c | inr o ↦ inr (o ∙ q, rw e refl) ];
            arrival = same;
          },
        )

    combine_lattice-new :
        t.tb ≡ none
        → (t' : Token F) × (costs : F × F) × (l' : Lattice F) × (combine_lattice t token arc
              nextstate time opts l
            ≡ some (t', costs, l'))
          × IsCombined t token t' costs.0 l'
    unfolding combine_lattice
    combine_lattice-new e =
        let b = (new_state time nextstate l).0 in
        let l1 = (new_state time nextstate l).1 in
        let (v1, fresh, list, _) = new_state-IsValid time nextstate l v in
        let (fwd, same, least) = add_arc-costs src b token.cost arc opts l1 in
        let first =
          IsLesser-first _ _ _ least
            (subst (λ m. key token.cost < key m) (sym (cost-new_state time nextstate l)) under) in
        let used1 : Has src l1.used_list =
          rw list ((Has-append src l.used_list (b ∷ [])).1 (inl used)) in
        let dest1 : Has b l1.used_list =
          rw list ((Has-append b l.used_list (b ∷ [])).1 (inr (inl refl))) in
        (
          record { tb = some b; cost = (add_arc src b token.cost arc opts l1).1.1 },
          (add_arc src b token.cost arc opts l1).1,
          (add_arc src b token.cost arc opts l1).0,
          rw (from, e, combine_lattice) refl,
          record {
            valid = add_arc-IsValid src b token.cost arc opts l1 v1 used1;
            sync = (b, refl, rw (used-add_arc src b token.cost arc opts l1) dest1, fwd);
            lower = rw first (omega arith);
            improves = inl e;
            choice = inl first;
            arrival = same;
          },
        )

    pub combine_lattice-IsCombined :
        IsInSync t l
        → (t' : Token F) × (costs : F × F) × (l' : Lattice F) × (combine_lattice t token arc
              nextstate time opts l
            ≡ some (t', costs, l'))
          × IsCombined t token t' costs.0 l'
    combine_lattice-IsCombined (inl e) = combine_lattice-new e
    combine_lattice-IsCombined (inr (b, e, h, q)) = combine_lattice-old b e h q
