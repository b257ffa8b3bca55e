-- ===== src/Trans/Viterbi.antt =====
-- src/include/dcd/generic-transition-model.h, src/include/dcd/hmm-transition-model.h: the loops of
-- Expand and ExpandGeneric as one sequence of relaxations.
use opendcd.Prelude.{
  ℕ, zero, suc, ◌+◌, ◌<◌, ◌≡◌, refl, inl, inr, Bool, List, [], ◌∷◌, ◌++◌, All, ℤ, get_or,
  if◌then◌else◌, Bool-cases,
}
use opendcd.Prelude.Float.{Float, add}
use opendcd.Token.{Token, inactive, active}
use opendcd.Trans.{TopoArc, Topology, Expansion, relax, expand_arcs, expand_states}
use opendcd.Trans.Relax.{Cand, relax_all, relax_all-append}

-- The arcs lead to states of the topology.
abbrev pub IsTopology : {F : Type 0} → Topology F → ℕ → Type 0
IsTopology topo n = (i : ℕ) → All (λ a. a.nextstate < n) (get_or topo i [])

module _ {F : Type 0} ⦃f : Float F⦄ (score : ℤ → F) where
  -- The candidates that a token has along the arcs that leave its state.
  unfoldable pub arc_cands : Token F → List (TopoArc F) → List (Cand F)
  arc_cands token [] = []
  arc_cands token (a ∷ arcs) =
      record { token = token; extend = add a.weight (score a.ilabel); dest = a.nextstate }
      ∷ arc_cands token arcs

  abbrev pub state_cands : Topology F → List (Token F) → ℕ → List (Cand F)
  state_cands topo tokens i =
      if active (get_or tokens i inactive)
      then arc_cands (get_or tokens i inactive) (get_or topo i [])
      else []

  -- Those of the active tokens of `n` states from `i` on.
  unfoldable pub cands : Topology F → List (Token F) → ℕ → ℕ → List (Cand F)
  cands topo tokens zero i = []
  cands topo tokens (suc n) i = state_cands topo tokens i ++ cands topo tokens n (i + 1)

  expand_arcs-cands :
      (pruned : F → Bool) (token : Token F) (arcs : List (TopoArc F)) (e : Expansion F)
      → expand_arcs pruned score token arcs e ≡ relax_all pruned (arc_cands token arcs) e
  unfolding expand_arcs relax_all arc_cands
  expand_arcs-cands pruned token [] e = refl
  expand_arcs-cands pruned token (a ∷ arcs) e =
      expand_arcs-cands pruned token arcs
        (relax pruned token (add a.weight (score a.ilabel)) a.nextstate e)

  state-cands :
      (pruned : F → Bool) (topo : Topology F) (tokens : List (Token F)) (i : ℕ) (e : Expansion F)
      → (if active (get_or tokens i inactive)
          then expand_arcs pruned score (get_or tokens i inactive) (get_or topo i []) e
          else e)
        ≡ relax_all pruned (state_cands topo tokens i) e
  state-cands pruned topo tokens i e = elim (Bool-cases (active (get_or tokens i inactive))) [
    | inl on ↦ rw on (expand_arcs-cands pruned (get_or tokens i inactive) (get_or topo i []) e)
    | inr off ↦ rw off (unfold relax_all in refl)
  ]

  pub expand_states-cands :
      (pruned : F → Bool) (topo : Topology F) (tokens : List (Token F)) (n i : ℕ) (e : Expansion F)
      → expand_states pruned score tokens topo n i e ≡ relax_all pruned (cands topo tokens n i) e
  unfolding expand_states cands relax_all
  expand_states-cands pruned topo tokens zero i e = refl
  expand_states-cands pruned topo tokens (suc n) i e =
      rw (state-cands pruned topo tokens i e, relax_all-append pruned (state_cands topo tokens i))
        (expand_states-cands pruned topo tokens n (i + 1) _)

  arc_cands-dest :
      (token : Token F) (n : ℕ) (arcs : List (TopoArc F))
      → All (λ (a : TopoArc F). a.nextstate < n) arcs
      → All (λ (c : Cand F). c.dest < n) (arc_cands token arcs)
  unfolding arc_cands
  arc_cands-dest token n [] h = tt
  arc_cands-dest token n (a ∷ arcs) h = (h.0, arc_cands-dest token n arcs h.1)

  All-append :
      (n : ℕ) (cs ds : List (Cand F))
      → All (λ (c : Cand F). c.dest < n) cs
      → All (λ (c : Cand F). c.dest < n) ds
      → All (λ (c : Cand F). c.dest < n) (cs ++ ds)
  All-append n [] ds h k = k
  All-append n (c ∷ cs) ds h k = (h.0, All-append n cs ds h.1 k)

  pub cands-dest :
      (topo : Topology F) (tokens : List (Token F)) (m : ℕ)
      → IsTopology topo m
      → (n i : ℕ) → All (λ (c : Cand F). c.dest < m) (cands topo tokens n i)
  unfolding cands
  cands-dest topo tokens m t zero i = tt
  cands-dest topo tokens m t (suc n) i =
      All-append m (state_cands topo tokens i) (cands topo tokens n (i + 1))
        (elim (Bool-cases (active (get_or tokens i inactive))) [
          | inl on ↦ rw on (arc_cands-dest (get_or tokens i inactive) m (get_or topo i []) (t i))
          | inr off ↦ rw off tt
        ])
        (cands-dest topo tokens m t n (i + 1))
