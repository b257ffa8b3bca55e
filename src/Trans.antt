-- ===== src/Trans.antt =====
-- src/include/dcd/generic-transition-model.h, src/include/dcd/hmm-transition-model.h: one frame of the
-- tokens inside an arc. A topology is what OpenFst's iterators yield of an arc type: the arcs that
-- leave each state, in order. `score` is StateCost and Score: it maps a state label to its cost in
-- the current frame, which the front end computes.
pub mod Relax
pub mod Bakis
pub mod Viterbi
pub mod Expand
use opendcd.Prelude.{
  ℕ, zero, suc, ◌+◌, ◌-◌, Bool, true, false, List, [], ◌∷◌, ℤ, pos, get_or, set, length, ◌||◌,
  if◌then◌else◌,
}
use opendcd.Prelude.Float.{Float, add, lt, min, max, max_cost}
use opendcd.Token.{Token, inactive, active, clear, combine_weighted}

pub record TopoArc (F : Type 0) : Type 0 where
  pub ilabel : ℤ
  pub weight : F
  pub nextstate : ℕ

-- A topology has a state. Without any, the source's loop up to numstates - 1 runs out of bounds.
abbrev pub Topology : Type 0 → Type 0
Topology F = List (List (TopoArc F))

-- The locals of the loops: `nexttokens`, the best cost and the best lookahead cost.
pub record Expansion (F : Type 0) : Type 0 where
  pub next : List (Token F)
  pub best : F
  pub next_best : F

module _ {F : Type 0} ⦃f : Float F⦄ where
  -- One relaxation: combine, then clear the destination again if the cost fails the test.
  unfoldable pub relax : (F → Bool) → Token F → F → ℕ → Expansion F → Expansion F
  unfolding combine_weighted inactive clear
  relax pruned token extend dest e =
      let (t, cost) = combine_weighted (get_or e.next dest inactive) token extend in
      if pruned cost then record e { next = set e.next dest (clear t) } else record e {
        next = set e.next dest t;
        best = min e.best cost;
        next_best = max e.next_best max_cost;
      }

  -- The loop over the arcs that leave one state.
  unfoldable pub expand_arcs :
      (F → Bool) → (ℤ → F) → Token F → List (TopoArc F) → Expansion F → Expansion F
  expand_arcs pruned score token [] e = e
  expand_arcs pruned score token (a ∷ arcs) e =
      expand_arcs pruned score token arcs
        (relax pruned token (add a.weight (score a.ilabel)) a.nextstate e)

  -- The loop over the states: `n` rounds from state `i` on.
  unfoldable pub expand_states :
      (F → Bool) → (ℤ → F) → List (Token F) → Topology F → ℕ → ℕ → Expansion F → Expansion F
  unfolding active inactive expand_arcs
  expand_states pruned score tokens topo zero i e = e
  expand_states pruned score tokens topo (suc n) i e =
      let token = get_or tokens i inactive in
      expand_states pruned score tokens topo n (i + 1)
        (if active token then expand_arcs pruned score token (get_or topo i []) e else e)

  -- `for (i = 0; i < n; ++i) tokens[i].Clear()`
  unfoldable pub clear_tokens : ℕ → List (Token F) → List (Token F)
  unfolding clear
  clear_tokens zero ts = ts
  clear_tokens (suc n) [] = []
  clear_tokens (suc n) (t ∷ ts) = clear t ∷ clear_tokens n ts

  -- `for (i = 0; i != n; ++i) tokens[i] = nexttokens[i]`
  unfoldable pub copy_tokens : ℕ → List (Token F) → List (Token F) → List (Token F)
  copy_tokens zero next ts = ts
  copy_tokens (suc n) [] ts = ts
  copy_tokens (suc n) (x ∷ next) [] = []
  copy_tokens (suc n) (x ∷ next) (t ∷ ts) = x ∷ copy_tokens n next ts

  -- Both versions: the tokens afterwards, with the best cost and the best lookahead cost.
  unfoldable pub expand_topology :
      (F → Bool) → (ℤ → F) → Topology F → List (Token F) → List (Token F) → List (Token F) × (F × F)
  unfolding clear_tokens copy_tokens expand_states
  expand_topology pruned score topo scratch tokens =
      let n = length topo in
      let e =
        expand_states pruned score tokens topo (n - 1) 0
          (record { next = clear_tokens n scratch; best = max_cost; next_best = max_cost }) in
      (copy_tokens n e.next tokens, (e.best, e.next_best))

  -- GenericTransitionModel::Expand, where `ncost` is kMaxCost
  unfoldable pub expand_generic :
      (ℤ → F) → Topology F → F → F → List (Token F) → List (Token F) → List (Token F) × (F × F)
  unfolding expand_topology
  expand_generic score topo threshold lthreshold =
      expand_topology (λ cost. lt threshold cost || lt lthreshold max_cost) score topo

  -- HMMTransitionModel::ExpandGeneric, which has no lookahead cost
  unfoldable pub expand_hmm :
      (ℤ → F) → Topology F → F → List (Token F) → List (Token F) → List (Token F) × (F × F)
  unfolding expand_topology
  expand_hmm score topo threshold = expand_topology (λ cost. lt threshold cost) score topo
