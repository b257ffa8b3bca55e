-- ===== src/Trans/Expand.antt =====
-- src/include/dcd/generic-transition-model.h, src/include/dcd/hmm-transition-model.h: Expand and
-- ExpandGeneric against the Viterbi recursion with pruning.
use opendcd.Prelude.{
  ℕ, zero, suc, ◌-◌, ◌≤◌, ◌<◌, ◌≡◌, refl, ap, ◌∙◌, ◌⊎◌, inl, inr, List, [], ◌∷◌, All, ℤ, get_or,
  length, arith, fun_ext, ◌||◌,
}
use opendcd.Prelude.Float.{Float, key, lt, max_cost}
use opendcd.Token.{Token, inactive}
use opendcd.Trans.{
  TopoArc, Topology, Expansion, clear_tokens, copy_tokens, expand_hmm, expand_generic,
}
use opendcd.Trans.Relax.{Cand, relax_all, over, length-step}
use opendcd.Trans.Relax.Best.{Below}
use opendcd.Trans.Relax.Fold.{IsCand, IsLeast, relax_all-IsLeast, relax_all-IsCand, relax_all-best}
use opendcd.Trans.Viterbi.{cands, IsTopology, expand_states-cands, cands-dest}

module _ {F : Type 0} ⦃f : Float F⦄ where
  length-clear_tokens : (n : ℕ) (ts : List (Token F)) → length (clear_tokens n ts) ≡ length ts
  unfolding clear_tokens
  length-clear_tokens zero ts = refl
  length-clear_tokens (suc n) [] = refl
  length-clear_tokens (suc n) (t ∷ ts) = ap suc (length-clear_tokens n ts)

  get_or-clear_tokens :
      (n : ℕ) (ts : List (Token F)) (j : ℕ)
      → j < n
      → n ≤ length ts
      → get_or (clear_tokens n ts) j inactive ≡ inactive
  unfolding clear_tokens inactive
  get_or-clear_tokens zero ts j h k = absurd (omega arith)
  get_or-clear_tokens (suc n) [] j h k = refl
  get_or-clear_tokens (suc n) (t ∷ ts) zero h k = refl
  get_or-clear_tokens (suc n) (t ∷ ts) (suc j) h k =
      get_or-clear_tokens n ts j (omega arith) (omega arith)

  get_or-copy_tokens :
      (n : ℕ) (next ts : List (Token F)) (j : ℕ)
      → j < n
      → n ≤ length next
      → n ≤ length ts
      → get_or (copy_tokens n next ts) j inactive ≡ get_or next j inactive
  unfolding copy_tokens
  get_or-copy_tokens zero next ts j h k m = absurd (omega arith)
  get_or-copy_tokens (suc n) [] ts j h k m = absurd (omega arith)
  get_or-copy_tokens (suc n) (x ∷ next) [] j h k m = absurd (omega arith)
  get_or-copy_tokens (suc n) (x ∷ next) (t ∷ ts) zero h k m = refl
  get_or-copy_tokens (suc n) (x ∷ next) (t ∷ ts) (suc j) h k m =
      get_or-copy_tokens n next ts j (omega arith) (omega arith) (omega arith)

  get_or-copy_tokens_above :
      (n : ℕ) (next ts : List (Token F)) (j : ℕ)
      → n ≤ j
      → get_or (copy_tokens n next ts) j inactive ≡ get_or ts j inactive
  unfolding copy_tokens
  get_or-copy_tokens_above zero next ts j h = refl
  get_or-copy_tokens_above (suc n) [] ts j h = refl
  get_or-copy_tokens_above (suc n) (x ∷ next) [] j h = refl
  get_or-copy_tokens_above (suc n) (x ∷ next) (t ∷ ts) zero h = absurd (omega arith)
  get_or-copy_tokens_above (suc n) (x ∷ next) (t ∷ ts) (suc j) h =
      get_or-copy_tokens_above n next ts j (omega arith)

  length-relax_all :
      (thr : F) (cs : List (Cand F)) (e : Expansion F)
      → length (relax_all (over thr) cs e).next ≡ length e.next
  unfolding relax_all
  length-relax_all thr [] e = refl
  length-relax_all thr (c ∷ cs) e = length-relax_all thr cs _ ∙ length-step thr e c

  max_cost-inactive : (inactive {F = F}).cost ≡ max_cost
  unfolding inactive
  max_cost-inactive = refl

-- A step of the Viterbi recursion with pruning: `n` tokens have become the best of the candidates,
-- or none is within the threshold, and the cost is the least of theirs.
module _ {F : Type 0} ⦃f : Float F⦄ where
  pub record IsViterbi (thr : F) (n : ℕ) (cs : List (Cand F)) (before after : List (Token F))
      (best : F) : Type 0 where
    pub least : (j : ℕ) → j < n → IsLeast thr j cs (get_or after j inactive)
    pub choice :
        (j : ℕ)
        → j < n
        → (get_or after j inactive ≡ inactive) ⊎ IsCand thr j cs (get_or after j inactive)
    pub others : (j : ℕ) → n ≤ j → get_or after j inactive ≡ get_or before j inactive
    pub best_lower : (j : ℕ) → j < n → key best ≤ key (get_or after j inactive).cost
    pub best_choice :
        (best ≡ max_cost) ⊎ ((j : ℕ) × (j < n) × (best ≡ (get_or after j inactive).cost))

  module _ (score : ℤ → F) (topo : Topology F) (thr : F) (scratch tokens : List (Token F))
      (t : IsTopology topo (length topo)) (hs : length topo ≤ length scratch)
      (ht : length topo ≤ length tokens) where
    -- The state of the loops before and after the relaxations.
    abbrev before : Expansion F
    before = record {
      next = clear_tokens (length topo) scratch;
      best = max_cost;
      next_best = max_cost;
    }

    abbrev all_cands : List (Cand F)
    all_cands = cands score topo tokens (length topo - 1) 0

    length-before : length before.next ≡ length scratch
    length-before = length-clear_tokens (length topo) scratch

    dests : (n : ℕ) → length topo ≤ n → All (λ (c : Cand F). c.dest < n) all_cands
    dests n h =
        cands-dest score topo tokens n (λ i. widen (get_or topo i []) (t i)) (length topo - 1) 0
      where
        widen :
            (arcs : List (TopoArc F))
            → All (λ (a : TopoArc F). a.nextstate < length topo) arcs
            → All (λ (a : TopoArc F). a.nextstate < n) arcs
        widen [] k = tt
        widen (a ∷ arcs) k = (omega (arith, k.0), widen arcs k.1)

    Below-before : Below thr (length topo) before
    Below-before = (
      omega arith,
      λ j h. rw (get_or-clear_tokens (length topo) scratch j h hs, max_cost-inactive) (omega arith),
    )

    IsViterbi-relax_all :
        (e : Expansion F)
        → e ≡ relax_all (over thr) all_cands before
        → IsViterbi thr
            (length topo)
            all_cands
            tokens
            (copy_tokens (length topo) e.next tokens)
            e.best
    IsViterbi-relax_all e eq =
        let n = length topo in
        let len : length e.next ≡ length scratch =
          ap (λ (x : Expansion F). length x.next) eq
          ∙ length-relax_all thr all_cands before
          ∙ length-before in
        let inside = dests (length before.next) (rw length-before hs) in
        let (below, attained) =
          relax_all-best thr n all_cands before (dests n (omega arith)) (rw length-before hs)
            (Below-before, inl refl) in
        let copied = λ (j : ℕ) (h : j < n). get_or-copy_tokens n e.next tokens j h (rw len hs) ht in
        record {
          least = λ j h. rw (copied j h, eq) (relax_all-IsLeast thr all_cands before j inside);
          choice = λ j h.
              rw (copied j h, eq)
                (relax_all-IsCand thr all_cands before j inside
                  (get_or-clear_tokens n scratch j h hs));
          others = get_or-copy_tokens_above n e.next tokens;
          best_lower = λ j h. rw (copied j h, eq) (below.1 j h);
          best_choice = elim attained [
            | inl m ↦ inl (ap (λ (x : Expansion F). x.best) eq ∙ m)
            | inr (j, h, q, _) ↦ inr (j, h, rw (copied j h, eq) q)
          ];
        }

    -- ExpandGeneric of the HMM transition model, and Expand of the generic one while its lookahead
    -- threshold is at least kMaxCost, compute a Viterbi step over the arcs of the active tokens, the
    -- last state's left out, and return the best cost of the new tokens. The topology's arcs stay
    -- inside it, and both arrays of tokens hold its states.
    pub expand_IsViterbi :
        (lthreshold : F)
        → key {F = F} max_cost ≤ key lthreshold
        → IsViterbi thr
            (length topo)
            all_cands
            tokens
            (expand_hmm score topo thr scratch tokens).0
            (expand_hmm score topo thr scratch tokens).1.0
          × IsViterbi thr
              (length topo)
              all_cands
              tokens
              (expand_generic score topo thr lthreshold scratch tokens).0
              (expand_generic score topo thr lthreshold scratch tokens).1.0
    unfolding expand_hmm expand_generic
    expand_IsViterbi lthreshold h =
        let hmm =
          IsViterbi-relax_all _
            (expand_states-cands score (over thr) topo tokens (length topo - 1) 0 before) in
        let same : (λ (cost : F). lt thr cost || lt lthreshold max_cost) ≡ over thr =
          fun_ext λ cost. ground arith in
        (hmm, rw same hmm)
