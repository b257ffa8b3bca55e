-- ===== src/Lattice/Mark/Cycle.antt =====
-- src/include/dcd/lattice.h, State::GcMark: the recursion on a cycle of arcs. A state is marked after
-- its predecessors.
use mathlib.Core.Option.{some-injective}
use opendcd.Prelude.{
  subst, ℕ, zero, suc, ◌+◌, ◌≡◌, refl, sym, ◌∙◌, inl, inr, Bool, true, false, Bool-cases, Option,
  Option-cases, none, some, List, [], ◌∷◌, Has, update, arith, ==_iff, ◌==◌,
}
use opendcd.Lattice.{State, preds}
use opendcd.Lattice.Mark.{Cells, gc_marked, set_marked, mark_all, gc_mark, ◌>>=◌}

module _ {F : Type 0} (u : ℕ → Bool) (g : ℕ → List ℕ) where
  -- The states of `u` are unmarked, and `g` is where the pointers lead.
  record IsStuck (c : Cells F) : Type 0 where
    unmarked : (a : ℕ) → u a ≡ true → gc_marked (c a) ≡ false
    links : (b : ℕ) → preds (c b) ≡ g b

  record Fails (visit : Cells F → ℕ → Option (Cells F)) : Type 0 where
    on_cycle : (c : Cells F) (a : ℕ) → IsStuck c → u a ≡ true → visit c a ≡ none
    keeps : (c c' : Cells F) (a : ℕ) → IsStuck c → visit c a ≡ some c' → IsStuck c'

  mark_all-none :
      (visit : Cells F → ℕ → Option (Cells F))
      → Fails visit
      → (c : Cells F) (ps : List ℕ) (p : ℕ) → IsStuck c
      → Has p ps
      → u p ≡ true
      → mark_all visit c ps ≡ none
  unfolding mark_all
  mark_all-none visit w c [] p k h up = elim h [ ]
  mark_all-none visit w c (q ∷ ps) p k h up = elim (Option-cases (visit c q)) [
    | inl e ↦ rw (e, ◌>>=◌)
    | inr (c', e) ↦
        rw (e, ◌>>=◌)
          (elim h [
            | inl same ↦ absurd (not_some c' (sym e ∙ w.on_cycle c q k (rw same at up)))
            | inr rest ↦ mark_all-none visit w c' ps p (w.keeps c c' q k e) rest up
          ])
  ]
    where
      not_some : (x : Cells F) → ¬ (some x ≡ none)
      not_some x e = cc

  mark_all-IsStuck :
      (visit : Cells F → ℕ → Option (Cells F))
      → Fails visit
      → (c c' : Cells F) (ps : List ℕ) → IsStuck c
      → mark_all visit c ps ≡ some c'
      → IsStuck c'
  unfolding mark_all
  mark_all-IsStuck visit w c c' [] k e = subst IsStuck (some-injective c c' e) k
  mark_all-IsStuck visit w c c' (q ∷ ps) k e = elim (Option-cases (visit c q)) [
    | inl e' ↦ let e'' : none ≡ some c' = rw (e', ◌>>=◌) at e in cc
    | inr (c'', e') ↦
        mark_all-IsStuck visit w c'' c' ps (w.keeps c c'' q k e') (rw (e', ◌>>=◌) at e)
  ]

  preds-update : (c : Cells F) (a n b : ℕ) → preds (update c a (set_marked n (c a)) b) ≡ preds (c b)
  preds-update c a n b = elim (Bool-cases (a == b)) [
    | inl e ↦ rw (e, (==_iff a b).0 e) (preds-set_marked (c b))
    | inr e ↦ rw e
  ]
    where
      preds-set_marked : (s : State F) → preds (set_marked n s) ≡ preds s
      preds-set_marked s = unfold preds in refl

  IsStuck-update :
      (c : Cells F) (a n : ℕ) → u a ≡ false → IsStuck c → IsStuck (update c a (set_marked n (c a)))
  IsStuck-update c a n off k = record {
    unmarked = λ b h. ground (arith, ==_iff a b, k.unmarked b h);
    links = λ b. preds-update c a n b ∙ k.links b;
  }

  module _ (n : ℕ) (w : Fails (gc_mark n))
      (cycle : (a : ℕ) → u a ≡ true → (p : ℕ) × Has p (g a) × (u p ≡ true)) where
    gc_mark-on_cycle : (c : Cells F) (a : ℕ) → IsStuck c → u a ≡ true → gc_mark (suc n) c a ≡ none
    unfolding gc_mark
    gc_mark-on_cycle c a k h =
        let (p, hp, up) = cycle a h in
        rw (k.unmarked a h, k.links a, mark_all-none (gc_mark n) w c (g a) p k hp up) refl

    off_cycle : (c c' : Cells F) (a : ℕ) → IsStuck c → gc_mark (suc n) c a ≡ some c' → u a ≡ false
    off_cycle c c' a k e = elim (Bool-cases (u a)) [
      | inl h ↦ let e' : none ≡ some c' = sym (gc_mark-on_cycle c a k h) ∙ e in cc
      | inr off ↦ off
    ]

    gc_mark-IsStuck :
        (c c' : Cells F) (a : ℕ) → IsStuck c → gc_mark (suc n) c a ≡ some c' → IsStuck c'
    unfolding gc_mark
    gc_mark-IsStuck c c' a k e =
        let off = off_cycle c c' a k e in
        elim (Bool-cases (gc_marked (c a))) [
          | inl old ↦
              subst IsStuck (some-injective _ _ (rw (old, gc_mark) at e))
                (IsStuck-update c a ((c a).marked + 1) off k)
          | inr new ↦ elim (Option-cases (mark_all (gc_mark n) c (preds (c a)))) [
            | inl e' ↦ let e'' : none ≡ some c' = rw (new, e', ◌>>=◌) at e in cc
            | inr (c'', e') ↦ subst IsStuck (some-injective _ _ (rw (new, e', ◌>>=◌) at e)) (
                IsStuck-update c'' a 1 off
                  (mark_all-IsStuck (gc_mark n) w c c'' (preds (c a)) k e'))
          ]
        ]

  Fails-gc_mark :
      ((a : ℕ) → u a ≡ true → (p : ℕ) × Has p (g a) × (u p ≡ true)) → (n : ℕ) → Fails (gc_mark n)
  Fails-gc_mark cycle zero = record {
    on_cycle = λ c a k h. unfold gc_mark in refl;
    keeps = λ c c' a k e. let e' : none ≡ some c' = unfold gc_mark in e in cc;
  }
  Fails-gc_mark cycle (suc n) = record {
    on_cycle = gc_mark-on_cycle n (Fails-gc_mark cycle n) cycle;
    keeps = gc_mark-IsStuck n (Fails-gc_mark cycle n) cycle;
  }

-- From an unmarked state of a set `u` of unmarked states, each of which has a predecessor in `u`,
-- GcMark does not return, however deep the recursion may go.
pub gc_mark-diverges :
    {F : Type 0} (u : ℕ → Bool) (c : Cells F)
    → ((a : ℕ)
        → u a ≡ true
        → (gc_marked (c a) ≡ false) × (p : ℕ) × Has p (preds (c a)) × (u p ≡ true))
    → (fuel a : ℕ) → u a ≡ true
    → gc_mark fuel c a ≡ none
gc_mark-diverges u c h fuel a ua =
    (Fails-gc_mark u (λ b. preds (c b)) (λ b ub. ((h b ub).1, (h b ub).2, (h b ub).3))
        fuel).on_cycle
      c a (record { unmarked = λ b ub. (h b ub).0; links = λ b. refl }) ua
