-- ===== src/Lattice/Sweep/Exact.antt =====
-- src/include/dcd/lattice.h: GcSweep and the invariant of the lists.
use opendcd.Prelude.{
  ℕ, ◌+◌, ◌≤◌, ◌≡◌, refl, ap, inl, inr, ◌↔◌, Bool, true, Bool-cases, List, [], ◌∷◌, Has, length,
  arith,
}
use opendcd.Lattice.{Lattice, State, preds}
use opendcd.Lattice.Mark.Reach.{Closed}
use opendcd.Lattice.Valid.{IsValid}
use opendcd.Lattice.Sweep.{sweep_loop, gc_sweep}
use opendcd.Lattice.Sweep.Loop.{IsSweeping-start}
use opendcd.Lattice.Sweep.Kept.{kept, marks, SameButIndex, sweep_loop_lem}

pub Has-kept : (m : ℕ → Bool) (xs : List ℕ) (a : ℕ) → Has a (kept m xs) ↔ (Has a xs × (m a ≡ true))
Has-kept m [] a = (λ h. elim h [ ], λ h. h.0)
Has-kept m (x ∷ xs) a = elim (Bool-cases (m x)) [
  | inl e ↦ rw e (ground (arith, Has-kept m xs a))
  | inr e ↦ rw e (ground (arith, Has-kept m xs a))
]

pub kept-eq-nil :
    (m : ℕ → Bool) (xs : List ℕ) → ((a : ℕ) → Has a xs → ¬ (m a ≡ true)) → kept m xs ≡ []
kept-eq-nil m [] h = refl
kept-eq-nil m (x ∷ xs) h = ground (arith, h x (inl refl), kept-eq-nil m xs (λ a k. h a (inr k)))

length-kept : (m : ℕ → Bool) (xs : List ℕ) → length (kept m xs) ≤ length xs
length-kept m [] = omega arith
length-kept m (x ∷ xs) = ground (arith, length-kept m xs)

module _ {F : Type 0} where
  preds-SameButIndex :
      (l l' : Lattice F) → SameButIndex l' l → (b : ℕ) → preds (l'.cell b) ≡ preds (l.cell b)
  unfolding preds
  preds-SameButIndex l l' same b = ap (λ (s : State F). unfold preds in preds s) (same b)

  -- A sweep of a valid lattice whose marks are closed under the back pointers leaves a valid one,
  -- with the marked states in their order, and counts what it reclaimed.
  pub gc_sweep-IsValid :
      (l : Lattice F)
      → IsValid l
      → Closed (λ a. Has a l.used_list) (λ a. preds (l.cell a)) l.cell
      → IsValid (gc_sweep l).0
        × ((gc_sweep l).0.used_list ≡ kept (marks l) l.used_list)
        × ((gc_sweep l).1 + length (gc_sweep l).0.used_list ≡ length l.used_list)
        × SameButIndex (gc_sweep l).0 l
  unfolding gc_sweep
  gc_sweep-IsValid l v closed =
      let (w, used, same) =
        sweep_loop_lem (record l { used_list = [] }) l.used_list (IsSweeping-start l v) in
      let l' = sweep_loop (record l { used_list = [] }) l.used_list in
      (
        record {
          indexed = w.indexed;
          freed = w.freed;
          free_nodup = w.free_nodup;
          used_in_heap = w.used_in_heap;
          free_in_heap = w.free_in_heap;
          balanced = omega (arith, w.balanced);
          linked = λ a p ha hp.
              let (old, m) = (Has-kept (marks l) l.used_list a).0 (rw used at ha) in
              let hp' : Has p (preds (l.cell a)) = rw (preds-SameButIndex l l' same a) at hp in
              rw used
                ((Has-kept (marks l) l.used_list p).1 (v.linked a p old hp', closed a p old m hp'));
        },
        used,
        omega (arith, length-kept (marks l) l.used_list, ap (λ (xs : List ℕ). length xs) used),
        same,
      )
