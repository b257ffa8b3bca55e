-- ===== src/Lattice/Sweep/Kept.antt =====
-- src/include/dcd/lattice.h: the entries that GcSweep keeps.
use opendcd.Prelude.{
  ℕ, ◌+◌, ◌≡◌, refl, sym, ap, ◌∙◌, fun_ext, Bool, ◌⊎◌, inl, inr, List, [], ◌∷◌, ◌++◌, append_assoc,
  append-nil, pos, negsuc, update, length, arith, ==_iff, true, false, if◌then◌else◌,
}
use opendcd.Lattice.{Lattice, State}
use opendcd.Lattice.Mark.{gc_marked}
use opendcd.Lattice.Sweep.{sweep_step, sweep_loop, set_index}
use opendcd.Lattice.Sweep.Loop.{IsSweeping, IsSweeping-keep, IsSweeping-reclaim}

-- The entries of the list that are marked, in their order.
abbrev pub kept : (ℕ → Bool) → List ℕ → List ℕ
kept marked [] = []
kept marked (x ∷ xs) = if marked x then x ∷ kept marked xs else kept marked xs

kept-cons :
    (m : ℕ → Bool) (a : ℕ) (us : List ℕ)
    → kept m (a ∷ us) ≡ (if m a then a ∷ [] else []) ++ kept m us
kept-cons m a us = ground arith

module _ {F : Type 0} where
  abbrev pub marks : Lattice F → ℕ → Bool
  marks l b = gc_marked (l.cell b)

  sweep_step-IsSweeping :
      (l : Lattice F) (a : ℕ) (us : List ℕ) → IsSweeping l (a ∷ us) → IsSweeping (sweep_step l a) us
  unfolding sweep_step
  sweep_step-IsSweeping l a us w = by_mark (marks l a)
    where
      by_pool :
          (pool : Bool)
          → (free : List ℕ) × (free ≡ (if pool then a ∷ l.free_list else l.free_list))
            × ((free ≡ a ∷ l.free_list) ⊎ (free ≡ l.free_list))
      by_pool true = (_, refl, inl refl)
      by_pool false = (_, refl, inr refl)

      by_mark :
          (b : Bool)
          → IsSweeping
              (if b
                then record l {
                  cell = update l.cell a (set_index (pos (length l.used_list)) (l.cell a));
                  used_list = l.used_list ++ a ∷ [];
                }
                else record l {
                  cell = update l.cell a (set_index (negsuc 0) (l.cell a));
                  free_list = if l.use_pool then a ∷ l.free_list else l.free_list;
                  num_frees = l.num_frees + 1;
                })
              us
      by_mark true = IsSweeping-keep l a us w
      by_mark false =
          let (free, e, c) = by_pool l.use_pool in rw (← e) (IsSweeping-reclaim l a us w free c)

  -- Sweeping writes indexes and nothing else of a state.
  abbrev pub SameButIndex : Lattice F → Lattice F → Type 0
  SameButIndex l' l = (b : ℕ) → set_index (pos 0) (l'.cell b) ≡ set_index (pos 0) (l.cell b)

  sweep_step-SameButIndex : (l : Lattice F) (a : ℕ) → SameButIndex (sweep_step l a) l
  unfolding sweep_step
  sweep_step-SameButIndex l a b = ground (arith, ==_iff a b)

  used-sweep_step :
      (l : Lattice F) (a : ℕ)
      → (sweep_step l a).used_list ≡ l.used_list ++ (if marks l a then a ∷ [] else [])
  unfolding sweep_step
  used-sweep_step l a = ground (arith, append-nil l.used_list)

  marks-SameButIndex : (l l' : Lattice F) → SameButIndex l' l → marks l' ≡ marks l
  marks-SameButIndex l l' same = fun_ext λ b. ap (λ (s : State F). gc_marked s) (same b)

  pub sweep_loop_lem :
      (l : Lattice F) (us : List ℕ)
      → IsSweeping l us
      → IsSweeping (sweep_loop l us) []
        × ((sweep_loop l us).used_list ≡ l.used_list ++ kept (marks l) us)
        × SameButIndex (sweep_loop l us) l
  unfolding sweep_loop
  sweep_loop_lem l [] w = (w, sym (append-nil l.used_list), λ b. refl)
  sweep_loop_lem l (a ∷ us) w =
      let l' = sweep_step l a in
      let same = sweep_step-SameButIndex l a in
      let (w', used, same') = sweep_loop_lem l' us (sweep_step-IsSweeping l a us w) in
      (
        w',
        rw (used, used-sweep_step l a, marks-SameButIndex l l' same, kept-cons (marks l) a us)
            (append_assoc l.used_list (if marks l a then a ∷ [] else []) (kept (marks l) us)),
        λ b. same' b ∙ same b,
      )

  next_id-sweep_step : (l : Lattice F) (a : ℕ) → (sweep_step l a).next_id ≡ l.next_id
  unfolding sweep_step
  next_id-sweep_step l a = ground arith

  pub next_id-sweep_loop : (l : Lattice F) (us : List ℕ) → (sweep_loop l us).next_id ≡ l.next_id
  unfolding sweep_loop
  next_id-sweep_loop l [] = refl
  next_id-sweep_loop l (a ∷ us) = next_id-sweep_loop (sweep_step l a) us ∙ next_id-sweep_step l a
