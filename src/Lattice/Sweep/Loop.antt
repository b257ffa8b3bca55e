-- ===== src/Lattice/Sweep/Loop.antt =====
-- src/include/dcd/lattice.h: the loop of GcSweep, round by round.
use opendcd.Prelude.{
  ℕ, ◌+◌, ◌<◌, ◌≡◌, refl, ap, ◌∙◌, ◌⊎◌, inl, inr, Bool-cases, List, [], ◌∷◌, ◌++◌, Has, All, NoDup,
  All-snoc, All-change, Has-append, pos, negsuc, update, length, length-append, arith, ==_iff, ◌==◌,
}
use opendcd.Lattice.{Lattice, State}
use opendcd.Lattice.Mark.{Cells}
use opendcd.Lattice.Valid.{
  IsValid, Indexed, Indexed-change, Indexed-snoc, Indexed-NoDup, used_not_free,
}
use opendcd.Lattice.Sweep.{set_index}

-- What is left to sweep, `us`, is apart from the states that are kept or freed.
module _ {F : Type 0} where
  pub record IsSweeping (l : Lattice F) (us : List ℕ) : Type 0 where
    pub indexed : Indexed l.cell 0 l.used_list
    pub freed : All (λ a. (l.cell a).index ≡ negsuc 0) l.free_list
    pub free_nodup : NoDup l.free_list
    pub rest_nodup : NoDup us
    pub rest_not_used : (a : ℕ) → Has a us → ¬ Has a l.used_list
    pub rest_not_free : (a : ℕ) → Has a us → ¬ Has a l.free_list
    pub used_in_heap : All (λ a. a < l.fresh) l.used_list
    pub free_in_heap : All (λ a. a < l.fresh) l.free_list
    pub rest_in_heap : All (λ a. a < l.fresh) us
    pub balanced : l.num_allocs ≡ l.num_frees + length l.used_list + length us

  pub IsSweeping-start :
      (l : Lattice F) → IsValid l → IsSweeping (record l { used_list = [] }) l.used_list
  IsSweeping-start l v = record {
    indexed = tt;
    freed = v.freed;
    free_nodup = v.free_nodup;
    rest_nodup = Indexed-NoDup l.cell 0 l.used_list v.indexed;
    rest_not_used = λ a _ k. k;
    rest_not_free = used_not_free v;
    used_in_heap = tt;
    free_in_heap = v.free_in_heap;
    rest_in_heap = v.used_in_heap;
    balanced = omega (arith, v.balanced);
  }

  update_apart :
      (c : Cells F) (a : ℕ) (s : State F) (xs : List ℕ)
      → ¬ Has a xs
      → (b : ℕ) → Has b xs
      → update c a s b ≡ c b
  update_apart c a s xs n b k = elim (Bool-cases (a == b)) [
    | inl e ↦ absurd (n (rw ((==_iff a b).0 e) k))
    | inr e ↦ rw e
  ]

  module _ (l : Lattice F) (a : ℕ) (us : List ℕ) (w : IsSweeping l (a ∷ us)) where
    index_apart :
        (s : State F) (xs : List ℕ)
        → ¬ Has a xs
        → (b : ℕ) → Has b xs
        → (update l.cell a s b).index ≡ (l.cell b).index
    index_apart s xs n b k = ap (λ (x : State F). x.index) (update_apart l.cell a s xs n b k)

    Indexed-apart : (s : State F) → Indexed (update l.cell a s) 0 l.used_list
    Indexed-apart s =
        Indexed-change l.cell (update l.cell a s) 0 l.used_list
          (index_apart s l.used_list (w.rest_not_used a (inl refl))) w.indexed

    freed_apart : (s : State F) → All (λ b. (update l.cell a s b).index ≡ negsuc 0) l.free_list
    freed_apart s =
        All-change (λ b. (l.cell b).index ≡ negsuc 0) (λ b. (update l.cell a s b).index ≡ negsuc 0)
          l.free_list (λ b k e. index_apart s l.free_list (w.rest_not_free a (inl refl)) b k ∙ e)
          w.freed

    index_here : (i : ℕ) → (update l.cell a (set_index (pos i) (l.cell a)) a).index ≡ pos i
    index_here i = ground (arith, ==_iff a a)

    index_gone : (update l.cell a (set_index (negsuc 0) (l.cell a)) a).index ≡ negsuc 0
    index_gone = ground (arith, ==_iff a a)

    -- a state that is kept moves to the end of the used list
    pub IsSweeping-keep :
        IsSweeping
          (record l {
            cell = update l.cell a (set_index (pos (length l.used_list)) (l.cell a));
            used_list = l.used_list ++ a ∷ [];
          })
          us
    IsSweeping-keep =
        let s = set_index (pos (length l.used_list)) (l.cell a) in
        record {
          indexed =
              Indexed-snoc (update l.cell a s) 0 l.used_list a
                (index_here (length l.used_list) ∙ ap pos (omega arith)) (Indexed-apart s);
          freed = freed_apart s;
          free_nodup = w.free_nodup;
          rest_nodup = w.rest_nodup.1;
          rest_not_used = λ b k h. elim ((Has-append b l.used_list (a ∷ [])).0 h) [
            | inl old ↦ w.rest_not_used b (inr k) old
            | inr new ↦ elim new [ inl e ↦ w.rest_nodup.0 (rw e at k) | inr none' ↦ none' ]
          ];
          rest_not_free = λ b k. w.rest_not_free b (inr k);
          used_in_heap = All-snoc (λ b. b < l.fresh) l.used_list a w.used_in_heap w.rest_in_heap.0;
          free_in_heap = w.free_in_heap;
          rest_in_heap = w.rest_in_heap.1;
          balanced = omega (arith, w.balanced, length-append l.used_list (a ∷ []));
        }

    -- a state that is reclaimed goes to the free list, or is deleted
    pub IsSweeping-reclaim :
        (free : List ℕ)
        → (free ≡ a ∷ l.free_list) ⊎ (free ≡ l.free_list)
        → IsSweeping
            (record l {
              cell = update l.cell a (set_index (negsuc 0) (l.cell a));
              free_list = free;
              num_frees = l.num_frees + 1;
            })
            us
    IsSweeping-reclaim free e =
        let s = set_index (negsuc 0) (l.cell a) in
        record {
          indexed = Indexed-apart s;
          freed = elim e [
            | inl p ↦ rw p (index_gone, freed_apart s)
            | inr p ↦ rw p (freed_apart s)
          ];
          free_nodup = elim e [
            | inl p ↦ rw p (w.rest_not_free a (inl refl), w.free_nodup)
            | inr p ↦ rw p w.free_nodup
          ];
          rest_nodup = w.rest_nodup.1;
          rest_not_used = λ b k. w.rest_not_used b (inr k);
          rest_not_free = λ b k h. elim e [
            | inl p ↦ elim (rw p at h) [
              | inl q ↦ w.rest_nodup.0 (rw q at k)
              | inr old ↦ w.rest_not_free b (inr k) old
            ]
            | inr p ↦ w.rest_not_free b (inr k) (rw p at h)
          ];
          used_in_heap = w.used_in_heap;
          free_in_heap = elim e [
            | inl p ↦ rw p (w.rest_in_heap.0, w.free_in_heap)
            | inr p ↦ rw p w.free_in_heap
          ];
          rest_in_heap = w.rest_in_heap.1;
          balanced = omega (arith, w.balanced);
        }
