-- ===== src/Lattice/Valid.antt =====
-- The invariant of the lattice's lists, and what keeps it.
use opendcd.Prelude.{
  ℕ, suc, ◌+◌, ◌≤◌, ◌<◌, ◌≡◌, ◌∙◌, inl, inr, List, [], ◌∷◌, ◌++◌, Has, All, NoDup, All-Has, pos,
  negsuc, length, arith, refl,
}
use opendcd.Lattice.{Lattice, preds}
use opendcd.Lattice.Mark.{Cells}

module _ {F : Type 0} where
  -- The states of the list hold their positions, counted from `i`.
  abbrev pub Indexed : Cells F → ℕ → List ℕ → Type 0
  Indexed c i [] = Unit
  Indexed c i (x ∷ xs) = ((c x).index ≡ pos i) × Indexed c (suc i) xs

  pub record IsValid (l : Lattice F) : Type 0 where
    -- what Check tests of the indexes: used_list_[i]->Index() == i
    pub indexed : Indexed l.cell 0 l.used_list
    pub freed : All (λ a. (l.cell a).index ≡ negsuc 0) l.free_list
    pub free_nodup : NoDup l.free_list
    pub used_in_heap : All (λ a. a < l.fresh) l.used_list
    pub free_in_heap : All (λ a. a < l.fresh) l.free_list
    -- what Clear tests of the counters, before it frees the used states
    pub balanced : l.num_allocs ≡ l.num_frees + length l.used_list
    -- what Check tests of the arcs: the back pointers lead into the used list
    pub linked : (a p : ℕ) → Has a l.used_list → Has p (preds (l.cell a)) → Has p l.used_list

  pub Indexed-change :
      (c c' : Cells F) (i : ℕ) (xs : List ℕ)
      → ((b : ℕ) → Has b xs → (c' b).index ≡ (c b).index)
      → Indexed c i xs
      → Indexed c' i xs
  Indexed-change c c' i [] same h = tt
  Indexed-change c c' i (x ∷ xs) same h =
      (same x (inl refl) ∙ h.0, Indexed-change c c' (suc i) xs (λ b k. same b (inr k)) h.1)

  pub Indexed-snoc :
      (c : Cells F) (i : ℕ) (xs : List ℕ) (a : ℕ)
      → (c a).index ≡ pos (i + length xs)
      → Indexed c i xs
      → Indexed c i (xs ++ a ∷ [])
  Indexed-snoc c i [] a e h = (ground arith, tt)
  Indexed-snoc c i (x ∷ xs) a e h = (h.0, Indexed-snoc c (suc i) xs a (ground arith) h.1)

  -- A state of the list holds an index that is not before the first.
  pub Indexed-Has :
      (c : Cells F) (i : ℕ) (xs : List ℕ) (a : ℕ)
      → Indexed c i xs
      → Has a xs
      → (j : ℕ) × ((c a).index ≡ pos j) × (i ≤ j)
  Indexed-Has c i [] a h k = elim k [ ]
  Indexed-Has c i (x ∷ xs) a h (inl e) = (i, ground arith, omega arith)
  Indexed-Has c i (x ∷ xs) a h (inr k) =
      let (j, e, le) = Indexed-Has c (suc i) xs a h.1 k in (j, e, omega arith)

  pub Indexed-NoDup : (c : Cells F) (i : ℕ) (xs : List ℕ) → Indexed c i xs → NoDup xs
  Indexed-NoDup c i [] h = tt
  Indexed-NoDup c i (x ∷ xs) h = (
    λ k. let (j, e, le) = Indexed-Has c (suc i) xs x h.1 k in ground arith,
    Indexed-NoDup c (suc i) xs h.1,
  )

module _ {F : Type 0} {l : Lattice F} (v : IsValid l) where
  -- A used state is not in the free list.
  pub used_not_free : (a : ℕ) → Has a l.used_list → ¬ Has a l.free_list
  used_not_free a h k =
      let (j, e, _) = Indexed-Has l.cell 0 l.used_list a v.indexed h in
      let e' : (l.cell a).index ≡ negsuc 0 = All-Has _ l.free_list a v.freed k in ground arith
