-- ===== src/Lattice/Pool/Fresh.antt =====
-- src/include/dcd/lattice.h: NewState and the invariant of the lists.
use opendcd.Prelude.{
  ℕ, ◌+◌, ◌<◌, ◌≡◌, refl, ap, ◌∙◌, inl, inr, Bool, if◌then◌else◌, List, [], ◌∷◌, ◌++◌, Has, All,
  NoDup, All-Has, All-snoc, All-change, Has-append, ℤ, pos, negsuc, update, length, length-append,
  arith, ==_iff, true, false,
}
use opendcd.Prelude.Float.{Float, max_cost}
use opendcd.Lattice.{Lattice, State, preds, init_state}
use opendcd.Lattice.Valid.{IsValid, Indexed-change, Indexed-snoc, used_not_free}
use opendcd.Lattice.Pool.{new_cell, reuse_cell, take_cell, enter_state, new_state}

module _ {F : Type 0} where
  -- `a` can be entered into the lists of `l'`, which has the states of `l`.
  pub record IsTaken (l : Lattice F) (a : ℕ) (l' : Lattice F) : Type 0 where
    pub valid : IsValid l'
    pub same_cell : l'.cell ≡ l.cell
    pub same_used : l'.used_list ≡ l.used_list
    pub not_used : ¬ Has a l'.used_list
    pub not_free : ¬ Has a l'.free_list
    pub in_heap : a < l'.fresh

  grow-IsValid : (l : Lattice F) → IsValid l → IsValid (record l { fresh = l.fresh + 1 })
  grow-IsValid l v = record {
    indexed = v.indexed;
    freed = v.freed;
    free_nodup = v.free_nodup;
    used_in_heap =
        All-change _ (λ b. b < l.fresh + 1) l.used_list (λ b _ h. omega arith) v.used_in_heap;
    free_in_heap =
        All-change _ (λ b. b < l.fresh + 1) l.free_list (λ b _ h. omega arith) v.free_in_heap;
    balanced = v.balanced;
    linked = v.linked;
  }

  new_cell-IsTaken : (l : Lattice F) → IsValid l → IsTaken l (new_cell l).0 (new_cell l).1
  unfolding new_cell
  new_cell-IsTaken l v =
      let bound =
        λ (xs : List ℕ) (h : All (λ b. b < l.fresh) xs). All-Has (λ b. b < l.fresh) xs l.fresh h in
      record {
        valid = grow-IsValid l v;
        same_cell = refl;
        same_used = refl;
        not_used = λ h. absurd (omega (arith, bound l.used_list v.used_in_heap h));
        not_free = λ h. absurd (omega (arith, bound l.free_list v.free_in_heap h));
        in_heap = omega arith;
      }

  reuse_cell-IsTaken :
      (free : List ℕ) (l : Lattice F)
      → l.free_list ≡ free
      → IsValid l
      → IsTaken l (reuse_cell free l).0 (reuse_cell free l).1
  unfolding reuse_cell
  reuse_cell-IsTaken [] l e v = new_cell-IsTaken l v
  reuse_cell-IsTaken (a ∷ rest) l e v =
      let freed : All (λ b. (l.cell b).index ≡ negsuc 0) (a ∷ rest) = rw e at v.freed in
      let nodup : NoDup (a ∷ rest) = rw e at v.free_nodup in
      let heap : All (λ b. b < l.fresh) (a ∷ rest) = rw e at v.free_in_heap in
      record {
        valid = record {
          indexed = v.indexed;
          freed = freed.1;
          free_nodup = nodup.1;
          used_in_heap = v.used_in_heap;
          free_in_heap = heap.1;
          balanced = v.balanced;
          linked = v.linked;
        };
        same_cell = refl;
        same_used = refl;
        not_used = λ h. used_not_free v a h (rw e (inl refl));
        not_free = nodup.0;
        in_heap = heap.0;
      }

  pub take_cell-IsTaken : (l : Lattice F) → IsValid l → IsTaken l (take_cell l).0 (take_cell l).1
  unfolding take_cell
  take_cell-IsTaken l v = by_pool l.use_pool
    where
      by_pool :
          (pool : Bool)
          → IsTaken l
              (if pool then reuse_cell l.free_list l else new_cell l).0
              (if pool then reuse_cell l.free_list l else new_cell l).1
      by_pool true = reuse_cell-IsTaken l.free_list l refl v
      by_pool false = new_cell-IsTaken l v

  -- Writing a state that no list of pointers leads from keeps the other states' facts.
  update_other : (c : ℕ → State F) (a b : ℕ) (s : State F) → ¬ (b ≡ a) → update c a s b ≡ c b
  update_other c a b s h = ground (arith, ==_iff a b)

  update_self : (c : ℕ → State F) (a : ℕ) (s : State F) → update c a s a ≡ s
  update_self c a s = ground (arith, ==_iff a a)

module _ {F : Type 0} ⦃f : Float F⦄ where
  preds-init_state : (t s i x : ℤ) (w : F) → preds (init_state t s i x w) ≡ []
  unfolding init_state preds
  preds-init_state t s i x w = refl

  index-init_state : (t s i x : ℤ) (w : F) → (init_state t s i x w).index ≡ x
  unfolding init_state
  index-init_state t s i x w = refl

  enter_state-IsValid :
      (time state : ℤ) (a : ℕ) (l : Lattice F)
      → IsValid l
      → ¬ Has a l.used_list
      → ¬ Has a l.free_list
      → a < l.fresh
      → IsValid (enter_state time state a l)
  unfolding enter_state
  enter_state-IsValid time state a l v nu nf h =
      let s = init_state time state (pos l.next_id) (pos (length l.used_list)) max_cost in
      let c = update l.cell a s in
      let self = update_self l.cell a s in
      let other = λ (xs : List ℕ) (n : ¬ Has a xs) (b : ℕ) (k : Has b xs).
        update_other l.cell a b s (λ e. n (rw e at k)) in
      let index_self : (c a).index ≡ pos (length l.used_list) =
        ap (λ (x : State F). x.index) self
        ∙ index-init_state time state (pos l.next_id) (pos (length l.used_list)) max_cost in
      record {
        indexed = Indexed-snoc c 0 l.used_list a (index_self ∙ ap pos (omega arith)) (
            Indexed-change l.cell c 0 l.used_list
              (λ b k. ap (λ (x : State F). x.index) (other l.used_list nu b k)) v.indexed);
        freed =
            All-change (λ b. (l.cell b).index ≡ negsuc 0) (λ b. (c b).index ≡ negsuc 0) l.free_list
              (λ b k e. ap (λ (x : State F). x.index) (other l.free_list nf b k) ∙ e) v.freed;
        free_nodup = v.free_nodup;
        used_in_heap = All-snoc (λ b. b < l.fresh) l.used_list a v.used_in_heap h;
        free_in_heap = v.free_in_heap;
        balanced = omega (arith, v.balanced, length-append l.used_list (a ∷ []));
        linked = λ x p hx hp. elim ((Has-append x l.used_list (a ∷ [])).0 hx) [
          | inl old ↦
              (Has-append p l.used_list (a ∷ [])).1
                (inl (v.linked x p old (rw (other l.used_list nu x old) at hp)))
          | inr new ↦ elim new [
            | inl e ↦ absurd (rw (e, self, preds-init_state) at hp)
            | inr none' ↦ elim none' [ ]
          ]
        ];
      }

  -- NewState keeps a valid lattice valid. Its state was not in use, it is added at the end of the
  -- used list, and the states that were in use are left as they were.
  pub new_state-IsValid :
      (time state : ℤ) (l : Lattice F)
      → IsValid l
      → IsValid (new_state time state l).1
        × (¬ Has (new_state time state l).0 l.used_list)
        × ((new_state time state l).1.used_list ≡ l.used_list ++ (new_state time state l).0 ∷ [])
        × ((b : ℕ) → Has b l.used_list → (new_state time state l).1.cell b ≡ l.cell b)
  unfolding new_state enter_state
  new_state-IsValid time state l v =
      let a = (take_cell l).0 in
      let l' = (take_cell l).1 in
      let t = take_cell-IsTaken l v in
      (
        unfold enter_state in
            enter_state-IsValid time state a l' t.valid t.not_used t.not_free t.in_heap,
        (λ h. t.not_used (rw t.same_used h)),
        ap (λ (xs : List ℕ). xs ++ a ∷ []) t.same_used,
        λ b h.
            update_other l'.cell a b _ (λ e. t.not_used (rw (t.same_used, ← e) h))
            ∙ ap (λ (c : ℕ → State F). c b) t.same_cell,
      )
