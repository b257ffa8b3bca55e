-- ===== src/HashList/Freed.antt =====
-- src/include/dcd/hash-list-inl.h, New and Delete: the list of freed elements.
use opendcd.Prelude.{
  ℕ, zero, suc, ◌+◌, ◌≤◌, ◌<◌, ◌≡◌, ◌≢◌, refl, sym, ap, subst, ◌∙◌, inl, inr, Option, none, some,
  List, [], ◌∷◌, Has, NoDup, arith,
}
use opendcd.HashList.{Elem, Memory, set_tail, link_block, allocate, take_freed, new_elem, delete}
use opendcd.HashList.Chain.{IsChain, IsChain-frame, set_tail_same, set_tail_other}

-- The freed elements: distinct, and at addresses that were handed out.
pub record IsFreed {T : Type 0} (m : Memory T) (free : List ℕ) : Type 0 where
  pub chain : IsChain m.cell m.freed_head free none
  pub nodup : NoDup free
  pub below : (a : ℕ) → Has a free → a < m.fresh

-- An element that is in use.
abbrev pub IsUsed : {T : Type 0} → Memory T → List ℕ → ℕ → Type 0
IsUsed m free a = (a < m.fresh) × (¬ Has a free)

-- The addresses of a block with `rest` elements behind the first
block : ℕ → ℕ → List ℕ
block zero p = p ∷ []
block (suc rest) p = p ∷ block rest (p + 1)

Has-block : (rest p a : ℕ) → Has a (block rest p) → (p ≤ a) × (a < p + rest + 1)
unfolding block
Has-block zero p a h = ground arith
Has-block (suc rest) p a h = ground (arith, Has-block rest (p + 1) a)

NoDup-block : (rest p : ℕ) → NoDup (block rest p)
unfolding block
NoDup-block zero p = ((λ h. h), tt)
NoDup-block (suc rest) p =
    (λ h. absurd (let k = Has-block rest (p + 1) p h in omega arith), NoDup-block rest (p + 1))

pub some_eq : (a b : ℕ) → some a ≡ some b → a ≡ b
some_eq a b e = cc

module _ {T : Type 0} where
  link_block_below : (rest p a : ℕ) (cell : ℕ → Elem T) → a < p → link_block rest p cell a ≡ cell a
  unfolding link_block
  link_block_below zero p a cell h = set_tail_other cell p a none (λ e. absurd (omega (arith, e)))
  link_block_below (suc rest) p a cell h =
      link_block_below rest (p + 1) a (set_tail cell p (some (p + 1))) (omega arith)
      ∙ set_tail_other cell p a (some (p + 1)) (λ e. absurd (omega (arith, e)))

  link_block-IsChain :
      (rest p : ℕ) (cell : ℕ → Elem T)
      → IsChain (link_block rest p cell) (some p) (block rest p) none
  unfolding link_block block
  link_block-IsChain zero p cell = (refl, set_tail_same cell p none)
  link_block-IsChain (suc rest) p cell =
      let cell' = set_tail cell p (some (p + 1)) in
      (
        refl,
        subst (λ q. IsChain (link_block rest (p + 1) cell') q (block rest (p + 1)) none)
            (sym (
              ap (λ (x : Elem T). x.tail) (link_block_below rest (p + 1) p cell' (omega arith))
              ∙ set_tail_same cell p (some (p + 1))))
            (link_block-IsChain rest (p + 1) cell'),
      )

  -- What New does to the memory: an element that was not in use is.
  pub record IsNew (m : Memory T) (free : List ℕ) (e : ℕ) (m' : Memory T) : Type 0 where
    pub left : List ℕ
    pub freed : IsFreed m' left
    pub used : IsUsed m' left e
    pub other : (a : ℕ) → IsUsed m free a → IsUsed m' left a × (a ≢ e) × (m'.cell a ≡ m.cell a)

  take_freed-IsNew :
      (m : Memory T) (a : ℕ) (left : List ℕ)
      → IsChain m.cell (some a) (a ∷ left) none
      → NoDup (a ∷ left)
      → ((b : ℕ) → Has b (a ∷ left) → b < m.fresh)
      → IsNew m (a ∷ left) (take_freed a m).0 (take_freed a m).1
  unfolding take_freed
  take_freed-IsNew m a left c d b = record {
    left = left;
    freed = record { chain = c.1; nodup = d.1; below = λ x h. b x (inr h) };
    used = (b a (inl refl), d.0);
    other = λ x u. ((u.0, λ h. u.1 (inr h)), λ e. u.1 (inl e), refl);
  }

  -- New of a freed element
  IsNew-freed :
      (m : Memory T) (a : ℕ) (free : List ℕ)
      → m.freed_head ≡ some a
      → IsFreed m free
      → IsNew m free (take_freed a m).0 (take_freed a m).1
  IsNew-freed m a [] e v = absurd (let q = sym e ∙ v.chain in cc)
  IsNew-freed m a (b ∷ left) e v =
      let q : a ≡ b = some_eq a b (sym e ∙ v.chain.0) in
      subst (λ x. IsNew m (x ∷ left) (take_freed a m).0 (take_freed a m).1) q
        (take_freed-IsNew m a left
          (subst (λ x. IsChain m.cell (some a) (x ∷ left) none) (sym q) (ap some q, v.chain.1))
          (subst (λ x. NoDup (x ∷ left)) (sym q) v.nodup)
          (subst (λ x. (b' : ℕ) → Has b' (x ∷ left) → b' < m.fresh) (sym q) v.below))

  -- New that allocates a block
  IsNew-block :
      (m : Memory T)
      → IsNew m [] (take_freed m.fresh (allocate m)).0 (take_freed m.fresh (allocate m)).1
  unfolding allocate
  IsNew-block m =
      let n = IsNew-freed (allocate m) m.fresh (block 1023 m.fresh) refl record {
        chain = link_block-IsChain 1023 m.fresh m.cell;
        nodup = NoDup-block 1023 m.fresh;
        below = λ a h. let k = Has-block 1023 m.fresh a h in omega arith;
      } in
      record {
        left = n.left;
        freed = n.freed;
        used = n.used;
        other = λ a u.
            let old : IsUsed (allocate m) (block 1023 m.fresh) a = (
              omega arith,
              λ h. absurd (let k = Has-block 1023 m.fresh a h in omega (arith, u.0)),
            ) in
            let (u', ne, same) = n.other a old in
            (u', ne, same ∙ link_block_below 1023 m.fresh a m.cell u.0);
      }

  new_elem_eq :
      (m : Memory T) (p : Option ℕ)
      → m.freed_head ≡ p
      → new_elem m ≡ (elim p [ none ↦ take_freed m.fresh (allocate m) | some a ↦ take_freed a m ])
  unfolding new_elem
  new_elem_eq m p e =
      ap
        (λ (p : Option ℕ). elim p as (λ _. ℕ × Memory T) [
          | none ↦ take_freed m.fresh (allocate m)
          | some a ↦ take_freed a m
        ])
        e

  -- New returns an element that was not in use, and leaves those in use as they are.
  pub new_elem-IsNew :
      (m : Memory T) (free : List ℕ) → IsFreed m free → IsNew m free (new_elem m).0 (new_elem m).1
  new_elem-IsNew m [] v =
      subst (λ r. IsNew m [] r.0 r.1) (sym (new_elem_eq m none v.chain)) (IsNew-block m)
  new_elem-IsNew m (a ∷ free) v =
      subst (λ r. IsNew m (a ∷ free) r.0 r.1) (sym (new_elem_eq m (some a) v.chain.0))
        (IsNew-freed m a (a ∷ free) v.chain.0 v)

  -- Delete of an element in use
  pub delete-IsFreed :
      (m : Memory T) (free : List ℕ) (e : ℕ)
      → IsFreed m free
      → IsUsed m free e
      → IsFreed (delete e m) (e ∷ free) × ((a : ℕ) → a ≢ e → (delete e m).cell a ≡ m.cell a)
  unfolding delete
  delete-IsFreed m free e v u = (
    record {
      chain = (
        refl,
        subst (λ p. IsChain (set_tail m.cell e m.freed_head) p free none)
            (sym (set_tail_same m.cell e m.freed_head))
            (IsChain-frame m.cell (set_tail m.cell e m.freed_head) m.freed_head free none
              (λ x h.
                ap (λ (y : Elem T). y.tail)
                  (set_tail_other m.cell e x m.freed_head (λ q. u.1 (subst (λ y. Has y free) q h))))
              v.chain),
      );
      nodup = (u.1, v.nodup);
      below = λ a h. elim h [ inl q ↦ subst (λ y. y < m.fresh) (sym q) u.0 | inr k ↦ v.below a k ];
    },
    λ a n. set_tail_other m.cell e a m.freed_head n,
  )

  -- Writes to elements that are not freed
  pub IsFreed-frame :
      (m : Memory T) (cell' : ℕ → Elem T) (free : List ℕ)
      → ((x : ℕ) → Has x free → (cell' x).tail ≡ (m.cell x).tail)
      → IsFreed m free
      → IsFreed (record m { cell = cell' }) free
  IsFreed-frame m cell' free same v = record {
    chain = IsChain-frame m.cell cell' m.freed_head free none same v.chain;
    nodup = v.nodup;
    below = v.below;
  }
