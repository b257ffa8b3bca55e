-- ===== src/HashList/Groups/Insert/First.antt =====
-- src/include/dcd/hash-list-inl.h, Insert: the first element of a bucket.
use opendcd.Prelude.{
  ℕ, ◌%◌, ◌≡◌, ◌≢◌, refl, sym, ap, subst, ◌∙◌, inl, inr, Option, none, some, List, [], ◌∷◌, Has,
  NoDup,
}
use opendcd.HashList.{Elem, HashBucket}
use opendcd.HashList.Groups.{Group, members, indices, elements, newest, end, IsGroup, IsLinked}
use opendcd.HashList.Groups.Frame.{
  Has-front, Has-last, Has-newer, Has-older, snoc_fresh, IsGroup-frame, end-frame, IsLinked-frame,
  Has-elements,
}

abbrev pub alone : ℕ → ℕ → Group
alone i e = record { index = i; front = []; last = e }

module _ {T : Type 0} (cell cell' : ℕ → Elem T) (bucket bucket' : ℕ → HashBucket) (size : ℕ)
    (Used : ℕ → Type 0) (i e : ℕ) (at' : (bucket' i).last_elem ≡ some e)
    (others : (b : ℕ) → b ≢ i → bucket' b ≡ bucket b) (used : Used e)
    (keys : (x : ℕ) → (cell' x).key ≡ (cell x).key) (key_new : (cell e).key % size ≡ i) where
  alone-IsGroup : (p : Option ℕ) → p ≡ some e → IsGroup cell' size Used p (alone i e)
  unfolding members
  alone-IsGroup p h = record {
    chain = h;
    nodup = ((λ k. k), tt);
    keys = λ x k. elim k [
      | inl s ↦ ap (λ (y : ℕ). (cell' y).key % size) s ∙ ap (λ (y : ℕ). y % size) (keys e) ∙ key_new
      | inr no' ↦ absurd no'
    ];
    used = λ x k. elim k [ inl s ↦ subst Used (sym s) used | inr no' ↦ absurd no' ];
  }

  -- Into a hash without elements
  pub first-IsLinked :
      (head : Option ℕ)
      → (bucket' i).prev_bucket ≡ none
      → IsLinked cell' bucket' size Used (some e) (alone i e ∷ [])
  unfolding end newest
  first-IsLinked head before = (alone-IsGroup (some e) refl, at', before, tt)

  -- Behind the newest group
  pub next-IsLinked :
      (head : Option ℕ) (g : Group) (gs : List Group)
      → IsLinked cell bucket size Used head (g ∷ gs)
      → NoDup (indices (g ∷ gs))
      → ¬ Has i (indices (g ∷ gs))
      → ¬ Has e (elements (g ∷ gs))
      → (bucket' i).prev_bucket ≡ newest (g ∷ gs)
      → ((x : ℕ) → x ≢ g.last → x ≢ e → cell' x ≡ cell x)
      → (cell' g.last).tail ≡ some e
      → IsLinked cell' bucket' size Used head (alone i e ∷ g ∷ gs)
  unfolding end indices
  next-IsLinked head g gs v d n ne before same at =
      let older : (x : ℕ) → Has x (elements gs) → cell' x ≡ cell x = λ x h.
        same x
          (λ s. d.0 (
            subst (λ k. Has k (indices gs))
              (ap (λ (y : ℕ). (cell y).key % size) s ∙ v.0.keys g.last (Has-last g))
              (Has-elements cell bucket size Used head gs x v.3 h).1))
          (λ s. ne (Has-older g gs e (subst (λ y. Has y (elements gs)) s h))) in
      (
        alone-IsGroup (cell' g.last).tail at,
        at',
        before,
        (
          subst (λ p. IsGroup cell' size Used p g)
              (sym (end-frame cell cell' size Used Used head gs older))
              (IsGroup-frame cell cell' size Used Used (end cell head gs) g
                (λ x h.
                  ap (λ (y : Elem T). y.tail)
                    (same x
                      (λ s.
                        snoc_fresh g.front g.last (unfold members in v.0.nodup)
                          (subst (λ y. Has y g.front) s h))
                      (λ s.
                        ne
                          (Has-newer g gs e (subst (λ y. Has y (members g)) s (Has-front g x h))))))
                (λ x h. keys x) (λ x _ u. u) v.0),
          ap (λ (b : HashBucket). b.last_elem) (others g.index (λ s. n (inl (sym s)))) ∙ v.1,
          ap (λ (b : HashBucket). b.prev_bucket) (others g.index (λ s. n (inl (sym s)))) ∙ v.2,
          IsLinked-frame cell cell' size Used Used bucket bucket' head gs older (λ x _ u. u)
              (λ b k. others b (λ s. n (inr (subst (λ y. Has y (indices gs)) s k)))) v.3,
        ),
      )
