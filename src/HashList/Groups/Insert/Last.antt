-- ===== src/HashList/Groups/Insert/Last.antt =====
-- src/include/dcd/hash-list-inl.h, Insert: behind the last element of a bucket.
use opendcd.Prelude.{
  ℕ, ◌%◌, ◌≡◌, ◌≢◌, refl, sym, ap, subst, ◌∙◌, inl, inr, Bool-cases, Option, some, List, [], ◌∷◌,
  Has, NoDup, Has-append, ◌==◌, ==_iff, arith,
}
use opendcd.HashList.{Elem, HashBucket}
use opendcd.HashList.Chain.{IsChain-frame, IsChain-append}
use opendcd.HashList.Freed.{some_eq}
use opendcd.HashList.Groups.{Group, members, indices, elements, end, IsGroup, IsLinked}
use opendcd.HashList.Groups.Frame.{
  Has-front, Has-last, Has-newer, Has-older, snoc_fresh, NoDup-snoc, IsGroup-frame, end-frame,
  IsLinked-frame, Has-elements,
}
use opendcd.HashList.Groups.Insert.{append_to_group, newest-append_to_group}

-- `e` is linked in behind `l`, the last element of the bucket `i`.
pub record IsLinkedIn {T : Type 0} (cell cell' : ℕ → Elem T) (l e : ℕ) : Type 0 where
  pub same : (x : ℕ) → x ≢ l → x ≢ e → cell' x ≡ cell x
  pub keys : (x : ℕ) → (cell' x).key ≡ (cell x).key
  pub at_last : (cell' l).tail ≡ some e
  pub at_new : (cell' e).tail ≡ (cell l).tail

module _ {T : Type 0} (cell cell' : ℕ → Elem T) (bucket bucket' : ℕ → HashBucket) (size : ℕ)
    (Used : ℕ → Type 0) (i l e : ℕ) (linked : IsLinkedIn cell cell' l e)
    (at : (bucket i).last_elem ≡ some l) (at' : (bucket' i).last_elem ≡ some e)
    (before : (bucket' i).prev_bucket ≡ (bucket i).prev_bucket)
    (others : (b : ℕ) → b ≢ i → bucket' b ≡ bucket b) (used : Used e)
    (key_last : (cell l).key % size ≡ i) (key_new : (cell e).key % size ≡ i) where
  -- The group itself
  group-append :
      (p : Option ℕ) (g : Group)
      → g.index ≡ i
      → g.last ≡ l
      → ¬ Has e (members g)
      → IsGroup cell size Used p g
      → IsGroup cell' size Used p record { index = g.index; front = members g; last = e }
  unfolding members
  group-append p g q r n v = record {
    chain =
        IsChain-append cell' p g.front (some g.last) (g.last ∷ []) (some e)
          (IsChain-frame cell cell' p g.front (some g.last)
            (λ x h.
              ap (λ (y : Elem T). y.tail)
                (linked.same x
                  (λ s.
                    snoc_fresh g.front g.last v.nodup (subst (λ y. Has y g.front) (s ∙ sym r) h))
                  (λ s. n (subst (λ y. Has y (members g)) s (Has-front g x h)))))
            v.chain)
          (refl, ap (λ (y : ℕ). (cell' y).tail) r ∙ linked.at_last);
    nodup = NoDup-snoc (members g) e v.nodup n;
    keys = λ x h. elim ((Has-append x (members g) (e ∷ [])).0 h) [
      | inl k ↦ ap (λ (y : ℕ). y % size) (linked.keys x) ∙ v.keys x k
      | inr k ↦ elim k [
        | inl s ↦
            ap (λ (y : ℕ). (cell' y).key % size) s
            ∙ ap (λ (y : ℕ). y % size) (linked.keys e)
            ∙ key_new
            ∙ sym q
        | inr no' ↦ absurd no'
      ]
    ];
    used = λ x h. elim ((Has-append x (members g) (e ∷ [])).0 h) [
      | inl k ↦ v.used x k
      | inr k ↦ elim k [ inl s ↦ subst Used (sym s) used | inr no' ↦ absurd no' ]
    ];
  }

  -- No element of another bucket changes.
  other_elements :
      (head : Option ℕ) (gs : List Group)
      → IsLinked cell bucket size Used head gs
      → ¬ Has i (indices gs)
      → ¬ Has e (elements gs)
      → (x : ℕ) → Has x (elements gs)
      → cell' x ≡ cell x
  other_elements head gs v n ne x h =
      linked.same x
        (λ s. n (
          subst (λ k. Has k (indices gs)) (ap (λ (y : ℕ). (cell y).key % size) s ∙ key_last)
            (Has-elements cell bucket size Used head gs x v h).1))
        (λ s. ne (subst (λ y. Has y (elements gs)) s h))

  pub append_to_group-IsLinked :
      (head : Option ℕ) (gs : List Group)
      → IsLinked cell bucket size Used head gs
      → NoDup (indices gs)
      → Has i (indices gs)
      → ¬ Has e (elements gs)
      → IsLinked cell' bucket' size Used head (append_to_group i e gs)
        × (end cell' head (append_to_group i e gs) ≡ end cell head gs)
  unfolding append_to_group indices end
  append_to_group-IsLinked head [] v d h n = elim h [ ]
  append_to_group-IsLinked head (g ∷ gs) v d h n =
      let n_older : ¬ Has e (elements gs) = λ k. n (Has-older g gs e k) in
      let n_newer : ¬ Has e (members g) = λ k. n (Has-newer g gs e k) in
      elim (Bool-cases (g.index == i)) [
        | inl eq ↦
            let q : g.index ≡ i = (==_iff g.index i).0 eq in
            let r : g.last ≡ l =
              some_eq g.last l (sym v.1 ∙ ap (λ (b : ℕ). (bucket b).last_elem) q ∙ at) in
            let out : ¬ Has i (indices gs) = λ k. d.0 (subst (λ b. Has b (indices gs)) (sym q) k) in
            let same = other_elements head gs v.3 out n_older in
            rw eq (
              (
                subst
                    (λ p.
                      IsGroup cell' size Used p
                        record { index = g.index; front = members g; last = e })
                    (sym (end-frame cell cell' size Used Used head gs same))
                    (group-append (end cell head gs) g q r n_newer v.0),
                ap (λ (b : ℕ). (bucket' b).last_elem) q ∙ at',
                ap (λ (b : ℕ). (bucket' b).prev_bucket) q
                    ∙ before
                    ∙ ap (λ (b : ℕ). (bucket b).prev_bucket) (sym q)
                    ∙ v.2,
                IsLinked-frame cell cell' size Used Used bucket bucket' head gs same (λ x _ u. u)
                    (λ b k. others b (λ s. out (subst (λ y. Has y (indices gs)) s k))) v.3,
              ),
              linked.at_new ∙ ap (λ (y : ℕ). (cell y).tail) (sym r),
            )
        | inr off ↦
            let ne : g.index ≢ i = λ q. ground (arith, ==_iff g.index i) in
            let inside : Has i (indices gs) = elim h [ inl q ↦ absurd (ne (sym q)) | inr k ↦ k ] in
            let (rest, ends) = append_to_group-IsLinked head gs v.3 d.1 inside n_older in
            let same : (x : ℕ) → Has x (members g) → cell' x ≡ cell x = λ x k.
              linked.same x
                (λ s. ne (sym (v.0.keys x k) ∙ ap (λ (y : ℕ). (cell y).key % size) s ∙ key_last))
                (λ s. n_newer (subst (λ y. Has y (members g)) s k)) in
            rw off (
              (
                subst (λ p. IsGroup cell' size Used p g) (sym ends)
                    (IsGroup-frame cell cell' size Used Used (end cell head gs) g
                      (λ x k. ap (λ (y : Elem T). y.tail) (same x (Has-front g x k)))
                      (λ x k. ap (λ (y : Elem T). y.key) (same x k)) (λ x _ u. u) v.0),
                ap (λ (b : HashBucket). b.last_elem) (others g.index ne) ∙ v.1,
                ap (λ (b : HashBucket). b.prev_bucket) (others g.index ne)
                    ∙ v.2
                    ∙ sym (newest-append_to_group i e gs),
                rest,
              ),
              ap (λ (y : Elem T). y.tail) (same g.last (Has-last g)),
            )
      ]
