-- ===== src/HashList/Groups/Insert/More.antt =====
-- src/include/dcd/hash-list-inl.h, InsertMore of the key that the last element of its bucket has.
use opendcd.Prelude.{
  ℕ, ◌%◌, ◌<◌, ◌≡◌, refl, sym, ap, subst, ◌∙◌, inl, inr, some, List, Has, true, ◌==◌, ==_iff,
}
use opendcd.Prelude.Distinct.{Has-dec}
use opendcd.HashList.{Elem, HashList, insert}
use opendcd.HashList.More.{insert_more}
use opendcd.HashList.Freed.{IsUsed, some_eq}
use opendcd.HashList.Groups.{Group, indices, elements, IsHash}
use opendcd.HashList.Groups.Frame.{Has-indices}
use opendcd.HashList.Groups.Insert.Prepared.{prepared, prepared-IsPrepared, bucket_of-some}

module _ {T : Type 0} where
  last_listed :
      (h : HashList T) (gs : List Group) (free : List ℕ) (i l : ℕ)
      → IsHash h gs free
      → (h.bucket i).last_elem ≡ some l
      → Has l (elements gs)
  last_listed h gs free i l w at = elim (Has-dec i (indices gs)) [
    | inl y ↦
        let (l', at', _, has) =
          Has-indices h.memory.cell h.bucket h.hash_size (IsUsed h.memory free) h.list_head gs i
            w.linked y in
        subst (λ x. Has x (elements gs)) (some_eq l' l (sym at' ∙ at)) has
    | inr n ↦ let s = sym at ∙ w.others i n in absurd (let z : ⊥ = cc in z)
  ]

  -- InsertMore is Insert if the last element of the key's bucket has the key.
  pub insert_more-insert :
      (h : HashList T) (gs : List Group) (free : List ℕ) (k : ℕ) (v : T) (l : ℕ)
      → IsHash h gs free
      → 0 < h.hash_size
      → (h.bucket (k % h.hash_size)).last_elem ≡ some l
      → (h.memory.cell l).key ≡ k
      → insert_more k v h ≡ insert k v h
  unfolding insert_more insert
  insert_more-insert h gs free k v l w pos at same =
      let p = prepared-IsPrepared h gs free k v w pos in
      let has = last_listed h gs free (k % h.hash_size) l w at in
      let key : ((prepared h k v).cell l).key ≡ k =
        ap (λ (y : Elem T). y.key) (p.same l has) ∙ same in
      let test : (((prepared h k v).cell l).key == k) ≡ true = (==_iff _ k).1 key in
      rw (bucket_of-some h k pos w.sized, at, test) refl
