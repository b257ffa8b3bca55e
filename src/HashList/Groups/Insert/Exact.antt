-- ===== src/HashList/Groups/Insert/Exact.antt =====
-- src/include/dcd/hash-list-inl.h, Insert: what it does to the list and to the buckets.
use opendcd.Prelude.{
  ℕ, ◌%◌, ◌<◌, ◌≡◌, sym, ap, ◌∙◌, inl, inr, Option, none, some, Option-cases, List, Has,
}
use opendcd.HashList.{HashBucket, HashList, new_elem, bucket_of, insert_first, insert_last, insert}
use opendcd.HashList.Freed.{IsUsed}
use opendcd.Prelude.Distinct.{Has-dec}
use opendcd.HashList.Groups.{Group, indices, IsHash}
use opendcd.HashList.Groups.Frame.{Has-indices}
use opendcd.HashList.Groups.Insert.Prepared.{
  IsInserted, prepared, prepared-IsPrepared, bucket_of-some,
}
use opendcd.HashList.Groups.Insert.Behind.{inserted_last}
use opendcd.HashList.Groups.Insert.Alone.{inserted_first}

module _ {T : Type 0} where
  insert_eq :
      (k : ℕ) (v : T) (h : HashList T) (bucket : HashBucket) (l : Option ℕ)
      → bucket_of h k ≡ some bucket
      → bucket.last_elem ≡ l
      → insert k v h ≡ (
          let m = prepared h k v in
          let e = (new_elem h.memory).0 in
          elim l [
            | none ↦ insert_first (record h { memory = m }) m.cell (k % h.hash_size) e
            | some l ↦ some (insert_last (record h { memory = m }) m.cell (k % h.hash_size) l e)
          ])
  unfolding insert
  insert_eq k v h bucket l q r = rw q (
      ap
        (λ (p : Option ℕ). elim p as (λ _. Option (HashList T)) [
          | none ↦
              insert_first (record h { memory = prepared h k v }) (prepared h k v).cell
                (k % h.hash_size) (new_elem h.memory).0
          | some l ↦ some (
              insert_last (record h { memory = prepared h k v }) (prepared h k v).cell
                (k % h.hash_size) l (new_elem h.memory).0)
        ])
        r)

  -- Insert into a valid hash whose size is set succeeds and keeps the invariant: a new element with the key and
  -- the value stands in the list, behind all elements of its bucket, and the other elements stay in their
  -- order, with their keys and values.
  pub insert-IsInserted :
      (h : HashList T) (gs : List Group) (free : List ℕ) (k : ℕ) (v : T)
      → IsHash h gs free
      → 0 < h.hash_size
      → (h' : HashList T) × (insert k v h ≡ some h') × IsInserted h gs free k v h'
  insert-IsInserted h gs free k v w pos =
      let i = k % h.hash_size in
      let p = prepared-IsPrepared h gs free k v w pos in
      let m = prepared h k v in
      let e = (new_elem h.memory).0 in
      let at = bucket_of-some h k pos w.sized in
      elim (Option-cases (h.bucket i).last_elem) [
        | inl q ↦
            let out : ¬ Has i (indices gs) = λ k'.
              let (l, s, _, _) =
                Has-indices h.memory.cell h.bucket h.hash_size (IsUsed h.memory free) h.list_head gs
                  i w.linked k' in
              cc in
            let (h', r, done) = inserted_first h gs free k v w m e p out in
            (h', insert_eq k v h (h.bucket i) none at q ∙ r, done)
        | inr (l, q) ↦
            let inside : Has i (indices gs) = elim (Has-dec i (indices gs)) [
              | inl y ↦ y
              | inr n ↦ let s = sym q ∙ w.others i n in absurd (let z : ⊥ = cc in z)
            ] in
            (
              insert_last (record h { memory = m }) m.cell i l e,
              insert_eq k v h (h.bucket i) (some l) at q,
              inserted_last h gs free k v w m e l p q inside,
            )
      ]
