-- ===== src/HashList/More.antt =====
-- src/include/dcd/hash-list-inl.h, InsertMore: an element behind one with the same key.
use opendcd.Prelude.{ℕ, zero, suc, ◌+◌, ◌%◌, Option, none, some, ◌==◌, if◌then◌else◌}
use opendcd.Prelude.Partial.{◌>>=◌}
use opendcd.HashList.{
  Elem, Memory, HashList, same_pointer, set_tail, set_entry, new_elem, bucket_of, bucket_head,
  insert_last,
}

module _ {T : Type 0} where
  -- The loop of InsertMore, for fewer than `n` rounds: where it stops
  unfoldable pub find_place : ℕ → (ℕ → Elem T) → Option ℕ → Option ℕ → ℕ → Option (Option ℕ)
  unfolding same_pointer
  find_place zero cell e tail k = none
  find_place (suc n) cell none tail k = if same_pointer none tail then some none else none
  find_place (suc n) cell (some a) tail k =
      let rest = find_place n cell (cell a).tail tail k in
      if same_pointer (some a) tail
      then some (some a)
      else if (cell a).key == k
      then some (some a)
      else rest

  -- InsertMore behind the element at which the loop stops
  unfoldable pub insert_behind : HashList T → (ℕ → Elem T) → ℕ → ℕ → ℕ → Option (HashList T)
  unfolding set_tail
  insert_behind h cell k p e =
      if (cell p).key == k
      then some record h {
        memory = record h.memory { cell = set_tail (set_tail cell e (cell p).tail) p (some e) };
      }
      else none

  -- InsertMore
  unfoldable pub insert_more : ℕ → T → HashList T → Option (HashList T)
  unfolding set_entry find_place insert_behind
  insert_more k v h = bucket_of h k >>= λ bucket.
      let (e, m) = new_elem h.memory in
      let m' : Memory T = record m { cell = set_entry m.cell e k v } in
      let h' : HashList T = record h { memory = m' } in
      bucket.last_elem >>= λ l.
      if (m'.cell l).key == k
      then some (insert_last h' m'.cell (k % h.hash_size) l e)
      else bucket_head h' bucket >>= λ head.
          find_place (m'.fresh + 1) m'.cell head (m'.cell l).tail k >>= λ stop.
          stop >>= λ p. insert_behind h' m'.cell k p e
