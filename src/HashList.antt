-- ===== src/HashList.antt =====
-- src/include/dcd/hash-list.h and hash-list-inl.h: the class HashList. An Elem* is an address, `none` the
-- null pointer; a size_t that is -1 is `none` too. A key is the size_t that it is cast to. A result
-- `none` is a null pointer that is followed, an index out of bounds, a division by zero, a failed
-- assertion or a loop that does not end.
pub mod Chain
pub mod Freed
pub mod Groups
pub mod More
use opendcd.Prelude.{
  ℕ, zero, suc, ◌+◌, ◌%◌, Bool, true, false, Option, none, some, List, [], ◌∷◌, ◌++◌, update, ltb,
  ◌==◌, if◌then◌else◌,
}
use opendcd.Prelude.Partial.{◌>>=◌}

pub record Elem (T : Type 0) : Type 0 where
  pub key : ℕ
  pub val : T
  pub tail : Option ℕ

pub record HashBucket : Type 0 where
  pub prev_bucket : Option ℕ
  pub last_elem : Option ℕ

-- The memory of the elements: freed_head_, allocated_, and the address that the next block gets.
pub record Memory (T : Type 0) : Type 0 where
  pub cell : ℕ → Elem T
  pub freed_head : Option ℕ
  pub allocated : List ℕ
  pub fresh : ℕ

-- `bucket` holds the first `num_buckets` items of buckets_.
pub record HashList (T : Type 0) : Type 0 where
  pub list_head : Option ℕ
  pub bucket_list_tail : Option ℕ
  pub hash_size : ℕ
  pub num_buckets : ℕ
  pub bucket : ℕ → HashBucket
  pub memory : Memory T

unfoldable pub same_pointer : Option ℕ → Option ℕ → Bool
same_pointer none none = true
same_pointer none (some b) = false
same_pointer (some a) none = false
same_pointer (some a) (some b) = a == b

-- allocate_block_size_
abbrev pub allocate_block_size : ℕ
allocate_block_size = 1024

-- The loop of Clear, for fewer than `n` rounds
unfoldable pub clear_buckets : ℕ → ℕ → Option ℕ → (ℕ → HashBucket) → Option (ℕ → HashBucket)
clear_buckets zero size cur bucket = none
clear_buckets (suc n) size none bucket = some bucket
clear_buckets (suc n) size (some b) bucket =
    let rest =
      clear_buckets n size (bucket b).prev_bucket
        (update bucket b (record (bucket b) { last_elem = none })) in
    if ltb b size then rest else none

module _ {T : Type 0} where
  -- e->tail = p
  unfoldable pub set_tail : (ℕ → Elem T) → ℕ → Option ℕ → ℕ → Elem T
  set_tail cell e p = update cell e (record (cell e) { tail = p })

  -- e->key = key; e->val = val
  unfoldable pub set_entry : (ℕ → Elem T) → ℕ → ℕ → T → ℕ → Elem T
  set_entry cell e k v = update cell e (record (cell e) { key = k; val = v })

  -- HashList of an empty memory
  unfoldable pub empty_hash : Memory T → HashList T
  empty_hash m = record {
    list_head = none;
    bucket_list_tail = none;
    hash_size = 0;
    num_buckets = 0;
    bucket = λ b. record { prev_bucket = some 0; last_elem = none };
    memory = record m { freed_head = none };
  }

  -- SetSize
  unfoldable pub set_size : ℕ → HashList T → Option (HashList T)
  unfolding same_pointer
  set_size size h =
      if same_pointer h.list_head none
      then (if same_pointer h.bucket_list_tail none
          then some record h {
            hash_size = size;
            num_buckets = if ltb h.num_buckets size then size else h.num_buckets;
            bucket = λ b.
                if ltb b h.num_buckets
                then h.bucket b
                else record { prev_bucket = some 0; last_elem = none };
          }
          else none)
      else none

  -- Delete
  unfoldable pub delete : ℕ → Memory T → Memory T
  unfolding set_tail
  delete e m = record m { cell = set_tail m.cell e m.freed_head; freed_head = some e }

  -- The loop of New that links a block, with `rest` elements behind the one at `p`.
  unfoldable pub link_block : ℕ → ℕ → (ℕ → Elem T) → ℕ → Elem T
  unfolding set_tail
  link_block zero p cell = set_tail cell p none
  link_block (suc rest) p cell = link_block rest (p + 1) (set_tail cell p (some (p + 1)))

  -- New without a freed element, up to the call of itself
  unfoldable pub allocate : Memory T → Memory T
  allocate m = record {
    cell = link_block 1023 m.fresh m.cell;
    freed_head = some m.fresh;
    allocated = m.allocated ++ m.fresh ∷ [];
    fresh = m.fresh + allocate_block_size;
  }

  unfoldable pub take_freed : ℕ → Memory T → ℕ × Memory T
  take_freed a m = (a, record m { freed_head = (m.cell a).tail })

  -- New
  unfoldable pub new_elem : Memory T → ℕ × Memory T
  new_elem m = elim m.freed_head [
    | none ↦ take_freed m.fresh (allocate m)
    | some a ↦ take_freed a m
  ]

  -- buckets_[b]
  unfoldable pub bucket_at : HashList T → ℕ → Option HashBucket
  bucket_at h b = if ltb b h.num_buckets then some (h.bucket b) else none

  -- The bucket of a key
  unfoldable pub bucket_of : HashList T → ℕ → Option HashBucket
  unfolding bucket_at
  bucket_of h k = if h.hash_size == 0 then none else bucket_at h (k % h.hash_size)

  -- The first element of a bucket that is not empty
  unfoldable pub bucket_head : HashList T → HashBucket → Option (Option ℕ)
  unfolding bucket_at
  bucket_head h bucket = elim bucket.prev_bucket [
    | none ↦ some h.list_head
    | some p ↦ bucket_at h p >>= λ before. before.last_elem >>= λ a. some (h.memory.cell a).tail
  ]

  -- The loop of Find, for fewer than `n` rounds
  unfoldable pub find_loop : ℕ → (ℕ → Elem T) → Option ℕ → Option ℕ → ℕ → Option (Option ℕ)
  unfolding same_pointer
  find_loop zero cell e tail k = none
  find_loop (suc n) cell none tail k = if same_pointer none tail then some none else none
  find_loop (suc n) cell (some a) tail k =
      let rest = find_loop n cell (cell a).tail tail k in
      if same_pointer (some a) tail
      then some none
      else if (cell a).key == k
      then some (some a)
      else rest

  -- Find
  unfoldable pub find : ℕ → HashList T → Option (Option ℕ)
  unfolding bucket_of bucket_head find_loop
  find k h = bucket_of h k >>= λ bucket. elim bucket.last_elem [
    | none ↦ some none
    | some l ↦ bucket_head h bucket >>= λ head.
        find_loop (h.memory.fresh + 1) h.memory.cell head (h.memory.cell l).tail k
  ]

  -- Insert into a bucket that is empty: the elements with `e` linked in, and the head of the list
  unfoldable pub link_last : HashList T → (ℕ → Elem T) → ℕ → Option (Option ℕ × (ℕ → Elem T))
  unfolding same_pointer bucket_at set_tail
  link_last h cell e = elim h.bucket_list_tail [
    | none ↦ if same_pointer h.list_head none then some (some e, cell) else none
    | some t ↦ bucket_at h t >>= λ before.
        before.last_elem >>= λ l. some (h.list_head, set_tail cell l (some e))
  ]

  -- Insert into an empty bucket, behind the call of New
  unfoldable pub insert_first : HashList T → (ℕ → Elem T) → ℕ → ℕ → Option (HashList T)
  unfolding link_last
  insert_first h cell i e = link_last h cell e >>= λ (head, cell'). some record h {
    list_head = head;
    bucket_list_tail = some i;
    bucket = update h.bucket i (record { prev_bucket = h.bucket_list_tail; last_elem = some e });
    memory = record h.memory { cell = set_tail cell' e none };
  }

  -- Insert into a bucket with last element `l`, behind the call of New
  unfoldable pub insert_last : HashList T → (ℕ → Elem T) → ℕ → ℕ → ℕ → HashList T
  unfolding set_tail
  insert_last h cell i l e = record h {
    bucket = update h.bucket i (record (h.bucket i) { last_elem = some e });
    memory = record h.memory { cell = set_tail (set_tail cell e (cell l).tail) l (some e) };
  }

  -- Insert
  unfoldable pub insert : ℕ → T → HashList T → Option (HashList T)
  unfolding set_entry
  insert k v h = bucket_of h k >>= λ bucket.
      let i = k % h.hash_size in
      let (e, m) = new_elem h.memory in
      let m' : Memory T = record m { cell = set_entry m.cell e k v } in
      let h' : HashList T = record h { memory = m' } in
      elim bucket.last_elem [
        | none ↦ insert_first h' m'.cell i e
        | some l ↦ some (insert_last h' m'.cell i l e)
      ]

  -- Clear: the head of the list, and the hash without it
  unfoldable pub clear_hash : HashList T → Option (Option ℕ × HashList T)
  unfolding clear_buckets
  clear_hash h =
      clear_buckets (h.num_buckets + 1) h.num_buckets h.bucket_list_tail h.bucket >>= λ bucket.
      some (h.list_head, record h { list_head = none; bucket_list_tail = none; bucket = bucket })
