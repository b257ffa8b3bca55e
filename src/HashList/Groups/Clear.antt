-- ===== src/HashList/Groups/Clear.antt =====
-- src/include/dcd/hash-list-inl.h, Clear and SetSize: the hash without its elements.
use opendcd.Prelude.{
  ℕ, zero, suc, ◌+◌, ◌<◌, ◌≡◌, ◌≢◌, refl, ap, subst, ◌∙◌, inl, inr, true, Bool-cases, Option, none,
  some, List, [], ◌∷◌, Has, NoDup, length, update, update_same, update_other, ltb, if◌then◌else◌,
  arith,
}
use opendcd.HashList.{
  Elem, HashBucket, Memory, HashList, clear_buckets, clear_hash, set_size, same_pointer, empty_hash,
}
use opendcd.Prelude.Distinct.{length-le_distinct}
use opendcd.HashList.Chain.{IsChain}
use opendcd.HashList.Freed.{IsUsed}
use opendcd.Prelude.Distinct.{Has-dec}
use opendcd.HashList.Groups.{
  Group, indices, elements, newest, end, IsLinked, IsHash, elements-IsChain,
}
use opendcd.HashList.Groups.Frame.{Has-elements}

-- The buckets of the groups are chained.
abbrev IsBuckets : (ℕ → HashBucket) → List Group → Type 0
IsBuckets bucket [] = Unit
IsBuckets bucket (g ∷ gs) = ((bucket g.index).prev_bucket ≡ newest gs) × IsBuckets bucket gs

IsBuckets-frame :
    (bucket bucket' : ℕ → HashBucket) (gs : List Group)
    → ((b : ℕ) → Has b (indices gs) → bucket' b ≡ bucket b)
    → IsBuckets bucket gs
    → IsBuckets bucket' gs
unfolding indices
IsBuckets-frame bucket bucket' [] same v = tt
IsBuckets-frame bucket bucket' (g ∷ gs) same v = (
  ap (λ (b : HashBucket). b.prev_bucket) (same g.index (inl refl)) ∙ v.0,
  IsBuckets-frame bucket bucket' gs (λ b m. same b (inr m)) v.1,
)

-- The loop empties the buckets of the groups and no other.
record IsCleared (gs : List Group) (bucket bucket' : ℕ → HashBucket) : Type 0 where
  pub emptied : (b : ℕ) → Has b (indices gs) → (bucket' b).last_elem ≡ none
  pub kept : (b : ℕ) → ¬ Has b (indices gs) → bucket' b ≡ bucket b

clear_buckets-IsCleared :
    (n size : ℕ) (gs : List Group) (cur : Option ℕ) (bucket : ℕ → HashBucket)
    → length (indices gs) < n
    → cur ≡ newest gs
    → NoDup (indices gs)
    → ((b : ℕ) → Has b (indices gs) → b < size)
    → IsBuckets bucket gs
    → (bucket' : ℕ → HashBucket) × (clear_buckets n size cur bucket ≡ some bucket')
      × IsCleared gs bucket bucket'
unfolding clear_buckets indices newest
clear_buckets-IsCleared zero size gs cur bucket l e d below v = absurd (omega arith)
clear_buckets-IsCleared (suc n) size [] cur bucket l e d below v =
    (bucket, rw e refl, record { emptied = λ b m. elim m [ ]; kept = λ b m. refl })
clear_buckets-IsCleared (suc n) size (g ∷ gs) cur bucket l e d below v =
    let empty : HashBucket = record (bucket g.index) { last_elem = none } in
    let bucket1 = update bucket g.index empty in
    let other : (b : ℕ) → b ≢ g.index → bucket1 b ≡ bucket b =
      λ b m. update_other bucket g.index b empty m in
    let (bucket', r, c) =
      clear_buckets-IsCleared n size gs (bucket g.index).prev_bucket bucket1 (omega arith) v.0 d.1
        (λ b m. below b (inr m))
        (IsBuckets-frame bucket bucket1 gs
          (λ b m. other b (λ s. d.0 (subst (λ y. Has y (indices gs)) s m))) v.1) in
    let inside : ltb g.index size ≡ true = (let k = below g.index (inl refl) in ground arith) in
    (
      bucket',
      rw (e, inside) r,
      record {
        emptied = λ b m. elim m [
          | inl s ↦
              ap (λ (y : ℕ). (bucket' y).last_elem) s
              ∙ ap (λ (y : HashBucket). y.last_elem) (c.kept g.index d.0)
              ∙ ap (λ (y : HashBucket). y.last_elem) (update_same bucket g.index empty)
          | inr m' ↦ c.emptied b m'
        ];
        kept = λ b m. c.kept b (λ m'. m (inr m')) ∙ other b (λ s. m (inl s));
      },
    )

last_of_empty :
    (gs : List Group) (bucket bucket' : ℕ → HashBucket)
    → ((b : ℕ) → ¬ Has b (indices gs) → (bucket b).last_elem ≡ none)
    → IsCleared gs bucket bucket'
    → (b : ℕ) → (bucket' b).last_elem ≡ none
last_of_empty gs bucket bucket' others c b = elim (Has-dec b (indices gs)) [
  | inl m ↦ c.emptied b m
  | inr n ↦ ap (λ (y : HashBucket). y.last_elem) (c.kept b n) ∙ others b n
]

module _ {T : Type 0} where
  linked-IsBuckets :
      (cell : ℕ → Elem T) (bucket : ℕ → HashBucket) (size : ℕ) (Used : ℕ → Type 0) (head : Option ℕ)
      (gs : List Group)
      → IsLinked cell bucket size Used head gs
      → IsBuckets bucket gs
  linked-IsBuckets cell bucket size Used head [] v = tt
  linked-IsBuckets cell bucket size Used head (g ∷ gs) v =
      (v.2, linked-IsBuckets cell bucket size Used head gs v.3)

  -- Clear of a valid hash ends, hands over the head of the list, from which the elements follow one another in order to
  -- a null pointer, and leaves a hash without elements; the memory stays, with the elements in use.
  pub clear-IsHash :
      (h : HashList T) (gs : List Group) (free : List ℕ)
      → IsHash h gs free
      → (h' : HashList T) × (clear_hash h ≡ some (h.list_head, h'))
        × IsHash h' [] free
        × (h'.memory ≡ h.memory)
        × (h'.hash_size ≡ h.hash_size)
        × IsChain h.memory.cell h.list_head (elements gs) none
        × ((x : ℕ) → Has x (elements gs) → IsUsed h.memory free x)
  unfolding clear_hash
  clear-IsHash h gs free w =
      let cell = h.memory.cell in
      let Used = IsUsed h.memory free in
      let enough = length-le_distinct h.num_buckets (indices gs) w.distinct w.below in
      let (bucket', r, c) =
        clear_buckets-IsCleared (h.num_buckets + 1) h.num_buckets gs h.bucket_list_tail h.bucket
          (omega arith) w.tail w.distinct w.below
          (linked-IsBuckets cell h.bucket h.hash_size Used h.list_head gs w.linked) in
      (
        record h { list_head = none; bucket_list_tail = none; bucket = bucket' },
        rw r refl,
        unfold end newest indices in
            record {
              freed = w.freed;
              linked = tt;
              ends = refl;
              tail = refl;
              distinct = tt;
              below = λ b m. elim m [ ];
              others = λ b _. last_of_empty gs h.bucket bucket' w.others c b;
              sized = w.sized;
            },
        refl,
        refl,
        subst (IsChain cell h.list_head (elements gs)) w.ends
            (elements-IsChain cell h.bucket h.hash_size Used h.list_head gs w.linked),
        λ x m. (Has-elements cell h.bucket h.hash_size Used h.list_head gs x w.linked m).0,
      )

  -- SetSize of a hash without elements passes its check, and leaves one of that size.
  pub set_size-IsHash :
      (n : ℕ) (h : HashList T) (free : List ℕ)
      → IsHash h [] free
      → (h' : HashList T) × (set_size n h ≡ some h')
        × IsHash h' [] free
        × (h'.hash_size ≡ n)
        × (h'.memory ≡ h.memory)
  unfolding set_size same_pointer end newest indices
  set_size-IsHash n h free w =
      let h' : HashList T = record h {
        hash_size = n;
        num_buckets = if ltb h.num_buckets n then n else h.num_buckets;
        bucket = λ b.
            if ltb b h.num_buckets
            then h.bucket b
            else record { prev_bucket = some 0; last_elem = none };
      } in
      (
        h',
        rw (w.ends, w.tail) refl,
        record {
          freed = w.freed;
          linked = tt;
          ends = w.ends;
          tail = w.tail;
          distinct = tt;
          below = λ b m. elim m [ ];
          others = λ b m. elim (Bool-cases (ltb b h.num_buckets)) [
            | inl q ↦ rw q (w.others b m)
            | inr q ↦ rw q refl
          ];
          sized = ground arith;
        },
        refl,
        refl,
      )

  pub empty_hash-IsHash : (m : Memory T) → IsHash (empty_hash m) [] []
  unfolding empty_hash end newest indices
  empty_hash-IsHash m = record {
    freed = record { chain = refl; nodup = tt; below = λ a k. elim k [ ] };
    linked = tt;
    ends = refl;
    tail = refl;
    distinct = tt;
    below = λ b k. elim k [ ];
    others = λ b k. refl;
    sized = omega arith;
  }
