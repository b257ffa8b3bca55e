-- ===== src/HashList/Groups.antt =====
-- src/include/dcd/hash-list.h: the invariant of HashList. The elements of a bucket follow one another in
-- the list; the buckets that are not empty are chained in the order opposite to the list's.
pub mod Frame
pub mod Find
pub mod Insert
pub mod Clear
pub mod Delete
use opendcd.Prelude.{
  ℕ, ◌%◌, ◌<◌, ◌≤◌, ◌≡◌, ◌≢◌, refl, sym, ap, subst, Option, none, some, List, [], ◌∷◌, ◌++◌, Has,
  NoDup, append_assoc,
}
use opendcd.HashList.{Elem, HashBucket, HashList}
use opendcd.HashList.Chain.{IsChain, IsChain-append}
use opendcd.HashList.Freed.{IsFreed, IsUsed}

-- The elements of one bucket: the last one, and those in front of it.
pub record Group : Type 0 where
  pub index : ℕ
  pub front : List ℕ
  pub last : ℕ

unfoldable pub members : Group → List ℕ
members g = g.front ++ g.last ∷ []

-- The groups with the newest first, and the list that they make up.
unfoldable pub indices : List Group → List ℕ
indices [] = []
indices (g ∷ gs) = g.index ∷ indices gs

unfoldable pub elements : List Group → List ℕ
unfolding members
elements [] = []
elements (g ∷ gs) = elements gs ++ members g

unfoldable pub newest : List Group → Option ℕ
newest [] = none
newest (g ∷ gs) = some g.index

module _ {T : Type 0} where
  -- What stands behind the newest group.
  unfoldable pub end : (ℕ → Elem T) → Option ℕ → List Group → Option ℕ
  end cell head [] = head
  end cell head (g ∷ gs) = (cell g.last).tail

  -- A group whose elements start at `p`, of which `Used` says that they are in use.
  pub record IsGroup (cell : ℕ → Elem T) (size : ℕ) (Used : ℕ → Type 0) (p : Option ℕ) (g : Group)
      : Type 0 where
    pub chain : IsChain cell p g.front (some g.last)
    pub nodup : NoDup (members g)
    pub keys : (x : ℕ) → Has x (members g) → (cell x).key % size ≡ g.index
    pub used : (x : ℕ) → Has x (members g) → Used x

  -- The groups in their buckets
  abbrev pub IsLinked :
      (ℕ → Elem T) → (ℕ → HashBucket) → ℕ → (ℕ → Type 0) → Option ℕ → List Group → Type 0
  IsLinked cell bucket size Used head [] = Unit
  IsLinked cell bucket size Used head (g ∷ gs) =
      IsGroup cell size Used (end cell head gs) g
      × ((bucket g.index).last_elem ≡ some g.last)
      × ((bucket g.index).prev_bucket ≡ newest gs)
      × IsLinked cell bucket size Used head gs

  -- The groups `gs` of a hash, with the freed elements `free`
  pub record IsHash (h : HashList T) (gs : List Group) (free : List ℕ) : Type 0 where
    pub freed : IsFreed h.memory free
    pub linked : IsLinked h.memory.cell h.bucket h.hash_size (IsUsed h.memory free) h.list_head gs
    pub ends : end h.memory.cell h.list_head gs ≡ none
    pub tail : h.bucket_list_tail ≡ newest gs
    pub distinct : NoDup (indices gs)
    pub below : (b : ℕ) → Has b (indices gs) → b < h.num_buckets
    pub others : (b : ℕ) → ¬ Has b (indices gs) → (h.bucket b).last_elem ≡ none
    pub sized : h.hash_size ≤ h.num_buckets

  pub members-IsChain :
      (cell : ℕ → Elem T) (size : ℕ) (Used : ℕ → Type 0) (p : Option ℕ) (g : Group)
      → IsGroup cell size Used p g
      → IsChain cell p (members g) (cell g.last).tail
  unfolding members
  members-IsChain cell size Used p g v =
      IsChain-append cell p g.front (some g.last) (g.last ∷ []) (cell g.last).tail v.chain
        (refl, refl)

  -- GetList goes through all groups, the oldest first.
  pub elements-IsChain :
      (cell : ℕ → Elem T) (bucket : ℕ → HashBucket) (size : ℕ) (Used : ℕ → Type 0) (head : Option ℕ)
      (gs : List Group)
      → IsLinked cell bucket size Used head gs
      → IsChain cell head (elements gs) (end cell head gs)
  unfolding elements end
  elements-IsChain cell bucket size Used head [] v = refl
  elements-IsChain cell bucket size Used head (g ∷ gs) v =
      IsChain-append cell head (elements gs) (end cell head gs) (members g) (cell g.last).tail
        (elements-IsChain cell bucket size Used head gs v.3)
        (members-IsChain cell size Used (end cell head gs) g v.0)
