-- ===== src/HashList/Groups/Insert/Prepared.antt =====
-- src/include/dcd/hash-list-inl.h, Insert: the hash with the element that New returns.
use native.Mathlib.Nat.{mod-lt}
use opendcd.Prelude.{
  ℕ, ◌%◌, ◌<◌, ◌≤◌, ◌≡◌, ◌≢◌, refl, ap, subst, ◌∙◌, false, none, some, List, Has, update_same,
  update_other, ◌==◌, arith,
}
use opendcd.HashList.{Elem, Memory, HashList, set_entry, new_elem, bucket_at, bucket_of}
use opendcd.HashList.Freed.{IsFreed, IsUsed, new_elem-IsNew, IsFreed-frame}
use opendcd.HashList.Groups.{Group, elements, end, IsLinked, IsHash}
use opendcd.HashList.Groups.Frame.{end-frame, IsLinked-frame, Has-elements}
use opendcd.HashList.Groups.Insert.{IsPutIn}

module _ {T : Type 0} where
  -- What Insert of `k` and `v` makes of a hash with groups `gs`.
  pub record IsInserted (h : HashList T) (gs : List Group) (free : List ℕ) (k : ℕ) (v : T)
      (h' : HashList T) : Type 0 where
    pub new : ℕ
    pub groups : List Group
    pub left : List ℕ
    pub hash : IsHash h' groups left
    pub place :
        IsPutIn
          (λ x. (h.memory.cell x).key % h.hash_size ≡ k % h.hash_size)
          new
          (elements gs)
          (elements groups)
    pub unlisted : ¬ Has new (elements gs)
    pub key : (h'.memory.cell new).key ≡ k
    pub val : (h'.memory.cell new).val ≡ v
    pub entries :
        (x : ℕ)
        → Has x (elements gs)
        → ((h'.memory.cell x).key ≡ (h.memory.cell x).key)
          × ((h'.memory.cell x).val ≡ (h.memory.cell x).val)
    pub size : h'.hash_size ≡ h.hash_size
    pub owned :
        (x : ℕ)
        → IsUsed h.memory free x
        → ¬ Has x (elements gs)
        → IsUsed h'.memory left x × (x ≢ new) × (h'.memory.cell x ≡ h.memory.cell x)

  pub bucket_at-some :
      (h : HashList T) (b : ℕ) → b < h.num_buckets → bucket_at h b ≡ some (h.bucket b)
  unfolding bucket_at
  bucket_at-some h b l = ground arith

  pub bucket_of-some :
      (h : HashList T) (k : ℕ)
      → 0 < h.hash_size
      → h.hash_size ≤ h.num_buckets
      → bucket_of h k ≡ some (h.bucket (k % h.hash_size))
  unfolding bucket_of
  bucket_of-some h k pos le =
      let l = mod-lt k pos in
      let positive : (h.hash_size == 0) ≡ false = ground arith in
      rw positive (bucket_at-some h (k % h.hash_size) (omega arith))

  -- The element as New returns it, with its key and its value
  pub record IsPrepared (h : HashList T) (gs : List Group) (free : List ℕ) (k : ℕ) (v : T)
      (m : Memory T) (e : ℕ) : Type 0 where
    pub left : List ℕ
    pub freed : IsFreed m left
    pub used : IsUsed m left e
    pub linked : IsLinked m.cell h.bucket h.hash_size (IsUsed m left) h.list_head gs
    pub ends : end m.cell h.list_head gs ≡ none
    pub unlisted : ¬ Has e (elements gs)
    pub within : k % h.hash_size < h.num_buckets
    pub key : (m.cell e).key ≡ k
    pub val : (m.cell e).val ≡ v
    pub same : (x : ℕ) → Has x (elements gs) → m.cell x ≡ h.memory.cell x
    pub owned :
        (x : ℕ) → IsUsed h.memory free x → IsUsed m left x × (x ≢ e) × (m.cell x ≡ h.memory.cell x)

  abbrev pub prepared : HashList T → ℕ → T → Memory T
  prepared h k v = let (e, m) = new_elem h.memory in record m { cell = set_entry m.cell e k v }

  pub prepared-IsPrepared :
      (h : HashList T) (gs : List Group) (free : List ℕ) (k : ℕ) (v : T)
      → IsHash h gs free
      → 0 < h.hash_size
      → IsPrepared h gs free k v (prepared h k v) (new_elem h.memory).0
  unfolding set_entry
  prepared-IsPrepared h gs free k v w pos =
      let n = new_elem-IsNew h.memory free w.freed in
      let e = (new_elem h.memory).0 in
      let m = (new_elem h.memory).1 in
      let cell = (prepared h k v).cell in
      let other : (x : ℕ) → x ≢ e → cell x ≡ m.cell x = λ x ne. update_other m.cell e x _ ne in
      let at : cell e ≡ record (m.cell e) { key = k; val = v } = update_same m.cell e _ in
      let old = λ (x : ℕ) (i : Has x (elements gs)).
        n.other x
          (Has-elements h.memory.cell h.bucket h.hash_size (IsUsed h.memory free) h.list_head gs x
            w.linked i).0 in
      let same : (x : ℕ) → Has x (elements gs) → cell x ≡ h.memory.cell x =
        λ x i. let (u, ne, q) = old x i in other x ne ∙ q in
      record {
        left = n.left;
        freed =
            IsFreed-frame m cell n.left
              (λ x i.
                ap (λ (y : Elem T). y.tail)
                  (other x (λ q. n.used.1 (subst (λ y. Has y n.left) q i))))
              n.freed;
        used = n.used;
        linked =
            IsLinked-frame h.memory.cell cell h.hash_size (IsUsed h.memory free) (IsUsed m n.left)
              h.bucket h.bucket h.list_head gs same (λ x i _. (old x i).0) (λ b _. refl) w.linked;
        ends =
            end-frame h.memory.cell cell h.hash_size (IsUsed m n.left) (IsUsed m n.left) h.list_head
              gs same
            ∙ w.ends;
        unlisted = λ i. (old e i).1 refl;
        within = let l = mod-lt k pos in omega (arith, w.sized);
        key = ap (λ (y : Elem T). y.key) at;
        val = ap (λ (y : Elem T). y.val) at;
        same = same;
        owned = λ x u. let (u', ne, q) = n.other x u in (u', ne, other x ne ∙ q);
      }
