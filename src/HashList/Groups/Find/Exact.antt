-- ===== src/HashList/Groups/Find/Exact.antt =====
-- src/include/dcd/hash-list-inl.h, Find: what it returns, and after Insert.
use opendcd.Prelude.{
  ℕ, ◌+◌, ◌%◌, ◌<◌, ◌≡◌, ◌≢◌, refl, sym, ap, subst, ◌∙◌, inl, inr, true, false, Bool-cases, none,
  some, Option-cases, List, [], ◌∷◌, ◌++◌, Has, ◌==◌, ==_iff, if◌then◌else◌, arith,
}
use opendcd.Prelude.Partial.{◌>>=◌}
use opendcd.HashList.{Elem, HashBucket, HashList, bucket_head, find, insert}
use opendcd.Prelude.Distinct.{length-le_distinct}
use opendcd.HashList.Freed.{IsUsed}
use opendcd.Prelude.Distinct.{Has-dec}
use opendcd.HashList.Groups.{
  Group, members, indices, elements, newest, end, IsLinked, IsHash, members-IsChain,
}
use opendcd.HashList.Groups.Frame.{Has-elements}
use opendcd.HashList.Groups.Find.{first_key, first_key-none, find_loop-IsChain, located}
use opendcd.HashList.Groups.Insert.Prepared.{bucket_at-some, bucket_of-some}
use opendcd.HashList.Groups.Insert.Exact.{insert-IsInserted}

module _ {T : Type 0} where
  -- Where the search starts.
  bucket_head-end :
      (h : HashList T) (bucket : HashBucket) (size : ℕ) (Used : ℕ → Type 0) (older : List Group)
      → IsLinked h.memory.cell h.bucket size Used h.list_head older
      → bucket.prev_bucket ≡ newest older
      → ((b : ℕ) → Has b (indices older) → b < h.num_buckets)
      → bucket_head h bucket ≡ some (end h.memory.cell h.list_head older)
  unfolding bucket_head newest end indices
  bucket_head-end h bucket size Used [] v e l = rw e refl
  bucket_head-end h bucket size Used (g ∷ gs) v e l =
      rw (e, bucket_at-some h g.index (l g.index (inl refl)), v.1) refl

  -- Find in a valid hash whose size is set ends, and returns the first element of the list with the key, or the
  -- null pointer if there is none.
  pub find-first :
      (h : HashList T) (gs : List Group) (free : List ℕ) (k : ℕ)
      → IsHash h gs free
      → 0 < h.hash_size
      → find k h ≡ some (first_key h.memory.cell k (elements gs))
  unfolding find
  find-first h gs free k w pos =
      let i = k % h.hash_size in
      let cell = h.memory.cell in
      let Used = IsUsed h.memory free in
      elim (Has-dec i (indices gs)) [
        | inr out ↦
            rw (bucket_of-some h k pos w.sized, w.others i out)
              (ap some (
                sym (
                  first_key-none cell k (elements gs) (λ x m r. out (
                    subst (λ b. Has b (indices gs)) (ap (λ (z : ℕ). z % h.hash_size) r)
                      (Has-elements cell h.bucket h.hash_size Used h.list_head gs x w.linked
                        m).1)))))
        | inl inside ↦
            let at =
              located cell h.bucket h.hash_size Used h.list_head k gs w.linked w.distinct inside
                (λ x m e. let z = e ∙ w.ends in cc) in
            let g = at.group in
            let last : (h.bucket i).last_elem ≡ some g.last =
              ap (λ (b : ℕ). (h.bucket b).last_elem) (sym at.index) ∙ at.linked.1 in
            let prev : (h.bucket i).prev_bucket ≡ newest at.older =
              ap (λ (b : ℕ). (h.bucket b).prev_bucket) (sym at.index) ∙ at.linked.2 in
            let head =
              bucket_head-end h (h.bucket i) h.hash_size Used at.older at.linked.3 prev
                (λ b m. w.below b (at.inside b m)) in
            let enough =
              length-le_distinct h.memory.fresh (members g) at.linked.0.nodup
                (λ x m. (at.linked.0.used x m).0) in
            rw (bucket_of-some h k pos w.sized, last, head)
              (find_loop-IsChain (h.memory.fresh + 1) cell (end cell h.list_head at.older)
                  (members g) (cell g.last).tail k
                  (members-IsChain cell h.hash_size Used (end cell h.list_head at.older) g
                    at.linked.0)
                  at.stops (omega arith)
                ∙ ap some (sym at.first))
      ]

  first_key-same :
      (cell cell' : ℕ → Elem T) (k : ℕ) (xs : List ℕ)
      → ((x : ℕ) → Has x xs → (cell' x).key ≡ (cell x).key)
      → first_key cell' k xs ≡ first_key cell k xs
  unfolding first_key
  first_key-same cell cell' k [] e = refl
  first_key-same cell cell' k (x ∷ xs) e =
      rw (e x (inl refl), first_key-same cell cell' k xs (λ y m. e y (inr m))) refl

  -- What a search finds in a list into which `e` is put.
  first_key-put :
      (cell cell' : ℕ → Elem T) (k j e : ℕ) (before after : List ℕ)
      → ((x : ℕ) → Has x (before ++ after) → (cell' x).key ≡ (cell x).key)
      → (cell' e).key ≡ j
      → (k ≡ j → (x : ℕ) → Has x after → (cell x).key ≢ j)
      → first_key cell' k (before ++ e ∷ after) ≡ (elim (first_key cell k (before ++ after)) [
        | some a ↦ some a
        | none ↦ if k == j then some e else none
      ])
  unfolding first_key
  first_key-put cell cell' k j e [] after same key behind = elim (Bool-cases (k == j)) [
    | inl q ↦
        let s : k ≡ j = (==_iff k j).0 q in
        let t : (j == k) ≡ true = ground (arith, ==_iff j k) in
        rw (first_key-none cell k after (λ x m r. behind s x m (r ∙ s)), q, key, t) refl
    | inr q ↦
        let t : (j == k) ≡ false = ground (arith, ==_iff j k) in
        rw (key, t, first_key-same cell cell' k after same)
          (elim (Option-cases (first_key cell k after)) [
            | inl n ↦ rw (n, q) refl
            | inr (a, n) ↦ rw n refl
          ])
  ]
  first_key-put cell cell' k j e (x ∷ before) after same key behind =
      let rest = first_key-put cell cell' k j e before after (λ y m. same y (inr m)) key behind in
      rw (same x (inl refl))
        (elim (Bool-cases ((cell x).key == k)) [ inl q ↦ rw q refl | inr q ↦ rw q rest ])

  -- Find after Insert, in a valid hash whose size is set: the element found before, if there was one, and the
  -- new element if there was none and its key is the one.
  pub find-insert :
      (h : HashList T) (gs : List Group) (free : List ℕ) (j : ℕ) (v : T)
      → IsHash h gs free
      → 0 < h.hash_size
      → (h' : HashList T) × (e : ℕ) × (insert j v h ≡ some h')
        × ((h'.memory.cell e).key ≡ j)
        × ((h'.memory.cell e).val ≡ v)
        × ((k : ℕ)
            → find k h' ≡ (
                find k h >>= λ found.
                some (elim found [ some a ↦ some a | none ↦ if k == j then some e else none ])))
  find-insert h gs free j v w pos =
      let (h', made, d) = insert-IsInserted h gs free j v w pos in
      let size = h.hash_size in
      let old = λ (x : ℕ) (m : Has x (d.place.before ++ d.place.after)).
        (d.entries x (subst (Has x) (sym d.place.without) m)).0 in
      (
        h',
        d.new,
        made,
        d.key,
        d.val,
        λ k.
            find-first h' d.groups d.left k d.hash (subst (λ n. 0 < n) (sym d.size) pos)
            ∙ ap (λ (xs : List ℕ). some (first_key h'.memory.cell k xs)) d.place.within
            ∙ ap some (
                first_key-put h.memory.cell h'.memory.cell k j d.new d.place.before d.place.after
                  old d.key (λ _ x m r. d.place.behind x m (ap (λ (z : ℕ). z % size) r)))
            ∙ rw (find-first h gs free k w pos, d.place.without) refl,
      )
