-- ===== src/HashList/Groups/Find.antt =====
-- src/include/dcd/hash-list-inl.h, Find: the first element with the key.
pub mod Exact
use opendcd.Prelude.{
  ℕ, zero, suc, ◌+◌, ◌%◌, ◌<◌, ◌≤◌, ◌≡◌, ◌≢◌, refl, sym, ap, subst, ◌∙◌, inl, inr, Bool, true,
  false, Bool-cases, Option, none, some, Option-cases, List, [], ◌∷◌, ◌++◌, Has, NoDup, Has-append,
  length, ◌==◌, ==_iff, if◌then◌else◌, arith,
}
use opendcd.HashList.{Elem, HashBucket, same_pointer, find_loop}
use opendcd.Prelude.Distinct.{length-le_distinct}
use opendcd.HashList.Chain.{IsChain}
use opendcd.HashList.Groups.{
  Group, members, indices, elements, newest, end, IsGroup, IsLinked, members-IsChain,
}
use opendcd.HashList.Groups.Frame.{Has-newer, Has-older, Has-elements}

same_pointer_self : (p : Option ℕ) → same_pointer p p ≡ true
unfolding same_pointer
same_pointer_self none = refl
same_pointer_self (some a) = ground (arith, ==_iff a a)

same_pointer_other : (a : ℕ) (p : Option ℕ) → some a ≢ p → same_pointer (some a) p ≡ false
unfolding same_pointer
same_pointer_other a none n = refl
same_pointer_other a (some b) n = elim (Bool-cases (a == b)) [
  | inl q ↦ absurd (n (ap some ((==_iff a b).0 q)))
  | inr q ↦ q
]

module _ {T : Type 0} where
  -- The first element of a list with a key.
  unfoldable pub first_key : (ℕ → Elem T) → ℕ → List ℕ → Option ℕ
  first_key cell k [] = none
  first_key cell k (x ∷ xs) =
      let rest = first_key cell k xs in if (cell x).key == k then some x else rest

  pub first_key-none :
      (cell : ℕ → Elem T) (k : ℕ) (xs : List ℕ)
      → ((x : ℕ) → Has x xs → (cell x).key ≢ k)
      → first_key cell k xs ≡ none
  unfolding first_key
  first_key-none cell k [] n = refl
  first_key-none cell k (x ∷ xs) n = elim (Bool-cases ((cell x).key == k)) [
    | inl q ↦ absurd (n x (inl refl) ((==_iff (cell x).key k).0 q))
    | inr q ↦ rw q (first_key-none cell k xs (λ y h. n y (inr h)))
  ]

  first_key-front :
      (cell : ℕ → Elem T) (k : ℕ) (xs ys : List ℕ)
      → ((x : ℕ) → Has x xs → (cell x).key ≢ k)
      → first_key cell k (xs ++ ys) ≡ first_key cell k ys
  unfolding first_key
  first_key-front cell k [] ys n = refl
  first_key-front cell k (x ∷ xs) ys n = elim (Bool-cases ((cell x).key == k)) [
    | inl q ↦ absurd (n x (inl refl) ((==_iff (cell x).key k).0 q))
    | inr q ↦ rw q (first_key-front cell k xs ys (λ y h. n y (inr h)))
  ]

  first_key-back :
      (cell : ℕ → Elem T) (k : ℕ) (xs ys : List ℕ)
      → ((y : ℕ) → Has y ys → (cell y).key ≢ k)
      → first_key cell k (xs ++ ys) ≡ first_key cell k xs
  unfolding first_key
  first_key-back cell k [] ys n = first_key-none cell k ys n
  first_key-back cell k (x ∷ xs) ys n = elim (Bool-cases ((cell x).key == k)) [
    | inl q ↦ rw q refl
    | inr q ↦ rw q (first_key-back cell k xs ys n)
  ]

  find_loop_step :
      (n : ℕ) (cell : ℕ → Elem T) (x : ℕ) (tail : Option ℕ) (k : ℕ) (found : Option ℕ)
      → some x ≢ tail
      → find_loop n cell (cell x).tail tail k ≡ some found
      → find_loop (suc n) cell (some x) tail k ≡ some (if (cell x).key == k then some x else found)
  unfolding find_loop
  find_loop_step n cell x tail k found ne e =
      rw (same_pointer_other x tail ne)
        (elim (Bool-cases ((cell x).key == k)) [ inl q ↦ rw q refl | inr q ↦ rw q e ])

  find_loop_stop :
      (n : ℕ) (cell : ℕ → Elem T) (p : Option ℕ) (k : ℕ) → find_loop (suc n) cell p p k ≡ some none
  unfolding find_loop same_pointer
  find_loop_stop n cell none k = refl
  find_loop_stop n cell (some a) k = let e : (a == a) ≡ true = (==_iff a a).1 refl in rw e refl

  -- The loop over a chain that does not go through its end
  pub find_loop-IsChain :
      (n : ℕ) (cell : ℕ → Elem T) (p : Option ℕ) (xs : List ℕ) (tail : Option ℕ) (k : ℕ)
      → IsChain cell p xs tail
      → ((x : ℕ) → Has x xs → some x ≢ tail)
      → length xs < n
      → find_loop n cell p tail k ≡ some (first_key cell k xs)
  unfolding first_key
  find_loop-IsChain zero cell p xs tail k c n l = absurd (omega arith)
  find_loop-IsChain (suc m) cell p [] tail k c n l =
      subst (λ q. find_loop (suc m) cell q tail k ≡ some none) (sym c)
        (find_loop_stop m cell tail k)
  find_loop-IsChain (suc m) cell p (x ∷ xs) tail k c n l =
      subst (λ q. find_loop (suc m) cell q tail k ≡ some (first_key cell k (x ∷ xs))) (sym c.0)
        (find_loop_step m cell x tail k (first_key cell k xs) (n x (inl refl))
          (find_loop-IsChain m cell (cell x).tail xs tail k c.1 (λ y h. n y (inr h)) (omega arith)))

  -- The group of a bucket, and the groups that are older
  pub record IsLocated (cell : ℕ → Elem T) (bucket : ℕ → HashBucket) (size : ℕ) (Used : ℕ → Type 0)
      (head : Option ℕ) (gs : List Group) (k : ℕ) : Type 0 where
    pub group : Group
    pub older : List Group
    pub index : group.index ≡ k % size
    pub linked : IsLinked cell bucket size Used head (group ∷ older)
    pub inside : (b : ℕ) → Has b (indices older) → Has b (indices gs)
    pub stops : (x : ℕ) → Has x (members group) → some x ≢ (cell group.last).tail
    pub first : first_key cell k (elements gs) ≡ first_key cell k (members group)

  -- A chain that is not empty starts at one of its elements.
  chain_start :
      (cell : ℕ → Elem T) (p : Option ℕ) (xs : List ℕ) (y : ℕ) (q : Option ℕ)
      → IsChain cell p (xs ++ y ∷ []) q
      → (x : ℕ) × (p ≡ some x) × Has x (xs ++ y ∷ [])
  chain_start cell p [] y q c = (y, c.0, inl refl)
  chain_start cell p (x ∷ xs) y q c = (x, c.0, inl refl)

  module _ (cell : ℕ → Elem T) (bucket : ℕ → HashBucket) (size : ℕ) (Used : ℕ → Type 0)
      (head : Option ℕ) (k : ℕ) where
    -- An older group does not end in one of its own elements, since a newer one starts there.
    older_stops :
        (g : Group) (gs : List Group)
        → IsLinked cell bucket size Used head (g ∷ gs)
        → NoDup (indices (g ∷ gs))
        → (x : ℕ) → Has x (elements gs)
        → some x ≢ end cell head gs
    unfolding members indices
    older_stops g gs v d x h e =
        let starts : (y : ℕ) → Has y (members g) → some x ≡ some y → ⊥ = λ y m q.
          let s : x ≡ y = (cc) in
          let key : (cell x).key % size ≡ g.index =
            ap (λ (z : ℕ). (cell z).key % size) s ∙ v.0.keys y m in
          d.0 (
            subst (λ b. Has b (indices gs)) key
              (Has-elements cell bucket size Used head gs x v.3 h).1) in
        let (y, q, m) =
          chain_start cell (end cell head gs) g.front g.last (cell g.last).tail
            (members-IsChain cell size Used (end cell head gs) g v.0) in
        starts y m (e ∙ q)

    pub located :
        (gs : List Group)
        → IsLinked cell bucket size Used head gs
        → NoDup (indices gs)
        → Has (k % size) (indices gs)
        → ((x : ℕ) → Has x (elements gs) → some x ≢ end cell head gs)
        → IsLocated cell bucket size Used head gs k
    unfolding indices elements end
    located [] v d h n = elim h [ ]
    located (g ∷ gs) v d h n = elim (Bool-cases (g.index == k % size)) [
      | inl q ↦
          let e : g.index ≡ k % size = (==_iff g.index (k % size)).0 q in
          record {
            group = g;
            older = gs;
            index = e;
            linked = v;
            inside = λ b m. inr m;
            stops = λ x m. n x (Has-newer g gs x m);
            first = first_key-front cell k (elements gs) (members g) (λ x m r. d.0 (
                subst (λ b. Has b (indices gs)) (ap (λ (z : ℕ). z % size) r ∙ sym e)
                  (Has-elements cell bucket size Used head gs x v.3 m).1));
          }
      | inr q ↦
          let ne : g.index ≢ k % size = λ e. ground (arith, ==_iff g.index (k % size)) in
          let rest =
            located gs v.3 d.1 (elim h [ inl e ↦ absurd (ne (sym e)) | inr m ↦ m ])
              (older_stops g gs v d) in
          record {
            group = rest.group;
            older = rest.older;
            index = rest.index;
            linked = rest.linked;
            inside = λ b m. inr (rest.inside b m);
            stops = rest.stops;
            first =
                first_key-back cell k (elements gs) (members g)
                  (λ x m r. ne (sym (v.0.keys x m) ∙ ap (λ (z : ℕ). z % size) r))
                ∙ rest.first;
          }
    ]
