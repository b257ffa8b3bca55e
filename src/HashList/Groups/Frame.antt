-- ===== src/HashList/Groups/Frame.antt =====
-- src/include/dcd/hash-list.h: the groups of a hash where elements and buckets of no group change.
use opendcd.Prelude.{
  ℕ, ◌%◌, ◌≡◌, refl, sym, ap, subst, ◌∙◌, inl, inr, Option, some, List, [], ◌∷◌, ◌++◌, Has, NoDup,
  Has-append,
}
use opendcd.HashList.{Elem, HashBucket}
use opendcd.HashList.Chain.{IsChain-frame}
use opendcd.HashList.Groups.{Group, members, indices, elements, end, IsGroup, IsLinked}

pub Has-front : (g : Group) (x : ℕ) → Has x g.front → Has x (members g)
unfolding members
Has-front g x h = (Has-append x g.front (g.last ∷ [])).1 (inl h)

pub Has-last : (g : Group) → Has g.last (members g)
unfolding members
Has-last g = (Has-append g.last g.front (g.last ∷ [])).1 (inr (inl refl))

pub Has-newer :
    (g : Group) (gs : List Group) (x : ℕ) → Has x (members g) → Has x (elements (g ∷ gs))
unfolding elements
Has-newer g gs x h = (Has-append x (elements gs) (members g)).1 (inr h)

pub Has-older :
    (g : Group) (gs : List Group) (x : ℕ) → Has x (elements gs) → Has x (elements (g ∷ gs))
unfolding elements
Has-older g gs x h = (Has-append x (elements gs) (members g)).1 (inl h)

-- The last element of a list without duplicates is not in front of itself.
pub snoc_fresh : (xs : List ℕ) (y : ℕ) → NoDup (xs ++ y ∷ []) → ¬ Has y xs
snoc_fresh [] y d h = h
snoc_fresh (x ∷ xs) y d h = elim h [
  | inl e ↦ d.0 ((Has-append x xs (y ∷ [])).1 (inr (inl (sym e))))
  | inr k ↦ snoc_fresh xs y d.1 k
]

pub NoDup-snoc : (xs : List ℕ) (y : ℕ) → NoDup xs → ¬ Has y xs → NoDup (xs ++ y ∷ [])
NoDup-snoc [] y d n = ((λ h. h), tt)
NoDup-snoc (x ∷ xs) y d n = (
  λ h. elim ((Has-append x xs (y ∷ [])).0 h) [
    | inl k ↦ d.0 k
    | inr k ↦ elim k [ inl e ↦ n (inl (sym e)) | inr no' ↦ no' ]
  ],
  NoDup-snoc xs y d.1 (λ h. n (inr h)),
)

module _ {T : Type 0} (cell cell' : ℕ → Elem T) (size : ℕ) (Used Used' : ℕ → Type 0) where
  pub IsGroup-frame :
      (p : Option ℕ) (g : Group)
      → ((x : ℕ) → Has x g.front → (cell' x).tail ≡ (cell x).tail)
      → ((x : ℕ) → Has x (members g) → (cell' x).key ≡ (cell x).key)
      → ((x : ℕ) → Has x (members g) → Used x → Used' x)
      → IsGroup cell size Used p g
      → IsGroup cell' size Used' p g
  IsGroup-frame p g tails keys used v = record {
    chain = IsChain-frame cell cell' p g.front (some g.last) tails v.chain;
    nodup = v.nodup;
    keys = λ x h. ap (λ (k : ℕ). k % size) (keys x h) ∙ v.keys x h;
    used = λ x h. used x h (v.used x h);
  }

  pub end-frame :
      (head : Option ℕ) (gs : List Group)
      → ((x : ℕ) → Has x (elements gs) → cell' x ≡ cell x)
      → end cell' head gs ≡ end cell head gs
  unfolding end
  end-frame head [] same = refl
  end-frame head (g ∷ gs) same =
      ap (λ (x : Elem T). x.tail) (same g.last (Has-newer g gs g.last (Has-last g)))

  pub IsLinked-frame :
      (bucket bucket' : ℕ → HashBucket) (head : Option ℕ) (gs : List Group)
      → ((x : ℕ) → Has x (elements gs) → cell' x ≡ cell x)
      → ((x : ℕ) → Has x (elements gs) → Used x → Used' x)
      → ((b : ℕ) → Has b (indices gs) → bucket' b ≡ bucket b)
      → IsLinked cell bucket size Used head gs
      → IsLinked cell' bucket' size Used' head gs
  unfolding indices
  IsLinked-frame bucket bucket' head [] same used buckets v = tt
  IsLinked-frame bucket bucket' head (g ∷ gs) same used buckets v =
      let older = λ (x : ℕ) (h : Has x (elements gs)). same x (Has-older g gs x h) in
      let newer = λ (x : ℕ) (h : Has x (members g)). same x (Has-newer g gs x h) in
      (
        subst (λ p. IsGroup cell' size Used' p g) (sym (end-frame head gs older))
            (IsGroup-frame (end cell head gs) g
              (λ x h. ap (λ (y : Elem T). y.tail) (newer x (Has-front g x h)))
              (λ x h. ap (λ (y : Elem T). y.key) (newer x h)) (λ x h. used x (Has-newer g gs x h))
              v.0),
        ap (λ (b : HashBucket). b.last_elem) (buckets g.index (inl refl)) ∙ v.1,
        ap (λ (b : HashBucket). b.prev_bucket) (buckets g.index (inl refl)) ∙ v.2,
        IsLinked-frame bucket bucket' head gs older (λ x h. used x (Has-older g gs x h))
            (λ b h. buckets b (inr h)) v.3,
      )

module _ {T : Type 0} (cell : ℕ → Elem T) (bucket : ℕ → HashBucket) (size : ℕ) (Used : ℕ → Type 0)
    (head : Option ℕ) where
  -- An element of the hash is in use, and its bucket has a group.
  pub Has-elements :
      (gs : List Group) (x : ℕ)
      → IsLinked cell bucket size Used head gs
      → Has x (elements gs)
      → Used x × Has ((cell x).key % size) (indices gs)
  unfolding indices elements
  Has-elements [] x v h = elim h [ ]
  Has-elements (g ∷ gs) x v h = elim ((Has-append x (elements gs) (members g)).0 h) [
    | inl k ↦ let (u, i) = Has-elements gs x v.3 k in (u, inr i)
    | inr k ↦ (v.0.used x k, inl (v.0.keys x k))
  ]

  -- The bucket of a group has the group's last element.
  pub Has-indices :
      (gs : List Group) (i : ℕ)
      → IsLinked cell bucket size Used head gs
      → Has i (indices gs)
      → (l : ℕ) × ((bucket i).last_elem ≡ some l) × ((cell l).key % size ≡ i) × Has l (elements gs)
  unfolding indices
  Has-indices [] i v h = elim h [ ]
  Has-indices (g ∷ gs) i v h = elim h [
    | inl e ↦ (
      g.last,
      ap (λ (j : ℕ). (bucket j).last_elem) e ∙ v.1,
      v.0.keys g.last (Has-last g) ∙ sym e,
      Has-newer g gs g.last (Has-last g),
    )
    | inr k ↦ let (l, e, q, m) = Has-indices gs i v.3 k in (l, e, q, Has-older g gs l m)
  ]
