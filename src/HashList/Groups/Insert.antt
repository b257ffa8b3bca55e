-- ===== src/HashList/Groups/Insert.antt =====
-- src/include/dcd/hash-list-inl.h, Insert: the groups with one more element. Insert.Last is about a bucket
-- that has elements, Insert.First about an empty one.
pub mod Last
pub mod First
pub mod Prepared
pub mod Behind
pub mod Alone
pub mod Exact
pub mod Only
pub mod More
use opendcd.Prelude.{
  ℕ, ◌%◌, ◌≡◌, ◌≢◌, refl, sym, ap, subst, ◌∙◌, inl, inr, Bool-cases, List, [], ◌∷◌, ◌++◌, Has,
  Has-append, ◌==◌, ==_iff, if◌then◌else◌, append-nil, append_assoc, Option, NoDup, arith,
}
use opendcd.HashList.{Elem, HashBucket}
use opendcd.HashList.Groups.{Group, members, indices, elements, newest, IsLinked}

-- `e` stands behind the last element of the group with index `i`.
unfoldable pub append_to_group : ℕ → ℕ → List Group → List Group
unfolding members
append_to_group i e [] = []
append_to_group i e (g ∷ gs) =
    let rest = append_to_group i e gs in
    if g.index == i then record { index = g.index; front = members g; last = e } ∷ gs else g ∷ rest

pub indices-append_to_group :
    (i e : ℕ) (gs : List Group) → indices (append_to_group i e gs) ≡ indices gs
unfolding append_to_group indices
indices-append_to_group i e [] = refl
indices-append_to_group i e (g ∷ gs) = elim (Bool-cases (g.index == i)) [
  | inl same ↦ rw same refl
  | inr other ↦ rw other (ap (λ (xs : List ℕ). g.index ∷ xs) (indices-append_to_group i e gs))
]

pub newest-append_to_group :
    (i e : ℕ) (gs : List Group) → newest (append_to_group i e gs) ≡ newest gs
unfolding append_to_group newest
newest-append_to_group i e [] = refl
newest-append_to_group i e (g ∷ gs) = elim (Bool-cases (g.index == i)) [
  | inl same ↦ rw same refl
  | inr other ↦ rw other refl
]

-- `ys` is `xs` with `e` put in at one place, and behind it stands nothing with the property.
pub record IsPutIn (Same : ℕ → Type 0) (e : ℕ) (xs ys : List ℕ) : Type 0 where
  pub before : List ℕ
  pub after : List ℕ
  pub without : xs ≡ before ++ after
  pub within : ys ≡ before ++ e ∷ after
  pub behind : (x : ℕ) → Has x after → ¬ Same x

IsPutIn-append :
    (Same : ℕ → Type 0) (e : ℕ) (xs ys zs : List ℕ)
    → IsPutIn Same e xs ys
    → ((x : ℕ) → Has x zs → ¬ Same x)
    → IsPutIn Same e (xs ++ zs) (ys ++ zs)
IsPutIn-append Same e xs ys zs v h = record {
  before = v.before;
  after = v.after ++ zs;
  without = ap (λ (l : List ℕ). l ++ zs) v.without ∙ append_assoc v.before v.after zs;
  within = ap (λ (l : List ℕ). l ++ zs) v.within ∙ append_assoc v.before (e ∷ v.after) zs;
  behind = λ x k. elim ((Has-append x v.after zs).0 k) [ inl a ↦ v.behind x a | inr b ↦ h x b ];
}

pub IsPutIn-end : (Same : ℕ → Type 0) (e : ℕ) (xs : List ℕ) → IsPutIn Same e xs (xs ++ e ∷ [])
IsPutIn-end Same e xs = record {
  before = xs;
  after = [];
  without = sym (append-nil xs);
  within = refl;
  behind = λ x h k. elim h [ ];
}

module _ {T : Type 0} (cell : ℕ → Elem T) (bucket : ℕ → HashBucket) (size : ℕ)
    (Used : ℕ → Type 0) where
  -- Where the element stands in the list.
  pub append_to_group-IsPutIn :
      (head : Option ℕ) (i e : ℕ) (gs : List Group)
      → IsLinked cell bucket size Used head gs
      → Has i (indices gs)
      → NoDup (indices gs)
      → IsPutIn (λ x. (cell x).key % size ≡ i) e (elements gs) (elements (append_to_group i e gs))
  unfolding append_to_group elements indices
  append_to_group-IsPutIn head i e [] v h d = elim h [ ]
  append_to_group-IsPutIn head i e (g ∷ gs) v h d = elim (Bool-cases (g.index == i)) [
    | inl same ↦ rw same (
        subst (IsPutIn (λ x. (cell x).key % size ≡ i) e (elements gs ++ members g))
          (append_assoc (elements gs) (members g) (e ∷ []))
          (IsPutIn-end (λ x. (cell x).key % size ≡ i) e (elements gs ++ members g)))
    | inr other ↦
        let ne : g.index ≢ i = λ q. ground (arith, ==_iff g.index i) in
        rw other (
          IsPutIn-append (λ x. (cell x).key % size ≡ i) e (elements gs)
            (elements (append_to_group i e gs)) (members g)
            (append_to_group-IsPutIn head i e gs v.3
              (elim h [ inl q ↦ absurd (ne (sym q)) | inr k ↦ k ]) d.1)
            (λ x k q. ne (sym (v.0.keys x k) ∙ q)))
  ]
