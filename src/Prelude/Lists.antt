-- ===== src/Prelude/Lists.antt =====
-- Lists measured and indexed by native numbers, under the library's names.
use Prim.Native.Nat.{ℕ, zero, suc, ◌+◌, ◌≤◌, ◌<◌}
use mathlib.Core.Path.{◌≡◌, refl, sym, ap, subst}
use mathlib.Core.Bool.{◌&&◌}
use opendcd.Prelude.Tests.{◌==◌, ==_iff, update, ltb, if◌then◌else◌}
use mathlib.Core.Logic.{◌⊎◌, inl, inr, ◌↔◌}
use mathlib.Core.List.{List, [], ◌∷◌, ◌++◌}
use mathlib.Core.Option.{Option, none, some}
use native.Mathlib.Omega.{arith}

module _ {ℓ} {A : Type ℓ} where
  abbrev pub length : List A → ℕ
  length [] = 0
  length (x ∷ xs) = suc (length xs)

  abbrev pub get_elem? : List A → ℕ → Option A
  get_elem? [] i = none
  get_elem? (x ∷ xs) zero = some x
  get_elem? (x ∷ xs) (suc i) = get_elem? xs i

  abbrev pub get_or : List A → ℕ → A → A
  get_or [] i d = d
  get_or (x ∷ xs) zero d = x
  get_or (x ∷ xs) (suc i) d = get_or xs i d

  -- A write out of bounds changes nothing.
  abbrev pub set : List A → ℕ → A → List A
  set [] i v = []
  set (x ∷ xs) zero v = v ∷ xs
  set (x ∷ xs) (suc i) v = x ∷ set xs i v

  abbrev pub replicate : ℕ → A → List A
  replicate zero a = []
  replicate (suc n) a = a ∷ replicate n a

  -- A predicate that holds of every item.
  abbrev pub All {κ} : (A → Type κ) → List A → Type κ
  All P [] = Unit
  All P (x ∷ xs) = P x × All P xs

  pub length-replicate : (n : ℕ) (a : A) → length (replicate n a) ≡ n
  length-replicate zero a = refl
  length-replicate (suc n) a = ap suc (length-replicate n a)

  pub length-append : (xs ys : List A) → length (xs ++ ys) ≡ length xs + length ys
  length-append [] ys = omega arith
  length-append (x ∷ xs) ys = omega (arith, length-append xs ys)

-- Membership of numbers by recursion, which the tactics take apart.
abbrev pub Has : ℕ → List ℕ → Type 0
Has a [] = ⊥
Has a (x ∷ xs) = (a ≡ x) ⊎ Has a xs

abbrev pub NoDup : List ℕ → Type 0
NoDup [] = Unit
NoDup (x ∷ xs) = (¬ Has x xs) × NoDup xs

pub Has-append : (a : ℕ) (xs ys : List ℕ) → Has a (xs ++ ys) ↔ (Has a xs ⊎ Has a ys)
Has-append a [] ys = (λ h. inr h, λ h. elim h [ inl no' ↦ elim no' [ ] | inr k ↦ k ])
Has-append a (x ∷ xs) ys = ground (arith, Has-append a xs ys)

module _ (P : ℕ → Type 0) where
  pub All-Has : (xs : List ℕ) (a : ℕ) → All P xs → Has a xs → P a
  All-Has [] a h k = elim k [ ]
  All-Has (x ∷ xs) a h (inl e) = subst P (sym e) h.0
  All-Has (x ∷ xs) a h (inr k) = All-Has xs a h.1 k

  pub All-snoc : (xs : List ℕ) (a : ℕ) → All P xs → P a → All P (xs ++ a ∷ [])
  All-snoc [] a h k = (k, tt)
  All-snoc (x ∷ xs) a h k = (h.0, All-snoc xs a h.1 k)

-- A change that keeps the predicate at every member of the list.
pub All-change :
    (P Q : ℕ → Type 0) (xs : List ℕ) → ((a : ℕ) → Has a xs → P a → Q a) → All P xs → All Q xs
All-change P Q [] f h = tt
All-change P Q (x ∷ xs) f h = (f x (inl refl) h.0, All-change P Q xs (λ a k. f a (inr k)) h.1)

-- A read after a write.
pub get_or-set {ℓ} :
    {A : Type ℓ} (xs : List A) (i j : ℕ) (v d : A)
    → get_or (set xs i v) j d ≡ (if i == j && ltb i (length xs) then v else get_or xs j d)
get_or-set [] i j v d = ground arith
get_or-set (x ∷ xs) zero zero v d = ground arith
get_or-set (x ∷ xs) zero (suc j) v d = ground arith
get_or-set (x ∷ xs) (suc i) zero v d = ground arith
get_or-set (x ∷ xs) (suc i) (suc j) v d = ground (arith, get_or-set xs i j v d)

pub length-set {ℓ} : {A : Type ℓ} (xs : List A) (i : ℕ) (v : A) → length (set xs i v) ≡ length xs
length-set [] i v = refl
length-set (x ∷ xs) zero v = refl
length-set (x ∷ xs) (suc i) v = ap suc (length-set xs i v)

-- A read beyond the end gives the default.
pub get_or_beyond {ℓ} :
    {A : Type ℓ} (xs : List A) (i : ℕ) (d : A) → length xs ≤ i → get_or xs i d ≡ d
get_or_beyond [] i d h = refl
get_or_beyond (x ∷ xs) zero d h = absurd (omega arith)
get_or_beyond (x ∷ xs) (suc i) d h = get_or_beyond xs i d (omega arith)

-- A lookup in a list with one more item at its end.
pub get_elem?-snoc {ℓ} :
    {A : Type ℓ} (xs : List A) (x y : A) (i : ℕ)
    → (get_elem? (xs ++ x ∷ []) i ≡ some y)
      ↔ ((get_elem? xs i ≡ some y) ⊎ ((i ≡ length xs) × (x ≡ y)))
get_elem?-snoc [] x y zero = ground arith
get_elem?-snoc [] x y (suc i) = ground arith
get_elem?-snoc (z ∷ xs) x y zero = ground arith
get_elem?-snoc (z ∷ xs) x y (suc i) = ground (arith, get_elem?-snoc xs x y i)

-- A lookup after a write.
pub get_elem?-set {ℓ} :
    {A : Type ℓ} (xs : List A) (i j : ℕ) (v : A)
    → get_elem? (set xs i v) j ≡ (if i == j && ltb i (length xs) then some v else get_elem? xs j)
get_elem?-set [] i j v = ground arith
get_elem?-set (x ∷ xs) zero zero v = ground arith
get_elem?-set (x ∷ xs) zero (suc j) v = ground arith
get_elem?-set (x ∷ xs) (suc i) zero v = ground arith
get_elem?-set (x ∷ xs) (suc i) (suc j) v = ground (arith, get_elem?-set xs i j v)

-- A lookup that finds something is in bounds.
pub get_elem?_bound {ℓ} :
    {A : Type ℓ} (xs : List A) (i : ℕ) (y : A) → get_elem? xs i ≡ some y → i < length xs
get_elem?_bound [] i y h = ground arith
get_elem?_bound (x ∷ xs) zero y h = omega arith
get_elem?_bound (x ∷ xs) (suc i) y h = omega (arith, get_elem?_bound xs i y h)

-- A function after a write at one place.
pub update_same : {A : Type 0} (f : ℕ → A) (p : ℕ) (a : A) → update f p a p ≡ a
update_same f p a = ground (arith, ==_iff p p)

pub update_other : {A : Type 0} (f : ℕ → A) (p q : ℕ) (a : A) → ¬ (q ≡ p) → update f p a q ≡ f q
update_other f p q a n = ground (arith, ==_iff p q)
