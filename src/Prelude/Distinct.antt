-- ===== src/Prelude/Distinct.antt =====
-- Lists of distinct numbers.
use Prim.Native.Nat.{ℕ, zero, suc, ◌≤◌, ◌<◌}
use mathlib.Core.Path.{◌≡◌, refl, ap, subst}
use mathlib.Core.Logic.{◌≢◌, ◌⊎◌, inl, inr}
use mathlib.Core.List.{List, [], ◌∷◌}
use native.Mathlib.Omega.{arith}
use opendcd.Prelude.Tests.{◌==◌, ==_iff, Bool-cases, if◌then◌else◌}
use opendcd.Prelude.Lists.{Has, NoDup, length}

unfoldable pub remove : ℕ → List ℕ → List ℕ
remove a [] = []
remove a (x ∷ xs) = let rest = remove a xs in if a == x then rest else x ∷ rest

pub Has-remove : (a b : ℕ) (xs : List ℕ) → Has b (remove a xs) → Has b xs × (b ≢ a)
unfolding remove
Has-remove a b [] h = elim h [ ]
Has-remove a b (x ∷ xs) h = ground (arith, Has-remove a b xs, ==_iff a x)

pub NoDup-remove : (a : ℕ) (xs : List ℕ) → NoDup xs → NoDup (remove a xs)
unfolding remove
NoDup-remove a [] h = tt
NoDup-remove a (x ∷ xs) h = elim (Bool-cases (a == x)) [
  | inl same ↦ rw same (NoDup-remove a xs h.1)
  | inr other ↦ rw other (λ k. h.0 (Has-remove a x xs k).0, NoDup-remove a xs h.1)
]

pub remove_other : (a : ℕ) (xs : List ℕ) → ¬ Has a xs → remove a xs ≡ xs
unfolding remove
remove_other a [] h = refl
remove_other a (x ∷ xs) h = elim (Bool-cases (a == x)) [
  | inl same ↦ absurd (h (inl ((==_iff a x).0 same)))
  | inr other ↦ rw other (ap (λ (ys : List ℕ). x ∷ ys) (remove_other a xs (λ k. h (inr k))))
]

length-remove : (a : ℕ) (xs : List ℕ) → NoDup xs → length xs ≤ suc (length (remove a xs))
unfolding remove
length-remove a [] h = omega arith
length-remove a (x ∷ xs) h = elim (Bool-cases (a == x)) [
  | inl same ↦ rw same (
      let e = remove_other a xs (λ k. h.0 (subst (λ y. Has y xs) ((==_iff a x).0 same) k)) in
      omega (arith, ap (length {A = ℕ}) e))
  | inr other ↦ rw other (omega (arith, length-remove a xs h.1))
]

-- Distinct numbers below `n` are at most `n`.
pub length-le_distinct :
    (n : ℕ) (xs : List ℕ) → NoDup xs → ((a : ℕ) → Has a xs → a < n) → length xs ≤ n
length-le_distinct n [] d h = omega arith
length-le_distinct zero (x ∷ xs) d h = absurd (let k = h x (inl refl) in omega arith)
length-le_distinct (suc n) (x ∷ xs) d h =
    let below : (a : ℕ) → Has a (remove n (x ∷ xs)) → a < n =
      λ a k. let (m, ne) = Has-remove n a (x ∷ xs) k in let l = h a m in omega arith in
    omega (
      arith,
      length-remove n (x ∷ xs) d,
      length-le_distinct n (remove n (x ∷ xs)) (NoDup-remove n (x ∷ xs) d) below,
    )

pub Has-remove_other : (a b : ℕ) (xs : List ℕ) → Has b xs → b ≢ a → Has b (remove a xs)
unfolding remove
Has-remove_other a b [] h n = h
Has-remove_other a b (x ∷ xs) h n = ground (arith, Has-remove_other a b xs, ==_iff a x)

length-remove_le : (a : ℕ) (xs : List ℕ) → length (remove a xs) ≤ length xs
unfolding remove
length-remove_le a [] = omega arith
length-remove_le a (x ∷ xs) = ground (arith, length-remove_le a xs)

pub length-remove_lt : (a : ℕ) (xs : List ℕ) → Has a xs → length (remove a xs) < length xs
unfolding remove
length-remove_lt a [] h = elim h [ ]
length-remove_lt a (x ∷ xs) h = elim (Bool-cases (a == x)) [
  | inl same ↦ rw same (omega (arith, length-remove_le a xs))
  | inr other ↦ rw other (
      let k : Has a xs = elim h [ inl e ↦ ground (arith, ==_iff a x) | inr k ↦ k ] in
      omega (arith, length-remove_lt a xs k))
]

pub Has-dec : (a : ℕ) (xs : List ℕ) → Has a xs ⊎ (¬ Has a xs)
Has-dec a [] = inr (λ h. h)
Has-dec a (x ∷ xs) = elim (Bool-cases (a == x)) [
  | inl same ↦ inl (inl ((==_iff a x).0 same))
  | inr other ↦ elim (Has-dec a xs) [
    | inl h ↦ inl (inr h)
    | inr n ↦ inr (λ h. elim h [ inl e ↦ ground (arith, ==_iff a x) | inr k ↦ n k ])
  ]
]
