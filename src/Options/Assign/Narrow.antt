-- ===== src/Options/Assign/Narrow.antt =====
-- src/lib/parse-options.cc, ToInt and ToUInt: the range of what they return.
use opendcd.Prelude.{
  ℕ, ◌<◌, ◌≡◌, sym, Bool, true, false, none, some, Option-cases, List, ℤ, pos, negsuc, arith, ◌⊎◌,
  inl, inr, ◌∙◌,
}
use Prim.Native.Nat.{◌%◌}
use opendcd.Options.Run.{done, after_error}
use opendcd.Options.Assign.{Library, narrow_int, narrow_uint, to_int, to_uint}

-- The values of int32
abbrev pub IsInt32 : ℤ → Type 0
IsInt32 (pos n) = n < 2147483648
IsInt32 (negsuc n) = n < 2147483648

narrow_int-IsInt32 : (n : ℤ) → IsInt32 (narrow_int n)
unfolding narrow_int
narrow_int-IsInt32 (pos n) = ground arith
narrow_int-IsInt32 (negsuc n) = ground arith

narrow_int_same : (n : ℤ) → IsInt32 n → narrow_int n ≡ n
unfolding narrow_int
narrow_int_same (pos n) h = ground arith
narrow_int_same (negsuc n) h = ground arith

-- Whether a value is one of int32
IsInt32-cases : (n : ℤ) → IsInt32 n ⊎ (¬ IsInt32 n)
IsInt32-cases (pos n) = ground arith
IsInt32-cases (negsuc n) = ground arith

done-eq : {A : Type 0} (a b : A) → done a ≡ done b → a ≡ b
done-eq a b e = cc

error-zero : (goes_on : Bool) (r : ℤ) → after_error goes_on (pos 0) ≡ done r → r ≡ pos 0
error-zero true r e = cc
error-zero false r e = ground arith

error-uint : (goes_on : Bool) (r : ℕ) → after_error goes_on 0 ≡ done r → r ≡ 0
error-uint true r e = cc
error-uint false r e = ground arith

module _ {F D : Type 0} (lib : Library F D) where
  -- What ToInt returns is an int32: 0 if the text does not begin with a number, and the number itself
  -- if it is an int32.
  pub to_int_bounds :
      (str : List ℕ) (r : ℤ)
      → to_int lib str ≡ done r
      → IsInt32 r
        × (((lib.strtol str ≡ none) × (r ≡ pos 0))
            ⊎ ((n : ℤ) × (lib.strtol str ≡ some n) × ((r ≡ n) ⊎ (¬ IsInt32 n))))
  unfolding to_int
  to_int_bounds str r e = elim (Option-cases (lib.strtol str)) [
    | inl no' ↦
        let zero' = error-zero lib.goes_on r (rw (no', to_int) at e) in
        (rw zero' (omega arith), inl (no', zero'))
    | inr (n, q) ↦
        let same = done-eq (narrow_int n) r (rw (q, to_int) at e) in
        (
          rw (← same) (narrow_int-IsInt32 n),
          inr (
            n,
            q,
            elim (IsInt32-cases n) [ inl h ↦ inl (sym same ∙ narrow_int_same n h) | inr h ↦ inr h ],
          ),
        )
  ]

  -- What ToUInt returns is under 2 ^ 32: 0 if the text does not begin with a number, and the number
  -- that strtoul reads modulo 2 ^ 32 otherwise.
  pub to_uint_bounds :
      (str : List ℕ) (r : ℕ)
      → to_uint lib str ≡ done r
      → (r < 4294967296)
        × (((lib.strtoul str ≡ none) × (r ≡ 0))
            ⊎ ((n : ℕ) × (lib.strtoul str ≡ some n) × (r ≡ n % 4294967296)))
  unfolding to_uint narrow_uint
  to_uint_bounds str r e = elim (Option-cases (lib.strtoul str)) [
    | inl no' ↦
        let zero' = error-uint lib.goes_on r (rw (no', to_uint) at e) in
        (omega arith, inl (no', zero'))
    | inr (n, q) ↦
        let same = sym (done-eq (n % 4294967296) r (rw (q, to_uint) at e)) in
        (rw same (omega arith), inr (n, q, same))
  ]
