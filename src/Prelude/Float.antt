-- ===== src/Prelude/Float.antt =====
-- The floating-point numbers of the program, as an interface. The language supplies `float`, so
-- its operations are parameters: `F` is the type of the values that are no NaN. These are finitely
-- many and totally preordered (the two zeros are equal), so the order is that of a number, `key`.
use Prim.Native.Nat.{ℕ, ◌≤◌, ◌+◌, ◌-◌}
use mathlib.Core.Bool.{Bool}
use native.Mathlib.Omega.{arith}
use opendcd.Prelude.Tests.{ltb, leb, if◌then◌else◌}

pub record Float (F : Type 0) : Type 0 where
  pub key : F → ℕ
  pub add : F → F → F
  pub sub : F → F → F
  pub mul : F → F → F
  pub neg : F → F
  pub zero_cost : F
  -- kMaxCost and kMinCost of src/include/dcd/constants.h: INT_MAX and INT_MIN rounded to a float
  pub max_cost : F
  pub min_cost : F

module _ {F : Type 0} ⦃f : Float F⦄ where
  abbrev pub key : F → ℕ
  key = f.key

  -- a + b, a - b, a * b, -a
  abbrev pub add : F → F → F
  add = f.add

  abbrev pub sub : F → F → F
  sub = f.sub

  abbrev pub mul : F → F → F
  mul = f.mul

  abbrev pub neg : F → F
  neg = f.neg

  abbrev pub zero_cost : F
  zero_cost = f.zero_cost

  abbrev pub max_cost : F
  max_cost = f.max_cost

  abbrev pub min_cost : F
  min_cost = f.min_cost

  -- a < b, a <= b
  abbrev pub lt : F → F → Bool
  lt a b = ltb (key a) (key b)

  abbrev pub le : F → F → Bool
  le a b = leb (key a) (key b)

  -- std::min and std::max, which return their first argument on a tie
  abbrev pub min : F → F → F
  min a b = if lt b a then b else a

  pub min-le : (a b : F) → (key (min a b) ≤ key a) × (key (min a b) ≤ key b)
  min-le a b = (ground arith, ground arith)

  abbrev pub max : F → F → F
  max a b = if lt a b then b else a

-- Rounded addition is monotone in both arguments.
pub record IsMonotone {F : Type 0} (f : Float F) : Type 0 where
  pub add_mono_left : (a b c : F) → f.key a ≤ f.key b → f.key (f.add a c) ≤ f.key (f.add b c)
  pub add_mono_right : (a b c : F) → f.key a ≤ f.key b → f.key (f.add c a) ≤ f.key (f.add c b)

-- Fixed-point numbers meet the interface: `n` stands for `n` - 100000, and sums saturate from below.
instance abbrev pub fixed : Float ℕ
fixed = record {
  key = λ n. n;
  add = λ a b. a + b - 100000;
  sub = λ a b. a + 100000 - b;
  mul = λ a b. a;
  neg = λ a. 200000 - a;
  zero_cost = 100000;
  max_cost = 2147583647;
  min_cost = 0;
}

pub fixed-IsMonotone : IsMonotone fixed
fixed-IsMonotone = record {
  add_mono_left = λ a b c h. omega arith;
  add_mono_right = λ a b c h. omega arith;
}
