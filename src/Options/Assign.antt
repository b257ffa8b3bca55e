-- ===== src/Options/Assign.antt =====
-- src/lib/parse-options.cc: SetOption and the conversions of values. strtol, strtoul and strtod are of the
-- standard library: each returns the number that a text begins with, `none` when there is no conversion
-- and the end pointer is the text. A `long` has 64 bits.
pub mod Narrow
pub mod Find
pub mod Frame
pub mod Found
use opendcd.Prelude.{
  ℕ, ◌+◌, ◌-◌, Bool, true, false, not, Option, none, some, List, [], ◌∷◌, map, update, ℤ, pos,
  negsuc, ltb, ◌&&◌, ◌||◌, if◌then◌else◌,
}
use Prim.Native.Nat.{◌%◌, ◌^◌}
use opendcd.Text.{codes, is_empty}
use opendcd.Options.{ParseOptions, Variables, find, same_text}
use opendcd.Options.Run.{Run, done, exited, fatal, out_of_bounds, ◌>>=◌, after_error}
use opendcd.Options.Register.{
  Pointer, bool_ptr, int_ptr, uint_ptr, float_ptr, double_ptr, string_ptr, to_lower,
}

pub record Library (F D : Type 0) : Type 0 where
  pub strtol : List ℕ → Option ℤ
  pub strtoul : List ℕ → Option ℕ
  pub strtod : List ℕ → Option D
  pub zero_double : D
  pub to_float : D → F
  pub goes_on : Bool

-- The value modulo 2 ^ 32, as the bits of a signed number
abbrev pub signed32 : ℕ → ℤ
signed32 m = if ltb m 2147483648 then pos m else negsuc (4294967295 - m)

-- The conversions of a long to int32 and of an unsigned long to uint32
unfoldable pub narrow_int : ℤ → ℤ
narrow_int (pos n) = signed32 (n % 4294967296)
narrow_int (negsuc n) = signed32 (4294967295 - n % 4294967296)

unfoldable pub narrow_uint : ℕ → ℕ
narrow_uint n = n % 4294967296

-- The first of the finds that is there, in the order of SetOption's tests
unfoldable pub first_pointer :
    Option ℕ → Option ℕ → Option ℕ → Option ℕ → Option ℕ → Option ℕ → Option Pointer
first_pointer (some p) i u f d s = some (bool_ptr p)
first_pointer none (some p) u f d s = some (int_ptr p)
first_pointer none none (some p) f d s = some (uint_ptr p)
first_pointer none none none (some p) d s = some (float_ptr p)
first_pointer none none none none (some p) s = some (double_ptr p)
first_pointer none none none none none (some p) = some (string_ptr p)
first_pointer none none none none none none = none

module _ {F D : Type 0} where
  unfoldable pub find_pointer : List ℕ → ParseOptions F D → Option Pointer
  unfolding find first_pointer
  find_pointer key o =
      first_pointer (find key o.bool_map) (find key o.int_map) (find key o.uint_map)
        (find key o.float_map) (find key o.double_map) (find key o.string_map)

module _ {F D : Type 0} (lib : Library F D) where
  -- ToBool
  unfoldable pub to_bool : List ℕ → Run Bool
  unfolding same_text to_lower
  to_bool str =
      let s = map to_lower str in
      if same_text s (codes "true")
        || same_text s (codes "t")
        || same_text s (codes "1")
        || is_empty s
      then done true
      else if same_text s (codes "false") || same_text s (codes "f") || same_text s (codes "0")
      then done false
      else after_error lib.goes_on false

  -- ToInt
  unfoldable pub to_int : List ℕ → Run ℤ
  unfolding narrow_int
  to_int str = elim (lib.strtol str) [
    | some n ↦ done (narrow_int n)
    | none ↦ after_error lib.goes_on (pos 0)
  ]

  -- ToUInt
  unfoldable pub to_uint : List ℕ → Run ℕ
  unfolding narrow_uint
  to_uint str = elim (lib.strtoul str) [
    | some n ↦ done (narrow_uint n)
    | none ↦ after_error lib.goes_on 0
  ]

  -- ToDouble
  unfoldable pub to_double : List ℕ → Run D
  to_double str = elim (lib.strtod str) [
    | some x ↦ done x
    | none ↦ after_error lib.goes_on lib.zero_double
  ]

  -- ToFloat
  unfoldable pub to_float : List ℕ → Run F
  to_float str = elim (lib.strtod str) [
    | some x ↦ done (lib.to_float x)
    | none ↦ after_error lib.goes_on (lib.to_float lib.zero_double)
  ]

  -- What SetOption does for a key that a map has.
  unfoldable pub assign : List ℕ → Bool → Pointer → Variables F D → Run (Variables F D)
  unfolding to_bool to_int to_uint to_double to_float
  assign value has_equal_sign (bool_ptr p) v = do
    _ ← (if has_equal_sign && is_empty value then after_error lib.goes_on true else done true)
    b ← to_bool value
    done (record v { bools = update v.bools p b })
  assign value has_equal_sign (int_ptr p) v = do
    n ← to_int value
    done (record v { ints = update v.ints p n })
  assign value has_equal_sign (uint_ptr p) v = do
    n ← to_uint value
    done (record v { uints = update v.uints p n })
  assign value has_equal_sign (float_ptr p) v = do
    x ← to_float value
    done (record v { floats = update v.floats p x })
  assign value has_equal_sign (double_ptr p) v = do
    x ← to_double value
    done (record v { doubles = update v.doubles p x })
  assign value has_equal_sign (string_ptr p) v = do
    _ ← (if not has_equal_sign then after_error lib.goes_on true else done true)
    done (record v { strings = update v.strings p value })

  -- SetOption
  unfoldable pub set_option :
      List ℕ → List ℕ → Bool → ParseOptions F D → Run (Bool × ParseOptions F D)
  unfolding find_pointer assign
  set_option key value has_equal_sign o = elim (find_pointer key o) [
    | none ↦ done (false, o)
    | some ptr ↦ assign value has_equal_sign ptr o.vars >>= λ v. done (true, record o { vars = v })
  ]
