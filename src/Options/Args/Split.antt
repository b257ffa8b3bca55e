-- ===== src/Options/Args/Split.antt =====
-- src/lib/parse-options.cc, SplitLongArg: an option as it is written and as it is read.
use opendcd.Prelude.{
  ℕ, suc, ◌≡◌, refl, ap, ◌∙◌, Bool, true, false, Option, none, some, List, [], ◌∷◌, ◌++◌, length,
  ltb, ◌==◌, arith, All,
}
use opendcd.Text.{find_first_of, is_one_of}
use opendcd.Options.Run.{done}
use opendcd.Options.Args.{from_second, split_at_equals, split_long_arg}

-- The characters of a key: those but '='.
abbrev pub IsKey : List ℕ → Type 0
IsKey name = All (λ c. (c == b'=') ≡ false) name

-- How an option is written
abbrev pub written : List ℕ → Option (List ℕ) → List ℕ
written name none = b'-' ∷ b'-' ∷ name
written name (some value) = b'-' ∷ b'-' ∷ name ++ b'=' ∷ value

abbrev pub value_text : Option (List ℕ) → List ℕ
value_text none = []
value_text (some value) = value

abbrev pub has_value : Option (List ℕ) → Bool
has_value none = false
has_value (some value) = true

find_equals-none : (name : List ℕ) → IsKey name → find_first_of (b'=' ∷ []) name ≡ (name, none)
unfolding find_first_of is_one_of
find_equals-none [] h = refl
find_equals-none (c ∷ s) h = rw (h.0, find_equals-none s h.1) refl

find_equals-some :
    (name value : List ℕ)
    → IsKey name
    → find_first_of (b'=' ∷ []) (name ++ b'=' ∷ value) ≡ (name, some value)
unfolding find_first_of is_one_of
find_equals-some [] value h = refl
find_equals-some (c ∷ s) value h = rw (h.0, find_equals-some s value h.1) refl

split_at_equals_far :
    (goes_on unset : Bool) (arg k v : List ℕ) (c : ℕ) (name value : List ℕ)
    → split_at_equals goes_on unset arg k v (b'-' ∷ b'-' ∷ c ∷ name, some value)
      ≡ done (c ∷ name, value, true)
unfolding split_at_equals from_second
split_at_equals_far goes_on unset arg k v c name value =
    let far : (suc (suc (suc (length name))) == 2) ≡ false = ground arith in
    let ahead : ltb (suc (suc (suc (length name)))) 2 ≡ false = ground arith in rw (far, ahead) refl

-- SplitLongArg of an option as it is written, --name or --name=value, whose name has no '=' and is not
-- empty, returns the name, the value or an empty one, and whether there is a value; what key and value
-- were before does not matter.
pub split_long_arg-written :
    (goes_on unset : Bool) (c : ℕ) (name : List ℕ) (value : Option (List ℕ)) (k v : List ℕ)
    → IsKey (c ∷ name)
    → split_long_arg goes_on unset (written (c ∷ name) value) k v
      ≡ done (c ∷ name, value_text value, has_value value)
unfolding split_long_arg split_at_equals from_second
split_long_arg-written goes_on unset c name none k v h =
    let arg = b'-' ∷ b'-' ∷ c ∷ name in
    ap (λ found. split_at_equals goes_on unset arg k v found)
      (find_equals-none arg (refl, (refl, h)))
split_long_arg-written goes_on unset c name (some value) k v h =
    let key = b'-' ∷ b'-' ∷ c ∷ name in
    ap (λ found. split_at_equals goes_on unset (key ++ b'=' ∷ value) k v found)
      (find_equals-some key value (refl, (refl, h)))
    ∙ split_at_equals_far goes_on unset (key ++ b'=' ∷ value) k v c name value
