-- ===== src/Options/Assign/Found.antt =====
-- src/lib/parse-options.cc, SetOption: which variable a key leads to.
use opendcd.Prelude.{ℕ, ◌≡◌, refl, subst, Option, none, some, List}
use opendcd.Options.{ParseOptions, find}
use opendcd.Options.Register.{
  Pointer, bool_ptr, int_ptr, uint_ptr, float_ptr, double_ptr, string_ptr,
}
use opendcd.Options.Assign.{first_pointer, find_pointer}

-- The finds in the six maps, of which the pointer's is the first that is there.
abbrev pub IsFirst :
    Option ℕ → Option ℕ → Option ℕ → Option ℕ → Option ℕ → Option ℕ → Pointer → Type 0
IsFirst b i u f d s (bool_ptr p) = b ≡ some p
IsFirst b i u f d s (int_ptr p) = (b ≡ none) × (i ≡ some p)
IsFirst b i u f d s (uint_ptr p) = (b ≡ none) × (i ≡ none) × (u ≡ some p)
IsFirst b i u f d s (float_ptr p) = (b ≡ none) × (i ≡ none) × (u ≡ none) × (f ≡ some p)
IsFirst b i u f d s (double_ptr p) =
    (b ≡ none) × (i ≡ none) × (u ≡ none) × (f ≡ none) × (d ≡ some p)
IsFirst b i u f d s (string_ptr p) =
    (b ≡ none) × (i ≡ none) × (u ≡ none) × (f ≡ none) × (d ≡ none) × (s ≡ some p)

some_pointer : (p q : Pointer) → some p ≡ some q → p ≡ q
some_pointer p q e = cc

first_pointer-IsFirst :
    (b i u f d s : Option ℕ) (ptr : Pointer)
    → first_pointer b i u f d s ≡ some ptr
    → IsFirst b i u f d s ptr
unfolding first_pointer
first_pointer-IsFirst (some p) i u f d s ptr e =
    subst (IsFirst (some p) i u f d s) (some_pointer (bool_ptr p) ptr e) refl
first_pointer-IsFirst none (some p) u f d s ptr e =
    subst (IsFirst none (some p) u f d s) (some_pointer (int_ptr p) ptr e) (refl, refl)
first_pointer-IsFirst none none (some p) f d s ptr e =
    subst (IsFirst none none (some p) f d s) (some_pointer (uint_ptr p) ptr e) (refl, refl, refl)
first_pointer-IsFirst none none none (some p) d s ptr e =
    subst (IsFirst none none none (some p) d s) (some_pointer (float_ptr p) ptr e)
      (refl, refl, refl, refl)
first_pointer-IsFirst none none none none (some p) s ptr e =
    subst (IsFirst none none none none (some p) s) (some_pointer (double_ptr p) ptr e)
      (refl, refl, refl, refl, refl)
first_pointer-IsFirst none none none none none (some p) ptr e =
    subst (IsFirst none none none none none (some p)) (some_pointer (string_ptr p) ptr e)
      (refl, refl, refl, refl, refl, refl)
first_pointer-IsFirst none none none none none none ptr e = cc

first_pointer-none :
    (b i u f d s : Option ℕ)
    → first_pointer b i u f d s ≡ none
    → (b ≡ none) × (i ≡ none) × (u ≡ none) × (f ≡ none) × (d ≡ none) × (s ≡ none)
unfolding first_pointer
first_pointer-none (some p) i u f d s e = cc
first_pointer-none none (some p) u f d s e = cc
first_pointer-none none none (some p) f d s e = cc
first_pointer-none none none none (some p) d s e = cc
first_pointer-none none none none none (some p) s e = cc
first_pointer-none none none none none none (some p) e = cc
first_pointer-none none none none none none none e = (refl, refl, refl, refl, refl, refl)

module _ {F D : Type 0} where
  -- The first of the maps that has the key has it for the pointer.
  abbrev pub IsFound : List ℕ → ParseOptions F D → Pointer → Type 0
  IsFound key o =
      IsFirst (find key o.bool_map) (find key o.int_map) (find key o.uint_map)
        (find key o.float_map) (find key o.double_map) (find key o.string_map)

  -- No map has the key.
  abbrev pub IsUnknown : List ℕ → ParseOptions F D → Type 0
  IsUnknown key o =
      (find key o.bool_map ≡ none)
      × (find key o.int_map ≡ none)
      × (find key o.uint_map ≡ none)
      × (find key o.float_map ≡ none)
      × (find key o.double_map ≡ none)
      × (find key o.string_map ≡ none)

  pub find_pointer-IsFound :
      (key : List ℕ) (o : ParseOptions F D) (ptr : Pointer)
      → find_pointer key o ≡ some ptr
      → IsFound key o ptr
  unfolding find_pointer
  find_pointer-IsFound key o ptr e = first_pointer-IsFirst _ _ _ _ _ _ ptr e

  pub find_pointer-IsUnknown :
      (key : List ℕ) (o : ParseOptions F D) → find_pointer key o ≡ none → IsUnknown key o
  unfolding find_pointer
  find_pointer-IsUnknown key o e = first_pointer-none _ _ _ _ _ _ e
