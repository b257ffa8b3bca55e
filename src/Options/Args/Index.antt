-- ===== src/Options/Args/Index.antt =====
-- src/lib/parse-options.cc, GetArg, and GetOptArg of src/include/dcd/parse-options.h: which indexes they take.
use opendcd.Prelude.{
  ℕ, zero, suc, ◌≤◌, ◌≡◌, refl, Bool, true, false, none, some, Option-cases, List, [], ◌∷◌, length,
  get_elem?, get_elem?_bound, leb, ltb, ◌||◌, ℤ, pos, negsuc, arith, ◌⊎◌, inl, inr,
}
use opendcd.Options.{ParseOptions}
use opendcd.Options.Run.{Run, done, fatal, out_of_bounds}
use opendcd.Options.Args.{is_invalid, arg_before, get_arg, get_opt_arg, num_args}

-- An index is 1 more than a place in the list.
abbrev pub IsIndex : ℤ → ℕ → Type 0
IsIndex (pos n) size = (1 ≤ n) × (n ≤ size)
IsIndex (negsuc n) size = ⊥

get_elem-none : {A : Type 0} (xs : List A) (i : ℕ) → get_elem? xs i ≡ none → length xs ≤ i
get_elem-none [] i h = omega arith
get_elem-none (x ∷ xs) zero h = cc
get_elem-none (x ∷ xs) (suc i) h = omega (arith, get_elem-none xs i h)

-- How a call with a bad index ends
abbrev pub IsRefused : Bool → Run (List ℕ) → Type 0
IsRefused true run = run ≡ out_of_bounds
IsRefused false run = run ≡ fatal

module _ {F D : Type 0} where
  get_arg-some :
      (goes_on : Bool) (n : ℕ) (a : List ℕ) (o : ParseOptions F D)
      → get_elem? o.positional_args n ≡ some a
      → get_arg goes_on (pos (suc n)) o ≡ done a
  unfolding get_arg is_invalid arg_before num_args
  get_arg-some goes_on n a o q =
      let b = get_elem?_bound o.positional_args n a q in
      let valid : (ltb (suc n) 1 || ltb (length o.positional_args) (suc n)) ≡ false =
        ground arith in
      rw (valid, arg_before, q) refl

  get_arg-invalid :
      (goes_on : Bool) (i : ℤ) (o : ParseOptions F D)
      → is_invalid i (num_args o) ≡ true
      → arg_before i o.positional_args ≡ out_of_bounds
      → IsRefused goes_on (get_arg goes_on i o)
  unfolding get_arg
  get_arg-invalid true i o q h = rw (q, h) refl
  get_arg-invalid false i o q h = rw q refl

  -- GetArg with an index from 1 to NumArgs returns that positional argument. With another index it ends
  -- the program, or reads out of bounds if LOG(ERROR) returns.
  pub get_arg-IsIndex :
      (goes_on : Bool) (i : ℤ) (o : ParseOptions F D)
      → ((n : ℕ) × (a : List ℕ) × (i ≡ pos (suc n))
          × IsIndex i (num_args o)
          × (get_elem? o.positional_args n ≡ some a)
          × (get_arg goes_on i o ≡ done a))
        ⊎ ((¬ IsIndex i (num_args o)) × IsRefused goes_on (get_arg goes_on i o))
  unfolding is_invalid arg_before num_args
  get_arg-IsIndex goes_on (negsuc i) o =
      inr (λ h. h, get_arg-invalid goes_on (negsuc i) o refl refl)
  get_arg-IsIndex goes_on (pos zero) o =
      inr (λ h. omega (arith, h.0), get_arg-invalid goes_on (pos zero) o refl refl)
  get_arg-IsIndex goes_on (pos (suc n)) o = elim (Option-cases (get_elem? o.positional_args n)) [
    | inr (a, q) ↦
        let b = get_elem?_bound o.positional_args n a q in
        inl (n, a, refl, (omega arith, omega arith), q, get_arg-some goes_on n a o q)
    | inl q ↦
        let b = get_elem-none o.positional_args n q in
        inr (
          λ h. omega (arith, h.1),
          get_arg-invalid goes_on (pos (suc n)) o (ground arith) (rw (arg_before, q) refl),
        )
  ]

  -- GetOptArg with an index of at least 1 returns that positional argument, or an empty string if
  -- there is none.
  pub get_opt_arg_lem :
      (goes_on : Bool) (n : ℕ) (o : ParseOptions F D)
      → ((a : List ℕ) × (get_elem? o.positional_args n ≡ some a)
          × (get_opt_arg goes_on (pos (suc n)) o ≡ done a))
        ⊎ ((get_elem? o.positional_args n ≡ none) × (get_opt_arg goes_on (pos (suc n)) o ≡ done []))
  unfolding get_opt_arg num_args
  get_opt_arg_lem goes_on n o = elim (Option-cases (get_elem? o.positional_args n)) [
    | inr (a, q) ↦
        let b = get_elem?_bound o.positional_args n a q in
        let within : leb (suc n) (length o.positional_args) ≡ true = ground arith in
        inl (a, q, rw within (get_arg-some goes_on n a o q))
    | inl q ↦
        let b = get_elem-none o.positional_args n q in
        let beyond : leb (suc n) (length o.positional_args) ≡ false = ground arith in
        inr (q, rw beyond refl)
  ]
