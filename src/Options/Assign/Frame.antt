-- ===== src/Options/Assign/Frame.antt =====
-- src/lib/parse-options.cc, SetOption: what it returns and what it leaves alone.
use opendcd.Prelude.{
  ℕ, ◌≡◌, ◌≢◌, refl, sym, ap, Bool, true, false, Option-cases, List, ℤ, update, update_same,
  update_other, ◌∙◌, not, ◌&&◌, ◌⊎◌, inl, inr, if◌then◌else◌,
}
use opendcd.Text.{is_empty}
use opendcd.Options.{ParseOptions, Variables}
use opendcd.Options.Run.{
  Run, done, exited, fatal, out_of_bounds, after_error, ◌>>=◌, done-eq, Ends, bind-keeps, Ends-done,
}
use opendcd.Options.Register.{
  Pointer, bool_ptr, int_ptr, uint_ptr, float_ptr, double_ptr, string_ptr,
}
use opendcd.Options.Assign.Found.{IsFound, IsUnknown, find_pointer-IsFound, find_pointer-IsUnknown}
use opendcd.Options.Assign.{
  Library, assign, find_pointer, set_option, to_bool, to_int, to_uint, to_float, to_double,
}

module _ {F D : Type 0} where
  -- The variables agree but for that of a pointer.
  abbrev pub IsSameBut : Pointer → Variables F D → Variables F D → Type 0
  IsSameBut ptr v w =
      ((p : ℕ) → bool_ptr p ≢ ptr → v.bools p ≡ w.bools p)
      × ((p : ℕ) → int_ptr p ≢ ptr → v.ints p ≡ w.ints p)
      × ((p : ℕ) → uint_ptr p ≢ ptr → v.uints p ≡ w.uints p)
      × ((p : ℕ) → float_ptr p ≢ ptr → v.floats p ≡ w.floats p)
      × ((p : ℕ) → double_ptr p ≢ ptr → v.doubles p ≡ w.doubles p)
      × ((p : ℕ) → string_ptr p ≢ ptr → v.strings p ≡ w.strings p)

module _ {F D : Type 0} where
  put_bool-IsSameBut :
      (v : Variables F D) (p : ℕ) (a : Bool)
      → IsSameBut (bool_ptr p) (record v { bools = update v.bools p a }) v
  put_bool-IsSameBut v p a = (
    λ q n. update_other v.bools p q a (λ e. n (ap bool_ptr e)),
    λ q n. refl,
    λ q n. refl,
    λ q n. refl,
    λ q n. refl,
    λ q n. refl,
  )

  put_int-IsSameBut :
      (v : Variables F D) (p : ℕ) (a : ℤ)
      → IsSameBut (int_ptr p) (record v { ints = update v.ints p a }) v
  put_int-IsSameBut v p a = (
    λ q n. refl,
    λ q n. update_other v.ints p q a (λ e. n (ap int_ptr e)),
    λ q n. refl,
    λ q n. refl,
    λ q n. refl,
    λ q n. refl,
  )

  put_uint-IsSameBut :
      (v : Variables F D) (p : ℕ) (a : ℕ)
      → IsSameBut (uint_ptr p) (record v { uints = update v.uints p a }) v
  put_uint-IsSameBut v p a = (
    λ q n. refl,
    λ q n. refl,
    λ q n. update_other v.uints p q a (λ e. n (ap uint_ptr e)),
    λ q n. refl,
    λ q n. refl,
    λ q n. refl,
  )

  put_float-IsSameBut :
      (v : Variables F D) (p : ℕ) (a : F)
      → IsSameBut (float_ptr p) (record v { floats = update v.floats p a }) v
  put_float-IsSameBut v p a = (
    λ q n. refl,
    λ q n. refl,
    λ q n. refl,
    λ q n. update_other v.floats p q a (λ e. n (ap float_ptr e)),
    λ q n. refl,
    λ q n. refl,
  )

  put_double-IsSameBut :
      (v : Variables F D) (p : ℕ) (a : D)
      → IsSameBut (double_ptr p) (record v { doubles = update v.doubles p a }) v
  put_double-IsSameBut v p a = (
    λ q n. refl,
    λ q n. refl,
    λ q n. refl,
    λ q n. refl,
    λ q n. update_other v.doubles p q a (λ e. n (ap double_ptr e)),
    λ q n. refl,
  )

  put_string-IsSameBut :
      (v : Variables F D) (p : ℕ) (a : List ℕ)
      → IsSameBut (string_ptr p) (record v { strings = update v.strings p a }) v
  put_string-IsSameBut v p a = (
    λ q n. refl,
    λ q n. refl,
    λ q n. refl,
    λ q n. refl,
    λ q n. refl,
    λ q n. update_other v.strings p q a (λ e. n (ap string_ptr e)),
  )

-- The first steps of SetOption that can end the program
guard-Ends :
    (goes_on c : Bool)
    → Ends (if c then after_error goes_on true else done true) (λ _. (goes_on ≡ true) ⊎ (c ≡ false))
guard-Ends goes_on false = inr refl
guard-Ends true true = inl refl
guard-Ends false true = tt

pub Ends-self : {A : Type 0} (m : Run A) → Ends m (λ a. m ≡ done a)
Ends-self (done a) = refl
Ends-self exited = tt
Ends-self fatal = tt
Ends-self out_of_bounds = tt

module _ {F D : Type 0} (lib : Library F D) where
  -- The variable of the pointer holds what the value is converted to.
  abbrev pub IsAssigned : List ℕ → Pointer → Variables F D → Type 0
  IsAssigned value (bool_ptr p) w = to_bool lib value ≡ done (w.bools p)
  IsAssigned value (int_ptr p) w = to_int lib value ≡ done (w.ints p)
  IsAssigned value (uint_ptr p) w = to_uint lib value ≡ done (w.uints p)
  IsAssigned value (float_ptr p) w = to_float lib value ≡ done (w.floats p)
  IsAssigned value (double_ptr p) w = to_double lib value ≡ done (w.doubles p)
  IsAssigned value (string_ptr p) w = value ≡ w.strings p

  -- A Boolean option is not given as --x=, nor a string option without a `=`, unless LOG(ERROR) returns.
  abbrev pub IsAllowed : List ℕ → Bool → Pointer → Type 0
  IsAllowed value b (bool_ptr p) = (lib.goes_on ≡ true) ⊎ ((b && is_empty value) ≡ false)
  IsAllowed value b (int_ptr p) = Unit
  IsAllowed value b (uint_ptr p) = Unit
  IsAllowed value b (float_ptr p) = Unit
  IsAllowed value b (double_ptr p) = Unit
  IsAllowed value b (string_ptr p) = (lib.goes_on ≡ true) ⊎ (not b ≡ false)

  -- What SetOption does to the variables
  abbrev pub IsStored : List ℕ → Bool → Pointer → Variables F D → Variables F D → Type 0
  IsStored value b ptr w v = IsAllowed value b ptr × IsAssigned value ptr w × IsSameBut ptr w v

  assign-Ends :
      (value : List ℕ) (b : Bool) (ptr : Pointer) (v : Variables F D)
      → Ends (assign lib value b ptr v) (λ w. IsStored value b ptr w v)
  unfolding assign
  assign-Ends value b (bool_ptr p) v =
      bind-keeps (if b && is_empty value then after_error lib.goes_on true else done true) _ _ _
        (guard-Ends lib.goes_on (b && is_empty value))
        λ _ g.
          bind-keeps (to_bool lib value) _ _ _ (Ends-self (to_bool lib value))
            λ x e. (g, e ∙ ap done (sym (update_same v.bools p x)), put_bool-IsSameBut v p x)
  assign-Ends value b (int_ptr p) v =
      bind-keeps (to_int lib value) _ _ _ (Ends-self (to_int lib value))
        λ x e. (tt, e ∙ ap done (sym (update_same v.ints p x)), put_int-IsSameBut v p x)
  assign-Ends value b (uint_ptr p) v =
      bind-keeps (to_uint lib value) _ _ _ (Ends-self (to_uint lib value))
        λ x e. (tt, e ∙ ap done (sym (update_same v.uints p x)), put_uint-IsSameBut v p x)
  assign-Ends value b (float_ptr p) v =
      bind-keeps (to_float lib value) _ _ _ (Ends-self (to_float lib value))
        λ x e. (tt, e ∙ ap done (sym (update_same v.floats p x)), put_float-IsSameBut v p x)
  assign-Ends value b (double_ptr p) v =
      bind-keeps (to_double lib value) _ _ _ (Ends-self (to_double lib value))
        λ x e. (tt, e ∙ ap done (sym (update_same v.doubles p x)), put_double-IsSameBut v p x)
  assign-Ends value b (string_ptr p) v =
      bind-keeps (if not b then after_error lib.goes_on true else done true) _ _ _
        (guard-Ends lib.goes_on (not b))
        λ _ g. (g, sym (update_same v.strings p value), put_string-IsSameBut v p value)

  -- SetOption, if it goes to its end, returns false only for a key that no map has, and then changes
  -- nothing. It returns true only if a map has the key; the variable of the first map that has it, in
  -- the order of the types Boolean, int32, uint32, float, double and string, then holds what the value
  -- is converted to, and no other changes. If LOG(ERROR) ends the program, a Boolean option was not given
  -- with a `=` and no value, nor a string option without a `=`.
  pub set_option-IsSameBut :
      (key value : List ℕ) (b r : Bool) (o o' : ParseOptions F D)
      → set_option lib key value b o ≡ done (r, o')
      → ((r ≡ false) × IsUnknown key o × (o' ≡ o))
        ⊎ ((ptr : Pointer) × (w : Variables F D) × (r ≡ true)
            × IsFound key o ptr
            × (o' ≡ record o { vars = w })
            × IsStored value b ptr w o.vars)
  unfolding set_option
  set_option-IsSameBut key value b r o o' e = elim (Option-cases (find_pointer key o)) [
    | inl no' ↦
        let e' = done-eq (false, o) (r, o') (rw (no', set_option) at e) in
        inl (sym (ap (λ x. x.0) e'), find_pointer-IsUnknown key o no', sym (ap (λ x. x.1) e'))
    | inr (ptr, q) ↦ inr (
        Ends-done (assign lib value b ptr o.vars >>= λ v. done (true, record o { vars = v }))
          (λ x.
            (p : Pointer) × (w : Variables F D) × (x.0 ≡ true)
            × IsFound key o p
            × (x.1 ≡ record o { vars = w })
            × IsStored value b p w o.vars)
          (r, o') (rw (q, set_option) at e)
          (bind-keeps (assign lib value b ptr o.vars) _ (λ w. IsStored value b ptr w o.vars) _
            (assign-Ends value b ptr o.vars)
            λ w h. (ptr, w, refl, find_pointer-IsFound key o ptr q, refl, h)))
  ]
