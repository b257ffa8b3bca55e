-- ===== src/Options/Assign/Find.antt =====
-- src/lib/parse-options.cc: the option that a key finds after Register.
use opendcd.Prelude.{
  ℕ, ◌≡◌, ◌≢◌, refl, Bool, true, false, Option, none, some, List, [], ◌∷◌, ◌++◌, map, arith, ==_iff,
  ◌↔◌, if◌then◌else◌,
}
use opendcd.Options.{ParseOptions, find, put, same_text}
use opendcd.Options.Run.{Run, done}
use opendcd.Options.Register.{
  Pointer, bool_ptr, int_ptr, uint_ptr, float_ptr, double_ptr, string_ptr, Format, put_pointer,
  register, register_common, register_specific, normalize_arg_name, normalize_char,
}
use opendcd.Options.Assign.{find_pointer, first_pointer}

pub same_text_iff : (s t : List ℕ) → (same_text s t ≡ true) ↔ (s ≡ t)
unfolding same_text
same_text_iff [] [] = (λ e. refl, λ e. refl)
same_text_iff [] (d ∷ t) = (λ e. cc, λ e. cc)
same_text_iff (c ∷ s) [] = (λ e. cc, λ e. cc)
same_text_iff (c ∷ s) (d ∷ t) = ground (arith, ==_iff c d, same_text_iff s t)

pub same_text_self : (s : List ℕ) → same_text s s ≡ true
same_text_self s = (same_text_iff s s).1 refl

pub same_text_ne : (s t : List ℕ) → s ≢ t → same_text s t ≡ false
same_text_ne s t n = ground (arith, same_text_iff s t)

pub find-put :
    {V : Type 0} (k j : List ℕ) (v : V) (m : List (List ℕ × V))
    → find j (put k v m) ≡ (if same_text k j then some v else find j m)
unfolding find put
find-put k j v [] = refl
find-put k j v ((i, w) ∷ m) =
    ground (arith, same_text_iff k j, same_text_iff i k, same_text_iff i j, find-put k j v m)

-- Whether two variables are of one type
unfoldable pub same_type : Pointer → Pointer → Bool
same_type (bool_ptr p) (bool_ptr q) = true
same_type (int_ptr p) (int_ptr q) = true
same_type (uint_ptr p) (uint_ptr q) = true
same_type (float_ptr p) (float_ptr q) = true
same_type (double_ptr p) (double_ptr q) = true
same_type (string_ptr p) (string_ptr q) = true
same_type p q = false

-- The maps that SetOption asks before that of a type have no such key.
abbrev IsFirst : Pointer → Option ℕ → Option ℕ → Option ℕ → Option ℕ → Option ℕ → Type 0
IsFirst (bool_ptr p) b i u f d = Unit
IsFirst (int_ptr p) b i u f d = b ≡ none
IsFirst (uint_ptr p) b i u f d = (b ≡ none) × (i ≡ none)
IsFirst (float_ptr p) b i u f d = (b ≡ none) × (i ≡ none) × (u ≡ none)
IsFirst (double_ptr p) b i u f d = (b ≡ none) × (i ≡ none) × (u ≡ none) × (f ≡ none)
IsFirst (string_ptr p) b i u f d = (b ≡ none) × (i ≡ none) × (u ≡ none) × (f ≡ none) × (d ≡ none)

-- Whether a key is free, or that of a variable of the same type
unfoldable pub is_open : Pointer → Option Pointer → Bool
unfolding same_type
is_open ptr none = true
is_open ptr (some q) = same_type q ptr

first_pointer-IsFirst :
    (ptr : Pointer) (b i u f d g : Option ℕ)
    → is_open ptr (first_pointer b i u f d g) ≡ true
    → IsFirst ptr b i u f d
unfolding first_pointer is_open
first_pointer-IsFirst (bool_ptr p) b i u f d g e = tt
first_pointer-IsFirst (int_ptr p) (some q) i u f d g e = cc
first_pointer-IsFirst (int_ptr p) none i u f d g e = refl
first_pointer-IsFirst (uint_ptr p) (some q) i u f d g e = cc
first_pointer-IsFirst (uint_ptr p) none (some q) u f d g e = cc
first_pointer-IsFirst (uint_ptr p) none none u f d g e = (refl, refl)
first_pointer-IsFirst (float_ptr p) (some q) i u f d g e = cc
first_pointer-IsFirst (float_ptr p) none (some q) u f d g e = cc
first_pointer-IsFirst (float_ptr p) none none (some q) f d g e = cc
first_pointer-IsFirst (float_ptr p) none none none f d g e = (refl, refl, refl)
first_pointer-IsFirst (double_ptr p) (some q) i u f d g e = cc
first_pointer-IsFirst (double_ptr p) none (some q) u f d g e = cc
first_pointer-IsFirst (double_ptr p) none none (some q) f d g e = cc
first_pointer-IsFirst (double_ptr p) none none none (some q) d g e = cc
first_pointer-IsFirst (double_ptr p) none none none none d g e = (refl, refl, refl, refl)
first_pointer-IsFirst (string_ptr p) (some q) i u f d g e = cc
first_pointer-IsFirst (string_ptr p) none (some q) u f d g e = cc
first_pointer-IsFirst (string_ptr p) none none (some q) f d g e = cc
first_pointer-IsFirst (string_ptr p) none none none (some q) d g e = cc
first_pointer-IsFirst (string_ptr p) none none none none (some q) g e = cc
first_pointer-IsFirst (string_ptr p) none none none none none g e = (refl, refl, refl, refl, refl)

module _ {F D : Type 0} where
  -- Another key finds what it found before.
  find_pointer-other :
      (idx k : List ℕ) (ptr : Pointer) (o : ParseOptions F D)
      → idx ≢ k
      → find_pointer k (put_pointer idx ptr o) ≡ find_pointer k o
  unfolding find_pointer put_pointer
  find_pointer-other idx k (bool_ptr p) o n = rw (find-put, same_text_ne idx k n) refl
  find_pointer-other idx k (int_ptr p) o n = rw (find-put, same_text_ne idx k n) refl
  find_pointer-other idx k (uint_ptr p) o n = rw (find-put, same_text_ne idx k n) refl
  find_pointer-other idx k (float_ptr p) o n = rw (find-put, same_text_ne idx k n) refl
  find_pointer-other idx k (double_ptr p) o n = rw (find-put, same_text_ne idx k n) refl
  find_pointer-other idx k (string_ptr p) o n = rw (find-put, same_text_ne idx k n) refl

  find_pointer-new :
      (idx : List ℕ) (ptr : Pointer) (o : ParseOptions F D)
      → is_open ptr (find_pointer idx o) ≡ true
      → find_pointer idx (put_pointer idx ptr o) ≡ some ptr
  unfolding find_pointer put_pointer
  find_pointer-new idx (bool_ptr p) o h = rw (find-put, same_text_self idx) refl
  find_pointer-new idx (int_ptr p) o h =
      let b = first_pointer-IsFirst (int_ptr p) _ _ _ _ _ _ h in
      rw (find-put, same_text_self idx, b) refl
  find_pointer-new idx (uint_ptr p) o h =
      let (b, i) = first_pointer-IsFirst (uint_ptr p) _ _ _ _ _ _ h in
      rw (find-put, same_text_self idx, b, i) refl
  find_pointer-new idx (float_ptr p) o h =
      let (b, i, u) = first_pointer-IsFirst (float_ptr p) _ _ _ _ _ _ h in
      rw (find-put, same_text_self idx, b, i, u) refl
  find_pointer-new idx (double_ptr p) o h =
      let (b, i, u, f) = first_pointer-IsFirst (double_ptr p) _ _ _ _ _ _ h in
      rw (find-put, same_text_self idx, b, i, u, f) refl
  find_pointer-new idx (string_ptr p) o h =
      let (b, i, u, f, d) = first_pointer-IsFirst (string_ptr p) _ _ _ _ _ _ h in
      rw (find-put, same_text_self idx, b, i, u, f, d) refl

-- The key under which an option is kept
abbrev pub option_key : Option (List ℕ) → List ℕ → List ℕ
option_key none name = map normalize_char name
option_key (some prefix) name = map normalize_char (prefix ++ b'.' ∷ name)

normalize_arg_name-done :
    (s : List ℕ) (c : ℕ) (t : List ℕ)
    → normalize_arg_name (s ++ c ∷ t) ≡ done (map normalize_char (s ++ c ∷ t))
unfolding normalize_arg_name
normalize_arg_name-done [] c t = refl
normalize_arg_name-done (d ∷ s) c t = refl

module _ {F D : Type 0} where
  -- What Register leaves: the key finds the variable, the others what they found, and the variables
  -- are as they were.
  abbrev pub IsRegistered : List ℕ → Pointer → ParseOptions F D → Run (ParseOptions F D) → Type 0
  IsRegistered idx ptr o run =
      (o' : ParseOptions F D) × (run ≡ done o')
      × (find_pointer idx o' ≡ some ptr)
      × ((k : List ℕ) → idx ≢ k → find_pointer k o' ≡ find_pointer k o)
      × (o'.vars ≡ o.vars)

module _ {F D : Type 0} (format : Format F D) where
  register_specific-keeps :
      (name idx : List ℕ) (ptr : Pointer) (doc : List ℕ) (b : Bool) (o : ParseOptions F D)
      → (register_specific format name idx ptr doc b o).vars ≡ o.vars
  unfolding register_specific put_pointer
  register_specific-keeps name idx (bool_ptr p) doc b o = refl
  register_specific-keeps name idx (int_ptr p) doc b o = refl
  register_specific-keeps name idx (uint_ptr p) doc b o = refl
  register_specific-keeps name idx (float_ptr p) doc b o = refl
  register_specific-keeps name idx (double_ptr p) doc b o = refl
  register_specific-keeps name idx (string_ptr p) doc b o = refl

  register_common-IsRegistered :
      (s : List ℕ) (c : ℕ) (t : List ℕ) (ptr : Pointer) (doc : List ℕ) (b : Bool)
      (o : ParseOptions F D)
      → is_open ptr (find_pointer (map normalize_char (s ++ c ∷ t)) o) ≡ true
      → IsRegistered
          (map normalize_char (s ++ c ∷ t))
          ptr
          o
          (register_common format (s ++ c ∷ t) ptr doc b o)
  unfolding register_common register_specific find_pointer
  register_common-IsRegistered s c t ptr doc b o h =
      let idx = map normalize_char (s ++ c ∷ t) in
      rw normalize_arg_name-done (
        register_specific format (s ++ c ∷ t) idx ptr doc b o,
        refl,
        find_pointer-new idx ptr o h,
        λ k n. find_pointer-other idx k ptr o n,
        register_specific-keeps (s ++ c ∷ t) idx ptr doc b o,
      )

  -- Register of an option whose name is not empty succeeds, when its key, the normalized name with
  -- the prefix in front, is not registered or is registered for a variable of the same type: the
  -- key then finds the new variable, the other keys what they found, and no variable changes.
  pub register-IsRegistered :
      (prefix : Option (List ℕ)) (c : ℕ) (name : List ℕ) (ptr : Pointer) (doc : List ℕ)
      (o : ParseOptions F D)
      → is_open ptr (find_pointer (option_key prefix (c ∷ name)) o) ≡ true
      → IsRegistered
          (option_key prefix (c ∷ name))
          ptr
          o
          (register format prefix (c ∷ name) ptr doc o)
  unfolding register
  register-IsRegistered none c name ptr doc o h =
      register_common-IsRegistered [] c name ptr doc false o h
  register-IsRegistered (some prefix) c name ptr doc o h =
      register_common-IsRegistered prefix b'.' (c ∷ name) ptr doc false o h
