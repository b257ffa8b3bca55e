-- ===== src/Options/Args/Set.antt =====
-- src/lib/parse-options.cc, Read: from an option on the command line to its variable.
use opendcd.Prelude.{
  ℕ, suc, ◌+◌, ◌≡◌, refl, sym, ap, ◌∙◌, Bool, true, false, Option, some, List, [], ◌∷◌, ◌++◌,
  append-nil, append_assoc, length, All, map, update, arith,
}
use opendcd.Text.{codes, trim}
use opendcd.Options.{ParseOptions, same_text}
use opendcd.Options.Run.{done}
use opendcd.Options.Register.{string_ptr, normalize_char, normalize_arg_name}
use opendcd.Options.Assign.{Library, assign, find_pointer, set_option}
use opendcd.Options.Args.{
  parse_arg, starts_with_dashes, is_dashes, push_positional, first_pass, second_pass, read_args,
  read,
}
use opendcd.Options.Args.Operands.{is_dashes-starts}
use opendcd.Options.Args.Split.{IsKey, written, value_text, has_value, split_long_arg-written}

-- The arguments are not options.
abbrev pub IsPlain : List (List ℕ) → Type 0
IsPlain args = All (λ a. starts_with_dashes a ≡ false) args

parse_arg-written :
    (goes_on unset : Bool) (c : ℕ) (name : List ℕ) (value : Option (List ℕ)) (k v : List ℕ)
    → IsKey (c ∷ name)
    → parse_arg goes_on unset (written (c ∷ name) value) k v
      ≡ done (map normalize_char (c ∷ name), trim (value_text value), has_value value)
unfolding parse_arg normalize_arg_name
parse_arg-written goes_on unset c name value k v h =
    rw (split_long_arg-written goes_on unset c name value k v h) refl

pair-eq : {A B : Type 0} {a a' : A} {b b' : B} → a ≡ a' → b ≡ b' → ◌≡◌ {A = A × B} (a, b) (a', b')
pair-eq p q i = (p i, q i)

plain-is_dashes : (a : List ℕ) → starts_with_dashes a ≡ false → is_dashes a ≡ false
plain-is_dashes a h = ground (arith, is_dashes-starts a)

module _ {F D : Type 0} where
  abbrev pub set_positional : ParseOptions F D → List (List ℕ) → ParseOptions F D
  set_positional o args = record o { positional_args = args }

  abbrev with_string : ParseOptions F D → ℕ → List ℕ → ParseOptions F D
  with_string o p value = record o {
    vars = record o.vars { strings = update o.vars.strings p value };
  }

  push_positional_plain :
      (i : ℕ) (args : List (List ℕ)) (o : ParseOptions F D)
      → IsPlain args
      → push_positional i false args o
        ≡ (i + length args, set_positional o (o.positional_args ++ args))
  unfolding push_positional
  push_positional_plain i [] o h =
      pair-eq (omega arith) (ap (set_positional o) (sym (append-nil _)))
  push_positional_plain i (a ∷ args) o h =
      let rest =
        push_positional_plain (suc i) args (set_positional o (o.positional_args ++ a ∷ [])) h.1 in
      let assoc = append_assoc o.positional_args (a ∷ []) args in
      rw (plain-is_dashes a h.0) (rest ∙ pair-eq (omega arith) (ap (set_positional o) assoc))

  module _ (lib : Library F D) (unset : Bool) (files : List ℕ → Option (List (List ℕ))) where
    set_option_string :
        (key value : List ℕ) (p : ℕ) (o : ParseOptions F D)
        → find_pointer key o ≡ some (string_ptr p)
        → set_option lib key value true o ≡ done (true, with_string o p value)
    unfolding set_option assign
    set_option_string key value p o h = rw (h, set_option) refl

    first_pass_plain :
        (args : List (List ℕ)) (k v : List ℕ) (o : ParseOptions F D)
        → IsPlain args
        → first_pass lib unset files args k v o ≡ done (k, v, o)
    unfolding first_pass
    first_pass_plain [] k v o h = refl
    first_pass_plain (a ∷ args) k v o h = rw (h.0) (first_pass_plain args k v o h.1)

    second_pass_plain :
        (i : ℕ) (args : List (List ℕ)) (k v : List ℕ) (o : ParseOptions F D)
        → IsPlain args
        → second_pass lib unset files i args k v o ≡ done (i, false, args, o)
    unfolding second_pass
    second_pass_plain i [] k v o h = refl
    second_pass_plain i (a ∷ args) k v o h = rw (h.0) refl

    first_pass_option :
        (c : ℕ) (name value : List ℕ) (args : List (List ℕ)) (o : ParseOptions F D)
        → IsKey (c ∷ name)
        → same_text (map normalize_char (c ∷ name)) (codes "config") ≡ false
        → same_text (map normalize_char (c ∷ name)) (codes "help") ≡ false
        → IsPlain args
        → first_pass lib unset files (written (c ∷ name) (some value) ∷ args) [] [] o
          ≡ done (map normalize_char (c ∷ name), trim value, o)
    unfolding first_pass starts_with_dashes is_dashes
    first_pass_option c name value args o k config help plain =
        rw (parse_arg-written lib.goes_on unset c name (some value) [] [] k, config, help)
          (first_pass_plain args _ _ o plain)

    second_pass_option :
        (c : ℕ) (name value : List ℕ) (args : List (List ℕ)) (p : ℕ) (k' v' : List ℕ)
        (o : ParseOptions F D)
        → IsKey (c ∷ name)
        → find_pointer (map normalize_char (c ∷ name)) o ≡ some (string_ptr p)
        → IsPlain args
        → second_pass lib unset files 1 (written (c ∷ name) (some value) ∷ args) k' v' o
          ≡ done (2, false, args, with_string o p (trim value))
    unfolding second_pass starts_with_dashes is_dashes
    second_pass_option c name value args p k' v' o k found plain =
        rw
          (
            parse_arg-written lib.goes_on unset c name (some value) k' v' k,
            set_option_string (map normalize_char (c ∷ name)) (trim value) p o found,
          )
          (second_pass_plain 2 args _ _ (with_string o p (trim value)) plain)

    -- Read of one option, --name=value, and arguments that are no options ends, with the number of
    -- arguments: the string variable that is registered under the normalized name has the trimmed
    -- value, the arguments are positional, and all else is as it was. The name is not empty, has
    -- no '=' in it, and is neither config nor help.
    pub read-sets :
        (program : List ℕ) (c : ℕ) (name value : List ℕ) (args : List (List ℕ)) (p : ℕ)
        (o : ParseOptions F D)
        → IsKey (c ∷ name)
        → same_text (map normalize_char (c ∷ name)) (codes "config") ≡ false
        → same_text (map normalize_char (c ∷ name)) (codes "help") ≡ false
        → find_pointer (map normalize_char (c ∷ name)) o ≡ some (string_ptr p)
        → IsPlain args
        → read lib unset files (program ∷ written (c ∷ name) (some value) ∷ args) o
          ≡ done (
            2 + length args,
            record o {
              vars = record o.vars { strings = update o.vars.strings p (trim value) };
              positional_args = o.positional_args ++ args;
            },
          )
    unfolding read read_args
    read-sets program c name value args p o k config help found plain =
        let o' = with_string o p (trim value) in
        rw
          (
            first_pass_option c name value args o k config help plain,
            second_pass_option c name value args p (map normalize_char (c ∷ name)) (trim value) o k
                found plain,
            push_positional_plain 2 args o' plain,
          )
          refl
