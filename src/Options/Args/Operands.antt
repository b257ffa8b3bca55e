-- ===== src/Options/Args/Operands.antt =====
-- src/lib/parse-options.cc, Read: which arguments are positional.
use opendcd.Prelude.{
  ℕ, suc, ◌+◌, ◌≡◌, refl, sym, ap, ◌∙◌, Bool, true, false, Bool-cases, Option, Option-cases, List,
  [], ◌∷◌, ◌++◌, append-nil, append_assoc, length, arith, inl, inr, if◌then◌else◌,
}
use opendcd.Text.{find_first_of, is_empty, trim, codes}
use opendcd.Options.{ParseOptions, same_text}
use opendcd.Options.Run.{Run, done, after_error, Ends, bind-Ends, bind-keeps, Ends-done}
use opendcd.Options.Assign.{Library, set_option, find_pointer, assign}
use opendcd.Options.Args.{
  parse_arg, starts_with_dashes, is_dashes, push_positional, read_config_lines, read_config_file,
  first_pass, second_pass, read_args, read,
}

-- The arguments without the first "--"
unfoldable pub drop_dashes : List (List ℕ) → List (List ℕ)
drop_dashes [] = []
drop_dashes (a ∷ args) = let rest = drop_dashes args in if is_dashes a then args else a ∷ rest

-- The arguments after the options that come first, without the first "--".
unfoldable pub operands : List (List ℕ) → List (List ℕ)
unfolding drop_dashes
operands [] = []
operands (a ∷ args) =
    let rest = operands args in
    if is_dashes a then args else if starts_with_dashes a then rest else drop_dashes (a ∷ args)

operands_nil : drop_dashes [] ≡ operands []
unfolding operands
operands_nil = refl

operands_end : (a : List ℕ) (args : List (List ℕ)) → is_dashes a ≡ true → operands (a ∷ args) ≡ args
unfolding operands
operands_end a args h = rw h refl

operands_option :
    (a : List ℕ) (args : List (List ℕ))
    → is_dashes a ≡ false
    → starts_with_dashes a ≡ true
    → operands (a ∷ args) ≡ operands args
unfolding operands
operands_option a args h k = rw (h, k) refl

-- "--" itself starts with dashes.
pub is_dashes-starts : (a : List ℕ) → is_dashes a ≡ true → starts_with_dashes a ≡ true
unfolding is_dashes starts_with_dashes same_text
is_dashes-starts [] h = cc
is_dashes-starts (c ∷ []) h = ground arith
is_dashes-starts (c ∷ d ∷ s) h = ground arith

operands_other :
    (a : List ℕ) (args : List (List ℕ))
    → starts_with_dashes a ≡ false
    → operands (a ∷ args) ≡ drop_dashes (a ∷ args)
unfolding operands
operands_other a args k = elim (Bool-cases (is_dashes a)) [
  | inl yes' ↦ absurd (ground (arith, is_dashes-starts a yes'))
  | inr no' ↦ rw (no', k) refl
]

abbrev operands_after : Bool → List (List ℕ) → List (List ℕ)
operands_after true args = args
operands_after false args = drop_dashes args

module _ {F D : Type 0} where
  push_positional_lem :
      (i : ℕ) (seen : Bool) (args : List (List ℕ)) (o : ParseOptions F D)
      → ((push_positional i seen args o).0 ≡ i + length args)
        × ((push_positional i seen args o).1.positional_args
            ≡ o.positional_args ++ operands_after seen args)
  unfolding push_positional drop_dashes
  push_positional_lem i true [] o = (omega arith, sym (append-nil _))
  push_positional_lem i false [] o = (omega arith, sym (append-nil _))
  push_positional_lem i true (a ∷ args) o =
      let o' : ParseOptions F D = record o { positional_args = o.positional_args ++ a ∷ [] } in
      let (n, e) = push_positional_lem (suc i) true args o' in
      let n' = n ∙ omega arith in
      let e' = e ∙ append_assoc o.positional_args (a ∷ []) args in
      elim (Bool-cases (is_dashes a)) [ inl yes' ↦ rw yes' (n', e') | inr no' ↦ rw no' (n', e') ]
  push_positional_lem i false (a ∷ args) o = elim (Bool-cases (is_dashes a)) [
    | inl yes' ↦
        let (n, e) = push_positional_lem (suc i) true args o in rw yes' (n ∙ omega arith, e)
    | inr no' ↦
        let o' : ParseOptions F D = record o { positional_args = o.positional_args ++ a ∷ [] } in
        let (n, e) = push_positional_lem (suc i) false args o' in
        rw no' (n ∙ omega arith, e ∙ append_assoc o.positional_args (a ∷ []) (drop_dashes args))
  ]

  set_option-keeps :
      (lib : Library F D) (key value : List ℕ) (b : Bool) (o : ParseOptions F D)
      → Ends (set_option lib key value b o) (λ x. x.1.positional_args ≡ o.positional_args)
  unfolding set_option
  set_option-keeps lib key value b o = elim (Option-cases (find_pointer key o)) [
    | inl no' ↦ rw (no', set_option) refl
    | inr (ptr, q) ↦ rw (q, set_option) (bind-Ends (assign lib value b ptr o.vars) _ _ λ v. refl)
  ]

  -- The positional arguments are as they were.
  abbrev IsKept : List (List ℕ) → ParseOptions F D → Type 0
  IsKept args o = o.positional_args ≡ args

  module _ (lib : Library F D) (unset : Bool) (files : List ℕ → Option (List (List ℕ)))
      (pa : List (List ℕ)) where
    read_config_lines-keeps :
        (lines : List (List ℕ)) (key value : List ℕ) (o : ParseOptions F D)
        → IsKept pa o
        → Ends (read_config_lines lib unset files lines key value o) (IsKept pa)
    unfolding read_config_lines
    read_config_lines-keeps [] key value o h = h
    read_config_lines-keeps (l ∷ lines) key value o h =
        let line = trim (find_first_of (b'#' ∷ []) l).0 in
        elim (Bool-cases (is_empty line)) [
          | inl yes' ↦ rw yes' (read_config_lines-keeps lines key value o h)
          | inr no' ↦ rw no' (
              bind-Ends (parse_arg lib.goes_on unset line key value) _ _ λ (k, v, b).
                bind-keeps (set_option lib k v b o) _ _ _ (set_option-keeps lib k v b o)
                  λ (known, o') h'.
                    bind-Ends (if known then done true else after_error lib.goes_on false) _ _
                      λ _. read_config_lines-keeps lines k v o' (h' ∙ h))
        ]

    read_config_file-keeps :
        (filename : List ℕ) (o : ParseOptions F D)
        → IsKept pa o
        → Ends (read_config_file lib unset files filename o) (IsKept pa)
    unfolding read_config_file
    read_config_file-keeps filename o h = elim (Option-cases (files filename)) [
      | inl no' ↦ rw (no', read_config_file) tt
      | inr (lines, q) ↦ rw (q, read_config_file) (read_config_lines-keeps lines [] [] o h)
    ]

    -- What the first pass does with the key config.
    abbrev configure : List ℕ → List ℕ → ParseOptions F D → Run (ParseOptions F D)
    configure k v o =
        if same_text k (codes "config") then read_config_file lib unset files v o else done o

    configure-keeps :
        (k v : List ℕ) (o : ParseOptions F D) → IsKept pa o → Ends (configure k v o) (IsKept pa)
    configure-keeps k v o h = elim (Bool-cases (same_text k (codes "config"))) [
      | inl yes' ↦ rw yes' (read_config_file-keeps v o h)
      | inr no' ↦ rw no' h
    ]

    first_pass-keeps :
        (args : List (List ℕ)) (key value : List ℕ) (o : ParseOptions F D)
        → IsKept pa o
        → Ends (first_pass lib unset files args key value o) (λ (k, v, o'). IsKept pa o')
    unfolding first_pass
    first_pass-keeps [] key value o h = h
    first_pass-keeps (a ∷ args) key value o h = elim (Bool-cases (starts_with_dashes a)) [
      | inl yes' ↦ rw yes' (elim (Bool-cases (is_dashes a)) [
        | inl end' ↦ rw end' h
        | inr no' ↦ rw no' (
            bind-Ends (parse_arg lib.goes_on unset a key value) _ _ λ (k, v, b).
              bind-keeps (configure k v o) _ _ _ (configure-keeps k v o h) λ o' h'.
                elim (Bool-cases (same_text k (codes "help"))) [
                  | inl help' ↦ rw help' tt
                  | inr other' ↦ rw other' (first_pass-keeps args k v o' h')
                ])
      ])
      | inr no' ↦ rw no' (first_pass-keeps args key value o h)
    ]

    second_pass_lem :
        (i n : ℕ) (ops args : List (List ℕ)) (key value : List ℕ) (o : ParseOptions F D)
        → i + length args ≡ n
        → operands args ≡ ops
        → IsKept pa o
        → Ends (second_pass lib unset files i args key value o) (λ (j, seen, rest, o').
          (j + length rest ≡ n) × (operands_after seen rest ≡ ops) × IsKept pa o')
    unfolding second_pass
    second_pass_lem i n ops [] key value o m e h = (m, operands_nil ∙ e, h)
    second_pass_lem i n ops (a ∷ args) key value o m e h =
        elim (Bool-cases (starts_with_dashes a)) [
          | inl yes' ↦ rw yes' (elim (Bool-cases (is_dashes a)) [
            | inl end' ↦ rw end' (omega arith, sym (operands_end a args end') ∙ e, h)
            | inr no' ↦ rw no' (
                bind-Ends (parse_arg lib.goes_on unset a key value) _ _ λ (k, v, b).
                  bind-keeps (set_option lib k v b o) _ _ _ (set_option-keeps lib k v b o)
                    λ (known, o') h'. elim (Bool-cases known) [
                      | inl known' ↦ rw known' (
                          second_pass_lem (suc i) n ops args k v o' (omega arith)
                            (sym (operands_option a args no' yes') ∙ e) (h' ∙ h))
                      | inr other' ↦ rw other' tt
                    ])
          ])
          | inr no' ↦ rw no' (m, sym (operands_other a args no') ∙ e, h)
        ]

    read_args_lem :
        (args : List (List ℕ)) (o : ParseOptions F D)
        → IsKept pa o
        → Ends
            (read_args lib unset files args o)
            (λ (i, o'). (i ≡ suc (length args)) × (o'.positional_args ≡ pa ++ operands args))
    unfolding read_args
    read_args_lem args o h =
        bind-keeps (first_pass lib unset files args [] [] o) _ _ _ (first_pass-keeps args [] [] o h)
          λ (k, v, o') h'.
            bind-keeps (second_pass lib unset files 1 args k v o') _ _ _
              (second_pass_lem 1 (suc (length args)) (operands args) args k v o' (omega arith) refl
                h')
              λ (j, seen, rest, o'') (m, e, h'').
                let (n, q) = push_positional_lem j seen rest o'' in
                (n ∙ m, q ∙ ap (λ xs. xs ++ operands_after seen rest) h'' ∙ ap (λ xs. pa ++ xs) e)

  -- Read, if it goes to its end, returns the number of the arguments, and appends to the positional
  -- arguments those after the options that come first, without the first "--".
  pub read-operands :
      (lib : Library F D) (unset : Bool) (files : List ℕ → Option (List (List ℕ)))
      (program : List ℕ) (args : List (List ℕ)) (o : ParseOptions F D) (i : ℕ)
      (o' : ParseOptions F D)
      → read lib unset files (program ∷ args) o ≡ done (i, o')
      → (i ≡ length (program ∷ args)) × (o'.positional_args ≡ o.positional_args ++ operands args)
  unfolding read
  read-operands lib unset files program args o i o' e =
      Ends-done _ _ (i, o') e (read_args_lem lib unset files o.positional_args args o refl)
