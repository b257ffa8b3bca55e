-- ===== src/Options/Escape/Shell.antt =====
-- src/lib/parse-options.cc, Escape: what a shell reads of its result.
use opendcd.Prelude.{
  ℕ, ◌≡◌, refl, ap, Bool, true, false, not, Bool-cases, none, some, List, [], ◌∷◌, ◌++◌, arith,
  ==_iff, ◌==◌, ◌∙◌, ◌&&◌, ◌||◌, if◌then◌else◌, inl, inr,
}
use opendcd.Text.{is_one_of}
use opendcd.Options.Escape.{
  is_ok, has_special, must_be_quoted, has_any, single_quote, double_quote, backslash,
  unsafe_in_double, escape_quotes, quote_and_escape, escape,
}
use opendcd.Options.Escape.Reader.{
  Place, first, outside, in_single, in_double, put, is_shell_special, is_special_at, place_behind,
  word_end, read_word, is_tame, comes_back,
}

is_ok_plain :
    (c : ℕ)
    → is_ok c ≡ true
    → ((c == 39) ≡ false)
      × ((c == 34) ≡ false)
      × ((c == 92) ≡ false)
      × (is_shell_special c ≡ (c == b'['))
unfolding is_ok is_one_of is_shell_special
is_ok_plain c h = (ground arith, ground arith, ground arith, ground arith)

has_special_tail :
    (c : ℕ) (s : List ℕ) → has_special (c ∷ s) ≡ false → (is_ok c ≡ true) × (has_special s ≡ false)
unfolding has_special
has_special_tail c s h = (ground arith, ground arith)

put-literal :
    (c : ℕ) (b t : Bool) (s : List ℕ)
    → (if b then none else put c (if t then some s else none))
      ≡ (if not b && t then some (c ∷ s) else none)
put-literal c true t s = refl
put-literal c false true s = refl
put-literal c false false s = refl

read_word-literal :
    (w : Place) (c : ℕ) (s : List ℕ)
    → is_ok c ≡ true
    → read_word (outside (place_behind c)) s ≡ (if is_tame (place_behind c) s then some s else none)
    → read_word (outside w) (c ∷ s) ≡ (if is_tame w (c ∷ s) then some (c ∷ s) else none)
unfolding read_word is_tame
read_word-literal w c s ok rest =
    let (single, double, back, special) = is_ok_plain c ok in
    rw (single, double, back, special, rest)
      (put-literal c (c == b'[' || is_special_at w c) (is_tame (place_behind c) s) s)

word_goes_on : (c : ℕ) → word_end (place_behind c) ≡ some []
unfolding word_end place_behind
word_goes_on c = elim (Bool-cases (c == b'=' || c == b':')) [
  | inl q ↦ rw q refl
  | inr q ↦ rw q refl
]

read_word-plain :
    (w : Place) (s : List ℕ)
    → word_end w ≡ some []
    → has_special s ≡ false
    → read_word (outside w) s ≡ (if is_tame w s then some s else none)
read_word-plain w [] e h = (unfold read_word is_tame in e)
read_word-plain w (c ∷ s) e h =
    let (ok, rest) = has_special_tail c s h in
    read_word-literal w c s ok (read_word-plain (place_behind c) s (word_goes_on c) rest)

read_word-single :
    (s : List ℕ)
    → read_word in_single (
        escape_quotes single_quote (single_quote ∷ backslash ∷ single_quote ∷ single_quote ∷ []) s
        ++ single_quote ∷ [])
      ≡ some s
unfolding read_word escape_quotes
read_word-single [] = refl
read_word-single (c ∷ s) = elim (Bool-cases (c == single_quote)) [
  | inl e ↦ rw (e, (==_iff c single_quote).0 e, read_word-single s) refl
  | inr n ↦ rw (n, read_word) (rw (n, read_word-single s) refl)
]

has_any_tail :
    (chars : List ℕ) (c : ℕ) (s : List ℕ)
    → has_any chars (c ∷ s) ≡ false
    → (is_one_of chars c ≡ false) × (has_any chars s ≡ false)
unfolding has_any
has_any_tail chars c s h = (ground arith, ground arith)

safe_plain :
    (c : ℕ)
    → is_one_of unsafe_in_double c ≡ false
    → ((c == 34) ≡ false) × ((c == b'$' || c == b'`' || c == 92 || c == b'!') ≡ (c == b'!'))
unfolding is_one_of
safe_plain c h = (ground arith, ground arith)

escape_quotes-none :
    (escape_str s : List ℕ)
    → has_any unsafe_in_double s ≡ false
    → escape_quotes double_quote escape_str s ≡ s
unfolding escape_quotes
escape_quotes-none escape_str [] h = refl
escape_quotes-none escape_str (c ∷ s) h =
    let (safe, rest) = has_any_tail unsafe_in_double c s h in
    rw (safe_plain c safe).0 (ap (λ (xs : List ℕ). c ∷ xs) (escape_quotes-none escape_str s rest))

has_any-put :
    (c : ℕ) (s : List ℕ)
    → (if c == b'!' then none else put c (if has_any (b'!' ∷ []) s then none else some s))
      ≡ (if has_any (b'!' ∷ []) (c ∷ s) then none else some (c ∷ s))
unfolding has_any is_one_of
has_any-put c s = elim (Bool-cases (c == b'!')) [
  | inl q ↦ rw q refl
  | inr q ↦ elim (Bool-cases (has_any (b'!' ∷ []) s)) [
    | inl r ↦ rw (q, r) refl
    | inr r ↦ rw (q, r) refl
  ]
]

read_word-double :
    (s : List ℕ)
    → has_any unsafe_in_double s ≡ false
    → read_word in_double (s ++ double_quote ∷ [])
      ≡ (if has_any (b'!' ∷ []) s then none else some s)
unfolding read_word
read_word-double [] h = (unfold has_any word_end in refl)
read_word-double (c ∷ s) h =
    let (safe, rest) = has_any_tail unsafe_in_double c s h in
    let (quote, special) = safe_plain c safe in
    rw (quote, special, read_word-double s rest) (has_any-put c s)

not-if : (b : Bool) (s : List ℕ) → (if b then none else some s) ≡ (if not b then some s else none)
not-if true s = refl
not-if false s = refl

read_word-quote_and_escape :
    (s : List ℕ)
    → read_word (outside first) (quote_and_escape s) ≡ (
        if not (
          has_any (single_quote ∷ []) s
          && not (has_any unsafe_in_double s)
          && has_any (b'!' ∷ []) s)
        then some s
        else none)
unfolding quote_and_escape
read_word-quote_and_escape s =
    let single = has_any (single_quote ∷ []) s in
    let unsafe = has_any unsafe_in_double s in
    elim (Bool-cases (single && not unsafe)) [
      | inr q ↦ rw q (unfold read_word in read_word-single s)
      | inl q ↦
          let safe : unsafe ≡ false = ground arith in
          rw (q, escape_quotes-none (backslash ∷ double_quote ∷ []) s safe)
            (unfold read_word in (read_word-double s safe ∙ not-if (has_any (b'!' ∷ []) s) s))
    ]

-- The reader, which refuses every character that a shell may take for more than itself, reads what Escape
-- writes as one word, the string itself, exactly if the string comes back: either MustBeQuoted holds of it, and there are not both a `'` and a `!` in it without any of the characters
-- "`$\ ; or it is left as it is and has no `[` in it, no `~` or `#` at its start, and no `~` behind a `=` or
-- a `:`.
pub read_word-escape :
    (s : List ℕ) → read_word (outside first) (escape s) ≡ (if comes_back s then some s else none)
unfolding escape comes_back
read_word-escape s = elim (Bool-cases (must_be_quoted s)) [
  | inl quote ↦ rw quote (read_word-quote_and_escape s)
  | inr ok ↦ rw ok (plain_lem s ok)
]
  where
    plain_lem :
        (s : List ℕ)
        → must_be_quoted s ≡ false
        → read_word (outside first) s ≡ (if is_tame first s then some s else none)
    plain_lem [] h = (unfold must_be_quoted in ground arith)
    plain_lem (c ∷ s) h =
        let (ok, rest) = has_special_tail c s (unfold must_be_quoted in h) in
        read_word-literal first c s ok (read_word-plain (place_behind c) s (word_goes_on c) rest)
