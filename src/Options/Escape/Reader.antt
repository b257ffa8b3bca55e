-- ===== src/Options/Escape/Reader.antt =====
-- A reader of one word of a command line, from the shell's rules on quoting (POSIX, 2.2, 2.3 and 2.6, with
-- the history expansion of bash), for what Escape of src/lib/parse-options.cc writes. It is no part of the
-- program, and uses nothing of it but in `comes_back`. It refuses every character that a shell may take for
-- more than itself, also a `[` that no `]` follows.
use opendcd.Prelude.{
  ℕ, Bool, true, false, not, Option, none, some, List, [], ◌∷◌, ◌==◌, ◌&&◌, ◌||◌, if◌then◌else◌,
}
use opendcd.Text.{is_one_of}
use opendcd.Options.Escape.{must_be_quoted, has_any}

-- Where a character outside of quotes stands: first in its word, behind a `=` or a `:`, or elsewhere.
pub data Place : Type 0 where
  first behind_sign inside : Place

-- Where the shell is in a word: outside of quotes, after a backslash there, in single or in double
-- quotes.
pub data Mode : Type 0 where
  outside : Place → Mode
  after_backslash in_single in_double : Mode

abbrev pub put : ℕ → Option (List ℕ) → Option (List ℕ)
put c none = none
put c (some s) = some (c ∷ s)

-- Outside of quotes: blanks, the characters of operators, those of expansions and patterns, and `!`.
abbrev pub shell_special : List ℕ
shell_special =
    9 ∷ 10 ∷ b' ' ∷ b'|' ∷ b'&' ∷ b';' ∷ b'(' ∷ b')' ∷ b'<' ∷ b'>' ∷ b'$' ∷ b'`' ∷ b'*' ∷ b'?'
    ∷ b'[' ∷ b'{' ∷ b'}' ∷ b'!' ∷ []

unfoldable pub is_shell_special : ℕ → Bool
unfolding is_one_of
is_shell_special c = is_one_of shell_special c

-- The characters whose meaning depends on the place: a `~` at the start, or behind a `=` or a `:` as in an
-- assignment, is expanded, and a `#` at the start begins a comment.
unfoldable pub is_special_at : Place → ℕ → Bool
is_special_at first c = c == b'~' || c == b'#'
is_special_at behind_sign c = c == b'~'
is_special_at inside c = false

-- The place behind a literal character
unfoldable pub place_behind : ℕ → Place
place_behind c = if c == b'=' || c == b':' then behind_sign else inside

-- The end of a word: a word of no characters is none.
unfoldable pub word_end : Place → Option (List ℕ)
word_end first = none
word_end behind_sign = some []
word_end inside = some []

-- What one word of a command line stands for, `none` if it is empty, ends inside quotes or has a character
-- that is not taken literally.
unfoldable pub read_word : Mode → List ℕ → Option (List ℕ)
unfolding is_shell_special is_special_at place_behind word_end
read_word (outside w) [] = word_end w
read_word after_backslash [] = none
read_word in_single [] = none
read_word in_double [] = none
read_word (outside w) (c ∷ s) =
    let literal = put c (read_word (outside (place_behind c)) s) in
    let single = read_word in_single s in
    let double = read_word in_double s in
    let next = read_word after_backslash s in
    if c == 39
    then single
    else if c == 34
    then double
    else if c == 92
    then next
    else if is_shell_special c || is_special_at w c
    then none
    else literal
read_word after_backslash (c ∷ s) =
    let literal = put c (read_word (outside inside) s) in if c == 10 then none else literal
read_word in_single (c ∷ s) =
    let literal = put c (read_word in_single s) in
    let rest = read_word (outside inside) s in if c == 39 then rest else literal
read_word in_double (c ∷ s) =
    let literal = put c (read_word in_double s) in
    let rest = read_word (outside inside) s in
    if c == 34
    then rest
    else if c == b'$' || c == b'`' || c == 92 || c == b'!'
    then none
    else literal

-- No `[` stands in the string, no `~` and no `#` where it is special.
unfoldable pub is_tame : Place → List ℕ → Bool
unfolding is_special_at place_behind
is_tame w [] = true
is_tame w (c ∷ s) = not (c == b'[' || is_special_at w c) && is_tame (place_behind c) s

-- The strings that come back: not those that are left unquoted without being tame, and not those with a
-- `!` that come into double quotes.
unfoldable pub comes_back : List ℕ → Bool
unfolding is_tame has_any
comes_back s =
    if must_be_quoted s
    then not (
        has_any (39 ∷ []) s
        && not (has_any (34 ∷ b'`' ∷ b'$' ∷ 92 ∷ []) s)
        && has_any (b'!' ∷ []) s)
    else is_tame first s
