-- ===== src/Options/Escape.antt =====
-- src/lib/parse-options.cc, MustBeQuoted, QuoteAndEscape and Escape: an argument is written so that a
-- shell reads it back. The only type of shell is kBash. A string has no character 0 in it.
pub mod Reader
pub mod Shell
use opendcd.Prelude.{
  ℕ, Bool, true, false, not, List, [], ◌∷◌, ◌++◌, leb, ◌==◌, ◌&&◌, ◌||◌, if◌then◌else◌,
}
use opendcd.Text.{is_one_of}

-- isalnum, in the C locale
abbrev pub is_alnum : ℕ → Bool
is_alnum c = (leb b'0' c && leb c b'9') || (leb b'A' c && leb c b'Z') || (leb b'a' c && leb c b'z')

-- ok_chars[kBash], "[]~#^_-+=:.,/"
abbrev pub ok_chars : List ℕ
ok_chars =
    b'[' ∷ b']' ∷ b'~' ∷ b'#' ∷ b'^' ∷ b'_' ∷ b'-' ∷ b'+' ∷ b'=' ∷ b':' ∷ b'.' ∷ b',' ∷ b'/' ∷ []

unfoldable pub is_ok : ℕ → Bool
unfolding is_one_of
is_ok c = is_alnum c || is_one_of ok_chars c

-- The loop of MustBeQuoted
unfoldable pub has_special : List ℕ → Bool
unfolding is_ok
has_special [] = false
has_special (c ∷ s) = not (is_ok c) || has_special s

-- MustBeQuoted
unfoldable pub must_be_quoted : List ℕ → Bool
unfolding has_special
must_be_quoted [] = true
must_be_quoted (c ∷ s) = has_special (c ∷ s)

-- strpbrk, as a condition
unfoldable pub has_any : List ℕ → List ℕ → Bool
unfolding is_one_of
has_any chars [] = false
has_any chars (c ∷ s) = is_one_of chars c || has_any chars s

-- The characters 92 and 34 are the backslash and the double quote.
abbrev pub single_quote : ℕ
single_quote = 39

abbrev pub double_quote : ℕ
double_quote = 34

abbrev pub backslash : ℕ
backslash = 92

-- "\"`$\\"
abbrev pub unsafe_in_double : List ℕ
unsafe_in_double = double_quote ∷ b'`' ∷ b'$' ∷ backslash ∷ []

-- The loop that copies the string, with `escape_str` in place of the quote character.
unfoldable pub escape_quotes : ℕ → List ℕ → List ℕ → List ℕ
escape_quotes quote_char escape_str [] = []
escape_quotes quote_char escape_str (c ∷ s) =
    let rest = escape_quotes quote_char escape_str s in
    if c == quote_char then escape_str ++ rest else c ∷ rest

abbrev pub quoted : ℕ → List ℕ → List ℕ → List ℕ
quoted quote_char escape_str s =
    quote_char ∷ escape_quotes quote_char escape_str s ++ quote_char ∷ []

-- QuoteAndEscape
unfoldable pub quote_and_escape : List ℕ → List ℕ
unfolding has_any escape_quotes
quote_and_escape s =
    if has_any (single_quote ∷ []) s && not (has_any unsafe_in_double s)
    then quoted double_quote (backslash ∷ double_quote ∷ []) s
    else quoted single_quote (single_quote ∷ backslash ∷ single_quote ∷ single_quote ∷ []) s

-- ParseOptions::Escape
unfoldable pub escape : List ℕ → List ℕ
unfolding must_be_quoted quote_and_escape
escape s = if must_be_quoted s then quote_and_escape s else s
