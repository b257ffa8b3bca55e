-- ===== src/Examples/Options.antt =====
-- src/lib/parse-options.cc at a parser with two options. The library reads a number of one digit.
use opendcd.Prelude.{
  ℕ, suc, ◌-◌, ◌≡◌, refl, Bool, true, false, not, Option, none, some, List, [], ◌∷◌, ◌++◌, ℤ, pos,
  update, length, get_elem?, leb, ◌&&◌, ◌⊎◌, if◌then◌else◌,
}
use opendcd.Text.{codes, trim}
use opendcd.Options.{ParseOptions, Variables, same_text}
use opendcd.Options.Run.{done}
use opendcd.Options.Escape.{escape, must_be_quoted}
use opendcd.Options.Escape.Reader.{first, outside, read_word, comes_back}
use opendcd.Options.Escape.Shell.{read_word-escape}
use opendcd.Options.Register.{Pointer, int_ptr, Format, register, normalize_char}
use opendcd.Options.Assign.{Library, find_pointer, set_option, to_int}
use opendcd.Options.Assign.Find.{IsRegistered, is_open, register-IsRegistered}
use opendcd.Options.Assign.Found.{IsFound, IsUnknown}
use opendcd.Options.Assign.Frame.{IsStored, set_option-IsSameBut}
use opendcd.Options.Args.{get_arg, num_args, read, starts_with_dashes}
use opendcd.Options.Args.Operands.{operands, read-operands}
use opendcd.Options.Args.Set.{read-sets}
use opendcd.Options.Args.Index.{IsIndex, IsRefused, get_arg-IsIndex}

abbrev digit : List ℕ → Option ℕ
digit [] = none
digit (c ∷ s) = if leb b'0' c && leb c b'9' then some (c - b'0') else none

abbrev signed_digit : List ℕ → Option ℤ
signed_digit s = elim (digit s) [ none ↦ none | some n ↦ some (pos n) ]

abbrev library : Library ℕ ℕ
library = record {
  strtol = signed_digit;
  strtoul = digit;
  strtod = digit;
  zero_double = 0;
  to_float = λ x. x;
  goes_on = false;
}

abbrev format : Format ℕ ℕ
format = record {
  show_int = λ n. [];
  show_uint = λ n. n ∷ [];
  show_float = λ x. x ∷ [];
  show_double = λ x. x ∷ [];
}

abbrev initial : Variables ℕ ℕ
initial = record {
  bools = λ p. false;
  ints = λ p. pos 0;
  uints = λ p. 0;
  floats = λ p. 0;
  doubles = λ p. 0;
  strings = λ p. [];
}

-- The options --beam and --word-file
abbrev options : ParseOptions ℕ ℕ
options = record {
  bool_map = [];
  int_map = (codes "beam", 0) ∷ [];
  uint_map = [];
  float_map = [];
  double_map = [];
  string_map = (codes "word-file", 3) ∷ [];
  doc_map = [];
  positional_args = codes "model" ∷ [];
  vars = initial;
}

abbrev no_files : List ℕ → Option (List (List ℕ))
no_files filename = none

read_word-escape_example :
    read_word (outside first) (escape (codes "it's $1"))
    ≡ (if comes_back (codes "it's $1") then some (codes "it's $1") else none)
read_word-escape_example = read_word-escape (codes "it's $1")

comes_back-words : comes_back (codes "it's $1") ≡ true
unfolding comes_back must_be_quoted
comes_back-words = refl

-- Words that Escape leaves as they are, and that a shell does not take literally.
unfoldable not_back : List ℕ → Bool
not_back word = same_text (escape word) word && not (comes_back word)

not_back-words :
    (not_back (codes "~") ≡ true)
    × (not_back (codes "#1") ≡ true)
    × (not_back (codes "[a]") ≡ true)
    × (comes_back (codes "it's!") ≡ false)
unfolding not_back comes_back same_text must_be_quoted escape
not_back-words = (refl, refl, refl, refl)

to_int-7 : to_int library (codes "7") ≡ done (pos 7)
unfolding to_int
to_int-7 = refl

find_pointer-lm : find_pointer (codes "lm.scale") options ≡ none
unfolding find_pointer
find_pointer-lm = refl

register-IsRegistered_example :
    IsRegistered
      (codes "lm.scale")
      (int_ptr 5)
      options
      (register format (some (codes "LM")) (codes "Scale") (int_ptr 5) [] options)
unfolding is_open find_pointer normalize_char
register-IsRegistered_example =
    register-IsRegistered format (some (codes "LM")) b'S' (codes "cale") (int_ptr 5) [] options refl

abbrev with_beam : Variables ℕ ℕ
with_beam = record initial { ints = update initial.ints 0 (pos 7) }

set_option-beam :
    set_option library (codes "beam") (codes "7") true options
    ≡ done (true, record options { vars = with_beam })
unfolding set_option
set_option-beam = refl

set_option-IsSameBut_example :
    ((true ≡ false)
      × IsUnknown (codes "beam") options
      × (record options { vars = with_beam } ≡ options))
    ⊎ ((ptr : Pointer) × (w : Variables ℕ ℕ) × (true ≡ true)
        × IsFound (codes "beam") options ptr
        × (record options { vars = with_beam } ≡ record options { vars = w })
        × IsStored library (codes "7") true ptr w initial)
set_option-IsSameBut_example =
    set_option-IsSameBut library (codes "beam") (codes "7") true true options
      (record options { vars = with_beam }) set_option-beam

abbrev arguments : List (List ℕ)
arguments = codes "--Word_File= a b " ∷ codes "in" ∷ codes "out" ∷ []

abbrev after : ParseOptions ℕ ℕ
after = record options {
  positional_args = codes "model" ∷ codes "in" ∷ codes "out" ∷ [];
  vars = record initial { strings = update initial.strings 3 (codes "a b") };
}

read-sets_example : read library false no_files (codes "dcd" ∷ arguments) options ≡ done (4, after)
unfolding same_text normalize_char find_pointer starts_with_dashes trim
read-sets_example =
    read-sets library false no_files (codes "dcd") b'W' (codes "ord_File") (codes " a b ")
      (codes "in" ∷ codes "out" ∷ []) 3 options
      (refl, (refl, (refl, (refl, (refl, (refl, (refl, (refl, (refl, tt))))))))) refl refl refl
      (refl, (refl, tt))

read-run : read library false no_files (codes "dcd" ∷ arguments) options ≡ done (4, after)
unfolding read
read-run = refl

read-operands_example :
    (4 ≡ length (codes "dcd" ∷ arguments))
    × (after.positional_args ≡ options.positional_args ++ operands arguments)
read-operands_example =
    read-operands library false no_files (codes "dcd") arguments options 4 after read-run

get_arg-IsIndex_example :
    ((n : ℕ) × (a : List ℕ) × (pos 1 ≡ pos (suc n))
      × IsIndex (pos 1) (num_args options)
      × (get_elem? options.positional_args n ≡ some a)
      × (get_arg false (pos 1) options ≡ done a))
    ⊎ ((¬ IsIndex (pos 1) (num_args options)) × IsRefused false (get_arg false (pos 1) options))
get_arg-IsIndex_example = get_arg-IsIndex false (pos 1) options
