-- ===== src/Options/Args.antt =====
-- src/lib/parse-options.cc, SplitLongArg, ReadConfigFile, Read, NumArgs and GetArg, and GetOptArg of
-- src/include/dcd/parse-options.h. `files` is the file system: the lines of a file that can be opened.
-- `unset` is what has_equal_sign holds before anything is stored in it. Left out: the program's name,
-- and what is printed. std::string::substr throws where the string is shorter than the start.
pub mod Split
pub mod Operands
pub mod Set
pub mod Index
use opendcd.Prelude.{
  ℕ, zero, suc, ◌+◌, Bool, true, false, not, Option, none, some, List, [], ◌∷◌, ◌++◌, length,
  get_elem?, ltb, leb, ◌==◌, ◌&&◌, ◌||◌, ℤ, pos, negsuc, if◌then◌else◌,
}
use opendcd.Text.{codes, find_first_of, is_empty, trim}
use opendcd.Options.{ParseOptions, same_text}
use opendcd.Options.Run.{Run, done, exited, fatal, out_of_bounds, ◌>>=◌, after_error}
use opendcd.Options.Register.{normalize_arg_name}
use opendcd.Options.Assign.{Library, set_option}

-- The characters of "--"
abbrev pub dashes : List ℕ
dashes = b'-' ∷ b'-' ∷ []

-- substr from 2 on
unfoldable pub from_second : List ℕ → Run (List ℕ)
from_second [] = fatal
from_second (c ∷ []) = fatal
from_second (c ∷ d ∷ s) = done s

-- What an argument is split into: the key, the value, and whether there is an equal sign.
abbrev pub Split : Type 0
Split = List ℕ × List ℕ × Bool

-- SplitLongArg by what stands before and after the first '='. The length of the key, pos-2, is of an
-- unsigned type: under 2 it is longer than the string.
unfoldable pub split_at_equals :
    Bool → Bool → List ℕ → List ℕ → List ℕ → List ℕ × Option (List ℕ) → Run Split
unfolding from_second
split_at_equals goes_on unset arg key value (before, none) =
    from_second arg >>= λ k. done (k, [], false)
split_at_equals goes_on unset arg key value (before, some rest) =
    if length before == 2
    then after_error goes_on (key, value, unset)
    else from_second (if ltb (length before) 2 then arg else before) >>= λ k. done (k, rest, true)

-- SplitLongArg, whose `*key` and `*value` are `key` and `value` before it
unfoldable pub split_long_arg : Bool → Bool → List ℕ → List ℕ → List ℕ → Run Split
unfolding find_first_of split_at_equals
split_long_arg goes_on unset arg key value =
    split_at_equals goes_on unset arg key value (find_first_of (b'=' ∷ []) arg)

-- SplitLongArg, NormalizeArgName and Trim, as ReadConfigFile and the two passes of Read call them.
unfoldable pub parse_arg : Bool → Bool → List ℕ → List ℕ → List ℕ → Run Split
unfolding split_long_arg normalize_arg_name trim
parse_arg goes_on unset arg key value = do
  (k, v, has_equal_sign) ← split_long_arg goes_on unset arg key value
  k' ← normalize_arg_name k
  done (k', trim v, has_equal_sign)

-- strncmp(argv[i], "--", 2) == 0
unfoldable pub starts_with_dashes : List ℕ → Bool
starts_with_dashes [] = false
starts_with_dashes (c ∷ []) = false
starts_with_dashes (c ∷ d ∷ s) = (c == b'-') && (d == b'-')

unfoldable pub is_dashes : List ℕ → Bool
unfolding same_text
is_dashes arg = same_text arg dashes

-- The third loop of Read: i, and the options with the positional arguments pushed.
unfoldable pub push_positional :
    {F D : Type 0} → ℕ → Bool → List (List ℕ) → ParseOptions F D → ℕ × ParseOptions F D
unfolding is_dashes
push_positional i seen [] o = (i, o)
push_positional i seen (a ∷ args) o =
    if is_dashes a && not seen
    then push_positional (suc i) true args o
    else push_positional (suc i) seen args
        (record o { positional_args = o.positional_args ++ a ∷ [] })

module _ {F D : Type 0} (lib : Library F D) (unset : Bool)
    (files : List ℕ → Option (List (List ℕ))) where
  -- The loop of ReadConfigFile, on the lines that are left
  unfoldable pub read_config_lines :
      List (List ℕ) → List ℕ → List ℕ → ParseOptions F D → Run (ParseOptions F D)
  unfolding find_first_of parse_arg set_option trim
  read_config_lines [] key value o = done o
  read_config_lines (l ∷ lines) key value o =
      let (before, _) = find_first_of (b'#' ∷ []) l in
      let line = trim before in
      if is_empty line then read_config_lines lines key value o else do
        (k, v, has_equal_sign) ← parse_arg lib.goes_on unset line key value
        (known, o') ← set_option lib k v has_equal_sign o
        _ ← (if known then done true else after_error lib.goes_on false)
        read_config_lines lines k v o'

  -- ReadConfigFile
  unfoldable pub read_config_file : List ℕ → ParseOptions F D → Run (ParseOptions F D)
  unfolding read_config_lines
  read_config_file filename o = elim (files filename) [
    | none ↦ fatal
    | some lines ↦ read_config_lines lines [] [] o
  ]

  -- The first loop of Read, which leaves `key` and `value` as the second loop finds them
  unfoldable pub first_pass :
      List (List ℕ) → List ℕ → List ℕ → ParseOptions F D → Run (List ℕ × List ℕ × ParseOptions F D)
  unfolding starts_with_dashes is_dashes parse_arg same_text read_config_file
  first_pass [] key value o = done (key, value, o)
  first_pass (a ∷ args) key value o =
      if starts_with_dashes a
      then (if is_dashes a then done (key, value, o) else do
        (k, v, has_equal_sign) ← parse_arg lib.goes_on unset a key value
        o' ← (if same_text k (codes "config") then read_config_file v o else done o)
        if same_text k (codes "help") then exited else first_pass args k v o')
      else first_pass args key value o

  -- The second loop of Read, from argument `i` on: i, double_dash_seen and the arguments that are
  -- left after it.
  unfoldable pub second_pass :
      ℕ
      → List (List ℕ)
      → List ℕ
      → List ℕ
      → ParseOptions F D
      → Run (ℕ × Bool × List (List ℕ) × ParseOptions F D)
  unfolding starts_with_dashes is_dashes parse_arg set_option
  second_pass i [] key value o = done (i, false, [], o)
  second_pass i (a ∷ args) key value o =
      if starts_with_dashes a
      then (if is_dashes a then done (suc i, true, args, o) else do
        (k, v, has_equal_sign) ← parse_arg lib.goes_on unset a key value
        (known, o') ← set_option lib k v has_equal_sign o
        if known then second_pass (suc i) args k v o' else fatal)
      else done (i, false, a ∷ args, o)

  -- Read of the arguments after the program's name
  unfoldable pub read_args : List (List ℕ) → ParseOptions F D → Run (ℕ × ParseOptions F D)
  unfolding first_pass second_pass push_positional
  read_args args o = do
    (key, value, o') ← first_pass args [] [] o
    (i, seen, rest, o'') ← second_pass 1 args key value o'
    done (push_positional i seen rest o'')

  -- Read
  unfoldable pub read : List (List ℕ) → ParseOptions F D → Run (ℕ × ParseOptions F D)
  unfolding read_args
  read [] o = read_args [] o
  read (program ∷ args) o = read_args args o

-- GetArg's test of an index, i < 1 || i > size
unfoldable pub is_invalid : ℤ → ℕ → Bool
is_invalid (negsuc i) size = true
is_invalid (pos i) size = ltb i 1 || ltb size i

-- positional_args_[i - 1]
unfoldable pub arg_before : ℤ → List (List ℕ) → Run (List ℕ)
arg_before (negsuc i) args = out_of_bounds
arg_before (pos zero) args = out_of_bounds
arg_before (pos (suc i)) args = elim (get_elem? args i) [ some a ↦ done a | none ↦ out_of_bounds ]

module _ {F D : Type 0} where
  -- NumArgs
  unfoldable pub num_args : ParseOptions F D → ℕ
  num_args o = length o.positional_args

  -- GetArg
  unfoldable pub get_arg : Bool → ℤ → ParseOptions F D → Run (List ℕ)
  unfolding is_invalid arg_before num_args
  get_arg goes_on i o = do
    _ ← (if is_invalid i (num_args o) then after_error goes_on true else done true)
    arg_before i o.positional_args

  -- GetOptArg
  unfoldable pub get_opt_arg : Bool → ℤ → ParseOptions F D → Run (List ℕ)
  unfolding get_arg num_args
  get_opt_arg goes_on (negsuc i) o = get_arg goes_on (negsuc i) o
  get_opt_arg goes_on (pos i) o = if leb i (num_args o) then get_arg goes_on (pos i) o else done []
