-- ===== src/Options/Register.antt =====
-- src/lib/parse-options.cc: Register and what it calls. The messages print default values as the streams
-- of the standard library do, which is a parameter. The warning on a second registration is left out.
use opendcd.Prelude.{
  ℕ, Bool, true, false, Option, none, some, List, ◌∷◌, ◌++◌, map, ℤ, leb, ◌+◌, ◌==◌, ◌&&◌,
  if◌then◌else◌,
}
use opendcd.Text.{codes, is_empty}
use opendcd.Options.{ParseOptions, Variables, put}
use opendcd.Options.Run.{Run, done, fatal, ◌>>=◌}

-- tolower, in the C locale
unfoldable pub to_lower : ℕ → ℕ
to_lower c = if leb b'A' c && leb c b'Z' then c + 32 else c

-- One character of NormalizeArgName
unfoldable pub normalize_char : ℕ → ℕ
unfolding to_lower
normalize_char c = if c == b'_' then b'-' else to_lower c

-- NormalizeArgName, whose last line asserts that the name is not empty
unfoldable pub normalize_arg_name : List ℕ → Run (List ℕ)
unfolding normalize_char
normalize_arg_name str = if is_empty str then fatal else done (map normalize_char str)

-- The pointer that is registered, by the type of its variable.
pub data Pointer : Type 0 where
  bool_ptr int_ptr uint_ptr float_ptr double_ptr string_ptr : ℕ → Pointer

module _ {F D : Type 0} where
  -- The assignment to the map of the pointer's type
  unfoldable pub put_pointer : List ℕ → Pointer → ParseOptions F D → ParseOptions F D
  unfolding put
  put_pointer idx (bool_ptr p) o = record o { bool_map = put idx p o.bool_map }
  put_pointer idx (int_ptr p) o = record o { int_map = put idx p o.int_map }
  put_pointer idx (uint_ptr p) o = record o { uint_map = put idx p o.uint_map }
  put_pointer idx (float_ptr p) o = record o { float_map = put idx p o.float_map }
  put_pointer idx (double_ptr p) o = record o { double_map = put idx p o.double_map }
  put_pointer idx (string_ptr p) o = record o { string_map = put idx p o.string_map }

pub record Format (F D : Type 0) : Type 0 where
  pub show_int : ℤ → List ℕ
  pub show_uint : ℕ → List ℕ
  pub show_float : F → List ℕ
  pub show_double : D → List ℕ

module _ {F D : Type 0} (format : Format F D) where
  -- What RegisterSpecific adds to the documentation.
  unfoldable pub default_text : Variables F D → Pointer → List ℕ
  default_text v (bool_ptr p) =
      codes " (bool, default = " ++ (if v.bools p then codes "true)" else codes "false)")
  default_text v (int_ptr p) = codes " (int, default = " ++ format.show_int (v.ints p) ++ codes ")"
  default_text v (uint_ptr p) =
      codes " (uint, default = " ++ format.show_uint (v.uints p) ++ codes ")"
  default_text v (float_ptr p) =
      codes " (float, default = " ++ format.show_float (v.floats p) ++ codes ")"
  default_text v (double_ptr p) =
      codes " (double, default = " ++ format.show_double (v.doubles p) ++ codes ")"
  default_text v (string_ptr p) = codes " (string, default = \"" ++ v.strings p ++ codes "\")"

  -- RegisterSpecific, at its six types
  unfoldable pub register_specific :
      List ℕ → List ℕ → Pointer → List ℕ → Bool → ParseOptions F D → ParseOptions F D
  unfolding put default_text put_pointer
  register_specific name idx ptr doc is_standard o =
      let o' = put_pointer idx ptr o in
      record o' {
        doc_map =
            put idx
              (record {
                name = name;
                use_msg = doc ++ default_text o.vars ptr;
                is_standard = is_standard;
              })
              o'.doc_map;
      }

  -- RegisterCommon
  unfoldable pub register_common :
      List ℕ → Pointer → List ℕ → Bool → ParseOptions F D → Run (ParseOptions F D)
  unfolding normalize_arg_name register_specific
  register_common name ptr doc is_standard o = do
    idx ← normalize_arg_name name
    done (register_specific name idx ptr doc is_standard o)

  -- RegisterTmpl, which Register calls; `other` is the prefix when there is another parser, whose
  -- options are then `o`.
  unfoldable pub register :
      Option (List ℕ) → List ℕ → Pointer → List ℕ → ParseOptions F D → Run (ParseOptions F D)
  unfolding register_common
  register none name ptr doc o = register_common name ptr doc false o
  register (some prefix) name ptr doc o = register_common (prefix ++ b'.' ∷ name) ptr doc false o

  -- RegisterStandard
  unfoldable pub register_standard :
      List ℕ → Pointer → List ℕ → ParseOptions F D → Run (ParseOptions F D)
  unfolding register_common
  register_standard name ptr doc o = register_common name ptr doc true o
