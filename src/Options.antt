-- ===== src/Options.antt =====
-- src/lib/parse-options.cc and src/include/dcd/parse-options.h: options on the command line. The
-- registered pointers are addresses of variables, one store for each type. The maps are association
-- lists, whose order nothing below reads. KALDI_ASSERT is empty, as src/include/dcd/text-utils.h
-- defines it. LOG(ERROR) is of a logging library: whether it returns is the parameter `goes_on`.
pub mod Escape
pub mod Run
pub mod Register
pub mod Assign
pub mod Args
use opendcd.Prelude.{
  ℕ, Bool, true, false, Option, none, some, List, [], ◌∷◌, ◌==◌, ◌&&◌, ℤ, if◌then◌else◌,
}

-- std::string's ==
unfoldable pub same_text : List ℕ → List ℕ → Bool
same_text [] [] = true
same_text [] (d ∷ t) = false
same_text (c ∷ s) [] = false
same_text (c ∷ s) (d ∷ t) = (c == d) && same_text s t

-- A std::map from strings: find, and assignment through [].
module _ {V : Type 0} where
  unfoldable pub find : List ℕ → List (List ℕ × V) → Option V
  unfolding same_text
  find k [] = none
  find k ((k', v) ∷ m) = let rest = find k m in if same_text k' k then some v else rest

  unfoldable pub put : List ℕ → V → List (List ℕ × V) → List (List ℕ × V)
  unfolding same_text
  put k v [] = (k, v) ∷ []
  put k v ((k', w) ∷ m) =
      let rest = put k v m in if same_text k' k then (k, v) ∷ m else (k', w) ∷ rest

-- The program's variables that options are stored in, `float` and `double` being `F` and `D`.
pub record Variables (F D : Type 0) : Type 0 where
  pub bools : ℕ → Bool
  pub ints : ℕ → ℤ
  pub uints : ℕ → ℕ
  pub floats : ℕ → F
  pub doubles : ℕ → D
  pub strings : ℕ → List ℕ

pub record DocInfo : Type 0 where
  pub name : List ℕ
  pub use_msg : List ℕ
  pub is_standard : Bool

pub record ParseOptions (F D : Type 0) : Type 0 where
  pub bool_map : List (List ℕ × ℕ)
  pub int_map : List (List ℕ × ℕ)
  pub uint_map : List (List ℕ × ℕ)
  pub float_map : List (List ℕ × ℕ)
  pub double_map : List (List ℕ × ℕ)
  pub string_map : List (List ℕ × ℕ)
  pub doc_map : List (List ℕ × DocInfo)
  pub positional_args : List (List ℕ)
  pub vars : Variables F D
