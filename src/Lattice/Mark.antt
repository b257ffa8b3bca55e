-- ===== src/Lattice/Mark.antt =====
-- src/include/dcd/lattice.h, State::GcMark: the marking phase of the lattice's garbage collection.
-- `marked_` is 0 in an unmarked state, and counts the visits of a marked one. The recursion takes
-- fuel for the depth of the call stack, and `none` says that it ran out.
pub mod Reach
pub mod Cycle
use opendcd.Prelude.{
  ℕ, zero, suc, ◌+◌, Bool, Option, none, some, List, [], ◌∷◌, update, ltb, if◌then◌else◌,
}
use opendcd.Lattice.{State, preds}

abbrev pub Cells : Type 0 → Type 0
Cells F = ℕ → State F

infixl 5 ◌>>=◌
abbrev pub ◌>>=◌ : {A B : Type 0} → Option A → (A → Option B) → Option B
none >>= k = none
some a >>= k = k a

module _ {F : Type 0} where
  -- State::GcMarked
  abbrev pub gc_marked : State F → Bool
  gc_marked s = ltb 0 s.marked

  abbrev pub set_marked : ℕ → State F → State F
  set_marked n s = record s { marked = n }

  -- Runs a marking step at each address of the list in turn.
  unfoldable pub mark_all : (Cells F → ℕ → Option (Cells F)) → Cells F → List ℕ → Option (Cells F)
  mark_all m c [] = some c
  mark_all m c (p ∷ ps) = m c p >>= λ c'. mark_all m c' ps

  unfoldable pub gc_mark : ℕ → Cells F → ℕ → Option (Cells F)
  gc_mark zero c a = none
  gc_mark (suc n) c a =
      if gc_marked (c a)
      then some (update c a (set_marked ((c a).marked + 1) (c a)))
      else mark_all (gc_mark n) c (preds (c a)) >>= λ c'. some (update c' a (set_marked 1 (c' a)))
