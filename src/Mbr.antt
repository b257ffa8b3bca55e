-- ===== src/Mbr.antt =====
-- src/include/dcd/mbr-decode.h: the parts of minimum Bayes risk decoding on word sequences. A transducer is
-- a parameter: a start state, if there is one, the arcs that leave a state in their order, and final
-- weights, of which only equality with Zero and the products are used. A word is its label, 0 being
-- epsilon.
pub mod Epsilon
pub mod Linear
use opendcd.Prelude.{
  ℕ, zero, suc, ◌+◌, ◌-◌, ◌*◌, Bool, true, false, not, Option, none, some, List, [], ◌∷◌, ◌++◌,
  length, get_or, set, replicate, ◌==◌, ◌&&◌, if◌then◌else◌,
}

-- RemoveEps, with the erase of what remove_if moved to the end
unfoldable pub remove_eps : List ℕ → List ℕ
remove_eps [] = []
remove_eps (w ∷ vec) = let rest = remove_eps vec in if w == 0 then rest else w ∷ rest

-- resize to a greater size
abbrev pub grow : List ℕ → ℕ → List ℕ
grow vec size = vec ++ replicate (size - length vec) 0

-- The body of the loop of NormalizeEps
unfoldable pub spread_word : ℕ → List ℕ → List ℕ
spread_word i vec = set (set vec (i * 2 + 1) (get_or vec i 0)) (i * 2 + 2) 0

-- The loop of NormalizeEps for `i` from one less than its argument down to 0
unfoldable pub spread_words : ℕ → List ℕ → List ℕ
unfolding spread_word
spread_words zero vec = vec
spread_words (suc i) vec = spread_words i (spread_word i vec)

-- NormalizeEps
unfoldable pub normalize_eps : List ℕ → List ℕ
unfolding remove_eps spread_words
normalize_eps vec =
    let words = remove_eps vec in
    set (spread_words (length words) (grow words (1 + length words * 2))) 0 0

pub record Arc (W : Type 0) : Type 0 where
  pub ilabel : ℕ
  pub olabel : ℕ
  pub weight : W
  pub nextstate : ℕ

pub record Fst (W : Type 0) : Type 0 where
  pub start : Option ℕ
  pub arcs : ℕ → List (Arc W)
  pub final : ℕ → W

pub record Semiring (W : Type 0) : Type 0 where
  pub one_weight : W
  pub zero_weight : W
  pub times : W → W → W
  pub is_zero : W → Bool

-- What GetLinearSymbolSequence returns: the result with the sequences and the weight if it is true.
pub record Sequence (W : Type 0) : Type 0 where
  pub isymbols : List ℕ
  pub osymbols : List ℕ
  pub total : W

-- `if (label != 0) seq.push_back(label)`
abbrev pub push_label : List ℕ → ℕ → List ℕ
push_label seq label = if label == 0 then seq else seq ++ label ∷ []

module _ {W : Type 0} (ring : Semiring W) (fst : Fst W) where
  -- The branch of the loop at a state that is not final: its only arc, if it has one.
  unfoldable pub only_arc : List (Arc W) → Option (Arc W)
  only_arc [] = none
  only_arc (a ∷ []) = some a
  only_arc (a ∷ b ∷ rest) = none

  abbrev pub is_none : List (Arc W) → Bool
  is_none [] = true
  is_none (a ∷ rest) = false

  unfoldable pub follow_arc : Arc W → Sequence W → Sequence W
  follow_arc a r = record {
    isymbols = push_label r.isymbols a.ilabel;
    osymbols = push_label r.osymbols a.olabel;
    total = ring.times a.weight r.total;
  }

  -- The loop of GetLinearSymbolSequence: `none` is out of fuel, `some none` the result false.
  unfoldable pub linear_loop : ℕ → ℕ → Sequence W → Option (Option (Sequence W))
  unfolding only_arc follow_arc
  linear_loop zero q r = none
  linear_loop (suc n) q r =
      if not (ring.is_zero (fst.final q))
      then (if is_none (fst.arcs q)
          then some (some (record r { total = ring.times (fst.final q) r.total }))
          else some none)
      else elim (only_arc (fst.arcs q)) [
        | none ↦ some none
        | some a ↦ linear_loop n a.nextstate (follow_arc a r)
      ]

  -- GetLinearSymbolSequence
  unfoldable pub get_linear_symbol_sequence : ℕ → Option (Option (Sequence W))
  unfolding linear_loop
  get_linear_symbol_sequence n = elim fst.start [
    | none ↦ some (some (record { isymbols = []; osymbols = []; total = ring.zero_weight }))
    | some q ↦ linear_loop n q (record { isymbols = []; osymbols = []; total = ring.one_weight })
  ]
