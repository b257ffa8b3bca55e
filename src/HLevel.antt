-- ===== src/HLevel.antt =====
-- src/include/dcd/hlevel-decoder.h: the class HLevelDecoder and its tokens. A token is a cell of a store
-- under its address, `none` is a cell without a token: one that was never made, or whose destructor has
-- started. The transducer and its weights are the library's: Times and the weights Zero and One are
-- parameters, and ArcIterator goes through a list. A result `none` is a null or dangling pointer that
-- is followed, an access out of bounds or a loop that does not end. The reference counts, an int32 in the
-- source, are unbounded. KALDI_ASSERT is an empty macro, and the destructor's assertion that the count is 1
-- is left out: HTokenDelete, the only caller, has just tested that.
pub mod Refs
pub mod Cutoff
pub mod Frame
pub mod Epsilon
pub mod Path
pub mod Decode
use opendcd.Prelude.{ℕ, zero, suc, ◌+◌, ◌-◌, Option, none, some, List, update, ◌==◌, if◌then◌else◌}
use opendcd.Prelude.Partial.{◌>>=◌}
use opendcd.ArcExpand.{Arc}

-- The values of TropicalWeight
pub record Tropical (F : Type 0) : Type 0 where
  pub times : F → F → F
  pub zero_weight : F
  pub one_weight : F

-- The transducer: Start, Final and the arcs
pub record Graph (F : Type 0) : Type 0 where
  pub start : Option ℕ
  pub final : ℕ → F
  pub arcs : ℕ → List (Arc F)

-- max_active is not negative, as the constructor's assertion asks (it asks for more than 1).
pub record HLevelDecoderOptions (F : Type 0) : Type 0 where
  pub beam : F
  pub max_active : ℕ
  pub beam_delta : F
  pub hash_ratio : F
  pub acoustic_scale : F

pub record HToken (F : Type 0) : Type 0 where
  pub arc : Arc F
  pub prev : Option ℕ
  pub ref_count : ℕ
  pub weight : F

pub record Tokens (F : Type 0) : Type 0 where
  pub cell : ℕ → Option (HToken F)
  pub fresh : ℕ

module _ {F : Type 0} where
  -- `new HToken`, with the weight that its constructor computes
  unfoldable pub add_token : Arc F → F → Option ℕ → Tokens F → ℕ × Tokens F
  add_token arc w prev s = (
    s.fresh,
    record {
      cell =
          update s.cell s.fresh (some record { arc = arc; prev = prev; ref_count = 1; weight = w });
      fresh = s.fresh + 1;
    },
  )

  -- prev->ref_count_++
  unfoldable pub count_up : ℕ → HToken F → Tokens F → Tokens F
  count_up p t s = record s {
    cell = update s.cell p (some (record t { ref_count = t.ref_count + 1 }));
  }

  -- The weight of a new token; `ac` is the acoustic weight in the constructor that takes one.
  unfoldable pub arc_weight : Tropical F → F → Option F → F
  arc_weight l w none = w
  arc_weight l w (some ac) = l.times w ac

  -- The two constructors of HToken
  unfoldable pub new_token :
      Tropical F → Arc F → Option F → Option ℕ → Tokens F → Option (ℕ × Tokens F)
  unfolding add_token count_up arc_weight
  new_token l arc ac none s = some (add_token arc (arc_weight l arc.weight ac) none s)
  new_token l arc ac (some p) s = s.cell p >>= λ t.
      some (add_token arc (arc_weight l (l.times t.weight arc.weight) ac) (some p) (count_up p t s))

  -- ref_count_--
  unfoldable pub count_down : ℕ → HToken F → Tokens F → Tokens F
  count_down a t s = record s {
    cell = update s.cell a (some (record t { ref_count = t.ref_count - 1 }));
  }

  -- HTokenDelete with the destructor, for a chain of fewer than `n` tokens
  unfoldable pub token_delete : ℕ → ℕ → Tokens F → Option (Tokens F)
  unfolding count_down
  token_delete zero a s = none
  token_delete (suc n) a s = elim (s.cell a) [
    | none ↦ none
    | some t ↦
        let s' : Tokens F = record s { cell = update s.cell a none } in
        let rest : Option (Tokens F) = elim t.prev [
          | none ↦ some s'
          | some p ↦ token_delete n p s'
        ] in
        if t.ref_count == 1 then rest else some (count_down a t s)
  ]
