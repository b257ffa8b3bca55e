-- ===== src/HLevel/Path.antt =====
-- src/include/dcd/hlevel-decoder.h, ReachedFinal and GetBestPath. The output transducer is the list of the
-- arcs of its one path, from its start on, with the weight of the last state.
use opendcd.Prelude.{
  ℕ, zero, suc, ◌+◌, Bool, false, not, Option, none, some, List, [], ◌∷◌, ◌++◌, ◌==◌, ◌||◌, ◌&&◌,
  if◌then◌else◌,
}
use opendcd.Prelude.Float.{Float, key, sub, lt}
use opendcd.Prelude.Partial.{◌>>=◌}
use opendcd.HashList.{Elem}
use opendcd.HLevel.{HToken, Tokens}
use opendcd.HLevel.Cutoff.{listed}
use opendcd.HLevel.Frame.{HLevelDecoder, Setting}

-- KaldiLatticeArc with its two costs
pub record PathArc (F : Type 0) : Type 0 where
  pub ilabel : ℕ
  pub olabel : ℕ
  pub graph_cost : F
  pub ac_cost : F

-- The path, its final weight and the cost that is returned
pub record BestPath (F : Type 0) : Type 0 where
  pub arcs : List (PathArc F)
  pub final_cost : F
  pub cost : F

module _ {F : Type 0} ⦃f : Float F⦄ where
  -- The comparison of two weights for equality
  unfoldable pub same_weight : F → F → Bool
  same_weight a b = key a == key b

  -- The weight of an element with the final weight of its state
  unfoldable pub final_of : Setting F → (ℕ → Elem ℕ) → ℕ × F → F
  final_of c cell (e, w) = c.lib.times w (c.fst.final (cell e).key)

  -- The loop of ReachedFinal
  unfoldable pub any_final : Setting F → (ℕ → Elem ℕ) → List (ℕ × F) → Bool
  unfolding same_weight final_of
  any_final c cell [] = false
  any_final c cell (x ∷ l) =
      not (same_weight (final_of c cell x) c.lib.zero_weight) || any_final c cell l

  -- ReachedFinal
  unfoldable pub reached_final : Setting F → HLevelDecoder F → Option Bool
  unfolding listed any_final
  reached_final c d =
      listed (d.toks.memory.fresh + 1) d.toks.memory.cell d.tokens d.toks.list_head >>= λ l.
      some (any_final c d.toks.memory.cell l)

  -- The loop without final weights: the element whose token is best
  unfoldable pub best_of_all : Option (ℕ × F) → List (ℕ × F) → Option (ℕ × F)
  best_of_all best [] = best
  best_of_all none (x ∷ l) = best_of_all (some x) l
  best_of_all (some b) (x ∷ l) = best_of_all (some (if lt x.1 b.1 then x else b)) l

  -- The loop over the final states, with the best weight so far
  unfoldable pub best_final_of :
      Setting F → (ℕ → Elem ℕ) → F → Option (ℕ × F) → List (ℕ × F) → Option (ℕ × F)
  unfolding same_weight final_of
  best_final_of c cell weight best [] = best
  best_final_of c cell weight best (x ∷ l) =
      let w = final_of c cell x in
      let better = not (same_weight w c.lib.zero_weight) && lt w weight in
      best_final_of c cell (if better then w else weight) (if better then some x else best) l

  -- The arc of a token, with the costs that it adds to those of `before`
  unfoldable pub path_arc : HToken F → F → PathArc F
  path_arc t before = record {
    ilabel = t.arc.ilabel;
    olabel = t.arc.olabel;
    graph_cost = t.arc.weight;
    ac_cost = sub (sub t.weight before) t.arc.weight;
  }

  -- The arcs of the path to a token, without that of the first token, which stands for no arc
  unfoldable pub trace : ℕ → Tokens F → ℕ → Option (List (PathArc F))
  unfolding path_arc
  trace zero s a = none
  trace (suc n) s a = s.cell a >>= λ t. elim t.prev [
    | none ↦ some []
    | some p ↦
        s.cell p >>= λ before. trace n s p >>= λ arcs. some (arcs ++ path_arc t before.weight ∷ [])
  ]

  -- GetBestPath with a best token; a chain has fewer than `n` tokens
  unfoldable pub path_of : ℕ → Setting F → Bool → HLevelDecoder F → ℕ × F → Option (BestPath F)
  unfolding trace
  path_of n c is_final d (e, w) =
      let a = (d.toks.memory.cell e).val in
      d.tokens.cell a >>= λ t. trace n d.tokens a >>= λ arcs. some record {
        arcs = arcs;
        final_cost = if is_final then c.fst.final t.arc.nextstate else c.lib.one_weight;
        cost = w;
      }

  -- GetBestPath; without a token it returns the float 0 of `return false` and no path
  unfoldable pub get_best_path : Setting F → HLevelDecoder F → Option (Option (BestPath F))
  unfolding reached_final listed any_final best_of_all best_final_of path_of
  get_best_path c d =
      listed (d.toks.memory.fresh + 1) d.toks.memory.cell d.tokens d.toks.list_head >>= λ l.
      reached_final c d >>= λ is_final.
      elim (if is_final
        then best_final_of c d.toks.memory.cell c.lib.zero_weight none l
        else best_of_all none l) [
          | none ↦ some none
          | some best ↦ path_of (d.tokens.fresh + 1) c is_final d best >>= λ path. some (some path)
        ]
