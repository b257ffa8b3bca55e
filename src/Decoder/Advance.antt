-- ===== src/Decoder/Advance.antt =====
-- src/include/dcd/clevel-decoder.h, ExpandActiveStates: the active states' tokens enter the arcs, and
-- every active state is deactivated. `none` is the read of a null entry of the list.
pub mod Emptied
use opendcd.Prelude.{
  ℕ, zero, suc, ◌+◌, Bool, true, false, Option, none, some, List, [], ◌∷◌, ℤ, pos, length, ltb,
  if◌then◌else◌,
}
use opendcd.Prelude.Float.{Float, add, lt, min}
use opendcd.Decoder.State.{SearchState, StateStore, entry_at, deactivate}
use opendcd.Decoder.Enter.{ArcStore, expand_into_arcs}

-- The decoder's fields that the expansion of the active states reads and writes.
pub record Search (F : Type 0) : Type 0 where
  pub states : StateStore F
  pub arcs : ArcStore F
  pub best_state_cost : F
  pub time : ℤ
  pub max_active_states : ℕ
  pub total_num_states_pruned : ℕ
  pub total_num_states_expanded : ℕ

-- `ss->NumEmitting()` as a condition
abbrev pub has_emitting : {F : Type 0} → SearchState F → Bool
has_emitting x = ltb 0 (length x.arcs)

module _ {F : Type 0} ⦃f : Float F⦄ (beam : F) where
  -- The token of the state at `a` enters its arcs, unless it is pruned.
  unfoldable pub enter_state_arcs : ℕ → Search F × F → Search F × F
  unfolding expand_into_arcs
  enter_state_arcs a (d, threshold) =
      let ss = d.states.state a in
      let (arcs, cost) = expand_into_arcs ss.token threshold d.time ss.arcs d.arcs in
      if has_emitting ss
      then (if lt threshold ss.token.cost
          then (record d { total_num_states_pruned = d.total_num_states_pruned + 1 }, threshold)
          else (
            record d { arcs = arcs; total_num_states_expanded = d.total_num_states_expanded + 1 },
            min threshold (add cost beam),
          ))
      else (d, threshold)

  -- One round of the loop: the arcs, then the deactivation.
  unfoldable pub leave_state : ℕ → Search F × F → Search F × F
  unfolding enter_state_arcs deactivate
  leave_state a r =
      let (d, threshold) = enter_state_arcs a r in
      (record d { states = deactivate a d.states }, threshold)

  -- `n` rounds of the loop over the positions of the list, from `i` on
  unfoldable pub leave_states : ℕ → ℕ → Search F × F → Option (Search F × F)
  leave_states zero i r = some r
  leave_states (suc n) i (d, threshold) = elim (entry_at d.states.active_states (pos i)) [
    | none ↦ none
    | some a ↦ leave_states n (i + 1) (leave_state a (d, threshold))
  ]

  -- CLevelDecoder::ExpandActiveStates
  unfoldable pub expand_active_states : Search F → Option (Search F)
  unfolding leave_states
  expand_active_states d =
      let n = length d.states.active_states in
      let d' : Search F = record d {
        max_active_states = if ltb d.max_active_states n then n else d.max_active_states;
      } in
      elim (leave_states n 0 (d', add d.best_state_cost beam)) [
        | none ↦ none
        | some r ↦ some (record r.0 { states = record r.0.states { active_states = [] } })
      ]
