-- ===== src/Decoder/Enter.antt =====
-- src/include/dcd/clevel-decoder.h, ExpandIntoArcs: a state's token enters the arcs that leave it, and
-- arcs that were not active are pushed onto the decoder's list of active arcs. Search arcs live in a
-- store under addresses; `arcs_` of a state is the list of its arcs' addresses.
pub mod Listed
use opendcd.Prelude.{ℕ, ◌+◌, Bool, true, false, List, [], ◌∷◌, ◌++◌, ℤ, update, if◌then◌else◌}
use opendcd.Prelude.Float.{Float, min, max_cost}
use opendcd.Token.{Token}
use opendcd.Decoder.Arc.{SearchArc, set_entry_token, deactivate_arc}

pub record ArcStore (F : Type 0) : Type 0 where
  pub arc : ℕ → SearchArc F
  pub active_arcs : List ℕ

module _ {F : Type 0} ⦃f : Float F⦄ where
  -- SetEntryToken at an address, with the push onto the list
  unfoldable pub enter_arc : Token F → F → ℤ → ℕ → ArcStore F → ArcStore F × F
  enter_arc token threshold time a s =
      let (x, cost, pushed) = set_entry_token token threshold time true (s.arc a) in
      (
        record {
          arc = update s.arc a x;
          active_arcs = if pushed then s.active_arcs ++ a ∷ [] else s.active_arcs;
        },
        cost,
      )

  -- SearchState::ExpandIntoArcs, from the best cost so far
  unfoldable pub enter_arcs : Token F → F → ℤ → List ℕ → ArcStore F × F → ArcStore F × F
  unfolding enter_arc
  enter_arcs token threshold time [] r = r
  enter_arcs token threshold time (a ∷ arcs) (s, best) =
      let (s', cost) = enter_arc token threshold time a s in
      enter_arcs token threshold time arcs (s', min best cost)

  unfoldable pub expand_into_arcs : Token F → F → ℤ → List ℕ → ArcStore F → ArcStore F × F
  unfolding enter_arcs
  expand_into_arcs token threshold time arcs s = enter_arcs token threshold time arcs (s, max_cost)
