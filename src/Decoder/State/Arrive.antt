-- ===== src/Decoder/State/Arrive.antt =====
-- src/include/dcd/clevel-decoder.h, SetToken: the state that a token arrives in, with the list of active
-- states and the lattice.
use opendcd.Prelude.{
  ℕ, ◌≤◌, ◌<◌, ◌≡◌, ◌≢◌, refl, sym, ◌∙◌, inl, inr, true, some, ℤ, Has, arith, ==_iff,
}
use opendcd.Prelude.Float.{Float, key, max_cost, lt}
use opendcd.Token.{Token, active}
use opendcd.Lattice.{Lattice, LatticeOptions}
use opendcd.Lattice.Valid.{IsValid}
use opendcd.Decoder.Arc.{SearchArc, get_exit_token}
use opendcd.Decoder.State.{StateStore, set_token_from, arc_info, push_state, place}
use opendcd.Decoder.State.Active.{IsActiveList, push_state-IsActiveList, write_state-IsActiveList}
use opendcd.Decoder.State.Sync.{IsInSync, IsCombined, combine_lattice-IsCombined}

module _ {F : Type 0} ⦃f : Float F⦄ where
  active-some : (t : Token F) (b : ℕ) → t.tb ≡ some b → active t ≡ true
  unfolding active
  active-some t b e = rw e refl

  place-IsActiveList :
      (t : Token F) (time : ℤ) (a : ℕ) (s : StateStore F)
      → IsActiveList s
      → active t ≡ true
      → IsActiveList (place t time a s)
  unfolding place
  place-IsActiveList t time a s v on = elim (v.token a) [
    | inl (was, i, e) ↦ rw (e, place) (write_state-IsActiveList a _ s v (sym e) (on ∙ sym was))
    | inr (off, e) ↦
        rw (e, place)
          (push_state-IsActiveList a (record (s.state a) { token = t; last_activated = time }) s v e
            on)
  ]

  place-same :
      (t : Token F) (time : ℤ) (a b : ℕ) (s : StateStore F)
      → (((place t time a s).state a).token ≡ t) × (b ≢ a → (place t time a s).state b ≡ s.state b)
  unfolding place push_state
  place-same t time a b s = (ground (arith, ==_iff a a), λ n. ground (arith, ==_iff a b))

  -- What SetToken promises of the state at `a`, into which a token arrives over `arc`.
  pub record IsArrived (arc : SearchArc F) (a : ℕ) (s s' : StateStore F) (l' : Lattice F) (cost : F)
      : Type 0 where
    pub exact : IsActiveList s'
    pub combined : IsCombined (s.state a).token (get_exit_token arc) (s'.state a).token cost l'
    pub others : (b : ℕ) → b ≢ a → s'.state b ≡ s.state b

  -- SetToken for an exit token under the threshold, which is at most kMaxCost, succeeds when its
  -- traceback is a lattice state in use, the lattice is valid, the list of active states is exact, and
  -- the token of the search state has the forward cost of its lattice state. The list stays exact and
  -- the lattice valid; the state has the least of its own cost and that of the arrival, which is again
  -- the forward cost of its lattice state; the cost of the arrival is returned; and no other search
  -- state changes.
  pub set_token_from-IsArrived :
      (arc : SearchArc F) (time : ℤ) (threshold : F) (opts : LatticeOptions F) (a src : ℕ)
      (s : StateStore F) (l : Lattice F)
      → IsActiveList s
      → IsValid l
      → IsInSync (s.state a).token l
      → (get_exit_token arc).tb ≡ some src
      → Has src l.used_list
      → key (get_exit_token arc).cost < key threshold
      → key threshold ≤ key {F = F} max_cost
      → (costs : F × F) × (s' : StateStore F) × (l' : Lattice F) × (set_token_from arc time
            threshold opts a s l
          ≡ some (costs, s', l'))
        × IsArrived arc a s s' l' costs.0
  unfolding set_token_from
  set_token_from-IsArrived arc time threshold opts a src s l v w sync from used under bound =
      let less : lt (get_exit_token arc).cost threshold ≡ true = ground arith in
      let (t, costs, l', e, c) =
        combine_lattice-IsCombined (s.state a).token (get_exit_token arc) (arc_info arc)
          arc.nextstate time opts l src w from used (omega arith) sync in
      let (b, tb, _, _) = c.sync in
      (
        costs,
        place t time a s,
        l',
        rw (less, set_token_from) (rw e refl),
        record {
          exact = place-IsActiveList t time a s v (active-some t b tb);
          combined = rw ((place-same t time a a s).0) c;
          others = λ b n. (place-same t time a b s).1 n;
        },
      )
