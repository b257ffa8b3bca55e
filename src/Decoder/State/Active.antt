-- ===== src/Decoder/State/Active.antt =====
-- src/include/dcd/clevel-decoder.h, Activate and Deactivate: the list of active states against the
-- positions and tokens of the states.
use opendcd.Prelude.{
  ℕ, ◌≤◌, ◌≡◌, ◌≢◌, refl, sym, ◌⊎◌, inl, inr, ◌↔◌, true, false, Bool-cases, none, some, ℤ, pos,
  negsuc, update, length, get_elem?, get_elem?-snoc, get_elem?-set, get_elem?_bound, arith, ==_iff,
  ◌==◌,
}
use opendcd.Prelude.Float.{Float, key}
use opendcd.Token.{Token, active, clear}
use opendcd.Decoder.State.{
  SearchState, StateStore, state_active, push_state, refresh, wake, activate, deactivate, entry_at,
  is_at,
}

module _ {F : Type 0} ⦃f : Float F⦄ where
  -- A state that has a token stores its position in the list, and one that has none stores -1. An
  -- entry of the list that is not null is the state that stores this position.
  pub record IsActiveList (s : StateStore F) : Type 0 where
    pub at : (a i : ℕ) → (get_elem? s.active_states i ≡ some (some a)) ↔ ((s.state a).index ≡ pos i)
    pub token :
        (a : ℕ)
        → ((state_active (s.state a) ≡ true) × (i : ℕ) × ((s.state a).index ≡ pos i))
          ⊎ ((state_active (s.state a) ≡ false) × ((s.state a).index ≡ negsuc 0))

  pub push_state-IsActiveList :
      (a : ℕ) (x : SearchState F) (s : StateStore F)
      → IsActiveList s
      → (s.state a).index ≡ negsuc 0
      → state_active x ≡ true
      → IsActiveList (push_state a x s)
  unfolding push_state
  push_state-IsActiveList a x s v off on = record {
    at = λ b i.
        ground (arith, get_elem?-snoc s.active_states (some a) (some b) i, v.at b i, ==_iff a b);
    token = λ b. elim (Bool-cases (a == b)) [
      | inl e ↦ rw e (inl (on, length s.active_states, refl))
      | inr n ↦ rw n (v.token b)
    ];
  }

  -- A write that leaves the position of the state alone, and whether it has a token.
  pub write_state-IsActiveList :
      (a : ℕ) (x : SearchState F) (s : StateStore F)
      → IsActiveList s
      → x.index ≡ (s.state a).index
      → state_active x ≡ state_active (s.state a)
      → IsActiveList (record s { state = update s.state a x })
  write_state-IsActiveList a x s v same on = record {
    at = λ b i. elim (Bool-cases (a == b)) [
      | inl e ↦ rw (e, same, (==_iff a b).0 e) (v.at b i)
      | inr n ↦ rw n (v.at b i)
    ];
    token = λ b. elim (Bool-cases (a == b)) [
      | inl e ↦ rw (e, same, on, (==_iff a b).0 e) (v.token b)
      | inr n ↦ rw n (v.token b)
    ];
  }

  pub deactivate-IsActiveList :
      (a : ℕ) (s : StateStore F) → IsActiveList s → IsActiveList (deactivate a s)
  unfolding deactivate clear active
  deactivate-IsActiveList a s v = elim (v.token a) [
    | inl (on, i, e) ↦ record {
      at = λ b j. ground (
        arith,
        get_elem?-set s.active_states i j none,
        get_elem?_bound s.active_states i (some a),
        v.at a i,
        v.at b j,
        v.at b i,
        ==_iff a b,
        ==_iff i j,
        e,
      );
      token = λ b. elim (Bool-cases (a == b)) [
        | inl q ↦ rw q (inr (refl, refl))
        | inr n ↦ rw n (v.token b)
      ];
    }
    | inr (off, e) ↦ rw (e, deactivate) (write_state-IsActiveList a _ s v (sym e) (sym off))
  ]

  -- What Activate promises of the state at `a`: it has the better of its token and the new one.
  pub record IsActivated (token : Token F) (a : ℕ) (s s' : StateStore F) : Type 0 where
    pub exact : IsActiveList s'
    pub lower : key (s'.state a).token.cost ≤ key token.cost
    pub improves :
        (state_active (s.state a) ≡ false)
        ⊎ (key (s'.state a).token.cost ≤ key (s.state a).token.cost)
    pub choice :
        ((s'.state a).token ≡ token)
        ⊎ ((state_active (s.state a) ≡ true) × ((s'.state a).token ≡ (s.state a).token))
    pub others : (b : ℕ) → b ≢ a → s'.state b ≡ s.state b

  listed-is_at :
      (a i : ℕ) (s : StateStore F)
      → IsActiveList s
      → (s.state a).index ≡ pos i
      → is_at (entry_at s.active_states (s.state a).index) a ≡ true
  listed-is_at a i s v e = ground (arith, (v.at a i).1 e, ==_iff a a)

  refresh-IsActivated :
      (token : Token F) (time : ℤ) (a : ℕ) (s : StateStore F)
      → IsActiveList s
      → active token ≡ true
      → state_active (s.state a) ≡ true
      → IsActivated token a s
          (record s { state = update s.state a (refresh token time (s.state a)) })
  unfolding refresh
  refresh-IsActivated token time a s v on was = record {
    exact = write_state-IsActiveList a (refresh token time (s.state a)) s v refl (ground arith);
    lower = ground (arith, ==_iff a a);
    improves = inr (ground (arith, ==_iff a a));
    choice = ground (arith, ==_iff a a);
    others = λ b n. ground (arith, ==_iff a b);
  }

  wake-IsActivated :
      (token : Token F) (time : ℤ) (a : ℕ) (s : StateStore F)
      → IsActiveList s
      → active token ≡ true
      → state_active (s.state a) ≡ false
      → (s.state a).index ≡ negsuc 0
      → IsActivated token a s (push_state a (wake token time (s.state a)) s)
  unfolding wake push_state
  wake-IsActivated token time a s v on off e = record {
    exact = push_state-IsActiveList a (wake token time (s.state a)) s v e on;
    lower = ground (arith, ==_iff a a);
    improves = inl off;
    choice = ground (arith, ==_iff a a);
    others = λ b n. ground (arith, ==_iff a b);
  }

  -- Activate with an active token succeeds on a store whose list of active states is exact. The list
  -- stays exact, the state has the token with the lower cost of its own and the new one, the new one
  -- if it had none, and no other state changes.
  pub activate-IsActivated :
      (token : Token F) (time : ℤ) (a : ℕ) (s : StateStore F)
      → IsActiveList s
      → active token ≡ true
      → (s' : StateStore F) × (activate token time a s ≡ some s') × IsActivated token a s s'
  unfolding activate
  activate-IsActivated token time a s v on = elim (v.token a) [
    | inl (was, i, e) ↦ (
      record s { state = update s.state a (refresh token time (s.state a)) },
      rw (was, activate) (rw (listed-is_at a i s v e) refl),
      refresh-IsActivated token time a s v on was,
    )
    | inr (off, e) ↦ (
      push_state a (wake token time (s.state a)) s,
      rw (off, activate) refl,
      wake-IsActivated token time a s v on off e,
    )
  ]
