-- ===== src/Decoder/Advance/Emptied.antt =====
-- src/include/dcd/clevel-decoder.h, ExpandActiveStates: the lists of active states and active arcs
-- after the expansion.
use opendcd.Prelude.{
  ℕ, zero, suc, ◌+◌, ◌≤◌, ◌<◌, ◌≡◌, refl, ap, ◌∙◌, inl, inr, true, false, Bool-cases, Option, none,
  some, List, [], pos, Has, length, length-set, set, get_elem?, get_elem?-set, get_elem?_bound,
  arith, ==_iff, ltb, if◌then◌else◌,
}
use opendcd.Prelude.Float.{Float, add, lt}
use opendcd.Decoder.Arc.{is_time}
use opendcd.Decoder.State.{StateStore, state_active, deactivate, null_at}
use opendcd.Decoder.State.Active.{IsActiveList, deactivate-IsActiveList}
use opendcd.Decoder.Enter.Listed.{IsListed, expand_into_arcs-IsEntered}
use opendcd.Decoder.Advance.{
  Search, has_emitting, enter_state_arcs, leave_state, leave_states, expand_active_states,
}

-- Every entry of the list from `i` on is a state.
abbrev pub IsFilled : List (Option ℕ) → ℕ → Type 0
IsFilled xs i = (j : ℕ) → i ≤ j → j < length xs → (a : ℕ) × (get_elem? xs j ≡ some (some a))

-- No entry before `i` is a state.
abbrev IsNulled : List (Option ℕ) → ℕ → Type 0
IsNulled xs i = (j a : ℕ) → j < i → ¬ (get_elem? xs j ≡ some (some a))

IsFilled-set : (xs : List (Option ℕ)) (i : ℕ) → IsFilled xs i → IsFilled (set xs i none) (i + 1)
IsFilled-set xs i h j k m =
    let (a, e) = h j (omega arith) (rw (length-set xs i none) at m) in
    (a, ground (arith, get_elem?-set xs i j none, ==_iff i j))

IsNulled-set : (xs : List (Option ℕ)) (i : ℕ) → IsNulled xs i → IsNulled (set xs i none) (i + 1)
IsNulled-set xs i h j a k e =
    ground (arith, get_elem?-set xs i j none, ==_iff i j, h j a, get_elem?_bound xs j (some a))

module _ {F : Type 0} ⦃f : Float F⦄ where
  -- With no state left in the list, it may as well be cleared.
  cleared-IsActiveList :
      (s : StateStore F)
      → IsActiveList s
      → IsNulled s.active_states (length s.active_states)
      → IsActiveList (record s { active_states = [] })
  cleared-IsActiveList s v h = record {
    at = λ a i. (
      λ e. ground arith,
      λ e.
          absurd
            (h i a (get_elem?_bound s.active_states i (some a) ((v.at a i).1 e)) ((v.at a i).1 e)),
    );
    token = v.token;
  }

  -- What the expansion keeps, of the decoder before and after.
  pub record IsKept (d d' : Search F) : Type 0 where
    pub active_list : IsActiveList d'.states
    pub arc_list : IsListed d'.arcs
    pub kept : (a : ℕ) → Has a d.arcs.active_arcs → Has a d'.arcs.active_arcs
    pub time : d'.time ≡ d.time

module _ {F : Type 0} ⦃f : Float F⦄ (beam : F) where
  states-enter_state_arcs :
      (a : ℕ) (d : Search F) (threshold : F)
      → ((enter_state_arcs beam a (d, threshold)).0.states ≡ d.states)
        × ((enter_state_arcs beam a (d, threshold)).0.time ≡ d.time)
  unfolding enter_state_arcs
  states-enter_state_arcs a d threshold = (ground arith, ground arith)

  enter_state_arcs-IsListed :
      (a : ℕ) (d : Search F) (threshold : F)
      → is_time d.time ≡ true
      → IsListed d.arcs
      → IsListed (enter_state_arcs beam a (d, threshold)).0.arcs
        × ((b : ℕ)
            → Has b d.arcs.active_arcs
            → Has b (enter_state_arcs beam a (d, threshold)).0.arcs.active_arcs)
  unfolding enter_state_arcs
  enter_state_arcs-IsListed a d threshold at v =
      let x = d.states.state a in
      let r = expand_into_arcs-IsEntered x.token threshold d.time at x.arcs d.arcs v in
      elim (Bool-cases (has_emitting x)) [
        | inr off ↦ rw (off, enter_state_arcs) (v, λ b h. h)
        | inl on ↦ elim (Bool-cases (lt threshold x.token.cost)) [
          | inl over ↦ rw (on, over, enter_state_arcs) (v, λ b h. h)
          | inr under ↦ rw (on, under, enter_state_arcs) (r.exact, r.kept)
        ]
      ]

  list-deactivate :
      (a i : ℕ) (s : StateStore F)
      → (s.state a).index ≡ pos i
      → (deactivate a s).active_states ≡ set s.active_states i none
  unfolding deactivate
  list-deactivate a i s e = ap (null_at s.active_states) e

  states-leave_state :
      (a : ℕ) (d : Search F) (threshold : F)
      → (leave_state beam a (d, threshold)).0.states ≡ deactivate a d.states
  unfolding leave_state
  states-leave_state a d threshold = ap (deactivate a) (states-enter_state_arcs a d threshold).0

  leave_state-IsKept :
      (a : ℕ) (d : Search F) (threshold : F)
      → is_time d.time ≡ true
      → IsActiveList d.states
      → IsListed d.arcs
      → IsKept d (leave_state beam a (d, threshold)).0
  leave_state-IsKept a d threshold at v w =
      let (listed, more) = enter_state_arcs-IsListed a d threshold at w in
      record {
        active_list = rw (states-leave_state a d threshold) (deactivate-IsActiveList a d.states v);
        arc_list = unfold leave_state in listed;
        kept = unfold leave_state in more;
        time = unfold leave_state in (states-enter_state_arcs a d threshold).1;
      }

  -- The loop from `i` on, when the entries before `i` are null and those from `i` on are not.
  leave_states-IsKept :
      (n i : ℕ) (d : Search F) (threshold : F)
      → is_time d.time ≡ true
      → IsActiveList d.states
      → IsListed d.arcs
      → IsFilled d.states.active_states i
      → IsNulled d.states.active_states i
      → i + n ≡ length d.states.active_states
      → (r : Search F × F) × (leave_states beam n i (d, threshold) ≡ some r)
        × IsKept d r.0
        × IsNulled r.0.states.active_states (length r.0.states.active_states)
  unfolding leave_states
  leave_states-IsKept zero i d threshold at v w full null len = (
    (d, threshold),
    refl,
    record { active_list = v; arc_list = w; kept = λ a h. h; time = refl },
    λ j a h. null j a (omega arith),
  )
  leave_states-IsKept (suc n) i d threshold at v w full null len =
      let xs = d.states.active_states in
      let (a, e) = full i (omega arith) (omega arith) in
      let next = leave_state beam a (d, threshold) in
      let k = leave_state-IsKept a d threshold at v w in
      let list : next.0.states.active_states ≡ set xs i none =
        ap (λ (s : StateStore F). s.active_states) (states-leave_state a d threshold)
        ∙ list-deactivate a i d.states ((v.at a i).0 e) in
      let (r, q, kept, done) =
        leave_states-IsKept n (i + 1) next.0 next.1 (rw k.time at) k.active_list k.arc_list
          (rw list (IsFilled-set xs i full)) (rw list (IsNulled-set xs i null))
          (rw (list, length-set xs i none) (omega arith)) in
      (
        r,
        rw (e, leave_states) q,
        record {
          active_list = kept.active_list;
          arc_list = kept.arc_list;
          kept = λ b h. kept.kept b (k.kept b h);
          time = kept.time ∙ k.time;
        },
        done,
      )

  -- ExpandActiveStates, at a time other than -1 and with exact lists of active states and arcs, meets
  -- no null entry when the list of active states has none. Afterwards the list of active states is
  -- empty and no state has a token; the list of active arcs is exact and has every arc that was on it.
  pub expand_active_states-IsKept :
      (d : Search F)
      → is_time d.time ≡ true
      → IsActiveList d.states
      → IsListed d.arcs
      → IsFilled d.states.active_states 0
      → (d' : Search F) × (expand_active_states beam d ≡ some d')
        × IsKept d d'
        × (d'.states.active_states ≡ [])
        × ((a : ℕ) → state_active (d'.states.state a) ≡ false)
  unfolding expand_active_states
  expand_active_states-IsKept d at v w full =
      let n = length d.states.active_states in
      let d1 : Search F = record d {
        max_active_states = if ltb d.max_active_states n then n else d.max_active_states;
      } in
      let (r, e, k, done) =
        leave_states-IsKept n 0 d1 (add d.best_state_cost beam) at v w full
          (λ j a h. absurd (omega arith)) (omega arith) in
      let empty = cleared-IsActiveList r.0.states k.active_list done in
      (
        record r.0 { states = record r.0.states { active_states = [] } },
        rw (e, expand_active_states) refl,
        record { active_list = empty; arc_list = k.arc_list; kept = k.kept; time = k.time },
        refl,
        λ a. elim (empty.token a) [
          | inl (on, i, q) ↦ absurd (let none' = (empty.at a i).1 q in ground arith)
          | inr (off, _) ↦ off
        ],
      )
