-- ===== src/Decoder/Enter/Listed.antt =====
-- src/include/dcd/clevel-decoder.h, ExpandIntoArcs: the list of active arcs against the arcs' own state,
-- and the cost of the entries.
use opendcd.Prelude.{
  sym, ℕ, ◌≤◌, ◌<◌, ◌≡◌, refl, ◌⊎◌, inl, inr, ◌↔◌, true, false, Bool-cases, List, [], ◌∷◌, ◌++◌,
  Has, Has-append, NoDup, ℤ, update, arith, ==_iff, ◌==◌,
}
use opendcd.Prelude.Float.{Float, key, add, min, min-le, max_cost}
use opendcd.Token.{Token}
use opendcd.Decoder.Arc.{SearchArc, is_time, arc_active, set_entry_token}
use opendcd.Decoder.Enter.{ArcStore, enter_arc, enter_arcs, expand_into_arcs}

NoDup-snoc : (xs : List ℕ) (a : ℕ) → NoDup xs → ¬ Has a xs → NoDup (xs ++ a ∷ [])
NoDup-snoc [] a h n = (λ k. k, tt)
NoDup-snoc (x ∷ xs) a h n = (
  λ k. elim ((Has-append x xs (a ∷ [])).0 k) [
    | inl old ↦ h.0 old
    | inr new ↦ elim new [ inl e ↦ n (inl (sym e)) | inr none' ↦ none' ]
  ],
  NoDup-snoc xs a h.1 (λ k. n (inr k)),
)

module _ {F : Type 0} ⦃f : Float F⦄ where
  pub record IsListed (s : ArcStore F) : Type 0 where
    pub listed : (a : ℕ) → Has a s.active_arcs ↔ (arc_active (s.arc a) ≡ true)
    pub nodup : NoDup s.active_arcs

  -- An arc that becomes active is appended.
  IsListed-push :
      (a : ℕ) (s : ArcStore F) (x : SearchArc F)
      → IsListed s
      → arc_active (s.arc a) ≡ false
      → arc_active x ≡ true
      → IsListed (record { arc = update s.arc a x; active_arcs = s.active_arcs ++ a ∷ [] })
  IsListed-push a s x v off on = record {
    listed = λ b. ground (arith, Has-append b s.active_arcs (a ∷ []), v.listed b, ==_iff a b);
    nodup = NoDup-snoc s.active_arcs a v.nodup (λ h. ground (arith, (v.listed a).0 h));
  }

  -- A write that leaves the activity of the arc alone.
  IsListed-write :
      (a : ℕ) (s : ArcStore F) (x : SearchArc F)
      → IsListed s
      → arc_active x ≡ arc_active (s.arc a)
      → IsListed (record s { arc = update s.arc a x })
  IsListed-write a s x v same = record {
    listed = λ b. elim (Bool-cases (a == b)) [
      | inl e ↦ rw (e, same, (==_iff a b).0 e) (v.listed b)
      | inr n ↦ rw n (v.listed b)
    ];
    nodup = v.nodup;
  }

  module _ (token : Token F) (threshold : F) (time : ℤ) (at : is_time time ≡ true) where
    -- whether SetEntryToken pushes, and whether the arc is active afterwards
    set_entry_token-pushes :
        (x : SearchArc F)
        → (((set_entry_token token threshold time true x).2 ≡ true)
            × (arc_active x ≡ false)
            × (arc_active (set_entry_token token threshold time true x).0 ≡ true))
          ⊎ (((set_entry_token token threshold time true x).2 ≡ false)
              × (arc_active (set_entry_token token threshold time true x).0 ≡ arc_active x))
    unfolding set_entry_token
    set_entry_token-pushes x = ground arith

    set_entry_token-cost :
        (x : SearchArc F)
        → key (add token.cost x.weight) < key threshold
        → key (set_entry_token token threshold time true x).1 ≤ key (add token.cost x.weight)
    unfolding set_entry_token
    set_entry_token-cost x h = ground arith

    IsListed-enter_arc :
        (a : ℕ) (s : ArcStore F) → IsListed s → IsListed (enter_arc token threshold time a s).0
    unfolding enter_arc
    IsListed-enter_arc a s v = elim (set_entry_token-pushes (s.arc a)) [
      | inl (push, off, on) ↦ rw (push, enter_arc) (IsListed-push a s _ v off on)
      | inr (keep, same) ↦ rw (keep, enter_arc) (IsListed-write a s _ v same)
    ]

    -- What an entry does to a search arc: its weight stays, and under the threshold it is active.
    set_entry_token-enters :
        (x : SearchArc F)
        → ((set_entry_token token threshold time true x).0.weight ≡ x.weight)
          × (key (add token.cost x.weight) < key threshold
              → arc_active (set_entry_token token threshold time true x).0 ≡ true)
    unfolding set_entry_token
    set_entry_token-enters x = (ground arith, λ h. ground arith)

    weight-enter_arc :
        (a b : ℕ) (s : ArcStore F)
        → ((enter_arc token threshold time a s).0.arc b).weight ≡ (s.arc b).weight
    unfolding enter_arc
    weight-enter_arc a b s = ground (arith, (set_entry_token-enters (s.arc a)).0, ==_iff a b)

    Has-enter_arc :
        (a b : ℕ) (s : ArcStore F)
        → Has b s.active_arcs
        → Has b (enter_arc token threshold time a s).0.active_arcs
    unfolding enter_arc
    Has-enter_arc a b s h = ground (arith, Has-append b s.active_arcs (a ∷ []))

    enter_arc-enters :
        (a : ℕ) (s : ArcStore F)
        → IsListed s
        → key (add token.cost (s.arc a).weight) < key threshold
        → Has a (enter_arc token threshold time a s).0.active_arcs
          × (key (enter_arc token threshold time a s).1 ≤ key (add token.cost (s.arc a).weight))
    unfolding enter_arc
    enter_arc-enters a s v h = (
      ((IsListed-enter_arc a s v).listed a).1
          (rw ((==_iff a a).1 refl) ((set_entry_token-enters (s.arc a)).1 h)),
      set_entry_token-cost (s.arc a) h,
    )

    -- What the entries into `arcs` promise: the list stays exact and keeps its arcs, every arc whose
    -- cost is under the threshold is on it, and the returned cost is no higher than any such cost.
    pub record IsEntered (arcs : List ℕ) (s s' : ArcStore F) (best best' : F) : Type 0 where
      pub exact : IsListed s'
      pub kept : (a : ℕ) → Has a s.active_arcs → Has a s'.active_arcs
      pub best_lower : key best' ≤ key best
      pub entered :
          (a : ℕ)
          → Has a arcs
          → key (add token.cost (s.arc a).weight) < key threshold
          → Has a s'.active_arcs × (key best' ≤ key (add token.cost (s.arc a).weight))

    enter_arcs-IsEntered :
        (arcs : List ℕ) (s : ArcStore F) (best : F)
        → IsListed s
        → IsEntered arcs s
            (enter_arcs token threshold time arcs (s, best)).0
            best
            (enter_arcs token threshold time arcs (s, best)).1
    unfolding enter_arcs
    enter_arcs-IsEntered [] s best v = record {
      exact = v;
      kept = λ a h. h;
      best_lower = omega arith;
      entered = λ a h k. elim h [ ];
    }
    enter_arcs-IsEntered (a ∷ arcs) s best v =
        let next = enter_arc token threshold time a s in
        let rest = enter_arcs-IsEntered arcs next.0 (min best next.1) (IsListed-enter_arc a s v) in
        record {
          exact = rest.exact;
          kept = λ b h. rest.kept b (Has-enter_arc a b s h);
          best_lower = ground (arith, rest.best_lower);
          entered = λ b h k. elim h [
            | inl e ↦
                let (on, le) = enter_arc-enters a s v (rw (sym e) k) in
                rw e (rest.kept a on, omega (arith, rest.best_lower, (min-le best next.1).1, le))
            | inr later ↦
                let after = rest.entered b later in
                let go = rw (weight-enter_arc a b s) at after in go k
          ];
        }

    -- ExpandIntoArcs keeps the list of active arcs exact, each active arc being on it once and no
    -- other. Every arc whose entry cost is under the threshold is on the list afterwards, and the cost
    -- that it returns is no higher than kMaxCost and than that of any such arc. The time is not -1.
    pub expand_into_arcs-IsEntered :
        (arcs : List ℕ) (s : ArcStore F)
        → IsListed s
        → IsEntered arcs s
            (expand_into_arcs token threshold time arcs s).0
            max_cost
            (expand_into_arcs token threshold time arcs s).1
    unfolding expand_into_arcs
    expand_into_arcs-IsEntered arcs s v = enter_arcs-IsEntered arcs s max_cost v
