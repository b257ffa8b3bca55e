-- ===== src/Decoder/Compaction/Kept.antt =====
-- src/include/dcd/clevel-decoder.h, ExpandActiveArcs: the list of active arcs after a frame.
use opendcd.Prelude.{
  ℕ, zero, suc, ◌+◌, ◌≤◌, ◌≡◌, refl, sym, ap, ◌∙◌, subst, Bool-cases, Option, none, some,
  Option-cases, List, [], ◌∷◌, ◌++◌, append-nil, append_assoc, All, length, set, get_elem?, ℤ, pos,
  negsuc, arith, inl, inr,
}
use opendcd.Prelude.Partial.{Ends, bind-Ends}
use opendcd.Prelude.Float.{Float, key, add, lt, le, max_cost}
use opendcd.Lattice.{LatticeOptions}
use opendcd.Decoder.Arc.{SearchArc, arc_active, get_best_cost, get_exit_cost, deactivate_arc}
use opendcd.Decoder.State.{SearchState, set_token_from}
use opendcd.Decoder.Hash.{find_search_state}
use opendcd.Decoder.Expansion.{ArcSearch, ArcSearchOptions}
use opendcd.Decoder.Expansion.Exact.{IsExact, IsExact-drop, same-active}
use opendcd.Decoder.Compaction.{
  Frame, compact_entries, exit_arc, expand_to_following_state, find_dest, find_next_state,
  leave_arc, list_compaction, lower_threshold, remove_arc,
}

-- Where the item at place `i` is in a list with one more item at place `n`.
abbrev shift : ℕ → ℕ → ℕ
shift zero i = suc i
shift (suc n) zero = zero
shift (suc n) (suc i) = suc (shift n i)

shift_injective : (n i j : ℕ) → shift n i ≡ shift n j → i ≡ j
shift_injective zero i j h = omega arith
shift_injective (suc n) zero zero h = refl
shift_injective (suc n) zero (suc j) h = absurd (omega arith)
shift_injective (suc n) (suc i) zero h = absurd (omega arith)
shift_injective (suc n) (suc i) (suc j) h = ap suc (shift_injective n i j (omega arith))

module _ {A : Type 0} where
  shifted :
      (xs ys : List A) (z : A) (i : ℕ)
      → get_elem? (xs ++ z ∷ ys) (shift (length xs) i) ≡ get_elem? (xs ++ ys) i
  shifted [] ys z i = refl
  shifted (x ∷ xs) ys z zero = refl
  shifted (x ∷ xs) ys z (suc i) = shifted xs ys z i

  -- Each place but that of the item is the shift of one.
  unshift :
      (xs ys : List A) (z y : A) (j : ℕ)
      → get_elem? (xs ++ z ∷ ys) j ≡ some y
      → ¬ (z ≡ y)
      → (i : ℕ) × (get_elem? (xs ++ ys) i ≡ some y)
  unshift [] ys z y zero h n = absurd (n cc)
  unshift [] ys z y (suc j) h n = (j, h)
  unshift (x ∷ xs) ys z y zero h n = (0, h)
  unshift (x ∷ xs) ys z y (suc j) h n = let (i, e) = unshift xs ys z y j h n in (suc i, e)

  set-middle : (xs ys : List A) (z w : A) → set (xs ++ z ∷ ys) (length xs) w ≡ xs ++ w ∷ ys
  set-middle [] ys z w = refl
  set-middle (x ∷ xs) ys z w = ap (λ (zs : List A). x ∷ zs) (set-middle xs ys z w)

  at-middle : (xs ys : List A) (z : A) → get_elem? (xs ++ z ∷ ys) (length xs) ≡ some z
  at-middle [] ys z = refl
  at-middle (x ∷ xs) ys z = at-middle xs ys z

abbrev pub IsArc : Option ℕ → Type 0
IsArc none = ⊥
IsArc (some a) = Unit

All-snoc-IsArc : (xs : List (Option ℕ)) (a : ℕ) → All IsArc xs → All IsArc (xs ++ some a ∷ [])
All-snoc-IsArc [] a h = (tt, tt)
All-snoc-IsArc (x ∷ xs) a h = (h.0, All-snoc-IsArc xs a h.1)

any-Ends : {A : Type 0} (m : Option A) → Ends m (λ a. Unit)
any-Ends none = tt
any-Ends (some a) = tt

null-arc : {a : ℕ} → ◌≡◌ {A = Option ℕ} none (some a) → ⊥
null-arc h = cc

module _ {F : Type 0} ⦃f : Float F⦄ where
  -- Null entries may be left out.
  IsExact-null :
      (arc : ℕ → SearchArc F) (xs ys : List (Option ℕ))
      → IsExact arc (xs ++ none ∷ ys)
      → IsExact arc (xs ++ ys)
  IsExact-null arc xs ys v = record {
    sound = λ a i h. v.sound a (shift (length xs) i) (shifted xs ys none i ∙ h);
    complete = λ a on. let (j, h) = v.complete a on in unshift xs ys none (some a) j h null-arc;
    unique = λ a i j h k.
        shift_injective (length xs) i j
          (v.unique a _ _ (shifted xs ys none i ∙ h) (shifted xs ys none j ∙ k));
  }

  -- Only the activity of the arcs matters.
  IsExact-same :
      (arc arc' : ℕ → SearchArc F) (xs : List (Option ℕ))
      → ((a : ℕ) → arc_active (arc' a) ≡ arc_active (arc a))
      → IsExact arc xs
      → IsExact arc' xs
  IsExact-same arc arc' xs same v = record {
    sound = λ a i h. same a ∙ v.sound a i h;
    complete = λ a on. v.complete a (sym (same a) ∙ on);
    unique = v.unique;
  }

  module _ (init : ℕ → SearchState F → SearchState F) (lattice_options : LatticeOptions F)
      (options : ArcSearchOptions F) where
    -- The arcs are as active as before, and the threshold is no higher.
    record IsLeft (s : ArcSearch F) (d' : Frame F) : Type 0 where
      activity : (a : ℕ) → arc_active (d'.search.arc a) ≡ arc_active (s.arc a)
      lower : key d'.search.threshold ≤ key s.threshold

    find_dest-IsLeft :
        (z : ℤ) (a : ℕ) (d : Frame F)
        → Ends (find_dest init lattice_options options z a d) (λ (b, d'). IsLeft d.search d')
    unfolding find_dest
    find_dest-IsLeft (negsuc n) a d = tt
    find_dest-IsLeft (pos n) a d = record {
      activity = λ b.
          same-active d.search.arc a b
            (record (d.search.arc a) { dest = some (find_search_state init n d.hash).0 }) refl;
      lower = omega arith;
    }

    find_next_state-IsLeft :
        (a : ℕ) (d : Frame F)
        → Ends (find_next_state init lattice_options options a d) (λ (b, d'). IsLeft d.search d')
    unfolding find_next_state
    find_next_state-IsLeft a d = elim (Option-cases (d.search.arc a).dest) [
      | inl none' ↦ rw (none', find_next_state) (find_dest-IsLeft (d.search.arc a).nextstate a d)
      | inr (b, cached) ↦
          rw (cached, find_next_state) (record { activity = λ b. refl; lower = omega arith })
    ]

    expand_to_following_state-IsLeft :
        (a : ℕ) (threshold : F) (d : Frame F)
        → Ends
            (expand_to_following_state init lattice_options options a threshold d)
            (λ (cost, d'). IsLeft d.search d')
    unfolding expand_to_following_state
    expand_to_following_state-IsLeft a threshold d =
        bind-Ends (find_next_state init lattice_options options a d) _
          (λ (b, d'). IsLeft d.search d') _ (find_next_state-IsLeft a d)
          λ (b, d') left.
            bind-Ends
              (set_token_from (d'.search.arc a) d'.time threshold lattice_options b
                (record { state = d'.hash.cell; active_states = d'.active_states }) d'.lattice)
              _ (λ r. Unit) _ (any-Ends _)
              λ r u. record { activity = left.activity; lower = left.lower }

    lower_threshold-IsLeft :
        (cost : F) (d : Frame F)
        → IsLeft d.search (lower_threshold init lattice_options options cost d)
    unfolding lower_threshold
    lower_threshold-IsLeft cost d =
        elim (Bool-cases (lt (add cost options.beam) d.search.threshold)) [
          | inl less ↦ rw less (record { activity = λ a. refl; lower = ground arith })
          | inr more ↦ rw more (record { activity = λ a. refl; lower = omega arith })
        ]

    IsLeft-trans :
        (d d' d'' : Frame F) → IsLeft d.search d' → IsLeft d'.search d'' → IsLeft d.search d''
    IsLeft-trans d d' d'' v w = record {
      activity = λ a. w.activity a ∙ v.activity a;
      lower = omega (arith, v.lower, w.lower);
    }

    exit_arc-IsLeft :
        (a : ℕ) (cost : F) (d : Frame F)
        → Ends (exit_arc init lattice_options options a cost d) (λ d'. IsLeft d.search d')
    unfolding exit_arc
    exit_arc-IsLeft a cost d = elim (Bool-cases (lt cost d.search.threshold)) [
      | inl less ↦ rw less (
          bind-Ends (expand_to_following_state init lattice_options options a d.search.threshold d)
            _ (λ (c, d'). IsLeft d.search d') _
            (expand_to_following_state-IsLeft a d.search.threshold d)
            λ (c, d') left. IsLeft-trans d d' _ left (lower_threshold-IsLeft c d'))
      | inr more ↦ rw more (record { activity = λ b. refl; lower = omega arith })
    ]

    leave_arc-IsLeft :
        (a : ℕ) (d : Frame F)
        → Ends (leave_arc init lattice_options options a d) (λ d'. IsLeft d.search d')
    unfolding leave_arc
    leave_arc-IsLeft a d = elim (Bool-cases (lt (get_exit_cost (d.search.arc a)) max_cost)) [
      | inl less ↦ rw less (
          exit_arc-IsLeft a (get_exit_cost (d.search.arc a))
            (record d { num_exit_tokens = d.num_exit_tokens + 1 }))
      | inr more ↦ rw more (record { activity = λ b. refl; lower = omega arith })
    ]

    compact_entries-IsCompact :
        (t : ℕ) (kept entries : List (Option ℕ)) (d : Frame F)
        → IsExact d.search.arc (kept ++ entries)
        → All IsArc kept
        → key d.search.threshold ≤ t
        → Ends (compact_entries init lattice_options options kept entries d) (λ (list, d').
          IsExact d'.search.arc list × All IsArc list × (key d'.search.threshold ≤ t))
    unfolding compact_entries remove_arc deactivate_arc
    compact_entries-IsCompact t kept [] d v k m =
        (subst (IsExact d.search.arc) (append-nil kept) v, k, m)
    compact_entries-IsCompact t kept (none ∷ entries) d v k m =
        compact_entries-IsCompact t kept entries d (IsExact-null d.search.arc kept entries v) k m
    compact_entries-IsCompact t kept (some a ∷ entries) d v k m =
        elim (Bool-cases (le (get_best_cost (d.search.arc a)) d.search.threshold)) [
          | inl cheap ↦ rw cheap (
              bind-Ends (leave_arc init lattice_options options a d) _ (λ d'. IsLeft d.search d') _
                (leave_arc-IsLeft a d)
                λ d' left.
                  compact_entries-IsCompact t (kept ++ some a ∷ []) entries d'
                    (IsExact-same d.search.arc d'.search.arc _ left.activity (
                      subst (IsExact d.search.arc) (sym (append_assoc kept (some a ∷ []) entries))
                        v))
                    (All-snoc-IsArc kept a k) (omega (arith, left.lower)))
          | inr costly ↦ rw costly (
              compact_entries-IsCompact t kept entries (remove_arc init lattice_options options a d)
                (IsExact-null _ kept entries (
                  subst (IsExact _) (set-middle kept entries (some a) none) (
                    IsExact-drop d.search.arc (kept ++ some a ∷ entries) a (length kept)
                      (deactivate_arc (d.search.arc a)).0 v (at-middle kept entries (some a))
                      refl)))
                k m)
        ]

    -- After list_compaction the list holds exactly the active arcs, without null entries, and the threshold is
    -- no higher.
    pub list_compaction-IsCompact :
        (d : Frame F)
        → IsExact d.search.arc d.search.active_arcs
        → Ends (list_compaction init lattice_options options d) (λ d'.
          IsExact d'.search.arc d'.search.active_arcs
          × All IsArc d'.search.active_arcs
          × (key d'.search.threshold ≤ key d.search.threshold))
    unfolding list_compaction
    list_compaction-IsCompact d v =
        bind-Ends (compact_entries init lattice_options options [] d.search.active_arcs d) _ _ _
          (compact_entries-IsCompact (key d.search.threshold) [] d.search.active_arcs d v tt
            (omega arith))
          λ (kept, d') h. h
