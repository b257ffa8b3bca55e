-- ===== src/HLevel/Frame/Emit.antt =====
-- src/include/dcd/hlevel-decoder.h, ProcessEmitting: the arcs of a token.
use opendcd.Prelude.{
  ℕ, zero, suc, ◌+◌, ◌-◌, ◌<◌, ◌≤◌, ◌≡◌, refl, sym, ap, subst, ◌∙◌, inl, inr, false, Bool-cases,
  some, List, [], ◌∷◌, Has, All, length, get_elem?, ◌==◌, if◌then◌else◌, arith,
}
use opendcd.Prelude.Float.{Float, add, mul, neg, lt}
use opendcd.ArcExpand.{Arc}
use opendcd.HashList.{Elem}
use opendcd.HashList.Groups.{Group, elements}
use opendcd.HLevel.{HToken}
use opendcd.HLevel.Refs.{at, IsCounted-same, some_token}
use opendcd.HLevel.Refs.New.{new_token-IsMade}
use opendcd.HLevel.Frame.{HLevelDecoder, Setting, ac_cost, emit_token, emit_arcs}
use opendcd.HLevel.Frame.Held.{vals, IsDecoder}
use opendcd.HLevel.Frame.Place.{IsStep, IsStep-after, token_of}
use opendcd.HLevel.Frame.Replace.{place_token-IsStep}

-- The labels of the arcs have a feature in the frame.
abbrev pub AreScored : {F : Type 0} → List F → List (Arc F) → Type 0
AreScored frame arcs = All (λ arc. arc.ilabel ≤ length frame) arcs

get_elem?-some :
    {A : Type 0} (xs : List A) (i : ℕ) → i < length xs → (x : A) × (get_elem? xs i ≡ some x)
get_elem?-some [] i h = absurd (omega arith)
get_elem?-some (x ∷ xs) zero h = (x, refl)
get_elem?-some (x ∷ xs) (suc i) h = get_elem?-some xs i (omega arith)

module _ {F : Type 0} ⦃f : Float F⦄ where
  pub ac_cost-some :
      (c : Setting F) (frame : List F) (arc : Arc F)
      → (arc.ilabel == 0) ≡ false
      → arc.ilabel ≤ length frame
      → (ac : F) × (ac_cost c frame arc ≡ some ac)
  unfolding ac_cost
  ac_cost-some c frame arc n h =
      let (x, e) = get_elem?-some frame (arc.ilabel - 1) (ground arith) in
      (mul (neg c.opts.acoustic_scale) x, rw e refl)

  -- A token behind that of an element is made and placed.
  emit_token-IsStep :
      (c : Setting F) (ac : F) (arc : Arc F) (x : ℕ) (d : HLevelDecoder F) (gs : List Group)
      (free live rest : List ℕ) (outside : ℕ → ℕ)
      → IsDecoder d gs free live rest outside
      → Has x rest
      → (d' : HLevelDecoder F) × (emit_token c ac (d.toks.memory.cell x).val arc d ≡ some d')
        × IsStep d d' rest outside
  unfolding emit_token
  emit_token-IsStep c ac arc x d gs free live rest outside v m =
      let cell = d.toks.memory.cell in
      let held = λ (b : ℕ). vals cell b (elements gs) + vals cell b rest in
      let (t, e, h) = token_of d gs free live rest outside x v (inr m) in
      let (a, s, r, made) =
        new_token-IsMade c.lib d.tokens live (λ b. outside b + held b) arc (some ac) (cell x).val t
          v.counted h e in
      let d1 : HLevelDecoder F = record d { tokens = s } in
      let w : IsDecoder d1 gs free (a ∷ live) rest (λ b. at a b + outside b) = record {
        hash = v.hash;
        sized = v.sized;
        rest_nodup = v.rest_nodup;
        rest_used = v.rest_used;
        rest_out = v.rest_out;
        counted =
            IsCounted-same s (a ∷ live) (λ b. at a b + (outside b + held b))
              (λ b. (at a b + outside b) + held b) (λ b. omega arith) made.counted;
        states = λ y t' k e'.
            let (t0, e0, h0) = token_of d gs free live rest outside y v k in
            let (t1, e1, same, _, _) = made.others (cell y).val t0 h0 e0 in
            let u = some_token t' t1 (sym e' ∙ e1) in
            ap (λ (z : HToken F). z.arc.nextstate) u
            ∙ ap (λ (z : Arc F). z.nextstate) same
            ∙ v.states y t0 k e0;
      } in
      let (d', placed, r', s') =
        place_token-IsStep arc.nextstate a d1 gs free (a ∷ live) rest outside _ w made.cell refl in
      (d', rw (r, r') refl, IsStep-after d d1 d' rest outside (λ y _. refl) s')

  -- The loop over the arcs, whose bound on the next cutoff may be any
  pub emit_arcs-IsStep :
      (c : Setting F) (frame : List F) (beam : F) (x : ℕ) (arcs : List (Arc F))
      (d : HLevelDecoder F) (next : F) (gs : List Group) (free live rest : List ℕ) (outside : ℕ → ℕ)
      → IsDecoder d gs free live rest outside
      → Has x rest
      → AreScored frame arcs
      → (d' : HLevelDecoder F) × (next' : F) × (emit_arcs c frame beam
            (d.toks.memory.cell x).val
            arcs
            d
            next
          ≡ some (d', next'))
        × IsStep d d' rest outside
  unfolding emit_arcs
  emit_arcs-IsStep c frame beam x [] d next gs free live rest outside v m h = (
    d,
    next,
    refl,
    record { groups = gs; free = free; live = live; decoder = v; kept = λ y k. refl },
  )
  emit_arcs-IsStep c frame beam x (arc ∷ arcs) d next gs free live rest outside v m h =
      elim (Bool-cases (arc.ilabel == 0)) [
        | inl eps ↦
            let (d', next', r, s) =
              emit_arcs-IsStep c frame beam x arcs d next gs free live rest outside v m h.1 in
            (d', next', rw eps r, s)
        | inr no_eps ↦
            let (t, e, _) = token_of d gs free live rest outside x v (inr m) in
            let (ac, q) = ac_cost-some c frame arc no_eps h.0 in
            let w = add (add arc.weight t.weight) ac in
            elim (Bool-cases (lt w next)) [
              | inr pruned ↦
                  let (d', next', r, s) =
                    emit_arcs-IsStep c frame beam x arcs d next gs free live rest outside v m h.1 in
                  (d', next', rw (no_eps, e, q, pruned) r, s)
              | inl kept ↦
                  let (d1, r1, s1) = emit_token-IsStep c ac arc x d gs free live rest outside v m in
                  let next1 = if lt (add w beam) next then add w beam else next in
                  let (d', next', r, s) =
                    emit_arcs-IsStep c frame beam x arcs d1 next1 s1.groups s1.free s1.live rest
                      outside s1.decoder m h.1 in
                  let same = ap (λ (y : Elem ℕ). y.val) (s1.kept x m) in
                  (
                    d',
                    next',
                    rw (no_eps, e, q, kept, r1)
                        (subst (λ tok. emit_arcs c frame beam tok arcs d1 next1 ≡ some (d', next'))
                          same r),
                    IsStep-after d d1 d' rest outside s1.kept s,
                  )
            ]
      ]
