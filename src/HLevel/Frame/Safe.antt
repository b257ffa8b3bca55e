-- ===== src/HLevel/Frame/Safe.antt =====
-- src/include/dcd/hlevel-decoder.h, ProcessEmitting: the loop over the tokens of the last frame.
pub mod Cleared
pub mod Whole
use opendcd.Prelude.{
  ℕ, zero, suc, ◌+◌, ◌<◌, ◌≡◌, ◌≢◌, refl, sym, ap, subst, ◌∙◌, ◌⊎◌, inl, inr, true, false,
  Bool-cases, Option, none, some, List, [], ◌∷◌, Has, NoDup, length, ◌==◌, ==_iff, if◌then◌else◌,
  arith,
}
use opendcd.Prelude.Float.{Float, lt}
use opendcd.HashList.{Elem, HashList}
use opendcd.HashList.Chain.{IsChain, IsChain-frame}
use opendcd.HashList.Freed.{IsUsed}
use opendcd.HashList.Groups.{Group, elements}
use opendcd.HashList.Groups.Delete.{delete-IsUsed, delete-IsHash}
use opendcd.HLevel.{HToken}
use opendcd.HLevel.Refs.{at, IsCounted-same}
use opendcd.HLevel.Frame.{
  HLevelDecoder, Setting, drop_elem, delete_elem, delete_token, emit_elem, emit_elems,
}
use opendcd.HLevel.Frame.Held.{vals, vals-frame, IsDecoder}
use opendcd.HLevel.Frame.Place.{IsStep, token_of, delete_token-IsDecoder}
use opendcd.HLevel.Frame.Emit.{AreScored, emit_arcs-IsStep}

module _ {F : Type 0} where
  -- The first element of the list holds a token, as if from outside.
  hand_over :
      (d : HLevelDecoder F) (gs : List Group) (free live : List ℕ) (e : ℕ) (rest : List ℕ)
      (outside : ℕ → ℕ)
      → IsDecoder d gs free live (e ∷ rest) outside
      → IsDecoder d gs free live rest (λ b. at (d.toks.memory.cell e).val b + outside b)
  unfolding vals
  hand_over d gs free live e rest outside v =
      let cell = d.toks.memory.cell in
      record {
        hash = v.hash;
        sized = v.sized;
        rest_nodup = v.rest_nodup.1;
        rest_used = λ x m. v.rest_used x (inr m);
        rest_out = λ x m. v.rest_out x (inr m);
        counted =
            IsCounted-same d.tokens live
              (λ b.
                outside b + (vals cell b (elements gs) + (at (cell e).val b + vals cell b rest)))
              (λ b.
                (at (cell e).val b + outside b) + (vals cell b (elements gs) + vals cell b rest))
              (λ b. omega arith) v.counted;
        states = λ x t m. v.states x t (elim m [ inl k ↦ inl k | inr k ↦ inr (inr k) ]);
      }

  delete_elem-IsDecoder :
      (d : HLevelDecoder F) (gs : List Group) (free live : List ℕ) (e : ℕ) (rest : List ℕ)
      (outside : ℕ → ℕ)
      → IsDecoder d gs free live rest outside
      → IsUsed d.toks.memory free e
      → ¬ Has e (elements gs)
      → ¬ Has e rest
      → IsDecoder (delete_elem e d) gs (e ∷ free) live rest outside
        × ((x : ℕ) → x ≢ e → (delete_elem e d).toks.memory.cell x ≡ d.toks.memory.cell x)
  unfolding delete_elem
  delete_elem-IsDecoder d gs free live e rest outside v u out apart =
      let cell = d.toks.memory.cell in
      let cell' = (delete_elem e d).toks.memory.cell in
      let (w, other) = delete-IsHash d.toks gs free e v.hash u out in
      let in_hash : (x : ℕ) → Has x (elements gs) → cell' x ≡ cell x =
        λ x m. other x (λ q. out (subst (λ y. Has y (elements gs)) q m)) in
      let ne : (x : ℕ) → Has x rest → x ≢ e = λ x m q. apart (subst (λ y. Has y rest) q m) in
      let in_rest : (x : ℕ) → Has x rest → cell' x ≡ cell x = λ x m. other x (ne x m) in
      let same : (x : ℕ) → Has x (elements gs) ⊎ Has x rest → cell' x ≡ cell x =
        λ x m. elim m [ inl k ↦ in_hash x k | inr k ↦ in_rest x k ] in
      (
        record {
          hash = w;
          sized = v.sized;
          rest_nodup = v.rest_nodup;
          rest_used = λ x m. delete-IsUsed d.toks.memory free e x (ne x m) (v.rest_used x m);
          rest_out = v.rest_out;
          counted =
              IsCounted-same d.tokens live
                (λ b. outside b + (vals cell b (elements gs) + vals cell b rest))
                (λ b. outside b + (vals cell' b (elements gs) + vals cell' b rest))
                (λ b. omega (
                  arith,
                  vals-frame cell cell' b (elements gs)
                      (λ x m. ap (λ (y : Elem ℕ). y.val) (in_hash x m)),
                  vals-frame cell cell' b rest (λ x m. ap (λ (y : Elem ℕ). y.val) (in_rest x m)),
                ))
                v.counted;
          states = λ x t m q.
              let z = same x m in
              v.states x t m (ap (λ (y : Elem ℕ). d.tokens.cell y.val) (sym z) ∙ q)
              ∙ ap (λ (y : Elem ℕ). y.key) (sym z);
        },
        other,
      )

  -- HTokenDelete(e->val) and toks_.Delete(e) of the first element of a list
  pub drop_elem-IsDecoder :
      (d : HLevelDecoder F) (gs : List Group) (free live : List ℕ) (e : ℕ) (rest : List ℕ)
      (outside : ℕ → ℕ)
      → IsDecoder d gs free live (e ∷ rest) outside
      → (d' : HLevelDecoder F) × (live' : List ℕ) × (drop_elem e d ≡ some d')
        × IsDecoder d' gs (e ∷ free) live' rest outside
        × ((x : ℕ) → Has x rest → d'.toks.memory.cell x ≡ d.toks.memory.cell x)
  unfolding drop_elem
  drop_elem-IsDecoder d gs free live e rest outside v =
      let (d1, live1, r, w, same) =
        delete_token-IsDecoder (d.toks.memory.cell e).val d gs free live rest outside
          (hand_over d gs free live e rest outside v) in
      let u : IsUsed d1.toks.memory free e =
        subst (λ (h : HashList ℕ). IsUsed h.memory free e) (sym same) (v.rest_used e (inl refl)) in
      let (w', other) =
        delete_elem-IsDecoder d1 gs free live1 e rest outside w u (v.rest_out e (inl refl))
          v.rest_nodup.0 in
      (
        delete_elem e d1,
        live1,
        rw r refl,
        w',
        λ x m.
            other x (λ q. v.rest_nodup.0 (subst (λ y. Has y rest) q m))
            ∙ ap (λ (h : HashList ℕ). h.memory.cell x) same,
      )

module _ {F : Type 0} ⦃f : Float F⦄ where
  emit_elem-IsStep :
      (c : Setting F) (frame : List F) (cutoff beam : F) (e : ℕ) (d : HLevelDecoder F) (next : F)
      (gs : List Group) (free live rest : List ℕ) (outside : ℕ → ℕ)
      → IsDecoder d gs free live rest outside
      → Has e rest
      → ((s : ℕ) → AreScored frame (c.fst.arcs s))
      → (d' : HLevelDecoder F) × (next' : F) × (emit_elem c frame cutoff beam e d next
          ≡ some (d', next'))
        × IsStep d d' rest outside
  unfolding emit_elem
  emit_elem-IsStep c frame cutoff beam e d next gs free live rest outside v m scored =
      let key = (d.toks.memory.cell e).key in
      let (t, q, _) = token_of d gs free live rest outside e v (inr m) in
      elim (Bool-cases (lt t.weight cutoff)) [
        | inl near ↦
            let (d', next', r, s) =
              emit_arcs-IsStep c frame beam e (c.fst.arcs key) d next gs free live rest outside v m
                (scored key) in
            (d', next', rw (q, near) r, s)
        | inr far ↦ (
          d,
          next,
          rw (q, far) refl,
          record { groups = gs; free = free; live = live; decoder = v; kept = λ x k. refl },
        )
      ]

  -- The whole loop
  pub emit_elems-IsStep :
      (n : ℕ) (c : Setting F) (frame : List F) (cutoff beam : F) (p : Option ℕ)
      (d : HLevelDecoder F) (next : F) (gs : List Group) (free live rest : List ℕ) (outside : ℕ → ℕ)
      → IsDecoder d gs free live rest outside
      → IsChain d.toks.memory.cell p rest none
      → length rest < n
      → ((s : ℕ) → AreScored frame (c.fst.arcs s))
      → (d' : HLevelDecoder F) × (next' : F) × (emit_elems n c frame cutoff beam p d next
          ≡ some (d', next'))
        × IsStep d d' [] outside
  unfolding emit_elems
  emit_elems-IsStep zero c frame cutoff beam p d next gs free live rest outside v k l scored =
      absurd (omega arith)
  emit_elems-IsStep (suc n) c frame cutoff beam p d next gs free live [] outside v k l scored = (
    d,
    next,
    rw k refl,
    record { groups = gs; free = free; live = live; decoder = v; kept = λ x m. refl },
  )
  emit_elems-IsStep (suc n) c frame cutoff beam p d next gs free live (e ∷ rest) outside v k l
        scored =
      let (d1, next1, r1, s1) =
        emit_elem-IsStep c frame cutoff beam e d next gs free live (e ∷ rest) outside v (inl refl)
          scored in
      let (d2, live2, r2, w2, kept2) =
        drop_elem-IsDecoder d1 s1.groups s1.free s1.live e rest outside s1.decoder in
      let tail : (d1.toks.memory.cell e).tail ≡ (d.toks.memory.cell e).tail =
        ap (λ (y : Elem ℕ). y.tail) (s1.kept e (inl refl)) in
      let chain : IsChain d2.toks.memory.cell (d1.toks.memory.cell e).tail rest none =
        IsChain-frame d.toks.memory.cell d2.toks.memory.cell (d1.toks.memory.cell e).tail rest none
          (λ x m. ap (λ (y : Elem ℕ). y.tail) (kept2 x m ∙ s1.kept x (inr m)))
          (subst (λ q. IsChain d.toks.memory.cell q rest none) (sym tail) k.1) in
      let (d', next', r, s) =
        emit_elems-IsStep n c frame cutoff beam (d1.toks.memory.cell e).tail d2 next1 s1.groups
          (e ∷ s1.free) live2 rest outside w2 chain (omega arith) scored in
      (
        d',
        next',
        rw (k.0, r1, r2) r,
        record {
          groups = s.groups;
          free = s.free;
          live = s.live;
          decoder = s.decoder;
          kept = λ x m. elim m [ ];
        },
      )
