-- ===== src/HLevel/Frame/Replace.antt =====
-- src/include/dcd/hlevel-decoder.h, ProcessEmitting: a new token at an element that is there already.
use opendcd.Prelude.{
  ℕ, ◌+◌, ◌≡◌, ◌≢◌, refl, sym, ap, subst, ◌∙◌, inl, inr, Bool, true, false, Bool-cases, Option,
  none, some, Option-cases, List, Has, update_same, update_other, ◌==◌, ==_iff, arith,
}
use opendcd.Prelude.Float.{Float}
use opendcd.Prelude.Partial.{◌>>=◌}
use opendcd.HashList.{Elem}
use opendcd.HashList.Freed.{IsUsed}
use opendcd.HashList.Groups.{Group, elements}
use opendcd.HashList.Groups.Find.{first_key}
use opendcd.HashList.Groups.Find.Exact.{find-first}
use opendcd.HLevel.{HToken, token_delete}
use opendcd.HLevel.Refs.{at, IsCounted-same, some_token}
use opendcd.HLevel.Frame.{
  HLevelDecoder, delete_token, set_val, token_lt, replace_token, place_token,
}
use opendcd.HLevel.Frame.Held.{
  vals, vals-frame, vals-set, first_key-some, elements-NoDup, set_val-IsHash, IsDecoder,
}
use opendcd.HLevel.Frame.Place.{IsStep, IsStep-after, delete_token-IsStep, token_of, place_new}

module _ {F : Type 0} where
  -- The element `e` gets the token `a`, and the reference to its old token is counted from outside.
  set_val-IsDecoder :
      (d : HLevelDecoder F) (gs : List Group) (free live rest : List ℕ) (outside : ℕ → ℕ) (e a : ℕ)
      (t : HToken F)
      → IsDecoder d gs free live rest (λ b. at a b + outside b)
      → Has e (elements gs)
      → d.tokens.cell a ≡ some t
      → t.arc.nextstate ≡ (d.toks.memory.cell e).key
      → IsDecoder
          (record d { toks = set_val d.toks e a })
          gs
          free
          live
          rest
          (λ b. at (d.toks.memory.cell e).val b + outside b)
        × ((x : ℕ) → Has x rest → (set_val d.toks e a).memory.cell x ≡ d.toks.memory.cell x)
  set_val-IsDecoder d gs free live rest outside e a t v m at_a q =
      let cell = d.toks.memory.cell in
      let cell' = (set_val d.toks e a).memory.cell in
      let new : cell' e ≡ record (cell e) { val = a } = unfold set_val in update_same cell e _ in
      let other : (x : ℕ) → x ≢ e → cell' x ≡ cell x =
        λ x n. unfold set_val in update_other cell e x _ n in
      let apart : (x : ℕ) → Has x rest → x ≢ e =
        λ x r z. v.rest_out x r (subst (λ y. Has y (elements gs)) (sym z) m) in
      let nodup =
        elements-NoDup cell d.toks.bucket d.toks.hash_size (IsUsed d.toks.memory free)
          d.toks.list_head gs v.hash.linked v.hash.distinct in
      let sum : (b : ℕ)
          → vals cell' b (elements gs) + at (cell e).val b ≡ vals cell b (elements gs) + at a b =
        λ b.
          vals-set cell cell' b e a (elements gs) nodup m (ap (λ (y : Elem ℕ). y.val) new)
            (λ x n. ap (λ (y : Elem ℕ). y.val) (other x n)) in
      let sum_rest : (b : ℕ) → vals cell' b rest ≡ vals cell b rest = λ b.
        vals-frame cell cell' b rest (λ x r. ap (λ (y : Elem ℕ). y.val) (other x (apart x r))) in
      (
        record {
          hash = set_val-IsHash d.toks gs free e a v.hash;
          sized = unfold set_val in v.sized;
          rest_nodup = v.rest_nodup;
          rest_used = unfold set_val in v.rest_used;
          rest_out = v.rest_out;
          counted =
              IsCounted-same d.tokens live
                (λ b. (at a b + outside b) + (vals cell b (elements gs) + vals cell b rest))
                (λ b.
                  (at (cell e).val b + outside b)
                  + (vals cell' b (elements gs) + vals cell' b rest))
                (λ b. omega (arith, sum b, sum_rest b)) v.counted;
          states = λ x t' k e'. elim (Bool-cases (e == x)) [
            | inl r ↦
                let z : e ≡ x = (==_iff e x).0 r in
                let val : (cell' x).val ≡ a =
                  ap (λ (y : ℕ). (cell' y).val) (sym z) ∙ ap (λ (y : Elem ℕ). y.val) new in
                let key : (cell' x).key ≡ (cell e).key =
                  ap (λ (y : ℕ). (cell' y).key) (sym z) ∙ ap (λ (y : Elem ℕ). y.key) new in
                let u = some_token t' t (sym e' ∙ ap d.tokens.cell val ∙ at_a) in
                ap (λ (y : HToken F). y.arc.nextstate) u ∙ q ∙ sym key
            | inr r ↦
                let z = other x (λ s. ground (arith, ==_iff e x)) in
                v.states x t' k (ap (λ (y : Elem ℕ). d.tokens.cell y.val) (sym z) ∙ e')
                ∙ ap (λ (y : Elem ℕ). y.key) (sym z)
          ];
        },
        λ x r. other x (apart x r),
      )

-- The element is written before or after HTokenDelete, which does not read it.
delete_then_set :
    {F : Type 0} (d d' : HLevelDecoder F) (old e a : ℕ)
    → delete_token old (record d { toks = set_val d.toks e a }) ≡ some d'
    → ◌>>=◌ {B = HLevelDecoder F × Bool}
        (delete_token old d)
        (λ d1. some (record d1 { toks = set_val d1.toks e a }, true))
      ≡ some (d', true)
unfolding delete_token
delete_then_set {F} d d' old e a r =
    elim (Option-cases (token_delete (d.tokens.fresh + 1) old d.tokens)) [
      | inl n ↦ let q : none ≡ some d' = rw n at r in cc
      | inr (s, n) ↦
          let q : some (record d { toks = set_val d.toks e a; tokens = s }) ≡ some d' = rw n at r in
          rw n (
            ap
              (λ (o : Option (HLevelDecoder F)).
                ◌>>=◌ {B = HLevelDecoder F × Bool} o (λ d1. some (d1, true)))
              q)
    ]

module _ {F : Type 0} ⦃f : Float F⦄ where
  -- The token that is worse goes, and the better one is at the element.
  replace_token-IsStep :
      (e a : ℕ) (d : HLevelDecoder F) (gs : List Group) (free live rest : List ℕ) (outside : ℕ → ℕ)
      (t : HToken F)
      → IsDecoder d gs free live rest (λ b. at a b + outside b)
      → Has e (elements gs)
      → d.tokens.cell a ≡ some t
      → t.arc.nextstate ≡ (d.toks.memory.cell e).key
      → (d' : HLevelDecoder F) × (placed : Bool) × (replace_token e a d ≡ some (d', placed))
        × IsStep d d' rest outside
  unfolding replace_token
  replace_token-IsStep e a d gs free live rest outside t v m at_a q =
      let old = (d.toks.memory.cell e).val in
      let (t0, e0, _) = token_of d gs free live rest (λ b. at a b + outside b) e v (inl m) in
      elim (Bool-cases (token_lt t0 t)) [
        | inr worse ↦
            let (d', r, s) = delete_token-IsStep a d gs free live rest outside v in
            (d', false, rw (e0, at_a, worse, r) refl, s)
        | inl better ↦
            let (w, kept) = set_val-IsDecoder d gs free live rest outside e a t v m at_a q in
            let (d', r, s) =
              delete_token-IsStep old (record d { toks = set_val d.toks e a }) gs free live rest
                outside w in
            (
              d',
              true,
              rw (e0, at_a, better) (delete_then_set d d' old e a r),
              IsStep-after d (record d { toks = set_val d.toks e a }) d' rest outside kept s,
            )
      ]

  -- A new token for a state is placed without a fault, and every reference to it is counted.
  pub place_token-IsStep :
      (state a : ℕ) (d : HLevelDecoder F) (gs : List Group) (free live rest : List ℕ)
      (outside : ℕ → ℕ) (t : HToken F)
      → IsDecoder d gs free live rest (λ b. at a b + outside b)
      → d.tokens.cell a ≡ some t
      → t.arc.nextstate ≡ state
      → (d' : HLevelDecoder F) × (placed : Bool) × (place_token state a d ≡ some (d', placed))
        × IsStep d d' rest outside
  unfolding place_token
  place_token-IsStep state a d gs free live rest outside t v e q =
      let found = find-first d.toks gs free state v.hash v.sized in
      elim (Option-cases (first_key d.toks.memory.cell state (elements gs))) [
        | inl n ↦
            let (h, r, s) = place_new state a d gs free live rest outside t v e q in
            (record d { toks = h }, true, rw (found, n, r) refl, s)
        | inr (e', n) ↦
            let (m, key) = first_key-some d.toks.memory.cell state (elements gs) e' n in
            let (d', placed, r, s) =
              replace_token-IsStep e' a d gs free live rest outside t v m e (q ∙ sym key) in
            (d', placed, rw (found, n) r, s)
      ]
