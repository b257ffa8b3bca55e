-- ===== src/HLevel/Frame/Place.antt =====
-- src/include/dcd/hlevel-decoder.h, ProcessEmitting: where a new token is placed.
use opendcd.Prelude.{
  ℕ, ◌+◌, ◌<◌, ◌≡◌, refl, sym, ap, subst, ◌∙◌, ◌⊎◌, inl, inr, some, List, ◌++◌, Has, arith,
}
use opendcd.Prelude.Distinct.{length-le_distinct}
use opendcd.ArcExpand.{Arc}
use opendcd.HashList.{Elem, HashList, insert}
use opendcd.HashList.Groups.{Group, elements}
use opendcd.HashList.Groups.Insert.Exact.{insert-IsInserted}
use opendcd.HLevel.{HToken}
use opendcd.HLevel.Refs.{at, IsCounted-same, some_token}
use opendcd.HLevel.Refs.Delete.{token_delete-IsCounted}
use opendcd.HLevel.Frame.{HLevelDecoder, delete_token}
use opendcd.HLevel.Frame.Held.{vals, vals-frame, vals-put, vals_pos, Has-put, IsDecoder}

module _ {F : Type 0} where
  -- What a step returns: a decoder with the invariant, in which the elements of `rest` are as before.
  pub record IsStep (d d' : HLevelDecoder F) (rest : List ℕ) (outside : ℕ → ℕ) : Type 0 where
    pub groups : List Group
    pub free : List ℕ
    pub live : List ℕ
    pub decoder : IsDecoder d' groups free live rest outside
    pub kept : (x : ℕ) → Has x rest → d'.toks.memory.cell x ≡ d.toks.memory.cell x

  -- The same step, from a decoder in which the elements of `rest` are the same.
  pub IsStep-after :
      (d d1 d' : HLevelDecoder F) (rest : List ℕ) (outside : ℕ → ℕ)
      → ((x : ℕ) → Has x rest → d1.toks.memory.cell x ≡ d.toks.memory.cell x)
      → IsStep d1 d' rest outside
      → IsStep d d' rest outside
  IsStep-after d d1 d' rest outside same s = record {
    groups = s.groups;
    free = s.free;
    live = s.live;
    decoder = s.decoder;
    kept = λ x m. s.kept x m ∙ same x m;
  }

  -- HTokenDelete of a token that is referred to from outside
  pub delete_token-IsDecoder :
      (a : ℕ) (d : HLevelDecoder F) (gs : List Group) (free live rest : List ℕ) (outside : ℕ → ℕ)
      → IsDecoder d gs free live rest (λ b. at a b + outside b)
      → (d' : HLevelDecoder F) × (live' : List ℕ) × (delete_token a d ≡ some d')
        × IsDecoder d' gs free live' rest outside
        × (d'.toks ≡ d.toks)
  unfolding delete_token
  delete_token-IsDecoder a d gs free live rest outside v =
      let cell = d.toks.memory.cell in
      let held = λ (b : ℕ). vals cell b (elements gs) + vals cell b rest in
      let enough = length-le_distinct d.tokens.fresh live v.counted.nodup v.counted.below in
      let (s, live', r, c, k, l) =
        token_delete-IsCounted (d.tokens.fresh + 1) a d.tokens live (λ b. outside b + held b)
          (IsCounted-same d.tokens live (λ b. (at a b + outside b) + held b)
            (λ b. at a b + (outside b + held b)) (λ b. omega arith) v.counted)
          (omega arith) in
      (
        record d { tokens = s },
        live',
        rw r refl,
        record {
          hash = v.hash;
          sized = v.sized;
          rest_nodup = v.rest_nodup;
          rest_used = v.rest_used;
          rest_out = v.rest_out;
          counted = c;
          states = λ x t m e.
              let (t0, e0, same, _, _) = k.token (cell x).val t e in
              ap (λ (y : Arc F). y.nextstate) same ∙ v.states x t0 m e0;
        },
        refl,
      )

  pub delete_token-IsStep :
      (a : ℕ) (d : HLevelDecoder F) (gs : List Group) (free live rest : List ℕ) (outside : ℕ → ℕ)
      → IsDecoder d gs free live rest (λ b. at a b + outside b)
      → (d' : HLevelDecoder F) × (delete_token a d ≡ some d') × IsStep d d' rest outside
  delete_token-IsStep a d gs free live rest outside v =
      let (d', live', r, w, same) = delete_token-IsDecoder a d gs free live rest outside v in
      (
        d',
        r,
        record {
          groups = gs;
          free = free;
          live = live';
          decoder = w;
          kept = λ x m. ap (λ (h : HashList ℕ). h.memory.cell x) same;
        },
      )

  -- The token of an element is there.
  pub token_of :
      (d : HLevelDecoder F) (gs : List Group) (free live rest : List ℕ) (outside : ℕ → ℕ) (x : ℕ)
      → IsDecoder d gs free live rest outside
      → Has x (elements gs) ⊎ Has x rest
      → (t : HToken F) × (d.tokens.cell (d.toks.memory.cell x).val ≡ some t)
        × Has (d.toks.memory.cell x).val live
  token_of d gs free live rest outside x v m =
      let cell = d.toks.memory.cell in
      let b = (cell x).val in
      let pos : 0 < outside b + (vals cell b (elements gs) + vals cell b rest) = elim m [
        | inl h ↦ omega (arith, vals_pos cell (elements gs) x h)
        | inr h ↦ omega (arith, vals_pos cell rest x h)
      ] in
      let h = v.counted.roots b pos in let (t, e) = v.counted.alive b h in (t, e, h)

  -- A token for a state without an element
  pub place_new :
      (state a : ℕ) (d : HLevelDecoder F) (gs : List Group) (free live rest : List ℕ)
      (outside : ℕ → ℕ) (t : HToken F)
      → IsDecoder d gs free live rest (λ b. at a b + outside b)
      → d.tokens.cell a ≡ some t
      → t.arc.nextstate ≡ state
      → (h : HashList ℕ) × (insert state a d.toks ≡ some h)
        × IsStep d (record d { toks = h }) rest outside
  place_new state a d gs free live rest outside t v e q =
      let cell = d.toks.memory.cell in
      let (h, r, i) = insert-IsInserted d.toks gs free state a v.hash v.sized in
      let cell' = h.memory.cell in
      let old : (x : ℕ) → Has x (i.place.before ++ i.place.after) → Has x (elements gs) =
        λ x. subst (Has x) (sym i.place.without) in
      let own = λ (x : ℕ) (m : Has x rest). i.owned x (v.rest_used x m) (v.rest_out x m) in
      let sum : (b : ℕ) → vals cell' b (elements i.groups) ≡ at a b + vals cell b (elements gs) =
        λ b.
          ap (vals cell' b) i.place.within
          ∙ vals-put cell' b i.new i.place.before i.place.after
          ∙ ap (λ (y : ℕ). at y b + vals cell' b (i.place.before ++ i.place.after)) i.val
          ∙ ap (λ (n : ℕ). at a b + n)
              (vals-frame cell cell' b (i.place.before ++ i.place.after)
                  (λ x m. (i.entries x (old x m)).1)
                ∙ ap (vals cell b) (sym i.place.without)) in
      let sum_rest : (b : ℕ) → vals cell' b rest ≡ vals cell b rest =
        λ b. vals-frame cell cell' b rest (λ x m. ap (λ (y : Elem ℕ). y.val) (own x m).2) in
      (
        h,
        r,
        record {
          groups = i.groups;
          free = i.left;
          live = live;
          decoder = record {
            hash = i.hash;
            sized = subst (λ n. 0 < n) (sym i.size) v.sized;
            rest_nodup = v.rest_nodup;
            rest_used = λ x m. (own x m).0;
            rest_out = λ x m m'.
                elim (Has-put x i.new i.place.before i.place.after
                  (subst (Has x) i.place.within m')) [
                    | inl z ↦ (own x m).1 z
                    | inr k ↦ v.rest_out x m (old x k)
                  ];
            counted =
                IsCounted-same d.tokens live
                  (λ b. (at a b + outside b) + (vals cell b (elements gs) + vals cell b rest))
                  (λ b. outside b + (vals cell' b (elements i.groups) + vals cell' b rest))
                  (λ b. omega (arith, sum b, sum_rest b)) v.counted;
            states = λ x t' m e'. elim m [
              | inl m' ↦
                  elim (Has-put x i.new i.place.before i.place.after
                    (subst (Has x) i.place.within m')) [
                      | inl z ↦
                          let same : (cell' x).val ≡ a = ap (λ (y : ℕ). (cell' y).val) z ∙ i.val in
                          let u = some_token t' t (sym e' ∙ ap d.tokens.cell same ∙ e) in
                          ap (λ (y : HToken F). y.arc.nextstate) u
                          ∙ q
                          ∙ sym i.key
                          ∙ ap (λ (y : ℕ). (cell' y).key) (sym z)
                      | inr k ↦
                          let (kk, kv) = i.entries x (old x k) in
                          v.states x t' (inl (old x k)) (ap d.tokens.cell (sym kv) ∙ e') ∙ sym kk
                    ]
              | inr m' ↦
                  let z = (own x m').2 in
                  v.states x t' (inr m') (ap (λ (y : Elem ℕ). d.tokens.cell y.val) (sym z) ∙ e')
                  ∙ ap (λ (y : Elem ℕ). y.key) (sym z)
            ];
          };
          kept = λ x m. (own x m).2;
        },
      )
