-- ===== src/HLevel/Decode/Start.antt =====
-- src/include/dcd/hlevel-decoder.h, the constructor, and Decode up to the first frame.
use opendcd.Prelude.{
  ℕ, ◌+◌, ◌<◌, ◌≡◌, refl, sym, ap, subst, ◌∙◌, inl, inr, none, some, List, [], ◌∷◌, arith,
}
use opendcd.HashList.{Memory, empty_hash}
use opendcd.HashList.Chain.{IsChain}
use opendcd.HashList.Groups.{Group, elements}
use opendcd.HashList.Groups.Insert.Only.{insert-alone}
use opendcd.HashList.Groups.Clear.{set_size-IsHash, empty_hash-IsHash}
use opendcd.HLevel.{arc_weight}
use opendcd.HLevel.Refs.{at, refs, IsCounted-same}
use opendcd.HLevel.Refs.New.{new_token-first}
use opendcd.HLevel.Frame.{HLevelDecoder, Setting}
use opendcd.HLevel.Frame.Held.{vals, IsDecoder}
use opendcd.HLevel.Frame.Place.{IsStep, place_new}
use opendcd.HLevel.Frame.Safe.Cleared.{cleared-IsDecoder, clear_toks-IsStep}
use opendcd.HLevel.Decode.{init_decoder, clear_all, dummy_arc, start_decode}

module _ {F : Type 0} where
  -- The constructor makes a decoder without tokens, whatever the memory holds.
  pub init_decoder-IsDecoder :
      (m : Memory ℕ)
      → (d : HLevelDecoder F) × (init_decoder m ≡ some d) × IsDecoder d [] [] [] [] (λ b. 0)
  unfolding init_decoder vals elements refs
  init_decoder-IsDecoder m =
      let (h, r, w, size, mem) = set_size-IsHash 1000 (empty_hash m) [] (empty_hash-IsHash m) in
      (
        record { toks = h; tokens = record { cell = λ a. none; fresh = 0 } },
        rw r refl,
        record {
          hash = w;
          sized = subst (λ n. 0 < n) (sym size) (omega arith);
          rest_nodup = tt;
          rest_used = λ x k. elim k [ ];
          rest_out = λ x k. elim k [ ];
          counted = record {
            nodup = tt;
            below = λ a k. elim k [ ];
            alive = λ a k. elim k [ ];
            dead = λ a k. refl;
            counted = λ a t e. cc;
            roots = λ a k. absurd (omega arith);
            inner = λ a k. absurd (omega arith);
            used = λ a k. elim k [ ];
          };
          states = λ x t k. elim k [ inl k' ↦ elim k' [ ] | inr k' ↦ elim k' [ ] ];
        },
      )

  pub clear_all-IsDecoder :
      (d : HLevelDecoder F) (gs : List Group) (free live : List ℕ) (outside : ℕ → ℕ)
      → IsDecoder d gs free live [] outside
      → (d' : HLevelDecoder F) × (free' live' : List ℕ) × (clear_all d ≡ some d')
        × IsDecoder d' [] free' live' [] outside
  unfolding clear_all
  clear_all-IsDecoder d gs free live outside v =
      let (h, r, w, chain, enough, mem) = cleared-IsDecoder d gs free live outside v in
      let chain' : IsChain h.memory.cell d.toks.list_head (elements gs) none =
        subst (λ (m : Memory ℕ). IsChain m.cell d.toks.list_head (elements gs) none) (sym mem)
          chain in
      let (d', free', live', r', w') =
        clear_toks-IsStep (d.toks.memory.fresh + 1) d.toks.list_head (record d { toks = h }) [] free
          live (elements gs) outside w chain' enough in
      (d', free', live', rw (r, r') refl, w')

  -- The list of the hash holds one element, for the state `s`, and its token, with the weight One, came over
  -- no arc and has no predecessor.
  pub record IsStarted (c : Setting F) (s : ℕ) (d : HLevelDecoder F) : Type 0 where
    pub element : ℕ
    pub list : IsChain d.toks.memory.cell d.toks.list_head (element ∷ []) none
    pub state : (d.toks.memory.cell element).key ≡ s
    pub token :
        d.tokens.cell (d.toks.memory.cell element).val
        ≡ some record {
          arc = record { ilabel = 0; olabel = 0; weight = c.lib.one_weight; nextstate = s };
          prev = none;
          ref_count = 1;
          weight = c.lib.one_weight;
        }

  -- Decode, up to the first call of ProcessNonemitting, clears a valid decoder and enters a token for the
  -- start state, without a fault. Afterwards the list holds one element, for that state, whose token has the
  -- weight One, the start state and no predecessor, and the invariant holds again.
  pub start_decode-IsStep :
      (c : Setting F) (s : ℕ) (d : HLevelDecoder F) (gs : List Group) (free live : List ℕ)
      (outside : ℕ → ℕ)
      → IsDecoder d gs free live [] outside
      → (d' : HLevelDecoder F) × (start_decode c s d ≡ some d')
        × IsStep d d' [] outside
        × IsStarted c s d'
  unfolding start_decode dummy_arc arc_weight
  start_decode-IsStep c s d gs free live outside v =
      let (d1, free1, live1, r1, w1) = clear_all-IsDecoder d gs free live outside v in
      let held =
        λ (b : ℕ). vals d1.toks.memory.cell b (elements []) + vals d1.toks.memory.cell b [] in
      let (a, tokens, r2, made) =
        new_token-first c.lib d1.tokens live1 (λ b. outside b + held b)
          (dummy_arc c.lib.one_weight s) none w1.counted in
      let d2 : HLevelDecoder F = record d1 { tokens = tokens } in
      let w2 : IsDecoder d2 [] free1 (a ∷ live1) [] (λ b. at a b + outside b) = record {
        hash = w1.hash;
        sized = w1.sized;
        rest_nodup = tt;
        rest_used = λ x k. elim k [ ];
        rest_out = λ x k. elim k [ ];
        counted =
            IsCounted-same tokens (a ∷ live1) (λ b. at a b + (outside b + held b))
              (λ b. (at a b + outside b) + held b) (λ b. omega arith) made.counted;
        states =
            λ x t k e. elim k [ inl k' ↦ absurd (unfold elements in k') | inr k' ↦ elim k' [ ] ];
      } in
      let (h, r3, st) = place_new s a d2 [] free1 (a ∷ live1) [] outside _ w2 made.cell refl in
      let (e, list, state, val) = insert-alone d1.toks h free1 s a w1.hash w1.sized r3 in
      (
        record d2 { toks = h },
        rw (r1, r2, r3) refl,
        record {
          groups = st.groups;
          free = st.free;
          live = st.live;
          decoder = st.decoder;
          kept = λ x m. elim m [ ];
        },
        record { element = e; list = list; state = state; token = ap tokens.cell val ∙ made.cell },
      )
