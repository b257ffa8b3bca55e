-- ===== src/HLevel/Frame.antt =====
-- src/include/dcd/hlevel-decoder.h, ProcessEmitting and ClearToks: the arcs of a frame that are no
-- epsilons. The variable best_cost, which nothing reads, is left out. KALDI_ASSERT is empty.
pub mod Held
pub mod Place
pub mod Replace
pub mod Emit
pub mod Safe
use opendcd.Prelude.{
  ℕ, zero, suc, ◌+◌, ◌-◌, Bool, true, false, Option, none, some, List, [], ◌∷◌, ◌++◌, map, update,
  get_elem?, ltb, ◌==◌, if◌then◌else◌,
}
use opendcd.Prelude.Float.{Float, add, mul, neg, lt}
use opendcd.Prelude.Partial.{◌>>=◌}
use opendcd.ArcExpand.{Arc}
use opendcd.HashList.{Elem, HashList, Memory, find, insert, delete, clear_hash, set_size}
use opendcd.HLevel.{HLevelDecoderOptions, HToken, Tokens, Tropical, Graph, new_token, token_delete}
use opendcd.HLevel.Cutoff.{Cutoff, get_cutoff}

-- toks_, and the store of the tokens
pub record HLevelDecoder (F : Type 0) : Type 0 where
  pub toks : HashList ℕ
  pub tokens : Tokens F

-- What does not change: the transducer, the options, the weights of the library, the numbers 1.0e+10
-- and the greatest float, and the conversion of PossiblyResizeHash.
pub record Setting (F : Type 0) : Type 0 where
  pub fst : Graph F
  pub opts : HLevelDecoderOptions F
  pub lib : Tropical F
  pub big : F
  pub greatest : F
  pub scaled : ℕ → F → ℕ

-- e->val = a
unfoldable pub set_val : HashList ℕ → ℕ → ℕ → HashList ℕ
set_val h e a = record h {
  memory = record h.memory { cell = update h.memory.cell e (record (h.memory.cell e) { val = a }) };
}

module _ {F : Type 0} where
  -- HTokenDelete in the store of the decoder
  unfoldable pub delete_token : ℕ → HLevelDecoder F → Option (HLevelDecoder F)
  delete_token a d =
      token_delete (d.tokens.fresh + 1) a d.tokens >>= λ s. some (record d { tokens = s })

  -- toks_.Delete(e)
  unfoldable pub delete_elem : ℕ → HLevelDecoder F → HLevelDecoder F
  delete_elem e d = record d { toks = record d.toks { memory = delete e d.toks.memory } }

  -- Both calls on an element of a list
  unfoldable pub drop_elem : ℕ → HLevelDecoder F → Option (HLevelDecoder F)
  unfolding delete_token delete_elem
  drop_elem e d = delete_token (d.toks.memory.cell e).val d >>= λ d'. some (delete_elem e d')

  -- ClearToks, of a list of fewer than `n` elements
  unfoldable pub clear_toks : ℕ → Option ℕ → HLevelDecoder F → Option (HLevelDecoder F)
  unfolding drop_elem
  clear_toks zero e d = none
  clear_toks (suc n) none d = some d
  clear_toks (suc n) (some e) d =
      let e_tail = (d.toks.memory.cell e).tail in drop_elem e d >>= λ d'. clear_toks n e_tail d'

module _ {F : Type 0} ⦃f : Float F⦄ where
  -- HToken::operator<
  unfoldable pub token_lt : HToken F → HToken F → Bool
  token_lt t t' = lt t'.weight t.weight

  -- A new token `a` at an element that is there already, and whether it takes the element
  unfoldable pub replace_token : ℕ → ℕ → HLevelDecoder F → Option (HLevelDecoder F × Bool)
  unfolding token_lt delete_token set_val
  replace_token e a d =
      let old = (d.toks.memory.cell e).val in
      d.tokens.cell old >>= λ t. d.tokens.cell a >>= λ t'.
      if token_lt t t'
      then (delete_token old d >>= λ d'. some (record d' { toks = set_val d'.toks e a }, true))
      else (delete_token a d >>= λ d'. some (d', false))

  -- A new token `a` for a state, from toks_.Find on
  unfoldable pub place_token : ℕ → ℕ → HLevelDecoder F → Option (HLevelDecoder F × Bool)
  unfolding replace_token
  place_token state a d = find state d.toks >>= λ e_found. elim e_found [
    | none ↦ insert state a d.toks >>= λ h. some (record d { toks = h }, true)
    | some e ↦ replace_token e a d
  ]

  -- PossiblyResizeHash
  unfoldable pub possibly_resize_hash : Setting F → ℕ → HashList ℕ → Option (HashList ℕ)
  possibly_resize_hash c n h =
      let new_sz = c.scaled n c.opts.hash_ratio in
      if ltb h.hash_size new_sz then set_size new_sz h else some h

  -- The acoustic cost of an arc in a frame
  unfoldable pub ac_cost : Setting F → List F → Arc F → Option F
  ac_cost c frame arc =
      get_elem? frame (arc.ilabel - 1) >>= λ x. some (mul (neg c.opts.acoustic_scale) x)

  -- The loop over the arcs of the best element, for the next cutoff
  unfoldable pub best_arcs : Setting F → List F → F → HToken F → List (Arc F) → F → Option F
  unfolding ac_cost
  best_arcs c frame beam t [] next = some next
  best_arcs c frame beam t (arc ∷ arcs) next =
      (if arc.ilabel == 0
        then some next
        else ac_cost c frame arc >>= λ ac.
            let w = add (add (add arc.weight t.weight) ac) beam in
            some (if lt w next then w else next))
      >>= λ next'. best_arcs c frame beam t arcs next'

  -- An arc that is not pruned
  unfoldable pub emit_token : Setting F → F → ℕ → Arc F → HLevelDecoder F → Option (HLevelDecoder F)
  unfolding place_token
  emit_token c ac tok arc d = new_token c.lib arc (some ac) (some tok) d.tokens >>= λ (a, s).
      place_token arc.nextstate a (record d { tokens = s }) >>= λ (d', placed). some d'

  -- The loop over the arcs of a token `tok`
  unfoldable pub emit_arcs :
      Setting F → List F → F → ℕ → List (Arc F) → HLevelDecoder F → F → Option (HLevelDecoder F × F)
  unfolding ac_cost emit_token
  emit_arcs c frame beam tok [] d next = some (d, next)
  emit_arcs c frame beam tok (arc ∷ arcs) d next =
      (if arc.ilabel == 0
        then some (d, next)
        else d.tokens.cell tok >>= λ t. ac_cost c frame arc >>= λ ac.
            let w = add (add arc.weight t.weight) ac in
            if lt w next
            then (emit_token c ac tok arc d >>= λ d'.
                some (d', if lt (add w beam) next then add w beam else next))
            else some (d, next))
      >>= λ (d', next'). emit_arcs c frame beam tok arcs d' next'

  -- The body of the loop over last_toks, up to HTokenDelete
  unfoldable pub emit_elem :
      Setting F → List F → F → F → ℕ → HLevelDecoder F → F → Option (HLevelDecoder F × F)
  unfolding emit_arcs
  emit_elem c frame cutoff beam e d next =
      let tok = (d.toks.memory.cell e).val in
      let state = (d.toks.memory.cell e).key in
      d.tokens.cell tok >>= λ t.
      if lt t.weight cutoff
      then emit_arcs c frame beam tok (c.fst.arcs state) d next
      else some (d, next)

  -- The loop over last_toks, of fewer than `n` elements
  unfoldable pub emit_elems :
      ℕ → Setting F → List F → F → F → Option ℕ → HLevelDecoder F → F → Option (HLevelDecoder F × F)
  unfolding emit_elem drop_elem
  emit_elems zero c frame cutoff beam e d next = none
  emit_elems (suc n) c frame cutoff beam none d next = some (d, next)
  emit_elems (suc n) c frame cutoff beam (some e) d next =
      emit_elem c frame cutoff beam e d next >>= λ (d', next').
      let e_tail = (d'.toks.memory.cell e).tail in
      drop_elem e d' >>= λ d''. emit_elems n c frame cutoff beam e_tail d'' next'

  -- The bound on the next cutoff from the best element
  unfoldable pub first_bound : Setting F → List F → F → Option ℕ → HLevelDecoder F → Option F
  unfolding best_arcs
  first_bound c frame beam none d = some c.big
  first_bound c frame beam (some e) d = d.tokens.cell (d.toks.memory.cell e).val >>= λ t.
      best_arcs c frame beam t (c.fst.arcs (d.toks.memory.cell e).key) c.big

  -- ProcessEmitting: the decoder, and the cutoff for the next frame
  unfoldable pub process_emitting :
      Setting F → List F → HLevelDecoder F → Option (HLevelDecoder F × F)
  unfolding possibly_resize_hash first_bound emit_elems
  process_emitting c frame d =
      let n = d.toks.memory.fresh + 1 in
      clear_hash d.toks >>= λ (last_toks, h).
      get_cutoff n c.opts c.big h.memory.cell d.tokens last_toks >>= λ k.
      possibly_resize_hash c k.tok_count h >>= λ h'.
      let d' : HLevelDecoder F = record d { toks = h' } in
      first_bound c frame k.adaptive_beam k.best_elem d' >>= λ next.
      emit_elems n c frame k.weight_cutoff k.adaptive_beam last_toks d' next
