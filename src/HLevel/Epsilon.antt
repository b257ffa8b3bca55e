-- ===== src/HLevel/Epsilon.antt =====
-- src/include/dcd/hlevel-decoder.h, ProcessNonemitting: the epsilon arcs of a frame.
use opendcd.Prelude.{ℕ, zero, suc, ◌+◌, Option, none, some, List, [], ◌∷◌, ◌==◌, if◌then◌else◌}
use opendcd.Prelude.Float.{Float, lt}
use opendcd.Prelude.Partial.{◌>>=◌}
use opendcd.ArcExpand.{Arc}
use opendcd.HashList.{Elem, find}
use opendcd.HLevel.{new_token}
use opendcd.HLevel.Frame.{HLevelDecoder, Setting, delete_token, place_token}

-- The states of a list of fewer than `n` elements, pushed to the back of the queue
unfoldable pub push_keys : ℕ → (ℕ → Elem ℕ) → Option ℕ → List ℕ → Option (List ℕ)
push_keys zero cell e queue = none
push_keys (suc n) cell none queue = some queue
push_keys (suc n) cell (some e) queue = push_keys n cell (cell e).tail ((cell e).key ∷ queue)

module _ {F : Type 0} ⦃f : Float F⦄ where
  -- An epsilon arc behind the token `tok`: the new token is dropped above the cutoff, and placed below,
  -- where its state may be queued.
  unfoldable pub epsilon_token :
      Setting F → F → ℕ → Arc F → HLevelDecoder F → List ℕ → Option (HLevelDecoder F × List ℕ)
  unfolding delete_token place_token
  epsilon_token c cutoff tok arc d queue =
      new_token c.lib arc none (some tok) d.tokens >>= λ (a, s). s.cell a >>= λ t.
      let d' : HLevelDecoder F = record d { tokens = s } in
      if lt cutoff t.weight
      then (delete_token a d' >>= λ d''. some (d'', queue))
      else place_token arc.nextstate a d' >>= λ (d'', placed).
          some (d'', if placed then arc.nextstate ∷ queue else queue)

  unfoldable pub epsilon_arcs :
      Setting F
      → F
      → ℕ
      → List (Arc F)
      → HLevelDecoder F
      → List ℕ
      → Option (HLevelDecoder F × List ℕ)
  unfolding epsilon_token
  epsilon_arcs c cutoff tok [] d queue = some (d, queue)
  epsilon_arcs c cutoff tok (arc ∷ arcs) d queue =
      (if arc.ilabel == 0 then epsilon_token c cutoff tok arc d queue else some (d, queue))
      >>= λ (d', queue'). epsilon_arcs c cutoff tok arcs d' queue'

  -- The body of the loop over the queue, for a state that was popped
  unfoldable pub expand_queued :
      Setting F → F → ℕ → HLevelDecoder F → List ℕ → Option (HLevelDecoder F × List ℕ)
  unfolding epsilon_arcs
  expand_queued c cutoff state d queue = find state d.toks >>= λ found. found >>= λ e.
      let tok = (d.toks.memory.cell e).val in
      d.tokens.cell tok >>= λ t.
      if lt cutoff t.weight
      then some (d, queue)
      else epsilon_arcs c cutoff tok (c.fst.arcs state) d queue

  -- The loop over the queue, whose back is its head, for fewer than `n` rounds
  unfoldable pub expand_queue :
      ℕ → Setting F → F → HLevelDecoder F → List ℕ → Option (HLevelDecoder F)
  unfolding expand_queued
  expand_queue zero c cutoff d queue = none
  expand_queue (suc n) c cutoff d [] = some d
  expand_queue (suc n) c cutoff d (state ∷ queue) =
      expand_queued c cutoff state d queue >>= λ (d', queue'). expand_queue n c cutoff d' queue'

  -- ProcessNonemitting, for fewer than `n` rounds of the loop over the queue
  unfoldable pub process_nonemitting :
      ℕ → Setting F → F → HLevelDecoder F → Option (HLevelDecoder F)
  unfolding expand_queue push_keys
  process_nonemitting n c cutoff d =
      push_keys (d.toks.memory.fresh + 1) d.toks.memory.cell d.toks.list_head [] >>= λ queue.
      expand_queue n c cutoff d queue
