-- ===== src/HLevel/Decode.antt =====
-- src/include/dcd/hlevel-decoder.h, the constructor and Decode.
pub mod Start
use opendcd.Prelude.{ℕ, zero, suc, ◌+◌, Option, none, some, List, [], ◌∷◌}
use opendcd.Prelude.Float.{Float}
use opendcd.Prelude.Partial.{◌>>=◌}
use opendcd.ArcExpand.{Arc}
use opendcd.HashList.{HashList, Memory, empty_hash, set_size, clear_hash, insert}
use opendcd.HLevel.{Tokens, new_token}
use opendcd.HLevel.Frame.{HLevelDecoder, Setting, clear_toks, process_emitting}
use opendcd.HLevel.Epsilon.{process_nonemitting}
use opendcd.HLevel.Path.{BestPath, get_best_path}

module _ {F : Type 0} where
  -- The constructor; before it, no token is at any address of the store.
  unfoldable pub init_decoder : Memory ℕ → Option (HLevelDecoder F)
  init_decoder m = set_size 1000 (empty_hash m) >>= λ h.
      some record { toks = h; tokens = record { cell = λ a. none; fresh = 0 } }

  -- ClearToks(toks_.Clear())
  unfoldable pub clear_all : HLevelDecoder F → Option (HLevelDecoder F)
  unfolding clear_toks
  clear_all d = clear_hash d.toks >>= λ (list, h).
      clear_toks (d.toks.memory.fresh + 1) list (record d { toks = h })

  -- dummy_arc
  unfoldable pub dummy_arc : F → ℕ → Arc F
  dummy_arc one s = record { ilabel = 0; olabel = 0; weight = one; nextstate = s }

  -- Decode up to the first call of ProcessNonemitting, for the start state `s`
  unfoldable pub start_decode : Setting F → ℕ → HLevelDecoder F → Option (HLevelDecoder F)
  unfolding clear_all dummy_arc
  start_decode c s d = clear_all d >>= λ d'.
      new_token c.lib (dummy_arc c.lib.one_weight s) none none d'.tokens >>= λ (a, tokens).
      insert s a d'.toks >>= λ h. some record { toks = h; tokens = tokens }

module _ {F : Type 0} ⦃f : Float F⦄ where
  -- The loop over the frames, each for fewer than `n` rounds of ProcessNonemitting
  unfoldable pub decode_frames :
      ℕ → Setting F → List (List F) → HLevelDecoder F → Option (HLevelDecoder F)
  decode_frames n c [] d = some d
  decode_frames n c (frame ∷ frames) d = process_emitting c frame d >>= λ (d', cutoff).
      process_nonemitting n c cutoff d' >>= λ d''. decode_frames n c frames d''

  -- Decode
  unfoldable pub decode :
      ℕ
      → Setting F
      → List (List F)
      → HLevelDecoder F
      → Option (HLevelDecoder F × Option (BestPath F))
  unfolding start_decode decode_frames
  decode n c frames d = c.fst.start >>= λ s. start_decode c s d >>= λ d1.
      process_nonemitting n c c.greatest d1 >>= λ d2.
      decode_frames n c frames d2 >>= λ d3. get_best_path c d3 >>= λ path. some (d3, path)
