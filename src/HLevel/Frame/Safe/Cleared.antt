-- ===== src/HLevel/Frame/Safe/Cleared.antt =====
-- src/include/dcd/hlevel-decoder.h, the list that Clear hands over, and ClearToks.
use opendcd.Prelude.{
  ℕ, zero, suc, ◌+◌, ◌<◌, ◌≡◌, refl, sym, ap, subst, ◌∙◌, inl, inr, Option, none, some, List, [],
  ◌∷◌, Has, length, arith,
}
use opendcd.Prelude.Distinct.{length-le_distinct}
use opendcd.HashList.{Elem, HashList, Memory, clear_hash}
use opendcd.HashList.Chain.{IsChain, IsChain-frame}
use opendcd.HashList.Freed.{IsUsed}
use opendcd.HashList.Groups.{Group, elements}
use opendcd.HashList.Groups.Clear.{clear-IsHash}
use opendcd.HLevel.Refs.{IsCounted-same}
use opendcd.HLevel.Frame.{HLevelDecoder, clear_toks}
use opendcd.HLevel.Frame.Held.{vals, vals-frame, elements-NoDup, IsDecoder}
use opendcd.HLevel.Frame.Safe.{drop_elem-IsDecoder}

module _ {F : Type 0} where
  -- The list that Clear hands over, with the elements of the hash
  pub cleared-IsDecoder :
      (d : HLevelDecoder F) (gs : List Group) (free live : List ℕ) (outside : ℕ → ℕ)
      → IsDecoder d gs free live [] outside
      → (h : HashList ℕ) × (clear_hash d.toks ≡ some (d.toks.list_head, h))
        × IsDecoder (record d { toks = h }) [] free live (elements gs) outside
        × IsChain d.toks.memory.cell d.toks.list_head (elements gs) none
        × (length (elements gs) < d.toks.memory.fresh + 1)
        × (h.memory ≡ d.toks.memory)
  unfolding vals elements
  cleared-IsDecoder d gs free live outside v =
      let (h, r, w, mem, size, chain, used) = clear-IsHash d.toks gs free v.hash in
      let cell = d.toks.memory.cell in
      let nodup =
        elements-NoDup cell d.toks.bucket d.toks.hash_size (IsUsed d.toks.memory free)
          d.toks.list_head gs v.hash.linked v.hash.distinct in
      let enough =
        length-le_distinct d.toks.memory.fresh (elements gs) nodup (λ x m. (used x m).0) in
      let same : h.memory.cell ≡ cell = ap (λ (m : Memory ℕ). m.cell) mem in
      (
        h,
        r,
        record {
          hash = w;
          sized = subst (λ n. 0 < n) (sym size) v.sized;
          rest_nodup = nodup;
          rest_used = λ x m. subst (λ (k : Memory ℕ). IsUsed k free x) (sym mem) (used x m);
          rest_out = λ x m k. k;
          counted =
              IsCounted-same d.tokens live (λ b. outside b + (vals cell b (elements gs) + 0))
                (λ b. outside b + (0 + vals h.memory.cell b (elements gs)))
                (λ b. omega (
                  arith,
                  vals-frame cell h.memory.cell b (elements gs)
                      (λ x m. ap (λ (g : ℕ → Elem ℕ). (g x).val) same),
                ))
                v.counted;
          states = λ x t m q.
              let k : Has x (elements gs) = elim m [ inl no' ↦ elim no' [ ] | inr k ↦ k ] in
              v.states x t (inl k) (ap (λ (g : ℕ → Elem ℕ). d.tokens.cell (g x).val) (sym same) ∙ q)
              ∙ ap (λ (g : ℕ → Elem ℕ). (g x).key) (sym same);
        },
        chain,
        omega arith,
        mem,
      )

  -- ClearToks of a list outside the hash ends, and its elements hold no tokens any more.
  pub clear_toks-IsStep :
      (n : ℕ) (p : Option ℕ) (d : HLevelDecoder F) (gs : List Group) (free live rest : List ℕ)
      (outside : ℕ → ℕ)
      → IsDecoder d gs free live rest outside
      → IsChain d.toks.memory.cell p rest none
      → length rest < n
      → (d' : HLevelDecoder F) × (free' live' : List ℕ) × (clear_toks n p d ≡ some d')
        × IsDecoder d' gs free' live' [] outside
  unfolding clear_toks
  clear_toks-IsStep zero p d gs free live rest outside v c l = absurd (omega arith)
  clear_toks-IsStep (suc n) p d gs free live [] outside v c l = (d, free, live, rw c refl, v)
  clear_toks-IsStep (suc n) p d gs free live (e ∷ rest) outside v c l =
      let (d1, live1, r1, w1, kept) = drop_elem-IsDecoder d gs free live e rest outside v in
      let chain : IsChain d1.toks.memory.cell (d.toks.memory.cell e).tail rest none =
        IsChain-frame d.toks.memory.cell d1.toks.memory.cell (d.toks.memory.cell e).tail rest none
          (λ x m. ap (λ (y : Elem ℕ). y.tail) (kept x m)) c.1 in
      let (d', free', live', r, w) =
        clear_toks-IsStep n (d.toks.memory.cell e).tail d1 gs (e ∷ free) live1 rest outside w1 chain
          (omega arith) in
      (d', free', live', rw (c.0, r1) r, w)
