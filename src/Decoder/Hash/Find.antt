-- ===== src/Decoder/Hash/Find.antt =====
-- src/include/dcd/clevel-decoder.h, FindSearchState: the state that a request returns.
use opendcd.Prelude.{
  ℕ, ◌+◌, ◌≡◌, ◌≢◌, refl, ap, ◌∙◌, ◌⊎◌, inl, inr, none, some, Option-cases, Has, arith, ==_iff,
  update,
}
use opendcd.Decoder.State.{SearchState}
use opendcd.Decoder.Hash.{
  SearchHash, lookup, take_pooled, alloc_search_state, add_search_state, find_search_state,
}
use opendcd.Decoder.Hash.Sound.{IsSound, addresses, take_pooled-IsApart}

update_here : {A : Type 0} (f : ℕ → A) (p : ℕ) (v : A) → update f p v p ≡ v
update_here f p v = rw ((==_iff p p).1 refl) refl

update_other : {A : Type 0} (f : ℕ → A) (p q : ℕ) (v : A) → q ≢ p → update f p v q ≡ f q
update_other f p q v n = ground (arith, ==_iff p q)

module _ {F : Type 0} (init : ℕ → SearchState F → SearchState F) where
  -- What a request for `state` promises: `a` is in the hash under it, and the others stay. The state at
  -- `a` was in the hash, or it was not in use and has been initialised.
  pub record IsRequested (state : ℕ) (h : SearchHash F) (a : ℕ) (h' : SearchHash F) : Type 0 where
    pub sound : IsSound h'
    pub here : lookup h'.entries state ≡ some a
    pub others : (k : ℕ) → k ≢ state → lookup h'.entries k ≡ lookup h.entries k
    pub origin :
        ((lookup h.entries state ≡ some a) × (h'.cell ≡ h.cell))
        ⊎ ((lookup h.entries state ≡ none)
            × (¬ Has a (addresses h.entries))
            × (h'.cell a ≡ init state (h.cell a))
            × ((b : ℕ) → b ≢ a → h'.cell b ≡ h.cell b))

  add_search_state-IsRequested :
      (state : ℕ) (h : SearchHash F)
      → IsSound h
      → lookup h.entries state ≡ none
      → IsRequested state h (add_search_state init state h).0 (add_search_state init state h).1
  unfolding add_search_state alloc_search_state
  add_search_state-IsRequested state h v e =
      let h1 : SearchHash F = record h {
        num_misses = h.num_misses + 1;
        num_allocs = h.num_allocs + 1;
      } in
      let (apart, allocs, frees, same, cells) =
        take_pooled-IsApart h.pool h1 (addresses h.entries) refl v.distinct in
      let a = (take_pooled h.pool h1).0 in
      let same_at = λ (b : ℕ). ap (λ (c : ℕ → SearchState F). c b) cells in
      record {
        sound = record {
          distinct = unfold addresses in rw same apart;
          balanced = rw (same, allocs, frees) (omega (arith, v.balanced));
        };
        here = unfold lookup in rw ((==_iff state state).1 refl) refl;
        others = λ k n. unfold lookup in rw same (ground (arith, ==_iff state k));
        origin = inr (
          e,
          apart.used_nodup.0,
          update_here (take_pooled h.pool h1).1.cell a _ ∙ ap (init state) (same_at a),
          λ b n. update_other (take_pooled h.pool h1).1.cell a b _ n ∙ same_at b,
        );
      }

  -- FindSearchState on a sound hash returns the address that the hash has under the state, or that of a
  -- state that was not in use, which it initialises and enters. The hash stays sound, every other entry
  -- and search state as it was.
  pub find_search_state-IsRequested :
      (state : ℕ) (h : SearchHash F)
      → IsSound h
      → IsRequested state h (find_search_state init state h).0 (find_search_state init state h).1
  unfolding find_search_state
  find_search_state-IsRequested state h v = elim (Option-cases (lookup h.entries state)) [
    | inl e ↦
        let h1 : SearchHash F = record h { num_requests = h.num_requests + 1 } in
        let r =
          add_search_state-IsRequested state h1
            (record { distinct = v.distinct; balanced = v.balanced }) e in
        rw (e, find_search_state)
          (record { sound = r.sound; here = r.here; others = r.others; origin = r.origin })
    | inr (a, e) ↦
        rw (e, find_search_state)
          (record {
            sound = record { distinct = v.distinct; balanced = v.balanced };
            here = e;
            others = λ k n. refl;
            origin = inl (e, refl);
          })
  ]
