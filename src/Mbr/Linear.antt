-- ===== src/Mbr/Linear.antt =====
-- src/include/dcd/mbr-decode.h, GetLinearSymbolSequence on a transducer with one path.
use opendcd.Prelude.{
  ℕ, zero, suc, ◌<◌, ◌≡◌, refl, sym, ap, ◌∙◌, true, false, Bool-cases, inl, inr, some, List, [],
  ◌∷◌, ◌++◌, append-nil, append_assoc, length, map, arith, ◌==◌,
}
use opendcd.Mbr.{
  Arc, Fst, Semiring, Sequence, push_label, only_arc, follow_arc, linear_loop,
  get_linear_symbol_sequence, remove_eps,
}

module _ {W : Type 0} (ring : Semiring W) (fst : Fst W) where
  -- From a state, the arcs of the only path, to a final state without arcs, with its final weight.
  pub data IsLinear : ℕ → List (Arc W) → W → Type 0 where
    at_end :
        {q : ℕ} → ring.is_zero (fst.final q) ≡ false → fst.arcs q ≡ [] → IsLinear q [] (fst.final q)
    at_arc :
        {q : ℕ} {a : Arc W} {path : List (Arc W)} {w : W}
        → ring.is_zero (fst.final q) ≡ true
        → fst.arcs q ≡ a ∷ []
        → IsLinear a.nextstate path w
        → IsLinear q (a ∷ path) w

  -- The product of the weights along a path, the later ones to the left
  abbrev pub path_weight : List (Arc W) → W → W
  path_weight [] w = w
  path_weight (a ∷ path) w = path_weight path (ring.times a.weight w)

  -- What is read along a path, after what was read before it
  abbrev pub read_path : List (Arc W) → W → Sequence W → Sequence W
  read_path path w r = record {
    isymbols = r.isymbols ++ remove_eps (map (λ (a : Arc W). a.ilabel) path);
    osymbols = r.osymbols ++ remove_eps (map (λ (a : Arc W). a.olabel) path);
    total = ring.times w (path_weight path r.total);
  }

  push_label-append :
      (seq : List ℕ) (label : ℕ) (labels : List ℕ)
      → push_label seq label ++ remove_eps labels ≡ seq ++ remove_eps (label ∷ labels)
  unfolding remove_eps
  push_label-append seq label labels = elim (Bool-cases (label == 0)) [
    | inl eps ↦ rw eps refl
    | inr word ↦ rw word (append_assoc seq (label ∷ []) (remove_eps labels))
  ]

  Sequence-eq :
      (r s : Sequence W)
      → r.isymbols ≡ s.isymbols
      → r.osymbols ≡ s.osymbols
      → r.total ≡ s.total
      → r ≡ s
  Sequence-eq r s p q t i = record { isymbols = p i; osymbols = q i; total = t i }

  read_path-follow :
      (a : Arc W) (path : List (Arc W)) (w : W) (r : Sequence W)
      → read_path path w (follow_arc ring fst a r) ≡ read_path (a ∷ path) w r
  unfolding follow_arc
  read_path-follow a path w r =
      Sequence-eq _ _ (push_label-append r.isymbols a.ilabel _)
        (push_label-append r.osymbols a.olabel _) refl

  read_path-empty :
      (w : W) (r : Sequence W) → read_path [] w r ≡ record r { total = ring.times w r.total }
  unfolding remove_eps
  read_path-empty w r = Sequence-eq _ _ (append-nil _) (append-nil _) refl

  linear_loop-IsLinear :
      (n q : ℕ) (path : List (Arc W)) (w : W) (r : Sequence W)
      → IsLinear q path w
      → length path < n
      → linear_loop ring fst n q r ≡ some (some (read_path path w r))
  unfolding linear_loop only_arc
  linear_loop-IsLinear zero q path w r h m = absurd (omega arith)
  linear_loop-IsLinear (suc n) q [] w r (at_end z e) m =
      rw (z, e) (ap (λ s. some (some s)) (sym (read_path-empty w r)))
  linear_loop-IsLinear (suc n) q (a ∷ path) w r (at_arc z e h) m =
      rw (z, e)
        (linear_loop-IsLinear n a.nextstate path w (follow_arc ring fst a r) h (omega arith)
          ∙ ap (λ s. some (some s)) (read_path-follow a path w r))

  -- GetLinearSymbolSequence of a transducer whose only path leads from the start state to a final state
  -- without arcs ends after one round for each state of the path: it returns true with the path's
  -- input labels and output labels, without the epsilons, and the product of its weights.
  pub get_linear_symbol_sequence-IsLinear :
      (n q : ℕ) (path : List (Arc W)) (w : W)
      → fst.start ≡ some q
      → IsLinear q path w
      → length path < n
      → get_linear_symbol_sequence ring fst n
        ≡ some (
            some (record {
              isymbols = remove_eps (map (λ (a : Arc W). a.ilabel) path);
              osymbols = remove_eps (map (λ (a : Arc W). a.olabel) path);
              total = ring.times w (path_weight path ring.one_weight);
            }))
  unfolding get_linear_symbol_sequence
  get_linear_symbol_sequence-IsLinear n q path w s h m =
      rw (s, get_linear_symbol_sequence) (linear_loop-IsLinear n q path w _ h m)
