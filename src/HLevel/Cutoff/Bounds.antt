-- ===== src/HLevel/Cutoff/Bounds.antt =====
-- src/include/dcd/hlevel-decoder.h, GetCutoff: how many tokens are under the cutoff.
use opendcd.Prelude.{
  ℕ, zero, suc, ◌+◌, ◌≤◌, ◌<◌, ◌≡◌, refl, ap, ◌∙◌, ◌⊎◌, inl, inr, Bool-cases, Option, none, some,
  List, [], ◌∷◌, All, length, get_or, leb, ◌==◌, ==_iff, if◌then◌else◌, arith,
}
use opendcd.Prelude.Float.{Float, key, add, sub, lt, min, min-le}
use opendcd.HLevel.{HLevelDecoderOptions}
use opendcd.HLevel.Cutoff.{
  Cutoff, int_max, weights, scan, insert_weight, sort_weights, nth_element, beam_cutoff,
  histogram_cutoff, cutoff_of,
}

module _ {F : Type 0} ⦃f : Float F⦄ where
  -- The number of weights under a cutoff
  unfoldable pub count_under : F → List F → ℕ
  count_under c [] = 0
  count_under c (w ∷ ws) = (if lt w c then 1 else 0) + count_under c ws

  abbrev IsSorted : List F → Type 0
  IsSorted [] = Unit
  IsSorted (w ∷ ws) = All (λ x. key w ≤ key x) ws × IsSorted ws

  count_under-insert :
      (c w : F) (ws : List F)
      → count_under c (insert_weight w ws) ≡ (if lt w c then 1 else 0) + count_under c ws
  unfolding count_under insert_weight
  count_under-insert c w [] = refl
  count_under-insert c w (x ∷ xs) = elim (Bool-cases (lt x w)) [
    | inl q ↦ rw q (omega (arith, count_under-insert c w xs))
    | inr q ↦ rw q refl
  ]

  count_under-sort : (c : F) (ws : List F) → count_under c (sort_weights ws) ≡ count_under c ws
  unfolding count_under sort_weights
  count_under-sort c [] = refl
  count_under-sort c (w ∷ ws) =
      count_under-insert c w (sort_weights ws)
      ∙ ap (λ (n : ℕ). (if lt w c then 1 else 0) + n) (count_under-sort c ws)

  length-insert : (w : F) (ws : List F) → length (insert_weight w ws) ≡ suc (length ws)
  unfolding insert_weight
  length-insert w [] = refl
  length-insert w (x ∷ xs) = elim (Bool-cases (lt x w)) [
    | inl q ↦ rw q (ap suc (length-insert w xs))
    | inr q ↦ rw q refl
  ]

  length-sort : (ws : List F) → length (sort_weights ws) ≡ length ws
  unfolding sort_weights
  length-sort [] = refl
  length-sort (w ∷ ws) = length-insert w (sort_weights ws) ∙ ap suc (length-sort ws)

  All-insert : (P : F → Type 0) (w : F) (ws : List F) → P w → All P ws → All P (insert_weight w ws)
  unfolding insert_weight
  All-insert P w [] h k = (h, tt)
  All-insert P w (x ∷ xs) h k = elim (Bool-cases (lt x w)) [
    | inl q ↦ rw q (k.0, All-insert P w xs h k.1)
    | inr q ↦ rw q (h, k)
  ]

  All-le :
      (w x : F) (xs : List F)
      → key w ≤ key x
      → All (λ y. key x ≤ key y) xs
      → All (λ y. key w ≤ key y) xs
  All-le w x [] h k = tt
  All-le w x (y ∷ ys) h k = (omega (arith, k.0), All-le w x ys h k.1)

  insert_weight-IsSorted : (w : F) (ws : List F) → IsSorted ws → IsSorted (insert_weight w ws)
  unfolding insert_weight
  insert_weight-IsSorted w [] v = (tt, tt)
  insert_weight-IsSorted w (x ∷ xs) v = elim (Bool-cases (lt x w)) [
    | inl q ↦
        let l : key x ≤ key w = ground arith in
        rw q (All-insert (λ y. key x ≤ key y) w xs l v.0, insert_weight-IsSorted w xs v.1)
    | inr q ↦ let l : key w ≤ key x = ground arith in rw q ((l, All-le w x xs l v.0), v)
  ]

  sort_weights-IsSorted : (ws : List F) → IsSorted (sort_weights ws)
  unfolding sort_weights
  sort_weights-IsSorted [] = tt
  sort_weights-IsSorted (w ∷ ws) =
      insert_weight-IsSorted w (sort_weights ws) (sort_weights-IsSorted ws)

  count_under_least : (c : F) (ws : List F) → All (λ x. key c ≤ key x) ws → count_under c ws ≡ 0
  unfolding count_under
  count_under_least c [] h = refl
  count_under_least c (w ∷ ws) h = ground (arith, count_under_least c ws)

  -- In a sorted list at most `n` weights are under the one at `n`.
  count_under_nth :
      (ws : List F) (n : ℕ) (d : F)
      → IsSorted ws
      → n < length ws
      → count_under (get_or ws n d) ws ≤ n
  unfolding count_under
  count_under_nth [] n d v h = absurd (omega arith)
  count_under_nth (w ∷ ws) zero d v h = let z = count_under_least w ws v.0 in ground arith
  count_under_nth (w ∷ ws) (suc n) d v h =
      let k = count_under_nth ws n d v.1 (omega arith) in ground arith

  count_under_mono :
      (c c' : F) (ws : List F) → key c ≤ key c' → count_under c ws ≤ count_under c' ws
  unfolding count_under
  count_under_mono c c' [] h = omega arith
  count_under_mono c c' (w ∷ ws) h = ground (arith, count_under_mono c c' ws)

  count_under-le : (c : F) (ws : List F) → count_under c ws ≤ length ws
  unfolding count_under
  count_under-le c [] = omega arith
  count_under-le c (w ∷ ws) = ground (arith, count_under-le c ws)

  length-weights : (l : List (ℕ × F)) → length (weights l) ≡ length l
  length-weights [] = refl
  length-weights ((a, w) ∷ l) = ap suc (length-weights l)

  abbrev pub IsListed : ℕ → F → List (ℕ × F) → Type 0
  IsListed a w [] = ⊥
  IsListed a w ((b, x) ∷ l) = ((a ≡ b) × (w ≡ x)) ⊎ IsListed a w l

  -- What the loop finds, from a best weight and an element on
  pub record IsBest (best : F) (e : Option ℕ) (l : List (ℕ × F)) (r : F × Option ℕ) : Type 0 where
    pub lower : key r.0 ≤ key best
    pub all : All (λ w. key r.0 ≤ key w) (weights l)
    pub choice : ((r.0 ≡ best) × (r.1 ≡ e)) ⊎ ((a : ℕ) × (r.1 ≡ some a) × IsListed a r.0 l)

  scan-IsBest : (best : F) (e : Option ℕ) (l : List (ℕ × F)) → IsBest best e l (scan best e l)
  unfolding scan
  scan-IsBest best e [] = record { lower = omega arith; all = tt; choice = inl (refl, refl) }
  scan-IsBest best e ((a, w) ∷ l) = elim (Bool-cases (lt w best)) [
    | inl q ↦
        let v = scan-IsBest w (some a) l in
        let less : key w ≤ key best = ground arith in
        let low = v.lower in
        rw q record {
          lower = omega arith;
          all = (low, v.all);
          choice =
              inr (elim v.choice [
                | inl c ↦ (a, c.1, inl (refl, c.0))
                | inr (b, r, i) ↦ (b, r, inr i)
              ]);
        }
    | inr q ↦
        let v = scan-IsBest best e l in
        let low = v.lower in
        let more : key best ≤ key w = ground arith in
        rw q record {
          lower = low;
          all = (omega arith, v.all);
          choice = elim v.choice [ inl c ↦ inl c | inr (b, r, i) ↦ inr (b, r, inr i) ];
        }
  ]

  -- What GetCutoff promises of the elements of a list and their weights, where `big` is 1.0e+10.
  pub record IsCutoff (opts : HLevelDecoderOptions F) (big : F) (l : List (ℕ × F)) (c : Cutoff F)
      : Type 0 where
    pub best : F
    pub least : IsBest big none l (best, c.best_elem)
    pub beam : key c.weight_cutoff ≤ key (add best opts.beam)
    pub counted : c.tok_count ≡ length l
    pub adaptive : key c.adaptive_beam ≤ key opts.beam
    pub histogram :
        (opts.max_active ≡ int_max) ⊎ (count_under c.weight_cutoff (weights l) ≤ opts.max_active)

  histogram-IsCutoff :
      (opts : HLevelDecoderOptions F) (big : F) (l : List (ℕ × F))
      → opts.max_active < length l
      → IsCutoff opts big l
          (histogram_cutoff opts (scan big none l).0 (scan big none l).1 (weights l))
  unfolding histogram_cutoff
  histogram-IsCutoff opts big l h =
      let best = (scan big none l).0 in
      let ws = weights l in
      let nth = nth_element ws opts.max_active best in
      let ans = min (add best opts.beam) nth in
      record {
        best = best;
        least = scan-IsBest big none l;
        beam = (min-le (add best opts.beam) nth).0;
        counted = length-weights l;
        adaptive = (min-le opts.beam (add (sub ans best) opts.beam_delta)).0;
        histogram = inr (
            let sorted : count_under nth (sort_weights ws) ≤ opts.max_active =
              unfold nth_element in
              (count_under_nth (sort_weights ws) opts.max_active best (sort_weights-IsSorted ws)
                (omega (arith, length-sort ws, length-weights l))) in
            omega (
              arith,
              count_under-sort nth ws,
              sorted,
              count_under_mono ans nth ws (min-le (add best opts.beam) nth).1,
            ));
      }

  -- GetCutoff counts the elements, and returns an element of least weight if one is under 1.0e+10. The
  -- cutoff is no higher than the least weight plus the beam, and no more than max_active tokens are under it, unless
  -- max_active is the greatest int32. The adaptive beam is no wider than the beam.
  pub cutoff_of-IsCutoff :
      (opts : HLevelDecoderOptions F) (big : F) (l : List (ℕ × F))
      → IsCutoff opts big l (cutoff_of opts big l)
  unfolding cutoff_of beam_cutoff
  cutoff_of-IsCutoff opts big l =
      let b = scan-IsBest big none l in
      elim (Bool-cases (opts.max_active == int_max)) [
        | inl q ↦ rw q record {
          best = (scan big none l).0;
          least = b;
          beam = omega arith;
          counted = refl;
          adaptive = omega arith;
          histogram = inl ((==_iff opts.max_active int_max).0 q);
        }
        | inr q ↦ elim (Bool-cases (leb (length l) opts.max_active)) [
          | inl r ↦
              rw (q, r)
                record {
                  best = (scan big none l).0;
                  least = b;
                  beam = omega arith;
                  counted = refl;
                  adaptive = omega arith;
                  histogram = inr (
                      let n = count_under-le (add (scan big none l).0 opts.beam) (weights l) in
                      let m : length l ≤ opts.max_active = ground arith in
                      omega (arith, length-weights l));
                }
          | inr r ↦ rw (q, r) (histogram-IsCutoff opts big l (ground arith))
        ]
      ]
