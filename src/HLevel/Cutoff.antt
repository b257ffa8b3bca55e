-- ===== src/HLevel/Cutoff.antt =====
-- src/include/dcd/hlevel-decoder.h, GetCutoff: the cutoff of a frame's tokens.
pub mod Bounds
use opendcd.Prelude.{
  ℕ, zero, suc, Bool, Option, none, some, List, [], ◌∷◌, map, length, get_or, leb, ◌==◌,
  if◌then◌else◌,
}
use opendcd.Prelude.Float.{Float, add, sub, lt, min}
use opendcd.Prelude.Partial.{◌>>=◌}
use opendcd.HashList.{Elem}
use opendcd.HLevel.{HLevelDecoderOptions, HToken, Tokens}

-- What GetCutoff returns, by its result and by its pointers
pub record Cutoff (F : Type 0) : Type 0 where
  pub weight_cutoff : F
  pub tok_count : ℕ
  pub adaptive_beam : F
  pub best_elem : Option ℕ

-- std::numeric_limits<int32>::max()
abbrev pub int_max : ℕ
int_max = 2147483647

abbrev pub weights : {F : Type 0} → List (ℕ × F) → List F
weights [] = []
weights ((a, w) ∷ l) = w ∷ weights l

module _ {F : Type 0} where
  -- The loop over a list: the elements, with the weights of their tokens
  unfoldable pub listed : ℕ → (ℕ → Elem ℕ) → Tokens F → Option ℕ → Option (List (ℕ × F))
  listed zero cell s e = none
  listed (suc n) cell s none = some []
  listed (suc n) cell s (some e) =
      let rest = listed n cell s (cell e).tail in
      s.cell (cell e).val >>= λ t. rest >>= λ l. some ((e, t.weight) ∷ l)

module _ {F : Type 0} ⦃f : Float F⦄ where
  -- The body of both loops
  unfoldable pub scan : F → Option ℕ → List (ℕ × F) → F × Option ℕ
  scan best e [] = (best, e)
  scan best e ((a, w) ∷ l) =
      scan (if lt w best then w else best) (if lt w best then some a else e) l

  unfoldable pub insert_weight : F → List F → List F
  insert_weight w [] = w ∷ []
  insert_weight w (x ∷ xs) =
      let rest = insert_weight w xs in if lt x w then x ∷ rest else w ∷ x ∷ xs

  unfoldable pub sort_weights : List F → List F
  unfolding insert_weight
  sort_weights [] = []
  sort_weights (w ∷ ws) = insert_weight w (sort_weights ws)

  -- std::nth_element, and the value at `n` that it leaves: the one there in a sorted list
  unfoldable pub nth_element : List F → ℕ → F → F
  unfolding sort_weights
  nth_element ws n d = get_or (sort_weights ws) n d

  unfoldable pub beam_cutoff : HLevelDecoderOptions F → F → Option ℕ → ℕ → Cutoff F
  beam_cutoff opts best e n = record {
    weight_cutoff = add best opts.beam;
    tok_count = n;
    adaptive_beam = opts.beam;
    best_elem = e;
  }

  unfoldable pub histogram_cutoff : HLevelDecoderOptions F → F → Option ℕ → List F → Cutoff F
  unfolding nth_element
  histogram_cutoff opts best e ws =
      let ans = min (add best opts.beam) (nth_element ws opts.max_active best) in
      record {
        weight_cutoff = ans;
        tok_count = length ws;
        adaptive_beam = min opts.beam (add (sub ans best) opts.beam_delta);
        best_elem = e;
      }

  -- GetCutoff of the elements of a list; `big` is 1.0e+10
  unfoldable pub cutoff_of : HLevelDecoderOptions F → F → List (ℕ × F) → Cutoff F
  unfolding scan beam_cutoff histogram_cutoff
  cutoff_of opts big l =
      let (best, e) = scan big none l in
      let n = length l in
      if opts.max_active == int_max
      then beam_cutoff opts best e n
      else if leb n opts.max_active
      then beam_cutoff opts best e n
      else histogram_cutoff opts best e (weights l)

  -- GetCutoff, of a list of fewer than `n` elements
  unfoldable pub get_cutoff :
      ℕ → HLevelDecoderOptions F → F → (ℕ → Elem ℕ) → Tokens F → Option ℕ → Option (Cutoff F)
  unfolding listed cutoff_of
  get_cutoff n opts big cell s head = listed n cell s head >>= λ l. some (cutoff_of opts big l)
