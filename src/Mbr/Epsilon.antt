-- ===== src/Mbr/Epsilon.antt =====
-- src/include/dcd/mbr-decode.h, NormalizeEps: where the words are afterwards.
use opendcd.Prelude.{
  ℕ, zero, suc, ◌+◌, ◌-◌, ◌*◌, ◌≤◌, ◌<◌, ◌≡◌, refl, ◌∙◌, Bool-cases, inl, inr, List, [], ◌∷◌, ◌++◌,
  length, length-append, length-replicate, length-set, get_or, get_or-set, set, replicate, arith,
  ==_iff, ◌==◌,
}
use opendcd.Mbr.{remove_eps, grow, spread_word, spread_words, normalize_eps}

get_or-append : (xs ys : List ℕ) (i d : ℕ) → i < length xs → get_or (xs ++ ys) i d ≡ get_or xs i d
get_or-append [] ys i d h = absurd (omega arith)
get_or-append (x ∷ xs) ys zero d h = refl
get_or-append (x ∷ xs) ys (suc i) d h = get_or-append xs ys i d (omega arith)

set_same : (xs : List ℕ) (i v d : ℕ) → i < length xs → get_or (set xs i v) i d ≡ v
set_same xs i v d h = ground (arith, get_or-set xs i i v d, ==_iff i i)

set_other : (xs : List ℕ) (i j v d : ℕ) → ¬ (i ≡ j) → get_or (set xs i v) j d ≡ get_or xs j d
set_other xs i j v d n = ground (arith, get_or-set xs i j v d, ==_iff i j)

-- Each word has come to its place from `k` on, and is at the start of the vector before `k`.
record IsSpread (words : List ℕ) (k : ℕ) (vec : List ℕ) : Type 0 where
  size : length vec ≡ 1 + length words * 2
  still : (j : ℕ) → j < k → get_or vec j 0 ≡ get_or words j 0
  moved : (j : ℕ) → k ≤ j → j < length words → get_or vec (j * 2 + 1) 0 ≡ get_or words j 0
  between : (j : ℕ) → k ≤ j → j < length words → get_or vec (j * 2 + 2) 1 ≡ 0

spread_word-IsSpread :
    (words vec : List ℕ) (k : ℕ)
    → k < length words
    → IsSpread words (suc k) vec
    → IsSpread words k (spread_word k vec)
unfolding spread_word
spread_word-IsSpread words vec k h v =
    let first = set vec (k * 2 + 1) (get_or vec k 0) in
    let len : length first ≡ 1 + length words * 2 =
      length-set vec (k * 2 + 1) (get_or vec k 0) ∙ v.size in
    record {
      size = length-set first (k * 2 + 2) 0 ∙ len;
      still = λ j m.
          set_other first (k * 2 + 2) j 0 0 (λ e. omega arith)
          ∙ set_other vec (k * 2 + 1) j (get_or vec k 0) 0 (λ e. omega arith)
          ∙ v.still j (omega arith);
      moved = λ j m n.
          set_other first (k * 2 + 2) (j * 2 + 1) 0 0 (λ e. omega arith)
          ∙ elim (Bool-cases (j == k)) [
            | inl same ↦
                let at : j ≡ k = (==_iff j k).0 same in
                rw at (
                  set_same vec (k * 2 + 1) (get_or vec k 0) 0 (omega (arith, v.size))
                  ∙ v.still k (omega arith))
            | inr other ↦
                let n' : k < j = ground (arith, ==_iff j k) in
                set_other vec (k * 2 + 1) (j * 2 + 1) (get_or vec k 0) 0 (λ e. omega arith)
                ∙ v.moved j (omega arith) n
          ];
      between = λ j m n. elim (Bool-cases (j == k)) [
        | inl same ↦
            let at : j ≡ k = (==_iff j k).0 same in
            rw at (set_same first (k * 2 + 2) 0 1 (omega (arith, len)))
        | inr other ↦
            let n' : k < j = ground (arith, ==_iff j k) in
            set_other first (k * 2 + 2) (j * 2 + 2) 0 1 (λ e. omega arith)
            ∙ set_other vec (k * 2 + 1) (j * 2 + 2) (get_or vec k 0) 1 (λ e. omega arith)
            ∙ v.between j (omega arith) n
      ];
    }

spread_words-IsSpread :
    (words vec : List ℕ) (k : ℕ)
    → k ≤ length words
    → IsSpread words k vec
    → IsSpread words 0 (spread_words k vec)
unfolding spread_words
spread_words-IsSpread words vec zero h v = v
spread_words-IsSpread words vec (suc k) h v =
    spread_words-IsSpread words (spread_word k vec) k (omega arith)
      (spread_word-IsSpread words vec k (omega arith) v)

grow-IsSpread : (words : List ℕ) → IsSpread words (length words) (grow words (1 + length words * 2))
grow-IsSpread words =
    let n = 1 + length words * 2 - length words in
    record {
      size = length-append words (replicate n 0) ∙ omega (arith, length-replicate {A = ℕ} n 0);
      still = λ j m. get_or-append words (replicate n 0) j 0 m;
      moved = λ j m m'. absurd (omega arith);
      between = λ j m m'. absurd (omega arith);
    }

-- The vector that NormalizeEps makes of a sequence has its words without the epsilons at the odd places, in
-- order, and epsilons at all even ones, one more than there are words.
pub normalize_eps_lem :
    (vec : List ℕ)
    → (length (normalize_eps vec) ≡ 1 + length (remove_eps vec) * 2)
      × (get_or (normalize_eps vec) 0 1 ≡ 0)
      × ((j : ℕ)
          → j < length (remove_eps vec)
          → (get_or (normalize_eps vec) (j * 2 + 1) 0 ≡ get_or (remove_eps vec) j 0)
            × (get_or (normalize_eps vec) (j * 2 + 2) 1 ≡ 0))
unfolding normalize_eps
normalize_eps_lem vec =
    let words = remove_eps vec in
    let start = grow words (1 + length words * 2) in
    let v = spread_words-IsSpread words start (length words) (omega arith) (grow-IsSpread words) in
    let out = spread_words (length words) start in
    (
      length-set out 0 0 ∙ v.size,
      set_same out 0 0 1 (omega (arith, v.size)),
      λ j n. (
        set_other out 0 (j * 2 + 1) 0 0 (λ e. omega arith) ∙ v.moved j (omega arith) n,
        set_other out 0 (j * 2 + 2) 0 1 (λ e. omega arith) ∙ v.between j (omega arith) n,
      ),
    )
