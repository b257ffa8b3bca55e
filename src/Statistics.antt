-- ===== src/Statistics.antt =====
-- src/include/dcd/search-statistics.h, the class SimpleStatistics, with the class CountSet of
-- src/include/dcd/utils.h. The hash map is an association list, states and labels are not negative, and
-- the running statistics, on which Push does nothing, are left out. A result `none` is an access out of
-- bounds.
use opendcd.Prelude.{
  ℕ, zero, suc, ◌+◌, ◌-◌, ◌≤◌, ◌≡◌, refl, inl, inr, Bool-cases, Option, none, some, List, [], ◌∷◌,
  ◌++◌, length, get_elem?, set, replicate, length-append, length-replicate, ◌==◌, ==_iff,
  if◌then◌else◌, arith,
}
use opendcd.Prelude.Partial.{◌>>=◌}

pub record CountSet : Type 0 where
  pub hash_map : List (ℕ × ℕ)

-- hash_map_[v] of a key that may not be there
unfoldable count_of : List (ℕ × ℕ) → ℕ → ℕ
count_of [] v = 0
count_of ((w, n) ∷ m) v = let rest = count_of m v in if w == v then n else rest

-- hash_map_[v] = count
unfoldable set_count : List (ℕ × ℕ) → ℕ → ℕ → List (ℕ × ℕ)
set_count [] v n = (v, n) ∷ []
set_count ((w, k) ∷ m) v n =
    let rest = set_count m v n in if w == v then (w, n) ∷ m else (w, k) ∷ rest

-- CountSet::Insert
unfoldable insert_count : ℕ → CountSet → ℕ × CountSet
unfolding count_of set_count
insert_count v s =
    let count = count_of s.hash_map v + 1 in
    (count, record { hash_map = set_count s.hash_map v count })

-- NumKeys
unfoldable num_keys : CountSet → ℕ
num_keys s = length s.hash_map

pub record SimpleStatistics : Type 0 where
  pub eps_hits : CountSet
  pub state_hits : CountSet
  pub ilabel_hits : List ℕ

unfoldable epsilon_expanded : ℕ → SimpleStatistics → SimpleStatistics
unfolding insert_count
epsilon_expanded state s = record s { eps_hits = (insert_count state s.eps_hits).1 }

unfoldable state_expanded : ℕ → SimpleStatistics → SimpleStatistics
unfolding insert_count
state_expanded state s = record s { state_hits = (insert_count state s.state_hits).1 }

-- ArcExpanded; the vector is resized only if it is shorter than the label.
unfoldable arc_expanded : ℕ → SimpleStatistics → Option SimpleStatistics
arc_expanded ilabel s =
    let hits = s.ilabel_hits ++ replicate (ilabel - length s.ilabel_hits) 0 in
    get_elem? hits ilabel >>= λ n. some (record s { ilabel_hits = set hits ilabel (n + 1) })

-- Clear
unfoldable clear_statistics : SimpleStatistics → SimpleStatistics
clear_statistics s = record {
  eps_hits = record { hash_map = [] };
  state_hits = record { hash_map = [] };
  ilabel_hits = [];
}

count_of-set_count :
    (m : List (ℕ × ℕ)) (v n w : ℕ)
    → count_of (set_count m v n) w ≡ (if v == w then n else count_of m w)
unfolding count_of set_count
count_of-set_count [] v n w = refl
count_of-set_count ((x, k) ∷ m) v n w = elim (Bool-cases (x == v)) [
  | inl q ↦ rw q (ground (arith, ==_iff x v, ==_iff x w, ==_iff v w))
  | inr q ↦ rw (q, count_of-set_count m v n w) (ground (arith, ==_iff x v, ==_iff x w, ==_iff v w))
]

-- Insert raises the count of its key by one, returns it, and leaves the other counts.
count_of-insert_count :
    (v w : ℕ) (s : CountSet)
    → ((insert_count v s).0 ≡ count_of (insert_count v s).1.hash_map v)
      × (count_of (insert_count v s).1.hash_map w
          ≡ (if v == w then count_of s.hash_map v + 1 else count_of s.hash_map w))
unfolding insert_count
count_of-insert_count v w s = (
  ground (arith, count_of-set_count s.hash_map v (count_of s.hash_map v + 1) v, ==_iff v v),
  count_of-set_count s.hash_map v (count_of s.hash_map v + 1) w,
)

get_elem?-beyond : (xs : List ℕ) (n : ℕ) → length xs ≤ n → get_elem? xs n ≡ none
get_elem?-beyond [] n h = refl
get_elem?-beyond (x ∷ xs) zero h = absurd (omega arith)
get_elem?-beyond (x ∷ xs) (suc n) h = get_elem?-beyond xs n (omega arith)

-- ArcExpanded of a label that is not under the length of the vector writes out of bounds.
arc_expanded-beyond :
    (ilabel : ℕ) (s : SimpleStatistics)
    → length s.ilabel_hits ≤ ilabel
    → arc_expanded ilabel s ≡ none
unfolding arc_expanded
arc_expanded-beyond ilabel s h =
    let xs = s.ilabel_hits ++ replicate (ilabel - length s.ilabel_hits) 0 in
    let l : length xs ≤ ilabel = omega (
      arith,
      length-append s.ilabel_hits (replicate (ilabel - length s.ilabel_hits) 0),
      length-replicate {A = ℕ} (ilabel - length s.ilabel_hits) 0,
    ) in
    rw (get_elem?-beyond xs ilabel l) refl
