-- ===== src/Decoder/Hash.antt =====
-- src/include/dcd/clevel-decoder.h, FindSearchState: the search states in use, by the state of the search
-- transducer, with their pool and counters. The hash map is an association list, the pool a stack with
-- its back at the head, and `fresh` the address that the next `new SearchState` returns. `init` is
-- SearchState::Init with the transducer, the transition model and the options.
pub mod Sound
pub mod Find
use opendcd.Prelude.{ℕ, ◌+◌, Bool, Option, none, some, List, [], ◌∷◌, update, ◌==◌, if◌then◌else◌}
use opendcd.Decoder.State.{SearchState}

pub record SearchHash (F : Type 0) : Type 0 where
  pub cell : ℕ → SearchState F
  pub entries : List (ℕ × ℕ)
  pub pool : List ℕ
  pub fresh : ℕ
  pub use_pool : Bool
  pub num_allocs : ℕ
  pub num_frees : ℕ
  pub num_requests : ℕ
  pub num_misses : ℕ
  pub num_hits : ℕ

-- search_hash_.find
unfoldable pub lookup : List (ℕ × ℕ) → ℕ → Option ℕ
lookup [] k = none
lookup ((k', a) ∷ entries) k = let rest = lookup entries k in if k' == k then some a else rest

module _ {F : Type 0} where
  -- AllocSearchState takes the back of a pool that is not empty.
  unfoldable pub take_pooled : List ℕ → SearchHash F → ℕ × SearchHash F
  take_pooled [] h = (h.fresh, record h { fresh = h.fresh + 1 })
  take_pooled (a ∷ pool) h = (a, record h { pool = pool })

  unfoldable pub alloc_search_state : SearchHash F → ℕ × SearchHash F
  unfolding take_pooled
  alloc_search_state h = take_pooled h.pool (record h { num_allocs = h.num_allocs + 1 })

  -- FreeSearchState
  unfoldable pub free_search_state : ℕ → SearchHash F → SearchHash F
  free_search_state a h = record h {
    pool = if h.use_pool then a ∷ h.pool else h.pool;
    num_frees = h.num_frees + 1;
  }

  -- The miss of FindSearchState
  unfoldable pub add_search_state :
      (ℕ → SearchState F → SearchState F) → ℕ → SearchHash F → ℕ × SearchHash F
  unfolding alloc_search_state
  add_search_state init state h =
      let (a, h') = alloc_search_state (record h { num_misses = h.num_misses + 1 }) in
      (
        a,
        record h' {
          cell = update h'.cell a (init state (h'.cell a));
          entries = (state, a) ∷ h'.entries;
        },
      )

  -- FindSearchState
  unfoldable pub find_search_state :
      (ℕ → SearchState F → SearchState F) → ℕ → SearchHash F → ℕ × SearchHash F
  unfolding lookup add_search_state
  find_search_state init state h =
      let h' : SearchHash F = record h { num_requests = h.num_requests + 1 } in
      elim (lookup h.entries state) [
        | none ↦ add_search_state init state h'
        | some a ↦ (a, record h' { num_hits = h.num_hits + 1 })
      ]

  -- The loop of ClearSearchHash
  unfoldable pub free_entries : List (ℕ × ℕ) → SearchHash F → SearchHash F
  unfolding free_search_state
  free_entries [] h = h
  free_entries ((k, a) ∷ entries) h = free_entries entries (free_search_state a h)

  -- ClearSearchHash; `none` is the fatal error of the check of its counters
  unfoldable pub clear_search_hash : SearchHash F → Option (SearchHash F)
  unfolding free_entries
  clear_search_hash h =
      let h' : SearchHash F = record (free_entries h.entries h) { entries = [] } in
      if h'.num_allocs == h'.num_frees then some h' else none
