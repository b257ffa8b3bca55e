-- ===== src/Examples/Hashes.antt =====
-- src/include/dcd/clevel-decoder.h, FindSearchState and ClearSearchHash, on a hash with two entries and a
-- pooled state, with fixed-point costs.
use opendcd.Prelude.{ℕ, ◌≡◌, true, some, [], ◌∷◌, pos, arith}
use opendcd.Prelude.Float.{fixed}
use opendcd.Decoder.State.{SearchState, search_state}
use opendcd.Decoder.Hash.{SearchHash, find_search_state, clear_search_hash}
use opendcd.Decoder.Hash.Sound.{IsSound, addresses, clear_search_hash-IsSound}
use opendcd.Decoder.Hash.Find.{IsRequested, find_search_state-IsRequested}

abbrev two_entries : SearchHash ℕ
two_entries = record {
  cell = λ a. search_state 100000;
  entries = (7, 2) ∷ (3, 0) ∷ [];
  pool = 1 ∷ [];
  fresh = 3;
  use_pool = true;
  num_allocs = 3;
  num_frees = 1;
  num_requests = 5;
  num_misses = 3;
  num_hits = 2;
}

two_entries-IsSound : IsSound two_entries
unfolding addresses
two_entries-IsSound = record {
  distinct = record {
    used_nodup = (λ h. ground arith, (λ h. h, tt));
    pooled_nodup = (λ h. h, tt);
    apart = λ a h k. ground arith;
    used_below = (omega arith, (omega arith, tt));
    pooled_below = (omega arith, tt);
  };
  balanced = omega arith;
}

-- Init, as far as it needs no transducer.
abbrev numbered : ℕ → SearchState ℕ → SearchState ℕ
numbered state x = record x { state_id = pos state }

find_search_state-IsRequested_example :
    IsRequested numbered 5 two_entries
      (find_search_state numbered 5 two_entries).0
      (find_search_state numbered 5 two_entries).1
find_search_state-IsRequested_example =
    find_search_state-IsRequested numbered 5 two_entries two_entries-IsSound

clear_search_hash-IsSound_example :
    (h' : SearchHash ℕ) × (clear_search_hash two_entries ≡ some h') × IsSound h' × (h'.entries ≡ [])
clear_search_hash-IsSound_example = clear_search_hash-IsSound two_entries two_entries-IsSound
