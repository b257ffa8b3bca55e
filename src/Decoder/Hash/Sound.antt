-- ===== src/Decoder/Hash/Sound.antt =====
-- src/include/dcd/clevel-decoder.h, FindSearchState and ClearSearchHash: the addresses in the hash and in
-- the pool, and the counters.
use opendcd.Prelude.{
  ℕ, ◌+◌, ◌<◌, ◌≡◌, refl, sym, ◌∙◌, subst, inl, inr, Bool-cases, some, List, [], ◌∷◌, Has, NoDup,
  All, All-Has, All-change, length, arith, ==_iff, if◌then◌else◌,
}
use opendcd.Decoder.Hash.{
  SearchHash, take_pooled, free_search_state, free_entries, clear_search_hash,
}

unfoldable pub addresses : List (ℕ × ℕ) → List ℕ
addresses [] = []
addresses ((k, a) ∷ entries) = a ∷ addresses entries

-- The addresses `used` in a hash and `pooled` in a pool, below the first free one.
pub record IsApart (used pooled : List ℕ) (fresh : ℕ) : Type 0 where
  pub used_nodup : NoDup used
  pub pooled_nodup : NoDup pooled
  pub apart : (a : ℕ) → Has a used → ¬ Has a pooled
  pub used_below : All (λ a. a < fresh) used
  pub pooled_below : All (λ a. a < fresh) pooled

-- The states in the hash and the pooled ones are distinct, and the counters balance.
pub record IsSound {F : Type 0} (h : SearchHash F) : Type 0 where
  pub distinct : IsApart (addresses h.entries) h.pool h.fresh
  pub balanced : h.num_allocs ≡ h.num_frees + length h.entries

IsApart-free :
    (used pooled : List ℕ) (a fresh : ℕ)
    → IsApart (a ∷ used) pooled fresh
    → IsApart used (a ∷ pooled) fresh
IsApart-free used pooled a fresh v = record {
  used_nodup = v.used_nodup.1;
  pooled_nodup = (v.apart a (inl refl), v.pooled_nodup);
  apart = λ b h k. elim k [
    | inl e ↦ v.used_nodup.0 (subst (λ x. Has x used) e h)
    | inr k' ↦ v.apart b (inr h) k'
  ];
  used_below = v.used_below.1;
  pooled_below = (v.used_below.0, v.pooled_below);
}

IsApart-take :
    (used pooled : List ℕ) (a fresh : ℕ)
    → IsApart used (a ∷ pooled) fresh
    → IsApart (a ∷ used) pooled fresh
IsApart-take used pooled a fresh v = record {
  used_nodup = (λ h. v.apart a h (inl refl), v.used_nodup);
  pooled_nodup = v.pooled_nodup.1;
  apart = λ b h k. elim h [
    | inl e ↦ v.pooled_nodup.0 (subst (λ x. Has x pooled) e k)
    | inr h' ↦ v.apart b h' (inr k)
  ];
  used_below = (v.pooled_below.0, v.used_below);
  pooled_below = v.pooled_below.1;
}

IsApart-drop :
    (used pooled : List ℕ) (a fresh : ℕ)
    → IsApart (a ∷ used) pooled fresh
    → IsApart used pooled fresh
IsApart-drop used pooled a fresh v = record {
  used_nodup = v.used_nodup.1;
  pooled_nodup = v.pooled_nodup;
  apart = λ b h. v.apart b (inr h);
  used_below = v.used_below.1;
  pooled_below = v.pooled_below;
}

IsApart-new :
    (used pooled : List ℕ) (fresh : ℕ)
    → IsApart used pooled fresh
    → IsApart (fresh ∷ used) pooled (fresh + 1)
IsApart-new used pooled fresh v =
    let below : (xs : List ℕ) → All (λ a. a < fresh) xs → ¬ Has fresh xs =
      λ xs h k. absurd (let l = All-Has (λ a. a < fresh) xs fresh h k in omega arith) in
    let wider : (xs : List ℕ) → All (λ a. a < fresh) xs → All (λ a. a < fresh + 1) xs =
      λ xs h. All-change (λ a. a < fresh) (λ a. a < fresh + 1) xs (λ a _ k. omega arith) h in
    record {
      used_nodup = (below used v.used_below, v.used_nodup);
      pooled_nodup = v.pooled_nodup;
      apart = λ b h k. elim h [
        | inl e ↦ below pooled v.pooled_below (subst (λ x. Has x pooled) e k)
        | inr h' ↦ v.apart b h' k
      ];
      used_below = (omega arith, wider used v.used_below);
      pooled_below = wider pooled v.pooled_below;
    }

module _ {F : Type 0} where
  pub take_pooled-IsApart :
      (pool : List ℕ) (h : SearchHash F) (used : List ℕ)
      → h.pool ≡ pool
      → IsApart used pool h.fresh
      → IsApart
          ((take_pooled pool h).0 ∷ used)
          (take_pooled pool h).1.pool
          (take_pooled pool h).1.fresh
        × ((take_pooled pool h).1.num_allocs ≡ h.num_allocs)
        × ((take_pooled pool h).1.num_frees ≡ h.num_frees)
        × ((take_pooled pool h).1.entries ≡ h.entries)
        × ((take_pooled pool h).1.cell ≡ h.cell)
  unfolding take_pooled
  take_pooled-IsApart [] h used e v = (rw e (IsApart-new used [] h.fresh v), refl, refl, refl, refl)
  take_pooled-IsApart (a ∷ pool) h used e v =
      (IsApart-take used pool a h.fresh v, refl, refl, refl, refl)

  free_entries-IsApart :
      (entries : List (ℕ × ℕ)) (h : SearchHash F)
      → IsApart (addresses entries) h.pool h.fresh
      → IsApart [] (free_entries entries h).pool (free_entries entries h).fresh
        × ((free_entries entries h).num_frees ≡ h.num_frees + length entries)
        × ((free_entries entries h).num_allocs ≡ h.num_allocs)
  unfolding free_entries free_search_state addresses
  free_entries-IsApart [] h v = (v, omega arith, refl)
  free_entries-IsApart ((k, a) ∷ entries) h v =
      let next : IsApart (addresses entries) (if h.use_pool then a ∷ h.pool else h.pool) h.fresh =
        elim (Bool-cases h.use_pool) [
          | inl on ↦ rw on (IsApart-free (addresses entries) h.pool a h.fresh v)
          | inr off ↦ rw off (IsApart-drop (addresses entries) h.pool a h.fresh v)
        ] in
      let (w, frees, allocs) = free_entries-IsApart entries (free_search_state a h) next in
      (w, omega (arith, frees), allocs)

  -- ClearSearchHash of a sound hash passes the check of its counters, and leaves a sound hash that
  -- has no entry.
  pub clear_search_hash-IsSound :
      (h : SearchHash F)
      → IsSound h
      → (h' : SearchHash F) × (clear_search_hash h ≡ some h') × IsSound h' × (h'.entries ≡ [])
  unfolding clear_search_hash addresses
  clear_search_hash-IsSound h v =
      let (w, frees, allocs) = free_entries-IsApart h.entries h v.distinct in
      let even : (free_entries h.entries h).num_allocs ≡ (free_entries h.entries h).num_frees =
        allocs ∙ v.balanced ∙ sym frees in
      (
        record (free_entries h.entries h) { entries = [] },
        rw ((==_iff _ _).1 even) refl,
        record { distinct = w; balanced = omega (arith, even) },
        refl,
      )
