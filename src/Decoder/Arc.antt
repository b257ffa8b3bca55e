-- ===== src/Decoder/Arc.antt =====
-- src/include/dcd/clevel-decoder.h, class SearchArc. `dest_`, which caches the pointer to the next
-- state, is `none` while it is null. `tokens` is the array of kMaxTokensPerArc tokens.
pub mod Cost
pub mod Prune
use opendcd.Prelude.{
  ℕ, zero, suc, ◌+◌, Bool, true, false, not, Option, none, some, List, [], ◌∷◌, ℤ, pos, negsuc,
  get_or, set, replicate, map, ◌==◌, ◌&&◌, if◌then◌else◌,
}
use opendcd.Prelude.Float.{Float, key, add, lt, min, max_cost, zero_cost}
use opendcd.Token.{Token, inactive, active, clear, expand, combine_weighted}

abbrev pub max_tokens_per_arc : ℕ
max_tokens_per_arc = 7

pub record SearchArc (F : Type 0) : Type 0 where
  pub tokens : List (Token F)
  pub dest : Option ℕ
  pub ilabel : ℤ
  pub olabel : ℤ
  pub weight : F
  pub nextstate : ℤ
  pub exit_weight : F
  pub num_states : ℕ
  pub num_expansions : ℕ
  pub time : ℤ

-- `time_ != -1`
abbrev pub is_time : ℤ → Bool
is_time (pos n) = true
is_time (negsuc zero) = false
is_time (negsuc (suc n)) = true

module _ {F : Type 0} ⦃f : Float F⦄ where
  -- SearchArc::SearchArc, whose array holds default tokens
  unfoldable pub search_arc : ℤ → ℤ → F → ℤ → F → ℕ → SearchArc F
  unfolding inactive
  search_arc ilabel olabel weight nextstate exit_weight num_states = record {
    tokens = replicate max_tokens_per_arc inactive;
    dest = none;
    ilabel = ilabel;
    olabel = olabel;
    weight = weight;
    nextstate = nextstate;
    exit_weight = exit_weight;
    num_states = num_states;
    num_expansions = 0;
    time = negsuc 0;
  }

  -- SearchArc::Active
  abbrev pub arc_active : SearchArc F → Bool
  arc_active a = is_time a.time

  -- SearchArc::ClearTokens
  unfoldable pub clear_arc_tokens : SearchArc F → SearchArc F
  unfolding clear
  clear_arc_tokens a = record a { tokens = map clear a.tokens }

  -- SearchArc::GetToken
  abbrev pub token_at : SearchArc F → ℕ → Token F
  token_at a i = get_or a.tokens i inactive

  -- The arc when it is put into the list of active arcs, before its first token is set.
  unfoldable pub activate_arc : ℤ → SearchArc F → SearchArc F
  unfolding clear_arc_tokens
  activate_arc time a = record (clear_arc_tokens a) { num_expansions = 0; time = time }

  -- SearchArc::SetEntryToken. `listed` says that the pointer to the list of active arcs is not null.
  -- The arc, the cost, and whether the arc was pushed onto the list come back.
  unfoldable pub set_entry_token : Token F → F → ℤ → Bool → SearchArc F → SearchArc F × F × Bool
  unfolding activate_arc combine_weighted
  set_entry_token token threshold time listed a =
      let push = listed && not (arc_active a) in
      let a' : SearchArc F = if push then activate_arc time a else a in
      let (t, cost) = combine_weighted (token_at a' 0) token a.weight in
      if lt (add token.cost a.weight) threshold
      then (record a' { tokens = set a'.tokens 0 t }, cost, push)
      else (a, max_cost, false)

  unfoldable pub get_exit_cost : SearchArc F → F
  get_exit_cost a = add (token_at a a.num_states).cost a.exit_weight

  unfoldable pub get_exit_token : SearchArc F → Token F
  unfolding expand
  get_exit_token a = expand a.exit_weight (token_at a a.num_states)

  -- The loop of GetBestCost: `n` rounds from `i` on.
  unfoldable pub best_cost_from : SearchArc F → ℕ → ℕ → F → F
  best_cost_from a zero i best = best
  best_cost_from a (suc n) i best = best_cost_from a n (i + 1) (min best (token_at a i).cost)

  unfoldable pub get_best_cost : SearchArc F → F
  unfolding best_cost_from
  get_best_cost a = best_cost_from a a.num_states 1 (token_at a 0).cost

  -- SearchArc::HasActiveTokens, `n` rounds from `i` on
  unfoldable pub any_active : SearchArc F → ℕ → ℕ → Bool
  unfolding active inactive
  any_active a zero i = false
  any_active a (suc n) i = if active (token_at a i) then true else any_active a n (i + 1)

  unfoldable pub has_active_tokens : SearchArc F → Bool
  unfolding any_active
  has_active_tokens a = any_active a (a.num_states + 1) 0

  -- The loop of Prune. Its test is the sum of the two costs, read as a Boolean.
  unfoldable pub prune_from : F → ℕ → ℕ → SearchArc F × Bool → SearchArc F × Bool
  unfolding clear
  prune_from threshold zero i r = r
  prune_from threshold (suc n) i (b, act) = prune_from threshold n (i + 1) (
      if key (add (token_at b i).cost threshold) == key {F = F} zero_cost
      then (b, true)
      else (record b { tokens = set b.tokens i (clear (token_at b i)) }, act))

  unfoldable pub prune : F → SearchArc F → SearchArc F × Bool
  unfolding prune_from
  prune threshold a = prune_from threshold (a.num_states + 1) 0 (a, false)

  -- SearchArc::Deactivate, which returns the number of expansions
  unfoldable pub deactivate_arc : SearchArc F → SearchArc F × ℕ
  unfolding clear_arc_tokens
  deactivate_arc a = (clear_arc_tokens (record a { time = negsuc 0 }), a.num_expansions)

  -- SearchArc::Clear
  unfoldable pub clear_search_arc : SearchArc F → SearchArc F
  unfolding clear_arc_tokens
  clear_search_arc a = record (clear_arc_tokens a) {
    dest = none;
    num_states = 0;
    nextstate = negsuc 0;
    weight = max_cost;
    time = negsuc 0;
    num_expansions = 0;
  }
