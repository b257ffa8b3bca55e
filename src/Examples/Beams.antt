-- ===== src/Examples/Beams.antt =====
-- src/include/dcd/hlevel-decoder.h at a transducer of two states with a loop at the second, and at the
-- costs of Prelude.Float.fixed.
use opendcd.Prelude.{
  ℕ, zero, suc, ◌+◌, ◌-◌, ◌<◌, ◌≡◌, refl, inl, inr, Bool-cases, Option, none, some, List, [], ◌∷◌,
  Has, length, ◌==◌, ==_iff, if◌then◌else◌, arith,
}
use opendcd.Prelude.Float.{fixed}
use opendcd.ArcExpand.{Arc}
use opendcd.HashList.{Memory}
use opendcd.HLevel.{HToken, Tokens, token_delete}
use opendcd.HLevel.Refs.{at, refs, IsCounted, IsKept}
use opendcd.HLevel.Refs.Delete.{token_delete-IsCounted}
use opendcd.HLevel.Cutoff.{cutoff_of}
use opendcd.HLevel.Cutoff.Bounds.{IsCutoff, cutoff_of-IsCutoff}
use opendcd.HLevel.Frame.{HLevelDecoder, Setting}
use opendcd.HLevel.Frame.Held.{IsDecoder}
use opendcd.HLevel.Frame.Place.{IsStep}
use opendcd.HLevel.Decode.{init_decoder, start_decode}
use opendcd.HLevel.Decode.Start.{IsStarted, init_decoder-IsDecoder, start_decode-IsStep}

abbrev to_second : Arc ℕ
to_second = record { ilabel = 1; olabel = 1; weight = 100002; nextstate = 1 }

abbrev arcs_of : ℕ → List (Arc ℕ)
arcs_of zero = to_second ∷ []
arcs_of (suc s) = to_second ∷ record to_second { ilabel = 0 } ∷ []

abbrev setting : Setting ℕ
setting = record {
  fst = record { start = some 0; final = λ s. 100000; arcs = arcs_of };
  opts = record {
    beam = 100010;
    max_active = 2;
    beam_delta = 100001;
    hash_ratio = 100002;
    acoustic_scale = 100001;
  };
  lib = record { times = λ a b. a + b - 100000; zero_weight = 2147583647; one_weight = 100000 };
  big = 1000000000;
  greatest = 2147583647;
  scaled = λ n ratio. n;
}

abbrev memory : Memory ℕ
memory = record {
  cell = λ a. record { key = 0; val = 0; tail = none };
  freed_head = none;
  allocated = [];
  fresh = 0;
}

abbrev initial :
    (d : HLevelDecoder ℕ) × (init_decoder memory ≡ some d) × IsDecoder d [] [] [] [] (λ b. 0)
initial = init_decoder-IsDecoder memory

abbrev started :
    (d' : HLevelDecoder ℕ) × (start_decode setting 0 initial.0 ≡ some d')
    × IsStep initial.0 d' [] (λ b. 0)
    × IsStarted setting 0 d'
started = start_decode-IsStep setting 0 initial.0 [] [] [] (λ b. 0) initial.2

start_decode-IsStep_example :
    (d' : HLevelDecoder ℕ) × (start_decode setting 0 started.0 ≡ some d')
    × IsStep started.0 d' [] (λ b. 0)
    × IsStarted setting 0 d'
start_decode-IsStep_example =
    start_decode-IsStep setting 0 started.0 started.2.groups started.2.free started.2.live (λ b. 0)
      started.2.decoder

abbrev frame : List ℕ
frame = 100003 ∷ 100004 ∷ []

abbrev weighted : List (ℕ × ℕ)
weighted = (4, 100007) ∷ (5, 100003) ∷ (6, 100005) ∷ (7, 100009) ∷ []

cutoff_of-IsCutoff_example :
    IsCutoff setting.opts setting.big weighted (cutoff_of setting.opts setting.big weighted)
cutoff_of-IsCutoff_example = cutoff_of-IsCutoff setting.opts setting.big weighted

cutoff-weighted : (cutoff_of setting.opts setting.big weighted).weight_cutoff ≡ 100007
unfolding cutoff_of
cutoff-weighted = refl

-- A token with a predecessor that it alone refers to
abbrev token : Option ℕ → HToken ℕ
token prev = record { arc = to_second; prev = prev; ref_count = 1; weight = 100002 }

abbrev pair : Tokens ℕ
pair = record {
  cell = λ a. if a == 0 then some (token none) else if a == 1 then some (token (some 0)) else none;
  fresh = 2;
}

pair-alive : (a : ℕ) → Has a (0 ∷ 1 ∷ []) → (t : HToken ℕ) × (pair.cell a ≡ some t)
pair-alive a (inl e) = (token none, rw e refl)
pair-alive a (inr (inl e)) = (token (some 0), rw e refl)
pair-alive a (inr (inr h)) = elim h [ ]

pair-IsCounted : IsCounted pair (0 ∷ 1 ∷ []) (λ b. at 1 b + 0)
unfolding refs
pair-IsCounted = record {
  nodup = (λ h. elim h [ inl e ↦ absurd (omega (arith, e)) | inr h ↦ h ], ((λ h. h), tt));
  below = λ a h. ground arith;
  alive = pair-alive;
  dead = λ a h. elim (Bool-cases (a == 0)) [
    | inl q ↦ absurd (h (inl ((==_iff a 0).0 q)))
    | inr q ↦ elim (Bool-cases (a == 1)) [
      | inl r ↦ absurd (h (inr (inl ((==_iff a 1).0 r))))
      | inr r ↦ rw (q, r) refl
    ]
  ];
  counted = λ a t e. ground (arith, ==_iff a 0, ==_iff a 1);
  roots = λ a h. ground (arith, ==_iff a 1);
  inner = λ a h. ground (arith, ==_iff a 0);
  used = λ a h. ground (arith, ==_iff a 0, ==_iff a 1, ==_iff 1 a, ==_iff 0 a);
}

token_delete-IsCounted_example :
    (s' : Tokens ℕ) × (live' : List ℕ) × (token_delete 3 1 pair ≡ some s')
    × IsCounted s' live' (λ b. 0)
    × IsKept pair s'
    × (length live' < 3)
token_delete-IsCounted_example =
    token_delete-IsCounted 3 1 pair (0 ∷ 1 ∷ []) (λ b. 0) pair-IsCounted (omega arith)
