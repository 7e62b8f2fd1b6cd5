-- ===== src/Defense/Examples.antt =====
-- The defence engine at concrete calls, over whole numbers in place of a `double`.
use Prim.Native.Nat.{min}
use monero_solo_stratum.Common.{
  ℕ, ◌+◌, ◌-◌, ◌*◌, ◌/◌, ◌≡◌, refl, true, ◌&&◌, ◌||◌, none, some, List, [], ◌∷◌, ltb,
}
use monero_solo_stratum.Common.Map.{pair_eq, lookup}
use monero_solo_stratum.Defense.{
  PeerAddress, DefensePolicyConfig, DefenseEngine, Double, make_engine, seconds, malformed,
}
use monero_solo_stratum.Defense.Bans.{banned, expire_overflow}
use monero_solo_stratum.Defense.Admission.{Now}
use monero_solo_stratum.Defense.Expiry.{unexpired}
use monero_solo_stratum.Defense.Inflight.{Inv}
use monero_solo_stratum.Defense.Histories.{
  Call, run, connect, candidate, finish, abuse, run-make_engine-Inv,
}
use monero_solo_stratum.Defense.BanCalls.{BansInv}
use monero_solo_stratum.Defense.BanHistories.{is_some, run-make_engine-BansInv, banned_exact}

instance abbrev whole : Double ℕ
whole = record {
  of_nat = λ n. n;
  add = λ a b. a + b;
  sub = λ a b. a - b;
  mul = λ a b. a * b;
  div = λ a b. a / b;
  min = λ a b. min a b;
  less = λ a b. ltb a b;
  ceil_count = λ a. a;
}

-- The defaults, with three malformed requests to a ban.
abbrev policy : DefensePolicyConfig
policy = record {
  enabled = true;
  ban_seconds = 7200;
  connection_rate_per_minute = 60;
  connection_burst = 20;
  request_rate_per_second = 50;
  request_burst = 100;
  submit_rate_per_second = 20;
  submit_burst = 40;
  malformed_limit = 3;
  auth_failure_limit = 10;
  unknown_job_limit = 20;
  duplicate_limit = 20;
  abuse_window_seconds = 60;
  hammer_rate_multiplier = 4;
  hammer_sustain_seconds = 5;
  candidate_rate_per_minute = 12;
  candidate_burst = 3;
  candidate_inflight_per_ip = 2;
  candidate_global_inflight = 64;
  false_candidate_limit = 3;
  false_candidate_window_seconds = 600;
  trusted_candidate_rejection_limit = 3;
  trusted_candidate_rejection_window_seconds = 600;
  verification_mismatch_limit = 10;
  verification_mismatch_window_seconds = 600;
  max_peer_states = 8;
  max_active_bans = 4;
}

abbrev engine : DefenseEngine ℕ
engine = record {
  config = policy;
  peers = [];
  peer_lru = [];
  bans = [];
  ban_expiries = [];
  ban_overflow_until = none;
  candidate_global_inflight = 0;
}

engine_made : make_engine policy ≡ some engine
unfolding make_engine
engine_made = refl

abbrev peer : PeerAddress
peer = (2, 167772161)

abbrev noon : Now
noon = record { wall = seconds 1000000; steady = seconds 100000 }

abbrev calls : List (Call × Now)
calls =
    (connect peer, noon)
    ∷ (candidate peer, noon)
    ∷ (abuse peer malformed, noon)
    ∷ (finish peer, noon)
    ∷ (abuse peer malformed, noon)
    ∷ (abuse peer malformed, noon)
    ∷ []

run-make_engine-Inv_example : Inv (run calls engine)
run-make_engine-Inv_example = run-make_engine-Inv policy engine calls engine_made

run-make_engine-BansInv_example : BansInv (run calls engine)
run-make_engine-BansInv_example = run-make_engine-BansInv policy engine calls engine_made

banned_exact_example : (banned peer (seconds 1000001) (run calls engine)).1 ≡ (
    (run calls engine).config.enabled
    && (is_some (unexpired (seconds 1000001) (lookup peer (run calls engine).bans))
        || is_some (expire_overflow (seconds 1000001) (run calls engine).ban_overflow_until)))
banned_exact_example = banned_exact policy engine calls peer (seconds 1000001) engine_made

-- The third malformed request bans the peer.
peer_banned : (banned peer (seconds 1000001) (run calls engine)).1 ≡ true
unfolding run banned
peer_banned = refl
