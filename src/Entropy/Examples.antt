-- ===== src/Entropy/Examples.antt =====
-- The generator at a concrete state, over a constant digest.
use monero_solo_stratum.Common.{
  ℕ, ◌≡◌, ◌<◌, refl, false, none, List, [], ◌∷◌, length, replicate, arith,
}
use monero_solo_stratum.Common.Outcome.{ok}
use monero_solo_stratum.Entropy.{EntropyManager, World, seconds, produce, generate}
use monero_solo_stratum.Entropy.Steps.{Fresh}
use monero_solo_stratum.Entropy.Freshness.{generate-Fresh}
use monero_solo_stratum.Entropy.Output.{HasDigestSize, generate_issues}

abbrev digest : List ℕ → List ℕ → List ℕ
digest key text = replicate 32 5

digest_size : HasDigestSize digest
digest_size key text = refl

abbrev manager : EntropyManager
manager = record {
  config = record {
    reseed_interval_seconds = 1200;
    max_reseed_age_seconds = 1260;
    max_generate_calls = 3;
  };
  key = replicate 32 0;
  value = replicate 32 1;
  last_successful_reseed = seconds 100;
  next_timed_reseed_retry = seconds 1300;
  generate_calls = 2;
  timed_retry_delay_seconds = 1;
  creator_pid = 77;
  degraded = false;
}

abbrev world : World
world = record {
  pid = 77;
  fork_sample = none;
  fork_now = 0;
  count_sample = none;
  count_now = 0;
  current = seconds 101;
  time_sample = none;
  time_now = 0;
  later = 0;
}

abbrev domain : List ℕ
domain = 106 ∷ []

generate_issues_example :
    let made = produce digest 40 domain manager in
    (generate digest 40 domain world manager ≡ (made.0, ok made.1)) × (length made.1 ≡ 40)
generate_issues_example =
    generate_issues digest digest_size 40 106 [] world manager refl (omega arith) (omega arith)
      (omega arith)

abbrev after : EntropyManager
after = (produce digest 40 domain manager).0

abbrev issued : List ℕ
issued = (produce digest 40 domain manager).1

run_issues : generate digest 40 domain world manager ≡ (after, ok issued)
unfolding generate
run_issues = refl

generate-Fresh_example : (0 < length domain) × Fresh digest manager.config world after
generate-Fresh_example =
    generate-Fresh digest 40 domain world manager after issued (omega arith) run_issues
