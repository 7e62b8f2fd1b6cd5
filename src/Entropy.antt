-- ===== src/Entropy.antt =====
-- src/crypto/entropy.cpp and include/monero_solo/entropy.hpp: the generator of private bytes. A
-- time point of the steady clock is a number of nanoseconds; `hmac_sha256` and the sources of
-- entropy, time and process id are parameters. Wiping memory has no counterpart.
pub mod Steps
pub mod Freshness
pub mod Output
mod Examples
use monero_solo_stratum.Common.{
  ℕ, zero, suc, ◌+◌, ◌-◌, ◌*◌, ◌%◌, ◌^◌, min, Bool, true, false, not, ◌&&◌, ◌||◌, Option, none,
  some, List, [], ◌∷◌, ◌++◌, leb, ltb, ◌==◌, if◌then◌else◌, length, take, replicate,
}
use monero_solo_stratum.Common.Outcome.{Outcome, ok, throw, ◌>>=◌}
use monero_solo_stratum.Common.Word.{u32_mod, u64_mod}

abbrev pub seconds : ℕ → ℕ
seconds n = n * 10 ^ 9

-- The failures: a `ValidationError`, the one that the entropy source throws, and an `EntropyError`.
pub data EntropyFailure : Type 0 where
  empty_domain invalid_configuration no_entropy reseed_age_exceeded : EntropyFailure

pub record EntropyConfig : Type 0 where
  pub reseed_interval_seconds : ℕ
  pub max_reseed_age_seconds : ℕ
  pub max_generate_calls : ℕ

-- What a call sees of the world, at each place where it looks: the process, the samples of the
-- entropy source, `none` where it throws, and the clock.
pub record World : Type 0 where
  pub pid : ℕ
  pub fork_sample : Option (List ℕ)
  pub fork_now : ℕ
  pub count_sample : Option (List ℕ)
  pub count_now : ℕ
  pub current : ℕ
  pub time_sample : Option (List ℕ)
  pub time_now : ℕ
  pub later : ℕ

pub record EntropyManager : Type 0 where
  pub config : EntropyConfig
  pub key : List ℕ
  pub value : List ℕ
  pub last_successful_reseed : ℕ
  pub next_timed_reseed_retry : ℕ
  pub generate_calls : ℕ
  pub timed_retry_delay_seconds : ℕ
  pub creator_pid : ℕ
  pub degraded : Bool

-- "monero-solo-stratum/HMAC-DRBG-SHA256/v1"
abbrev pub instantiate_domain : List ℕ
instantiate_domain =
    109 ∷ 111 ∷ 110 ∷ 101 ∷ 114 ∷ 111 ∷ 45 ∷ 115 ∷ 111 ∷ 108 ∷ 111 ∷ 45 ∷ 115 ∷ 116 ∷ 114 ∷ 97 ∷ 116
    ∷ 117 ∷ 109 ∷ 47 ∷ 72 ∷ 77 ∷ 65 ∷ 67 ∷ 45 ∷ 68 ∷ 82 ∷ 66 ∷ 71 ∷ 45 ∷ 83 ∷ 72 ∷ 65 ∷ 50 ∷ 53 ∷ 54
    ∷ 47 ∷ 118 ∷ 49 ∷ []

-- "reseed/time/v1"
abbrev pub time_reason : List ℕ
time_reason = 114 ∷ 101 ∷ 115 ∷ 101 ∷ 101 ∷ 100 ∷ 47 ∷ 116 ∷ 105 ∷ 109 ∷ 101 ∷ 47 ∷ 118 ∷ 49 ∷ []

-- "reseed/count/v1"
abbrev pub count_reason : List ℕ
count_reason =
    114 ∷ 101 ∷ 115 ∷ 101 ∷ 101 ∷ 100 ∷ 47 ∷ 99 ∷ 111 ∷ 117 ∷ 110 ∷ 116 ∷ 47 ∷ 118 ∷ 49 ∷ []

-- "reseed/fork/v1"
abbrev pub fork_reason : List ℕ
fork_reason = 114 ∷ 101 ∷ 115 ∷ 101 ∷ 101 ∷ 100 ∷ 47 ∷ 102 ∷ 111 ∷ 114 ∷ 107 ∷ 47 ∷ 118 ∷ 49 ∷ []

pub data EntropyReseedReason : Type 0 where
  none_due timed fork : EntropyReseedReason

pub record EntropyMaintenanceResult : Type 0 where
  pub attempted : Bool
  pub succeeded : Bool
  pub issuance_allowed : Bool
  pub degraded : Bool
  pub reason : EntropyReseedReason

abbrev pub is_reseed_due : ℕ → EntropyManager → Bool
is_reseed_due current m =
    leb (seconds m.config.reseed_interval_seconds) (current - m.last_successful_reseed)
    && leb m.next_timed_reseed_retry current

abbrev pub issuance_allowed_locked : ℕ → ℕ → EntropyManager → Bool
issuance_allowed_locked pid current m =
    pid == m.creator_pid
    && ltb (current - m.last_successful_reseed) (seconds m.config.max_reseed_age_seconds)

abbrev result_at :
    Bool → Bool → EntropyReseedReason → ℕ → ℕ → EntropyManager → EntropyMaintenanceResult
result_at attempted succeeded reason pid current m = record {
  attempted = attempted;
  succeeded = succeeded;
  issuance_allowed = issuance_allowed_locked pid current m;
  degraded = m.degraded;
  reason = reason;
}

module _ (hmac_sha256 : List ℕ → List ℕ → List ℕ) where
  -- One round over the value, a byte and the data, and the value after it.
  abbrev pub mixed : ℕ → List ℕ → EntropyManager → EntropyManager
  mixed byte data_in m =
      let key = hmac_sha256 m.key (m.value ++ (byte ∷ data_in)) in
      record m { key = key; value = hmac_sha256 key m.value }

  unfoldable pub update_locked : List ℕ → EntropyManager → EntropyManager
  update_locked [] m = mixed 0 [] m
  update_locked (x ∷ rest) m = mixed 1 (x ∷ rest) (mixed 0 (x ∷ rest) m)

  unfoldable pub reseed_locked : List ℕ → List ℕ → ℕ → ℕ → EntropyManager → EntropyManager
  unfolding update_locked
  reseed_locked sample reason now pid m = record (update_locked (sample ++ reason) m) {
    last_successful_reseed = now;
    generate_calls = 0;
    creator_pid = pid;
    timed_retry_delay_seconds = 1;
    next_timed_reseed_retry = now + seconds m.config.reseed_interval_seconds;
    degraded = false;
  }

  -- The constructor.
  unfoldable pub make_manager : EntropyConfig → World → Outcome EntropyFailure EntropyManager
  unfolding update_locked
  make_manager c w =
      let m : EntropyManager = record {
        config = c;
        key = replicate 32 0;
        value = replicate 32 1;
        last_successful_reseed = w.current;
        next_timed_reseed_retry = w.current + seconds c.reseed_interval_seconds;
        generate_calls = 0;
        timed_retry_delay_seconds = 1;
        creator_pid = w.pid;
        degraded = false;
      } in
      if c.reseed_interval_seconds == 0
        || ltb c.max_reseed_age_seconds c.reseed_interval_seconds
        || c.max_generate_calls == 0
      then throw invalid_configuration
      else elim w.fork_sample [
        | none ↦ throw no_entropy
        | some sample ↦ ok (update_locked (sample ++ instantiate_domain) m)
      ]

  unfoldable pub mandatory_reseed_locked :
      Option (List ℕ) → List ℕ → ℕ → ℕ → EntropyManager → Outcome EntropyFailure EntropyManager
  unfolding reseed_locked
  mandatory_reseed_locked none reason now pid m = throw no_entropy
  mandatory_reseed_locked (some sample) reason now pid m =
      ok (reseed_locked sample reason now pid m)

  -- After a failure the next try waits twice as long, a minute at most.
  unfoldable pub try_timed_reseed_locked :
      Option (List ℕ) → ℕ → ℕ → ℕ → EntropyManager → EntropyManager × Bool
  unfolding reseed_locked
  try_timed_reseed_locked (some sample) now pid current m =
      (reseed_locked sample time_reason now pid m, true)
  try_timed_reseed_locked none now pid current m = (
    record m {
      degraded = true;
      next_timed_reseed_retry = current + seconds m.timed_retry_delay_seconds;
      timed_retry_delay_seconds = min (m.timed_retry_delay_seconds * 2 % u32_mod) 60;
    },
    false,
  )

  -- The `while` loop; a round adds a byte at least, so fuel of the number of bytes is enough.
  unfoldable pub output_rounds : ℕ → ℕ → EntropyManager → List ℕ → EntropyManager × List ℕ
  output_rounds zero bytes m output = (m, output)
  output_rounds (suc fuel) bytes m output = elim (ltb (length output) bytes) [
    | false ↦ (m, output)
    | true ↦
        let value = hmac_sha256 m.key m.value in
        output_rounds fuel bytes (record m { value = value })
          (output ++ take (min (length value) (bytes - length output)) value)
  ]

  unfoldable pub produce : ℕ → List ℕ → EntropyManager → EntropyManager × List ℕ
  unfolding update_locked output_rounds
  produce bytes domain m =
      let made = output_rounds bytes bytes (update_locked domain m) [] in
      let m' = update_locked domain made.0 in
      (record m' { generate_calls = m'.generate_calls + 1 }, made.1)

  -- `generate` from the timed reseed on.
  unfoldable pub generate_current :
      ℕ → List ℕ → World → EntropyManager → EntropyManager × Outcome EntropyFailure (List ℕ)
  unfolding produce try_timed_reseed_locked
  generate_current bytes domain w m =
      let due = is_reseed_due w.current m in
      let m' =
        if due then (try_timed_reseed_locked w.time_sample w.time_now w.pid w.current m).0 else m in
      let current = if due then w.later else w.current in
      let made = produce bytes domain m' in
      if leb (seconds m'.config.max_reseed_age_seconds) (current - m'.last_successful_reseed)
      then (m', throw reseed_age_exceeded)
      else (made.0, ok made.1)

  unfoldable pub forked : World → EntropyManager → Outcome EntropyFailure EntropyManager
  unfolding mandatory_reseed_locked
  forked w m = elim (w.pid == m.creator_pid) [
    | true ↦ ok m
    | false ↦ mandatory_reseed_locked w.fork_sample fork_reason w.fork_now w.pid m
  ]

  unfoldable pub counted : World → EntropyManager → Outcome EntropyFailure EntropyManager
  unfolding mandatory_reseed_locked
  counted w m = elim (leb m.config.max_generate_calls m.generate_calls) [
    | false ↦ ok m
    | true ↦ mandatory_reseed_locked w.count_sample count_reason w.count_now w.pid m
  ]

  unfoldable pub generate :
      ℕ → List ℕ → World → EntropyManager → EntropyManager × Outcome EntropyFailure (List ℕ)
  unfolding forked counted generate_current
  generate bytes [] w m = (m, throw empty_domain)
  generate bytes (x ∷ domain) w m = elim (forked w m) [
    | throw e ↦ (m, throw e)
    | ok m1 ↦ elim (counted w m1) [
      | throw e ↦ (m1, throw e)
      | ok m2 ↦ generate_current bytes (x ∷ domain) w m2
    ]
  ]

  unfoldable pub maintain :
      World → EntropyManager → EntropyManager × Outcome EntropyFailure EntropyMaintenanceResult
  unfolding mandatory_reseed_locked try_timed_reseed_locked
  maintain w m = elim (w.pid == m.creator_pid) [
    | false ↦ elim (mandatory_reseed_locked w.fork_sample fork_reason w.fork_now w.pid m) [
      | throw e ↦ (m, throw e)
      | ok m' ↦ (m', ok (result_at true true fork w.pid w.current m'))
    ]
    | true ↦ elim (is_reseed_due w.current m) [
      | true ↦
          let tried = try_timed_reseed_locked w.time_sample w.time_now w.pid w.current m in
          (tried.0, ok (result_at true tried.1 timed w.pid w.later tried.0))
      | false ↦ (m, ok (result_at false false none_due w.pid w.current m))
    ]
  ]
