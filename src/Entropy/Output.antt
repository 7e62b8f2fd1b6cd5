-- ===== src/Entropy/Output.antt =====
-- src/crypto/entropy.cpp: how many bytes are issued, and how the next try backs off.
use monero_solo_stratum.Common.{
  ℕ, zero, suc, ◌+◌, ◌-◌, ◌≡◌, ◌≤◌, ◌<◌, refl, sym, ◌∙◌, ap, min, inl, inr, true, false, List, [],
  ◌∷◌, ◌++◌, leb, ltb, ◌==◌, if◌then◌else◌, length, take, arith, Bool-cases, length-append,
  length-take,
}
use monero_solo_stratum.Common.Outcome.{Outcome, ok, throw}
use monero_solo_stratum.Entropy.{
  EntropyFailure, EntropyManager, World, update_locked, try_timed_reseed_locked, output_rounds,
  produce, generate_current, generate, forked, counted, is_reseed_due, seconds, reseed_age_exceeded,
}
use monero_solo_stratum.Entropy.Steps.{throw_not_ok}
use monero_solo_stratum.Entropy.Freshness.{generate_ok}

bytes_injective : (a b : List ℕ) → Path (Outcome EntropyFailure (List ℕ)) (ok a) (ok b) → a ≡ b
bytes_injective a b e = ground arith

-- Documented of HMAC with SHA-256: a digest has 32 bytes.
abbrev pub HasDigestSize : (List ℕ → List ℕ → List ℕ) → Type 0
HasDigestSize hmac_sha256 = (key text : List ℕ) → length (hmac_sha256 key text) ≡ 32

module _ (hmac_sha256 : List ℕ → List ℕ → List ℕ) (digest_size : HasDigestSize hmac_sha256) where
  length-output_rounds :
      (fuel bytes : ℕ) (m : EntropyManager) (output : List ℕ)
      → length output ≤ bytes
      → bytes ≤ fuel + length output
      → length (output_rounds hmac_sha256 fuel bytes m output).1 ≡ bytes
  unfolding output_rounds
  length-output_rounds zero bytes m output fits fuelled = omega arith
  length-output_rounds (suc fuel) bytes m output fits fuelled =
      elim (Bool-cases (ltb (length output) bytes)) [
        | inr y ↦ rw (y, output_rounds) (ground arith)
        | inl y ↦
            let value = hmac_sha256 m.key m.value in
            let size = min (length value) (bytes - length output) in
            let next = output ++ take size value in
            let grown : length next ≡ length output + min 32 (bytes - length output) = omega (
              arith,
              length-append output (take size value),
              length-take size value,
              digest_size m.key m.value,
            ) in
            rw (y, output_rounds)
              (length-output_rounds fuel bytes (record m { value = value }) next
                (omega (arith, grown, fits)) (ground (arith, grown, fuelled)))
      ]

  length-produce :
      (bytes : ℕ) (domain : List ℕ) (m : EntropyManager)
      → length (produce hmac_sha256 bytes domain m).1 ≡ bytes
  unfolding produce
  length-produce bytes domain m =
      length-output_rounds bytes bytes (update_locked hmac_sha256 domain m) [] (omega arith)
        (omega arith)

  length-generate_current :
      (bytes : ℕ) (domain : List ℕ) (w : World) (m n : EntropyManager) (out : List ℕ)
      → generate_current hmac_sha256 bytes domain w m ≡ (n, ok out)
      → length out ≡ bytes
  unfolding generate_current
  length-generate_current bytes domain w m n out e =
      let due = is_reseed_due w.current m in
      let m' : EntropyManager =
        if due
        then (try_timed_reseed_locked hmac_sha256 w.time_sample w.time_now w.pid w.current m).0
        else m in
      let current : ℕ = if due then w.later else w.current in
      let made = produce hmac_sha256 bytes domain m' in
      let old =
        leb (seconds m'.config.max_reseed_age_seconds) (current - m'.last_successful_reseed) in
      elim (Bool-cases old) [
        | inl y ↦
            let fails : generate_current hmac_sha256 bytes domain w m
                ≡ (m', throw reseed_age_exceeded) =
              rw (y, generate_current) refl in
            absurd (
              throw_not_ok (
                ap (λ (x : EntropyManager × Outcome EntropyFailure (List ℕ)). x.1) (sym fails ∙ e)))
        | inr y ↦
            let runs : generate_current hmac_sha256 bytes domain w m ≡ (made.0, ok made.1) =
              rw (y, generate_current) refl in
            let same =
              bytes_injective made.1 out (
                ap (λ (x : EntropyManager × Outcome EntropyFailure (List ℕ)). x.1)
                  (sym runs ∙ e)) in
            ap length (sym same) ∙ length-produce bytes domain m'
      ]

  -- Given that a digest has 32 bytes, `generate` issues exactly as many bytes as asked for, where
  -- the configuration allows a call at all and it issues any.
  pub length-generate :
      (bytes : ℕ) (domain : List ℕ) (w : World) (m n : EntropyManager) (out : List ℕ)
      → 1 ≤ m.config.max_generate_calls
      → generate hmac_sha256 bytes domain w m ≡ (n, ok out)
      → length out ≡ bytes
  length-generate bytes domain w m n out pos e =
      let (nonempty, (s, ready, run)) = generate_ok hmac_sha256 bytes domain w m n out pos e in
      length-generate_current bytes domain w s n out run

  -- Given that a digest has 32 bytes, `generate` issues exactly as many bytes as asked for, and no
  -- reseed is tried, for a domain that is not empty, in the process that made the state, with calls
  -- left, where the last reseed is younger than the reseed interval and that is at most the maximum
  -- age.
  pub generate_issues :
      (bytes first : ℕ) (domain : List ℕ) (w : World) (m : EntropyManager)
      → w.pid ≡ m.creator_pid
      → m.generate_calls < m.config.max_generate_calls
      → w.current - m.last_successful_reseed < seconds m.config.reseed_interval_seconds
      → m.config.reseed_interval_seconds ≤ m.config.max_reseed_age_seconds
      → let made = produce hmac_sha256 bytes (first ∷ domain) m in
        (generate hmac_sha256 bytes (first ∷ domain) w m ≡ (made.0, ok made.1))
        × (length made.1 ≡ bytes)
  unfolding generate forked counted generate_current
  generate_issues bytes first domain w m same left young ages =
      let here : (w.pid == m.creator_pid) ≡ true = ground arith in
      let more : leb m.config.max_generate_calls m.generate_calls ≡ false = ground arith in
      let wait : is_reseed_due w.current m ≡ false = ground arith in
      let fresh : leb (seconds m.config.max_reseed_age_seconds)
            (w.current - m.last_successful_reseed)
          ≡ false =
        ground arith in
      (rw (here, more, wait, fresh, generate) refl, length-produce bytes (first ∷ domain) m)
