-- ===== src/Defense/Rates.antt =====
-- src/stratum/defense.cpp: token buckets and sustained hammering.
use monero_solo_stratum.Common.{
  ℕ, ◌+◌, ◌-◌, ◌/◌, ◌%◌, ◌^◌, Bool, true, false, not, ◌&&◌, Option, none, some, ltb, leb, ◌==◌,
  if◌then◌else◌,
}
use monero_solo_stratum.Common.Map.{pair_eq, lookup}
use monero_solo_stratum.Common.Word.{u64_mod, u64_max, u32_mod}
use monero_solo_stratum.Defense.{
  PeerAddress, TokenBucket, HammerState, BanRecord, DefenseEngine, Double, seconds, rate_hammer,
}
use monero_solo_stratum.Defense.Bans.{insert_ban_locked}

abbrev pub first_attempts : Bool → ℕ
first_attempts count_current_attempt = if count_current_attempt then 1 else 0

-- The state after a second that was not the hammer's current one.
unfoldable pub next_second : HammerState → ℕ → ℕ → ℕ → Bool → HammerState
next_second h bucket threshold_count wall_now count_current_attempt =
    let sustained = bucket == (h.bucket + 1) % u64_mod && leb threshold_count h.attempts in
    record {
      bucket = bucket;
      attempts = first_attempts count_current_attempt;
      consecutive_seconds = if sustained then (h.consecutive_seconds + 1) % u32_mod else 0;
      evidence_start =
          if sustained
          then (if h.consecutive_seconds == 0 then wall_now - seconds 1 else h.evidence_start)
          else 0;
      initialized = true;
    }

module _ {F : Type 0} ⦃n : Double F⦄ where
  -- The first use fills the bucket.
  abbrev pub opened : TokenBucket F → F → ℕ → TokenBucket F
  opened bucket burst now =
      if bucket.initialized
      then bucket
      else record { tokens = burst; updated = now; initialized = true }

  unfoldable pub consume : TokenBucket F → F → F → ℕ → TokenBucket F × Bool
  consume bucket rate_per_second burst now =
      let b = opened bucket burst now in
      let elapsed = n.div (n.of_nat (now - b.updated)) (n.of_nat (10 ^ 9)) in
      let tokens = n.min burst (n.add b.tokens (n.mul elapsed rate_per_second)) in
      if n.less tokens (n.of_nat 1)
      then (record { tokens = tokens; updated = now; initialized = b.initialized }, false)
      else (
        record { tokens = n.sub tokens (n.of_nat 1); updated = now; initialized = b.initialized },
        true,
      )

  -- A ban for hammering, unless the peer has one.
  unfoldable pub ban_hammer :
      PeerAddress → HammerState → ℕ → DefenseEngine F → DefenseEngine F × Option BanRecord
  unfolding insert_ban_locked lookup
  ban_hammer peer h wall_now d =
      let ban : BanRecord = record {
        peer = peer;
        reason = rate_hammer;
        created = wall_now;
        expires = wall_now + seconds d.config.ban_seconds;
        evidence_start = h.evidence_start;
        evidence_end = wall_now;
      } in
      let (d', inserted) = insert_ban_locked ban d in
      if ltb h.consecutive_seconds d.config.hammer_sustain_seconds
      then (d, none)
      else elim (lookup peer d.bans) [
        | some existing ↦ (d, none)
        | none ↦ (d', if inserted then some ban else none)
      ]

  unfoldable pub observe_hammer_locked :
      PeerAddress
      → HammerState
      → F
      → ℕ
      → ℕ
      → Bool
      → DefenseEngine F
      → HammerState × DefenseEngine F × Option BanRecord
  unfolding next_second ban_hammer
  observe_hammer_locked peer h rate_per_second steady_now wall_now count_current_attempt d =
      let bucket = steady_now / 10 ^ 9 in
      let scaled = n.mul rate_per_second (n.of_nat d.config.hammer_rate_multiplier) in
      let h' = next_second h bucket (n.ceil_count scaled) wall_now count_current_attempt in
      let banned = ban_hammer peer h' wall_now d in
      if not h.initialized
      then (
        record h {
          initialized = true;
          bucket = bucket;
          attempts = first_attempts count_current_attempt;
        },
        d,
        none,
      )
      else if bucket == h.bucket
      then (
        (if count_current_attempt && not (h.attempts == u64_max)
            then record h { attempts = h.attempts + 1 }
            else h),
        d,
        none,
      )
      else (h', banned.0, banned.1)
