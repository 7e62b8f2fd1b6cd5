-- ===== src/Defense/BanHistories.antt =====
-- src/stratum/defense.cpp: the ban table over any calls, and the answer of `banned`.
use monero_solo_stratum.Common.{
  ℕ, ◌≡◌, refl, inl, inr, Bool, true, false, ◌||◌, not, Option, none, some, List, [], ◌∷◌, leb,
  arith, Bool-cases, Option-cases, ◌&&◌,
}
use monero_solo_stratum.Common.Map.{pair_eq, lookup, size}
use monero_solo_stratum.Defense.{
  PeerAddress, PeerState, BanRecord, DefensePolicyConfig, DefenseEngine, Double, AbuseKind,
  make_engine,
}
use monero_solo_stratum.Defense.Bans.{
  expire_locked, expire_overflow, is_banned, banned, restore_ban,
}
use monero_solo_stratum.Defense.Peers.{find_or_create_peer_locked}
use monero_solo_stratum.Defense.Admission.{
  Now, Answer, admit_peer, admitted, per_minute, connection_lane, request_lane, submit_lane,
  admit_connection, admit_request, admit_submit,
}
use monero_solo_stratum.Defense.Candidates.{candidate_body, admit_candidate}
use monero_solo_stratum.Defense.Evidence.{record_abuse}
use monero_solo_stratum.Defense.BanTable.{index_has}
use monero_solo_stratum.Defense.Expiry.{unexpired, lookup-expire_index_exact}
use monero_solo_stratum.Defense.Histories.{
  Call, step, run, connect, request, submit, candidate, finish, ask, abuse, restore, expire,
}
use monero_solo_stratum.Defense.BanCalls.{
  BansInv, SameBans-BansInv, insert_ban_locked-BansInv, expire_locked-BansInv,
  find_or_create_peer_locked-SameBans, admit_peer-BansInv, candidate_body-BansInv,
  candidate_finished-BansInv, add_event-BansInv,
}

abbrev pub is_some : {A : Type 0} → Option A → Bool
is_some none = false
is_some (some a) = true

module _ {F : Type 0} ⦃n : Double F⦄ where
  found-BansInv :
      (p : PeerAddress) (now : Now) (d : DefenseEngine F)
      → BansInv d
      → BansInv (find_or_create_peer_locked p now.steady (expire_locked now.wall d)).0
  found-BansInv p now d h =
      let d' = expire_locked now.wall d in
      SameBans-BansInv d' (find_or_create_peer_locked p now.steady d').0
        (find_or_create_peer_locked-SameBans p now.steady d') (expire_locked-BansInv now.wall d h)

  admitted-BansInv :
      (body : PeerState F → DefenseEngine F → Answer F) (p : PeerAddress) (now : Now)
      (d : DefenseEngine F)
      → ((s : PeerState F) (e : DefenseEngine F) → BansInv e → BansInv (body s e).0)
      → BansInv d
      → BansInv (admitted body p now d).0
  unfolding admitted
  admitted-BansInv body p now d keeps h =
      let d' = expire_locked now.wall d in
      let found = find_or_create_peer_locked p now.steady d' in
      let good = found-BansInv p now d h in
      elim (Bool-cases d.config.enabled) [
        | inr y ↦ rw (y, admitted) h
        | inl y ↦ elim (Bool-cases (is_banned p d')) [
          | inl z ↦ rw (y, z, admitted) (expire_locked-BansInv now.wall d h)
          | inr z ↦ elim (Option-cases found.1) [
            | inl e ↦ rw (y, z, e, admitted) good
            | inr (s, e) ↦ rw (y, z, e, admitted) (keeps s found.0 good)
          ]
        ]
      ]

  record_abuse-BansInv :
      (p : PeerAddress) (kind : AbuseKind) (now : Now) (d : DefenseEngine F)
      → BansInv d
      → BansInv (record_abuse p kind now d).0
  unfolding record_abuse
  record_abuse-BansInv p kind now d h =
      let d' = expire_locked now.wall d in
      let found = find_or_create_peer_locked p now.steady d' in
      let good = found-BansInv p now d h in
      elim (Bool-cases d.config.enabled) [
        | inr y ↦ rw (y, record_abuse) h
        | inl y ↦ elim (Bool-cases (is_banned p d')) [
          | inl z ↦ rw (y, z, record_abuse) (expire_locked-BansInv now.wall d h)
          | inr z ↦ elim (Option-cases found.1) [
            | inl e ↦ rw (y, z, e, record_abuse) good
            | inr (s, e) ↦
                rw (y, z, e, record_abuse) (add_event-BansInv p kind now.wall s found.0 good)
          ]
        ]
      ]

  banned-BansInv :
      (p : PeerAddress) (now : ℕ) (d : DefenseEngine F) → BansInv d → BansInv (banned p now d).0
  unfolding banned
  banned-BansInv p now d h = elim (Bool-cases d.config.enabled) [
    | inl y ↦ simp (y, banned) (expire_locked-BansInv now d h)
    | inr y ↦ simp (y, banned) h
  ]

  restore_ban-BansInv :
      (b : BanRecord) (now : ℕ) (d : DefenseEngine F) → BansInv d → BansInv (restore_ban b now d)
  unfolding restore_ban
  restore_ban-BansInv b now d h = elim (Bool-cases (not d.config.enabled || leb b.expires now)) [
    | inl y ↦ rw (y, restore_ban) h
    | inr y ↦ rw (y, restore_ban) (insert_ban_locked-BansInv b d h)
  ]

  step-BansInv :
      (call : Call) (now : Now) (d : DefenseEngine F) → BansInv d → BansInv (step call now d)
  unfolding step admit_connection admit_request admit_submit admit_candidate
  step-BansInv (connect p) now d h =
      let rate : F = per_minute d.config.connection_rate_per_minute in
      let burst = n.of_nat d.config.connection_burst in
      admitted-BansInv (admit_peer connection_lane rate burst p now) p now d
        (admit_peer-BansInv connection_lane rate burst p now) h
  step-BansInv (request p) now d h =
      let rate = n.of_nat d.config.request_rate_per_second in
      let burst = n.of_nat d.config.request_burst in
      admitted-BansInv (admit_peer request_lane rate burst p now) p now d
        (admit_peer-BansInv request_lane rate burst p now) h
  step-BansInv (submit p) now d h =
      let rate = n.of_nat d.config.submit_rate_per_second in
      let burst = n.of_nat d.config.submit_burst in
      admitted-BansInv (admit_peer submit_lane rate burst p now) p now d
        (admit_peer-BansInv submit_lane rate burst p now) h
  step-BansInv (candidate p) now d h =
      admitted-BansInv (candidate_body p now) p now d (candidate_body-BansInv p now) h
  step-BansInv (finish p) now d h = candidate_finished-BansInv p now d h
  step-BansInv (ask p) now d h = banned-BansInv p now.wall d h
  step-BansInv (abuse p kind) now d h = record_abuse-BansInv p kind now d h
  step-BansInv (restore ban) now d h = restore_ban-BansInv ban now.wall d h
  step-BansInv expire now d h = expire_locked-BansInv now.wall d h

  run-BansInv :
      (calls : List (Call × Now)) (d : DefenseEngine F) → BansInv d → BansInv (run calls d)
  unfolding run
  run-BansInv [] d h = h
  run-BansInv ((call, now) ∷ rest) d h =
      run-BansInv rest (step call now d) (step-BansInv call now d h)

  no_bans :
      (c : DefensePolicyConfig) (d : DefenseEngine F)
      → make_engine c ≡ some d
      → (d.bans ≡ []) × (d.ban_expiries ≡ [])
  unfolding make_engine
  no_bans c d made = ground arith

  make_engine-BansInv :
      (c : DefensePolicyConfig) (d : DefenseEngine F) → make_engine c ≡ some d → BansInv d
  unfolding lookup size index_has
  make_engine-BansInv c d made =
      let (b, x) = no_bans c d made in
      rw (b, x)
        (record {
          uniq = tt;
          bound = omega arith;
          tidy = tt;
          listed = λ p e l. absurd (ground arith);
          current = λ t p l. absurd (ground arith);
        })

  -- An engine that the constructor accepts has, after any calls at any times, at most its number of
  -- active bans, no peer twice, every ban listed in the index at its expiry, and nothing listed
  -- there but bans that expire then.
  pub run-make_engine-BansInv :
      (c : DefensePolicyConfig) (d : DefenseEngine F) (calls : List (Call × Now))
      → make_engine c ≡ some d
      → BansInv (run calls d)
  run-make_engine-BansInv c d calls made = run-BansInv calls d (make_engine-BansInv c d made)

  is_banned_lem :
      (p : PeerAddress) (d : DefenseEngine F)
      → is_banned p d ≡ (is_some (lookup p d.bans) || is_some d.ban_overflow_until)
  unfolding is_banned
  is_banned_lem p d = ground arith

  -- In an engine that the constructor accepts, after any calls at any times, `banned` answers, where
  -- the engine is enabled, whether the peer has a ban that has not expired by now, or the overflow
  -- interval lasts until after now; where it is disabled, the answer is no.
  pub banned_exact :
      (c : DefensePolicyConfig) (d : DefenseEngine F) (calls : List (Call × Now)) (p : PeerAddress)
      (now : ℕ)
      → make_engine c ≡ some d
      → (banned p now (run calls d)).1 ≡ (
          (run calls d).config.enabled
          && (is_some (unexpired now (lookup p (run calls d).bans))
              || is_some (expire_overflow now (run calls d).ban_overflow_until)))
  unfolding banned expire_locked
  banned_exact c d calls p now made =
      let e = run calls d in
      let inv = run-make_engine-BansInv c d calls made in
      let exact =
        lookup-expire_index_exact e.config.max_active_bans e.bans e.ban_expiries now p inv in
      elim (Bool-cases e.config.enabled) [
        | inr y ↦ rw (y, banned) refl
        | inl y ↦ ground (arith, y, is_banned_lem p (expire_locked now e), exact)
      ]
