-- ===== src/Defense/Histories.antt =====
-- src/stratum/defense.cpp: histories. Each operation holds the engine's lock, so that calls of
-- concurrent clients are a list.
use monero_solo_stratum.Common.{◌≡◌, refl, some, List, [], ◌∷◌, arith}
use monero_solo_stratum.Defense.{
  PeerAddress, BanRecord, DefensePolicyConfig, DefenseEngine, Double, AbuseKind, PeerState,
  HammerState, TokenBucket, make_engine,
}
use monero_solo_stratum.Common.Map.{lookup, size}
use monero_solo_stratum.Defense.Bans.{expire_locked, banned, restore_ban}
use monero_solo_stratum.Defense.Admission.{
  Now, Lane, admitted, admit_peer, per_minute, admit_connection, admit_request, admit_submit,
  connection_lane, request_lane, submit_lane,
}
use monero_solo_stratum.Defense.Candidates.{admit_candidate, candidate_body, candidate_finished}
use monero_solo_stratum.Defense.Evidence.{record_abuse}
use monero_solo_stratum.Defense.PeerTable.{total}
use monero_solo_stratum.Defense.Inflight.{Inv, SamePeers-Inv, expire_locked_lem}
use monero_solo_stratum.Defense.Calls.{admit_peer-Inv, admitted-Inv, candidate_body-Inv}
use monero_solo_stratum.Defense.MoreCalls.{
  candidate_finished-Inv, record_abuse-Inv, banned-Inv, restore_ban-Inv,
}

pub data Call : Type 0 where
  connect request submit candidate finish ask : PeerAddress → Call
  abuse : PeerAddress → AbuseKind → Call
  restore : BanRecord → Call
  expire : Call

module _ {F : Type 0} ⦃n : Double F⦄ where
  unfoldable pub step : Call → Now → DefenseEngine F → DefenseEngine F
  unfolding admit_connection admit_request admit_submit admit_candidate candidate_finished
      record_abuse banned restore_ban expire_locked
  step (connect p) now d = (admit_connection p now d).0
  step (request p) now d = (admit_request p now d).0
  step (submit p) now d = (admit_submit p now d).0
  step (candidate p) now d = (admit_candidate p now d).0
  step (finish p) now d = candidate_finished p now d
  step (ask p) now d = (banned p now.wall d).0
  step (abuse p kind) now d = (record_abuse p kind now d).0
  step (restore ban) now d = restore_ban ban now.wall d
  step expire now d = expire_locked now.wall d

  unfoldable pub run : List (Call × Now) → DefenseEngine F → DefenseEngine F
  unfolding step
  run [] d = d
  run ((call, now) ∷ rest) d = run rest (step call now d)

  admit-Inv :
      (lane : Lane F) (rate burst : F) (p : PeerAddress) (now : Now) (d : DefenseEngine F)
      → ((s : PeerState F) (h : HammerState) (b : TokenBucket F)
          → (lane.put h b s).candidate_inflight ≡ s.candidate_inflight)
      → Inv d
      → Inv (admitted (admit_peer lane rate burst p now) p now d).0
  admit-Inv lane rate burst p now d same h =
      admitted-Inv (admit_peer lane rate burst p now) p now d
        (λ s e found k. admit_peer-Inv lane rate burst p now s e (same s) found k) h

  step-Inv : (call : Call) (now : Now) (d : DefenseEngine F) → Inv d → Inv (step call now d)
  unfolding step admit_connection admit_request admit_submit admit_candidate
  step-Inv (connect p) now d h =
      admit-Inv connection_lane (per_minute d.config.connection_rate_per_minute)
        (n.of_nat d.config.connection_burst) p now d (λ s g b. refl) h
  step-Inv (request p) now d h =
      admit-Inv request_lane (n.of_nat d.config.request_rate_per_second)
        (n.of_nat d.config.request_burst) p now d (λ s g b. refl) h
  step-Inv (submit p) now d h =
      admit-Inv submit_lane (n.of_nat d.config.submit_rate_per_second)
        (n.of_nat d.config.submit_burst) p now d (λ s g b. refl) h
  step-Inv (candidate p) now d h =
      admitted-Inv (candidate_body p now) p now d (candidate_body-Inv p now) h
  step-Inv (finish p) now d h = candidate_finished-Inv p now d h
  step-Inv (ask p) now d h = banned-Inv p now.wall d h
  step-Inv (abuse p kind) now d h = record_abuse-Inv p kind now d h
  step-Inv (restore ban) now d h = restore_ban-Inv ban now.wall d h
  step-Inv expire now d h =
      SamePeers-Inv d (expire_locked now.wall d) (expire_locked_lem now.wall d) h

  run-Inv : (calls : List (Call × Now)) (d : DefenseEngine F) → Inv d → Inv (run calls d)
  unfolding run
  run-Inv [] d h = h
  run-Inv ((call, now) ∷ rest) d h = run-Inv rest (step call now d) (step-Inv call now d h)

  empty_engine :
      (c : DefensePolicyConfig) (d : DefenseEngine F)
      → make_engine c ≡ some d
      → (d.config ≡ c) × (d.peers ≡ []) × (d.candidate_global_inflight ≡ 0)
  unfolding make_engine
  empty_engine c d made = ground arith

  make_engine-Inv : (c : DefensePolicyConfig) (d : DefenseEngine F) → make_engine c ≡ some d → Inv d
  unfolding total lookup size
  make_engine-Inv c d made =
      let (e, p, g) = empty_engine c d made in
      record {
        table =
            rw (p, g)
              (record {
                uniq = tt;
                bound = omega arith;
                sum = refl;
                per_ip = λ q s l. absurd (ground arith);
              });
        global = rw g (ground arith);
      }

  -- An engine that the constructor accepts has, after any calls at any times, a global count of
  -- candidates in flight that is the sum over its peers, within the caps per peer and altogether
  -- where these are not zero, and at most the number of peer states that its configuration allows.
  pub run-make_engine-Inv :
      (c : DefensePolicyConfig) (d : DefenseEngine F) (calls : List (Call × Now))
      → make_engine c ≡ some d
      → Inv (run calls d)
  run-make_engine-Inv c d calls made = run-Inv calls d (make_engine-Inv c d made)
