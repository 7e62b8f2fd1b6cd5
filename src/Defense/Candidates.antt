-- ===== src/Defense/Candidates.antt =====
-- src/stratum/defense.cpp: admission of network candidates, which are counted while they are in
-- flight, per peer and altogether.
use monero_solo_stratum.Common.{
  ℕ, ◌+◌, ◌-◌, Bool, true, false, not, ◌&&◌, ◌||◌, Option, none, some, leb, ◌==◌, if◌then◌else◌,
}
use monero_solo_stratum.Common.Map.{pair_eq, nat_eq, lookup}
use monero_solo_stratum.Defense.{
  PeerAddress, TokenBucket, HammerState, PeerState, BanRecord, DefenseEngine, DefensePolicyConfig,
  Double,
}
use monero_solo_stratum.Defense.Peers.{touch_peer_locked}
use monero_solo_stratum.Defense.Rates.{observe_hammer_locked, consume}
use monero_solo_stratum.Defense.Admission.{Now, Answer, put_peer, admitted, per_minute}

abbrev pub is_capped : DefensePolicyConfig → ℕ → ℕ → Bool
is_capped c global peer =
    not (c.candidate_global_inflight == 0) && leb c.candidate_global_inflight global
    || not (c.candidate_inflight_per_ip == 0) && leb c.candidate_inflight_per_ip peer

abbrev pub is_none : Option BanRecord → Bool
is_none none = true
is_none (some ban) = false

abbrev pub either : Option BanRecord → Option BanRecord → Option BanRecord
either none later = later
either (some ban) later = some ban

module _ {F : Type 0} ⦃n : Double F⦄ where
  -- A call of `observe_hammer_locked` under the condition that it has in `admit_candidate`.
  unfoldable pub observe_if :
      Bool
      → PeerAddress
      → HammerState
      → F
      → Now
      → Bool
      → DefenseEngine F
      → HammerState × DefenseEngine F × Option BanRecord
  unfolding observe_hammer_locked
  observe_if test peer h rate now counted d = elim test [
    | true ↦ observe_hammer_locked peer h rate now.steady now.wall counted d
    | false ↦ (h, d, none)
  ]

  unfoldable pub consume_candidate :
      DefensePolicyConfig → F → TokenBucket F → Now → TokenBucket F × Bool
  unfolding consume
  consume_candidate c rate bucket now = elim (c.candidate_rate_per_minute == 0) [
    | true ↦ (bucket, true)
    | false ↦ consume bucket rate (n.of_nat c.candidate_burst) now.steady
  ]

  unfoldable pub candidate_body : PeerAddress → Now → PeerState F → DefenseEngine F → Answer F
  unfolding observe_if consume_candidate put_peer
  candidate_body peer now state d =
      let c = d.config in
      let rate = per_minute c.candidate_rate_per_minute in
      let limited = not (c.candidate_rate_per_minute == 0) in
      let first = observe_if limited peer state.candidate_hammer rate now false d in
      let d1 = first.1 in
      let capped = is_capped c d1.candidate_global_inflight state.candidate_inflight in
      let used = consume_candidate c rate state.candidates now in
      let denied = is_none first.2 && (capped || not used.1) && limited in
      let second = observe_if denied peer first.0 rate now true d1 in
      let d2 = second.1 in
      let created = either first.2 second.2 in
      let allowed = is_none created && not capped && used.1 in
      let state' : PeerState F = record state {
        candidate_hammer = second.0;
        candidates = used.0;
      } in
      if allowed
      then (
        record (put_peer peer (record state' { candidate_inflight = state.candidate_inflight + 1 })
            d2) { candidate_global_inflight = d2.candidate_global_inflight + 1 },
        true,
        created,
      )
      else (put_peer peer state' d2, false, created)

  unfoldable pub admit_candidate : PeerAddress → Now → DefenseEngine F → Answer F
  unfolding admitted candidate_body
  admit_candidate peer now d = admitted (candidate_body peer now) peer now d

  unfoldable pub candidate_finished : PeerAddress → Now → DefenseEngine F → DefenseEngine F
  unfolding touch_peer_locked lookup
  candidate_finished peer now d = elim (d.config.enabled) [
    | false ↦ d
    | true ↦ elim (lookup peer d.peers) [
      | none ↦ d
      | some state ↦ elim (state.candidate_inflight == 0) [
        | true ↦ d
        | false ↦
            record (touch_peer_locked peer
              (record state { candidate_inflight = state.candidate_inflight - 1 }) now.steady d) {
                candidate_global_inflight = d.candidate_global_inflight - 1;
              }
      ]
    ]
  ]
