-- ===== src/Defense/Admission.antt =====
-- src/stratum/defense.cpp: the public operations of the engine. The second component of a result
-- is the answer, the third the ban that the callback is told. A call reads each clock once.
use monero_solo_stratum.Common.{ℕ, Bool, true, false, Option, none, some}
use monero_solo_stratum.Common.Map.{pair_eq, nat_eq, insert}
use monero_solo_stratum.Defense.{
  PeerAddress, TokenBucket, HammerState, PeerState, BanRecord, DefenseEngine, Double,
}
use monero_solo_stratum.Defense.Bans.{expire_locked, is_banned}
use monero_solo_stratum.Defense.Peers.{find_or_create_peer_locked}
use monero_solo_stratum.Defense.Rates.{observe_hammer_locked, consume}

-- The two clocks at a call.
pub record Now : Type 0 where
  pub wall : ℕ
  pub steady : ℕ

-- The parts of a peer's state that one kind of request has for itself.
pub record Lane (F : Type 0) : Type 0 where
  pub hammer : PeerState F → HammerState
  pub bucket : PeerState F → TokenBucket F
  pub put : HammerState → TokenBucket F → PeerState F → PeerState F

abbrev pub connection_lane : {F : Type 0} → Lane F
connection_lane = record {
  hammer = λ s. s.connection_hammer;
  bucket = λ s. s.connections;
  put = λ h b s. record s { connection_hammer = h; connections = b };
}

abbrev pub request_lane : {F : Type 0} → Lane F
request_lane = record {
  hammer = λ s. s.request_hammer;
  bucket = λ s. s.requests;
  put = λ h b s. record s { request_hammer = h; requests = b };
}

abbrev pub submit_lane : {F : Type 0} → Lane F
submit_lane = record {
  hammer = λ s. s.submit_hammer;
  bucket = λ s. s.submits;
  put = λ h b s. record s { submit_hammer = h; submits = b };
}

abbrev pub Answer : Type 0 → Type 0
Answer F = DefenseEngine F × Bool × Option BanRecord

-- Changing a peer's state in place.
unfoldable pub put_peer :
    {F : Type 0} → PeerAddress → PeerState F → DefenseEngine F → DefenseEngine F
unfolding insert
put_peer peer state d = record d { peers = insert peer state d.peers }

module _ {F : Type 0} ⦃n : Double F⦄ where
  -- The body of `admit_connection`, `admit_request` and `admit_submit` behind the state's lookup. A
  -- new ban does not consume a token.
  unfoldable pub admit_peer :
      Lane F → F → F → PeerAddress → Now → PeerState F → DefenseEngine F → Answer F
  unfolding put_peer observe_hammer_locked consume
  admit_peer lane rate burst peer now state d =
      let (h, d', created) =
        observe_hammer_locked peer (lane.hammer state) rate now.steady now.wall true d in
      let (b, allowed) = consume (lane.bucket state) rate burst now.steady in
      elim created [
        | some ban ↦ (put_peer peer (lane.put h (lane.bucket state) state) d', false, some ban)
        | none ↦ (put_peer peer (lane.put h b state) d', allowed, none)
      ]

  -- What every admission does first: expire bans, refuse a banned peer, and find its state.
  unfoldable pub admitted :
      (PeerState F → DefenseEngine F → Answer F) → PeerAddress → Now → DefenseEngine F → Answer F
  unfolding expire_locked is_banned find_or_create_peer_locked
  admitted body peer now d = elim d.config.enabled [
    | false ↦ (d, true, none)
    | true ↦
        let d' = expire_locked now.wall d in
        elim (is_banned peer d') [
          | true ↦ (d', false, none)
          | false ↦
              let found = find_or_create_peer_locked peer now.steady d' in
              elim found.1 [ none ↦ (found.0, false, none) | some state ↦ body state found.0 ]
        ]
  ]

  abbrev pub per_minute : ℕ → F
  per_minute rate = n.div (n.of_nat rate) (n.of_nat 60)

  unfoldable pub admit_connection : PeerAddress → Now → DefenseEngine F → Answer F
  unfolding admitted admit_peer
  admit_connection peer now d =
      admitted
        (admit_peer connection_lane (per_minute d.config.connection_rate_per_minute)
          (n.of_nat d.config.connection_burst) peer now)
        peer now d

  unfoldable pub admit_request : PeerAddress → Now → DefenseEngine F → Answer F
  unfolding admitted admit_peer
  admit_request peer now d =
      admitted
        (admit_peer request_lane (n.of_nat d.config.request_rate_per_second)
          (n.of_nat d.config.request_burst) peer now)
        peer now d

  unfoldable pub admit_submit : PeerAddress → Now → DefenseEngine F → Answer F
  unfolding admitted admit_peer
  admit_submit peer now d =
      admitted
        (admit_peer submit_lane (n.of_nat d.config.submit_rate_per_second)
          (n.of_nat d.config.submit_burst) peer now)
        peer now d
