-- ===== src/Defense/BanCalls.antt =====
-- src/stratum/defense.cpp: the ban table over any calls, and the answer of `banned`.
use monero_solo_stratum.Common.{
  ℕ, ◌≡◌, refl, inl, inr, Bool, true, false, not, ◌&&◌, ◌||◌, none, ltb, leb, ◌==◌, ◌/◌, ◌^◌, arith,
  Bool-cases, Option-cases, length,
}
use monero_solo_stratum.Common.Map.{pair_eq, pair_beq_iff, lookup, size, lookup-erase}
use monero_solo_stratum.Defense.{
  PeerAddress, PeerState, HammerState, BanRecord, DefenseEngine, Double, AbuseKind, threshold,
}
use monero_solo_stratum.Defense.Bans.{
  without_ban, erase_ban_locked, add_ban, insert_ban_locked, expire_locked,
}
use monero_solo_stratum.Defense.Peers.{
  touch_peer_locked, erase_peer_locked, add_peer, create_peer, find_or_create_peer_locked, is_stale,
  drop_stale, make_room,
}
use monero_solo_stratum.Defense.Rates.{ban_hammer, observe_hammer_locked, next_second}
use monero_solo_stratum.Defense.Admission.{Now, Lane, put_peer, admit_peer, per_minute}
use monero_solo_stratum.Defense.Candidates.{
  observe_if, consume_candidate, is_capped, is_none, either, candidate_body, candidate_finished,
}
use monero_solo_stratum.Defense.Evidence.{next_events, keep_events, abuse_ban, add_event}
use monero_solo_stratum.Defense.BanInvariant.{BanInv, erase-BanInv, insert-BanInv}
use monero_solo_stratum.Defense.Expiry.{expire_index-BanInv}

module _ {F : Type 0} where
  abbrev pub BansInv : DefenseEngine F → Type 0
  BansInv d = BanInv d.config.max_active_bans d.bans d.ban_expiries

  abbrev pub SameBans : DefenseEngine F → DefenseEngine F → Type 0
  SameBans d e = (e.config ≡ d.config) × (e.bans ≡ d.bans) × (e.ban_expiries ≡ d.ban_expiries)

  pub SameBans-BansInv : (d e : DefenseEngine F) → SameBans d e → BansInv d → BansInv e
  SameBans-BansInv d e (c, b, x) h = rw (c, b, x) h

  without_ban-BansInv :
      (p : PeerAddress) (d : DefenseEngine F)
      → BansInv d
      → BansInv (without_ban p d) × (lookup p (without_ban p d).bans ≡ none)
  unfolding without_ban erase_ban_locked
  without_ban-BansInv p d h = elim (Option-cases (lookup p d.bans)) [
    | inl e ↦ rw (e, without_ban) (h, e)
    | inr (b, e) ↦
        rw (e, without_ban)
          (
            erase-BanInv d.config.max_active_bans d.bans d.ban_expiries p b e h,
            ground (arith, lookup-erase p p d.bans, pair_beq_iff p p),
          )
  ]

  pub insert_ban_locked-BansInv :
      (b : BanRecord) (d : DefenseEngine F) → BansInv d → BansInv (insert_ban_locked b d).0
  unfolding insert_ban_locked add_ban
  insert_ban_locked-BansInv b d h =
      let d' = without_ban b.peer d in
      let (k, e) = without_ban-BansInv b.peer d h in
      elim (Bool-cases (leb d'.config.max_active_bans (size d'.bans))) [
        | inl y ↦ rw (y, insert_ban_locked) k
        | inr y ↦
            rw (y, e, insert_ban_locked, add_ban)
              (insert-BanInv d'.config.max_active_bans d'.bans d'.ban_expiries b e (ground arith) k)
      ]

  pub expire_locked-BansInv :
      (now : ℕ) (d : DefenseEngine F) → BansInv d → BansInv (expire_locked now d)
  unfolding expire_locked
  expire_locked-BansInv now d h =
      expire_index-BanInv d.config.max_active_bans d.bans d.ban_expiries now h

module _ {F : Type 0} ⦃n : Double F⦄ where
  create_peer-SameBans :
      (p : PeerAddress) (now : ℕ) (d : DefenseEngine F) → SameBans d (create_peer p now d).0
  unfolding create_peer add_peer touch_peer_locked
  create_peer-SameBans p now d =
      let fresh = drop_stale now d.peer_lru d.peers in
      let room = make_room (length fresh.1) d.config.max_peer_states 0 fresh.1 fresh.0 in
      elim (Bool-cases (leb d.config.max_peer_states (size room.0))) [
        | inl y ↦ rw (y, create_peer) (refl, refl, refl)
        | inr y ↦ elim (Option-cases (lookup p room.0)) [
          | inl e ↦ rw (y, e, create_peer, add_peer) (refl, refl, refl)
          | inr (s, e) ↦ rw (y, e, create_peer, add_peer) (refl, refl, refl)
        ]
      ]

  pub find_or_create_peer_locked-SameBans :
      (p : PeerAddress) (now : ℕ) (d : DefenseEngine F)
      → SameBans d (find_or_create_peer_locked p now d).0
  unfolding find_or_create_peer_locked erase_peer_locked touch_peer_locked
  find_or_create_peer_locked-SameBans p now d = elim (Option-cases (lookup p d.peers)) [
    | inl e ↦ rw (e, find_or_create_peer_locked) (create_peer-SameBans p now d)
    | inr (s, e) ↦ elim (Bool-cases ((s.candidate_inflight == 0) && is_stale s now)) [
      | inr y ↦ rw (e, y, find_or_create_peer_locked) (refl, refl, refl)
      | inl y ↦
          rw (e, y, find_or_create_peer_locked) (create_peer-SameBans p now (erase_peer_locked p d))
    ]
  ]

  ban_hammer-BansInv :
      (p : PeerAddress) (h : HammerState) (wall : ℕ) (d : DefenseEngine F)
      → BansInv d
      → BansInv (ban_hammer p h wall d).0
  unfolding ban_hammer
  ban_hammer-BansInv p h wall d inv =
      elim (Bool-cases (ltb h.consecutive_seconds d.config.hammer_sustain_seconds)) [
        | inl y ↦ rw (y, ban_hammer) inv
        | inr y ↦ elim (Option-cases (lookup p d.bans)) [
          | inr (b, e) ↦ rw (y, e, ban_hammer) inv
          | inl e ↦ rw (y, e, ban_hammer) (insert_ban_locked-BansInv _ d inv)
        ]
      ]

  observe_hammer_locked-BansInv :
      (p : PeerAddress) (h : HammerState) (rate : F) (steady wall : ℕ) (counted : Bool)
      (d : DefenseEngine F)
      → BansInv d
      → BansInv (observe_hammer_locked p h rate steady wall counted d).1
  unfolding observe_hammer_locked
  observe_hammer_locked-BansInv p h rate steady wall counted d inv =
      elim (Bool-cases (not h.initialized)) [
        | inl y ↦ rw (y, observe_hammer_locked) inv
        | inr y ↦ elim (Bool-cases (steady / 10 ^ 9 == h.bucket)) [
          | inl z ↦ rw (y, z, observe_hammer_locked) inv
          | inr z ↦
              rw (y, z, observe_hammer_locked)
                (ban_hammer-BansInv p
                  (next_second h (steady / 10 ^ 9)
                    (n.ceil_count (n.mul rate (n.of_nat d.config.hammer_rate_multiplier))) wall
                    counted)
                  wall d inv)
        ]
      ]

  pub admit_peer-BansInv :
      (lane : Lane F) (rate burst : F) (p : PeerAddress) (now : Now) (s : PeerState F)
      (d : DefenseEngine F)
      → BansInv d
      → BansInv (admit_peer lane rate burst p now s d).0
  unfolding admit_peer put_peer
  admit_peer-BansInv lane rate burst p now s d inv =
      let seen = observe_hammer_locked p (lane.hammer s) rate now.steady now.wall true d in
      let k = observe_hammer_locked-BansInv p (lane.hammer s) rate now.steady now.wall true d inv in
      elim (Option-cases seen.2) [
        | inl e ↦ rw (e, admit_peer) k
        | inr (b, e) ↦ rw (e, admit_peer) k
      ]

  observe_if-BansInv :
      (test : Bool) (p : PeerAddress) (h : HammerState) (rate : F) (now : Now) (counted : Bool)
      (d : DefenseEngine F)
      → BansInv d
      → BansInv (observe_if test p h rate now counted d).1
  unfolding observe_if
  observe_if-BansInv false p h rate now counted d inv = inv
  observe_if-BansInv true p h rate now counted d inv =
      observe_hammer_locked-BansInv p h rate now.steady now.wall counted d inv

  pub candidate_body-BansInv :
      (p : PeerAddress) (now : Now) (s : PeerState F) (d : DefenseEngine F)
      → BansInv d
      → BansInv (candidate_body p now s d).0
  unfolding candidate_body put_peer
  candidate_body-BansInv p now s d inv =
      let c = d.config in
      let rate : F = per_minute c.candidate_rate_per_minute in
      let limited = not (c.candidate_rate_per_minute == 0) in
      let first = observe_if limited p s.candidate_hammer rate now false d in
      let d1 = first.1 in
      let capped = is_capped c d1.candidate_global_inflight s.candidate_inflight in
      let used = consume_candidate c rate s.candidates now in
      let denied = is_none first.2 && (capped || not used.1) && limited in
      let second = observe_if denied p first.0 rate now true d1 in
      let k =
        observe_if-BansInv denied p first.0 rate now true d1
          (observe_if-BansInv limited p s.candidate_hammer rate now false d inv) in
      elim (Bool-cases (is_none (either first.2 second.2) && not capped && used.1)) [
        | inl y ↦ rw (y, candidate_body) k
        | inr y ↦ rw (y, candidate_body) k
      ]

  pub candidate_finished-BansInv :
      (p : PeerAddress) (now : Now) (d : DefenseEngine F)
      → BansInv d
      → BansInv (candidate_finished p now d)
  unfolding candidate_finished touch_peer_locked
  candidate_finished-BansInv p now d h = elim (Bool-cases d.config.enabled) [
    | inr y ↦ rw (y, candidate_finished) h
    | inl y ↦ elim (Option-cases (lookup p d.peers)) [
      | inl e ↦ rw (y, e, candidate_finished) h
      | inr (s, e) ↦ elim (Bool-cases (s.candidate_inflight == 0)) [
        | inl z ↦ rw (y, e, z, candidate_finished) h
        | inr z ↦ rw (y, e, z, candidate_finished) h
      ]
    ]
  ]

  pub add_event-BansInv :
      (p : PeerAddress) (kind : AbuseKind) (now : ℕ) (s : PeerState F) (d : DefenseEngine F)
      → BansInv d
      → BansInv (add_event p kind now s d).0
  unfolding add_event put_peer
  add_event-BansInv p kind now s d h =
      let events = next_events d.config kind now s in
      let d' = put_peer p (keep_events kind events s) d in
      let ban = abuse_ban p kind now d.config events in
      elim (Bool-cases (leb (threshold d.config kind).0 (length events))) [
        | inl y ↦ rw (y, add_event) (insert_ban_locked-BansInv ban d' h)
        | inr y ↦ rw (y, add_event) h
      ]
