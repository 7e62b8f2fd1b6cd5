-- ===== src/Defense/Calls.antt =====
-- src/stratum/defense.cpp: the engine over any calls of its operations.
use monero_solo_stratum.Common.{
  ℕ, ◌+◌, ◌/◌, ◌^◌, ◌≡◌, refl, sym, ◌∙◌, inl, inr, Bool, true, false, some, ltb, ◌==◌, ◌&&◌, ◌||◌,
  not, arith, Bool-cases, Option-cases,
}
use monero_solo_stratum.Common.Map.{pair_eq, lookup}
use monero_solo_stratum.Defense.{
  PeerAddress, PeerState, DefenseEngine, Double, HammerState, TokenBucket,
}
use monero_solo_stratum.Defense.Bans.{expire_locked, is_banned}
use monero_solo_stratum.Defense.Peers.{find_or_create_peer_locked}
use monero_solo_stratum.Defense.Rates.{ban_hammer, observe_hammer_locked, next_second}
use monero_solo_stratum.Defense.Admission.{
  Now, Lane, Answer, put_peer, admit_peer, admitted, per_minute,
}
use monero_solo_stratum.Defense.Candidates.{
  observe_if, consume_candidate, is_capped, is_none, either, candidate_body,
}
use monero_solo_stratum.Defense.PeerTable.{put-TableInv}
use monero_solo_stratum.Defense.Inflight.{
  Inv, SamePeers, SamePeers-Inv, insert_ban_locked_lem, expire_locked_lem, same_inflight-Inv,
  find_or_create_peer_locked-Found,
}

module _ {F : Type 0} ⦃n : Double F⦄ where
  ban_hammer_lem :
      (p : PeerAddress) (h : HammerState) (wall : ℕ) (d : DefenseEngine F)
      → SamePeers d (ban_hammer p h wall d).0
  unfolding ban_hammer
  ban_hammer_lem p h wall d =
      elim (Bool-cases (ltb h.consecutive_seconds d.config.hammer_sustain_seconds)) [
        | inl y ↦ rw (y, ban_hammer) (refl, refl, refl)
        | inr y ↦ elim (Option-cases (lookup p d.bans)) [
          | inr (b, e) ↦ rw (y, e, ban_hammer) (refl, refl, refl)
          | inl e ↦ rw (y, e, ban_hammer) (insert_ban_locked_lem _ d)
        ]
      ]

  observe_hammer_locked_lem :
      (p : PeerAddress) (h : HammerState) (rate : F) (steady wall : ℕ) (counted : Bool)
      (d : DefenseEngine F)
      → SamePeers d (observe_hammer_locked p h rate steady wall counted d).1
  unfolding observe_hammer_locked
  observe_hammer_locked_lem p h rate steady wall counted d = elim (Bool-cases (not h.initialized)) [
    | inl y ↦ rw (y, observe_hammer_locked) (refl, refl, refl)
    | inr y ↦ elim (Bool-cases (steady / 10 ^ 9 == h.bucket)) [
      | inl z ↦ rw (y, z, observe_hammer_locked) (refl, refl, refl)
      | inr z ↦
          rw (y, z, observe_hammer_locked)
            (ban_hammer_lem p
              (next_second h (steady / 10 ^ 9)
                (n.ceil_count (n.mul rate (n.of_nat d.config.hammer_rate_multiplier))) wall counted)
              wall d)
    ]
  ]

  pub put_peer-Inv :
      (p : PeerAddress) (s t : PeerState F) (d e : DefenseEngine F)
      → lookup p d.peers ≡ some s
      → t.candidate_inflight ≡ s.candidate_inflight
      → Inv d
      → SamePeers d e
      → Inv (put_peer p t e)
  unfolding put_peer
  put_peer-Inv p s t d e found same h (c, q, g) =
      let h' = SamePeers-Inv d e (c, q, g) h in
      record { table = same_inflight-Inv p s t e (rw q found) same h'; global = h'.global }

  pub admit_peer-Inv :
      (lane : Lane F) (rate burst : F) (p : PeerAddress) (now : Now) (s : PeerState F)
      (d : DefenseEngine F)
      → ((h : HammerState) (b : TokenBucket F)
          → (lane.put h b s).candidate_inflight ≡ s.candidate_inflight)
      → lookup p d.peers ≡ some s
      → Inv d
      → Inv (admit_peer lane rate burst p now s d).0
  unfolding admit_peer
  admit_peer-Inv lane rate burst p now s d same found h =
      let seen = observe_hammer_locked p (lane.hammer s) rate now.steady now.wall true d in
      let peers = observe_hammer_locked_lem p (lane.hammer s) rate now.steady now.wall true d in
      elim (Option-cases seen.2) [
        | inl e ↦ rw (e, admit_peer) (put_peer-Inv p s _ d seen.1 found (same _ _) h peers)
        | inr (b, e) ↦ rw (e, admit_peer) (put_peer-Inv p s _ d seen.1 found (same _ _) h peers)
      ]

  pub admitted-Inv :
      (body : PeerState F → DefenseEngine F → Answer F) (p : PeerAddress) (now : Now)
      (d : DefenseEngine F)
      → ((s : PeerState F) (e : DefenseEngine F)
          → lookup p e.peers ≡ some s
          → Inv e
          → Inv (body s e).0)
      → Inv d
      → Inv (admitted body p now d).0
  unfolding admitted
  admitted-Inv body p now d keeps h =
      let d' = expire_locked now.wall d in
      let h' = SamePeers-Inv d d' (expire_locked_lem now.wall d) h in
      let found = find_or_create_peer_locked p now.steady d' in
      let (good, c, l) = find_or_create_peer_locked-Found p now.steady d' h' in
      elim (Bool-cases d.config.enabled) [
        | inr y ↦ rw (y, admitted) h
        | inl y ↦ elim (Bool-cases (is_banned p d')) [
          | inl z ↦ rw (y, z, admitted) h'
          | inr z ↦ elim (Option-cases found.1) [
            | inl e ↦ rw (y, z, e, admitted) good
            | inr (s, e) ↦ rw (y, z, e, admitted) (keeps s found.0 (l s e) good)
          ]
        ]
      ]

  observe_if_lem :
      (test : Bool) (p : PeerAddress) (h : HammerState) (rate : F) (now : Now) (counted : Bool)
      (d : DefenseEngine F)
      → SamePeers d (observe_if test p h rate now counted d).1
  unfolding observe_if
  observe_if_lem false p h rate now counted d = (refl, refl, refl)
  observe_if_lem true p h rate now counted d =
      observe_hammer_locked_lem p h rate now.steady now.wall counted d

  SamePeers-trans : (d e f : DefenseEngine F) → SamePeers d e → SamePeers e f → SamePeers d f
  SamePeers-trans d e f (a, b, c) (a', b', c') = (a' ∙ a, b' ∙ b, c' ∙ c)

  -- One more candidate of a peer, below both caps.
  raise-Inv :
      (p : PeerAddress) (s t : PeerState F) (d e : DefenseEngine F)
      → lookup p d.peers ≡ some s
      → t.candidate_inflight ≡ s.candidate_inflight + 1
      → is_capped d.config d.candidate_global_inflight s.candidate_inflight ≡ false
      → Inv d
      → SamePeers d e
      → Inv
          (record (put_peer p t e) { candidate_global_inflight = e.candidate_global_inflight + 1 })
  unfolding put_peer
  raise-Inv p s t d e found more free h (c, q, g) =
      let h' = SamePeers-Inv d e (c, q, g) h in
      record {
        table =
            put-TableInv e.config e.peers e.candidate_global_inflight p s t
              (e.candidate_global_inflight + 1) (rw q found) (omega (arith, more))
              (rw (more, c) (ground arith)) h'.table;
        global = rw (c, g) (ground arith);
      }

  pub candidate_body-Inv :
      (p : PeerAddress) (now : Now) (s : PeerState F) (d : DefenseEngine F)
      → lookup p d.peers ≡ some s
      → Inv d
      → Inv (candidate_body p now s d).0
  unfolding candidate_body
  candidate_body-Inv p now s d found h =
      let c = d.config in
      let rate : F = per_minute c.candidate_rate_per_minute in
      let limited = not (c.candidate_rate_per_minute == 0) in
      let first = observe_if limited p s.candidate_hammer rate now false d in
      let d1 = first.1 in
      let capped = is_capped c d1.candidate_global_inflight s.candidate_inflight in
      let used = consume_candidate c rate s.candidates now in
      let denied = is_none first.2 && (capped || not used.1) && limited in
      let second = observe_if denied p first.0 rate now true d1 in
      let one = observe_if_lem limited p s.candidate_hammer rate now false d in
      let same =
        SamePeers-trans d d1 second.1 one (observe_if_lem denied p first.0 rate now true d1) in
      elim (Bool-cases (is_none (either first.2 second.2) && not capped && used.1)) [
        | inl y ↦
            let free : capped ≡ false = ground arith in
            rw (y, candidate_body)
              (raise-Inv p s _ d second.1 found refl (rw (sym (one.2)) free) h same)
        | inr y ↦ rw (y, candidate_body) (put_peer-Inv p s _ d second.1 found refl h same)
      ]
