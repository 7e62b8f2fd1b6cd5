-- ===== src/Defense/MoreCalls.antt =====
-- src/stratum/defense.cpp: the calls that admit nothing keep the engine well-formed.
use monero_solo_stratum.Common.{
  ℕ, ◌-◌, ◌≡◌, refl, inl, inr, Bool, true, false, some, leb, ◌==◌, ◌||◌, not, if◌then◌else◌, length,
  arith, Bool-cases, Option-cases,
}
use monero_solo_stratum.Common.Map.{pair_eq, lookup}
use monero_solo_stratum.Defense.{
  PeerAddress, PeerState, BanRecord, DefenseEngine, Double, AbuseKind, threshold,
}
use monero_solo_stratum.Defense.Bans.{
  insert_ban_locked, expire_locked, is_banned, banned, restore_ban,
}
use monero_solo_stratum.Defense.Peers.{find_or_create_peer_locked, touch_peer_locked}
use monero_solo_stratum.Defense.Admission.{Now, put_peer}
use monero_solo_stratum.Defense.Candidates.{candidate_finished}
use monero_solo_stratum.Defense.Evidence.{
  next_events, keep_events, abuse_ban, add_event, record_abuse,
}
use monero_solo_stratum.Defense.PeerTable.{put-TableInv, lookup-total}
use monero_solo_stratum.Defense.Inflight.{
  Inv, SamePeers-Inv, insert_ban_locked_lem, expire_locked_lem, find_or_create_peer_locked-Found,
}
use monero_solo_stratum.Defense.Calls.{put_peer-Inv}

module _ {F : Type 0} ⦃n : Double F⦄ where
  if-Inv :
      {A : Type 0} (b : Bool) (x y : DefenseEngine F × A)
      → Inv x.0
      → Inv y.0
      → Inv (if b then x else y).0
  if-Inv true x y h k = h
  if-Inv false x y h k = k

  pub candidate_finished-Inv :
      (p : PeerAddress) (now : Now) (d : DefenseEngine F) → Inv d → Inv (candidate_finished p now d)
  unfolding candidate_finished touch_peer_locked
  candidate_finished-Inv p now d h = elim (Bool-cases d.config.enabled) [
    | inr y ↦ rw (y, candidate_finished) h
    | inl y ↦ elim (Option-cases (lookup p d.peers)) [
      | inl e ↦ rw (y, e, candidate_finished) h
      | inr (s, e) ↦ elim (Bool-cases (s.candidate_inflight == 0)) [
        | inl z ↦ rw (y, e, z, candidate_finished) h
        | inr z ↦
            let counted = lookup-total p s d.peers e in
            rw (y, e, z, candidate_finished)
              (record {
                table =
                    put-TableInv d.config d.peers d.candidate_global_inflight p s _
                      (d.candidate_global_inflight - 1) e (ground (arith, h.table.sum, counted))
                      (ground (arith, h.table.per_ip p s e)) h.table;
                global = ground (arith, h.global);
              })
      ]
    ]
  ]

  add_event-Inv :
      (p : PeerAddress) (kind : AbuseKind) (now : ℕ) (s : PeerState F) (d : DefenseEngine F)
      → lookup p d.peers ≡ some s
      → Inv d
      → Inv (add_event p kind now s d).0
  unfolding add_event
  add_event-Inv p kind now s d found h =
      let events = next_events d.config kind now s in
      let d' = put_peer p (keep_events kind events s) d in
      let put : Inv d' = put_peer-Inv p s _ d d found refl h (refl, refl, refl) in
      let ban = abuse_ban p kind now d.config events in
      let banned = SamePeers-Inv d' _ (insert_ban_locked_lem ban d') put in
      elim (Bool-cases (leb (threshold d.config kind).0 (length events))) [
        | inl y ↦ rw (y, add_event) banned
        | inr y ↦ rw (y, add_event) put
      ]

  pub record_abuse-Inv :
      (p : PeerAddress) (kind : AbuseKind) (now : Now) (d : DefenseEngine F)
      → Inv d
      → Inv (record_abuse p kind now d).0
  unfolding record_abuse
  record_abuse-Inv p kind now d h =
      let d' = expire_locked now.wall d in
      let h' = SamePeers-Inv d d' (expire_locked_lem now.wall d) h in
      let found = find_or_create_peer_locked p now.steady d' in
      let (good, c, l) = find_or_create_peer_locked-Found p now.steady d' h' in
      elim (Bool-cases d.config.enabled) [
        | inr y ↦ rw (y, record_abuse) h
        | inl y ↦ elim (Bool-cases (is_banned p d')) [
          | inl z ↦ rw (y, z, record_abuse) h'
          | inr z ↦ elim (Option-cases found.1) [
            | inl e ↦ rw (y, z, e, record_abuse) good
            | inr (s, e) ↦
                rw (y, z, e, record_abuse) (add_event-Inv p kind now.wall s found.0 (l s e) good)
          ]
        ]
      ]

  pub banned-Inv :
      (p : PeerAddress) (now : ℕ) (d : DefenseEngine F) → Inv d → Inv (banned p now d).0
  unfolding banned
  banned-Inv p now d h =
      if-Inv _ _ _ (SamePeers-Inv d (expire_locked now d) (expire_locked_lem now d) h) h

  pub restore_ban-Inv :
      (b : BanRecord) (now : ℕ) (d : DefenseEngine F) → Inv d → Inv (restore_ban b now d)
  unfolding restore_ban
  restore_ban-Inv b now d h = elim (Bool-cases (not d.config.enabled || leb b.expires now)) [
    | inl y ↦ rw (y, restore_ban) h
    | inr y ↦
        rw (y, restore_ban)
          (SamePeers-Inv d (insert_ban_locked b d).0 (insert_ban_locked_lem b d) h)
  ]
