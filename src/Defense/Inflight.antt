-- ===== src/Defense/Inflight.antt =====
-- src/stratum/defense.cpp: the bounds on peer states and on candidates in flight.
use monero_solo_stratum.Common.{
  ℕ, ◌<◌, ◌≡◌, refl, ◌∙◌, inl, inr, Option, some, leb, ◌==◌, ◌&&◌, length, arith, Bool-cases,
  Option-cases,
}
use monero_solo_stratum.Common.Map.{pair_eq, pair_beq_iff, lookup, insert, size, lookup-insert}
use monero_solo_stratum.Defense.{PeerAddress, PeerState, BanRecord, DefenseEngine, Double}
use monero_solo_stratum.Defense.Bans.{without_ban, add_ban, insert_ban_locked, expire_locked}
use monero_solo_stratum.Defense.Peers.{
  drop_stale, make_room, is_stale, touch_peer_locked, erase_peer_locked, add_peer, create_peer,
  find_or_create_peer_locked, fresh_peer,
}
use monero_solo_stratum.Defense.PeerTable.{
  Within, TableInv, erase_idle-TableInv, put-TableInv, new-TableInv, drop_stale-TableInv,
  make_room-TableInv,
}

module _ {F : Type 0} where
  pub record Inv (d : DefenseEngine F) : Type 0 where
    pub table : TableInv d.config d.peers d.candidate_global_inflight
    pub global : Within d.config.candidate_global_inflight d.candidate_global_inflight

  -- The calls on bans leave the peers alone.
  abbrev pub SamePeers : DefenseEngine F → DefenseEngine F → Type 0
  SamePeers d e =
      (e.config ≡ d.config)
      × (e.peers ≡ d.peers)
      × (e.candidate_global_inflight ≡ d.candidate_global_inflight)

  pub SamePeers-Inv : (d e : DefenseEngine F) → SamePeers d e → Inv d → Inv e
  SamePeers-Inv d e (c, p, g) h = record {
    table = rw (c, p, g) h.table;
    global = rw (c, g) h.global;
  }

  without_ban_lem : (p : PeerAddress) (d : DefenseEngine F) → SamePeers d (without_ban p d)
  unfolding without_ban
  without_ban_lem p d = elim (Option-cases (lookup p d.bans)) [
    | inl e ↦ rw (e, without_ban) (refl, refl, refl)
    | inr (b, e) ↦ rw (e, without_ban) (refl, refl, refl)
  ]

  add_ban_lem : (b : BanRecord) (d : DefenseEngine F) → SamePeers d (add_ban b d).0
  unfolding add_ban
  add_ban_lem b d = elim (Option-cases (lookup b.peer d.bans)) [
    | inl e ↦ rw (e, add_ban) (refl, refl, refl)
    | inr (c, e) ↦ rw (e, add_ban) (refl, refl, refl)
  ]

  pub insert_ban_locked_lem :
      (b : BanRecord) (d : DefenseEngine F) → SamePeers d (insert_ban_locked b d).0
  unfolding insert_ban_locked
  insert_ban_locked_lem b d =
      let d' = without_ban b.peer d in
      let (c, p, g) = without_ban_lem b.peer d in
      let (c', p', g') = add_ban_lem b d' in
      elim (Bool-cases (leb d'.config.max_active_bans (size d'.bans))) [
        | inl y ↦ rw (y, insert_ban_locked) (c, p, g)
        | inr y ↦ rw (y, insert_ban_locked) (c' ∙ c, p' ∙ p, g' ∙ g)
      ]

  pub expire_locked_lem : (now : ℕ) (d : DefenseEngine F) → SamePeers d (expire_locked now d)
  unfolding expire_locked
  expire_locked_lem now d = (refl, refl, refl)

  -- Well-formed, with a peer's state where it was found.
  abbrev pub Found : PeerAddress → DefenseEngine F → DefenseEngine F × Option (PeerState F) → Type 0
  Found p d r =
      Inv r.0
      × (r.0.config ≡ d.config)
      × ((s : PeerState F) → r.1 ≡ some s → lookup p r.0.peers ≡ some s)

  -- A state that is put back with the same number in flight.
  pub same_inflight-Inv :
      (p : PeerAddress) (s t : PeerState F) (d : DefenseEngine F)
      → lookup p d.peers ≡ some s
      → t.candidate_inflight ≡ s.candidate_inflight
      → Inv d
      → TableInv d.config (insert p t d.peers) d.candidate_global_inflight
  same_inflight-Inv p s t d e same h =
      put-TableInv d.config d.peers d.candidate_global_inflight p s t d.candidate_global_inflight e
        (omega (arith, same)) (rw same (h.table.per_ip p s e)) h.table

  touch-Found :
      (p : PeerAddress) (s : PeerState F) (now : ℕ) (d : DefenseEngine F)
      → lookup p d.peers ≡ some s
      → Inv d
      → Found p d (touch_peer_locked p s now d, some (record s { last_activity = now }))
  unfolding touch_peer_locked
  touch-Found p s now d e h = (
    record {
      table = same_inflight-Inv p s (record s { last_activity = now }) d e refl h;
      global = h.global;
    },
    refl,
    λ t k.
        ground
          (arith, lookup-insert p p (record s { last_activity = now }) d.peers, pair_beq_iff p p),
  )

module _ {F : Type 0} ⦃n : Double F⦄ where
  add_peer-Found :
      (p : PeerAddress) (now : ℕ) (d : DefenseEngine F)
      → size d.peers < d.config.max_peer_states
      → Inv d
      → Found p d (add_peer p now d)
  unfolding add_peer
  add_peer-Found p now d room h = elim (Option-cases (lookup p d.peers)) [
    | inr (s, e) ↦ rw (e, add_peer) (touch-Found p s now d e h)
    | inl e ↦
        rw (e, add_peer)
          (
            record {
              table =
                  new-TableInv d.config d.peers d.candidate_global_inflight p (fresh_peer now) e
                    refl room h.table;
              global = h.global;
            },
            refl,
            λ t k. ground (arith, lookup-insert p p (fresh_peer now) d.peers, pair_beq_iff p p),
          )
  ]

  create_peer-Found :
      (p : PeerAddress) (now : ℕ) (d : DefenseEngine F) → Inv d → Found p d (create_peer p now d)
  unfolding create_peer
  create_peer-Found p now d h =
      let fresh = drop_stale now d.peer_lru d.peers in
      let room = make_room (length fresh.1) d.config.max_peer_states 0 fresh.1 fresh.0 in
      let d' : DefenseEngine F = record d { peers = room.0; peer_lru = room.1 } in
      let table =
        make_room-TableInv d.config d.candidate_global_inflight (length fresh.1)
          d.config.max_peer_states 0 fresh.1 fresh.0
          (drop_stale-TableInv d.config d.candidate_global_inflight now d.peer_lru d.peers
            h.table) in
      let h' : Inv d' = record { table = table; global = h.global } in
      elim (Bool-cases (leb d.config.max_peer_states (size room.0))) [
        | inl y ↦ rw (y, create_peer) (h', refl, λ t k. absurd (ground arith))
        | inr y ↦ rw (y, create_peer) (add_peer-Found p now d' (ground arith) h')
      ]

  pub find_or_create_peer_locked-Found :
      (p : PeerAddress) (now : ℕ) (d : DefenseEngine F)
      → Inv d
      → Found p d (find_or_create_peer_locked p now d)
  unfolding find_or_create_peer_locked erase_peer_locked
  find_or_create_peer_locked-Found p now d h = elim (Option-cases (lookup p d.peers)) [
    | inl e ↦ rw (e, find_or_create_peer_locked) (create_peer-Found p now d h)
    | inr (s, e) ↦ elim (Bool-cases ((s.candidate_inflight == 0) && is_stale s now)) [
      | inr y ↦ rw (e, y, find_or_create_peer_locked) (touch-Found p s now d e h)
      | inl y ↦
          rw (e, y, find_or_create_peer_locked)
            (create_peer-Found p now (erase_peer_locked p d) (record {
              table =
                  erase_idle-TableInv d.config d.peers d.candidate_global_inflight p s e
                    (ground arith) h.table;
              global = h.global;
            }))
    ]
  ]
