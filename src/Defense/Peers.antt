-- ===== src/Defense/Peers.antt =====
-- src/stratum/defense.cpp: the peer states and their order of use.
use monero_solo_stratum.Common.{
  ℕ, zero, suc, ◌+◌, ◌*◌, Bool, true, false, not, ◌&&◌, ◌||◌, Option, none, some, List, [], ◌∷◌,
  ◌++◌, ltb, leb, ◌==◌, if◌then◌else◌, length,
}
use monero_solo_stratum.Common.Map.{Map, pair_eq, lookup, insert, erase, size}
use monero_solo_stratum.Defense.{
  PeerAddress, TokenBucket, HammerState, PeerState, DefenseEngine, Double, seconds,
}
use monero_solo_stratum.Defense.Bans.{peer_erase}

-- `kPeerStateTtl`
abbrev pub peer_state_ttl : ℕ
peer_state_ttl = seconds (24 * 3600)

abbrev fresh_hammer : HammerState
fresh_hammer = record {
  bucket = 0;
  attempts = 0;
  consecutive_seconds = 0;
  evidence_start = 0;
  initialized = false;
}

-- `peer_lru_.splice(peer_lru_.end(), peer_lru_, state.lru_position)`
abbrev pub to_back : PeerAddress → List PeerAddress → List PeerAddress
to_back peer lru = peer_erase peer lru ++ (peer ∷ [])

module _ {F : Type 0} where
  unfoldable pub touch_peer_locked :
      PeerAddress → PeerState F → ℕ → DefenseEngine F → DefenseEngine F
  unfolding peer_erase insert
  touch_peer_locked peer state now d = record d {
    peers = insert peer (record state { last_activity = now }) d.peers;
    peer_lru = to_back peer d.peer_lru;
  }

  unfoldable pub erase_peer_locked : PeerAddress → DefenseEngine F → DefenseEngine F
  unfolding peer_erase erase
  erase_peer_locked peer d = record d {
    peer_lru = peer_erase peer d.peer_lru;
    peers = erase peer d.peers;
  }

  abbrev pub is_stale : PeerState F → ℕ → Bool
  is_stale state now = ltb (state.last_activity + peer_state_ttl) now

  -- The first `while` loop, over the front of `peer_lru_`: the states that are left, and the order.
  unfoldable pub drop_stale :
      ℕ
      → List PeerAddress
      → Map PeerAddress (PeerState F)
      → Map PeerAddress (PeerState F) × List PeerAddress
  unfolding lookup erase
  drop_stale now [] peers = (peers, [])
  drop_stale now (front ∷ rest) peers = elim (lookup front peers) [
    | none ↦ drop_stale now rest peers
    | some oldest ↦ elim (not (oldest.candidate_inflight == 0) || not (is_stale oldest now)) [
      | true ↦ (peers, front ∷ rest)
      | false ↦ drop_stale now rest (erase front peers)
    ]
  ]

  -- The second `while` loop with `examined` peers examined. A round shortens the list or examines
  -- one more peer of it, so fuel of the length of the list is enough.
  unfoldable pub make_room :
      ℕ
      → ℕ
      → ℕ
      → List PeerAddress
      → Map PeerAddress (PeerState F)
      → Map PeerAddress (PeerState F) × List PeerAddress
  unfolding lookup erase size
  make_room zero limit examined lru peers = (peers, lru)
  make_room (suc fuel) limit examined [] peers = (peers, [])
  make_room (suc fuel) limit examined (front ∷ rest) peers =
      elim (leb limit (size peers) && ltb examined (length (front ∷ rest))) [
        | false ↦ (peers, front ∷ rest)
        | true ↦ elim (lookup front peers) [
          | none ↦ make_room fuel limit examined rest peers
          | some victim ↦ elim (victim.candidate_inflight == 0) [
            | true ↦ (erase front peers, rest)
            | false ↦ make_room fuel limit (examined + 1) (rest ++ (front ∷ [])) peers
          ]
        ]
      ]

module _ {F : Type 0} ⦃n : Double F⦄ where
  abbrev fresh_bucket : TokenBucket F
  fresh_bucket = record { tokens = n.of_nat 0; updated = 0; initialized = false }

  -- `peers_.try_emplace(peer)`
  abbrev pub fresh_peer : ℕ → PeerState F
  fresh_peer now = record {
    connections = fresh_bucket;
    requests = fresh_bucket;
    submits = fresh_bucket;
    candidates = fresh_bucket;
    connection_hammer = fresh_hammer;
    request_hammer = fresh_hammer;
    submit_hammer = fresh_hammer;
    candidate_hammer = fresh_hammer;
    candidate_inflight = 0;
    evidence = [];
    last_activity = now;
  }

  -- The new state of a peer that has none, where there is room.
  unfoldable pub add_peer :
      PeerAddress → ℕ → DefenseEngine F → DefenseEngine F × Option (PeerState F)
  unfolding touch_peer_locked insert lookup
  add_peer peer now d = elim (lookup peer d.peers) [
    | some state ↦ (touch_peer_locked peer state now d, some (record state { last_activity = now }))
    | none ↦ (
      record d {
        peers = insert peer (fresh_peer now) d.peers;
        peer_lru = d.peer_lru ++ (peer ∷ []);
      },
      some (fresh_peer now),
    )
  ]

  -- What follows when the peer has no state that is still good.
  unfoldable pub create_peer :
      PeerAddress → ℕ → DefenseEngine F → DefenseEngine F × Option (PeerState F)
  unfolding drop_stale make_room add_peer size
  create_peer peer now d =
      let fresh = drop_stale now d.peer_lru d.peers in
      let room = make_room (length fresh.1) d.config.max_peer_states 0 fresh.1 fresh.0 in
      let d' : DefenseEngine F = record d { peers = room.0; peer_lru = room.1 } in
      if leb d.config.max_peer_states (size room.0) then (d', none) else add_peer peer now d'

  -- The pointer to a state is the state; who changes it puts it back under the peer.
  unfoldable pub find_or_create_peer_locked :
      PeerAddress → ℕ → DefenseEngine F → DefenseEngine F × Option (PeerState F)
  unfolding create_peer touch_peer_locked erase_peer_locked lookup
  find_or_create_peer_locked peer now d = elim (lookup peer d.peers) [
    | none ↦ create_peer peer now d
    | some found ↦ elim ((found.candidate_inflight == 0) && is_stale found now) [
      | true ↦ create_peer peer now (erase_peer_locked peer d)
      | false ↦ (touch_peer_locked peer found now d, some (record found { last_activity = now }))
    ]
  ]
