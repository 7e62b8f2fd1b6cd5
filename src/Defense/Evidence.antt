-- ===== src/Defense/Evidence.antt =====
-- src/stratum/defense.cpp: `record`, evidence of abuse in a window of time.
use monero_solo_stratum.Common.{
  ℕ, ◌+◌, true, false, Option, none, some, List, [], ◌∷◌, ◌++◌, ltb, leb, if◌then◌else◌, length,
}
use monero_solo_stratum.Common.Map.{pair_eq, nat_eq, lookup, insert}
use monero_solo_stratum.Defense.{
  PeerAddress, PeerState, BanRecord, DefenseEngine, DefensePolicyConfig, Double, AbuseKind,
  kind_value, seconds, threshold,
}
use monero_solo_stratum.Defense.Bans.{expire_locked, is_banned, insert_ban_locked}
use monero_solo_stratum.Defense.Peers.{find_or_create_peer_locked}
use monero_solo_stratum.Defense.Admission.{Now, put_peer}

-- `while (!events.empty() && events.front() < cutoff)`
unfoldable pub drop_before : ℕ → ℕ → List ℕ → List ℕ
drop_before now window [] = []
drop_before now window (event ∷ rest) =
    let later = drop_before now window rest in
    if ltb (event + window) now then later else event ∷ rest

-- `state->evidence[kind]`
abbrev pub events_of : Option (List ℕ) → List ℕ
events_of none = []
events_of (some events) = events

abbrev pub front_or : List ℕ → ℕ → ℕ
front_or [] t = t
front_or (event ∷ rest) t = event

abbrev pub abuse_ban : PeerAddress → AbuseKind → ℕ → DefensePolicyConfig → List ℕ → BanRecord
abuse_ban peer kind now c events = record {
  peer = peer;
  reason = kind;
  created = now;
  expires = now + seconds c.ban_seconds;
  evidence_start = front_or events now;
  evidence_end = now;
}

module _ {F : Type 0} where
  -- The queue of the kind with the new event, without those that have left the window.
  unfoldable pub next_events : DefensePolicyConfig → AbuseKind → ℕ → PeerState F → List ℕ
  unfolding drop_before threshold lookup
  next_events c kind now state =
      drop_before now (threshold c kind).1 (events_of (lookup (kind_value kind) state.evidence))
      ++ (now ∷ [])

  abbrev pub keep_events : AbuseKind → List ℕ → PeerState F → PeerState F
  keep_events kind events state = record state {
    evidence = insert (kind_value kind) events state.evidence;
  }

  -- The new event, and a ban where the limit is reached.
  unfoldable pub add_event :
      PeerAddress
      → AbuseKind
      → ℕ
      → PeerState F
      → DefenseEngine F
      → DefenseEngine F × Option BanRecord
  unfolding next_events put_peer insert_ban_locked threshold insert
  add_event peer kind now state d =
      let events = next_events d.config kind now state in
      let d' = put_peer peer (keep_events kind events state) d in
      let (d'', inserted) = insert_ban_locked (abuse_ban peer kind now d.config events) d' in
      if leb (threshold d.config kind).0 (length events)
      then (d'', (if inserted then some (abuse_ban peer kind now d.config events) else none))
      else (d', none)

module _ {F : Type 0} ⦃n : Double F⦄ where
  -- `DefenseEngine::record`
  unfoldable pub record_abuse :
      PeerAddress → AbuseKind → Now → DefenseEngine F → DefenseEngine F × Option BanRecord
  unfolding add_event expire_locked is_banned find_or_create_peer_locked
  record_abuse peer kind now d = elim d.config.enabled [
    | false ↦ (d, none)
    | true ↦
        let d' = expire_locked now.wall d in
        elim (is_banned peer d') [
          | true ↦ (d', none)
          | false ↦
              let found = find_or_create_peer_locked peer now.steady d' in
              elim found.1 [
                | none ↦ (found.0, none)
                | some state ↦ add_event peer kind now.wall state found.0
              ]
        ]
  ]
