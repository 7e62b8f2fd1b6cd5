-- ===== src/Defense/Bans.antt =====
-- src/stratum/defense.cpp: the ban table and its index by expiry.
use monero_solo_stratum.Common.{
  ℕ, Bool, true, false, Option, none, some, List, [], ◌∷◌, ltb, leb, ◌==◌, if◌then◌else◌, ◌||◌, not,
}
use monero_solo_stratum.Common.Map.{Map, pair_eq, pair_beq, lookup, insert, erase, size}
use monero_solo_stratum.Defense.{PeerAddress, BanRecord, DefenseEngine}

unfoldable pub has_peer : PeerAddress → List PeerAddress → Bool
has_peer p [] = false
has_peer p (q ∷ rest) = pair_beq q p || has_peer p rest

-- `std::set<PeerAddress>`, whose order nothing observes
unfoldable pub peer_insert : PeerAddress → List PeerAddress → List PeerAddress
peer_insert p [] = p ∷ []
peer_insert p (q ∷ rest) = if pair_beq q p then q ∷ rest else q ∷ peer_insert p rest

unfoldable pub peer_erase : PeerAddress → List PeerAddress → List PeerAddress
peer_erase p [] = []
peer_erase p (q ∷ rest) = if pair_beq q p then rest else q ∷ peer_erase p rest

-- `ban_expiries_[expires].insert(peer)`, in the order of the times.
unfoldable pub index_insert :
    ℕ → PeerAddress → List (ℕ × List PeerAddress) → List (ℕ × List PeerAddress)
unfolding peer_insert
index_insert t p [] = (t, p ∷ []) ∷ []
index_insert t p ((u, ps) ∷ rest) =
    if ltb t u
    then (t, p ∷ []) ∷ (u, ps) ∷ rest
    else if t == u
    then (u, peer_insert p ps) ∷ rest
    else (u, ps) ∷ index_insert t p rest

abbrev pub kept_time :
    ℕ → List PeerAddress → List (ℕ × List PeerAddress) → List (ℕ × List PeerAddress)
kept_time u [] rest = rest
kept_time u (p ∷ ps) rest = (u, p ∷ ps) ∷ rest

-- The peer leaves the set of its time, and an empty set leaves the index.
unfoldable pub index_erase :
    ℕ → PeerAddress → List (ℕ × List PeerAddress) → List (ℕ × List PeerAddress)
unfolding peer_erase
index_erase t p [] = []
index_erase t p ((u, ps) ∷ rest) =
    if u == t then kept_time u (peer_erase p ps) rest else (u, ps) ∷ index_erase t p rest

abbrev pub later : Option ℕ → ℕ → Option ℕ
later none expires = some expires
later (some until) expires = if ltb until expires then some expires else some until

unfoldable pub erase_all : List PeerAddress → Map PeerAddress BanRecord → Map PeerAddress BanRecord
unfolding erase
erase_all [] bans = bans
erase_all (p ∷ rest) bans = erase_all rest (erase p bans)

-- The `while` loop over the first times of the index.
unfoldable pub expire_index :
    ℕ
    → List (ℕ × List PeerAddress)
    → Map PeerAddress BanRecord
    → List (ℕ × List PeerAddress) × Map PeerAddress BanRecord
unfolding erase_all
expire_index now [] bans = ([], bans)
expire_index now ((t, ps) ∷ rest) bans =
    let more = expire_index now rest (erase_all ps bans) in
    if leb t now then more else ((t, ps) ∷ rest, bans)

abbrev pub expire_overflow : ℕ → Option ℕ → Option ℕ
expire_overflow now none = none
expire_overflow now (some until) = if leb until now then none else some until

module _ {F : Type 0} where
  unfoldable pub erase_ban_locked : PeerAddress → BanRecord → DefenseEngine F → DefenseEngine F
  unfolding index_erase erase
  erase_ban_locked peer ban d = record d {
    ban_expiries = index_erase ban.expires peer d.ban_expiries;
    bans = erase peer d.bans;
  }

  unfoldable pub without_ban : PeerAddress → DefenseEngine F → DefenseEngine F
  unfolding erase_ban_locked
  without_ban peer d = elim (lookup peer d.bans) [
    | none ↦ d
    | some existing ↦ erase_ban_locked peer existing d
  ]

  -- The ban of the peer is erased first, so that the table accepts the new one.
  unfoldable pub add_ban : BanRecord → DefenseEngine F → DefenseEngine F × Bool
  unfolding index_insert lookup insert
  add_ban ban d = elim (lookup ban.peer d.bans) [
    | some existing ↦ (d, false)
    | none ↦ (
      record d {
        bans = insert ban.peer ban d.bans;
        ban_expiries = index_insert ban.expires ban.peer d.ban_expiries;
      },
      true,
    )
  ]

  unfoldable pub insert_ban_locked : BanRecord → DefenseEngine F → DefenseEngine F × Bool
  unfolding without_ban add_ban
  insert_ban_locked ban d =
      let d' = without_ban ban.peer d in
      if leb d'.config.max_active_bans (size d'.bans)
      then (record d' { ban_overflow_until = later d'.ban_overflow_until ban.expires }, true)
      else add_ban ban d'

  unfoldable pub expire_locked : ℕ → DefenseEngine F → DefenseEngine F
  unfolding expire_index
  expire_locked now d =
      let swept = expire_index now d.ban_expiries d.bans in
      record d {
        ban_overflow_until = expire_overflow now d.ban_overflow_until;
        ban_expiries = swept.0;
        bans = swept.1;
      }

  -- `bans_.contains(peer) || ban_overflow_until_.has_value()`
  unfoldable pub is_banned : PeerAddress → DefenseEngine F → Bool
  is_banned peer d = elim (lookup peer d.bans) [
    | some ban ↦ true
    | none ↦ elim d.ban_overflow_until [ none ↦ false | some until ↦ true ]
  ]

  unfoldable pub banned : PeerAddress → ℕ → DefenseEngine F → DefenseEngine F × Bool
  unfolding expire_locked is_banned
  banned peer now d =
      let d' = expire_locked now d in
      if d.config.enabled then (d', is_banned peer d') else (d, false)

  unfoldable pub restore_ban : BanRecord → ℕ → DefenseEngine F → DefenseEngine F
  unfolding insert_ban_locked
  restore_ban ban now d =
      let d' = (insert_ban_locked ban d).0 in
      if not d.config.enabled || leb ban.expires now then d else d'
