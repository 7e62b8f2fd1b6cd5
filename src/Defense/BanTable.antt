-- ===== src/Defense/BanTable.antt =====
-- src/stratum/defense.cpp: the index of bans by expiry, read by membership.
use monero_solo_stratum.Common.{
  ℕ, ◌≤◌, ◌<◌, ◌≡◌, refl, Bool, false, not, ◌&&◌, ◌||◌, List, [], ◌∷◌, ◌==◌, arith,
}
use monero_solo_stratum.Common.Map.{pair_beq, pair_beq_iff}
use monero_solo_stratum.Defense.{PeerAddress}
use monero_solo_stratum.Defense.Bans.{
  has_peer, peer_insert, peer_erase, index_insert, index_erase, kept_time,
}

-- No peer stands twice.
abbrev pub NoDup : List PeerAddress → Type 0
NoDup [] = Unit {0}
NoDup (p ∷ rest) = (has_peer p rest ≡ false) × NoDup rest

-- The index lists the peer at the time.
unfoldable pub index_has : ℕ → PeerAddress → List (ℕ × List PeerAddress) → Bool
unfolding has_peer
index_has t p [] = false
index_has t p ((u, ps) ∷ rest) = (u == t) && has_peer p ps || index_has t p rest

-- Sets without repetition at ascending times after `t`.
abbrev pub After : ℕ → List (ℕ × List PeerAddress) → Type 0
After t [] = Unit {0}
After t ((u, ps) ∷ rest) = (t < u) × NoDup ps × After u rest

abbrev pub IsTidy : List (ℕ × List PeerAddress) → Type 0
IsTidy [] = Unit {0}
IsTidy ((t, ps) ∷ rest) = NoDup ps × After t rest

has_peer-peer_insert :
    (p q : PeerAddress) (ps : List PeerAddress)
    → has_peer q (peer_insert p ps) ≡ (pair_beq p q || has_peer q ps)
unfolding has_peer peer_insert
has_peer-peer_insert p q [] = refl
has_peer-peer_insert p q (x ∷ ps) =
    ground
      (arith, pair_beq_iff x p, pair_beq_iff x q, pair_beq_iff p q, has_peer-peer_insert p q ps)

peer_insert-NoDup : (p : PeerAddress) (ps : List PeerAddress) → NoDup ps → NoDup (peer_insert p ps)
unfolding has_peer peer_insert
peer_insert-NoDup p [] h = (refl, tt)
peer_insert-NoDup p (x ∷ ps) h = ground (
  arith,
  pair_beq_iff x p,
  pair_beq_iff p x,
  has_peer-peer_insert p x ps,
  peer_insert-NoDup p ps h.1,
)

has_peer-peer_erase :
    (p q : PeerAddress) (ps : List PeerAddress)
    → NoDup ps
    → has_peer q (peer_erase p ps) ≡ (not (pair_beq p q) && has_peer q ps)
unfolding has_peer peer_erase
has_peer-peer_erase p q [] h = ground arith
has_peer-peer_erase p q (x ∷ ps) h =
    ground
      (arith, pair_beq_iff x p, pair_beq_iff x q, pair_beq_iff p q, has_peer-peer_erase p q ps h.1)

peer_erase-NoDup : (p : PeerAddress) (ps : List PeerAddress) → NoDup ps → NoDup (peer_erase p ps)
unfolding has_peer peer_erase
peer_erase-NoDup p [] h = tt
peer_erase-NoDup p (x ∷ ps) h =
    ground (arith, has_peer-peer_erase p x ps h.1, peer_erase-NoDup p ps h.1)

pub After-not_has :
    (t u : ℕ) (p : PeerAddress) (index : List (ℕ × List PeerAddress))
    → After t index
    → u ≤ t
    → index_has u p index ≡ false
unfolding index_has
After-not_has t u p [] a h = refl
After-not_has t u p ((v, ps) ∷ rest) a h = ground (arith, After-not_has v u p rest)

pub index_has-index_insert :
    (t u : ℕ) (p q : PeerAddress) (index : List (ℕ × List PeerAddress))
    → index_has u q (index_insert t p index) ≡ ((t == u) && pair_beq p q || index_has u q index)
unfolding index_has index_insert has_peer
index_has-index_insert t u p q [] = ground arith
index_has-index_insert t u p q ((v, ps) ∷ rest) =
    ground (arith, has_peer-peer_insert p q ps, index_has-index_insert t u p q rest)

After-index_insert :
    (s t : ℕ) (p : PeerAddress) (index : List (ℕ × List PeerAddress))
    → s < t
    → After s index
    → After s (index_insert t p index)
unfolding index_insert has_peer
After-index_insert s t p [] h a = (h, (refl, tt), tt)
After-index_insert s t p ((v, ps) ∷ rest) h a =
    ground (arith, peer_insert-NoDup p ps, After-index_insert v t p rest)

pub index_insert-IsTidy :
    (t : ℕ) (p : PeerAddress) (index : List (ℕ × List PeerAddress))
    → IsTidy index
    → IsTidy (index_insert t p index)
unfolding index_insert has_peer
index_insert-IsTidy t p [] a = ((refl, tt), tt)
index_insert-IsTidy t p ((v, ps) ∷ rest) a =
    ground (arith, peer_insert-NoDup p ps, After-index_insert v t p rest)

index_has-kept_time :
    (t u : ℕ) (q : PeerAddress) (ps : List PeerAddress) (rest : List (ℕ × List PeerAddress))
    → index_has u q (kept_time t ps rest) ≡ ((t == u) && has_peer q ps || index_has u q rest)
unfolding index_has has_peer
index_has-kept_time t u q [] rest = ground arith
index_has-kept_time t u q (x ∷ ps) rest = refl

pub After-IsTidy : (t : ℕ) (index : List (ℕ × List PeerAddress)) → After t index → IsTidy index
After-IsTidy t [] a = tt
After-IsTidy t (x ∷ rest) a = (a.1, a.2)

pub index_has-index_erase :
    (t u : ℕ) (p q : PeerAddress) (index : List (ℕ × List PeerAddress))
    → IsTidy index
    → index_has u q (index_erase t p index)
      ≡ (not ((t == u) && pair_beq p q) && index_has u q index)
unfolding index_has index_erase
index_has-index_erase t u p q [] a = ground arith
index_has-index_erase t u p q ((v, ps) ∷ rest) a = ground (
  arith,
  index_has-kept_time v u q (peer_erase p ps) rest,
  has_peer-peer_erase p q ps a.0,
  After-not_has v u q rest a.1,
  index_has-index_erase t u p q rest (After-IsTidy v rest a.1),
)

After-mono : (s t : ℕ) (index : List (ℕ × List PeerAddress)) → s < t → After t index → After s index
After-mono s t [] h a = tt
After-mono s t ((v, ps) ∷ rest) h a = (omega (arith, a.0), a.1, a.2)

After-kept_time :
    (s t : ℕ) (ps : List PeerAddress) (rest : List (ℕ × List PeerAddress))
    → s < t
    → NoDup ps
    → After t rest
    → After s (kept_time t ps rest)
After-kept_time s t [] rest h d a = After-mono s t rest h a
After-kept_time s t (x ∷ ps) rest h d a = (h, d, a)

After-index_erase :
    (s t : ℕ) (p : PeerAddress) (index : List (ℕ × List PeerAddress))
    → After s index
    → After s (index_erase t p index)
unfolding index_erase
After-index_erase s t p [] a = tt
After-index_erase s t p ((v, ps) ∷ rest) a = ground (
  arith,
  After-kept_time s v (peer_erase p ps) rest,
  peer_erase-NoDup p ps,
  After-index_erase v t p rest,
)

kept_time-IsTidy :
    (t : ℕ) (ps : List PeerAddress) (rest : List (ℕ × List PeerAddress))
    → NoDup ps
    → After t rest
    → IsTidy (kept_time t ps rest)
kept_time-IsTidy t [] rest d a = After-IsTidy t rest a
kept_time-IsTidy t (x ∷ ps) rest d a = (d, a)

pub index_erase-IsTidy :
    (t : ℕ) (p : PeerAddress) (index : List (ℕ × List PeerAddress))
    → IsTidy index
    → IsTidy (index_erase t p index)
unfolding index_erase
index_erase-IsTidy t p [] a = tt
index_erase-IsTidy t p ((v, ps) ∷ rest) a = ground (
  arith,
  kept_time-IsTidy v (peer_erase p ps) rest,
  peer_erase-NoDup p ps,
  After-index_erase v t p rest,
)
