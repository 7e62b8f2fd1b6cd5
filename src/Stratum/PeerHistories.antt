-- ===== src/Stratum/PeerHistories.antt =====
-- src/stratum/stratum.cpp: connections accepted and removed, in any order.
use monero_solo_stratum.Common.{ℕ, ◌≤◌, ◌≡◌, refl, Bool, none, some, [], arith}
use monero_solo_stratum.Common.Map.{nat_eq, lookup, count, size}
use monero_solo_stratum.Stratum.Peers.{Tables, accept_connection, remove_connection}
use monero_solo_stratum.Stratum.PeerCounts.{PeersInv, accept_connection-PeersInv, removed-PeersInv}

-- The kernel gives a descriptor that is not in use; a connection is removed once.
pub data PeerStep (max_connections max_connections_per_ip : ℕ) : Tables → Tables → Type 0 where
  accepts :
      {t : Tables} (rate_limited : Bool) (descriptor peer : ℕ)
      → lookup descriptor t.open_connections ≡ none
      → PeerStep max_connections max_connections_per_ip t
          (accept_connection max_connections max_connections_per_ip rate_limited descriptor peer t)
  removes :
      {t : Tables} (descriptor peer : ℕ)
      → lookup descriptor t.open_connections ≡ some peer
      → PeerStep max_connections max_connections_per_ip t (remove_connection descriptor peer t)

pub data PeerSteps (max_connections max_connections_per_ip : ℕ) : Tables → Tables → Type 0 where
  none_yet : {t : Tables} → PeerSteps max_connections max_connections_per_ip t t
  followed_by :
      {a b c : Tables}
      → PeerSteps max_connections max_connections_per_ip a b
      → PeerStep max_connections max_connections_per_ip b c
      → PeerSteps max_connections max_connections_per_ip a c

abbrev pub no_connections : Tables
no_connections = record { open_connections = []; peer_connections = [] }

module _ (max_connections max_connections_per_ip : ℕ)
    (some_allowed : 1 ≤ max_connections_per_ip) where
  empty-PeersInv : PeersInv max_connections max_connections_per_ip no_connections
  unfolding lookup count size
  empty-PeersInv = record {
    uniq = tt;
    counts = λ peer. refl;
    fit = omega arith;
    peers_fit = λ peer. omega arith;
  }

  PeerStep-PeersInv :
      (a b : Tables)
      → PeerStep max_connections max_connections_per_ip a b
      → PeersInv max_connections max_connections_per_ip a
      → PeersInv max_connections max_connections_per_ip b
  PeerStep-PeersInv a _ (accepts rate_limited descriptor peer fresh) inv =
      accept_connection-PeersInv max_connections max_connections_per_ip rate_limited descriptor peer
        a some_allowed fresh inv
  PeerStep-PeersInv a _ (removes descriptor peer present) inv =
      removed-PeersInv max_connections max_connections_per_ip descriptor peer a present inv

  -- When a peer may have at least one, after any connections that are accepted and removed: no more
  -- than the configured number is open, no peer has more than its own, and the table of peers has
  -- for each exactly the number of its open connections, without an entry for a peer that has none.
  pub steps-PeersInv :
      (t : Tables)
      → PeerSteps max_connections max_connections_per_ip no_connections t
      → PeersInv max_connections max_connections_per_ip t
  steps-PeersInv _ none_yet = empty-PeersInv
  steps-PeersInv c (followed_by {b = b} steps step) =
      PeerStep-PeersInv b c step (steps-PeersInv b steps)
