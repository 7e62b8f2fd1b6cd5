-- ===== src/Stratum/Peers.antt =====
-- src/stratum/stratum.cpp: the tables of open connections and of the peers' counts. A peer's address
-- is a number; the socket calls and the answer of the defense engine are arguments.
use monero_solo_stratum.Common.{
  ℕ, zero, suc, ◌+◌, ◌-◌, Bool, false, ◌||◌, Option, none, some, leb, ◌==◌, if◌then◌else◌,
}
use monero_solo_stratum.Common.Word.{u64_mod}
use monero_solo_stratum.Common.Map.{Map, nat_eq, lookup, insert, erase, size}

pub record Tables : Type 0 where
  -- By its descriptor, the peer of each connection.
  pub open_connections : Map ℕ ℕ
  pub peer_connections : Map ℕ ℕ

abbrev pub counted_of : Option ℕ → ℕ
counted_of none = 0
counted_of (some n) = n

abbrev pub has_reached : ℕ → Option ℕ → Bool
has_reached limit none = false
has_reached limit (some n) = leb limit n

-- A connection that the kernel gave: the caps, and whether the peer's rate forbids it.
unfoldable pub accept_connection : ℕ → ℕ → Bool → ℕ → ℕ → Tables → Tables
accept_connection max_connections max_connections_per_ip rate_limited descriptor peer t =
    let here = counted_of (lookup peer t.peer_connections) in
    if leb max_connections (size t.open_connections)
      || has_reached max_connections_per_ip (lookup peer t.peer_connections)
      || rate_limited
    then t
    else record {
      open_connections = insert descriptor peer t.open_connections;
      peer_connections = insert peer (here + 1) t.peer_connections;
    }

-- An unsigned count below 2^64: one less than 0 is 2^64 - 1.
abbrev pub one_less : ℕ → Option ℕ → Map ℕ ℕ → Map ℕ ℕ
one_less peer none m = m
one_less peer (some zero) m = insert peer (u64_mod - 1) m
one_less peer (some (suc n)) m = if n == 0 then erase peer m else insert peer n m

-- The end of `close_connection`.
unfoldable pub remove_connection : ℕ → ℕ → Tables → Tables
remove_connection descriptor peer t = record {
  open_connections = erase descriptor t.open_connections;
  peer_connections = one_less peer (lookup peer t.peer_connections) t.peer_connections;
}
