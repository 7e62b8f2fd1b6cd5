-- ===== src/Stratum/PeerCounts.antt =====
-- src/stratum/stratum.cpp: the counts of the peers and their open connections.
use monero_solo_stratum.Common.{
  ℕ, zero, suc, ◌+◌, ◌-◌, ◌≤◌, ◌<◌, ◌≡◌, refl, sym, ◌∙◌, Bool, true, false, ◌||◌, Option, none,
  some, leb, ◌==◌, ==_iff, if◌then◌else◌, arith, ap,
}
use monero_solo_stratum.Common.Map.{
  Map, nat_eq, lookup, insert, erase, count, size, one_if, Uniq, lookup-insert, lookup-erase,
  insert-Uniq, erase-Uniq, count-insert_new, count-erase, size-insert_new, size-erase_le,
}
use monero_solo_stratum.Stratum.Peers.{
  Tables, counted_of, has_reached, accept_connection, one_less, remove_connection,
}

-- A peer without connections has no entry.
abbrev pub entry : ℕ → Option ℕ
entry zero = none
entry (suc n) = some (suc n)

abbrev pub of_peer : ℕ → Map ℕ ℕ → ℕ
of_peer peer m = count (λ _ p. p == peer) m

pub record PeersInv (max_connections max_connections_per_ip : ℕ) (t : Tables) : Type 0 where
  pub uniq : Uniq t.open_connections
  pub counts : (peer : ℕ) → lookup peer t.peer_connections ≡ entry (of_peer peer t.open_connections)
  pub fit : size t.open_connections ≤ max_connections
  pub peers_fit : (peer : ℕ) → of_peer peer t.open_connections ≤ max_connections_per_ip

counted_of-entry : (n : ℕ) → counted_of (entry n) ≡ n
counted_of-entry zero = refl
counted_of-entry (suc n) = refl

positive_entry : (n : ℕ) → 1 ≤ n → some n ≡ entry n
positive_entry zero h = absurd (omega arith)
positive_entry (suc n) h = refl

same_peer : (peer q : ℕ) → (peer == q) ≡ true → peer ≡ q
same_peer peer q e = (==_iff peer q).0 e

-- A peer's entry when its connections are one more, or those of another are.
entry_added :
    (b : Bool) (here n m : ℕ) (o : Option ℕ)
    → (b ≡ true → here ≡ n)
    → o ≡ entry n
    → m ≡ one_if b + n
    → (if b then some (here + 1) else o) ≡ entry m
entry_added true here n m o same e k =
    let next : here + 1 ≡ m = omega (arith, same refl) in
    ap some next ∙ positive_entry m (omega arith)
entry_added false here n m o same e k = e ∙ ap entry (omega arith)

entry_removed :
    (b : Bool) (left n m : ℕ) (o : Option ℕ)
    → (b ≡ true → left + 1 ≡ n)
    → o ≡ entry n
    → m + one_if b ≡ n
    → (if b then entry left else o) ≡ entry m
entry_removed true left n m o same e k = ap entry (omega (arith, same refl))
entry_removed false left n m o same e k = e ∙ ap entry (omega arith)

lookup-last :
    (peer q n : ℕ) (m : Map ℕ ℕ) (last : Bool)
    → (n == 0) ≡ last
    → lookup q (if last then erase peer m else insert peer n m)
      ≡ (if peer == q then entry n else lookup q m)
lookup-last peer q n m true e =
    lookup-erase peer q m
    ∙ ap (λ (o : Option ℕ). if peer == q then o else lookup q m) (ap entry (sym ((==_iff n 0).0 e)))
lookup-last peer q n m false e =
    lookup-insert peer q n m
    ∙ ap (λ (o : Option ℕ). if peer == q then o else lookup q m) (positive_entry n (ground arith))

lookup-one_less :
    (peer q n : ℕ) (m : Map ℕ ℕ)
    → 1 ≤ n
    → lookup q (one_less peer (some n) m) ≡ (if peer == q then entry (n - 1) else lookup q m)
lookup-one_less peer q zero m h = absurd (omega arith)
lookup-one_less peer q (suc n) m h =
    lookup-last peer q n m (n == 0) refl
    ∙ ap (λ (k : ℕ). if peer == q then entry k else lookup q m) (omega arith)

module _ (max_connections max_connections_per_ip : ℕ) where
  accepted_peer :
      (descriptor peer : ℕ) (t : Tables) (q : ℕ)
      → lookup descriptor t.open_connections ≡ none
      → of_peer q (insert descriptor peer t.open_connections)
        ≡ one_if (peer == q) + of_peer q t.open_connections
  accepted_peer descriptor peer t q fresh =
      count-insert_new (λ _ p. p == q) descriptor peer t.open_connections fresh

  added-PeersInv :
      (descriptor peer : ℕ) (t : Tables)
      → lookup descriptor t.open_connections ≡ none
      → size t.open_connections < max_connections
      → counted_of (lookup peer t.peer_connections) < max_connections_per_ip
      → PeersInv max_connections max_connections_per_ip t
      → PeersInv max_connections max_connections_per_ip (record {
        open_connections = insert descriptor peer t.open_connections;
        peer_connections =
            insert peer (counted_of (lookup peer t.peer_connections) + 1) t.peer_connections;
      })
  added-PeersInv descriptor peer t fresh room own inv = record {
    uniq = insert-Uniq descriptor peer t.open_connections inv.uniq;
    counts = λ q.
        lookup-insert peer q _ t.peer_connections
        ∙ entry_added (peer == q) here (of_peer q t.open_connections) _
            (lookup q t.peer_connections)
            (λ same.
              own_count ∙ ap (λ (x : ℕ). of_peer x t.open_connections) (same_peer peer q same))
            (inv.counts q) (accepted_peer descriptor peer t q fresh);
    fit = omega (arith, size-insert_new descriptor peer t.open_connections fresh);
    peers_fit = λ q.
        at_most (peer == q) here (of_peer q t.open_connections) _
          (λ same. own_count ∙ ap (λ (x : ℕ). of_peer x t.open_connections) (same_peer peer q same))
          (accepted_peer descriptor peer t q fresh) own (inv.peers_fit q);
  }
    where
      here : ℕ
      here = counted_of (lookup peer t.peer_connections)

      own_count : here ≡ of_peer peer t.open_connections
      own_count = ap counted_of (inv.counts peer) ∙ counted_of-entry _

      at_most :
          (b : Bool) (h n m : ℕ)
          → (b ≡ true → h ≡ n)
          → m ≡ one_if b + n
          → h < max_connections_per_ip
          → n ≤ max_connections_per_ip
          → m ≤ max_connections_per_ip
      at_most true h n m same k low le = omega (arith, same refl)
      at_most false h n m same k low le = omega arith

  pub removed-PeersInv :
      (descriptor peer : ℕ) (t : Tables)
      → lookup descriptor t.open_connections ≡ some peer
      → PeersInv max_connections max_connections_per_ip t
      → PeersInv max_connections max_connections_per_ip (remove_connection descriptor peer t)
  unfolding remove_connection
  removed-PeersInv descriptor peer t present inv = record {
    uniq = erase-Uniq descriptor t.open_connections inv.uniq;
    counts = λ q.
        ap (λ (o : Option ℕ). lookup q (one_less peer o t.peer_connections))
          (inv.counts peer ∙ sym (positive_entry n (omega (arith, gone peer, own_one))))
        ∙ lookup-one_less peer q n t.peer_connections (omega (arith, gone peer, own_one))
        ∙ entry_removed (peer == q) (n - 1) (of_peer q t.open_connections) _
            (lookup q t.peer_connections)
            (λ same.
              one_again ∙ ap (λ (x : ℕ). of_peer x t.open_connections) (same_peer peer q same))
            (inv.counts q) (gone q);
    fit = omega (arith, inv.fit, size-erase_le descriptor t.open_connections);
    peers_fit = λ q. omega (
      arith,
      inv.peers_fit q,
      count-erase (λ _ p. p == q) descriptor peer t.open_connections inv.uniq present,
    );
  }
    where
      n : ℕ
      n = of_peer peer t.open_connections

      own_one : one_if (peer == peer) ≡ 1
      own_one = ground arith

      gone :
          (q : ℕ)
          → of_peer q (erase descriptor t.open_connections) + one_if (peer == q)
            ≡ of_peer q t.open_connections
      gone q = count-erase (λ _ p. p == q) descriptor peer t.open_connections inv.uniq present

      one_again : n - 1 + 1 ≡ n
      one_again = omega (arith, gone peer, own_one)

  below_limit :
      (limit : ℕ) (o : Option ℕ) → 1 ≤ limit → has_reached limit o ≡ false → counted_of o < limit
  below_limit limit none some_allowed h = omega arith
  below_limit limit (some n) some_allowed h = ground arith

  pub accept_connection-PeersInv :
      (rate_limited : Bool) (descriptor peer : ℕ) (t : Tables)
      → 1 ≤ max_connections_per_ip
      → lookup descriptor t.open_connections ≡ none
      → PeersInv max_connections max_connections_per_ip t
      → PeersInv max_connections max_connections_per_ip
          (accept_connection max_connections max_connections_per_ip rate_limited descriptor peer t)
  unfolding accept_connection
  accept_connection-PeersInv rate_limited descriptor peer t some_allowed fresh inv =
      go
        (leb max_connections (size t.open_connections)
          || has_reached max_connections_per_ip (lookup peer t.peer_connections)
          || rate_limited)
        _ refl (λ room own. added-PeersInv descriptor peer t fresh room own inv)
    where
      go :
          (b : Bool) (added : Tables)
          → (leb max_connections (size t.open_connections)
              || has_reached max_connections_per_ip (lookup peer t.peer_connections)
              || rate_limited)
            ≡ b
          → (size t.open_connections < max_connections
              → counted_of (lookup peer t.peer_connections) < max_connections_per_ip
              → PeersInv max_connections max_connections_per_ip added)
          → PeersInv max_connections max_connections_per_ip (if b then t else added)
      go true added e keep = inv
      go false added e keep =
          keep (ground arith)
            (below_limit _ (lookup peer t.peer_connections) some_allowed (ground arith))
