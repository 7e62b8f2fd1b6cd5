-- ===== src/Defense/PeerTable.antt =====
-- src/stratum/defense.cpp: the table of peer states, its bound and its counts in flight.
use monero_solo_stratum.Common.{
  ℕ, zero, suc, ◌+◌, ◌≤◌, ◌<◌, ◌≡◌, refl, ◌⊎◌, inl, inr, none, some, List, [], ◌∷◌, ◌++◌, ltb, leb,
  ◌==◌, ◌&&◌, ◌||◌, not, length, arith, Bool-cases, Option-cases,
}
use monero_solo_stratum.Common.Map.{
  Map, Uniq, pair_eq, pair_beq, pair_beq_iff, lookup, insert, erase, size, lookup-insert,
  lookup-erase, insert-Uniq, erase-Uniq, size-insert_new, size-insert_old, size-erase_le,
  erase_absent,
}
use monero_solo_stratum.Defense.{PeerAddress, PeerState, DefensePolicyConfig}
use monero_solo_stratum.Defense.Peers.{drop_stale, make_room, is_stale}

-- A cap of zero is none.
abbrev pub Within : ℕ → ℕ → Type 0
Within cap n = (cap ≡ 0) ⊎ (n ≤ cap)

module _ {F : Type 0} where
  -- The candidates in flight of all peers.
  unfoldable pub total : Map PeerAddress (PeerState F) → ℕ
  total [] = 0
  total ((p, s) ∷ rest) = s.candidate_inflight + total rest

  total-insert_new :
      (p : PeerAddress) (s : PeerState F) (m : Map PeerAddress (PeerState F))
      → lookup p m ≡ none
      → total (insert p s m) ≡ s.candidate_inflight + total m
  unfolding total lookup insert
  total-insert_new p s [] h = refl
  total-insert_new p s ((q, t) ∷ m) h = ground (arith, total-insert_new p s m)

  total-insert_old :
      (p : PeerAddress) (s t : PeerState F) (m : Map PeerAddress (PeerState F))
      → lookup p m ≡ some t
      → total (insert p s m) + t.candidate_inflight ≡ s.candidate_inflight + total m
  unfolding total lookup insert
  total-insert_old p s t [] h = cc
  total-insert_old p s t ((q, u) ∷ m) h = ground (arith, total-insert_old p s t m)

  pub lookup-total :
      (p : PeerAddress) (s : PeerState F) (m : Map PeerAddress (PeerState F))
      → lookup p m ≡ some s
      → s.candidate_inflight ≤ total m
  unfolding total lookup
  lookup-total p s [] h = absurd (ground arith)
  lookup-total p s ((q, t) ∷ m) h = ground (arith, lookup-total p s m)

  total-erase :
      (p : PeerAddress) (s : PeerState F) (m : Map PeerAddress (PeerState F))
      → Uniq m
      → lookup p m ≡ some s
      → total (erase p m) + s.candidate_inflight ≡ total m
  unfolding total lookup erase
  total-erase p s [] u h = cc
  total-erase p s ((q, t) ∷ m) u h =
      ground (arith, pair_beq_iff q p, erase_absent p m, total-erase p s m u.1)

  -- The states of a table that is well-formed under a configuration, with the number in flight.
  pub record TableInv (c : DefensePolicyConfig) (m : Map PeerAddress (PeerState F)) (n : ℕ)
      : Type 0 where
    pub uniq : Uniq m
    pub bound : size m ≤ c.max_peer_states
    pub sum : total m ≡ n
    pub per_ip :
        (p : PeerAddress) (s : PeerState F)
        → lookup p m ≡ some s
        → Within c.candidate_inflight_per_ip s.candidate_inflight

  module _ (c : DefensePolicyConfig) (m : Map PeerAddress (PeerState F)) (n : ℕ)
      (p : PeerAddress) where
    pub erase_idle-TableInv :
        (s : PeerState F)
        → lookup p m ≡ some s
        → s.candidate_inflight ≡ 0
        → TableInv c m n
        → TableInv c (erase p m) n
    erase_idle-TableInv s e idle h = record {
      uniq = erase-Uniq p m h.uniq;
      bound = omega (arith, h.bound, size-erase_le p m);
      sum = omega (arith, h.sum, idle, total-erase p s m h.uniq e);
      per_ip = λ q t l. h.per_ip q t (ground (arith, lookup-erase p q m));
    }

    -- A state that is put back with another number in flight.
    pub put-TableInv :
        (s t : PeerState F) (n' : ℕ)
        → lookup p m ≡ some s
        → n' + s.candidate_inflight ≡ t.candidate_inflight + n
        → Within c.candidate_inflight_per_ip t.candidate_inflight
        → TableInv c m n
        → TableInv c (insert p t m) n'
    put-TableInv s t n' e balance small h = record {
      uniq = insert-Uniq p t m h.uniq;
      bound = omega (arith, h.bound, size-insert_old p t s m e);
      sum = omega (arith, h.sum, balance, total-insert_old p t s m e);
      per_ip = λ q u l. elim (Bool-cases (pair_beq p q)) [
        | inl y ↦ ground (arith, lookup-insert p q t m)
        | inr y ↦ h.per_ip q u (ground (arith, lookup-insert p q t m))
      ];
    }

    pub new-TableInv :
        (t : PeerState F)
        → lookup p m ≡ none
        → t.candidate_inflight ≡ 0
        → size m < c.max_peer_states
        → TableInv c m n
        → TableInv c (insert p t m) n
    new-TableInv t e idle room h = record {
      uniq = insert-Uniq p t m h.uniq;
      bound = omega (arith, room, size-insert_new p t m e);
      sum = omega (arith, h.sum, idle, total-insert_new p t m e);
      per_ip = λ q u l. elim (Bool-cases (pair_beq p q)) [
        | inl y ↦ ground (arith, lookup-insert p q t m)
        | inr y ↦ h.per_ip q u (ground (arith, lookup-insert p q t m))
      ];
    }

  pub drop_stale-TableInv :
      (c : DefensePolicyConfig) (n now : ℕ) (lru : List PeerAddress)
      (m : Map PeerAddress (PeerState F))
      → TableInv c m n
      → TableInv c (drop_stale now lru m).0 n
  unfolding drop_stale
  drop_stale-TableInv c n now [] m h = h
  drop_stale-TableInv c n now (p ∷ rest) m h = elim (Option-cases (lookup p m)) [
    | inl e ↦ rw (e, drop_stale) (drop_stale-TableInv c n now rest m h)
    | inr (s, e) ↦ elim (Bool-cases (not (s.candidate_inflight == 0) || not (is_stale s now))) [
      | inl y ↦ rw (e, y, drop_stale) h
      | inr y ↦
          rw (e, y, drop_stale)
            (drop_stale-TableInv c n now rest (erase p m)
              (erase_idle-TableInv c m n p s e (ground arith) h))
    ]
  ]

  pub make_room-TableInv :
      (c : DefensePolicyConfig) (n fuel limit examined : ℕ) (lru : List PeerAddress)
      (m : Map PeerAddress (PeerState F))
      → TableInv c m n
      → TableInv c (make_room fuel limit examined lru m).0 n
  unfolding make_room
  make_room-TableInv c n zero limit examined lru m h = h
  make_room-TableInv c n (suc fuel) limit examined [] m h = h
  make_room-TableInv c n (suc fuel) limit examined (p ∷ rest) m h =
      elim (Bool-cases (leb limit (size m) && ltb examined (length (p ∷ rest)))) [
        | inr y ↦ rw (y, make_room) h
        | inl y ↦ elim (Option-cases (lookup p m)) [
          | inl e ↦ rw (y, e, make_room) (make_room-TableInv c n fuel limit examined rest m h)
          | inr (s, e) ↦ elim (Bool-cases (s.candidate_inflight == 0)) [
            | inl z ↦ rw (y, e, z, make_room) (erase_idle-TableInv c m n p s e (ground arith) h)
            | inr z ↦
                rw (y, e, z, make_room)
                  (make_room-TableInv c n fuel limit (examined + 1) (rest ++ (p ∷ [])) m h)
          ]
        ]
      ]
