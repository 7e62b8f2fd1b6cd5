-- ===== src/Defense/Expiry.antt =====
-- src/stratum/defense.cpp: expiry drops exactly what has expired.
use monero_solo_stratum.Common.{
  ℕ, ◌≤◌, ◌<◌, ◌≡◌, refl, ◌∙◌, inl, inr, Bool, true, false, ◌&&◌, ◌||◌, Option, none, some, List,
  [], ◌∷◌, ltb, leb, if◌then◌else◌, arith, Bool-cases, Option-cases,
}
use monero_solo_stratum.Common.Map.{
  Map, Uniq, pair_eq, lookup, erase, size, lookup-erase, erase-Uniq, size-erase_le,
}
use monero_solo_stratum.Defense.{PeerAddress, BanRecord}
use monero_solo_stratum.Defense.Bans.{has_peer, erase_all, expire_index}
use monero_solo_stratum.Defense.BanTable.{index_has, After, IsTidy, After-not_has, After-IsTidy}
use monero_solo_stratum.Defense.BanInvariant.{Index, BanInv}

lookup-erase_all :
    (q : PeerAddress) (ps : List PeerAddress) (bans : Map PeerAddress BanRecord)
    → lookup q (erase_all ps bans) ≡ (if has_peer q ps then none else lookup q bans)
unfolding erase_all has_peer
lookup-erase_all q [] bans = refl
lookup-erase_all q (p ∷ ps) bans =
    ground (arith, lookup-erase p q bans, lookup-erase_all q ps (erase p bans))

erase_all-Uniq :
    (ps : List PeerAddress) (bans : Map PeerAddress BanRecord)
    → Uniq bans
    → Uniq (erase_all ps bans)
unfolding erase_all
erase_all-Uniq [] bans h = h
erase_all-Uniq (p ∷ ps) bans h = erase_all-Uniq ps (erase p bans) (erase-Uniq p bans h)

size-erase_all :
    (ps : List PeerAddress) (bans : Map PeerAddress BanRecord)
    → size (erase_all ps bans) ≤ size bans
unfolding erase_all
size-erase_all [] bans = omega arith
size-erase_all (p ∷ ps) bans = omega (arith, size-erase_all ps (erase p bans), size-erase_le p bans)

-- The index lists the peer at a time up to now.
is_due : ℕ → PeerAddress → Index → Bool
is_due now p [] = false
is_due now p ((t, ps) ∷ rest) = leb t now && has_peer p ps || is_due now p rest

After-not_due :
    (now t : ℕ) (p : PeerAddress) (index : Index)
    → After t index
    → now < t
    → is_due now p index ≡ false
unfolding is_due
After-not_due now t p [] a h = refl
After-not_due now t p ((u, ps) ∷ rest) a h = ground (arith, After-not_due now u p rest a.2)

lookup-expire_index :
    (now : ℕ) (q : PeerAddress) (index : Index) (bans : Map PeerAddress BanRecord)
    → IsTidy index
    → lookup q (expire_index now index bans).1
      ≡ (if is_due now q index then none else lookup q bans)
unfolding expire_index is_due
lookup-expire_index now q [] bans h = refl
lookup-expire_index now q ((t, ps) ∷ rest) bans h = ground (
  arith,
  lookup-expire_index now q rest (erase_all ps bans) (After-IsTidy t rest h.1),
  lookup-erase_all q ps bans,
  After-not_due now t q rest h.1,
)

index_has-expire_index :
    (now t : ℕ) (q : PeerAddress) (index : Index) (bans : Map PeerAddress BanRecord)
    → IsTidy index
    → index_has t q (expire_index now index bans).0 ≡ (ltb now t && index_has t q index)
unfolding expire_index index_has
index_has-expire_index now t q [] bans h = ground arith
index_has-expire_index now t q ((u, ps) ∷ rest) bans h = ground (
  arith,
  index_has-expire_index now t q rest (erase_all ps bans) (After-IsTidy u rest h.1),
  After-not_has u t q rest h.1,
)

expire_index-IsTidy :
    (now : ℕ) (index : Index) (bans : Map PeerAddress BanRecord)
    → IsTidy index
    → IsTidy (expire_index now index bans).0
unfolding expire_index
expire_index-IsTidy now [] bans h = tt
expire_index-IsTidy now ((u, ps) ∷ rest) bans h =
    ground (arith, expire_index-IsTidy now rest (erase_all ps bans) (After-IsTidy u rest h.1))

expire_index-Uniq :
    (now : ℕ) (index : Index) (bans : Map PeerAddress BanRecord)
    → Uniq bans
    → Uniq (expire_index now index bans).1 × (size (expire_index now index bans).1 ≤ size bans)
unfolding expire_index
expire_index-Uniq now [] bans h = (h, omega arith)
expire_index-Uniq now ((u, ps) ∷ rest) bans h = ground (
  arith,
  expire_index-Uniq now rest (erase_all ps bans) (erase_all-Uniq ps bans h),
  size-erase_all ps bans,
)

due_listed :
    (now : ℕ) (q : PeerAddress) (index : Index)
    → is_due now q index ≡ true
    → (t : ℕ) × (t ≤ now) × (index_has t q index ≡ true)
unfolding is_due index_has
due_listed now q [] h = absurd (ground arith)
due_listed now q ((u, ps) ∷ rest) h = elim (Bool-cases (leb u now && has_peer q ps)) [
  | inl y ↦ (u, ground arith, ground arith)
  | inr y ↦ let (t, l, e) = due_listed now q rest (ground arith) in (t, l, ground arith)
]

listed_due :
    (now t : ℕ) (q : PeerAddress) (index : Index)
    → index_has t q index ≡ true
    → t ≤ now
    → is_due now q index ≡ true
unfolding is_due index_has
listed_due now t q [] h l = absurd (ground arith)
listed_due now t q ((u, ps) ∷ rest) h l = ground (arith, listed_due now t q rest)

-- A ban that has expired is none.
abbrev pub unexpired : ℕ → Option BanRecord → Option BanRecord
unexpired now none = none
unexpired now (some b) = if leb b.expires now then none else some b

module _ (limit : ℕ) (bans : Map PeerAddress BanRecord) (index : Index) (now : ℕ) where
  due_unexpired :
      (q : PeerAddress)
      → BanInv limit bans index
      → (if is_due now q index then none else lookup q bans) ≡ unexpired now (lookup q bans)
  due_unexpired q h = elim (Bool-cases (is_due now q index)) [
    | inl y ↦
        let (t, l, e) = due_listed now q index y in
        let (b, lb, eb) = h.current t q e in ground (arith, y, lb, eb)
    | inr y ↦ elim (Option-cases (lookup q bans)) [
      | inl e ↦ ground (arith, y, e)
      | inr (b, e) ↦ ground (arith, y, e, h.listed q b e, listed_due now b.expires q index)
    ]
  ]

  pub lookup-expire_index_exact :
      (q : PeerAddress)
      → BanInv limit bans index
      → lookup q (expire_index now index bans).1 ≡ unexpired now (lookup q bans)
  lookup-expire_index_exact q h = lookup-expire_index now q index bans h.tidy ∙ due_unexpired q h

  pub expire_index-BanInv :
      BanInv limit bans index
      → BanInv limit (expire_index now index bans).1 (expire_index now index bans).0
  expire_index-BanInv h = record {
    uniq = (expire_index-Uniq now index bans h.uniq).0;
    bound = omega (arith, h.bound, (expire_index-Uniq now index bans h.uniq).1);
    tidy = expire_index-IsTidy now index bans h.tidy;
    listed = λ q b l. elim (Option-cases (lookup q bans)) [
      | inl e ↦ absurd (ground (arith, lookup-expire_index_exact q h))
      | inr (c, e) ↦ ground (
        arith,
        lookup-expire_index_exact q h,
        index_has-expire_index now b.expires q index bans h.tidy,
        h.listed q c e,
      )
    ];
    current = λ t q l.
        let had : index_has t q index ≡ true =
          ground (arith, index_has-expire_index now t q index bans h.tidy) in
        let (b, lb, eb) = h.current t q had in
        (
          b,
          ground (
            arith,
            lb,
            eb,
            l,
            lookup-expire_index_exact q h,
            index_has-expire_index now t q index bans h.tidy,
          ),
          eb,
        );
  }
