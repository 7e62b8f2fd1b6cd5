-- ===== src/Defense/BanInvariant.antt =====
-- src/stratum/defense.cpp: the ban table and its index agree.
use monero_solo_stratum.Common.{
  ℕ, ◌≤◌, ◌<◌, ◌≡◌, sym, inl, inr, true, none, some, List, ◌==◌, arith, Bool-cases,
}
use monero_solo_stratum.Common.Map.{
  Map, Uniq, pair_eq, pair_beq, pair_beq_iff, lookup, insert, erase, size, lookup-insert,
  lookup-erase, insert-Uniq, erase-Uniq, size-insert_new, size-erase_le,
}
use monero_solo_stratum.Defense.{PeerAddress, BanRecord}
use monero_solo_stratum.Defense.Bans.{index_insert, index_erase}
use monero_solo_stratum.Defense.BanTable.{
  index_has, IsTidy, index_has-index_insert, index_insert-IsTidy, index_has-index_erase,
  index_erase-IsTidy,
}

abbrev pub Index : Type 0
Index = List (ℕ × List PeerAddress)

-- Every ban is listed at its expiry, and what is listed is a ban that expires then.
pub record BanInv (limit : ℕ) (bans : Map PeerAddress BanRecord) (index : Index) : Type 0 where
  pub uniq : Uniq bans
  pub bound : size bans ≤ limit
  pub tidy : IsTidy index
  pub listed :
      (p : PeerAddress) (b : BanRecord)
      → lookup p bans ≡ some b
      → index_has b.expires p index ≡ true
  pub current :
      (t : ℕ) (p : PeerAddress)
      → index_has t p index ≡ true
      → (b : BanRecord) × (lookup p bans ≡ some b) × (b.expires ≡ t)

module _ (limit : ℕ) (bans : Map PeerAddress BanRecord) (index : Index) where
  pub erase-BanInv :
      (p : PeerAddress) (b : BanRecord)
      → lookup p bans ≡ some b
      → BanInv limit bans index
      → BanInv limit (erase p bans) (index_erase b.expires p index)
  erase-BanInv p b e h = record {
    uniq = erase-Uniq p bans h.uniq;
    bound = omega (arith, h.bound, size-erase_le p bans);
    tidy = index_erase-IsTidy b.expires p index h.tidy;
    listed = λ q c l. ground (
      arith,
      lookup-erase p q bans,
      index_has-index_erase b.expires c.expires p q index h.tidy,
      h.listed q c,
    );
    current = λ t q l.
        let had : index_has t q index ≡ true =
          ground (arith, index_has-index_erase b.expires t p q index h.tidy) in
        let (c, lc, ec) = h.current t q had in
        elim (Bool-cases (pair_beq p q)) [
          | inr y ↦ (c, ground (arith, lookup-erase p q bans), ec)
          | inl y ↦
              let same : lookup p bans ≡ some c = rw ((pair_beq_iff p q).0 y) lc in
              absurd
                (ground (arith, same, e, ec, index_has-index_erase b.expires t p q index h.tidy))
        ];
  }

  pub insert-BanInv :
      (b : BanRecord)
      → lookup b.peer bans ≡ none
      → size bans < limit
      → BanInv limit bans index
      → BanInv limit (insert b.peer b bans) (index_insert b.expires b.peer index)
  insert-BanInv b e room h = record {
    uniq = insert-Uniq b.peer b bans h.uniq;
    bound = omega (arith, room, size-insert_new b.peer b bans e);
    tidy = index_insert-IsTidy b.expires b.peer index h.tidy;
    listed = λ q c l. ground (
      arith,
      lookup-insert b.peer q b bans,
      index_has-index_insert b.expires c.expires b.peer q index,
      h.listed q c,
    );
    current = λ t q l.
        let u = index_has-index_insert b.expires t b.peer q index in
        let v = lookup-insert b.peer q b bans in
        elim (Bool-cases (pair_beq b.peer q)) [
          | inr y ↦
              let had : index_has t q index ≡ true = ground (arith, u) in
              let (c, lc, ec) = h.current t q had in (c, ground (arith, v), ec)
          | inl y ↦ elim (Bool-cases (b.expires == t)) [
            | inl z ↦ (b, ground (arith, v), ground arith)
            | inr z ↦
                let had : index_has t q index ≡ true = ground (arith, u) in
                let (c, lc, ec) = h.current t q had in
                let free : lookup q bans ≡ none = rw (sym ((pair_beq_iff b.peer q).0 y)) e in
                absurd (ground (arith, lc, free))
          ]
        ];
  }
