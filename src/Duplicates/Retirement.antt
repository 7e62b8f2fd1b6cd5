-- ===== src/Duplicates/Retirement.antt =====
-- When a height's reservations go: `retain_height`, `retire_height` and `release_height`.
use monero_solo_stratum.Common.{
  ℕ, ◌-◌, ◌≡◌, refl, inl, inr, true, ◌&&◌, none, some, arith, ◌==◌, if◌then◌else◌, Option-cases,
  Bool-cases, map, All, [],
}
use monero_solo_stratum.Common.Map.{nat_eq, pair_eq, lookup, insert, lookup-insert}
use monero_solo_stratum.Duplicates.{
  DuplicateRegistry, Bucket, bucket_at, retire_height, release_height,
}
use monero_solo_stratum.Duplicates.Invariant.{belongs, Inv}
use monero_solo_stratum.Duplicates.Collect.{lookup-collect_bucket, key_of, IsCurrent}
use monero_solo_stratum.Duplicates.Collected.{tokens-collect_bucket}
use monero_solo_stratum.Duplicates.Operations.{marks-Inv}

module _ (r : DuplicateRegistry) (s h : ℕ) (v : Inv r) where
  -- Retiring a height takes its entries at once if nothing refers to the height, and otherwise
  -- none; entries of other heights and sources stay in either case.
  pub lookup-retire_height :
      (k : ℕ)
      → lookup k (retire_height r s h).0.entries ≡ (
          if (bucket_at r s h).external_references == 0 && belongs s h (lookup k r.entries)
          then none
          else lookup k r.entries)
  unfolding retire_height bucket_at
  lookup-retire_height k =
      let b : Bucket = record (bucket_at r s h) { retired = true } in
      ground (
        arith,
        lookup-collect_bucket (record r { buckets = insert (s, h) b r.buckets }) s h
            (marks-Inv r s h b refl v) k,
        lookup-insert (s, h) (s, h) b r.buckets,
      )

  released :
      (k : ℕ) (b : Bucket)
      → lookup (s, h) r.buckets ≡ some b
      → lookup k (release_height r s h).0.entries ≡ (
          if (bucket_at r s h).retired
            && (bucket_at r s h).external_references == 1
            && belongs s h (lookup k r.entries)
          then none
          else lookup k r.entries)
  unfolding release_height bucket_at
  released k b e =
      let c : Bucket = record b { external_references = b.external_references - 1 } in
      ground (
        arith,
        lookup-collect_bucket (record r { buckets = insert (s, h) c r.buckets }) s h
            (marks-Inv r s h c (ground arith) v) k,
        lookup-insert (s, h) (s, h) c r.buckets,
      )

  -- Dropping a reference takes the entries of a height exactly when the height is retired and the
  -- reference was its last; entries of other heights and sources stay.
  pub lookup-release_height :
      (k : ℕ)
      → lookup k (release_height r s h).0.entries ≡ (
          if (bucket_at r s h).retired
            && (bucket_at r s h).external_references == 1
            && belongs s h (lookup k r.entries)
          then none
          else lookup k r.entries)
  unfolding release_height bucket_at
  lookup-release_height k = elim (Option-cases (lookup (s, h) r.buckets)) [
    | inl e ↦ rw (e, release_height) (ground (arith, e))
    | inr (b, e) ↦ released k b e
  ]

  released_tokens :
      (b : Bucket)
      → lookup (s, h) r.buckets ≡ some b
      → (map key_of (release_height r s h).1 ≡ (
          if (bucket_at r s h).retired && (bucket_at r s h).external_references == 1
          then (bucket_at r s h).keys
          else []))
        × All (IsCurrent r) (release_height r s h).1
  unfolding release_height bucket_at
  released_tokens b e = elim (Bool-cases (b.external_references == 0)) [
    | inl z ↦ rw (e, z, release_height) (ground (arith, e), tt)
    | inr z ↦
        let c : Bucket = record b { external_references = b.external_references - 1 } in
        let q : DuplicateRegistry = record r { buckets = insert (s, h) c r.buckets } in
        let t = tokens-collect_bucket q s h (marks-Inv r s h c (ground arith) v) in
        rw (e, z, release_height)
          (ground (arith, t.0, lookup-insert (s, h) (s, h) c r.buckets), t.1)
  ]

  -- The tokens that dropping a reference returns are the keys of the height in ascending order if
  -- that was the last reference to a retired height, and otherwise there are none; each has the
  -- generation that the registry held for its key.
  pub tokens-release_height :
      (map key_of (release_height r s h).1 ≡ (
        if (bucket_at r s h).retired && (bucket_at r s h).external_references == 1
        then (bucket_at r s h).keys
        else []))
      × All (IsCurrent r) (release_height r s h).1
  unfolding release_height bucket_at
  tokens-release_height = elim (Option-cases (lookup (s, h) r.buckets)) [
    | inl e ↦ rw (e, release_height) (ground (arith, e), tt)
    | inr (b, e) ↦ released_tokens b e
  ]
