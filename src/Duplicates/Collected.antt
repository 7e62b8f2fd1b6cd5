-- ===== src/Duplicates/Collected.antt =====
-- `collect_bucket` keeps the invariant, and its tokens name what it erased.
use monero_solo_stratum.Common.{ℕ, ◌≡◌, refl, some, [], map, arith, All, if◌then◌else◌}
use monero_solo_stratum.Common.Map.{nat_eq, pair_eq, lookup, erase, lookup-erase}
use monero_solo_stratum.Duplicates.{
  DuplicateRegistry, Bucket, bucket_at, collect_keys, collect_bucket,
}
use monero_solo_stratum.Duplicates.Keys.{mem-nil, Ascending}
use monero_solo_stratum.Duplicates.Invariant.{Counted, Indexed, Bounded, Inv}
use monero_solo_stratum.Duplicates.Collect.{
  Owned, IsCurrent, key_of, collectable, keys-belongs, collect_cases, collect_keys-Counted,
  collect_keys-Bounded, buckets-collect_keys, lookup-collect_keys, collect_keys-IsCurrent,
  keys-collect_keys,
}

module _ (r : DuplicateRegistry) (s h : ℕ) (inv : Inv r) where
  bucket-Owned : (b : Bucket) → lookup (s, h) r.buckets ≡ some b → Owned r s b.keys
  bucket-Owned b e k m = ground (arith, keys-belongs r s h inv b e k)

  bucket-Ascending : (b : Bucket) → lookup (s, h) r.buckets ≡ some b → Ascending b.keys
  unfolding bucket_at
  bucket-Ascending b e = ground (arith, inv.indexed.ascending s h)

  erased-Indexed :
      (b : Bucket)
      → lookup (s, h) r.buckets ≡ some b
      → (q : DuplicateRegistry) → q ≡ (collect_keys r s b.keys).0
      → Indexed (record q { buckets = erase (s, h) q.buckets })
  unfolding bucket_at
  erased-Indexed b e q eq = record {
    keys = λ t g k. ground (
      arith,
      eq,
      inv.indexed.keys t g k,
      keys-belongs r s h inv b e k,
      mem-nil k,
      buckets-collect_keys r s b.keys,
      lookup-erase (s, h) (t, g) r.buckets,
      lookup-collect_keys r s k b.keys,
    );
    ascending = λ t g. ground (
      arith,
      eq,
      inv.indexed.ascending t g,
      buckets-collect_keys r s b.keys,
      lookup-erase (s, h) (t, g) r.buckets,
    );
  }

  pub collect_bucket-Inv : Inv (collect_bucket r s h).0
  collect_bucket-Inv =
      collect_cases r s h inv (λ c. Inv c.0) (λ _. inv)
        λ b e c. record {
          counted =
              let w : Counted (collect_keys r s b.keys).0 =
                collect_keys-Counted r s b.keys (bucket-Owned b e) inv.counted in
              record { uniq = w.uniq; sizes = w.sizes; positive = w.positive };
          indexed = erased-Indexed b e (collect_keys r s b.keys).0 refl;
          bounded =
              let w : Bounded (collect_keys r s b.keys).0 =
                collect_keys-Bounded r s b.keys inv.bounded in
              record {
                global = w.global;
                per_source = w.per_source;
                positive_capacity = w.positive_capacity;
              };
        }

  -- The keys of the tokens are the bucket's keys in ascending order where it is collectable, and
  -- each token has the generation that the registry held.
  pub tokens-collect_bucket :
      (map key_of (collect_bucket r s h).1
        ≡ (if collectable (bucket_at r s h) then (bucket_at r s h).keys else []))
      × All (IsCurrent r) (collect_bucket r s h).1
  unfolding bucket_at
  tokens-collect_bucket =
      collect_cases r s h inv
        (λ c.
          (map key_of c.1 ≡ (if collectable (bucket_at r s h) then (bucket_at r s h).keys else []))
          × All (IsCurrent r) c.1)
        (λ c. (ground arith, tt))
        λ b e c. (
          ground (
            arith,
            keys-collect_keys r s b.keys (bucket-Ascending b e)
                (λ k m. ground (arith, keys-belongs r s h inv b e k)),
          ),
          collect_keys-IsCurrent r s b.keys,
        )
