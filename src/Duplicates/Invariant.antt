-- ===== src/Duplicates/Invariant.antt =====
-- The well-formedness of the registry, and that every operation keeps it.
use monero_solo_stratum.Common.{ℕ, ◌≤◌, ◌≡◌, Bool, false, ◌&&◌, Option, none, some, arith, ◌==◌}
use monero_solo_stratum.Common.Map.{
  Uniq, nat_eq, pair_eq, lookup, size, count, lookup-insert, lookup-erase, insert-Uniq, erase-Uniq,
  count-insert_new, count-erase, size-insert_new, size-erase_le,
}
use monero_solo_stratum.Duplicates.{
  DuplicateRegistry, Entry, bucket_at, count_or, add_entry, remove_entry, set_insert, set_erase,
  is_full,
}
use monero_solo_stratum.Duplicates.Keys.{
  mem, mem-nil, Ascending, mem-set_insert, mem-set_erase, set_insert-Ascending, set_erase-Ascending,
  is_empty-mem,
}
use monero_solo_stratum.Duplicates.Counts.{
  Positive, lookup-increment_source, increment_source-Positive, count-decrement_source,
  decrement_source-Positive,
}

abbrev pub from_source : ℕ → ℕ → Entry → Bool
from_source s k e = e.source_id == s

-- Whether an entry is one of the source and the height.
abbrev pub belongs : ℕ → ℕ → Option Entry → Bool
belongs s h none = false
belongs s h (some e) = e.source_id == s && e.height == h

-- Each source's counter is the number of its entries.
pub record Counted (r : DuplicateRegistry) : Type 0 where
  pub uniq : Uniq r.entries
  pub sizes : (s : ℕ) → count_or (lookup s r.source_sizes) ≡ count (from_source s) r.entries
  pub positive : Positive r.source_sizes

-- Each bucket's keys are the entries of its source and height, in ascending order.
pub record Indexed (r : DuplicateRegistry) : Type 0 where
  pub keys : (s h k : ℕ) → mem k (bucket_at r s h).keys ≡ belongs s h (lookup k r.entries)
  pub ascending : (s h : ℕ) → Ascending (bucket_at r s h).keys

-- Neither capacity is exceeded.
pub record Bounded (r : DuplicateRegistry) : Type 0 where
  pub global : size r.entries ≤ r.global_capacity
  pub per_source : (s : ℕ) → count_or (lookup s r.source_sizes) ≤ r.source_capacity
  pub positive_capacity : 1 ≤ r.source_capacity

pub record Inv (r : DuplicateRegistry) : Type 0 where
  pub counted : Counted r
  pub indexed : Indexed r
  pub bounded : Bounded r

module _ (r : DuplicateRegistry) (key : ℕ) (entry : Entry) (new : lookup key r.entries ≡ none) where
  pub add_entry-Counted : Counted r → Counted (add_entry r key entry)
  unfolding add_entry
  add_entry-Counted c = record {
    uniq = insert-Uniq key entry r.entries c.uniq;
    sizes = λ s. ground (
      arith,
      c.sizes s,
      lookup-increment_source s entry.source_id r.source_sizes,
      count-insert_new (from_source s) key entry r.entries new,
    );
    positive = increment_source-Positive entry.source_id r.source_sizes c.positive;
  }

  pub add_entry-Indexed : Indexed r → Indexed (add_entry r key entry)
  unfolding add_entry bucket_at
  add_entry-Indexed x = record {
    keys = λ s h k. ground (
      arith,
      x.keys s h k,
      lookup-insert key k entry r.entries,
      mem-set_insert k key (bucket_at r entry.source_id entry.height).keys,
      lookup-insert (entry.source_id, entry.height) (s, h)
          (record (bucket_at r entry.source_id entry.height) {
            keys = set_insert key (bucket_at r entry.source_id entry.height).keys;
          })
          r.buckets,
    );
    ascending = λ s h. ground (
      arith,
      x.ascending s h,
      set_insert-Ascending key (bucket_at r entry.source_id entry.height).keys,
      lookup-insert (entry.source_id, entry.height) (s, h)
          (record (bucket_at r entry.source_id entry.height) {
            keys = set_insert key (bucket_at r entry.source_id entry.height).keys;
          })
          r.buckets,
    );
  }

  pub add_entry-Bounded :
      is_full r entry.source_id ≡ false → Bounded r → Bounded (add_entry r key entry)
  unfolding add_entry is_full
  add_entry-Bounded f b = record {
    global = ground (arith, size-insert_new key entry r.entries new);
    per_source = λ s. ground (
      arith,
      b.per_source s,
      b.positive_capacity,
      lookup-increment_source s entry.source_id r.source_sizes,
    );
    positive_capacity = b.positive_capacity;
  }

module _ (r : DuplicateRegistry) (key : ℕ) (entry : Entry)
    (old : lookup key r.entries ≡ some entry) where
  pub remove_entry-Counted : Counted r → Counted (remove_entry r key entry)
  unfolding remove_entry
  remove_entry-Counted c = record {
    uniq = erase-Uniq key r.entries c.uniq;
    sizes = λ s. ground (
      arith,
      c.sizes s,
      count-decrement_source s entry.source_id r.source_sizes,
      count-erase (from_source s) key entry r.entries c.uniq old,
    );
    positive = decrement_source-Positive entry.source_id r.source_sizes c.positive;
  }

  pub remove_entry-Indexed : Indexed r → Indexed (remove_entry r key entry)
  unfolding remove_entry bucket_at
  remove_entry-Indexed x = record {
    keys = λ s h k. ground (
      arith,
      x.keys s h k,
      x.ascending s h,
      mem-nil k,
      lookup-erase key k r.entries,
      mem-set_erase k key (bucket_at r s h).keys,
      is_empty-mem k (set_erase key (bucket_at r s h).keys),
      lookup-erase (entry.source_id, entry.height) (s, h) r.buckets,
      lookup-insert (entry.source_id, entry.height) (s, h)
          (record (bucket_at r entry.source_id entry.height) {
            keys = set_erase key (bucket_at r entry.source_id entry.height).keys;
          })
          r.buckets,
    );
    ascending = λ s h. ground (
      arith,
      x.ascending s h,
      set_erase-Ascending key (bucket_at r entry.source_id entry.height).keys,
      lookup-erase (entry.source_id, entry.height) (s, h) r.buckets,
      lookup-insert (entry.source_id, entry.height) (s, h)
          (record (bucket_at r entry.source_id entry.height) {
            keys = set_erase key (bucket_at r entry.source_id entry.height).keys;
          })
          r.buckets,
    );
  }

  pub remove_entry-Bounded : Bounded r → Bounded (remove_entry r key entry)
  unfolding remove_entry
  remove_entry-Bounded b = record {
    global = ground (arith, size-erase_le key r.entries);
    per_source = λ s.
        ground (arith, b.per_source s, count-decrement_source s entry.source_id r.source_sizes);
    positive_capacity = b.positive_capacity;
  }
