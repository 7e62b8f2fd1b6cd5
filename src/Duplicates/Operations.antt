-- ===== src/Duplicates/Operations.antt =====
-- Every call of the registry keeps the invariant, so it holds after any history.
use monero_solo_stratum.Common.{
  ℕ, ◌≡◌, refl, inl, inr, false, none, some, List, [], ◌∷◌, arith, ◌==◌, Bool-cases, Option-cases,
}
use monero_solo_stratum.Common.Map.{nat_eq, pair_eq, lookup, insert, size, count, lookup-insert}
use monero_solo_stratum.Duplicates.{
  DuplicateRegistry, DuplicateToken, Entry, Bucket, restored, make_registry, bucket_at, is_full,
  add_entry, remove_entry, reserve, release, restore, retain_height, retire_height, release_height,
}
use monero_solo_stratum.Duplicates.Keys.{mem}
use monero_solo_stratum.Duplicates.Invariant.{
  Inv, add_entry-Counted, add_entry-Indexed, add_entry-Bounded, remove_entry-Counted,
  remove_entry-Indexed, remove_entry-Bounded,
}
use monero_solo_stratum.Duplicates.Collected.{collect_bucket-Inv}

-- The invariant does not read the generation counter.
counter-Inv : (r : DuplicateRegistry) (n : ℕ) → Inv r → Inv (record r { next_generation = n })
unfolding bucket_at
counter-Inv r n v = record {
  counted = record {
    uniq = v.counted.uniq;
    sizes = v.counted.sizes;
    positive = v.counted.positive;
  };
  indexed = record { keys = v.indexed.keys; ascending = v.indexed.ascending };
  bounded = record {
    global = v.bounded.global;
    per_source = v.bounded.per_source;
    positive_capacity = v.bounded.positive_capacity;
  };
}

-- Nor the two marks of a bucket.
pub marks-Inv :
    (r : DuplicateRegistry) (s h : ℕ) (b : Bucket)
    → b.keys ≡ (bucket_at r s h).keys
    → Inv r
    → Inv (record r { buckets = insert (s, h) b r.buckets })
unfolding bucket_at
marks-Inv r s h b e v = record {
  counted = record {
    uniq = v.counted.uniq;
    sizes = v.counted.sizes;
    positive = v.counted.positive;
  };
  indexed = record {
    keys = λ t g k. ground (arith, v.indexed.keys t g k, lookup-insert (s, h) (t, g) b r.buckets);
    ascending =
        λ t g. ground (arith, v.indexed.ascending t g, lookup-insert (s, h) (t, g) b r.buckets);
  };
  bounded = record {
    global = v.bounded.global;
    per_source = v.bounded.per_source;
    positive_capacity = v.bounded.positive_capacity;
  };
}

add_entry-Inv :
    (r : DuplicateRegistry) (key : ℕ) (x : Entry)
    → lookup key r.entries ≡ none
    → is_full r x.source_id ≡ false
    → Inv r
    → Inv (add_entry r key x)
add_entry-Inv r key x new room v = record {
  counted = add_entry-Counted r key x new v.counted;
  indexed = add_entry-Indexed r key x new v.indexed;
  bounded = add_entry-Bounded r key x new room v.bounded;
}

remove_entry-Inv :
    (r : DuplicateRegistry) (key : ℕ) (x : Entry)
    → lookup key r.entries ≡ some x
    → Inv r
    → Inv (remove_entry r key x)
remove_entry-Inv r key x old v = record {
  counted = remove_entry-Counted r key x old v.counted;
  indexed = remove_entry-Indexed r key x old v.indexed;
  bounded = remove_entry-Bounded r key x old v.bounded;
}

make_registry-Inv :
    (global source : ℕ) (r : DuplicateRegistry) → make_registry global source ≡ some r → Inv r
unfolding make_registry bucket_at lookup count size mem
make_registry-Inv global source r e = record {
  counted = record {
    uniq = ground arith;
    sizes = λ s. ground arith;
    positive = λ s n h. ground arith;
  };
  indexed = record { keys = λ s h k. ground arith; ascending = λ s h. ground arith };
  bounded = record {
    global = ground arith;
    per_source = λ s. ground arith;
    positive_capacity = ground arith;
  };
}

module _ (r : DuplicateRegistry) (v : Inv r) where
  pub reserve-Inv : (key source height : ℕ) → Inv (reserve r key source height).0
  unfolding reserve
  reserve-Inv key source height = elim (Option-cases (lookup key r.entries)) [
    | inr (x, e) ↦ rw (e, reserve) v
    | inl e ↦ elim (Bool-cases (is_full r source)) [
      | inl f ↦ rw (e, f, reserve) v
      | inr f ↦ rw (e, f, reserve) (counter-Inv _ _ (add_entry-Inv r key _ e f v))
    ]
  ]

  pub release-Inv : (t : DuplicateToken) → Inv (release r t).0
  unfolding release
  release-Inv t = elim (Bool-cases (t.generation == 0)) [
    | inl z ↦ rw (z, release) v
    | inr z ↦ elim (Option-cases (lookup t.key r.entries)) [
      | inl e ↦ rw (z, e, release) v
      | inr (x, e) ↦ elim (Bool-cases (x.generation == t.generation)) [
        | inl g ↦ rw (z, e, g, release) (remove_entry-Inv r t.key x e v)
        | inr g ↦ rw (z, e, g, release) v
      ]
    ]
  ]

  pub retain_height-Inv : (s h : ℕ) → Inv (retain_height r s h)
  unfolding retain_height
  retain_height-Inv s h = marks-Inv r s h _ refl v

  pub retire_height-Inv : (s h : ℕ) → Inv (retire_height r s h).0
  unfolding retire_height
  retire_height-Inv s h = collect_bucket-Inv _ s h (marks-Inv r s h _ refl v)

  pub release_height-Inv : (s h : ℕ) → Inv (release_height r s h).0
  unfolding release_height bucket_at
  release_height-Inv s h = elim (Option-cases (lookup (s, h) r.buckets)) [
    | inl e ↦ rw (e, release_height) v
    | inr (b, e) ↦ elim (Bool-cases (b.external_references == 0)) [
      | inl z ↦ rw (e, z, release_height) v
      | inr z ↦
          rw (e, z, release_height) (collect_bucket-Inv _ s h (marks-Inv r s h _ (ground arith) v))
    ]
  ]

  pub restore-Inv :
      (key source height generation : ℕ) → Inv (restored r (restore r key source height generation))
  unfolding restore
  restore-Inv key source height generation = elim (Bool-cases (generation == 0)) [
    | inl z ↦ rw (z, restore) v
    | inr z ↦ elim (Option-cases (lookup key r.entries)) [
      | inr (x, e) ↦ rw (z, e, restore) v
      | inl e ↦ elim (Bool-cases (is_full r source)) [
        | inl f ↦ rw (z, e, f, restore) v
        | inr f ↦ rw (z, e, f, restore) (counter-Inv _ _ (add_entry-Inv r key _ e f v))
      ]
    ]
  ]

-- A call of a client, and the state after it.
pub data Call : Type 0 where
  reserves : ℕ → ℕ → ℕ → Call
  releases : DuplicateToken → Call
  retains retires drops : ℕ → ℕ → Call
  restores : ℕ → ℕ → ℕ → ℕ → Call

unfoldable pub step : DuplicateRegistry → Call → DuplicateRegistry
step r (reserves key source height) = (reserve r key source height).0
step r (releases t) = (release r t).0
step r (retains s h) = retain_height r s h
step r (retires s h) = (retire_height r s h).0
step r (drops s h) = (release_height r s h).0
step r (restores key s h generation) = restored r (restore r key s h generation)

unfoldable pub run : DuplicateRegistry → List Call → DuplicateRegistry
run r [] = r
run r (c ∷ cs) = run (step r c) cs

pub step-Inv : (r : DuplicateRegistry) (c : Call) → Inv r → Inv (step r c)
unfolding step
step-Inv r (reserves key s h) v = reserve-Inv r v key s h
step-Inv r (releases t) v = release-Inv r v t
step-Inv r (retains s h) v = retain_height-Inv r v s h
step-Inv r (retires s h) v = retire_height-Inv r v s h
step-Inv r (drops s h) v = release_height-Inv r v s h
step-Inv r (restores key s h g) v = restore-Inv r v key s h g

run-Inv : (r : DuplicateRegistry) (cs : List Call) → Inv r → Inv (run r cs)
unfolding run
run-Inv r [] v = v
run-Inv r (c ∷ cs) v = run-Inv (step r c) cs (step-Inv r c v)

-- A registry that the constructor accepts has, after any calls in any order, exact source
-- counters, bucket key sets that hold exactly the entries of their source and height, and at most
-- the global and the per-source number of entries.
pub run-make_registry-Inv :
    (global source : ℕ) (r : DuplicateRegistry) (cs : List Call)
    → make_registry global source ≡ some r
    → Inv (run r cs)
run-make_registry-Inv global source r cs e = run-Inv r cs (make_registry-Inv global source r e)
