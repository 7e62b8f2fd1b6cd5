-- ===== src/Duplicates/Collect.antt =====
-- `collect_bucket`: what leaves the registry when a retired bucket loses its last reference.
use monero_solo_stratum.Common.{
  ℕ, ◌≡◌, refl, ◌∙◌, ap, Bool, true, false, not, ◌&&◌, ◌||◌, Bool-cases, Option, none, some, List,
  [], ◌∷◌, map, arith, ◌==◌, if◌then◌else◌, Option-cases, inl, inr, All, All-append, All-mono,
}
use monero_solo_stratum.Common.Map.{
  nat_eq, pair_eq, lookup, erase, lookup-erase, erase-Uniq, count-erase, size-erase_le,
}
use monero_solo_stratum.Duplicates.{
  DuplicateRegistry, DuplicateToken, Entry, Bucket, bucket_at, decrement_source, collect_key,
  collect_keys, collect_bucket, token_of,
}
use monero_solo_stratum.Duplicates.Keys.{mem, Above, Ascending, Above-not_mem, Above-Ascending}
use monero_solo_stratum.Duplicates.Counts.{count-decrement_source, decrement_source-Positive}
use monero_solo_stratum.Duplicates.Invariant.{from_source, belongs, Counted, Bounded, Inv}

abbrev pub of_source : ℕ → Option Entry → Bool
of_source s none = true
of_source s (some e) = e.source_id == s

module _ (r : DuplicateRegistry) (s key : ℕ) where
  lookup-collect_key :
      (j : ℕ)
      → lookup j (collect_key r s key).entries ≡ (if key == j then none else lookup j r.entries)
  unfolding collect_key
  lookup-collect_key j = ground (arith, lookup-erase key j r.entries)

  -- What a round without an entry leaves alone, and a round with one erases.
  collect_key_cases {ℓ} :
      (P : DuplicateRegistry → Type ℓ)
      → (lookup key r.entries ≡ none → P r)
      → ((x : Entry)
          → lookup key r.entries ≡ some x
          → P (record r {
            entries = erase key r.entries;
            source_sizes = decrement_source s r.source_sizes;
          }))
      → P (collect_key r s key)
  unfolding collect_key
  collect_key_cases P absent present = elim (Option-cases (lookup key r.entries)) [
    | inl e ↦ rw (e, collect_key) (absent e)
    | inr (x, e) ↦ rw (e, collect_key) (present x e)
  ]

  collect_key-Counted :
      of_source s (lookup key r.entries) ≡ true → Counted r → Counted (collect_key r s key)
  collect_key-Counted own c =
      collect_key_cases Counted (λ _. c)
        λ x e. record {
          uniq = erase-Uniq key r.entries c.uniq;
          sizes = λ t. ground (
            arith,
            c.sizes t,
            count-decrement_source t s r.source_sizes,
            count-erase (from_source t) key x r.entries c.uniq e,
          );
          positive = decrement_source-Positive s r.source_sizes c.positive;
        }

  collect_key-Bounded : Bounded r → Bounded (collect_key r s key)
  collect_key-Bounded b =
      collect_key_cases Bounded (λ _. b)
        λ x e. record {
          global = ground (arith, size-erase_le key r.entries);
          per_source =
              λ t. ground (arith, b.per_source t, count-decrement_source t s r.source_sizes);
          positive_capacity = b.positive_capacity;
        }

  buckets-collect_key : (collect_key r s key).buckets ≡ r.buckets
  unfolding collect_key
  buckets-collect_key = ground arith

-- Every key of the list that is an entry is one of the source.
abbrev pub Owned : DuplicateRegistry → ℕ → List ℕ → Type 0
Owned r s keys = (k : ℕ) → mem k keys ≡ true → of_source s (lookup k r.entries) ≡ true

pub lookup-collect_keys :
    (r : DuplicateRegistry) (s j : ℕ) (keys : List ℕ)
    → lookup j (collect_keys r s keys).0.entries ≡ (if mem j keys then none else lookup j r.entries)
unfolding collect_keys mem
lookup-collect_keys r s j [] = refl
lookup-collect_keys r s j (key ∷ keys) =
    ground (arith, lookup-collect_keys (collect_key r s key) s j keys, lookup-collect_key r s key j)

Owned-collect_key :
    (r : DuplicateRegistry) (s key : ℕ) (keys : List ℕ)
    → Owned r s (key ∷ keys)
    → Owned (collect_key r s key) s keys
unfolding mem
Owned-collect_key r s key keys o k h = ground (arith, o k, lookup-collect_key r s key k)

pub collect_keys-Counted :
    (r : DuplicateRegistry) (s : ℕ) (keys : List ℕ)
    → Owned r s keys
    → Counted r
    → Counted (collect_keys r s keys).0
unfolding collect_keys mem
collect_keys-Counted r s [] o c = c
collect_keys-Counted r s (key ∷ keys) o c =
    collect_keys-Counted (collect_key r s key) s keys (Owned-collect_key r s key keys o)
      (collect_key-Counted r s key (o key (ground arith)) c)

pub collect_keys-Bounded :
    (r : DuplicateRegistry) (s : ℕ) (keys : List ℕ) → Bounded r → Bounded (collect_keys r s keys).0
unfolding collect_keys
collect_keys-Bounded r s [] b = b
collect_keys-Bounded r s (key ∷ keys) b =
    collect_keys-Bounded (collect_key r s key) s keys (collect_key-Bounded r s key b)

pub buckets-collect_keys :
    (r : DuplicateRegistry) (s : ℕ) (keys : List ℕ) → (collect_keys r s keys).0.buckets ≡ r.buckets
unfolding collect_keys
buckets-collect_keys r s [] = refl
buckets-collect_keys r s (key ∷ keys) =
    buckets-collect_keys (collect_key r s key) s keys ∙ buckets-collect_key r s key

abbrev pub generation_of : Option Entry → Option ℕ
generation_of none = none
generation_of (some e) = some e.generation

-- A token names the generation that the registry holds for its key.
abbrev pub IsCurrent : DuplicateRegistry → DuplicateToken → Type 0
IsCurrent r t = generation_of (lookup t.key r.entries) ≡ some t.generation

pub collect_keys-IsCurrent :
    (r : DuplicateRegistry) (s : ℕ) (keys : List ℕ) → All (IsCurrent r) (collect_keys r s keys).1
unfolding collect_keys
collect_keys-IsCurrent r s [] = tt
collect_keys-IsCurrent r s (key ∷ keys) =
    All-append (IsCurrent r) (token_of key (lookup key r.entries)) _
      (elim (Option-cases (lookup key r.entries)) [
        | inl e ↦ rw (e, token_of) tt
        | inr (x, e) ↦ rw (e, token_of) (ground arith)
      ])
      (All-mono (IsCurrent (collect_key r s key)) (IsCurrent r) _
        (λ t h. ground (arith, lookup-collect_key r s key t.key))
        (collect_keys-IsCurrent (collect_key r s key) s keys))

abbrev pub is_some : Option Entry → Bool
is_some none = false
is_some (some e) = true

abbrev pub key_of : DuplicateToken → ℕ
key_of t = t.key

Present-collect_key :
    (r : DuplicateRegistry) (s key k : ℕ) (keys : List ℕ)
    → Above key keys
    → mem k keys ≡ true
    → is_some (lookup k r.entries) ≡ true
    → is_some (lookup k (collect_key r s key).entries) ≡ true
Present-collect_key r s key k keys a m h =
    ground (arith, lookup-collect_key r s key k, Above-not_mem key k keys a)

pub keys-collect_keys :
    (r : DuplicateRegistry) (s : ℕ) (keys : List ℕ)
    → Ascending keys
    → ((k : ℕ) → mem k keys ≡ true → is_some (lookup k r.entries) ≡ true)
    → map key_of (collect_keys r s keys).1 ≡ keys
unfolding collect_keys mem
keys-collect_keys r s [] a h = refl
keys-collect_keys r s (key ∷ keys) a h = elim (Option-cases (lookup key r.entries)) [
  | inl e ↦ ground (arith, h key)
  | inr (x, e) ↦
      rw (e, token_of)
        (ap (λ (l : List ℕ). key ∷ l)
          (keys-collect_keys (collect_key r s key) s keys (Above-Ascending key keys a)
            (λ k m. Present-collect_key r s key k keys a m (h k (ground arith)))))
]

-- Whether `collect_bucket` takes a bucket: it is retired and nothing refers to it.
abbrev pub collectable : Bucket → Bool
collectable b = b.retired && b.external_references == 0

module _ (r : DuplicateRegistry) (s h : ℕ) (inv : Inv r) where
  pub keys-belongs :
      (b : Bucket)
      → lookup (s, h) r.buckets ≡ some b
      → (k : ℕ) → mem k b.keys ≡ belongs s h (lookup k r.entries)
  unfolding bucket_at
  keys-belongs b e k = ground (arith, inv.indexed.keys s h k)

  pub collect_cases {ℓ} :
      (P : DuplicateRegistry × List DuplicateToken → Type ℓ)
      → (collectable (bucket_at r s h) ≡ false → P (r, []))
      → ((b : Bucket)
          → lookup (s, h) r.buckets ≡ some b
          → collectable b ≡ true
          → P (
              let (r', tokens) = collect_keys r s b.keys in
              (record r' { buckets = erase (s, h) r'.buckets }, tokens)))
      → P (collect_bucket r s h)
  unfolding collect_bucket bucket_at
  collect_cases P keep take = elim (Option-cases (lookup (s, h) r.buckets)) [
    | inl e ↦ rw (e, collect_bucket) (keep (ground arith))
    | inr (b, e) ↦ elim (Bool-cases (not b.retired || not (b.external_references == 0))) [
      | inl c ↦ rw (e, c, collect_bucket) (keep (ground arith))
      | inr c ↦ rw (e, c, collect_bucket) (take b e (ground arith))
    ]
  ]

  -- `collect_bucket` erases the entries of a collectable bucket and no other entry.
  pub lookup-collect_bucket :
      (k : ℕ)
      → lookup k (collect_bucket r s h).0.entries ≡ (
          if collectable (bucket_at r s h) && belongs s h (lookup k r.entries)
          then none
          else lookup k r.entries)
  unfolding bucket_at
  lookup-collect_bucket k =
      collect_cases
        (λ c. lookup k c.0.entries ≡ (
          if collectable (bucket_at r s h) && belongs s h (lookup k r.entries)
          then none
          else lookup k r.entries))
        (λ c. ground arith)
        (λ b e c. ground (arith, lookup-collect_keys r s k b.keys, keys-belongs b e k))
