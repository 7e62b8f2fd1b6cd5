-- ===== src/Duplicates.antt =====
-- src/stratum/duplicate_registry.cpp and include/monero_solo/duplicate_registry.hpp: the registry
-- of share reservations. A 48-byte key is its big-endian value, whose order is the order of the
-- byte arrays. Allocation failures, and the catch blocks that undo them, are not modelled.
pub mod Keys
pub mod Counts
pub mod Invariant
pub mod Collect
pub mod Collected
pub mod Operations
pub mod Reservation
pub mod Retirement
pub mod Tokens
mod Examples
use monero_solo_stratum.Common.{
  ℕ, ◌+◌, ◌-◌, ◌%◌, max, Bool, true, false, not, ◌&&◌, ◌||◌, Option, none, some, List, [], ◌∷◌,
  ◌++◌, ltb, leb, ◌==◌, if◌then◌else◌,
}
use monero_solo_stratum.Common.Map.{Map, nat_eq, pair_eq, lookup, insert, erase, size}
use monero_solo_stratum.Common.Word.{u64_mod}

pub record DuplicateToken : Type 0 where
  pub key : ℕ
  pub generation : ℕ

-- `token = {}`
abbrev pub empty_token : DuplicateToken
empty_token = record { key = 0; generation = 0 }

pub data DuplicateReserveResult : Type 0 where
  reserved duplicate capacity : DuplicateReserveResult

pub record Entry : Type 0 where
  pub source_id : ℕ
  pub height : ℕ
  pub generation : ℕ

pub record Bucket : Type 0 where
  pub external_references : ℕ
  pub retired : Bool
  -- a `std::set`, in ascending order
  pub keys : List ℕ

abbrev pub empty_bucket : Bucket
empty_bucket = record { external_references = 0; retired = false; keys = [] }

pub record DuplicateRegistry : Type 0 where
  pub global_capacity : ℕ
  pub source_capacity : ℕ
  pub entries : Map ℕ Entry
  pub source_sizes : Map ℕ ℕ
  pub buckets : Map (ℕ × ℕ) Bucket
  pub next_generation : ℕ

-- The constructor; `none` is `std::invalid_argument`.
unfoldable pub make_registry : ℕ → ℕ → Option DuplicateRegistry
make_registry global source =
    if global == 0 || source == 0 || ltb global source
    then none
    else some (record {
      global_capacity = global;
      source_capacity = source;
      entries = [];
      source_sizes = [];
      buckets = [];
      next_generation = 1;
    })

-- `std::set::insert` and `std::set::erase`
unfoldable pub set_insert : ℕ → List ℕ → List ℕ
set_insert k [] = k ∷ []
set_insert k (x ∷ xs) =
    if ltb k x then k ∷ x ∷ xs else if x == k then x ∷ xs else x ∷ set_insert k xs

unfoldable pub set_erase : ℕ → List ℕ → List ℕ
set_erase k [] = []
set_erase k (x ∷ xs) = if x == k then xs else x ∷ set_erase k xs

abbrev pub is_empty : List ℕ → Bool
is_empty [] = true
is_empty (x ∷ xs) = false

abbrev pub bucket_or : Option Bucket → Bucket
bucket_or none = empty_bucket
bucket_or (some b) = b

abbrev pub count_or : Option ℕ → ℕ
count_or none = 0
count_or (some n) = n

-- `buckets_[{source, height}]`: a missing bucket is made.
unfoldable pub bucket_at : DuplicateRegistry → ℕ → ℕ → Bucket
bucket_at r source height = bucket_or (lookup (source, height) r.buckets)

-- `source_sizes_[source] = count + 1`, from 0 where the source is new
unfoldable pub increment_source : ℕ → Map ℕ ℕ → Map ℕ ℕ
increment_source source sizes = insert source (count_or (lookup source sizes) + 1) sizes

-- `if (found && --count == 0) erase`
unfoldable pub decrement_source : ℕ → Map ℕ ℕ → Map ℕ ℕ
decrement_source source sizes = elim (lookup source sizes) [
  | none ↦ sizes
  | some n ↦ if n == 1 then erase source sizes else insert source (n - 1) sizes
]

-- `entries_.size() >= global_capacity_ || source->second >= source_capacity_`
unfoldable pub is_full : DuplicateRegistry → ℕ → Bool
is_full r source =
    leb r.global_capacity (size r.entries)
    || elim (lookup source r.source_sizes) [ none ↦ false | some n ↦ leb r.source_capacity n ]

-- The part that `reserve` and `restore` share: an entry, its source's count, its bucket's key.
unfoldable pub add_entry : DuplicateRegistry → ℕ → Entry → DuplicateRegistry
unfolding increment_source bucket_at
add_entry r key entry =
    let bucket = bucket_at r entry.source_id entry.height in
    record r {
      entries = insert key entry r.entries;
      source_sizes = increment_source entry.source_id r.source_sizes;
      buckets =
          insert (entry.source_id, entry.height)
            (record bucket { keys = set_insert key bucket.keys }) r.buckets;
    }

-- The generation handed out, and the counter after it: `if (next == 0) next = 1; next++`.
abbrev pub this_generation : ℕ → ℕ
this_generation n = if n == 0 then 1 else n

abbrev pub after_generation : ℕ → ℕ
after_generation n = (this_generation n + 1) % u64_mod

unfoldable pub reserve :
    DuplicateRegistry → ℕ → ℕ → ℕ → DuplicateRegistry × DuplicateReserveResult × DuplicateToken
reserve r key source height = elim (lookup key r.entries) [
  | some _ ↦ (r, duplicate, empty_token)
  | none ↦
      if is_full r source
      then (r, capacity, empty_token)
      else (let generation = this_generation r.next_generation in
          let entry : Entry = record {
            source_id = source;
            height = height;
            generation = generation;
          } in
          (
            record (add_entry r key entry) { next_generation = after_generation r.next_generation },
            reserved,
            record { key = key; generation = generation },
          ))
]

-- Take a key out of its bucket, and drop a bucket that nothing needs any more.
unfoldable pub forget_key : ℕ → ℕ → ℕ → Map (ℕ × ℕ) Bucket → Map (ℕ × ℕ) Bucket
forget_key key source height buckets = elim (lookup (source, height) buckets) [
  | none ↦ buckets
  | some b ↦
      let rest = set_erase key b.keys in
      if is_empty rest && b.external_references == 0
      then erase (source, height) buckets
      else insert (source, height) (record b { keys = rest }) buckets
]

-- `release` past its guards
unfoldable pub remove_entry : DuplicateRegistry → ℕ → Entry → DuplicateRegistry
unfolding decrement_source forget_key
remove_entry r key entry = record r {
  entries = erase key r.entries;
  source_sizes = decrement_source entry.source_id r.source_sizes;
  buckets = forget_key key entry.source_id entry.height r.buckets;
}

unfoldable pub release : DuplicateRegistry → DuplicateToken → DuplicateRegistry × Bool
release r token = if token.generation == 0 then (r, false) else elim (lookup token.key r.entries) [
  | none ↦ (r, false)
  | some entry ↦
      if entry.generation == token.generation
      then (remove_entry r token.key entry, true)
      else (r, false)
]

unfoldable pub retain_height : DuplicateRegistry → ℕ → ℕ → DuplicateRegistry
unfolding bucket_at
retain_height r source height =
    let bucket = bucket_at r source height in
    record r {
      buckets =
          insert (source, height)
            (record bucket { external_references = (bucket.external_references + 1) % u64_mod })
            r.buckets;
    }

-- One round of the loop of `collect_bucket`: the entry of a key, and the token it gave out.
unfoldable pub collect_key : DuplicateRegistry → ℕ → ℕ → DuplicateRegistry
unfolding decrement_source
collect_key r source key = elim (lookup key r.entries) [
  | none ↦ r
  | some entry ↦ record r {
    entries = erase key r.entries;
    source_sizes = decrement_source source r.source_sizes;
  }
]

abbrev pub token_of : ℕ → Option Entry → List DuplicateToken
token_of key none = []
token_of key (some entry) = record { key = key; generation = entry.generation } ∷ []

-- The loop of `collect_bucket` over the bucket's keys.
unfoldable pub collect_keys :
    DuplicateRegistry → ℕ → List ℕ → DuplicateRegistry × List DuplicateToken
unfolding collect_key
collect_keys r source [] = (r, [])
collect_keys r source (key ∷ keys) =
    let (r', tokens) = collect_keys (collect_key r source key) source keys in
    (r', token_of key (lookup key r.entries) ++ tokens)

unfoldable pub collect_bucket : DuplicateRegistry → ℕ → ℕ → DuplicateRegistry × List DuplicateToken
collect_bucket r source height = elim (lookup (source, height) r.buckets) [
  | none ↦ (r, [])
  | some b ↦
      if not b.retired || not (b.external_references == 0)
      then (r, [])
      else (let (r', tokens) = collect_keys r source b.keys in
          (record r' { buckets = erase (source, height) r'.buckets }, tokens))
]

unfoldable pub retire_height : DuplicateRegistry → ℕ → ℕ → DuplicateRegistry × List DuplicateToken
unfolding bucket_at
retire_height r source height =
    let bucket = bucket_at r source height in
    collect_bucket
      (record r { buckets = insert (source, height) (record bucket { retired = true }) r.buckets })
      source height

unfoldable pub release_height : DuplicateRegistry → ℕ → ℕ → DuplicateRegistry × List DuplicateToken
release_height r source height = elim (lookup (source, height) r.buckets) [
  | none ↦ (r, [])
  | some b ↦
      if b.external_references == 0
      then (r, [])
      else collect_bucket
          (record r {
            buckets =
                insert (source, height)
                  (record b { external_references = b.external_references - 1 }) r.buckets;
          })
          source height
]

pub data RestoreResult : Type 0 where
  done : DuplicateRegistry → RestoreResult
  -- `std::invalid_argument` and `std::runtime_error`
  zero_generation over_capacity : RestoreResult

unfoldable pub restore : DuplicateRegistry → ℕ → ℕ → ℕ → ℕ → RestoreResult
restore r key source height generation =
    if generation == 0 then zero_generation else elim (lookup key r.entries) [
      | some _ ↦ done r
      | none ↦
          if is_full r source
          then over_capacity
          else (let entry : Entry = record {
            source_id = source;
            height = height;
            generation = generation;
          } in
              done (record (add_entry r key entry) {
                next_generation = max r.next_generation ((generation + 1) % u64_mod);
              }))
    ]

-- The registry after `restore`: a throw leaves it as it was.
abbrev pub restored : DuplicateRegistry → RestoreResult → DuplicateRegistry
restored r (done q) = q
restored r zero_generation = r
restored r over_capacity = r

unfoldable pub source_size : DuplicateRegistry → ℕ → ℕ
source_size r source = count_or (lookup source r.source_sizes)
