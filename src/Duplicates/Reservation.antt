-- ===== src/Duplicates/Reservation.antt =====
-- What `reserve` and `release` answer, and how long a token is good.
use monero_solo_stratum.Common.{
  ℕ, ◌≤◌, ◌≡◌, Bool, true, false, ◌&&◌, ◌||◌, some, arith, ◌==◌, leb, if◌then◌else◌,
}
use monero_solo_stratum.Common.Map.{nat_eq, pair_eq, lookup, size, count, lookup-insert}
use monero_solo_stratum.Duplicates.{
  DuplicateRegistry, DuplicateReserveResult, reserved, duplicate, capacity, empty_token, is_full,
  add_entry, reserve, this_generation,
}
use monero_solo_stratum.Duplicates.Invariant.{from_source, Inv}
use monero_solo_stratum.Duplicates.Collect.{is_some}

-- The verdict of a reservation, by the entries alone.
abbrev pub verdict : DuplicateRegistry → ℕ → ℕ → DuplicateReserveResult
verdict r key source =
    if is_some (lookup key r.entries)
    then duplicate
    else if leb r.global_capacity (size r.entries)
        || leb r.source_capacity (count (from_source source) r.entries)
    then capacity
    else reserved

is_full_lem :
    (r : DuplicateRegistry) (source : ℕ)
    → Inv r
    → is_full r source ≡ (
        leb r.global_capacity (size r.entries)
        || leb r.source_capacity (count (from_source source) r.entries))
unfolding is_full
is_full_lem r source v = ground (arith, v.counted.sizes source, v.bounded.positive_capacity)

abbrev is_reserved : DuplicateReserveResult → Bool
is_reserved reserved = true
is_reserved duplicate = false
is_reserved capacity = false

-- A key that is present is a duplicate; a new key is refused for capacity exactly when the registry
-- or the source is full; otherwise one entry is added, under a nonzero generation that the token
-- names. No other key changes, and a refusal changes nothing.
pub reserve_branches :
    (r : DuplicateRegistry) (key source height : ℕ)
    → Inv r
    → let (q, result, token) = reserve r key source height in
      (result ≡ verdict r key source)
      × (is_reserved result ≡ false → (q ≡ r) × (token ≡ empty_token))
      × (is_reserved result ≡ true → (token.key ≡ key) × (1 ≤ token.generation))
      × ((j : ℕ)
          → lookup j q.entries ≡ (
              if is_reserved result && key == j
              then some
                  (record { source_id = source; height = height; generation = token.generation })
              else lookup j r.entries))
unfolding reserve add_entry
reserve_branches r key source height v = (
  ground (arith, is_full_lem r source v),
  λ h. ground arith,
  λ h. ground arith,
  λ j. ground (
    arith,
    lookup-insert key j
        (record {
          source_id = source;
          height = height;
          generation = this_generation r.next_generation;
        })
        r.entries,
  ),
)
