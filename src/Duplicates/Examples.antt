-- ===== src/Duplicates/Examples.antt =====
-- Runs of the registry on a small configuration, and its theorems at them.
use monero_solo_stratum.Common.{◌≡◌, refl, false, none, some, List, [], ◌∷◌, arith}
use monero_solo_stratum.Common.Map.{nat_eq, pair_eq, lookup, insert, size}
use monero_solo_stratum.Duplicates.{
  DuplicateRegistry, DuplicateToken, reserved, duplicate, capacity, make_registry, reserve, release,
  retire_height, release_height, retain_height, collect_bucket, bucket_at, is_full, set_insert,
  add_entry,
}
use monero_solo_stratum.Duplicates.Invariant.{Inv}
use monero_solo_stratum.Duplicates.Operations.{
  Call, reserves, retains, retires, run, step, run-make_registry-Inv,
}
use monero_solo_stratum.Duplicates.Reservation.{verdict, reserve_branches}
use monero_solo_stratum.Duplicates.Retirement.{lookup-retire_height, lookup-release_height}
use monero_solo_stratum.Duplicates.Tokens.{release_once}

-- Room for four entries, two for each source.
abbrev fresh : DuplicateRegistry
fresh = record {
  global_capacity = 4;
  source_capacity = 2;
  entries = [];
  source_sizes = [];
  buckets = [];
  next_generation = 1;
}

fresh_made : make_registry 4 2 ≡ some fresh
unfolding make_registry
fresh_made = refl

-- Source 1 holds two entries at height 100, which two jobs refer to.
abbrev calls : List Call
calls = retains 1 100 ∷ retains 1 100 ∷ reserves 9 1 100 ∷ reserves 7 1 100 ∷ reserves 8 2 100 ∷ []

abbrev busy : DuplicateRegistry
busy = run fresh calls

busy_answers :
    ((reserve busy 7 1 100).1 ≡ duplicate)
    × ((reserve busy 5 1 101).1 ≡ capacity)
    × ((reserve busy 5 2 101).1 ≡ reserved)
unfolding run step reserve retain_height add_entry lookup insert size is_full set_insert
busy_answers = (refl, refl, refl)

busy_valid : Inv busy
busy_valid = run-make_registry-Inv 4 2 fresh calls fresh_made

run-make_registry-Inv_example : Inv busy
run-make_registry-Inv_example = run-make_registry-Inv 4 2 fresh calls fresh_made

reserve_branches_example : (reserve busy 5 2 101).1 ≡ verdict busy 5 2
reserve_branches_example = (reserve_branches busy 5 2 101 busy_valid).0

lookup-retire_height_example :
    lookup 7 (retire_height busy 1 100).0.entries
    ≡ some (record { source_id = 1; height = 100; generation = 2 })
unfolding run step reserve retain_height add_entry lookup insert size is_full set_insert bucket_at
lookup-retire_height_example = lookup-retire_height busy 1 100 busy_valid 7

-- One job refers to the retired height.
abbrev ending : DuplicateRegistry
ending =
    run fresh
      (retains 1 100 ∷ reserves 9 1 100 ∷ reserves 7 1 100 ∷ reserves 8 2 100 ∷ retires 1 100 ∷ [])

ending_valid : Inv ending
ending_valid = run-make_registry-Inv 4 2 fresh _ fresh_made

lookup-release_height_example : lookup 7 (release_height ending 1 100).0.entries ≡ none
unfolding run step reserve retain_height retire_height collect_bucket add_entry lookup insert size
    is_full set_insert bucket_at
lookup-release_height_example = lookup-release_height ending 1 100 ending_valid 7

abbrev first_token : DuplicateToken
first_token = record { key = 7; generation = 2 }

release_once_example :
    release (run (release busy first_token).0 (reserves 7 1 100 ∷ [])) first_token
    ≡ (run (release busy first_token).0 (reserves 7 1 100 ∷ []), false)
unfolding run step reserve retain_height add_entry lookup insert size is_full set_insert release
release_once_example =
    release_once busy first_token (reserves 7 1 100 ∷ []) busy_valid (omega arith) refl (tt, tt)
      (omega arith)
