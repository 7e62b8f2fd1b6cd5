-- ===== src/Verifier/SeedCalls.antt =====
-- src/verifier/verifier.cpp: the operations on seeds. Each holds the adapter's lock.
use monero_solo_stratum.Common.{
  ℕ, zero, suc, ◌+◌, ◌-◌, ◌^◌, Bool, true, false, not, ◌&&◌, ◌||◌, Option, none, some, List, [],
  ◌∷◌, ◌++◌, ◌==◌, if◌then◌else◌, length, get_or, get_elem?, ltb,
}
use monero_solo_stratum.Verifier.State.{
  Status, success, not_running, seed_not_found, seed_releasing, seed_not_ready, seed_active,
  invalid_argument, internal_error, is_success, ready, current, is_usable, SeedRecord,
  is_running_state, Native, Verifier, new_seed, find_seed_locked, find_resident_from, erase_seeds,
  put_seed, set_state, seed_snapshot_locked, maybe_begin_seed_release_locked,
}

abbrev pub has_id : ℕ → SeedRecord → Bool
has_id seed_id seed = seed.seed_id == seed_id

abbrev pub is_removed_id : ℕ → SeedRecord → Bool
is_removed_id seed_id seed = seed.seed_id == seed_id && seed.removed

abbrev pub is_removed : SeedRecord → Bool
is_removed seed = seed.removed

-- `std::sort` by the ids.
unfoldable pub insert_by_id : SeedRecord → List SeedRecord → List SeedRecord
insert_by_id s [] = s ∷ []
insert_by_id s (r ∷ rs) = if ltb r.seed_id s.seed_id then r ∷ insert_by_id s rs else s ∷ r ∷ rs

unfoldable pub sort_by_id : List SeedRecord → List SeedRecord
unfolding insert_by_id
sort_by_id [] = []
sort_by_id (s ∷ ss) = insert_by_id s (sort_by_id ss)

abbrev pub any_seed : (SeedRecord → Bool) → List SeedRecord → Bool
any_seed p [] = false
any_seed p (seed ∷ seeds) = p seed || any_seed p seeds

-- A snapshot with its status, as an operation returns it; `none` is a default-initialised one.
abbrev pub Query : Type 0 → Type 0
Query X = Verifier X × Status × Option SeedRecord

module _ {X : Type 0} where
  -- What every operation on a seed starts with.
  unfoldable pub with_seed :
      ℕ → (ℕ → SeedRecord → Verifier X → Verifier X × Status) → Verifier X → Verifier X × Status
  with_seed seed_id body v =
      if not (is_running_state v.lifecycle)
      then (v, not_running)
      else elim (find_seed_locked seed_id v.seeds) [
        | none ↦ (v, seed_not_found)
        | some (place, seed) ↦ body place seed v
      ]

module _ {X : Type 0} ⦃n : Native X⦄ where
  abbrev pub wait_ready_body : ℕ → ℕ → SeedRecord → Verifier X → Verifier X × Status
  wait_ready_body timeout place seed v =
      let (context, status) = n.wait_ready seed.seed_id timeout v.context in
      let seen = seed_snapshot_locked place seed (record v { context = context }) in
      (seen.0, status)

  unfoldable pub wait_seed_ready : ℕ → ℕ → Verifier X → Verifier X × Status
  unfolding with_seed
  wait_seed_ready seed_id timeout v = with_seed seed_id (wait_ready_body timeout) v

  abbrev pub snapshot_body : ℕ → SeedRecord → Verifier X → Verifier X × Status
  snapshot_body place seed v = let seen = seed_snapshot_locked place seed v in (seen.0, seen.1)

  unfoldable pub seed_snapshot : ℕ → Verifier X → Verifier X × Status
  unfolding with_seed
  seed_snapshot seed_id v = with_seed seed_id snapshot_body v

  -- The former current seed, once another or none is current.
  unfoldable pub retire_former : ℕ → Verifier X → Verifier X
  retire_former former v = elim (find_seed_locked former v.seeds) [
    | none ↦ v
    | some (place, seed) ↦
        let seed' = set_state ready seed in
        (maybe_begin_seed_release_locked place seed' (put_seed place seed' v)).0
  ]

  unfoldable pub make_current : ℕ → ℕ → SeedRecord → Verifier X → Verifier X × Status
  unfolding retire_former
  make_current seed_id place seed v =
      let former = v.current_seed_id in
      let (context, status) = n.activate seed_id v.context in
      let v' =
        put_seed place (set_state current seed)
          (record v { context = context; current_seed_id = seed_id }) in
      if not (is_success status)
      then (record v { context = context }, status)
      else if not (former == 0) && not (former == seed_id)
      then (retire_former former v', success)
      else (v', success)

  unfoldable pub activate_body : ℕ → ℕ → SeedRecord → Verifier X → Verifier X × Status
  unfolding make_current
  activate_body seed_id place seed v =
      let seen = seed_snapshot_locked place seed v in
      if seed.release_requested || seed.release_started
      then (v, seed_releasing)
      else if not (is_success seen.1)
      then (seen.0, seen.1)
      else if not (is_usable seen.2.info.state)
      then (seen.0, seed_not_ready)
      else make_current seed_id place seen.2 seen.0

  unfoldable pub activate_seed : ℕ → Verifier X → Verifier X × Status
  unfolding with_seed activate_body
  activate_seed seed_id v = with_seed seed_id (activate_body seed_id) v

  unfoldable pub deactivate_seed : Verifier X → Verifier X × Status
  unfolding retire_former
  deactivate_seed v =
      let former = v.current_seed_id in
      let (context, status) = n.deactivate v.context in
      if not (is_running_state v.lifecycle)
      then (v, not_running)
      else if former == 0
      then (v, success)
      else if not (is_success status)
      then (record v { context = context }, status)
      else (retire_former former (record v { context = context; current_seed_id = 0 }), success)

  abbrev pub retain_body : ℕ → SeedRecord → Verifier X → Verifier X × Status
  retain_body place seed v =
      if seed.release_started
      then (v, seed_releasing)
      else if seed.retained_job_references == 2 ^ 64 - 1
      then (v, internal_error)
      else (
        put_seed place (record seed { retained_job_references = seed.retained_job_references + 1 })
            v,
        success,
      )

  unfoldable pub retain_seed : ℕ → Verifier X → Verifier X × Status
  unfolding with_seed
  retain_seed seed_id v = with_seed seed_id retain_body v

  abbrev pub drop_body : ℕ → SeedRecord → Verifier X → Verifier X × Status
  drop_body place seed v =
      let seed' = record seed { retained_job_references = seed.retained_job_references - 1 } in
      if seed.retained_job_references == 0
      then (v, invalid_argument)
      else maybe_begin_seed_release_locked place seed' (put_seed place seed' v)

  unfoldable pub drop_seed_reference : ℕ → Verifier X → Verifier X × Status
  unfolding with_seed
  drop_seed_reference seed_id v = with_seed seed_id drop_body v

  unfoldable pub request_seed_release : ℕ → Verifier X → Verifier X × Status
  request_seed_release seed_id v =
      if not (is_running_state v.lifecycle)
      then (v, not_running)
      else elim (find_seed_locked seed_id v.seeds) [
        | none ↦
            if any_seed (is_removed_id seed_id) v.seeds
            then (record v { seeds = erase_seeds (is_removed_id seed_id) v.seeds }, success)
            else (v, seed_not_found)
        | some (place, seed) ↦
            let seed' = record seed { release_requested = true } in
            maybe_begin_seed_release_locked place seed' (put_seed place seed' v)
      ]

  -- What `mspv_seed_wait_released` says to a started release.
  abbrev pub end_wait_released : ℕ → Status → Verifier X → Verifier X × Status
  end_wait_released seed_id success v =
      (record v { seeds = erase_seeds (has_id seed_id) v.seeds }, success)
  end_wait_released seed_id seed_not_found v =
      (record v { seeds = erase_seeds (has_id seed_id) v.seeds }, success)
  end_wait_released seed_id status v = (v, status)

  unfoldable pub wait_released_body : ℕ → ℕ → SeedRecord → Verifier X → Verifier X × Status
  wait_released_body timeout place seed v =
      let seed' = record seed { release_requested = true } in
      let (begun, begin_status) =
        maybe_begin_seed_release_locked place seed' (put_seed place seed' v) in
      let now = get_or begun.seeds place seed' in
      let (context, status) = n.wait_released seed.seed_id timeout begun.context in
      if not (is_success begin_status)
      then (begun, begin_status)
      else if seed.seed_id == begun.current_seed_id
      then (begun, seed_active)
      else if not now.release_started
      then (begun, seed_not_ready)
      else end_wait_released seed.seed_id status (record begun { context = context })

  unfoldable pub wait_seed_released : ℕ → ℕ → Verifier X → Verifier X × Status
  unfolding with_seed wait_released_body
  wait_seed_released seed_id timeout v = with_seed seed_id (wait_released_body timeout) v

  abbrev pub query : ℕ → SeedRecord → Verifier X → Query X
  query place seed v = let seen = seed_snapshot_locked place seed v in (seen.0, seen.1, some seen.2)

  -- Where a seed with the hash is resident.
  unfoldable pub prepare_resident : ℕ → SeedRecord → Verifier X → Query X
  prepare_resident place seed v =
      let seed' = record seed { release_requested = false } in
      let seen = seed_snapshot_locked place seed v in
      if seed.release_started
      then (seen.0, seed_releasing, some seen.2)
      else query place seed' (put_seed place seed' v)

  -- The id that the native verifier gives may be that of another record.
  unfoldable pub prepare_new : ℕ → Verifier X → Query X
  prepare_new seed_hash v =
      let place = length v.seeds in
      let (context, status, seed_id) = n.prepare seed_hash v.context in
      let v' = record v { context = context } in
      let added = new_seed seed_hash seed_id in
      let put = record v' { seeds = v.seeds ++ added ∷ [] } in
      if not (is_success status)
      then (v', status, none)
      else elim (find_seed_locked seed_id (v.seeds ++ new_seed seed_hash 0 ∷ [])) [
        | none ↦ (put, success, some added)
        | some (there, existing) ↦
            if there == place then (put, success, some added) else query there existing v'
      ]

  unfoldable pub prepare_seed : ℕ → Verifier X → Query X
  unfolding prepare_resident prepare_new
  prepare_seed seed_hash v =
      let v' = record v { seeds = erase_seeds is_removed v.seeds } in
      if not (is_running_state v.lifecycle)
      then (v, not_running, none)
      else elim (find_resident_from 0 seed_hash v'.seeds) [
        | some (place, seed) ↦ prepare_resident place seed v'
        | none ↦ prepare_new seed_hash v'
      ]

  -- The loop over the records that were not removed.
  unfoldable pub snapshots_from : ℕ → ℕ → Verifier X → Verifier X × List SeedRecord
  unfolding seed_snapshot_locked
  snapshots_from zero place v = (v, [])
  snapshots_from (suc left) place v = elim (get_elem? v.seeds place) [
    | none ↦ (v, [])
    | some seed ↦
        let seen = seed_snapshot_locked place seed v in
        let skipped = snapshots_from left (suc place) v in
        let (last, rest) = snapshots_from left (suc place) seen.0 in
        if seed.removed then skipped else (last, (if seen.2.removed then rest else seen.2 ∷ rest))
  ]

  unfoldable pub seed_snapshots : Verifier X → Verifier X × List SeedRecord
  unfolding snapshots_from sort_by_id
  seed_snapshots v =
      let (last, result) = snapshots_from (length v.seeds) 0 v in
      if not (is_running_state v.lifecycle) then (v, []) else (last, sort_by_id result)
