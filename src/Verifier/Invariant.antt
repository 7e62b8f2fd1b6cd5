-- ===== src/Verifier/Invariant.antt =====
-- src/verifier/verifier.cpp: what holds of the adapter between its operations, and the seed helpers.
use monero_solo_stratum.Common.{
  ℕ, ◌≤◌, ◌≡◌, ◌≢◌, refl, ◌∙◌, inl, inr, Bool, true, false, ◌&&◌, List, ◌==◌, if◌then◌else◌, arith,
  length, set, All, All-set, All-get_elem?, Bool-cases,
}
use monero_solo_stratum.Verifier.Table.{SubmissionSlot}
use monero_solo_stratum.Verifier.Search.{IsTable}
use monero_solo_stratum.Verifier.Slots.{count_slots, is_occupied_state, outstanding}
use monero_solo_stratum.Verifier.State.{
  Status, success, seed_not_found, seed_releasing, SeedInfo, SeedRecord, Native, Verifier, put_seed,
  refreshed, released, is_releasable, is_running_state, seed_snapshot_locked,
  maybe_begin_seed_release_locked,
}
use monero_solo_stratum.Verifier.SeedLists.{
  At, At-set, UniqueIds, tracked_of, tracked_of-set, set-UniqueIds,
}

-- A seed whose release has started serves nothing: no retained job, no verification, and it is not
-- the current one; only such a seed is removed. The id 0 stands for no current seed.
pub record IsSound (current_id : ℕ) (s : SeedRecord) : Type 0 where
  pub idle :
      s.release_started ≡ true → (s.retained_job_references ≡ 0) × (s.tracked_verifications ≡ 0)
  pub stale : s.release_started ≡ true → current_id ≢ 0 → s.seed_id ≢ current_id
  pub gone : s.removed ≡ true → s.release_started ≡ true

abbrev pub is_for : ℕ → SubmissionSlot → Bool
is_for id slot = is_occupied_state slot.state && slot.seed_id == id

-- Each seed tracks exactly the submissions of the table that are for it.
pub record SeedsInv (current_id : ℕ) (slots : List SubmissionSlot) (seeds : List SeedRecord)
    : Type 0 where
  pub sound : All (IsSound current_id) seeds
  pub ids : UniqueIds seeds
  pub tracked : (id : ℕ) → count_slots (is_for id) slots ≡ tracked_of id seeds

-- The table can be searched, has room for all that may be outstanding, and is counted.
pub record TableInv (max_outstanding : ℕ) (slots : List SubmissionSlot) (tracked : ℕ) : Type 0 where
  pub table : IsTable slots
  pub room : max_outstanding ≤ length slots
  pub counted : tracked ≡ outstanding slots
  pub bounded : tracked ≤ max_outstanding

module _ {X : Type 0} where
  pub record Inv (v : Verifier X) : Type 0 where
    pub slots : TableInv v.config.max_outstanding v.submissions v.tracked_submissions
    pub seeds : SeedsInv v.current_seed_id v.submissions v.seeds

pub put-SeedsInv :
    (current_id : ℕ) (slots : List SubmissionSlot) (seeds : List SeedRecord) (place : ℕ)
    (old new : SeedRecord)
    → At seeds place old
    → new.seed_id ≡ old.seed_id
    → new.tracked_verifications ≡ old.tracked_verifications
    → IsSound current_id new
    → SeedsInv current_id slots seeds
    → SeedsInv current_id slots (set seeds place new)
put-SeedsInv current_id slots seeds place old new at same tracks ok h = record {
  sound = All-set (IsSound current_id) seeds place new ok h.sound;
  ids = set-UniqueIds seeds place old new at same h.ids;
  tracked =
      λ id. h.tracked id ∙ ground (arith, same, tracks, tracked_of-set id seeds place old new at);
}

-- A record at a place of the list.
pub At-IsSound :
    (current_id : ℕ) (slots : List SubmissionSlot) (seeds : List SeedRecord) (place : ℕ)
    (seed : SeedRecord)
    → At seeds place seed
    → SeedsInv current_id slots seeds
    → IsSound current_id seed
At-IsSound current_id slots seeds place seed at h =
    All-get_elem? (IsSound current_id) seeds place seed at h.sound

-- What a snapshot leaves of a record.
pub record IsSeen (old new : SeedRecord) : Type 0 where
  pub id : new.seed_id ≡ old.seed_id
  pub retained : new.retained_job_references ≡ old.retained_job_references
  pub tracked : new.tracked_verifications ≡ old.tracked_verifications
  pub requested : new.release_requested ≡ old.release_requested
  pub started : new.release_started ≡ old.release_started

refreshed-IsSeen :
    (status : Status) (info : SeedInfo) (seed : SeedRecord)
    → IsSeen seed (refreshed status info seed)
refreshed-IsSeen success info seed = ground arith
refreshed-IsSeen seed_not_found info seed = ground arith
refreshed-IsSeen status info seed = ground arith

refreshed-IsSound :
    (current_id : ℕ) (status : Status) (info : SeedInfo) (seed : SeedRecord)
    → IsSound current_id seed
    → IsSound current_id (refreshed status info seed)
refreshed-IsSound current_id success info seed h = record {
  idle = h.idle;
  stale = h.stale;
  gone = h.gone;
}
refreshed-IsSound current_id seed_not_found info seed h = go seed.release_started refl
  where
    go :
        (b : Bool)
        → seed.release_started ≡ b
        → IsSound current_id (if b then record seed { removed = true } else seed)
    go true e = record { idle = h.idle; stale = h.stale; gone = λ r. e }
    go false e = h
refreshed-IsSound current_id status info seed h = h

released-IsSound :
    (current_id : ℕ) (status : Status) (seed : SeedRecord)
    → is_releasable current_id seed ≡ true
    → IsSound current_id seed
    → IsSound current_id (released status seed).0
released-IsSound current_id success seed free h = record {
  idle = λ s. ground arith;
  stale = λ s k. ground arith;
  gone = λ r. refl;
}
released-IsSound current_id seed_releasing seed free h = record {
  idle = λ s. ground arith;
  stale = λ s k. ground arith;
  gone = λ r. refl;
}
released-IsSound current_id seed_not_found seed free h = record {
  idle = λ s. ground arith;
  stale = λ s k. ground arith;
  gone = λ r. refl;
}
released-IsSound current_id status seed free h = h

released-same :
    (status : Status) (seed : SeedRecord)
    → let new = (released status seed).0 in
      (new.seed_id ≡ seed.seed_id) × (new.tracked_verifications ≡ seed.tracked_verifications)
released-same success seed = (refl, refl)
released-same seed_releasing seed = (refl, refl)
released-same seed_not_found seed = (refl, refl)
released-same status seed = (refl, refl)

module _ {X : Type 0} ⦃n : Native X⦄ where
  pub put_seed-Inv :
      (place : ℕ) (old new : SeedRecord) (v : Verifier X)
      → At v.seeds place old
      → new.seed_id ≡ old.seed_id
      → new.tracked_verifications ≡ old.tracked_verifications
      → IsSound v.current_seed_id new
      → Inv v
      → Inv (put_seed place new v)
  put_seed-Inv place old new v at same tracks ok h = record {
    slots = h.slots;
    seeds =
        put-SeedsInv v.current_seed_id v.submissions v.seeds place old new at same tracks ok
          h.seeds;
  }

  -- After a snapshot, the invariant holds and the record stands at its place.
  pub record SnapshotResult (place : ℕ) (old : SeedRecord) (v : Verifier X)
      (r : Verifier X × Status × SeedRecord) : Type 0 where
    pub inv : Inv r.0
    pub at : At r.0.seeds place r.2
    pub seen : IsSeen old r.2

  pub seed_snapshot_locked_lem :
      (place : ℕ) (seed : SeedRecord) (v : Verifier X)
      → At v.seeds place seed
      → Inv v
      → SnapshotResult place seed v (seed_snapshot_locked place seed v)
  unfolding seed_snapshot_locked
  seed_snapshot_locked_lem place seed v at h =
      let (context, status, info) = n.get_info seed.seed_id v.context in
      let seen = refreshed-IsSeen status info seed in
      record {
        inv = record {
          slots = h.slots;
          seeds =
              put-SeedsInv v.current_seed_id v.submissions v.seeds place seed
                (refreshed status info seed) at seen.id seen.tracked
                (refreshed-IsSound v.current_seed_id status info seed
                  (At-IsSound v.current_seed_id v.submissions v.seeds place seed at h.seeds))
                h.seeds;
        };
        at = At-set v.seeds place seed (refreshed status info seed) at;
        seen = seen;
      }

  pub maybe_begin_seed_release_locked-Inv :
      (place : ℕ) (seed : SeedRecord) (v : Verifier X)
      → At v.seeds place seed
      → Inv v
      → Inv (maybe_begin_seed_release_locked place seed v).0
  unfolding maybe_begin_seed_release_locked
  maybe_begin_seed_release_locked-Inv place seed v at h =
      let (context, status) = n.release seed.seed_id v.context in
      elim (Bool-cases (is_releasable v.current_seed_id seed)) [
        | inr e ↦ rw (e, maybe_begin_seed_release_locked) h
        | inl e ↦ elim (Bool-cases (is_running_state v.lifecycle)) [
          | inr f ↦ rw (e, f, maybe_begin_seed_release_locked) h
          | inl f ↦
              rw (e, f, maybe_begin_seed_release_locked)
                (record {
                  slots = h.slots;
                  seeds =
                      put-SeedsInv v.current_seed_id v.submissions v.seeds place seed
                        (released status seed).0 at (released-same status seed).0
                        (released-same status seed).1
                        (released-IsSound v.current_seed_id status seed e (
                          At-IsSound v.current_seed_id v.submissions v.seeds place seed at h.seeds))
                        h.seeds;
                })
        ]
      ]
