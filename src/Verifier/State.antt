-- ===== src/Verifier/State.antt =====
-- src/verifier/verifier.cpp, with its header in include/monero_solo/: the adapter's state, the native
-- verifier as a parameter, and the helpers on seeds. A seed hash is the number that its bytes write.
use monero_solo_stratum.Common.{
  ℕ, suc, Bool, true, false, not, ◌&&◌, ◌||◌, Option, none, some, List, [], ◌∷◌, ◌==◌,
  if◌then◌else◌, set,
}
use monero_solo_stratum.Verifier.Table.{SubmissionSlot}

-- The statuses of the native verifier that the adapter tells apart.
pub data Status : Type 0 where
  success : Status
  not_running : Status
  seed_not_found : Status
  seed_releasing : Status
  seed_not_ready : Status
  seed_active : Status
  invalid_argument : Status
  queue_full : Status
  internal_error : Status
  other : ℕ → Status

abbrev pub is_success : Status → Bool
is_success success = true
is_success s = false

pub data SeedState : Type 0 where
  preparing : SeedState
  ready : SeedState
  current : SeedState
  releasing : SeedState
  other_state : ℕ → SeedState

abbrev pub is_usable : SeedState → Bool
is_usable preparing = false
is_usable ready = true
is_usable current = true
is_usable releasing = false
is_usable (other_state n) = false

pub record SeedInfo : Type 0 where
  pub state : SeedState
  pub last_error : Status
  pub key_size : ℕ
  pub queued_jobs : ℕ
  pub running_jobs : ℕ
  pub prepare_ns : ℕ
  pub memory_uses_large_pages : Bool
  pub all_vms_use_large_pages : Bool

pub record SeedRecord : Type 0 where
  pub seed_hash : ℕ
  pub seed_id : ℕ
  pub info : SeedInfo
  pub retained_job_references : ℕ
  pub tracked_verifications : ℕ
  pub release_requested : Bool
  pub release_started : Bool
  pub removed : Bool

pub data Lifecycle : Type 0 where
  running : Lifecycle
  shutdown : Lifecycle
  failed : Lifecycle

abbrev pub is_running_state : Lifecycle → Bool
is_running_state running = true
is_running_state shutdown = false
is_running_state failed = false

pub data ShutdownMode : Type 0 where
  drain : ShutdownMode
  cancel_pending : ShutdownMode

-- What the native verifier reports of a finished job.
pub record NativeCompletion : Type 0 where
  pub succeeded : Bool
  pub error : Status
  pub comparison : ℕ
  pub ticket : ℕ
  pub user_tag : ℕ
  pub seed_id : ℕ
  pub hash : List ℕ
  pub queue_ns : ℕ
  pub hash_ns : ℕ
  pub total_ns : ℕ

-- The native verifier, which is a submodule: its calls on its context.
pub record Native (X : Type 0) : Type 0 where
  pub get_info : ℕ → X → X × Status × SeedInfo
  pub prepare : ℕ → X → X × Status × ℕ
  pub activate : ℕ → X → X × Status
  pub deactivate : X → X × Status
  pub wait_ready : ℕ → ℕ → X → X × Status
  pub release : ℕ → X → X × Status
  pub wait_released : ℕ → ℕ → X → X × Status
  pub verify_submit : ℕ → List ℕ → List ℕ → ℕ → X → X × Status × ℕ
  pub hash_submit : ℕ → List ℕ → ℕ → X → X × Status × ℕ
  pub poll : X → X × Status × NativeCompletion
  pub shut_down : ShutdownMode → X → X × Status

-- The part of the configuration that the calls read.
pub record VerifierLimits : Type 0 where
  pub max_outstanding : ℕ
  pub max_input_size : ℕ

pub record Verifier (X : Type 0) : Type 0 where
  pub config : VerifierLimits
  pub context : X
  pub lifecycle : Lifecycle
  pub current_seed_id : ℕ
  pub seeds : List SeedRecord
  pub submissions : List SubmissionSlot
  pub tracked_submissions : ℕ

-- A default-initialised record.
abbrev pub new_seed : ℕ → ℕ → SeedRecord
new_seed seed_hash seed_id = record {
  seed_hash = seed_hash;
  seed_id = seed_id;
  info = record {
    state = preparing;
    last_error = success;
    key_size = 32;
    queued_jobs = 0;
    running_jobs = 0;
    prepare_ns = 0;
    memory_uses_large_pages = false;
    all_vms_use_large_pages = false;
  };
  retained_job_references = 0;
  tracked_verifications = 0;
  release_requested = false;
  release_started = false;
  removed = false;
}

-- A pointer to a record is its place in the list.
unfoldable pub find_seed_from : ℕ → ℕ → List SeedRecord → Option (ℕ × SeedRecord)
find_seed_from place seed_id [] = none
find_seed_from place seed_id (seed ∷ seeds) =
    let rest = find_seed_from (suc place) seed_id seeds in
    if seed.seed_id == seed_id && not seed.removed then some (place, seed) else rest

unfoldable pub find_seed_locked : ℕ → List SeedRecord → Option (ℕ × SeedRecord)
unfolding find_seed_from
find_seed_locked seed_id seeds = find_seed_from 0 seed_id seeds

-- The last record with the hash, since the search runs backwards.
unfoldable pub find_resident_from : ℕ → ℕ → List SeedRecord → Option (ℕ × SeedRecord)
find_resident_from place seed_hash [] = none
find_resident_from place seed_hash (seed ∷ seeds) =
    elim (find_resident_from (suc place) seed_hash seeds) [
      | some later ↦ some later
      | none ↦ if seed.seed_hash == seed_hash && not seed.removed then some (place, seed) else none
    ]

-- `std::erase_if`.
unfoldable pub erase_seeds : (SeedRecord → Bool) → List SeedRecord → List SeedRecord
erase_seeds p [] = []
erase_seeds p (seed ∷ seeds) =
    let rest = erase_seeds p seeds in if p seed then rest else seed ∷ rest

module _ {X : Type 0} where
  abbrev pub put_seed : ℕ → SeedRecord → Verifier X → Verifier X
  put_seed place seed v = record v { seeds = set v.seeds place seed }

-- What a snapshot writes to the record.
abbrev pub refreshed : Status → SeedInfo → SeedRecord → SeedRecord
refreshed success info seed = record seed { info = info }
refreshed seed_not_found info seed =
    if seed.release_started then record seed { removed = true } else seed
refreshed status info seed = seed

abbrev pub set_state : SeedState → SeedRecord → SeedRecord
set_state state seed = record seed { info = record seed.info { state = state } }

-- What the answer to a release writes to the record.
abbrev pub released : Status → SeedRecord → SeedRecord × Status
released success seed = (record (set_state releasing seed) { release_started = true }, success)
released seed_releasing seed =
    (record (set_state releasing seed) { release_started = true }, success)
released seed_not_found seed = (record seed { release_started = true; removed = true }, success)
released status seed = (seed, status)

-- Whether a release of the record waits for nothing.
abbrev pub is_releasable : ℕ → SeedRecord → Bool
is_releasable current_id seed =
    not (not seed.release_requested || seed.release_started || seed.removed)
    && not (
        seed.seed_id == current_id
        || not (seed.retained_job_references == 0)
        || not (seed.tracked_verifications == 0))

module _ {X : Type 0} ⦃n : Native X⦄ where
  -- The verifier, the status, and the record, whose fields are those of the snapshot.
  unfoldable pub seed_snapshot_locked :
      ℕ → SeedRecord → Verifier X → Verifier X × Status × SeedRecord
  seed_snapshot_locked place seed v =
      let (context, status, info) = n.get_info seed.seed_id v.context in
      let seed' = refreshed status info seed in
      (put_seed place seed' (record v { context = context }), status, seed')

  unfoldable pub maybe_begin_seed_release_locked : ℕ → SeedRecord → Verifier X → Verifier X × Status
  maybe_begin_seed_release_locked place seed v =
      if not (is_releasable v.current_seed_id seed)
      then (v, success)
      else if not (is_running_state v.lifecycle)
      then (v, success)
      else (let (context, status) = n.release seed.seed_id v.context in
          let (seed', result) = released status seed in
          (put_seed place seed' (record v { context = context }), result))
