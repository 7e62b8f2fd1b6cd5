-- ===== src/Verifier/Submissions.antt =====
-- src/verifier/verifier.cpp: submissions, completions and shutdown. Each holds the adapter's lock.
use monero_solo_stratum.Common.{
  ℕ, zero, suc, ◌+◌, ◌-◌, Bool, true, false, not, ◌&&◌, ◌||◌, Option, none, some, List, [], ◌∷◌,
  ltb, leb, ◌==◌, if◌then◌else◌, length, set, replicate,
}
use monero_solo_stratum.Verifier.Table.{
  SubmissionSlot, SubmissionKind, verify_claim, hash_only, occupied, slot_at, erased,
  find_submission_slot_locked, find_submission_insert_slot_locked,
}
use monero_solo_stratum.Verifier.State.{
  Status, success, not_running, seed_not_found, seed_releasing, seed_not_ready, invalid_argument,
  queue_full, is_success, is_usable, SeedRecord, Lifecycle, running, shutdown, failed,
  is_running_state, ShutdownMode, NativeCompletion, Native, Verifier, find_seed_locked, put_seed,
  seed_snapshot_locked, maybe_begin_seed_release_locked,
}

module _ {X : Type 0} where
  unfoldable pub erase_submission_slot_locked : ℕ → Verifier X → Verifier X
  erase_submission_slot_locked index v = record v {
    submissions = set v.submissions index erased;
    tracked_submissions = v.tracked_submissions - 1;
  }

  abbrev pub put_slot : ℕ → SubmissionSlot → Verifier X → Verifier X
  put_slot index slot v = record v { submissions = set v.submissions index slot }

abbrev pub taken_slot : SubmissionKind → ℕ → ℕ → ℕ → SubmissionSlot
taken_slot kind seed_id user_tag ticket = record {
  state = occupied;
  user_tag = user_tag;
  ticket = ticket;
  seed_id = seed_id;
  kind = kind;
}

-- A hash to verify comes with the kind; the other kind has none.
abbrev pub lacks_claim : SubmissionKind → Option (List ℕ) → Bool
lacks_claim verify_claim none = true
lacks_claim verify_claim (some hash) = false
lacks_claim hash_only claimed = false

abbrev pub Submitted : Type 0 → Type 0
Submitted X = Verifier X × Status × ℕ

pub data Correlation : Type 0 where
  matched : Correlation
  unknown_user_tag : Correlation
  ticket_mismatch : Correlation
  seed_mismatch : Correlation
  ticket_and_seed_mismatch : Correlation

pub record Completion : Type 0 where
  pub succeeded : Bool
  pub error : Status
  pub comparison : ℕ
  pub ticket : ℕ
  pub user_tag : ℕ
  pub seed_id : ℕ
  pub hash : List ℕ
  pub queue_ns : ℕ
  pub hash_ns : ℕ
  pub total_ns : ℕ
  pub submission_kind : SubmissionKind
  pub correlation : Correlation
  pub expected_ticket : ℕ
  pub expected_seed_id : ℕ

-- The parts of a completion that are copied only from a successful job; 0 is the comparison that was
-- not requested.
abbrev pub copied : NativeCompletion → Completion
copied c =
    let good = c.succeeded && is_success c.error in
    record {
      succeeded = c.succeeded;
      error = c.error;
      comparison = (if good then c.comparison else 0);
      ticket = c.ticket;
      user_tag = c.user_tag;
      seed_id = c.seed_id;
      hash = (if good then c.hash else replicate 32 0);
      queue_ns = (if good then c.queue_ns else 0);
      hash_ns = (if good then c.hash_ns else 0);
      total_ns = (if good then c.total_ns else 0);
      submission_kind = verify_claim;
      correlation = unknown_user_tag;
      expected_ticket = 0;
      expected_seed_id = 0;
    }

abbrev pub correlation_of : Bool → Bool → Correlation
correlation_of true true = matched
correlation_of false false = ticket_and_seed_mismatch
correlation_of false true = ticket_mismatch
correlation_of true false = seed_mismatch

module _ {X : Type 0} ⦃n : Native X⦄ where
  abbrev pub native_submit : SubmissionKind → ℕ → List ℕ → Option (List ℕ) → ℕ → X → X × Status × ℕ
  native_submit verify_claim seed_id input (some hash) user_tag x =
      n.verify_submit seed_id input hash user_tag x
  native_submit verify_claim seed_id input none user_tag x =
      n.verify_submit seed_id input [] user_tag x
  native_submit hash_only seed_id input claimed user_tag x = n.hash_submit seed_id input user_tag x

  -- With a slot for the tag and the seed's record at its place.
  unfoldable pub submit_in :
      SubmissionKind
      → ℕ
      → List ℕ
      → Option (List ℕ)
      → ℕ
      → ℕ
      → ℕ
      → SeedRecord
      → Verifier X
      → Submitted X
  unfolding erase_submission_slot_locked
  submit_in kind seed_id input claimed user_tag index place seed v =
      let taken = record (put_slot index (taken_slot kind seed_id user_tag 0) v) {
        tracked_submissions = v.tracked_submissions + 1;
      } in
      let (context, status, ticket) = native_submit kind seed_id input claimed user_tag v.context in
      let after = record taken { context = context } in
      if not (is_success status) then (erase_submission_slot_locked index after, status, 0) else (
        put_seed place (record seed { tracked_verifications = seed.tracked_verifications + 1 })
            (put_slot index (taken_slot kind seed_id user_tag ticket) after),
        success,
        ticket,
      )

  -- With a snapshot of a seed that can be used.
  unfoldable pub submit_usable :
      SubmissionKind → ℕ → List ℕ → Option (List ℕ) → ℕ → ℕ → SeedRecord → Verifier X → Submitted X
  unfolding submit_in
  submit_usable kind seed_id input claimed user_tag place seed v =
      let (index, already_present) = find_submission_insert_slot_locked v.submissions user_tag in
      if leb v.config.max_outstanding v.tracked_submissions
      then (v, queue_full, 0)
      else if already_present
      then (v, invalid_argument, 0)
      else if index == length v.submissions
      then (v, queue_full, 0)
      else submit_in kind seed_id input claimed user_tag index place seed v

  unfoldable pub submit_seed :
      SubmissionKind → ℕ → List ℕ → Option (List ℕ) → ℕ → ℕ → SeedRecord → Verifier X → Submitted X
  unfolding submit_usable
  submit_seed kind seed_id input claimed user_tag place seed v =
      let seen = seed_snapshot_locked place seed v in
      if seed.release_started
      then (v, seed_releasing, 0)
      else if not (is_success seen.1)
      then (seen.0, seen.1, 0)
      else if not (is_usable seen.2.info.state)
      then (seen.0, seed_not_ready, 0)
      else submit_usable kind seed_id input claimed user_tag place seen.2 seen.0

  unfoldable pub submit_locked :
      SubmissionKind → ℕ → List ℕ → Option (List ℕ) → ℕ → Verifier X → Submitted X
  unfolding submit_seed
  submit_locked kind seed_id input claimed user_tag v =
      if not (is_running_state v.lifecycle)
      then (v, not_running, 0)
      else if user_tag == 0
          || length input == 0
          || ltb v.config.max_input_size (length input)
          || lacks_claim kind claimed
      then (v, invalid_argument, 0)
      else elim (find_seed_locked seed_id v.seeds) [
        | none ↦ (v, seed_not_found, 0)
        | some (place, seed) ↦ submit_seed kind seed_id input claimed user_tag place seed v
      ]

  unfoldable pub submit_verify : ℕ → List ℕ → List ℕ → ℕ → Verifier X → Submitted X
  submit_verify seed_id input claimed_hash user_tag v =
      submit_locked verify_claim seed_id input (some claimed_hash) user_tag v

  unfoldable pub submit_hash : ℕ → List ℕ → ℕ → Verifier X → Submitted X
  submit_hash seed_id input user_tag v = submit_locked hash_only seed_id input none user_tag v

  -- The seed of a submission that has ended.
  unfoldable pub untrack : ℕ → Verifier X → Verifier X
  untrack seed_id v = elim (find_seed_locked seed_id v.seeds) [
    | none ↦ v
    | some (place, seed) ↦
        let seed' = record seed { tracked_verifications = seed.tracked_verifications - 1 } in
        (maybe_begin_seed_release_locked place seed' (put_seed place seed' v)).0
  ]

  unfoldable pub correlate_completion_locked :
      NativeCompletion → Verifier X → Verifier X × Completion
  unfolding untrack erase_submission_slot_locked
  correlate_completion_locked c v =
      let index = find_submission_slot_locked v.submissions c.user_tag in
      let slot = slot_at v.submissions index in
      if index == length v.submissions then (v, copied c) else (
        untrack slot.seed_id (erase_submission_slot_locked index v),
        record (copied c) {
          submission_kind = slot.kind;
          expected_ticket = slot.ticket;
          expected_seed_id = slot.seed_id;
          correlation = correlation_of (slot.ticket == c.ticket) (slot.seed_id == c.seed_id);
        },
      )

  -- The loop takes at most `max_count` completions, and ends where a poll has none.
  unfoldable pub drain_completions : ℕ → Verifier X → Verifier X × List Completion × Status
  unfolding correlate_completion_locked
  drain_completions zero v = (v, [], success)
  drain_completions (suc max_count) v =
      let (context, status, c) = n.poll v.context in
      let polled = record v { context = context } in
      let (next, completion) = correlate_completion_locked c polled in
      let (last, completions, terminal_status) = drain_completions max_count next in
      if not (is_success status)
      then (polled, [], status)
      else (last, completion ∷ completions, terminal_status)

  -- What the state and the native answer make of a shutdown.
  abbrev pub shutdown_in : Lifecycle → X → Status → Verifier X → Verifier X × Status
  shutdown_in shutdown context status v = (v, success)
  shutdown_in failed context status v = (v, not_running)
  shutdown_in running context status v =
      let v' = record v { context = context } in
      if is_success status then (record v' { lifecycle = shutdown }, status) else (v', status)

  unfoldable pub shutdown_verifier : ShutdownMode → Verifier X → Verifier X × Status
  shutdown_verifier mode v =
      let (context, status) = n.shut_down mode v.context in shutdown_in v.lifecycle context status v
