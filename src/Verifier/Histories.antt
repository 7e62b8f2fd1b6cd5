-- ===== src/Verifier/Histories.antt =====
-- src/verifier/verifier.cpp: the adapter over any calls of its operations. Each holds the lock, so
-- concurrent clients are a list of calls.
use monero_solo_stratum.Common.{
  ℕ, ◌≡◌, ◌<◌, subst, inl, inr, Bool, true, false, not, Option, List, [], ◌∷◌, length,
}
use monero_solo_stratum.Common.Outcome.{Outcome, ok, throw_if, ◌>>=◌, ◌>>◌}
use monero_solo_stratum.Verifier.Table.{SubmissionKind, find_submission_insert_slot_locked}
use monero_solo_stratum.Verifier.Placement.{Placed, insert_slot-Placed}
use monero_solo_stratum.Verifier.State.{is_success, Native, Verifier, ShutdownMode, cancel_pending}
use monero_solo_stratum.Verifier.SeedCalls.{
  wait_seed_ready, seed_snapshot, seed_snapshots, activate_seed, deactivate_seed, retain_seed,
  drop_seed_reference, request_seed_release, wait_seed_released, prepare_seed,
}
use monero_solo_stratum.Verifier.Submissions.{submit_locked, drain_completions, shutdown_verifier}
use monero_solo_stratum.Verifier.Construction.{
  VerifierConfig, NativeStart, is_out_of_range, native_config, invalid_config, no_init, not_created,
  not_started, new_verifier, map_config, make_verifier,
}
use monero_solo_stratum.Verifier.TableSize.{fresh-TableInv, fresh-count}
use monero_solo_stratum.Verifier.SeedLists.{tracked_of}
use monero_solo_stratum.Verifier.Invariant.{Inv}
use monero_solo_stratum.Verifier.SeedSteps.{
  wait_seed_ready-Inv, seed_snapshot-Inv, seed_snapshots-Inv, activate_seed-Inv,
  deactivate_seed-Inv,
}
use monero_solo_stratum.Verifier.SeedReleases.{
  retain_seed-Inv, drop_seed_reference-Inv, request_seed_release-Inv, wait_seed_released-Inv,
}
use monero_solo_stratum.Verifier.SeedPreparation.{prepare_seed-Inv}
use monero_solo_stratum.Verifier.SubmissionSteps.{submit_locked-Inv, not-IsFull}
use monero_solo_stratum.Verifier.CompletionSteps.{drain_completions-Inv, shutdown_verifier-Inv}

pub data Call : Type 0 where
  prepares : ℕ → Call
  waits_ready : ℕ → ℕ → Call
  snapshots : ℕ → Call
  snapshots_all : Call
  activates : ℕ → Call
  deactivates : Call
  retains : ℕ → Call
  drops : ℕ → Call
  requests_release : ℕ → Call
  waits_released : ℕ → ℕ → Call
  submits : SubmissionKind → ℕ → List ℕ → Option (List ℕ) → ℕ → Call
  drains : ℕ → Call
  shuts_down : ShutdownMode → Call

-- What follows a check that did not throw.
passed {ℓ κ μ} :
    {E : Type ℓ} {A : Type κ} {B : Type μ} (b : Bool) (e : E) (m : Outcome E A)
    (f : A → Outcome E B) {r : B}
    → ((throw_if b e >> m) >>= f) ≡ ok r
    → (m >>= f) ≡ ok r
passed true e m f h = cc
passed false e m f h = h

passed_last {ℓ κ} :
    {E : Type ℓ} {A : Type κ} (b : Bool) (e : E) (m : Outcome E A) {r : A}
    → (throw_if b e >> m) ≡ ok r
    → m ≡ ok r
passed_last true e m h = cc
passed_last false e m h = h

ok_injective {ℓ κ} :
    {E : Type ℓ} {A : Type κ} (a b : A) → ◌≡◌ {A = Outcome E A} (ok a) (ok b) → a ≡ b
ok_injective a b e = cc

module _ {X : Type 0} ⦃n : Native X⦄ where
  unfoldable pub step : Call → Verifier X → Verifier X
  step (prepares hash) v = (prepare_seed hash v).0
  step (waits_ready id timeout) v = (wait_seed_ready id timeout v).0
  step (snapshots id) v = (seed_snapshot id v).0
  step snapshots_all v = (seed_snapshots v).0
  step (activates id) v = (activate_seed id v).0
  step deactivates v = (deactivate_seed v).0
  step (retains id) v = (retain_seed id v).0
  step (drops id) v = (drop_seed_reference id v).0
  step (requests_release id) v = (request_seed_release id v).0
  step (waits_released id timeout) v = (wait_seed_released id timeout v).0
  step (submits kind id input claimed user_tag) v =
      (submit_locked kind id input claimed user_tag v).0
  step (drains max_count) v = (drain_completions max_count v).0
  step (shuts_down mode) v = (shutdown_verifier mode v).0

  unfoldable pub run : List Call → Verifier X → Verifier X
  unfolding step
  run [] v = v
  run (call ∷ calls) v = run calls (step call v)

  step-Inv : (call : Call) (v : Verifier X) → Inv v → Inv (step call v)
  unfolding step
  step-Inv (prepares hash) v h = prepare_seed-Inv hash v h
  step-Inv (waits_ready id timeout) v h = wait_seed_ready-Inv id timeout v h
  step-Inv (snapshots id) v h = seed_snapshot-Inv id v h
  step-Inv snapshots_all v h = seed_snapshots-Inv v h
  step-Inv (activates id) v h = activate_seed-Inv id v h
  step-Inv deactivates v h = deactivate_seed-Inv v h
  step-Inv (retains id) v h = retain_seed-Inv id v h
  step-Inv (drops id) v h = drop_seed_reference-Inv id v h
  step-Inv (requests_release id) v h = request_seed_release-Inv id v h
  step-Inv (waits_released id timeout) v h = wait_seed_released-Inv id timeout v h
  step-Inv (submits kind id input claimed user_tag) v h =
      submit_locked-Inv kind id input claimed user_tag v h
  step-Inv (drains max_count) v h = drain_completions-Inv max_count v h
  step-Inv (shuts_down mode) v h = shutdown_verifier-Inv mode v h

  run-Inv : (calls : List Call) (v : Verifier X) → Inv v → Inv (run calls v)
  unfolding run
  run-Inv [] v h = h
  run-Inv (call ∷ calls) v h = run-Inv calls (step call v) (step-Inv call v h)

  new_verifier-Inv : (c : VerifierConfig) (x : X) → Inv (new_verifier c x)
  unfolding tracked_of
  new_verifier-Inv c x = record {
    slots = fresh-TableInv c.max_outstanding;
    seeds = record { sound = tt; ids = tt; tracked = λ id. fresh-count c.max_outstanding id };
  }

  make_verifier-Inv :
      (s : NativeStart X) (c : VerifierConfig) (v : Verifier X) → make_verifier s c ≡ ok v → Inv v
  unfolding make_verifier map_config
  make_verifier-Inv s c v made =
      let created = s.create (native_config c) in
      let started = s.start created.1 in
      let bad = not (is_success s.config_init) in
      let checked = passed (is_out_of_range c) invalid_config _ _ made in
      let mapped = passed bad (no_init s.config_init) _ _ checked in
      let inited = passed_last bad (no_init s.config_init) _ mapped in
      let alive = passed_last (not (is_success created.0)) (not_created created.0) _ inited in
      let running =
        passed_last (not (is_success started.1))
          (not_started started.1 (n.shut_down cancel_pending started.0).1) _ alive in
      subst Inv (ok_injective _ _ running) (new_verifier-Inv c started.0)

  -- A verifier that the constructor makes has, after any calls: each submission where a search for
  -- its tag gets to, and each tag once; as many submissions as are counted, at most max_outstanding;
  -- for each seed id as many submissions as its records track; and each seed whose release has
  -- started has no retained job, tracks no verification and is not the current one.
  pub run-make_verifier-Inv :
      (s : NativeStart X) (c : VerifierConfig) (v : Verifier X) (calls : List Call)
      → make_verifier s c ≡ ok v
      → Inv (run calls v)
  run-make_verifier-Inv s c v calls made = run-Inv calls v (make_verifier-Inv s c v made)

  -- In a verifier that the constructor makes, after any calls, while fewer than max_outstanding
  -- submissions are tracked: the search for a place for a tag that is not in the table finds one.
  pub insert_slot_found :
      (s : NativeStart X) (c : VerifierConfig) (v : Verifier X) (calls : List Call) (user_tag : ℕ)
      → make_verifier s c ≡ ok v
      → (run calls v).tracked_submissions < (run calls v).config.max_outstanding
      → (find_submission_insert_slot_locked (run calls v).submissions user_tag).1 ≡ false
      → (find_submission_insert_slot_locked (run calls v).submissions user_tag).0
        < length (run calls v).submissions
  insert_slot_found s c v calls user_tag made less absent =
      let w = run calls v in
      let inv = run-make_verifier-Inv s c v calls made in
      let (i, already) = find_submission_insert_slot_locked w.submissions user_tag in
      let placed =
        subst (Placed w.submissions user_tag i) absent
          (insert_slot-Placed w.submissions user_tag inv.slots.table) in
      elim placed.1 [ inl (e, full) ↦ absurd (not-IsFull w less inv full) | inr free ↦ free.0 ]
