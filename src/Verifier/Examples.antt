-- ===== src/Verifier/Examples.antt =====
-- The verifier adapter at concrete calls, on a small native verifier whose context is a counter.
use monero_solo_stratum.Common.{
  ℕ, ◌+◌, ◌≡◌, ◌<◌, refl, true, false, none, List, [], ◌∷◌, max, arith, length, ◌*◌, ◌==◌,
  if◌then◌else◌,
}
use monero_solo_stratum.Common.Outcome.{ok}
use monero_solo_stratum.Verifier.Table.{
  hash_only, submission_table_size, find_submission_insert_slot_locked,
}
use monero_solo_stratum.Verifier.State.{
  success, other, ready, SeedInfo, NativeCompletion, Native, Verifier, find_seed_locked,
  find_resident_from, erase_seeds, seed_snapshot_locked, maybe_begin_seed_release_locked,
}
use monero_solo_stratum.Verifier.SeedCalls.{
  prepare_seed, activate_seed, retain_seed, drop_seed_reference, request_seed_release,
}
use monero_solo_stratum.Verifier.Submissions.{submit_locked, correlate_completion_locked, matched}
use monero_solo_stratum.Verifier.Construction.{
  VerifierConfig, fast, try_enable, secure, automatic, NativeStart, make_verifier, new_verifier,
}
use monero_solo_stratum.Verifier.TableSize.{IsPowerAbove, submission_table_size-IsPowerAbove}
use monero_solo_stratum.Verifier.Invariant.{Inv}
use monero_solo_stratum.Verifier.Lookup.{lookup_tag}
use monero_solo_stratum.Verifier.Correspondence.{
  AddsEntry, submit_locked-AddsEntry, submit-correlate,
}
use monero_solo_stratum.Verifier.Histories.{
  Call, prepares, activates, retains, drops, requests_release, submits, run, run-make_verifier-Inv,
  insert_slot_found,
}

abbrev seed_info : SeedInfo
seed_info = record {
  state = ready;
  last_error = success;
  key_size = 32;
  queued_jobs = 0;
  running_jobs = 0;
  prepare_ns = 5;
  memory_uses_large_pages = false;
  all_vms_use_large_pages = false;
}

abbrev nothing : NativeCompletion
nothing = record {
  succeeded = false;
  error = success;
  comparison = 0;
  ticket = 0;
  user_tag = 0;
  seed_id = 0;
  hash = [];
  queue_ns = 0;
  hash_ns = 0;
  total_ns = 0;
}

-- Seeds are their hashes, tickets are counted, and no job ends by itself.
instance abbrev counter : Native ℕ
counter = record {
  get_info = λ id x. (x, success, seed_info);
  prepare = λ hash x. (x, success, hash);
  activate = λ id x. (x, success);
  deactivate = λ x. (x, success);
  wait_ready = λ id timeout x. (x, success);
  release = λ id x. (x, success);
  wait_released = λ id timeout x. (x, success);
  verify_submit = λ id input claimed tag x. (x + 1, success, x);
  hash_submit = λ id input tag x. (x + 1, success, x);
  poll = λ x. (x, other 1, nothing);
  shut_down = λ mode x. (x, success);
}

abbrev starter : NativeStart ℕ
starter = record { config_init = success; create = λ c. (success, 100); start = λ x. (x, success) }

abbrev config : VerifierConfig
config = record {
  workers = 4;
  seed_init_threads = 4;
  pending_capacity = 2;
  max_outstanding = 3;
  max_input_size = 4096;
  max_seeds = 2;
  max_buffered_input_bytes = 16777216;
  memory_mode = fast;
  large_pages = try_enable;
  jit = secure;
  aes = automatic;
}

abbrev made : Verifier ℕ
made = new_verifier config 100

made_ok : make_verifier starter config ≡ ok made
unfolding make_verifier
made_ok = refl

-- Two seeds; the first is replaced and its release waits for its submission.
abbrev calls : List Call
calls =
    prepares 11
    ∷ activates 11
    ∷ retains 11
    ∷ submits hash_only 11 (1 ∷ 2 ∷ []) none 7
    ∷ prepares 12
    ∷ activates 12
    ∷ requests_release 11
    ∷ drops 11
    ∷ []

one_tracked : (run calls made).tracked_submissions ≡ 1
unfolding run submission_table_size submit_locked find_submission_insert_slot_locked
    drop_seed_reference request_seed_release activate_seed prepare_seed retain_seed
    find_resident_from erase_seeds find_seed_locked seed_snapshot_locked
    maybe_begin_seed_release_locked
one_tracked = refl

run-make_verifier-Inv_example : Inv (run calls made)
run-make_verifier-Inv_example = run-make_verifier-Inv starter config made calls made_ok

three_allowed : (run calls made).config.max_outstanding ≡ 3
unfolding run submission_table_size submit_locked find_submission_insert_slot_locked
    drop_seed_reference request_seed_release activate_seed prepare_seed retain_seed
    find_resident_from erase_seeds find_seed_locked seed_snapshot_locked
    maybe_begin_seed_release_locked
three_allowed = refl

room_left : (run calls made).tracked_submissions < (run calls made).config.max_outstanding
room_left = omega (arith, one_tracked, three_allowed)

tag_absent : (find_submission_insert_slot_locked (run calls made).submissions 8).1 ≡ false
unfolding run submission_table_size submit_locked find_submission_insert_slot_locked
    drop_seed_reference request_seed_release activate_seed prepare_seed retain_seed
    find_resident_from erase_seeds find_seed_locked seed_snapshot_locked
    maybe_begin_seed_release_locked
tag_absent = refl

insert_slot_found_example :
    (find_submission_insert_slot_locked (run calls made).submissions 8).0
    < length (run calls made).submissions
insert_slot_found_example =
    insert_slot_found starter config made calls 8 made_ok room_left tag_absent

submission_table_size-IsPowerAbove_example : IsPowerAbove (max 8 (3 * 2)) (submission_table_size 3)
submission_table_size-IsPowerAbove_example = submission_table_size-IsPowerAbove 3

abbrev reached : Verifier ℕ
reached = run calls made

submit_locked-AddsEntry_example :
    AddsEntry hash_only 12 8 reached.submissions
      (submit_locked hash_only 12 (1 ∷ []) none 8 reached)
submit_locked-AddsEntry_example =
    submit_locked-AddsEntry hash_only 12 (1 ∷ []) none 8 reached
      run-make_verifier-Inv_example.slots.table

abbrev answer : NativeCompletion
answer = record {
  succeeded = true;
  error = success;
  comparison = 0;
  ticket = (submit_locked hash_only 12 (1 ∷ []) none 8 reached).2;
  user_tag = 8;
  seed_id = 12;
  hash = [];
  queue_ns = 0;
  hash_ns = 0;
  total_ns = 0;
}

accepted : (submit_locked hash_only 12 (1 ∷ []) none 8 reached).1 ≡ success
unfolding run submission_table_size submit_locked find_submission_insert_slot_locked
    drop_seed_reference request_seed_release activate_seed prepare_seed retain_seed
    find_resident_from erase_seeds find_seed_locked seed_snapshot_locked
    maybe_begin_seed_release_locked
accepted = refl

submit-correlate_example :
    let submitted = submit_locked hash_only 12 (1 ∷ []) none 8 reached in
    let answered = correlate_completion_locked answer submitted.0 in
    (answered.1.correlation ≡ matched)
    × (answered.1.submission_kind ≡ hash_only)
    × ((tag : ℕ)
        → lookup_tag answered.0.submissions tag
          ≡ (if 8 == tag then none else lookup_tag reached.submissions tag))
submit-correlate_example =
    submit-correlate hash_only 12 (1 ∷ []) none 8 reached answer run-make_verifier-Inv_example
      accepted refl refl refl
