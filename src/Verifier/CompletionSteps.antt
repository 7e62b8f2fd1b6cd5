-- ===== src/Verifier/CompletionSteps.antt =====
-- src/verifier/verifier.cpp: completions and shutdown keep the adapter's invariant.
use monero_solo_stratum.Common.{
  ℕ, zero, suc, ◌+◌, ◌-◌, ◌≡◌, refl, inl, inr, true, List, [], ◌∷◌, ◌==◌, ==_iff, arith, length,
  All, All-set, All-get_elem?, length-set, Bool-cases, Option-cases,
}
use monero_solo_stratum.Common.Map.{one_if}
use monero_solo_stratum.Verifier.Table.{occupied, slot_at, erased, find_submission_slot_locked}
use monero_solo_stratum.Verifier.Search.{find-Holds}
use monero_solo_stratum.Verifier.Slots.{
  count_slots, count_slots-set, is_occupied_state, outstanding, not_empty-lt,
}
use monero_solo_stratum.Verifier.Updates.{erase-IsTable}
use monero_solo_stratum.Verifier.State.{
  Status, is_success, SeedRecord, NativeCompletion, Native, Verifier, put_seed, find_seed_locked,
  ShutdownMode, Lifecycle, running, shutdown, failed,
}
use monero_solo_stratum.Verifier.Submissions.{
  untrack, correlate_completion_locked, erase_submission_slot_locked, drain_completions,
  shutdown_in, shutdown_verifier,
}
use monero_solo_stratum.Verifier.SeedLists.{
  At-set, tracked_of, tracked_of-set, tracked_of_here, set-UniqueIds, UniqueIds,
  find_seed_locked-IsFound, find_seed_locked-none,
}
use monero_solo_stratum.Verifier.Invariant.{
  IsSound, TableInv, Inv, is_for, maybe_begin_seed_release_locked-Inv,
}
use monero_solo_stratum.Verifier.SeedSteps.{context-Inv}

-- Removed records track nothing.
removed-tracked :
    (current_id id : ℕ) (seeds : List SeedRecord)
    → All (IsSound current_id) seeds
    → All (λ s. s.seed_id ≡ id → s.removed ≡ true) seeds
    → tracked_of id seeds ≡ 0
unfolding tracked_of
removed-tracked current_id id [] a b = refl
removed-tracked current_id id (s ∷ ss) a b =
    let rest = removed-tracked current_id id ss a.1 b.1 in
    elim (Bool-cases (s.seed_id == id)) [
      | inr e ↦ ground arith
      | inl e ↦ let idle = (a.0.idle (a.0.gone (b.0 ((==_iff s.seed_id id).0 e)))).1 in ground arith
    ]

-- The slot is erased and its seed still tracks it.
module _ {X : Type 0} where
  record IsDue (sid : ℕ) (v : Verifier X) : Type 0 where
    slots : TableInv v.config.max_outstanding v.submissions v.tracked_submissions
    sound : All (IsSound v.current_seed_id) v.seeds
    ids : UniqueIds v.seeds
    tracked :
        (id : ℕ)
        → count_slots (is_for id) v.submissions + one_if (sid == id) ≡ tracked_of id v.seeds

  erase-IsDue :
      (i : ℕ) (v : Verifier X)
      → (slot_at v.submissions i).state ≡ occupied
      → Inv v
      → IsDue (slot_at v.submissions i).seed_id (erase_submission_slot_locked i v)
  unfolding erase_submission_slot_locked outstanding
  erase-IsDue i v o h =
      let lt = not_empty-lt v.submissions i o in
      let fewer = count_slots-set (λ s. is_occupied_state s.state) v.submissions i erased lt in
      record {
        slots = record {
          table = erase-IsTable v.submissions i lt h.slots.table;
          room = omega (arith, h.slots.room, length-set v.submissions i erased);
          counted = ground (arith, o, h.slots.counted, fewer);
          bounded = omega (arith, h.slots.bounded);
        };
        sound = h.seeds.sound;
        ids = h.seeds.ids;
        tracked = λ id.
            ground
              (arith, o, h.seeds.tracked id, count_slots-set (is_for id) v.submissions i erased lt);
      }

module _ {X : Type 0} ⦃n : Native X⦄ where
  untrack-Inv : (sid : ℕ) (v : Verifier X) → IsDue sid v → Inv (untrack sid v)
  unfolding untrack
  untrack-Inv sid v h = elim (Option-cases (find_seed_locked sid v.seeds)) [
    | inl e ↦
        let none_left =
          removed-tracked v.current_seed_id sid v.seeds h.sound
            (find_seed_locked-none sid v.seeds e) in
        absurd (ground (arith, h.tracked sid))
    | inr ((place, seed), e) ↦
        let f = find_seed_locked-IsFound sid v.seeds place seed e in
        let less = record seed { tracked_verifications = seed.tracked_verifications - 1 } in
        let put = put_seed place less v in
        let ok = All-get_elem? (IsSound v.current_seed_id) v.seeds place seed f.at h.sound in
        let all_here = tracked_of_here v.seeds place seed f.at h.ids in
        let inv : Inv put = record {
          slots = h.slots;
          seeds = record {
            sound =
                All-set (IsSound v.current_seed_id) v.seeds place less
                  (record {
                    idle = λ s. ((ok.idle s).0, omega (arith, (ok.idle s).1));
                    stale = ok.stale;
                    gone = ok.gone;
                  })
                  h.sound;
            ids = set-UniqueIds v.seeds place seed less f.at refl h.ids;
            tracked = λ id. ground (
              arith,
              f.same,
              h.tracked id,
              h.tracked sid,
              all_here,
              tracked_of-set id v.seeds place seed less f.at,
            );
          };
        } in
        rw (e, untrack)
          (maybe_begin_seed_release_locked-Inv place less put (At-set v.seeds place seed less f.at)
            inv)
  ]

  pub correlate_completion_locked-Inv :
      (c : NativeCompletion) (v : Verifier X) → Inv v → Inv (correlate_completion_locked c v).0
  unfolding correlate_completion_locked
  correlate_completion_locked-Inv c v h =
      let i = find_submission_slot_locked v.submissions c.user_tag in
      elim (Bool-cases (i == length v.submissions)) [
        | inl e ↦ rw (e, correlate_completion_locked) h
        | inr e ↦
            let held = find-Holds v.submissions c.user_tag (λ q. ground arith) in
            rw (e, correlate_completion_locked)
              (untrack-Inv (slot_at v.submissions i).seed_id (erase_submission_slot_locked i v)
                (erase-IsDue i v held.0 h))
      ]

  pub drain_completions-Inv :
      (max_count : ℕ) (v : Verifier X) → Inv v → Inv (drain_completions max_count v).0
  unfolding drain_completions
  drain_completions-Inv zero v h = h
  drain_completions-Inv (suc max_count) v h =
      let (context, status, c) = n.poll v.context in
      let polled = record v { context = context } in
      let inv = context-Inv context v h in
      elim (Bool-cases (is_success status)) [
        | inr e ↦ rw (e, drain_completions) inv
        | inl e ↦
            rw (e, drain_completions)
              (drain_completions-Inv max_count (correlate_completion_locked c polled).0
                (correlate_completion_locked-Inv c polled inv))
      ]

  shutdown_in-Inv :
      (l : Lifecycle) (context : X) (status : Status) (v : Verifier X)
      → Inv v
      → Inv (shutdown_in l context status v).0
  shutdown_in-Inv shutdown context status v h = h
  shutdown_in-Inv failed context status v h = h
  shutdown_in-Inv running context status v h = elim (Bool-cases (is_success status)) [
    | inl e ↦ rw e (record { slots = h.slots; seeds = h.seeds })
    | inr e ↦ rw e (context-Inv context v h)
  ]

  pub shutdown_verifier-Inv :
      (mode : ShutdownMode) (v : Verifier X) → Inv v → Inv (shutdown_verifier mode v).0
  unfolding shutdown_verifier
  shutdown_verifier-Inv mode v h =
      let (context, status) = n.shut_down mode v.context in
      shutdown_in-Inv v.lifecycle context status v h
