-- ===== src/Verifier/SubmissionSteps.antt =====
-- src/verifier/verifier.cpp: submissions and completions keep the adapter's invariant.
use monero_solo_stratum.Common.{
  ℕ, ◌+◌, ◌-◌, ◌<◌, ◌≡◌, ◌≢◌, refl, sym, ◌∙◌, subst, ◌⊎◌, inl, inr, Bool, true, false, ◌||◌, Option,
  List, ltb, leb, ◌==◌, if◌then◌else◌, arith, length, set, All-set, length-set, Bool-cases,
  Option-cases,
}
use monero_solo_stratum.Common.Map.{one_if}
use monero_solo_stratum.Verifier.Table.{
  SubmissionSlot, SubmissionKind, SlotState, empty, occupied, tombstone, slot_at, erased,
  find_submission_insert_slot_locked,
}
use monero_solo_stratum.Verifier.Probes.{Holds}
use monero_solo_stratum.Verifier.Placement.{IsFree, IsAbsent, IsFull, Placed, insert_slot-Placed}
use monero_solo_stratum.Verifier.Slots.{
  count_slots, count_slots-set, is_occupied_state, outstanding, outstanding-full, set-set,
}
use monero_solo_stratum.Verifier.Updates.{erase-IsTable, take-IsTable}
use monero_solo_stratum.Verifier.State.{
  is_success, is_usable, SeedRecord, Native, Verifier, is_running_state, find_seed_locked,
  seed_snapshot_locked,
}
use monero_solo_stratum.Verifier.Submissions.{
  Submitted, taken_slot, native_submit, submit_in, submit_usable, submit_seed, submit_locked,
  lacks_claim, erase_submission_slot_locked,
}
use monero_solo_stratum.Verifier.SeedLists.{
  At, tracked_of-set, set-UniqueIds, find_seed_locked-IsFound,
}
use monero_solo_stratum.Verifier.Invariant.{
  IsSound, Inv, At-IsSound, is_for, seed_snapshot_locked_lem,
}
use monero_solo_stratum.Verifier.SeedSteps.{context-Inv}

free_state : (x : SlotState) → x ≢ occupied → is_occupied_state x ≡ false
free_state empty h = refl
free_state occupied h = absurd (h refl)
free_state tombstone h = refl

-- Erasing a slot that is not occupied changes no number.
module _ (slots : List SubmissionSlot) (i : ℕ) (lt : i < length slots)
    (free : (slot_at slots i).state ≢ occupied) where
  outstanding-unused : outstanding (set slots i erased) ≡ outstanding slots
  unfolding outstanding
  outstanding-unused = ground (
    arith,
    free_state (slot_at slots i).state free,
    count_slots-set (λ s. is_occupied_state s.state) slots i erased lt,
  )

  count-unused :
      (id : ℕ) → count_slots (is_for id) (set slots i erased) ≡ count_slots (is_for id) slots
  count-unused id = ground (
    arith,
    free_state (slot_at slots i).state free,
    count_slots-set (is_for id) slots i erased lt,
  )

  outstanding-taken :
      (v : SubmissionSlot)
      → v.state ≡ occupied
      → outstanding (set slots i v) ≡ outstanding slots + 1
  unfolding outstanding
  outstanding-taken v o = ground (
    arith,
    free_state (slot_at slots i).state free,
    o,
    count_slots-set (λ s. is_occupied_state s.state) slots i v lt,
  )

  count-taken :
      (id : ℕ) (v : SubmissionSlot)
      → v.state ≡ occupied
      → count_slots (is_for id) (set slots i v)
        ≡ count_slots (is_for id) slots + one_if (v.seed_id == id)
  count-taken id v o =
      ground (
        arith,
        free_state (slot_at slots i).state free,
        o,
        count_slots-set (is_for id) slots i v lt,
      )

module _ {X : Type 0} ⦃n : Native X⦄ where
  refused-Inv :
      (v : Verifier X) (i : ℕ)
      → i < length v.submissions
      → (slot_at v.submissions i).state ≢ occupied
      → Inv v
      → Inv (record v { submissions = set v.submissions i erased })
  refused-Inv v i lt free h = record {
    slots = record {
      table = erase-IsTable v.submissions i lt h.slots.table;
      room = omega (arith, h.slots.room, length-set v.submissions i erased);
      counted = h.slots.counted ∙ sym (outstanding-unused v.submissions i lt free);
      bounded = h.slots.bounded;
    };
    seeds = record {
      sound = h.seeds.sound;
      ids = h.seeds.ids;
      tracked = λ id. count-unused v.submissions i lt free id ∙ h.seeds.tracked id;
    };
  }

  accepted-Inv :
      (v : Verifier X) (i place user_tag : ℕ) (seed : SeedRecord) (slot : SubmissionSlot)
      → IsFree v.submissions user_tag i
      → IsAbsent v.submissions user_tag
      → Holds slot user_tag
      → slot.seed_id ≡ seed.seed_id
      → v.tracked_submissions < v.config.max_outstanding
      → At v.seeds place seed
      → seed.release_started ≡ false
      → Inv v
      → Inv (record v {
        submissions = set v.submissions i slot;
        tracked_submissions = v.tracked_submissions + 1;
        seeds =
            set v.seeds place
              (record seed { tracked_verifications = seed.tracked_verifications + 1 });
      })
  accepted-Inv v i place user_tag seed slot free absent holds same less at fresh h =
      let more = record seed { tracked_verifications = seed.tracked_verifications + 1 } in
      let ok = At-IsSound v.current_seed_id v.submissions v.seeds place seed at h.seeds in
      record {
        slots = record {
          table = take-IsTable v.submissions i user_tag slot holds free absent h.slots.table;
          room = omega (arith, h.slots.room, length-set v.submissions i slot);
          counted = omega (
            arith,
            h.slots.counted,
            outstanding-taken v.submissions i free.0 free.1 slot holds.0,
          );
          bounded = omega arith;
        };
        seeds = record {
          sound =
              All-set (IsSound v.current_seed_id) v.seeds place more
                (record { idle = λ s. cc; stale = λ s z. cc; gone = ok.gone }) h.seeds.sound;
          ids = set-UniqueIds v.seeds place seed more at refl h.seeds.ids;
          tracked = λ id. ground (
            arith,
            same,
            h.seeds.tracked id,
            count-taken v.submissions i free.0 free.1 id slot holds.0,
            tracked_of-set id v.seeds place seed more at,
          );
        };
      }

  submit_in-Inv :
      (kind : SubmissionKind) (id : ℕ) (input : List ℕ) (claimed : Option (List ℕ))
      (user_tag i place : ℕ) (seed : SeedRecord) (v : Verifier X)
      → IsFree v.submissions user_tag i
      → IsAbsent v.submissions user_tag
      → seed.seed_id ≡ id
      → v.tracked_submissions < v.config.max_outstanding
      → At v.seeds place seed
      → seed.release_started ≡ false
      → Inv v
      → Inv (submit_in kind id input claimed user_tag i place seed v).0
  unfolding submit_in erase_submission_slot_locked
  submit_in-Inv kind id input claimed user_tag i place seed v free absent same less at fresh h =
      let (context, status, ticket) = native_submit kind id input claimed user_tag v.context in
      let w = record v { context = context } in
      let first = taken_slot kind id user_tag 0 in
      let inv = context-Inv context v h in
      elim (Bool-cases (is_success status)) [
        | inr e ↦
            rw (e, submit_in, set-set v.submissions i first erased, add_sub v.tracked_submissions)
              (refused-Inv w i free.0 free.1 inv)
        | inl e ↦
            rw (e, submit_in, set-set v.submissions i first (taken_slot kind id user_tag ticket))
              (accepted-Inv w i place user_tag seed (taken_slot kind id user_tag ticket) free absent
                (refl, refl) (sym same) less at fresh inv)
      ]
    where
      add_sub : (a : ℕ) → a + 1 - 1 ≡ a
      add_sub a = omega arith

  -- The table has room for one more than is outstanding, so a place is found.
  pub not-IsFull :
      (v : Verifier X)
      → v.tracked_submissions < v.config.max_outstanding
      → Inv v
      → ¬ IsFull v.submissions
  not-IsFull v less h full =
      absurd (omega (arith, h.slots.counted, h.slots.room, outstanding-full v.submissions full))

  submit_usable-Inv :
      (kind : SubmissionKind) (id : ℕ) (input : List ℕ) (claimed : Option (List ℕ))
      (user_tag place : ℕ) (seed : SeedRecord) (v : Verifier X)
      → seed.seed_id ≡ id
      → At v.seeds place seed
      → seed.release_started ≡ false
      → Inv v
      → Inv (submit_usable kind id input claimed user_tag place seed v).0
  unfolding submit_usable
  submit_usable-Inv kind id input claimed user_tag place seed v same at fresh h =
      let (i, already) = find_submission_insert_slot_locked v.submissions user_tag in
      elim (Bool-cases (leb v.config.max_outstanding v.tracked_submissions)) [
        | inl e ↦ rw (e, submit_usable) h
        | inr e ↦ elim (Bool-cases already) [
          | inl f ↦ rw (e, f, submit_usable) h
          | inr f ↦ elim (Bool-cases (i == length v.submissions)) [
            | inl g ↦ rw (e, f, g, submit_usable) h
            | inr g ↦
                let placed =
                  subst (Placed v.submissions user_tag i) f
                    (insert_slot-Placed v.submissions user_tag h.slots.table) in
                rw (e, f, g, submit_usable)
                  (submit_in-Inv kind id input claimed user_tag i place seed v
                    (IsFree-of v user_tag i g placed.1) placed.0 same (ground arith) at fresh h)
          ]
        ]
      ]
    where
      IsFree-of :
          (w : Verifier X) (tag i : ℕ)
          → (i == length w.submissions) ≡ false
          → ((i ≡ length w.submissions) × IsFull w.submissions) ⊎ IsFree w.submissions tag i
          → IsFree w.submissions tag i
      IsFree-of w tag i g (inl (e, full)) = absurd (ground arith)
      IsFree-of w tag i g (inr free) = free

  submit_seed-Inv :
      (kind : SubmissionKind) (id : ℕ) (input : List ℕ) (claimed : Option (List ℕ))
      (user_tag place : ℕ) (seed : SeedRecord) (v : Verifier X)
      → seed.seed_id ≡ id
      → At v.seeds place seed
      → Inv v
      → Inv (submit_seed kind id input claimed user_tag place seed v).0
  unfolding submit_seed
  submit_seed-Inv kind id input claimed user_tag place seed v same at h =
      let seen = seed_snapshot_locked place seed v in
      let result = seed_snapshot_locked_lem place seed v at h in
      go seed.release_started _ _ h (λ fresh. elim (Bool-cases (is_success seen.1)) [
        | inr f ↦ rw f result.inv
        | inl f ↦ elim (Bool-cases (is_usable seen.2.info.state)) [
          | inr g ↦ rw (f, g) result.inv
          | inl g ↦
              rw (f, g)
                (submit_usable-Inv kind id input claimed user_tag place seen.2 seen.0
                  (result.seen.id ∙ same) result.at (result.seen.started ∙ fresh) result.inv)
        ]
      ])
    where
      go :
          (b : Bool) (x y : Submitted X)
          → Inv x.0
          → (b ≡ false → Inv y.0)
          → let r : Submitted X = if b then x else y in Inv r.0
      go true x y p q = p
      go false x y p q = q refl

  pub submit_locked-Inv :
      (kind : SubmissionKind) (id : ℕ) (input : List ℕ) (claimed : Option (List ℕ)) (user_tag : ℕ)
      (v : Verifier X)
      → Inv v
      → Inv (submit_locked kind id input claimed user_tag v).0
  unfolding submit_locked
  submit_locked-Inv kind id input claimed user_tag v h =
      elim (Bool-cases (is_running_state v.lifecycle)) [
        | inr e ↦ rw (e, submit_locked) h
        | inl e ↦
            elim (Bool-cases (
              user_tag == 0
              || length input == 0
              || ltb v.config.max_input_size (length input)
              || lacks_claim kind claimed)) [
                | inl f ↦ rw (e, f, submit_locked) h
                | inr f ↦ elim (Option-cases (find_seed_locked id v.seeds)) [
                  | inl g ↦ rw (e, f, g, submit_locked) h
                  | inr ((place, seed), g) ↦
                      let found = find_seed_locked-IsFound id v.seeds place seed g in
                      rw (e, f, g, submit_locked)
                        (submit_seed-Inv kind id input claimed user_tag place seed v found.same
                          found.at h)
                ]
              ]
      ]
