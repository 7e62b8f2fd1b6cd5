-- ===== src/Verifier/SeedReleases.antt =====
-- src/verifier/verifier.cpp: references to a seed, its release and its preparation keep the invariant.
use monero_solo_stratum.Common.{
  ℕ, zero, suc, ◌+◌, ◌-◌, ◌^◌, ◌≡◌, refl, sym, ap, ◌∙◌, subst, inl, inr, Bool, true, false, List,
  [], ◌∷◌, ◌==◌, ==_iff, if◌then◌else◌, arith, get_or, All, All-mono, Bool-cases, Option-cases,
}
use monero_solo_stratum.Verifier.State.{
  Status, success, seed_not_found, seed_releasing, internal_error, is_success, SeedRecord, Native,
  Verifier, put_seed, released, is_releasable, is_running_state, find_seed_locked,
  maybe_begin_seed_release_locked, erase_seeds,
}
use monero_solo_stratum.Verifier.SeedCalls.{
  retain_body, retain_seed, drop_body, drop_seed_reference, request_seed_release, has_id,
  is_removed_id, any_seed, end_wait_released, wait_released_body, wait_seed_released,
}
use monero_solo_stratum.Verifier.SeedLists.{
  At, At-set, IsFound, find_seed_locked-IsFound, tracked_of-erase, erase-All, erase-UniqueIds,
}
use monero_solo_stratum.Verifier.Invariant.{IsSound, Inv, At-IsSound, put_seed-Inv}
use monero_solo_stratum.Verifier.SeedSteps.{
  only_one, with_seed-Inv, context-Inv, put_and_release-Inv,
}

-- Records that track nothing may be erased.
pub erase-SeedsInv :
    (p : SeedRecord → Bool) {X : Type 0} (v : Verifier X)
    → All (λ s. p s ≡ true → s.tracked_verifications ≡ 0) v.seeds
    → Inv v
    → Inv (record v { seeds = erase_seeds p v.seeds })
erase-SeedsInv p v idle h = record {
  slots = h.slots;
  seeds = record {
    sound = erase-All (IsSound v.current_seed_id) p v.seeds h.seeds.sound;
    ids = erase-UniqueIds p v.seeds h.seeds.ids;
    tracked = λ id. h.seeds.tracked id ∙ sym (tracked_of-erase p id v.seeds idle);
  };
}

pub removed_idle :
    (p : SeedRecord → Bool) {X : Type 0} (v : Verifier X)
    → ((s : SeedRecord) → p s ≡ true → s.removed ≡ true)
    → Inv v
    → All (λ s. p s ≡ true → s.tracked_verifications ≡ 0) v.seeds
removed_idle p v only h =
    All-mono (IsSound v.current_seed_id) (λ s. p s ≡ true → s.tracked_verifications ≡ 0) v.seeds
      (λ s ok e. (ok.idle (ok.gone (only s e))).1) h.seeds.sound

pub requested-IsSound :
    (id : ℕ) (b : Bool) (seed : SeedRecord)
    → IsSound id seed
    → IsSound id (record seed { release_requested = b })
requested-IsSound id b seed h = record { idle = h.idle; stale = h.stale; gone = h.gone }

module _ {X : Type 0} ⦃n : Native X⦄ where
  pub retain_seed-Inv : (id : ℕ) (v : Verifier X) → Inv v → Inv (retain_seed id v).0
  unfolding retain_seed
  retain_seed-Inv id v h = with_seed-Inv id retain_body v (λ place seed f. go place seed f) h
    where
      choose :
          (b c : Bool) (w : Verifier X) (x y z : Status)
          → (b ≡ false → Inv w)
          → let r : Verifier X × Status = if b then (v, x) else if c then (v, y) else (w, z) in
            Inv r.0
      choose true c w x y z k = h
      choose false true w x y z k = h
      choose false false w x y z k = k refl

      go :
          (place : ℕ) (seed : SeedRecord)
          → IsFound v.seeds id place seed
          → Inv (retain_body place seed v).0
      go place seed f =
          let more = record seed { retained_job_references = seed.retained_job_references + 1 } in
          let ok = At-IsSound v.current_seed_id v.submissions v.seeds place seed f.at h.seeds in
          choose seed.release_started (seed.retained_job_references == 2 ^ 64 - 1)
            (put_seed place more v) seed_releasing internal_error success
            (λ fresh.
              put_seed-Inv place seed more v f.at refl refl
                (record { idle = λ s. cc; stale = λ s z. cc; gone = ok.gone }) h)

  pub drop_seed_reference-Inv : (id : ℕ) (v : Verifier X) → Inv v → Inv (drop_seed_reference id v).0
  unfolding drop_seed_reference
  drop_seed_reference-Inv id v h = with_seed-Inv id drop_body v (λ place seed f. go place seed f) h
    where
      go :
          (place : ℕ) (seed : SeedRecord)
          → IsFound v.seeds id place seed
          → Inv (drop_body place seed v).0
      go place seed f =
          let less = record seed { retained_job_references = seed.retained_job_references - 1 } in
          let ok = At-IsSound v.current_seed_id v.submissions v.seeds place seed f.at h.seeds in
          elim (Bool-cases (seed.retained_job_references == 0)) [
            | inl e ↦ simp e h
            | inr e ↦ simp e (
                put_and_release-Inv place seed less v f.at refl refl
                  (record {
                    idle = λ s. (omega (arith, (ok.idle s).0), (ok.idle s).1);
                    stale = ok.stale;
                    gone = ok.gone;
                  })
                  h)
          ]

  pub request_seed_release-Inv :
      (id : ℕ) (v : Verifier X) → Inv v → Inv (request_seed_release id v).0
  unfolding request_seed_release
  request_seed_release-Inv id v h = elim (Bool-cases (is_running_state v.lifecycle)) [
    | inr e ↦ rw (e, request_seed_release) h
    | inl e ↦ elim (Option-cases (find_seed_locked id v.seeds)) [
      | inl f ↦ elim (Bool-cases (any_seed (is_removed_id id) v.seeds)) [
        | inr g ↦ rw (e, f, g, request_seed_release) h
        | inl g ↦
            rw (e, f, g, request_seed_release)
              (erase-SeedsInv (is_removed_id id) v
                (removed_idle (is_removed_id id) v (λ s q. ground arith) h) h)
      ]
      | inr ((place, seed), f) ↦
          let at = (find_seed_locked-IsFound id v.seeds place seed f).at in
          rw (e, f, request_seed_release)
            (put_and_release-Inv place seed (record seed { release_requested = true }) v at refl
              refl
              (requested-IsSound v.current_seed_id true seed
                (At-IsSound v.current_seed_id v.submissions v.seeds place seed at h.seeds))
              h)
    ]
  ]

-- What stands at a record's place after its release may have begun.
record IsBegun (place : ℕ) (seed : SeedRecord) (seeds : List SeedRecord) : Type 0 where
  now : SeedRecord
  at : At seeds place now
  same : now.seed_id ≡ seed.seed_id

released-id :
    (status : Status) (seed : SeedRecord) → (released status seed).0.seed_id ≡ seed.seed_id
released-id success seed = refl
released-id seed_releasing seed = refl
released-id seed_not_found seed = refl
released-id status seed = refl

get_or-At :
    (seeds : List SeedRecord) (place : ℕ) (s d : SeedRecord)
    → At seeds place s
    → get_or seeds place d ≡ s
get_or-At [] place s d h = cc
get_or-At (x ∷ xs) zero s d h = cc
get_or-At (x ∷ xs) (suc place) s d h = get_or-At xs place s d h

-- The records with the id of a seed whose release has started track nothing.
started_idle :
    {X : Type 0} (v : Verifier X) (place id : ℕ) (now : SeedRecord)
    → At v.seeds place now
    → now.seed_id ≡ id
    → now.release_started ≡ true
    → Inv v
    → All (λ s. has_id id s ≡ true → s.tracked_verifications ≡ 0) v.seeds
started_idle v place id now at same started h =
    let ok = At-IsSound v.current_seed_id v.submissions v.seeds place now at h.seeds in
    All-mono (λ r. r.seed_id ≡ now.seed_id → r ≡ now)
      (λ s. has_id id s ≡ true → s.tracked_verifications ≡ 0) v.seeds
      (λ s only e.
        ap (λ (t : SeedRecord). t.tracked_verifications)
          (only ((==_iff s.seed_id id).0 e ∙ sym same))
        ∙ (ok.idle started).1)
      (only_one v.seeds place now at h.seeds.ids)

module _ {X : Type 0} ⦃n : Native X⦄ where
  maybe_begin-IsBegun :
      (place : ℕ) (seed : SeedRecord) (v : Verifier X)
      → At v.seeds place seed
      → IsBegun place seed (maybe_begin_seed_release_locked place seed v).0.seeds
  unfolding maybe_begin_seed_release_locked
  maybe_begin-IsBegun place seed v at =
      let (context, status) = n.release seed.seed_id v.context in
      elim (Bool-cases (is_releasable v.current_seed_id seed)) [
        | inr e ↦
            rw (e, maybe_begin_seed_release_locked) (record { now = seed; at = at; same = refl })
        | inl e ↦ elim (Bool-cases (is_running_state v.lifecycle)) [
          | inr f ↦
              rw (e, f, maybe_begin_seed_release_locked)
                (record { now = seed; at = at; same = refl })
          | inl f ↦
              rw (e, f, maybe_begin_seed_release_locked)
                (record {
                  now = (released status seed).0;
                  at = At-set v.seeds place seed (released status seed).0 at;
                  same = released-id status seed;
                })
        ]
      ]

  end_wait_released-Inv :
      (id : ℕ) (status : Status) (v : Verifier X)
      → All (λ s. has_id id s ≡ true → s.tracked_verifications ≡ 0) v.seeds
      → Inv v
      → Inv (end_wait_released id status v).0
  end_wait_released-Inv id success v idle h = erase-SeedsInv (has_id id) v idle h
  end_wait_released-Inv id seed_not_found v idle h = erase-SeedsInv (has_id id) v idle h
  end_wait_released-Inv id status v idle h = h

  wait_released_body-Inv :
      (timeout place : ℕ) (seed : SeedRecord) (v : Verifier X)
      → At v.seeds place seed
      → Inv v
      → Inv (wait_released_body timeout place seed v).0
  unfolding wait_released_body
  wait_released_body-Inv timeout place seed v at h =
      let seed' = record seed { release_requested = true } in
      let put = put_seed place seed' v in
      let (begun, begin_status) = maybe_begin_seed_release_locked place seed' put in
      let (context, status) = n.wait_released seed.seed_id timeout begun.context in
      let ok = At-IsSound v.current_seed_id v.submissions v.seeds place seed at h.seeds in
      let inv : Inv begun =
        put_and_release-Inv place seed seed' v at refl refl
          (requested-IsSound v.current_seed_id true seed ok) h in
      let after = maybe_begin-IsBegun place seed' put (At-set v.seeds place seed seed' at) in
      let there = get_or-At begun.seeds place after.now seed' after.at in
      let polled = context-Inv context begun inv in
      elim (Bool-cases (is_success begin_status)) [
        | inr e ↦ rw (e, wait_released_body) inv
        | inl e ↦ elim (Bool-cases (seed.seed_id == begun.current_seed_id)) [
          | inl f ↦ rw (e, f, wait_released_body) inv
          | inr f ↦ elim (Bool-cases (get_or begun.seeds place seed').release_started) [
            | inr g ↦ rw (e, f, g, wait_released_body) inv
            | inl g ↦
                let started : after.now.release_started ≡ true =
                  subst (λ (s : SeedRecord). s.release_started ≡ true) there g in
                rw (e, f, g, wait_released_body)
                  (end_wait_released-Inv seed.seed_id status (record begun { context = context })
                    (started_idle (record begun { context = context }) place seed.seed_id after.now
                      after.at after.same started polled)
                    polled)
          ]
        ]
      ]

  pub wait_seed_released-Inv :
      (id timeout : ℕ) (v : Verifier X) → Inv v → Inv (wait_seed_released id timeout v).0
  unfolding wait_seed_released
  wait_seed_released-Inv id timeout v h =
      with_seed-Inv id (wait_released_body timeout) v
        (λ place seed f. wait_released_body-Inv timeout place seed v f.at h) h
