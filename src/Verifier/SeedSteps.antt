-- ===== src/Verifier/SeedSteps.antt =====
-- src/verifier/verifier.cpp: the operations on a seed keep the adapter's invariant.
use monero_solo_stratum.Common.{
  ℕ, zero, suc, ◌≡◌, ◌≢◌, refl, sym, ap, ◌∙◌, subst, inl, inr, Bool, true, false, not, ◌&&◌, ◌||◌,
  List, [], ◌∷◌, ◌==◌, if◌then◌else◌, arith, length, get_elem?, All, All-get_elem?, All-mono,
  Bool-cases, Option-cases,
}
use monero_solo_stratum.Verifier.State.{
  Status, SeedState, ready, current, is_success, is_usable, SeedRecord, Native, Verifier, put_seed,
  set_state, is_running_state, find_seed_locked, seed_snapshot_locked,
  maybe_begin_seed_release_locked,
}
use monero_solo_stratum.Verifier.SeedCalls.{
  with_seed, wait_ready_body, wait_seed_ready, snapshot_body, seed_snapshot, retire_former,
  make_current, activate_body, activate_seed, deactivate_seed, snapshots_from, seed_snapshots,
}
use monero_solo_stratum.Verifier.SeedLists.{
  At, At-set, UniqueIds, IsFound, find_seed_locked-IsFound,
}
use monero_solo_stratum.Verifier.Invariant.{
  IsSound, SeedsInv, Inv, At-IsSound, put_seed-Inv, seed_snapshot_locked_lem,
  maybe_begin_seed_release_locked-Inv,
}

-- Only one record has the id.
pub only_one :
    (seeds : List SeedRecord) (place : ℕ) (seed : SeedRecord)
    → At seeds place seed
    → UniqueIds seeds
    → All (λ r. r.seed_id ≡ seed.seed_id → r ≡ seed) seeds
only_one [] place seed at u = cc
only_one (s ∷ ss) zero seed at u =
    let e : s ≡ seed = cc in
    (
      λ _. e,
      All-mono (λ r. r.seed_id ≢ s.seed_id) (λ r. r.seed_id ≡ seed.seed_id → r ≡ seed) ss
          (λ r differs same. absurd (differs (same ∙ ap (λ (t : SeedRecord). t.seed_id) (sym e))))
          u.0,
    )
only_one (s ∷ ss) (suc place) seed at u =
    let differs = All-get_elem? (λ r. r.seed_id ≢ s.seed_id) ss place seed at u.0 in
    (λ same. absurd (differs (sym same)), only_one ss place seed at u.1)

-- Another seed becomes current, whose release has not started.
current-SeedsInv :
    {X : Type 0} (v : Verifier X) (place id : ℕ) (seed : SeedRecord)
    → At v.seeds place seed
    → seed.seed_id ≡ id
    → seed.release_started ≡ false
    → Inv v
    → SeedsInv id v.submissions v.seeds
current-SeedsInv v place id seed at same fresh h = record {
  sound = go v.seeds h.seeds.sound (only_one v.seeds place seed at h.seeds.ids);
  ids = h.seeds.ids;
  tracked = h.seeds.tracked;
}
  where
    go :
        (seeds : List SeedRecord)
        → All (IsSound v.current_seed_id) seeds
        → All (λ r. r.seed_id ≡ seed.seed_id → r ≡ seed) seeds
        → All (IsSound id) seeds
    go [] a b = tt
    go (r ∷ rs) a b = (
      record {
        idle = a.0.idle;
        stale = λ started nonzero e.
            differ
              (subst (λ (t : SeedRecord). t.release_started ≡ true) (b.0 (e ∙ sym same)) started);
        gone = a.0.gone;
      },
      go rs a.1 b.1,
    )
      where
        differ : seed.release_started ≡ true → ⊥
        differ e = cc

set_state-IsSound :
    (id : ℕ) (state : SeedState) (seed : SeedRecord)
    → IsSound id seed
    → IsSound id (set_state state seed)
set_state-IsSound id state seed h = record { idle = h.idle; stale = h.stale; gone = h.gone }

module _ {X : Type 0} where
  pub with_seed-Inv :
      (id : ℕ) (body : ℕ → SeedRecord → Verifier X → Verifier X × Status) (v : Verifier X)
      → ((place : ℕ) (seed : SeedRecord)
          → IsFound v.seeds id place seed
          → Inv (body place seed v).0)
      → Inv v
      → Inv (with_seed id body v).0
  unfolding with_seed
  with_seed-Inv id body v keeps h = elim (Bool-cases (is_running_state v.lifecycle)) [
    | inr e ↦ rw (e, with_seed) h
    | inl e ↦ elim (Option-cases (find_seed_locked id v.seeds)) [
      | inl f ↦ rw (e, f, with_seed) h
      | inr ((place, seed), f) ↦
          rw (e, f, with_seed) (keeps place seed (find_seed_locked-IsFound id v.seeds place seed f))
    ]
  ]

  pub context-Inv : (x : X) (v : Verifier X) → Inv v → Inv (record v { context = x })
  context-Inv x v h = record { slots = h.slots; seeds = h.seeds }

module _ {X : Type 0} ⦃n : Native X⦄ where
  pub wait_seed_ready-Inv :
      (id timeout : ℕ) (v : Verifier X) → Inv v → Inv (wait_seed_ready id timeout v).0
  unfolding wait_seed_ready
  wait_seed_ready-Inv id timeout v h =
      with_seed-Inv id (wait_ready_body timeout) v
        (λ place seed f.
          let (context, status) = n.wait_ready seed.seed_id timeout v.context in
          (seed_snapshot_locked_lem place seed (record v { context = context }) f.at
            (context-Inv context v h)).inv)
        h

  pub seed_snapshot-Inv : (id : ℕ) (v : Verifier X) → Inv v → Inv (seed_snapshot id v).0
  unfolding seed_snapshot
  seed_snapshot-Inv id v h =
      with_seed-Inv id snapshot_body v
        (λ place seed f. (seed_snapshot_locked_lem place seed v f.at h).inv) h

  -- A change of a record that may allow its release.
  pub put_and_release-Inv :
      (place : ℕ) (old new : SeedRecord) (v : Verifier X)
      → At v.seeds place old
      → new.seed_id ≡ old.seed_id
      → new.tracked_verifications ≡ old.tracked_verifications
      → IsSound v.current_seed_id new
      → Inv v
      → Inv (maybe_begin_seed_release_locked place new (put_seed place new v)).0
  put_and_release-Inv place old new v at same tracks ok h =
      maybe_begin_seed_release_locked-Inv place new (put_seed place new v)
        (At-set v.seeds place old new at) (put_seed-Inv place old new v at same tracks ok h)

  retire_former-Inv : (former : ℕ) (v : Verifier X) → Inv v → Inv (retire_former former v)
  unfolding retire_former
  retire_former-Inv former v h = elim (Option-cases (find_seed_locked former v.seeds)) [
    | inl e ↦ rw (e, retire_former) h
    | inr ((place, seed), e) ↦
        let f = find_seed_locked-IsFound former v.seeds place seed e in
        rw (e, retire_former)
          (put_and_release-Inv place seed (set_state ready seed) v f.at refl refl
            (set_state-IsSound v.current_seed_id ready seed
              (At-IsSound v.current_seed_id v.submissions v.seeds place seed f.at h.seeds))
            h)
  ]

  make_current-Inv :
      (id place : ℕ) (seed : SeedRecord) (v : Verifier X)
      → At v.seeds place seed
      → seed.seed_id ≡ id
      → seed.release_started ≡ false
      → Inv v
      → Inv (make_current id place seed v).0
  unfolding make_current
  make_current-Inv id place seed v at same fresh h =
      let (context, status) = n.activate id v.context in
      let switched = record v { context = context; current_seed_id = id } in
      let inv : Inv switched = record {
        slots = h.slots;
        seeds = current-SeedsInv v place id seed at same fresh h;
      } in
      let put =
        put_seed-Inv place seed (set_state current seed) switched at refl refl
          (set_state-IsSound id current seed
            (At-IsSound id v.submissions v.seeds place seed at inv.seeds))
          inv in
      elim (Bool-cases (is_success status)) [
        | inr e ↦ rw (e, make_current) (context-Inv context v h)
        | inl e ↦
            elim (Bool-cases (not (v.current_seed_id == 0) && not (v.current_seed_id == id))) [
              | inl f ↦
                  rw (e, f, make_current)
                    (retire_former-Inv v.current_seed_id
                      (put_seed place (set_state current seed) switched) put)
              | inr f ↦ rw (e, f, make_current) put
            ]
      ]

  pub activate_seed-Inv : (id : ℕ) (v : Verifier X) → Inv v → Inv (activate_seed id v).0
  unfolding activate_seed activate_body
  activate_seed-Inv id v h =
      with_seed-Inv id (activate_body id) v (λ place seed f. go place seed f) h
    where
      go :
          (place : ℕ) (seed : SeedRecord)
          → IsFound v.seeds id place seed
          → Inv (activate_body id place seed v).0
      go place seed f =
          let seen = seed_snapshot_locked place seed v in
          let result = seed_snapshot_locked_lem place seed v f.at h in
          elim (Bool-cases (seed.release_requested || seed.release_started)) [
            | inl e ↦ rw (e, activate_body) h
            | inr e ↦
                let fresh : seed.release_started ≡ false = ground arith in
                elim (Bool-cases (is_success seen.1)) [
                  | inr g ↦ rw (e, g, activate_body) result.inv
                  | inl g ↦ elim (Bool-cases (is_usable seen.2.info.state)) [
                    | inr k ↦ rw (e, g, k, activate_body) result.inv
                    | inl k ↦
                        rw (e, g, k, activate_body)
                          (make_current-Inv id place seen.2 seen.0 result.at
                            (result.seen.id ∙ f.same) (result.seen.started ∙ fresh) result.inv)
                  ]
                ]
          ]

  pub deactivate_seed-Inv : (v : Verifier X) → Inv v → Inv (deactivate_seed v).0
  unfolding deactivate_seed
  deactivate_seed-Inv v h =
      let (context, status) = n.deactivate v.context in
      let cleared = record v { context = context; current_seed_id = 0 } in
      let inv : Inv cleared = record {
        slots = h.slots;
        seeds = record {
          sound =
              All-mono (IsSound v.current_seed_id) (IsSound 0) v.seeds
                (λ r s. record {
                  idle = s.idle;
                  stale = λ started z. absurd (z refl);
                  gone = s.gone;
                })
                h.seeds.sound;
          ids = h.seeds.ids;
          tracked = h.seeds.tracked;
        };
      } in
      elim (Bool-cases (is_running_state v.lifecycle)) [
        | inr e ↦ rw (e, deactivate_seed) h
        | inl e ↦ elim (Bool-cases (v.current_seed_id == 0)) [
          | inl f ↦ rw (e, f, deactivate_seed) h
          | inr f ↦ elim (Bool-cases (is_success status)) [
            | inr g ↦ rw (e, f, g, deactivate_seed) (context-Inv context v h)
            | inl g ↦
                rw (e, f, g, deactivate_seed) (retire_former-Inv v.current_seed_id cleared inv)
          ]
        ]
      ]

  snapshots_from-Inv :
      (left place : ℕ) (v : Verifier X) → Inv v → Inv (snapshots_from left place v).0
  unfolding snapshots_from
  snapshots_from-Inv zero place v h = h
  snapshots_from-Inv (suc left) place v h = elim (Option-cases (get_elem? v.seeds place)) [
    | inl e ↦ rw (e, snapshots_from) h
    | inr (seed, e) ↦
        let seen = seed_snapshot_locked place seed v in
        let result = seed_snapshot_locked_lem place seed v e h in
        let skipped = snapshots_from-Inv left (suc place) v h in
        let more = snapshots_from-Inv left (suc place) seen.0 result.inv in
        rw (e, snapshots_from) (go seed.removed _ _ skipped more)
  ]
    where
      go :
          (b : Bool) (x y : Verifier X × List SeedRecord)
          → Inv x.0
          → Inv y.0
          → let r : Verifier X × List SeedRecord = if b then x else y in Inv r.0
      go true x y p q = p
      go false x y p q = q

  pub seed_snapshots-Inv : (v : Verifier X) → Inv v → Inv (seed_snapshots v).0
  unfolding seed_snapshots
  seed_snapshots-Inv v h = elim (Bool-cases (is_running_state v.lifecycle)) [
    | inr e ↦ rw (e, seed_snapshots) h
    | inl e ↦ rw (e, seed_snapshots) (snapshots_from-Inv (length v.seeds) 0 v h)
  ]
