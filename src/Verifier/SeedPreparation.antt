-- ===== src/Verifier/SeedPreparation.antt =====
-- src/verifier/verifier.cpp: preparing a seed keeps the invariant.
use monero_solo_stratum.Common.{
  ℕ, zero, suc, ◌+◌, ◌≡◌, ◌≢◌, refl, sym, ap, ◌∙◌, subst, inl, inr, Bool, true, false, not, ◌&&◌,
  none, some, List, [], ◌∷◌, ◌++◌, ◌==◌, if◌then◌else◌, arith, length, All, All-append, Bool-cases,
  Option-cases,
}
use monero_solo_stratum.Verifier.State.{
  is_success, SeedRecord, Native, Verifier, put_seed, is_running_state, find_seed_from,
  find_seed_locked, find_resident_from, erase_seeds, new_seed,
}
use monero_solo_stratum.Verifier.SeedCalls.{
  Query, is_removed, prepare_resident, prepare_new, prepare_seed,
}
use monero_solo_stratum.Verifier.SeedLists.{
  At, At-set, UniqueIds, tracked_of, find_seed_locked-IsFound, find_seed_locked-none,
  find_resident_from-At,
}
use monero_solo_stratum.Verifier.Invariant.{
  IsSound, Inv, At-IsSound, put_seed-Inv, seed_snapshot_locked_lem,
}
use monero_solo_stratum.Verifier.SeedSteps.{context-Inv}
use monero_solo_stratum.Verifier.SeedReleases.{erase-SeedsInv, removed_idle, requested-IsSound}

-- A search in the list with one more record, which finds it or nothing, finds nothing in the list.
find_append :
    (off id : ℕ) (seeds : List SeedRecord) (added : SeedRecord)
    → find_seed_from off id (seeds ++ added ∷ []) ≡ none
    → find_seed_from off id seeds ≡ none
unfolding find_seed_from
find_append off id [] added h = refl
find_append off id (s ∷ ss) added h = ground (arith, find_append (suc off) id ss added)

find_last :
    (off id place : ℕ) (seeds : List SeedRecord) (added found : SeedRecord)
    → find_seed_from off id (seeds ++ added ∷ []) ≡ some (place, found)
    → place ≡ off + length seeds
    → find_seed_from off id seeds ≡ none
unfolding find_seed_from
find_last off id place [] added found h e = refl
find_last off id place (s ∷ ss) added found h e =
    elim (Bool-cases (s.seed_id == id && not s.removed)) [
      | inl y ↦ ground arith
      | inr y ↦ ground (arith, find_last (suc off) id place ss added found)
    ]

At-front :
    (seeds : List SeedRecord) (place : ℕ) (added s : SeedRecord)
    → At (seeds ++ added ∷ []) place s
    → place ≢ length seeds
    → At seeds place s
At-front [] zero added s h e = absurd (e refl)
At-front [] (suc place) added s h e = cc
At-front (x ∷ xs) zero added s h e = h
At-front (x ∷ xs) (suc place) added s h e = At-front xs place added s h (λ q. e (ap suc q))

kept_present :
    (seeds : List SeedRecord) → All (λ s. s.removed ≡ false) (erase_seeds is_removed seeds)
unfolding erase_seeds
kept_present [] = tt
kept_present (s ∷ ss) = go s.removed refl (kept_present ss)
  where
    go :
        (b : Bool)
        → s.removed ≡ b
        → All (λ r. r.removed ≡ false) (erase_seeds is_removed ss)
        → All
            (λ r. r.removed ≡ false)
            (if b then erase_seeds is_removed ss else s ∷ erase_seeds is_removed ss)
    go true e ih = ih
    go false e ih = (e, ih)

append-UniqueIds :
    (seeds : List SeedRecord) (added : SeedRecord)
    → All (λ s. s.seed_id ≢ added.seed_id) seeds
    → UniqueIds seeds
    → UniqueIds (seeds ++ added ∷ [])
append-UniqueIds [] added h u = (tt, tt)
append-UniqueIds (s ∷ ss) added h u = (
  All-append (λ r. r.seed_id ≢ s.seed_id) ss (added ∷ []) u.0 (λ e. h.0 (sym e), tt),
  append-UniqueIds ss added h.1 u.1,
)

tracked_of-append :
    (id : ℕ) (seeds : List SeedRecord) (added : SeedRecord)
    → added.tracked_verifications ≡ 0
    → tracked_of id (seeds ++ added ∷ []) ≡ tracked_of id seeds
unfolding tracked_of
tracked_of-append id [] added h = ground arith
tracked_of-append id (s ∷ ss) added h = ground (arith, tracked_of-append id ss added h)

-- A new record with an id that no record has.
append-Inv :
    {X : Type 0} (hash id : ℕ) (v : Verifier X)
    → find_seed_locked id v.seeds ≡ none
    → All (λ s. s.removed ≡ false) v.seeds
    → Inv v
    → Inv (record v { seeds = v.seeds ++ new_seed hash id ∷ [] })
append-Inv hash id v absent present h =
    let gone = find_seed_locked-none id v.seeds absent in
    record {
      slots = h.slots;
      seeds = record {
        sound =
            All-append (IsSound v.current_seed_id) v.seeds (new_seed hash id ∷ []) h.seeds.sound
              (record { idle = λ s. cc; stale = λ s z. cc; gone = λ r. cc }, tt);
        ids = append-UniqueIds v.seeds (new_seed hash id) (no_id v.seeds gone present) h.seeds.ids;
        tracked =
            λ k. h.seeds.tracked k ∙ sym (tracked_of-append k v.seeds (new_seed hash id) refl);
      };
    }
  where
    no_id :
        (seeds : List SeedRecord)
        → All (λ s. s.seed_id ≡ id → s.removed ≡ true) seeds
        → All (λ s. s.removed ≡ false) seeds
        → All (λ s. s.seed_id ≢ id) seeds
    no_id [] a b = tt
    no_id (s ∷ ss) a b = ((λ e. clash (a.0 e) b.0), no_id ss a.1 b.1)
      where
        clash : s.removed ≡ true → s.removed ≡ false → ⊥
        clash x y = cc

module _ {X : Type 0} ⦃n : Native X⦄ where
  prepare_resident-Inv :
      (place : ℕ) (seed : SeedRecord) (v : Verifier X)
      → At v.seeds place seed
      → Inv v
      → Inv (prepare_resident place seed v).0
  unfolding prepare_resident
  prepare_resident-Inv place seed v at h =
      let seed' = record seed { release_requested = false } in
      let ok = At-IsSound v.current_seed_id v.submissions v.seeds place seed at h.seeds in
      go seed.release_started _ _ (seed_snapshot_locked_lem place seed v at h).inv
        (seed_snapshot_locked_lem place seed' (put_seed place seed' v)
          (At-set v.seeds place seed seed' at)
          (put_seed-Inv place seed seed' v at refl refl
            (requested-IsSound v.current_seed_id false seed ok) h)).inv
    where
      go :
          (b : Bool) (x y : Query X)
          → Inv x.0
          → Inv y.0
          → let r : Query X = if b then x else y in Inv r.0
      go true x y p q = p
      go false x y p q = q

  prepare_new-Inv :
      (hash : ℕ) (v : Verifier X)
      → All (λ s. s.removed ≡ false) v.seeds
      → Inv v
      → Inv (prepare_new hash v).0
  unfolding prepare_new find_seed_locked
  prepare_new-Inv hash v present h =
      let (context, status, id) = n.prepare hash v.context in
      let v' = record v { context = context } in
      let inv = context-Inv context v h in
      let searched = v.seeds ++ new_seed hash 0 ∷ [] in
      elim (Bool-cases (is_success status)) [
        | inr e ↦ rw (e, prepare_new) inv
        | inl e ↦ elim (Option-cases (find_seed_locked id searched)) [
          | inl f ↦
              rw (e, f, prepare_new)
                (append-Inv hash id v' (find_append 0 id v.seeds (new_seed hash 0) f) present inv)
          | inr ((there, existing), f) ↦ elim (Bool-cases (there == length v.seeds)) [
            | inl g ↦
                rw (e, f, g, prepare_new)
                  (append-Inv hash id v'
                    (find_last 0 id there v.seeds (new_seed hash 0) existing f (ground arith))
                    present inv)
            | inr g ↦
                let found = find_seed_locked-IsFound id searched there existing f in
                rw (e, f, g, prepare_new)
                  (seed_snapshot_locked_lem there existing v'
                    (At-front v.seeds there (new_seed hash 0) existing found.at (λ q. ground arith))
                    inv).inv
          ]
        ]
      ]

  pub prepare_seed-Inv : (hash : ℕ) (v : Verifier X) → Inv v → Inv (prepare_seed hash v).0
  unfolding prepare_seed
  prepare_seed-Inv hash v h =
      let seeds = erase_seeds is_removed v.seeds in
      let v' = record v { seeds = seeds } in
      let inv = erase-SeedsInv is_removed v (removed_idle is_removed v (λ s q. q) h) h in
      elim (Bool-cases (is_running_state v.lifecycle)) [
        | inr e ↦ rw (e, prepare_seed) h
        | inl e ↦ elim (Option-cases (find_resident_from 0 hash seeds)) [
          | inl f ↦ rw (e, f, prepare_seed) (prepare_new-Inv hash v' (kept_present v.seeds) inv)
          | inr ((place, seed), f) ↦
              let (q, sum, at) = find_resident_from-At 0 hash seeds place seed f in
              let here : q ≡ place = omega (arith, sum) in
              rw (e, f, prepare_seed)
                (prepare_resident-Inv place seed v' (subst (λ (k : ℕ). At seeds k seed) here at)
                  inv)
        ]
      ]
