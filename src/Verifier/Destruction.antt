-- ===== src/Verifier/Destruction.antt =====
-- src/verifier/verifier.cpp: the destructor and the statistics. The calls on the native context that
-- only they make are arguments.
use monero_solo_stratum.Common.{
  either, ℕ, zero, suc, sym, subst, Option, none, some, ◌-◌, ◌≤◌, ◌<◌, ◌≡◌, refl, ap, Bool, true,
  false, not, if◌then◌else◌, arith,
}
use monero_solo_stratum.Verifier.State.{
  Status, success, not_running, is_success, Lifecycle, running, shutdown, failed, is_running_state,
  SeedRecord, is_releasable, released, put_seed, find_seed_locked, maybe_begin_seed_release_locked,
  drain, cancel_pending, NativeCompletion, Native, Verifier,
}
use monero_solo_stratum.Verifier.Submissions.{
  Completion, erase_submission_slot_locked, untrack, correlate_completion_locked,
}

module _ {X : Type 0} ⦃n : Native X⦄ where
  -- Rounds until a poll has none.
  unfoldable pub discard_completions_locked : ℕ → Verifier X → Verifier X
  unfolding correlate_completion_locked
  discard_completions_locked zero v = v
  discard_completions_locked (suc rounds) v =
      let (context, status, c) = n.poll v.context in
      let polled = record v { context = context } in
      let rest = discard_completions_locked rounds (correlate_completion_locked c polled).0 in
      if not (is_success status) then polled else rest

  -- The second attempt is made when the first failed.
  abbrev pub shut_down_or_cancel : Verifier X → Verifier X
  shut_down_or_cancel v =
      let drained = n.shut_down drain v.context in
      let cancelled = n.shut_down cancel_pending drained.0 in
      let last = if is_success drained.1 then drained else cancelled in
      if is_success last.1
      then record v { context = last.0; lifecycle = shutdown }
      else record v { context = last.0 }

  abbrev pub discard_if_shut_down : ℕ → Lifecycle → Verifier X → Verifier X
  discard_if_shut_down rounds shutdown v = discard_completions_locked rounds v
  discard_if_shut_down rounds other v = v

  abbrev pub shut_down_if_running : Lifecycle → Verifier X → Verifier X
  shut_down_if_running running v = shut_down_or_cancel v
  shut_down_if_running other v = v

  -- `destroy` is mspv_destroy.
  unfoldable pub destroy_verifier : (X → X) → ℕ → Verifier X → Verifier X
  unfolding discard_completions_locked
  destroy_verifier destroy rounds v =
      let ended = shut_down_if_running v.lifecycle v in
      let emptied = discard_if_shut_down rounds ended.lifecycle ended in
      record emptied { context = destroy emptied.context; lifecycle = failed }

  -- `get_stats` is mspv_get_stats.
  unfoldable pub stats_of :
      {A : Type 0} → (X → X × Status × A) → A → Verifier X → Verifier X × Status × A
  stats_of get_stats empty v =
      let (context, status, stats) = get_stats v.context in
      if is_running_state v.lifecycle
      then (record v { context = context }, status, stats)
      else (v, not_running, empty)

  maybe_begin_stays :
      (place : ℕ) (seed : SeedRecord) (v : Verifier X)
      → v.lifecycle ≡ shutdown
      → (maybe_begin_seed_release_locked place seed v).0 ≡ v
  unfolding maybe_begin_seed_release_locked
  maybe_begin_stays place seed v down =
      either (λ (r : Verifier X × Status). r.0 ≡ v) (not (is_releasable v.current_seed_id seed)) _ _
        refl (go v.lifecycle down)
    where
      go :
          (l : Lifecycle)
          → l ≡ shutdown
          → (let r : Verifier X × Status =
                if not (is_running_state l)
                then (v, success)
                else (let (context, status) = n.release seed.seed_id v.context in
                    let (seed', result) = released status seed in
                    (put_seed place seed' (record v { context = context }), result)) in
              r.0 ≡ v)
      go running e = absurd (cc)
      go shutdown e = refl
      go failed e = refl

  -- After a shutdown a completion changes neither the context nor the lifecycle.
  abbrev StaysDown : X → Verifier X → Type 0
  StaysDown x v = (v.context ≡ x) × (v.lifecycle ≡ shutdown)

  untrack-StaysDown :
      (seed_id : ℕ) (v : Verifier X) (x : X) → StaysDown x v → StaysDown x (untrack seed_id v)
  unfolding untrack
  untrack-StaysDown seed_id v x h = go (find_seed_locked seed_id v.seeds)
    where
      go :
          (o : Option (ℕ × SeedRecord))
          → StaysDown x (elim o [
            | none ↦ v
            | some (place, seed) ↦
                let seed' = record seed {
                  tracked_verifications = seed.tracked_verifications - 1;
                } in
                (maybe_begin_seed_release_locked place seed' (put_seed place seed' v)).0
          ])
      go none = h
      go (some (place, seed)) =
          let seed' : SeedRecord = record seed {
            tracked_verifications = seed.tracked_verifications - 1;
          } in
          subst (StaysDown x) (sym (maybe_begin_stays place seed' (put_seed place seed' v) h.1)) h

  correlate-StaysDown :
      (c : NativeCompletion) (v : Verifier X) (x : X)
      → StaysDown x v
      → StaysDown x (correlate_completion_locked c v).0
  unfolding correlate_completion_locked erase_submission_slot_locked
  correlate-StaysDown c v x h =
      either (λ (r : Verifier X × Completion). StaysDown x r.0) _ _ _ h (untrack-StaysDown _ _ x h)

  -- With a bound on the completions of a context that each successful poll lowers, more rounds than it
  -- says end the loop by its own test.
  pub discard_completions_locked_ends :
      (bound : X → ℕ) (rounds more : ℕ) (v : Verifier X)
      → ((x : X) → is_success (n.poll x).1 ≡ true → bound (n.poll x).0 < bound x)
      → v.lifecycle ≡ shutdown
      → bound v.context < rounds
      → rounds ≤ more
      → discard_completions_locked rounds v ≡ discard_completions_locked more v
  unfolding discard_completions_locked
  discard_completions_locked_ends bound zero more v lowers down enough far =
      absurd (omega (arith, enough))
  discard_completions_locked_ends bound (suc rounds) zero v lowers down enough far =
      absurd (omega (arith, far))
  discard_completions_locked_ends bound (suc rounds) (suc more) v lowers down enough far =
      go (is_success (n.poll v.context).1) refl (λ less.
        discard_completions_locked_ends bound rounds more next lowers stays.1 less
          (omega (arith, far)))
    where
      polled : Verifier X
      polled = record v { context = (n.poll v.context).0 }

      next : Verifier X
      next = (correlate_completion_locked (n.poll v.context).2 polled).0

      stays : StaysDown (n.poll v.context).0 next
      stays = correlate-StaysDown (n.poll v.context).2 polled (n.poll v.context).0 (refl, down)

      go :
          (b : Bool)
          → is_success (n.poll v.context).1 ≡ b
          → (bound next.context < rounds
              → discard_completions_locked rounds next ≡ discard_completions_locked more next)
          → (if not b then polled else discard_completions_locked rounds next)
            ≡ (if not b then polled else discard_completions_locked more next)
      go false e ih = refl
      go true e ih = ih (omega (arith, lowers v.context e, enough, ap bound stays.0))
