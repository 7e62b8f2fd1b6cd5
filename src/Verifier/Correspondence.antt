-- ===== src/Verifier/Correspondence.antt =====
-- src/verifier/verifier.cpp: a submission and the completion that answers it.
use monero_solo_stratum.Common.{
  ℕ, ◌-◌, ◌≡◌, refl, sym, ap, ◌∙◌, subst, ◌⊎◌, inl, inr, Bool, true, false, ◌&&◌, ◌||◌, Option,
  none, some, List, ltb, leb, ◌==◌, ==_iff, if◌then◌else◌, arith, length, Bool-cases, Option-cases,
}
use monero_solo_stratum.Verifier.Table.{
  SubmissionSlot, SubmissionKind, slot_at, erased, find_submission_slot_locked,
  find_submission_insert_slot_locked,
}
use monero_solo_stratum.Verifier.Probes.{Holds}
use monero_solo_stratum.Verifier.Search.{IsTable, find-Holds}
use monero_solo_stratum.Verifier.Placement.{IsFree, IsAbsent, IsFull, Placed, insert_slot-Placed}
use monero_solo_stratum.Verifier.Slots.{set-set}
use monero_solo_stratum.Verifier.Updates.{erase-IsTable, erased_not_empty, erased_not_held}
use monero_solo_stratum.Verifier.Lookup.{
  lookup_tag, lookup_tag-none, lookup_tag-some, lookup-take, lookup-erase, lookup-elsewhere,
}
use monero_solo_stratum.Verifier.State.{
  Status, success, queue_full, invalid_argument, seed_releasing, seed_not_ready, not_running,
  seed_not_found, is_success, is_usable, SeedRecord, NativeCompletion, Native, Verifier, put_seed,
  is_running_state, is_releasable, find_seed_locked, seed_snapshot_locked,
  maybe_begin_seed_release_locked,
}
use monero_solo_stratum.Verifier.Submissions.{
  Submitted, taken_slot, native_submit, submit_in, submit_usable, submit_seed, submit_locked,
  lacks_claim, untrack, Completion, matched, unknown_user_tag, correlation_of,
  correlate_completion_locked, erase_submission_slot_locked,
}
use monero_solo_stratum.Verifier.Invariant.{Inv}
use monero_solo_stratum.Verifier.SubmissionSteps.{submit_locked-Inv}

-- A submission that is accepted adds its tag to the table; a refused one changes no entry.
abbrev pub AddsEntry :
    {X : Type 0} → SubmissionKind → ℕ → ℕ → List SubmissionSlot → Submitted X → Type 0
AddsEntry kind id user_tag slots r =
    (tag : ℕ)
    → lookup_tag r.0.submissions tag ≡ (
        if is_success r.1 && user_tag == tag
        then some (taken_slot kind id user_tag r.2)
        else lookup_tag slots tag)

IsFree-of :
    (slots : List SubmissionSlot) (tag i : ℕ)
    → (i == length slots) ≡ false
    → ((i ≡ length slots) × IsFull slots) ⊎ IsFree slots tag i
    → IsFree slots tag i
IsFree-of slots tag i g (inl (e, full)) = absurd (ground arith)
IsFree-of slots tag i g (inr free) = free

module _ {X : Type 0} ⦃n : Native X⦄ where
  submit_in-AddsEntry :
      (kind : SubmissionKind) (id : ℕ) (input : List ℕ) (claimed : Option (List ℕ))
      (user_tag i place : ℕ) (seed : SeedRecord) (v : Verifier X)
      → IsFree v.submissions user_tag i
      → IsAbsent v.submissions user_tag
      → IsTable v.submissions
      → AddsEntry kind id user_tag v.submissions
          (submit_in kind id input claimed user_tag i place seed v)
  unfolding submit_in erase_submission_slot_locked
  submit_in-AddsEntry kind id input claimed user_tag i place seed v free absent t tag =
      let (context, status, ticket) = native_submit kind id input claimed user_tag v.context in
      let first = taken_slot kind id user_tag 0 in
      elim (Bool-cases (is_success status)) [
        | inr e ↦
            rw (e, submit_in, e, set-set v.submissions i first erased)
              (lookup-elsewhere v.submissions i tag erased free.0 erased_not_empty
                (erased_not_held tag) (λ h. free.1 h.0) t (erase-IsTable v.submissions i free.0 t))
        | inl e ↦
            rw (e, submit_in, set-set v.submissions i first (taken_slot kind id user_tag ticket))
              (lookup-take v.submissions i user_tag tag (taken_slot kind id user_tag ticket)
                (refl, refl) free absent t)
      ]

  -- An answer that is no success, with the table as it was.
  refused-AddsEntry :
      (kind : SubmissionKind) (id user_tag : ℕ) (slots : List SubmissionSlot) (r : Submitted X)
      → r.0.submissions ≡ slots
      → is_success r.1 ≡ false
      → AddsEntry kind id user_tag slots r
  refused-AddsEntry kind id user_tag slots r same e tag =
      rw e (ap (λ (t : List SubmissionSlot). lookup_tag t tag) same)

  submit_usable-AddsEntry :
      (kind : SubmissionKind) (id : ℕ) (input : List ℕ) (claimed : Option (List ℕ))
      (user_tag place : ℕ) (seed : SeedRecord) (v : Verifier X)
      → IsTable v.submissions
      → AddsEntry kind id user_tag v.submissions
          (submit_usable kind id input claimed user_tag place seed v)
  unfolding submit_usable
  submit_usable-AddsEntry kind id input claimed user_tag place seed v t =
      let refused : (s : Status)
          → is_success s ≡ false
          → AddsEntry kind id user_tag v.submissions (v, s, 0) =
        λ s e. refused-AddsEntry kind id user_tag v.submissions (v, s, 0) refl e in
      let (i, already) = find_submission_insert_slot_locked v.submissions user_tag in
      elim (Bool-cases (leb v.config.max_outstanding v.tracked_submissions)) [
        | inl e ↦ rw (e, submit_usable) (refused queue_full refl)
        | inr e ↦ elim (Bool-cases already) [
          | inl f ↦ rw (e, f, submit_usable) (refused invalid_argument refl)
          | inr f ↦ elim (Bool-cases (i == length v.submissions)) [
            | inl g ↦ rw (e, f, g, submit_usable) (refused queue_full refl)
            | inr g ↦
                let placed =
                  subst (Placed v.submissions user_tag i) f
                    (insert_slot-Placed v.submissions user_tag t) in
                rw (e, f, g, submit_usable)
                  (submit_in-AddsEntry kind id input claimed user_tag i place seed v
                    (IsFree-of v.submissions user_tag i g placed.1) placed.0 t)
          ]
        ]
      ]

  submit_seed-AddsEntry :
      (kind : SubmissionKind) (id : ℕ) (input : List ℕ) (claimed : Option (List ℕ))
      (user_tag place : ℕ) (seed : SeedRecord) (v : Verifier X)
      → IsTable v.submissions
      → AddsEntry kind id user_tag v.submissions
          (submit_seed kind id input claimed user_tag place seed v)
  unfolding submit_seed seed_snapshot_locked
  submit_seed-AddsEntry kind id input claimed user_tag place seed v t =
      let seen = seed_snapshot_locked place seed v in
      go seed.release_started _ _
        (refused-AddsEntry kind id user_tag v.submissions (v, seed_releasing, 0) refl refl)
        (elim (Bool-cases (is_success seen.1)) [
          | inr f ↦
              rw f (refused-AddsEntry kind id user_tag v.submissions (seen.0, seen.1, 0) refl f)
          | inl f ↦ elim (Bool-cases (is_usable seen.2.info.state)) [
            | inr g ↦
                rw (f, g)
                  (refused-AddsEntry kind id user_tag v.submissions (seen.0, seed_not_ready, 0) refl
                    refl)
            | inl g ↦
                rw (f, g)
                  (submit_usable-AddsEntry kind id input claimed user_tag place seen.2 seen.0 t)
          ]
        ])
    where
      go :
          (b : Bool) (x y : Submitted X)
          → AddsEntry kind id user_tag v.submissions x
          → AddsEntry kind id user_tag v.submissions y
          → AddsEntry kind id user_tag v.submissions (if b then x else y)
      go true x y p q = p
      go false x y p q = q

  -- A submission to a table in which every tag is where a search gets to: if it succeeds, a search
  -- for its tag shows the submission with the ticket, otherwise what it showed before; a search for
  -- any other tag shows what it showed before.
  pub submit_locked-AddsEntry :
      (kind : SubmissionKind) (id : ℕ) (input : List ℕ) (claimed : Option (List ℕ)) (user_tag : ℕ)
      (v : Verifier X)
      → IsTable v.submissions
      → AddsEntry kind id user_tag v.submissions (submit_locked kind id input claimed user_tag v)
  unfolding submit_locked
  submit_locked-AddsEntry kind id input claimed user_tag v t =
      let refused : (s : Status)
          → is_success s ≡ false
          → AddsEntry kind id user_tag v.submissions (v, s, 0) =
        λ s e. refused-AddsEntry kind id user_tag v.submissions (v, s, 0) refl e in
      elim (Bool-cases (is_running_state v.lifecycle)) [
        | inr e ↦ rw (e, submit_locked) (refused not_running refl)
        | inl e ↦
            elim (Bool-cases (
              user_tag == 0
              || length input == 0
              || ltb v.config.max_input_size (length input)
              || lacks_claim kind claimed)) [
                | inl f ↦ rw (e, f, submit_locked) (refused invalid_argument refl)
                | inr f ↦ elim (Option-cases (find_seed_locked id v.seeds)) [
                  | inl g ↦ rw (e, f, g, submit_locked) (refused seed_not_found refl)
                  | inr ((place, seed), g) ↦
                      rw (e, f, g, submit_locked)
                        (submit_seed-AddsEntry kind id input claimed user_tag place seed v t)
                ]
              ]
      ]

  -- Neither the release of a seed nor its numbers touch the table.
  release-submissions :
      (place : ℕ) (seed : SeedRecord) (v : Verifier X)
      → (maybe_begin_seed_release_locked place seed v).0.submissions ≡ v.submissions
  unfolding maybe_begin_seed_release_locked
  release-submissions place seed v = elim (Bool-cases (is_releasable v.current_seed_id seed)) [
    | inr e ↦ rw (e, maybe_begin_seed_release_locked) refl
    | inl e ↦ elim (Bool-cases (is_running_state v.lifecycle)) [
      | inr f ↦ rw (e, f, maybe_begin_seed_release_locked) refl
      | inl f ↦ rw (e, f, maybe_begin_seed_release_locked) refl
    ]
  ]

  untrack-submissions : (sid : ℕ) (v : Verifier X) → (untrack sid v).submissions ≡ v.submissions
  unfolding untrack
  untrack-submissions sid v = elim (Option-cases (find_seed_locked sid v.seeds)) [
    | inl e ↦ rw (e, untrack) refl
    | inr ((place, seed), e) ↦
        let less = record seed { tracked_verifications = seed.tracked_verifications - 1 } in
        rw (e, untrack) (release-submissions place less (put_seed place less v))
  ]

-- What the completion of a job says, by the entry of its tag.
abbrev pub Correlates :
    {X : Type 0}
    → NativeCompletion
    → Verifier X
    → Verifier X × Completion
    → Option SubmissionSlot
    → Type 0
Correlates c v r none = (r.0 ≡ v) × (r.1.correlation ≡ unknown_user_tag)
Correlates c v r (some slot) =
    (r.1.correlation ≡ correlation_of (slot.ticket == c.ticket) (slot.seed_id == c.seed_id))
    × (r.1.submission_kind ≡ slot.kind)
    × (r.1.expected_ticket ≡ slot.ticket)
    × (r.1.expected_seed_id ≡ slot.seed_id)
    × ((tag : ℕ)
        → lookup_tag r.0.submissions tag
          ≡ (if c.user_tag == tag then none else lookup_tag v.submissions tag))

on_success {ℓ} :
    {A : Type ℓ} (status : Status)
    → status ≡ success
    → (b : Bool) (x y : A) → (if is_success status && b then x else y) ≡ (if b then x else y)
on_success status e b x y = rw e refl

join {ℓ} :
    {A : Type ℓ} (b : Bool) (x y : Option A)
    → (if b then none else if b then x else y) ≡ (if b then none else y)
join true x y = refl
join false x y = refl

module _ {X : Type 0} ⦃n : Native X⦄ where
  erased_entry :
      (i sid : ℕ) (v : Verifier X) (user_tag tag : ℕ)
      → Holds (slot_at v.submissions i) user_tag
      → IsTable v.submissions
      → lookup_tag (untrack sid (erase_submission_slot_locked i v)).submissions tag
        ≡ (if user_tag == tag then none else lookup_tag v.submissions tag)
  unfolding erase_submission_slot_locked
  erased_entry i sid v user_tag tag held t =
      ap (λ (s : List SubmissionSlot). lookup_tag s tag)
        (untrack-submissions sid (erase_submission_slot_locked i v))
      ∙ lookup-erase v.submissions i user_tag tag held t

  correlate-Correlates :
      (c : NativeCompletion) (v : Verifier X)
      → IsTable v.submissions
      → Correlates c v (correlate_completion_locked c v) (lookup_tag v.submissions c.user_tag)
  unfolding correlate_completion_locked
  correlate-Correlates c v t =
      let i = find_submission_slot_locked v.submissions c.user_tag in
      let slot = slot_at v.submissions i in
      let out = correlate_completion_locked c v in
      elim (Bool-cases (i == length v.submissions)) [
        | inl e ↦
            subst (Correlates c v out) (sym (lookup_tag-none v.submissions c.user_tag e))
              (rw (e, correlate_completion_locked) (refl, refl))
        | inr e ↦
            let held = find-Holds v.submissions c.user_tag (λ q. ground arith) in
            subst (Correlates c v out) (sym (lookup_tag-some v.submissions c.user_tag e)) (
              rw (e, correlate_completion_locked)
                (
                  refl,
                  refl,
                  refl,
                  refl,
                  λ tag. erased_entry i slot.seed_id v c.user_tag tag held t,
                ))
      ]

  -- A completion that carries the ticket and the seed of an accepted submission is matched to it, and
  -- leaves every entry as it was before the submission.
  pub submit-correlate :
      (kind : SubmissionKind) (id : ℕ) (input : List ℕ) (claimed : Option (List ℕ)) (user_tag : ℕ)
      (v : Verifier X) (c : NativeCompletion)
      → Inv v
      → let submitted = submit_locked kind id input claimed user_tag v in
        let answered = correlate_completion_locked c submitted.0 in
        submitted.1 ≡ success
        → c.user_tag ≡ user_tag
        → c.ticket ≡ submitted.2
        → c.seed_id ≡ id
        → (answered.1.correlation ≡ matched)
          × (answered.1.submission_kind ≡ kind)
          × ((tag : ℕ)
              → lookup_tag answered.0.submissions tag
                ≡ (if user_tag == tag then none else lookup_tag v.submissions tag))
  submit-correlate kind id input claimed user_tag v c h accepted same_tag same_ticket same_seed =
      let (w, status, ticket) = submit_locked kind id input claimed user_tag v in
      let t = (submit_locked-Inv kind id input claimed user_tag v h).slots.table in
      let slot = taken_slot kind id user_tag ticket in
      let adds : (tag : ℕ)
          → lookup_tag w.submissions tag
            ≡ (if user_tag == tag then some slot else lookup_tag v.submissions tag) =
        λ tag.
          submit_locked-AddsEntry kind id input claimed user_tag v h.slots.table tag
          ∙ on_success status accepted (user_tag == tag) _ _ in
      let entry : lookup_tag w.submissions c.user_tag ≡ some slot =
        adds c.user_tag ∙ (rw ((==_iff user_tag c.user_tag).1 (sym same_tag)) refl) in
      let (found, kinds, tickets, seeds, after) =
        subst (Correlates c w (correlate_completion_locked c w)) entry
          (correlate-Correlates c w t) in
      (
        found
            ∙ (rw
                (
                  (==_iff ticket c.ticket).1 (sym same_ticket),
                  (==_iff id c.seed_id).1 (sym same_seed),
                )
                refl),
        kinds,
        λ tag. after tag ∙ (rw (same_tag, adds tag) (join (user_tag == tag) _ _)),
      )
