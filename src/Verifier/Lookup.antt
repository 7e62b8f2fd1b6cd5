-- ===== src/Verifier/Lookup.antt =====
-- src/verifier/verifier.cpp: the submission table as a map from tags to submissions.
use monero_solo_stratum.Common.{
  ℕ, ◌<◌, ◌≡◌, ◌≢◌, refl, sym, ap, ◌∙◌, subst, ◌⊎◌, inl, inr, true, false, Option, none, some, List,
  length, set, ◌==◌, ==_iff, if◌then◌else◌, arith, Bool-cases,
}
use monero_solo_stratum.Verifier.Table.{
  SubmissionSlot, empty, slot_at, erased, find_submission_slot_locked,
}
use monero_solo_stratum.Verifier.Probes.{Holds}
use monero_solo_stratum.Verifier.Search.{IsTable, find-present, find-Holds, occupied_ne_empty}
use monero_solo_stratum.Verifier.Placement.{IsFree, IsAbsent}
use monero_solo_stratum.Verifier.Slots.{not_empty-lt}
use monero_solo_stratum.Verifier.Updates.{
  erase-IsTable, take-IsTable, Holds-cases, here_set, elsewhere_set, erased_not_empty,
  erased_not_held,
}

-- What a search for the tag shows.
unfoldable pub lookup_tag : List SubmissionSlot → ℕ → Option SubmissionSlot
lookup_tag slots user_tag =
    let index = find_submission_slot_locked slots user_tag in
    if index == length slots then none else some (slot_at slots index)

-- The entry by the end of the search.
module _ (slots : List SubmissionSlot) (user_tag : ℕ) where
  pub lookup_tag-none :
      (find_submission_slot_locked slots user_tag == length slots) ≡ true
      → lookup_tag slots user_tag ≡ none
  unfolding lookup_tag
  lookup_tag-none e = rw e refl

  pub lookup_tag-some :
      (find_submission_slot_locked slots user_tag == length slots) ≡ false
      → lookup_tag slots user_tag
        ≡ some (slot_at slots (find_submission_slot_locked slots user_tag))
  unfolding lookup_tag
  lookup_tag-some e = rw e refl

pub lookup-present :
    (slots : List SubmissionSlot) (index user_tag : ℕ)
    → IsTable slots
    → Holds (slot_at slots index) user_tag
    → lookup_tag slots user_tag ≡ some (slot_at slots index)
unfolding lookup_tag
lookup-present slots index user_tag t held =
    let lt = not_empty-lt slots index held.0 in
    let found = find-present slots user_tag index t lt held in
    let inside : (index == length slots) ≡ false = ground arith in rw (found, inside) refl

pub lookup-absent :
    (slots : List SubmissionSlot) (user_tag : ℕ)
    → ((j : ℕ) → ¬ Holds (slot_at slots j) user_tag)
    → lookup_tag slots user_tag ≡ none
unfolding lookup_tag
lookup-absent slots user_tag absent =
    elim (Bool-cases (find_submission_slot_locked slots user_tag == length slots)) [
      | inl e ↦ rw e refl
      | inr e ↦ absurd (absent _ (find-Holds slots user_tag (λ q. ground arith)))
    ]

-- A tag stands in the table at an index, or nowhere.
stands :
    (slots : List SubmissionSlot) (user_tag : ℕ)
    → IsTable slots
    → ((i : ℕ) × Holds (slot_at slots i) user_tag) ⊎ ((j : ℕ) → ¬ Holds (slot_at slots j) user_tag)
stands slots user_tag t =
    elim (Bool-cases (find_submission_slot_locked slots user_tag == length slots)) [
      | inr e ↦ inl (_, find-Holds slots user_tag (λ q. ground arith))
      | inl e ↦ inr (λ j h.
          missing j h (find-present slots user_tag j t (not_empty-lt slots j h.0) h)
            (not_empty-lt slots j h.0) e)
    ]
  where
    missing :
        (j : ℕ)
        → Holds (slot_at slots j) user_tag
        → find_submission_slot_locked slots user_tag ≡ j
        → j < length slots
        → (find_submission_slot_locked slots user_tag == length slots) ≡ true
        → ⊥
    missing j h e lt f = absurd (ground arith)

tags_differ : (a b : ℕ) → (a == b) ≡ false → a ≢ b
tags_differ a b e f = absurd (ground arith)

-- A write that leaves the slots of a tag alone leaves its entry alone.
pub lookup-elsewhere :
    (slots : List SubmissionSlot) (index tag : ℕ) (v : SubmissionSlot)
    → index < length slots
    → v.state ≢ empty
    → ¬ Holds v tag
    → ¬ Holds (slot_at slots index) tag
    → IsTable slots
    → IsTable (set slots index v)
    → lookup_tag (set slots index v) tag ≡ lookup_tag slots tag
lookup-elsewhere slots index tag v lt full other free t t' = elim (stands slots tag t) [
  | inl (i, h) ↦
      let apart : (index == i) ≡ false = differ i h (Bool-cases (index == i)) in
      let same = elsewhere_set slots index v lt full i apart in
      lookup-present (set slots index v) i tag t'
        (subst (λ (s : SubmissionSlot). Holds s tag) (sym same) h)
      ∙ ap some same
      ∙ sym (lookup-present slots i tag t h)
  | inr none_there ↦
      lookup-absent (set slots index v) tag (λ j h.
        elim (Holds-cases slots index v lt full tag j h) [
          | inl (e, held) ↦ other held
          | inr old ↦ none_there j old
        ])
      ∙ sym (lookup-absent slots tag none_there)
]
  where
    differ :
        (i : ℕ)
        → Holds (slot_at slots i) tag
        → ((index == i) ≡ true) ⊎ ((index == i) ≡ false)
        → (index == i) ≡ false
    differ i h (inl e) =
        absurd
          (free (subst (λ (k : ℕ). Holds (slot_at slots k) tag) (sym ((==_iff index i).0 e)) h))
    differ i h (inr e) = e

-- A slot that takes an absent tag adds it to the map, and changes no other.
pub lookup-take :
    (slots : List SubmissionSlot) (index user_tag tag : ℕ) (v : SubmissionSlot)
    → Holds v user_tag
    → IsFree slots user_tag index
    → IsAbsent slots user_tag
    → IsTable slots
    → lookup_tag (set slots index v) tag
      ≡ (if user_tag == tag then some v else lookup_tag slots tag)
lookup-take slots index user_tag tag v holds free absent t =
    let t' = take-IsTable slots index user_tag v holds free absent t in
    let full : v.state ≢ empty = λ e. occupied_ne_empty v.state holds.0 e in
    let here = here_set slots index v free.0 full in
    elim (Bool-cases (user_tag == tag)) [
      | inl e ↦
          let same = (==_iff user_tag tag).0 e in
          rw e (
            lookup-present (set slots index v) index tag t'
              (subst (λ (s : SubmissionSlot). Holds s tag) (sym here) (holds.0, holds.1 ∙ same))
            ∙ ap some here)
      | inr e ↦ rw e (
          lookup-elsewhere slots index tag v free.0 full
            (λ h. tags_differ user_tag tag e (sym holds.1 ∙ h.1)) (λ h. free.1 h.0) t t')
    ]

-- An erased slot removes its tag from the map, and changes no other.
pub lookup-erase :
    (slots : List SubmissionSlot) (index user_tag tag : ℕ)
    → Holds (slot_at slots index) user_tag
    → IsTable slots
    → lookup_tag (set slots index erased) tag
      ≡ (if user_tag == tag then none else lookup_tag slots tag)
lookup-erase slots index user_tag tag held t =
    let lt = not_empty-lt slots index held.0 in
    let t' = erase-IsTable slots index lt t in
    elim (Bool-cases (user_tag == tag)) [
      | inr e ↦ rw e (
          lookup-elsewhere slots index tag erased lt erased_not_empty (erased_not_held tag)
            (λ h. tags_differ user_tag tag e (sym held.1 ∙ h.1)) t t')
      | inl e ↦
          let same = (==_iff user_tag tag).0 e in
          rw e (
            lookup-absent (set slots index erased) tag
              (λ j h. gone lt same j h (Bool-cases (index == j))))
    ]
  where
    gone :
        index < length slots
        → user_tag ≡ tag
        → (j : ℕ) → Holds (slot_at (set slots index erased) j) tag
        → ((index == j) ≡ true) ⊎ ((index == j) ≡ false)
        → ⊥
    gone lt same j h (inl e) =
        let here = here_set slots index erased lt erased_not_empty in
        let there =
          subst (λ (i : ℕ). slot_at (set slots index erased) i ≡ erased) ((==_iff index j).0 e)
            here in
        erased_not_held tag (subst (λ (s : SubmissionSlot). Holds s tag) there h)
    gone lt same j h (inr e) =
        let old =
          subst (λ (s : SubmissionSlot). Holds s tag)
            (elsewhere_set slots index erased lt erased_not_empty j e) h in
        let equal =
          t.unique index j tag lt (not_empty-lt slots j old.0) (held.0, held.1 ∙ same) old in
        tags_differ index j e equal
