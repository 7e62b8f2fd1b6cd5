-- ===== src/Verifier/Updates.antt =====
-- src/verifier/verifier.cpp: taking and erasing a slot keep every tag where a search gets to.
use monero_solo_stratum.Common.{
  ℕ, ◌<◌, ◌≡◌, ◌≢◌, refl, sym, ◌∙◌, subst, inl, inr, ◌⊎◌, false, List, length, set, ◌==◌, ==_iff,
  Bool-cases, length-set,
}
use monero_solo_stratum.Verifier.Table.{SubmissionSlot, empty, slot_at, erased, mix64}
use monero_solo_stratum.Verifier.Probes.{place, Holds}
use monero_solo_stratum.Verifier.Search.{IsReached, IsTable, occupied_ne_empty}
use monero_solo_stratum.Verifier.Placement.{IsFree, IsAbsent}
use monero_solo_stratum.Verifier.Slots.{slot_at-set}

module _ (slots : List SubmissionSlot) (index : ℕ) (v : SubmissionSlot) (lt : index < length slots)
    (full : v.state ≢ empty) where
  pub here_set : slot_at (set slots index v) index ≡ v
  here_set = slot_at-set slots index index v lt ∙ (rw ((==_iff index index).1 refl) refl)

  pub elsewhere_set :
      (j : ℕ) → (index == j) ≡ false → slot_at (set slots index v) j ≡ slot_at slots j
  elsewhere_set j e = slot_at-set slots index j v lt ∙ (rw e refl)

  still_full :
      (j : ℕ) → (slot_at slots j).state ≢ empty → (slot_at (set slots index v) j).state ≢ empty
  still_full j h e = elim (Bool-cases (index == j)) [
    | inl y ↦
        let there : slot_at (set slots index v) j ≡ v =
          slot_at-set slots index j v lt ∙ (rw y refl) in
        full (subst (λ (s : SubmissionSlot). s.state ≡ empty) there e)
    | inr y ↦ h (subst (λ (s : SubmissionSlot). s.state ≡ empty) (elsewhere_set j y) e)
  ]

  set-IsReached :
      (user_tag j : ℕ) → IsReached slots user_tag j → IsReached (set slots index v) user_tag j
  set-IsReached user_tag j r =
      let same = length-set slots index v in
      record {
        steps = r.steps;
        near = rw same r.near;
        there = rw same r.there;
        passable = λ e less.
            still_full (place (length (set slots index v)) (mix64 user_tag) e)
              (rw same (r.passable e less));
      }

  -- A slot that holds a tag afterwards is the one that was written, or held the tag before.
  pub Holds-cases :
      (user_tag j : ℕ)
      → Holds (slot_at (set slots index v) j) user_tag
      → ((index ≡ j) × Holds v user_tag) ⊎ Holds (slot_at slots j) user_tag
  Holds-cases user_tag j h = elim (Bool-cases (index == j)) [
    | inl y ↦
        let same = (==_iff index j).0 y in
        inl (
          same,
          subst (λ (s : SubmissionSlot). Holds s user_tag)
              (subst (λ (i : ℕ). slot_at (set slots index v) i ≡ v) same here_set) h,
        )
    | inr y ↦ inr (subst (λ (s : SubmissionSlot). Holds s user_tag) (elsewhere_set j y) h)
  ]

pub erased_not_empty : erased.state ≢ empty
erased_not_empty e = cc

pub erased_not_held : (user_tag : ℕ) → ¬ Holds erased user_tag
erased_not_held user_tag h = cc

pub erase-IsTable :
    (slots : List SubmissionSlot) (index : ℕ)
    → index < length slots
    → IsTable slots
    → IsTable (set slots index erased)
erase-IsTable slots index lt t =
    let small : (j : ℕ) → j < length (set slots index erased) → j < length slots =
      λ j less. subst (λ (n : ℕ). j < n) (length-set slots index erased) less in
    let before : (tag j : ℕ)
        → Holds (slot_at (set slots index erased) j) tag
        → Holds (slot_at slots j) tag =
      λ tag j h. elim (Holds-cases slots index erased lt erased_not_empty tag j h) [
        | inl (e, held) ↦ absurd (erased_not_held tag held)
        | inr held ↦ held
      ] in
    record {
      bits = t.bits;
      sized = length-set slots index erased ∙ t.sized;
      reached = λ j tag less h.
          set-IsReached slots index erased lt erased_not_empty tag j
            (t.reached j tag (small j less) (before tag j h));
      unique = λ i j tag p q h k.
          t.unique i j tag (small i p) (small j q) (before tag i h) (before tag j k);
    }

-- The slot that takes a tag that was absent.
module _ (slots : List SubmissionSlot) (index user_tag : ℕ) (v : SubmissionSlot)
    (holds : Holds v user_tag) (free : IsFree slots user_tag index)
    (absent : IsAbsent slots user_tag) (t : IsTable slots) where
  v_full : v.state ≢ empty
  v_full e = occupied_ne_empty v.state holds.0 e

  small : (j : ℕ) → j < length (set slots index v) → j < length slots
  small j less = subst (λ (n : ℕ). j < n) (length-set slots index v) less

  cases :
      (tag j : ℕ)
      → Holds (slot_at (set slots index v) j) tag
      → ((index ≡ j) × Holds v tag) ⊎ Holds (slot_at slots j) tag
  cases tag j h = Holds-cases slots index v free.0 v_full tag j h

  -- The new tag is nowhere else.
  no_other :
      {L : Type 0} (tag j : ℕ) → j < length slots → Holds v tag → Holds (slot_at slots j) tag → L
  no_other tag j less held old = absurd (absent j less (old.0, old.1 ∙ sym held.1 ∙ holds.1))

  taken-reached :
      (j tag : ℕ)
      → j < length slots
      → Holds (slot_at (set slots index v) j) tag
      → IsReached slots tag j
  taken-reached j tag less h = elim (cases tag j h) [
    | inl (e, held) ↦
        subst (IsReached slots tag) e
          (subst (λ (k : ℕ). IsReached slots k index) (sym holds.1 ∙ held.1) free.2)
    | inr old ↦ t.reached j tag less old
  ]

  taken_unique :
      (i j tag : ℕ)
      → i < length slots
      → j < length slots
      → Holds (slot_at (set slots index v) i) tag
      → Holds (slot_at (set slots index v) j) tag
      → i ≡ j
  taken_unique i j tag p q h k = elim (cases tag i h) [
    | inl (e, held) ↦ elim (cases tag j k) [
      | inl (e', held') ↦ sym e ∙ e'
      | inr old ↦ no_other tag j q held old
    ]
    | inr old ↦ elim (cases tag j k) [
      | inl (e', held') ↦ no_other tag i p held' old
      | inr old' ↦ t.unique i j tag p q old old'
    ]
  ]

  pub take-IsTable : IsTable (set slots index v)
  take-IsTable = record {
    bits = t.bits;
    sized = length-set slots index v ∙ t.sized;
    reached = λ j tag less h.
        set-IsReached slots index v free.0 v_full tag j (taken-reached j tag (small j less) h);
    unique = λ i j tag p q h k. taken_unique i j tag (small i p) (small j q) h k;
  }
