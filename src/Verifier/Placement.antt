-- ===== src/Verifier/Placement.antt =====
-- src/verifier/verifier.cpp: the search for the place of a new tag in the submission table.
use native.Mathlib.Nat.{mod-lt}
use monero_solo_stratum.Common.{
  ℕ, zero, suc, ◌+◌, ◌<◌, ◌≡◌, ◌≢◌, refl, sym, ap, ◌∙◌, subst, ◌⊎◌, inl, inr, Bool, true, false,
  List, length, ltb, ◌==◌, ==_iff, arith, Bool-cases, if◌then◌else◌,
}
use monero_solo_stratum.Verifier.Table.{
  SubmissionSlot, SlotState, empty, occupied, tombstone, slot_at, next_index, mix64, insert_loop,
  find_submission_insert_slot_locked,
}
use monero_solo_stratum.Verifier.Probes.{place, Holds, all_met, first_index_lem, next_index_lem}
use monero_solo_stratum.Verifier.Search.{
  IsPassable, IsReached, IsTable, view, hole, hit, taken, grave, occupied_ne_empty,
  occupied_ne_tombstone, le-cases,
}

tombstone_ne_empty : (x : SlotState) → x ≡ tombstone → x ≢ empty
tombstone_ne_empty x e f = cc

below_suc {ℓ} : (P : ℕ → Type ℓ) (k : ℕ) → ((e : ℕ) → e < k → P e) → P k → (e : ℕ) → e < suc k → P e
below_suc P k all last e lt = elim (le-cases e k (omega arith)) [
  | inl same ↦ subst P (sym same) last
  | inr less ↦ all e less
]

-- One round of the search.
module _ (slots : List SubmissionSlot) (user_tag left index first : ℕ) where
  abbrev kept : ℕ
  kept = if first == length slots then index else first

  insert-hole :
      (slot_at slots index).state ≡ empty
      → insert_loop slots user_tag (suc left) index first ≡ (kept, false)
  unfolding insert_loop
  insert-hole e = rw (e, insert_loop) refl

  insert-hit :
      Holds (slot_at slots index) user_tag
      → insert_loop slots user_tag (suc left) index first ≡ (index, true)
  unfolding insert_loop
  insert-hit (e, t) = rw (e, (==_iff (slot_at slots index).user_tag user_tag).1 t, insert_loop) refl

  insert-taken :
      (slot_at slots index).state ≡ occupied
      → (slot_at slots index).user_tag ≢ user_tag
      → insert_loop slots user_tag (suc left) index first
        ≡ insert_loop slots user_tag left (next_index slots index) first
  unfolding insert_loop
  insert-taken e t =
      let other : ((slot_at slots index).user_tag == user_tag) ≡ false = ground (arith, t) in
      rw (e, other, insert_loop) refl

  insert-grave :
      (slot_at slots index).state ≡ tombstone
      → insert_loop slots user_tag (suc left) index first
        ≡ insert_loop slots user_tag left (next_index slots index) kept
  unfolding insert_loop
  insert-grave e = rw (e, insert_loop) refl

-- A slot that can take the tag.
abbrev pub IsFree : List SubmissionSlot → ℕ → ℕ → Type 0
IsFree slots user_tag index =
    (index < length slots)
    × ((slot_at slots index).state ≢ occupied)
    × IsReached slots user_tag index

abbrev pub IsAbsent : List SubmissionSlot → ℕ → Type 0
IsAbsent slots user_tag = (j : ℕ) → j < length slots → ¬ Holds (slot_at slots j) user_tag

abbrev pub IsFull : List SubmissionSlot → Type 0
IsFull slots = (j : ℕ) → j < length slots → (slot_at slots j).state ≡ occupied

-- What a search for a place says.
abbrev pub Placed : List SubmissionSlot → ℕ → ℕ → Bool → Type 0
Placed slots user_tag index true = (index < length slots) × Holds (slot_at slots index) user_tag
Placed slots user_tag index false =
    IsAbsent slots user_tag
    × (((index ≡ length slots) × IsFull slots) ⊎ IsFree slots user_tag index)

module _ (slots : List SubmissionSlot) (user_tag : ℕ) (t : IsTable slots) where
  abbrev at : ℕ → ℕ
  at = place (length slots) (mix64 user_tag)

  -- The first tombstone among the places before `k`, if there is one.
  abbrev First : ℕ → ℕ → Type 0
  First k first =
      ((first ≡ length slots) × ((e : ℕ) → e < k → (slot_at slots (at e)).state ≡ occupied))
      ⊎ IsFree slots user_tag first

  everywhere :
      (P : ℕ → Type 0) → ((e : ℕ) → e < length slots → P (at e)) → (j : ℕ) → j < length slots → P j
  everywhere P all j lt =
      let (d, near, there) = all_met (length slots) (mix64 user_tag) j lt in
      subst P there (all d near)

  reached_at :
      (k : ℕ)
      → k < length slots
      → IsPassable slots (mix64 user_tag) k
      → IsReached slots user_tag (at k)
  reached_at k lt pass = record { steps = k; near = lt; there = refl; passable = pass }

  IsAbsent-past :
      (k : ℕ)
      → (slot_at slots (at k)).state ≡ empty
      → ((e : ℕ) → e < k → ¬ Holds (slot_at slots (at e)) user_tag)
      → IsAbsent slots user_tag
  IsAbsent-past k e missing j lt held =
      let r = t.reached j user_tag lt held in
      let held' : Holds (slot_at slots (at r.steps)) user_tag =
        subst (λ (i : ℕ). Holds (slot_at slots i) user_tag) (sym r.there) held in
      elim (Bool-cases (r.steps == k)) [
        | inl same ↦
            let same' = (==_iff r.steps k).0 same in
            occupied_ne_empty (slot_at slots (at k)).state
              (subst (λ (i : ℕ). (slot_at slots (at i)).state ≡ occupied) same' held'.0) e
        | inr other ↦ elim (Bool-cases (ltb r.steps k)) [
          | inl less ↦ missing r.steps (ground arith) held'
          | inr more ↦ r.passable k (ground arith) e
        ]
      ]

  kept-IsFree :
      (k first : ℕ)
      → k < length slots
      → (slot_at slots (at k)).state ≢ occupied
      → IsPassable slots (mix64 user_tag) k
      → First k first
      → IsFree slots user_tag (if first == length slots then at k else first)
  kept-IsFree k first lt free pass f = elim (Bool-cases (first == length slots)) [
    | inl y ↦ rw y (mod-lt (mix64 user_tag + k) (omega arith), free, reached_at k lt pass)
    | inr y ↦ rw y (elim f [ inl (e, all) ↦ absurd (ground arith) | inr free' ↦ free' ])
  ]

  abbrev PlacedAs : ℕ × Bool → Type 0
  PlacedAs r = Placed slots user_tag r.0 r.1

  insert_loop-Placed :
      (left k first : ℕ)
      → k + left ≡ length slots
      → IsPassable slots (mix64 user_tag) k
      → ((e : ℕ) → e < k → ¬ Holds (slot_at slots (at e)) user_tag)
      → First k first
      → PlacedAs (insert_loop slots user_tag left (at k) first)
  unfolding insert_loop
  insert_loop-Placed zero k first sum pass missing f = (
    everywhere (λ i. ¬ Holds (slot_at slots i) user_tag) (λ e lt. missing e (omega arith)),
    (elim f [
      | inl (e, all) ↦
          inl
            (e, everywhere (λ i. (slot_at slots i).state ≡ occupied) (λ d lt. all d (omega arith)))
      | inr free ↦ inr free
    ]),
  )
  insert_loop-Placed (suc left) k first sum pass missing f =
      let lt : k < length slots = omega arith in
      elim (view (slot_at slots (at k)) user_tag) [
        | hole e ↦ subst PlacedAs (sym (insert-hole slots user_tag left (at k) first e)) (
          IsAbsent-past k e missing,
          inr (kept-IsFree k first lt (λ o. occupied_ne_empty _ o e) pass f),
        )
        | hit h ↦
            subst PlacedAs (sym (insert-hit slots user_tag left (at k) first h))
              (mod-lt (mix64 user_tag + k) (omega arith), h)
        | taken e o ↦
            go first (insert_loop-Placed left (suc k) first (omega arith))
              (insert-taken slots user_tag left (at k) first e o) (λ h. occupied_ne_empty _ e h)
              (λ h. o h.1)
              (elim f [
                | inl (q, all) ↦
                    inl (q, below_suc (λ d. (slot_at slots (at d)).state ≡ occupied) k all e)
                | inr free ↦ inr free
              ])
        | grave e ↦
            go (kept slots user_tag left (at k) first)
              (insert_loop-Placed left (suc k) (kept slots user_tag left (at k) first)
                (omega arith))
              (insert-grave slots user_tag left (at k) first e) (λ h. tombstone_ne_empty _ e h)
              (λ h. occupied_ne_tombstone _ h.0 e)
              (inr (kept-IsFree k first lt (λ o. occupied_ne_tombstone _ o e) pass f))
      ]
    where
      go :
          (next : ℕ)
          → (IsPassable slots (mix64 user_tag) (suc k)
              → ((e : ℕ) → e < suc k → ¬ Holds (slot_at slots (at e)) user_tag)
              → First (suc k) next
              → PlacedAs (insert_loop slots user_tag left (at (suc k)) next))
          → insert_loop slots user_tag (suc left) (at k) first
            ≡ insert_loop slots user_tag left (next_index slots (at k)) next
          → (slot_at slots (at k)).state ≢ empty
          → ¬ Holds (slot_at slots (at k)) user_tag
          → First (suc k) next
          → PlacedAs (insert_loop slots user_tag (suc left) (at k) first)
      go next ih e full miss f' =
          subst PlacedAs
            (sym (
              e
              ∙ ap (λ (i : ℕ). insert_loop slots user_tag left i next)
                  (next_index_lem slots t.bits t.sized (mix64 user_tag) k)))
            (ih (below_suc (λ d. (slot_at slots (at d)).state ≢ empty) k pass full)
              (below_suc (λ d. ¬ Holds (slot_at slots (at d)) user_tag) k missing miss) f')

  -- The search for a place says truly whether the tag is there; where it is not, the search gives a
  -- slot that can take it, unless every slot is occupied.
  pub insert_slot-Placed :
      let r = find_submission_insert_slot_locked slots user_tag in Placed slots user_tag r.0 r.1
  unfolding find_submission_insert_slot_locked
  insert_slot-Placed =
      subst PlacedAs
        (sym (
          ap (λ (i : ℕ). insert_loop slots user_tag (length slots) i (length slots))
            (first_index_lem slots t.bits t.sized user_tag)))
        (insert_loop-Placed (length slots) 0 (length slots) (omega arith)
          (λ e lt. absurd (omega arith)) (λ e lt. absurd (omega arith))
          (inl (refl, λ e lt. absurd (omega arith))))
