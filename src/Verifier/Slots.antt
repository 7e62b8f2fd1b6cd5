-- ===== src/Verifier/Slots.antt =====
-- src/verifier/verifier.cpp: writing to a slot of the submission table, and counts of slots.
use monero_solo_stratum.Common.{
  ℕ, zero, suc, ◌+◌, ◌<◌, ◌≡◌, refl, Bool, true, false, List, [], ◌∷◌, length, set, ◌==◌,
  if◌then◌else◌, arith,
}
use monero_solo_stratum.Common.Map.{one_if}
use monero_solo_stratum.Verifier.Table.{
  SubmissionSlot, SlotState, empty, occupied, tombstone, slot_at,
}

pub slot_at-set :
    (slots : List SubmissionSlot) (i j : ℕ) (v : SubmissionSlot)
    → i < length slots
    → slot_at (set slots i v) j ≡ (if i == j then v else slot_at slots j)
slot_at-set [] i j v lt = absurd (omega arith)
slot_at-set (x ∷ xs) zero zero v lt = refl
slot_at-set (x ∷ xs) zero (suc j) v lt = ground arith
slot_at-set (x ∷ xs) (suc i) zero v lt = ground arith
slot_at-set (x ∷ xs) (suc i) (suc j) v lt = ground (arith, slot_at-set xs i j v)

-- How many slots pass a test.
unfoldable pub count_slots : (SubmissionSlot → Bool) → List SubmissionSlot → ℕ
count_slots p [] = 0
count_slots p (x ∷ xs) = one_if (p x) + count_slots p xs

pub count_slots-set :
    (p : SubmissionSlot → Bool) (slots : List SubmissionSlot) (i : ℕ) (v : SubmissionSlot)
    → i < length slots
    → count_slots p (set slots i v) + one_if (p (slot_at slots i))
      ≡ count_slots p slots + one_if (p v)
unfolding count_slots
count_slots-set p [] i v lt = absurd (omega arith)
count_slots-set p (x ∷ xs) zero v lt = omega arith
count_slots-set p (x ∷ xs) (suc i) v lt = omega (arith, count_slots-set p xs i v (omega arith))

abbrev pub is_occupied_state : SlotState → Bool
is_occupied_state empty = false
is_occupied_state occupied = true
is_occupied_state tombstone = false

-- The number of submissions that the table holds.
unfoldable pub outstanding : List SubmissionSlot → ℕ
unfolding count_slots
outstanding slots = count_slots (λ s. is_occupied_state s.state) slots

pub outstanding-full :
    (slots : List SubmissionSlot)
    → ((j : ℕ) → j < length slots → (slot_at slots j).state ≡ occupied)
    → outstanding slots ≡ length slots
unfolding outstanding count_slots
outstanding-full [] h = refl
outstanding-full (x ∷ xs) h =
    ground (arith, h 0 (omega arith), outstanding-full xs (λ j lt. h (suc j) (omega arith)))

pub set-set :
    (slots : List SubmissionSlot) (i : ℕ) (v w : SubmissionSlot)
    → set (set slots i v) i w ≡ set slots i w
set-set [] i v w = refl
set-set (x ∷ xs) zero v w = refl
set-set (x ∷ xs) (suc i) v w = rw (set-set xs i v w) refl

-- Only a place in the table is not empty.
pub not_empty-lt :
    (slots : List SubmissionSlot) (i : ℕ) → (slot_at slots i).state ≡ occupied → i < length slots
not_empty-lt [] i h = cc
not_empty-lt (x ∷ xs) zero h = omega arith
not_empty-lt (x ∷ xs) (suc i) h = omega (arith, not_empty-lt xs i h)
