-- ===== src/Verifier/Probes.antt =====
-- src/verifier/verifier.cpp: the places that the loops over the submission table look at, in order.
use Prim.Native.Nat.{bit_and}
use native.Mathlib.Nat.{mod-lt, mod-eq_of_lt, mod-add-mod, add-mod-mod, mod-eq-sub-mod}
use monero_solo_stratum.Common.{
  ℕ, suc, ◌+◌, ◌-◌, ◌%◌, ◌^◌, ◌<◌, ◌≡◌, sym, ap, ◌∙◌, List, length, arith,
}
use monero_solo_stratum.Common.Bits.{bit_and-mask}
use monero_solo_stratum.Verifier.Table.{SubmissionSlot, occupied, first_index, next_index, mix64}

-- The place after so many steps from a number.
abbrev pub place : ℕ → ℕ → ℕ → ℕ
place n h steps = (h + steps) % n

-- The slot is occupied by the tag.
abbrev pub Holds : SubmissionSlot → ℕ → Type 0
Holds slot user_tag = (slot.state ≡ occupied) × (slot.user_tag ≡ user_tag)

place-next : (n h k : ℕ) → (place n h k + 1) % n ≡ place n h (suc k)
place-next n h k = mod-add-mod (h + k) n 1 ∙ ap (λ (t : ℕ). t % n) (shift h k)
  where
    shift : (a b : ℕ) → a + b + 1 ≡ a + suc b
    shift a b = omega arith

steps_to : ℕ → ℕ → ℕ → ℕ
steps_to n h i = (i + n - h % n) % n

steps_to_lem : (n h i : ℕ) → i < n → place n h (steps_to n h i) ≡ i
unfolding steps_to
steps_to_lem n h i lt =
    add-mod-mod h (i + n - h % n) n
    ∙ sym (mod-add-mod h n (i + n - h % n))
    ∙ ap (λ (t : ℕ). t % n) (back (h % n) (mod-lt h (omega arith)))
    ∙ mod-eq-sub-mod {n = i + n} {m = n} (omega arith)
    ∙ ap (λ (t : ℕ). t % n) (past i n)
    ∙ mod-eq_of_lt lt
  where
    back : (r : ℕ) → r < n → r + (i + n - r) ≡ i + n
    back r p = omega arith

    past : (a b : ℕ) → a + b - b ≡ a
    past a b = omega arith

-- Every place is met.
pub all_met : (n h i : ℕ) → i < n → (d : ℕ) × (d < n) × (place n h d ≡ i)
unfolding steps_to
all_met n h i lt = (steps_to n h i, mod-lt (i + n - h % n) (omega arith), steps_to_lem n h i lt)

-- A table whose size is a power of two.
module _ (slots : List SubmissionSlot) (k : ℕ) (sized : length slots ≡ 2 ^ k) where
  masked : (a : ℕ) → bit_and a (length slots - 1) ≡ a % length slots
  masked a = rw sized (bit_and-mask k a)

  pub first_index_lem :
      (user_tag : ℕ) → first_index slots user_tag ≡ place (length slots) (mix64 user_tag) 0
  first_index_lem user_tag =
      masked (mix64 user_tag) ∙ ap (λ (t : ℕ). t % length slots) (sum_zero (mix64 user_tag))
    where
      sum_zero : (a : ℕ) → a ≡ a + 0
      sum_zero a = omega arith

  pub next_index_lem :
      (h steps : ℕ)
      → next_index slots (place (length slots) h steps) ≡ place (length slots) h (suc steps)
  next_index_lem h steps =
      masked (place (length slots) h steps + 1) ∙ place-next (length slots) h steps
