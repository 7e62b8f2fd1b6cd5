-- ===== src/Verifier/TableSize.antt =====
-- src/verifier/verifier.cpp: the size of the submission table.
use native.Mathlib.Nat.{pow-suc}
use monero_solo_stratum.Common.{
  ℕ, zero, suc, ◌*◌, ◌^◌, ◌≤◌, ◌<◌, ◌≡◌, refl, sym, ap, ◌∙◌, subst, inl, inr, max, Bool, false, ltb,
  arith, Bool-cases, length, replicate,
}
use monero_solo_stratum.Verifier.Table.{
  SubmissionSlot, blank, slot_at, doubling, submission_table_size,
}
use monero_solo_stratum.Verifier.Probes.{Holds}
use monero_solo_stratum.Verifier.Slots.{outstanding, count_slots, is_occupied_state}
use monero_solo_stratum.Verifier.Invariant.{is_for, TableInv}

-- The smallest power of two that is at least a number.
pub record IsPowerAbove (wanted size : ℕ) : Type 0 where
  pub bits : ℕ
  pub power : size ≡ 2 ^ bits
  pub enough : wanted ≤ size
  pub tight : size < 2 * wanted

doubling-IsPowerAbove :
    (fuel wanted k : ℕ)
    → wanted ≤ 2 ^ k * 2 ^ fuel
    → 2 ^ k < 2 * wanted
    → IsPowerAbove wanted (doubling fuel wanted (2 ^ k))
unfolding doubling
doubling-IsPowerAbove zero wanted k h t = record {
  bits = k;
  power = refl;
  enough = omega arith;
  tight = t;
}
doubling-IsPowerAbove (suc fuel) wanted k h t = elim (Bool-cases (ltb (2 ^ k) wanted)) [
  | inr e ↦ rw (e, doubling) (record { bits = k; power = refl; enough = ground arith; tight = t })
  | inl e ↦
      let twice : 2 ^ k * 2 ≡ 2 ^ suc k = omega (arith, pow-suc 2 k) in
      let shift : 2 ^ k * 2 ^ suc fuel ≡ 2 ^ suc k * 2 ^ fuel =
        rw (pow-suc 2 k, pow-suc 2 fuel) (regroup (2 ^ k) (2 ^ fuel)) in
      rw (e, doubling, twice)
        (doubling-IsPowerAbove fuel wanted (suc k) (omega (arith, shift))
          (ground (arith, pow-suc 2 k)))
]
  where
    regroup : (a b : ℕ) → a * (b * 2) ≡ a * 2 * b
    regroup a b = grind arith

lt-pow : (n : ℕ) → n < 2 ^ n
lt-pow zero = omega arith
lt-pow (suc n) = omega (arith, lt-pow n, pow-suc 2 n)

-- The loop ends by its test: the table's size is the smallest power of two that is at least 8 and at
-- least twice max_outstanding.
pub submission_table_size-IsPowerAbove :
    (max_outstanding : ℕ)
    → IsPowerAbove (max 8 (max_outstanding * 2)) (submission_table_size max_outstanding)
unfolding submission_table_size
submission_table_size-IsPowerAbove max_outstanding =
    let wanted = max 8 (max_outstanding * 2) in
    doubling-IsPowerAbove wanted wanted 0 (omega (arith, lt-pow wanted)) (omega arith)

-- A table of blank slots.
slot_at-replicate : (size i : ℕ) → slot_at (replicate size blank) i ≡ blank
slot_at-replicate zero i = refl
slot_at-replicate (suc size) zero = refl
slot_at-replicate (suc size) (suc i) = slot_at-replicate size i

length-replicate : (size : ℕ) → length (replicate size blank) ≡ size
length-replicate zero = refl
length-replicate (suc size) = ap suc (length-replicate size)

count-replicate :
    (p : SubmissionSlot → Bool) (size : ℕ)
    → p blank ≡ false
    → count_slots p (replicate size blank) ≡ 0
unfolding count_slots
count-replicate p zero e = refl
count-replicate p (suc size) e = ground (arith, count-replicate p size e)

pub fresh-TableInv :
    (max_outstanding : ℕ)
    → TableInv max_outstanding (replicate (submission_table_size max_outstanding) blank) 0
unfolding outstanding
fresh-TableInv max_outstanding =
    let size = submission_table_size max_outstanding in
    let above = submission_table_size-IsPowerAbove max_outstanding in
    record {
      table = record {
        bits = above.bits;
        sized = length-replicate size ∙ above.power;
        reached = λ i tag lt h. absurd (never size i tag h);
        unique = λ i j tag p q h k. absurd (never size i tag h);
      };
      room = omega (arith, above.enough, length-replicate size);
      counted = sym (count-replicate (λ s. is_occupied_state s.state) size refl);
      bounded = omega arith;
    }
  where
    never : (n i tag : ℕ) → ¬ Holds (slot_at (replicate n blank) i) tag
    never n i tag h =
        blank_free tag (subst (λ (s : SubmissionSlot). Holds s tag) (slot_at-replicate n i) h)
      where
        blank_free : (t : ℕ) → Holds blank t → ⊥
        blank_free t k = cc

pub fresh-count :
    (max_outstanding id : ℕ)
    → count_slots (is_for id) (replicate (submission_table_size max_outstanding) blank) ≡ 0
fresh-count max_outstanding id =
    count-replicate (is_for id) (submission_table_size max_outstanding) refl
