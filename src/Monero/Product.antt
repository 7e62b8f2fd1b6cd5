-- ===== src/Monero/Product.antt =====
-- src/monero/monero.cpp: the limbs of `meets_network_target` and `parse_decimal_uint128` as numbers.
use native.Mathlib.Nat.{mul-le-mul}
use monero_solo_stratum.Common.{
  ℕ, zero, suc, ◌+◌, ◌-◌, ◌*◌, ◌/◌, ◌%◌, ◌^◌, ◌<◌, ◌≤◌, ◌≡◌, refl, ap, subst, List, [], ◌∷◌, ltb,
  length, drop, All, arith,
}
use monero_solo_stratum.Common.Word.{u32_mod, u64_mod}
use monero_solo_stratum.Monero.Target.{times_ten, spread_carry, add_row, add_rows, all_zero}

abbrev pub IsLimb : ℕ → Type 0
IsLimb limb = limb < 2 ^ 32

-- The number that limbs stand for, the lowest first.
unfoldable pub limbs_value : List ℕ → ℕ
limbs_value [] = 0
limbs_value (limb ∷ rest) = limb + limbs_value rest * 2 ^ 32

-- The first number that `n` limbs cannot stand for.
unfoldable pub limb_base : ℕ → ℕ
limb_base zero = 1
limb_base (suc n) = limb_base n * 2 ^ 32

-- Limbs that stand for `value` up to a multiple of their base.
abbrev pub Holds : List ℕ → ℕ → ℕ → Type 0
Holds limbs n value =
    (length limbs ≡ n)
    × All IsLimb limbs
    × ((k : ℕ) × (limbs_value limbs + k * limb_base n ≡ value))

pub times_ten_value :
    (limbs : List ℕ) (carry : ℕ)
    → All IsLimb limbs
    → carry < 10
    → (length (times_ten limbs carry).0 ≡ length limbs)
      × All IsLimb (times_ten limbs carry).0
      × (limbs_value (times_ten limbs carry).0
            + (times_ten limbs carry).1 * limb_base (length limbs)
          ≡ limbs_value limbs * 10 + carry)
unfolding times_ten limbs_value limb_base
times_ten_value [] carry h c = (refl, tt, omega arith)
times_ten_value (limb ∷ rest) carry h c =
    let value = limb * 10 + carry in
    let (a, b, e) = times_ten_value rest (value % u64_mod / 2 ^ 32) h.1 (omega (arith, h.0)) in
    (ap suc a, (omega arith, b), omega (arith, h.0, ap (λ (t : ℕ). t * 2 ^ 32) e))

-- One limb `low` in front of limbs that hold the rest.
Holds-cons :
    (low high : ℕ) (limbs : List ℕ) (n value : ℕ)
    → IsLimb low
    → Holds limbs n high
    → low + high * 2 ^ 32 ≡ value
    → Holds (low ∷ limbs) (suc n) value
unfolding limbs_value limb_base
Holds-cons low high limbs n value l (a, b, (k, e)) sum =
    (ap suc a, (l, b), (k, omega (arith, sum, ap (λ (t : ℕ). t * 2 ^ 32) e)))

spread_carry_step :
    (p carry : ℕ) (rest : List ℕ)
    → 0 < carry
    → spread_carry (p ∷ rest) carry
      ≡ (p + carry) % u64_mod % u32_mod ∷ spread_carry rest ((p + carry) % u64_mod / 2 ^ 32)
unfolding spread_carry
spread_carry_step p carry rest h = ground arith

spread_carry_value :
    (limbs : List ℕ) (carry : ℕ)
    → All IsLimb limbs
    → carry < 2 ^ 32
    → Holds (spread_carry limbs carry) (length limbs) (limbs_value limbs + carry)
unfolding spread_carry limbs_value limb_base
spread_carry_value [] carry h c = (refl, tt, (carry, omega arith))
spread_carry_value (p ∷ rest) zero h c = (refl, h, (0, omega arith))
spread_carry_value (p ∷ rest) (suc n) h c =
    let q = (p + suc n) % u64_mod / 2 ^ 32 in
    rw (spread_carry_step p (suc n) rest (omega arith)) (
      Holds-cons _ (limbs_value rest + q) _ (length rest) _ (omega arith)
        (spread_carry_value rest q h.1 (omega (arith, h.0))) (omega (arith, h.0)))

product_bound : (a b : ℕ) → IsLimb a → IsLimb b → a * b ≤ (2 ^ 32 - 1) * (2 ^ 32 - 1)
product_bound a b h k = mul-le-mul {n₂ = 2 ^ 32 - 1} {m₂ = 2 ^ 32 - 1} (omega arith) (omega arith)

add_row_value :
    (limb : ℕ) (difficulty product : List ℕ) (carry : ℕ)
    → IsLimb limb
    → All IsLimb difficulty
    → All IsLimb product
    → carry < 2 ^ 32
    → length difficulty ≤ length product
    → Holds
        (add_row limb difficulty product carry)
        (length product)
        (limbs_value product + limb * limbs_value difficulty + carry)
unfolding add_row limbs_value
add_row_value limb [] product carry l d p c fits =
    subst (λ v. Holds (spread_carry product carry) (length product) v) (omega arith)
      (spread_carry_value product carry p c)
add_row_value limb (x ∷ difficulty) [] carry l d p c fits = absurd (omega arith)
add_row_value limb (x ∷ difficulty) (y ∷ product) carry l d p c fits =
    let q = (limb * x + y + carry) % u64_mod / 2 ^ 32 in
    let below = product_bound limb x l d.0 in
    Holds-cons _ (limbs_value product + limb * limbs_value difficulty + q) _ (length product) _
      (omega arith) (add_row_value limb difficulty product q l d.1 p.1 (omega arith) (omega arith))
      (omega (arith, p.0, below))

add_rows_step :
    (limb x : ℕ) (rest difficulty product row : List ℕ)
    → add_row limb difficulty product 0 ≡ x ∷ row
    → add_rows (limb ∷ rest) difficulty product ≡ x ∷ add_rows rest difficulty row
unfolding add_rows
add_rows_step limb x rest difficulty product row e = rw (e, add_rows)

-- The rows below the first, on what the first row leaves behind its lowest limb.
add_rows_below :
    (limb : ℕ) (rest difficulty product row : List ℕ)
    → add_row limb difficulty product 0 ≡ row
    → 0 < length product
    → Holds row (length product) (limbs_value product + limb * limbs_value difficulty + 0)
    → ((p : List ℕ)
        → All IsLimb p
        → suc (length p) ≡ length product
        → Holds
            (add_rows rest difficulty p)
            (length p)
            (limbs_value p + limbs_value rest * limbs_value difficulty))
    → Holds
        (add_rows (limb ∷ rest) difficulty product)
        (length product)
        (limbs_value product + limbs_value (limb ∷ rest) * limbs_value difficulty)
unfolding limbs_value limb_base
add_rows_below limb rest difficulty product [] e pos first below = absurd (omega (arith, first.0))
add_rows_below limb rest difficulty product (x ∷ row) e pos (a, b, (k, v)) below =
    let (a', b', (k', v')) = below row b.1 a in
    let whole : length product ≡ suc (length row) = omega (arith, a) in
    rw (add_rows_step limb x rest difficulty product row e) (
      omega (arith, a, a'),
      (b.0, b'),
      (k + k', omega (arith, v, ap (λ (t : ℕ). t * 2 ^ 32) v', ap (λ (t : ℕ). k' * limb_base t) a)),
    )

pub add_rows_value :
    (limbs difficulty product : List ℕ)
    → All IsLimb limbs
    → All IsLimb difficulty
    → All IsLimb product
    → length limbs + length difficulty ≤ length product
    → Holds
        (add_rows limbs difficulty product)
        (length product)
        (limbs_value product + limbs_value limbs * limbs_value difficulty)
unfolding add_rows limbs_value
add_rows_value [] difficulty product l d p fits = (refl, p, (0, omega arith))
add_rows_value (limb ∷ rest) difficulty product l d p fits =
    add_rows_below limb rest difficulty product _ refl (omega arith)
      (add_row_value limb difficulty product 0 l.0 d p (omega arith) (omega arith))
      (λ q b e. add_rows_value rest difficulty q l.1 d b (omega (arith, e)))

-- Limbs below their base, and the limbs from a place on.
pub limbs_value_below :
    (limbs : List ℕ) → All IsLimb limbs → limbs_value limbs < limb_base (length limbs)
unfolding limbs_value limb_base
limbs_value_below [] h = omega arith
limbs_value_below (x ∷ rest) h = omega (arith, h.0, limbs_value_below rest h.1)

pub all_zero-drop :
    (n : ℕ) (limbs : List ℕ)
    → All IsLimb limbs
    → n ≤ length limbs
    → all_zero (drop n limbs) ≡ ltb (limbs_value limbs) (limb_base n)
unfolding limbs_value limb_base
all_zero-drop zero [] h fits = refl
all_zero-drop zero (x ∷ rest) h fits = ground (arith, all_zero-drop zero rest h.1 (omega arith))
all_zero-drop (suc n) [] h fits = absurd (omega arith)
all_zero-drop (suc n) (x ∷ rest) h fits =
    ground (arith, h.0, all_zero-drop n rest h.1 (omega arith))
