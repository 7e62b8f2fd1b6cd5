-- ===== src/Monero/NetworkTarget.antt =====
-- src/monero/monero.cpp: `parse_decimal_uint128` and `meets_network_target` against arithmetic.
use monero_solo_stratum.Common.{
  ℕ, zero, suc, ◌+◌, ◌-◌, ◌*◌, ◌%◌, ◌^◌, ◌<◌, ◌≤◌, ◌≡◌, refl, ap, ◌∙◌, Bool, true, false, List, [],
  ◌∷◌, ltb, length, drop, replicate, All, arith,
}
use Prim.Native.Nat.{bit_or}
use native.Mathlib.Nat.{mul-le-mul}
use monero_solo_stratum.Common.Outcome.{ok}
use monero_solo_stratum.Common.Word.{u32_mod}
use monero_solo_stratum.Common.Bits.{bit_or-shifted, zero-bit_or}
use monero_solo_stratum.Monero.VarintCanonical.{IsByte}
use monero_solo_stratum.Monero.Target.{
  times_ten, decimal_rounds, parse_decimal_uint128, has_bad_front, all_zero, hash_limbs, add_rows,
  meets_network_target,
}
use monero_solo_stratum.Monero.Product.{
  IsLimb, limbs_value, limb_base, times_ten_value, add_rows_value, limbs_value_below, all_zero-drop,
}

-- The number that a text of decimal digits stands for, behind digits that stand for `acc`.
unfoldable pub decimal_value : ℕ → List ℕ → ℕ
decimal_value acc [] = acc
decimal_value acc (ch ∷ rest) = decimal_value (acc * 10 + (ch - 48)) rest

abbrev pub IsDigit : ℕ → Type 0
IsDigit ch = (48 ≤ ch) × (ch ≤ 57)

-- A hash is a number with its lowest byte first.
unfoldable pub bytes_value : List ℕ → ℕ
bytes_value [] = 0
bytes_value (b ∷ rest) = b + bytes_value rest * 2 ^ 8

le-decimal_value : (text : List ℕ) (acc : ℕ) → acc ≤ decimal_value acc text
unfolding decimal_value
le-decimal_value [] acc = omega arith
le-decimal_value (ch ∷ rest) acc = omega (arith, le-decimal_value rest (acc * 10 + (ch - 48)))

abbrev Reads : List ℕ → List ℕ → ℕ → Type 0
Reads text limbs value =
    (r : List ℕ) × (decimal_rounds text limbs ≡ ok r)
    × (length r ≡ 4)
    × All IsLimb r
    × (limbs_value r ≡ value)

decimal_rounds_step :
    (ch : ℕ) (rest limbs : List ℕ)
    → IsDigit ch
    → (times_ten limbs (ch - 48)).1 ≡ 0
    → decimal_rounds (ch ∷ rest) limbs ≡ decimal_rounds rest (times_ten limbs (ch - 48)).0
unfolding decimal_rounds
decimal_rounds_step ch rest limbs d none = ground arith

decimal_rounds_value :
    (text limbs : List ℕ)
    → All IsDigit text
    → length limbs ≡ 4
    → All IsLimb limbs
    → decimal_value (limbs_value limbs) text < 2 ^ 128
    → Reads text limbs (decimal_value (limbs_value limbs) text)
unfolding decimal_rounds decimal_value limb_base
decimal_rounds_value [] limbs d four l fits = (limbs, refl, four, l, refl)
decimal_rounds_value (ch ∷ rest) limbs d four l fits =
    let digit = ch - 48 in
    let next = times_ten limbs digit in
    let (a, b, e) = times_ten_value limbs digit l (omega (arith, d.0)) in
    let large = le-decimal_value rest (limbs_value limbs * 10 + digit) in
    let none : next.1 ≡ 0 = omega (arith, large, e, ap (λ (t : ℕ). next.1 * limb_base t) four) in
    let value : limbs_value next.0 ≡ limbs_value limbs * 10 + digit =
      omega (arith, e, none, ap (λ (t : ℕ). t * limb_base (length limbs)) none) in
    let (r, er, len, small, w) =
      decimal_rounds_value rest next.0 d.1 (omega (arith, a)) b (rw value fits) in
    (
      r,
      decimal_rounds_step ch rest limbs d.0 none ∙ er,
      len,
      small,
      w ∙ ap (λ (v : ℕ). decimal_value v rest) value,
    )

all_zero_value : (limbs : List ℕ) → all_zero limbs ≡ true → limbs_value limbs ≡ 0
unfolding limbs_value
all_zero_value [] h = refl
all_zero_value (x ∷ rest) h = ground (arith, all_zero_value rest)

-- A text of decimal digits without a leading zero that stands for `value`, from 1 below 2^128.
abbrev pub IsDifficulty : List ℕ → ℕ → Type 0
IsDifficulty text value =
    All IsDigit text
    × (has_bad_front text ≡ false)
    × (decimal_value 0 text ≡ value)
    × (0 < value)
    × (value < 2 ^ 128)

parse_from :
    (text r : List ℕ)
    → has_bad_front text ≡ false
    → decimal_rounds text (replicate 4 0) ≡ ok r
    → all_zero r ≡ false
    → parse_decimal_uint128 text ≡ ok r
unfolding parse_decimal_uint128
parse_from text r front e pos = rw (front, e, pos)

four_limbs : All IsLimb (replicate 4 0)
four_limbs = ground arith

parse_decimal_uint128_value :
    (text : List ℕ) (value : ℕ)
    → IsDifficulty text value
    → (r : List ℕ) × (parse_decimal_uint128 text ≡ ok r)
      × (length r ≡ 4)
      × All IsLimb r
      × (limbs_value r ≡ value)
unfolding limbs_value
parse_decimal_uint128_value text value (d, front, v, pos, fits) =
    let (r, e, four, l, w) =
      decimal_rounds_value text (replicate 4 0) d refl four_limbs (rw v fits) in
    (r, parse_from text r front e (ground (arith, w, v, all_zero_value r)), four, l, w ∙ v)

-- Four bytes as one limb.
limb_sum :
    (a b c d : ℕ)
    → IsByte a
    → IsByte b
    → IsByte c
    → IsByte d
    → bit_or
        (bit_or (bit_or (bit_or 0 a) (b * 2 ^ 8 % u32_mod)) (c * 2 ^ 16 % u32_mod))
        (d * 2 ^ 24 % u32_mod)
      ≡ a + b * 2 ^ 8 + c * 2 ^ 16 + d * 2 ^ 24
limb_sum a b c d ha hb hc hd =
    let eb : b * 2 ^ 8 % u32_mod ≡ b * 2 ^ 8 = omega arith in
    let ec : c * 2 ^ 16 % u32_mod ≡ c * 2 ^ 16 = omega arith in
    let ed : d * 2 ^ 24 % u32_mod ≡ d * 2 ^ 24 = omega arith in
    rw
      (
        eb,
        ec,
        ed,
        zero-bit_or a,
        bit_or-shifted 8 a b (omega arith),
        bit_or-shifted 16 (a + b * 2 ^ 8) c (omega arith),
        bit_or-shifted 24 (a + b * 2 ^ 8 + c * 2 ^ 16) d (omega arith),
      )
      refl

hash_limbs_value :
    (n : ℕ) (hash : List ℕ)
    → length hash ≡ 4 * n
    → All IsByte hash
    → (length (hash_limbs hash) ≡ n)
      × All IsLimb (hash_limbs hash)
      × (limbs_value (hash_limbs hash) ≡ bytes_value hash)
unfolding hash_limbs limbs_value bytes_value
hash_limbs_value zero [] e h = (refl, tt, refl)
hash_limbs_value zero (x ∷ rest) e h = absurd (omega (arith, e))
hash_limbs_value (suc n) [] e h = absurd (omega (arith, e))
hash_limbs_value (suc n) (a ∷ []) e h = absurd (omega (arith, e))
hash_limbs_value (suc n) (a ∷ b ∷ []) e h = absurd (omega (arith, e))
hash_limbs_value (suc n) (a ∷ b ∷ c ∷ []) e h = absurd (omega (arith, e))
hash_limbs_value (suc n) (a ∷ b ∷ c ∷ d ∷ rest) e (ha, (hb, (hc, (hd, h)))) =
    let sum = limb_sum a b c d ha hb hc hd in
    let (el, l, v) = hash_limbs_value n rest (omega (arith, e)) h in
    (ap suc el, (omega (arith, sum), l), omega (arith, sum, v))

twelve_limbs : All IsLimb (replicate 12 0)
twelve_limbs = ground arith

-- The product of the limbs of eight and of four fits in twelve.
product_zero :
    (h d : List ℕ)
    → length h ≡ 8
    → length d ≡ 4
    → All IsLimb h
    → All IsLimb d
    → all_zero (drop 8 (add_rows h d (replicate 12 0)))
      ≡ ltb (limbs_value h * limbs_value d) (2 ^ 256)
unfolding limbs_value limb_base
product_zero h d eh ed lh ld =
    let (len, l, (k, e)) =
      add_rows_value h d (replicate 12 0) lh ld twelve_limbs (omega (arith, eh, ed)) in
    let below_h : limbs_value h ≤ 2 ^ 256 - 1 =
      omega (arith, limbs_value_below h lh, ap (λ (t : ℕ). limb_base t) eh) in
    let below_d : limbs_value d ≤ 2 ^ 128 - 1 =
      omega (arith, limbs_value_below d ld, ap (λ (t : ℕ). limb_base t) ed) in
    let below = mul-le-mul {n₂ = 2 ^ 256 - 1} {m₂ = 2 ^ 128 - 1} below_h below_d in
    let none : k ≡ 0 = omega (arith, e, below) in
    all_zero-drop 8 _ l (omega (arith, len))
    ∙ ap (λ (t : ℕ). ltb t (2 ^ 256)) (omega (arith, e, none))

meets_from :
    (hash text d : List ℕ)
    → parse_decimal_uint128 text ≡ ok d
    → meets_network_target hash text
      ≡ ok (all_zero (drop 8 (add_rows (hash_limbs hash) d (replicate 12 0))))
unfolding meets_network_target
meets_from hash text d e = rw e

-- For a hash of 32 bytes and a difficulty in canonical decimal from 1 below 2^128, the network
-- target test succeeds, and answers whether the hash, as a number with its lowest byte first, times
-- the difficulty is below 2^256.
pub meets_network_target_exact :
    (hash text : List ℕ) (difficulty : ℕ)
    → length hash ≡ 32
    → All IsByte hash
    → IsDifficulty text difficulty
    → meets_network_target hash text ≡ ok (ltb (bytes_value hash * difficulty) (2 ^ 256))
meets_network_target_exact hash text difficulty len bytes h =
    let (d, e, four, ld, v) = parse_decimal_uint128_value text difficulty h in
    let (eight, lh, w) = hash_limbs_value 8 hash len bytes in
    meets_from hash text d e
    ∙ ap (λ (b : Bool). ok b) (product_zero (hash_limbs hash) d eight four lh ld ∙ rw (v, w) refl)
