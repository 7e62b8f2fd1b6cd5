-- ===== src/Monero/ShareTarget.antt =====
-- src/monero/monero.cpp: share targets and difficulties against arithmetic.
use Prim.Native.Nat.{bit_or}
use native.Mathlib.Nat.{
  mul-le-mul_left, pow-le-pow_right, pow-suc, mul-le-mul_right, mul_comm, le-div_iff_mul-le,
}
use monero_solo_stratum.Common.{
  ℕ, zero, suc, ◌+◌, ◌*◌, ◌/◌, ◌%◌, ◌^◌, ◌<◌, ◌≤◌, ◌≡◌, refl, ap, ◌∙◌, true, List, [], ◌∷◌, ltb,
  ◌==◌, if◌then◌else◌, length, drop, get_or, ltb→lt, All, arith,
}
use monero_solo_stratum.Common.Outcome.{ok}
use monero_solo_stratum.Common.Word.{u64_mod, u64_max}
use monero_solo_stratum.Common.Bits.{bit_or-shifted}
use monero_solo_stratum.Monero.VarintCanonical.{IsByte}
use monero_solo_stratum.Monero.Target.{
  share_target64, word_rounds, pow_word64, meets_share_target, actual_difficulty,
}
use monero_solo_stratum.Monero.Varint.{seven_more}
use monero_solo_stratum.Monero.NetworkTarget.{bytes_value}

get_or-IsByte : (hash : List ℕ) (i : ℕ) → All IsByte hash → IsByte (get_or hash i 0)
get_or-IsByte [] i h = omega arith
get_or-IsByte (b ∷ rest) zero h = h.0
get_or-IsByte (b ∷ rest) (suc i) h = get_or-IsByte rest i h.1

bytes_value-drop :
    (hash : List ℕ) (i : ℕ)
    → i < length hash
    → bytes_value (drop i hash) ≡ get_or hash i 0 + bytes_value (drop (suc i) hash) * 2 ^ 8
unfolding bytes_value
bytes_value-drop [] i h = absurd (omega arith)
bytes_value-drop (b ∷ rest) zero h = refl
bytes_value-drop (b ∷ rest) (suc i) h = bytes_value-drop rest i (omega arith)

bytes_value_end : (hash : List ℕ) (i : ℕ) → length hash ≡ i → bytes_value (drop i hash) ≡ 0
unfolding bytes_value
bytes_value_end [] zero h = refl
bytes_value_end [] (suc i) h = absurd (omega (arith, h))
bytes_value_end (b ∷ rest) zero h = absurd (omega (arith, h))
bytes_value_end (b ∷ rest) (suc i) h = bytes_value_end rest i (omega (arith, h))

power_eight : (k : ℕ) → 2 ^ (k + 8) ≡ 2 ^ k * 2 ^ 8
power_eight k =
    ap (λ (t : ℕ). 2 ^ t) {x = k + 8} {y = suc k + 7} (omega arith)
    ∙ omega (arith, seven_more (suc k), pow-suc 2 k)

next_shift : (i : ℕ) → 2 ^ (8 * (i + 1)) ≡ 2 ^ (8 * i) * 2 ^ 8
next_shift i =
    ap (λ (t : ℕ). 2 ^ t) {x = 8 * (i + 1)} {y = 8 * i + 8} (omega arith) ∙ power_eight (8 * i)

word_rounds_value :
    (n i result : ℕ) (hash : List ℕ)
    → length hash ≡ 24 + (i + n)
    → All IsByte hash
    → i + n ≤ 8
    → result < 2 ^ (8 * i)
    → word_rounds n hash i result ≡ result + bytes_value (drop (24 + i) hash) * 2 ^ (8 * i)
unfolding word_rounds
word_rounds_value zero i result hash len bytes fits below =
    ground (arith, bytes_value_end hash (24 + i) (omega (arith, len)))
word_rounds_value (suc n) i result hash len bytes fits below =
    let b = get_or hash (24 + i) 0 in
    let small : b < 2 ^ 8 = get_or-IsByte hash (24 + i) bytes in
    let top = pow-le-pow_right {n = 2} (omega arith) {i = 8 * i} {j = 56} (omega arith) in
    let shifted = mul-le-mul_left b top in
    let whole : b * 2 ^ (8 * i) % u64_mod ≡ b * 2 ^ (8 * i) = omega (arith, small, shifted) in
    let joined : bit_or result (b * 2 ^ (8 * i) % u64_mod) ≡ result + b * 2 ^ (8 * i) =
      rw whole (bit_or-shifted (8 * i) result b below) in
    let head = bytes_value-drop hash (24 + i) (omega (arith, len)) in
    let place : bytes_value (drop (24 + (i + 1)) hash) ≡ bytes_value (drop (suc (24 + i)) hash) =
      ap (λ (t : ℕ). bytes_value (drop t hash)) {x = 24 + (i + 1)} {y = suc (24 + i)}
        (omega arith) in
    let most : b * 2 ^ (8 * i) ≤ 255 * 2 ^ (8 * i) =
      mul-le-mul_right (2 ^ (8 * i)) (omega (arith, small)) in
    word_rounds_value n (i + 1) (bit_or result (b * 2 ^ (8 * i) % u64_mod)) hash
      (omega (arith, len)) bytes (omega arith) (omega (arith, joined, next_shift i, most))
    ∙ omega (
      arith,
      joined,
      ap (λ (t : ℕ). t * 2 ^ (8 * (i + 1))) place,
      ap (λ (t : ℕ). bytes_value (drop (suc (24 + i)) hash) * t) (next_shift i),
      ap (λ (t : ℕ). t * 2 ^ (8 * i)) head,
    )

pow_word64_value :
    (hash : List ℕ)
    → length hash ≡ 32
    → All IsByte hash
    → pow_word64 hash ≡ bytes_value (drop 24 hash)
unfolding pow_word64
pow_word64_value hash len bytes =
    word_rounds_value 8 0 0 hash len bytes (omega arith) (omega arith) ∙ omega arith

-- The lower bytes of a hash as a number.
bytes_value_split :
    (n : ℕ) (hash : List ℕ)
    → All IsByte hash
    → n ≤ length hash
    → (low : ℕ) × (low < 2 ^ (8 * n))
      × (bytes_value hash ≡ low + bytes_value (drop n hash) * 2 ^ (8 * n))
unfolding bytes_value
bytes_value_split zero hash h fits = (0, omega arith, omega arith)
bytes_value_split (suc n) [] h fits = absurd (omega arith)
bytes_value_split (suc n) (b ∷ rest) h fits =
    let (low, small, e) = bytes_value_split n rest h.1 (omega arith) in
    let shift : 2 ^ (8 * suc n) ≡ 2 ^ (8 * n) * 2 ^ 8 =
      ap (λ (t : ℕ). 2 ^ t) {x = 8 * suc n} {y = 8 * n + 8} (omega arith) ∙ power_eight (8 * n) in
    (
      b + low * 2 ^ 8,
      omega (arith, h.0, shift, small),
      omega (arith, e, ap (λ (t : ℕ). bytes_value (drop n rest) * t) shift),
    )

-- For a hash of 32 bytes and any target, the share test asks whether the hash, as a number with its
-- lowest byte first, is below the target times 2^192.
pub meets_share_target_exact :
    (hash : List ℕ) (target : ℕ)
    → length hash ≡ 32
    → All IsByte hash
    → meets_share_target hash target ≡ ltb (bytes_value hash) (target * 2 ^ 192)
unfolding meets_share_target
meets_share_target_exact hash target len bytes =
    let (low, small, e) = bytes_value_split 24 hash bytes (omega (arith, len)) in
    rw (pow_word64_value hash len bytes) (ground (arith, e, small))

difficulty_of_word :
    (word difficulty : ℕ)
    → 0 < difficulty
    → difficulty < 2 ^ 64
    → word < u64_max / difficulty
    → difficulty ≤ (if word == 0 then u64_max else u64_max / word)
difficulty_of_word zero difficulty pos fits below = omega arith
difficulty_of_word (suc n) difficulty pos fits below =
    let product : suc n * difficulty ≤ u64_max = (le-div_iff_mul-le pos).0 (omega arith) in
    let bound : difficulty ≤ u64_max / suc n =
      (le-div_iff_mul-le {k = suc n} {x = difficulty} {y = u64_max} (omega arith)).1
        (omega (arith, product, mul_comm (suc n) difficulty)) in
    ground arith

share_difficulty :
    (hash : List ℕ) (difficulty : ℕ)
    → 0 < difficulty
    → difficulty < 2 ^ 64
    → meets_share_target hash (u64_max / difficulty) ≡ true
    → difficulty ≤ actual_difficulty hash
unfolding meets_share_target actual_difficulty
share_difficulty hash difficulty pos fits h =
    difficulty_of_word (pow_word64 hash) difficulty pos fits
      (ltb→lt (pow_word64 hash) (u64_max / difficulty) h)

-- For a difficulty from 1 below 2^64 the share target exists, and every hash that meets it is given
-- at least that difficulty.
pub meets_share_target-actual_difficulty :
    (hash : List ℕ) (difficulty : ℕ)
    → 0 < difficulty
    → difficulty < 2 ^ 64
    → (target : ℕ) × (share_target64 difficulty ≡ ok target)
      × (meets_share_target hash target ≡ true → difficulty ≤ actual_difficulty hash)
unfolding share_target64
meets_share_target-actual_difficulty hash difficulty pos fits =
    (u64_max / difficulty, ground arith, share_difficulty hash difficulty pos fits)
