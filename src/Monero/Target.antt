-- ===== src/Monero/Target.antt =====
-- src/monero/monero.cpp: difficulties and targets. A text is the list of its character codes, a
-- hash the list of its bytes.
use Prim.Native.Nat.{bit_or}
use monero_solo_stratum.Common.{
  ℕ, zero, suc, ◌+◌, ◌-◌, ◌*◌, ◌/◌, ◌%◌, ◌^◌, Bool, true, not, ◌&&◌, ◌||◌, List, [], ◌∷◌, ltb, ◌==◌,
  if◌then◌else◌, length, drop, replicate, get_or,
}
use monero_solo_stratum.Common.Outcome.{Outcome, ok, throw, throw_if, ◌>>=◌, ◌>>◌}
use monero_solo_stratum.Common.Word.{u32_mod, u64_mod, u64_max}

-- The texts of `ValidationError` here.
pub data ValidationError : Type 0 where
  not_canonical_decimal network_difficulty_overflows : ValidationError
  network_difficulty_not_positive share_difficulty_not_positive : ValidationError

-- The inner loop of `parse_decimal_uint128`: the limbs times ten plus a carry, and the last carry.
unfoldable pub times_ten : List ℕ → ℕ → List ℕ × ℕ
times_ten [] carry = ([], carry)
times_ten (limb ∷ rest) carry =
    let value = (limb * 10 + carry) % u64_mod in
    let more = times_ten rest (value / 2 ^ 32) in (value % u32_mod ∷ more.0, more.1)

-- The loop over the characters.
unfoldable pub decimal_rounds : List ℕ → List ℕ → Outcome ValidationError (List ℕ)
unfolding times_ten
decimal_rounds [] result = ok result
decimal_rounds (ch ∷ rest) result =
    let next = times_ten result (ch - 48) in
    let more = decimal_rounds rest next.0 in
    if ltb ch 48 || ltb 57 ch
    then throw not_canonical_decimal
    else if not (next.1 == 0)
    then throw network_difficulty_overflows
    else more

abbrev pub all_zero : List ℕ → Bool
all_zero [] = true
all_zero (limb ∷ rest) = (limb == 0) && all_zero rest

-- `text.empty() || (text.size() > 1 && text.front() == '0')`
abbrev pub has_bad_front : List ℕ → Bool
has_bad_front [] = true
has_bad_front (ch ∷ rest) = ltb 1 (length (ch ∷ rest)) && ch == 48

unfoldable pub parse_decimal_uint128 : List ℕ → Outcome ValidationError (List ℕ)
unfolding decimal_rounds
parse_decimal_uint128 text = do
  throw_if (has_bad_front text) not_canonical_decimal
  result ← decimal_rounds text (replicate 4 0)
  throw_if (all_zero result) network_difficulty_not_positive
  ok result

-- `hash_limbs`: the bytes in groups of four, the first the lowest.
unfoldable pub hash_limbs : List ℕ → List ℕ
hash_limbs (a ∷ b ∷ c ∷ d ∷ rest) =
    bit_or (bit_or (bit_or (bit_or 0 a) (b * 2 ^ 8 % u32_mod)) (c * 2 ^ 16 % u32_mod))
      (d * 2 ^ 24 % u32_mod)
    ∷ hash_limbs rest
hash_limbs other = []

-- The `while (carry != 0 && position < product.size())` loop, on the limbs from `position` on.
unfoldable pub spread_carry : List ℕ → ℕ → List ℕ
spread_carry [] carry = []
spread_carry (p ∷ rest) carry =
    let value = (p + carry) % u64_mod in
    let more = spread_carry rest (value / 2 ^ 32) in
    if carry == 0 then p ∷ rest else value % u32_mod ∷ more

-- The loop over the limbs of the difficulty, on the limbs of the product from `i + j` on.
unfoldable pub add_row : ℕ → List ℕ → List ℕ → ℕ → List ℕ
unfolding spread_carry
add_row limb [] product carry = spread_carry product carry
add_row limb (d ∷ difficulty) [] carry = []
add_row limb (d ∷ difficulty) (p ∷ product) carry =
    let value = (limb * d + p + carry) % u64_mod in
    value % u32_mod ∷ add_row limb difficulty product (value / 2 ^ 32)

-- The loop over the limbs of the hash, on the limbs of the product from `i` on: a later row does
-- not touch the first of them.
unfoldable pub add_rows : List ℕ → List ℕ → List ℕ → List ℕ
unfolding add_row
add_rows [] difficulty product = product
add_rows (limb ∷ rest) difficulty product = elim (add_row limb difficulty product 0) [
  | [] ↦ []
  | p ∷ product' ↦ p ∷ add_rows rest difficulty product'
]

unfoldable pub meets_network_target : List ℕ → List ℕ → Outcome ValidationError Bool
unfolding parse_decimal_uint128 hash_limbs add_rows
meets_network_target hash difficulty_decimal = do
  difficulty ← parse_decimal_uint128 difficulty_decimal
  ok (all_zero (drop 8 (add_rows (hash_limbs hash) difficulty (replicate 12 0))))

unfoldable pub share_target64 : ℕ → Outcome ValidationError ℕ
share_target64 difficulty =
    if difficulty == 0 then throw share_difficulty_not_positive else ok (u64_max / difficulty)

-- `result[i] = target >> (8 * i)` for i from 0 below 8.
unfoldable pub little_endian_rounds : ℕ → ℕ → List ℕ
little_endian_rounds zero target = []
little_endian_rounds (suc n) target = target % 2 ^ 8 ∷ little_endian_rounds n (target / 2 ^ 8)

unfoldable pub share_target_le : ℕ → Outcome ValidationError (List ℕ)
unfolding share_target64 little_endian_rounds
share_target_le difficulty = do
  target ← share_target64 difficulty
  ok (little_endian_rounds 8 target)

-- The loop of `pow_word64` over the rounds left.
unfoldable pub word_rounds : ℕ → List ℕ → ℕ → ℕ → ℕ
word_rounds zero hash i result = result
word_rounds (suc n) hash i result =
    word_rounds n hash (i + 1) (bit_or result (get_or hash (24 + i) 0 * 2 ^ (8 * i) % u64_mod))

unfoldable pub pow_word64 : List ℕ → ℕ
unfolding word_rounds
pow_word64 hash = word_rounds 8 hash 0 0

unfoldable pub meets_share_target : List ℕ → ℕ → Bool
unfolding pow_word64
meets_share_target hash target64 = ltb (pow_word64 hash) target64

unfoldable pub actual_difficulty : List ℕ → ℕ
unfolding pow_word64
actual_difficulty hash = let word = pow_word64 hash in if word == 0 then u64_max else u64_max / word
