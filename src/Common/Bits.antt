-- ===== src/Common/Bits.antt =====
-- `|` of disjoint bit fields and `&` with a mask, as arithmetic. The library defines the native
-- operations by a recursion on binary digits with fuel.
use Prim.Native.Nat.{
  ℕ, zero, suc, ◌+◌, ◌-◌, ◌*◌, ◌/◌, ◌%◌, ◌^◌, ◌≤◌, ◌<◌, min, max, digits, bit_and, bit_or, bitwise,
  bit_and-bitwise, bit_or-bitwise,
}
use mathlib.Core.Bool.{Bool, true, ◌&&◌}
use mathlib.Core.Path.{◌≡◌, refl, ap}
use native.Mathlib.Nat.{pow-suc, one-le-pow}
use native.Mathlib.Omega.{arith}
use monero_solo_stratum.Common.Tests.{◌==◌, ltb, if◌then◌else◌, ==_iff}

-- More fuel than the number has digits changes nothing.
module _ (z : ℕ → ℕ) (f : ℕ → ℕ → ℕ) where
  enough_digits : (m n a b : ℕ) → a ≤ m → a ≤ n → digits z f m a b ≡ digits z f n a b
  enough_digits zero zero a b p q = refl
  enough_digits (suc m) zero zero b p q = refl
  enough_digits (suc m) zero (suc a) b p q = absurd (omega arith)
  enough_digits zero (suc n) zero b p q = refl
  enough_digits zero (suc n) (suc a) b p q = absurd (omega arith)
  enough_digits (suc m) (suc n) zero b p q = refl
  enough_digits (suc m) (suc n) (suc a) b p q =
      rw (enough_digits m n (suc a / 2) (b / 2) (omega arith) (omega arith))

  lowest_digit :
      (a b : ℕ)
      → bitwise z f (suc a) b ≡ bitwise z f (suc a / 2) (b / 2) * 2 + f (suc a % 2) (b % 2)
  lowest_digit a b =
      omega (arith, enough_digits a (suc a / 2) (suc a / 2) (b / 2) (omega arith) (omega arith))

bit_or_digit : (a b : ℕ) → bit_or a b ≡ bit_or (a / 2) (b / 2) * 2 + max (a % 2) (b % 2)
bit_or_digit zero b = simp bit_or-bitwise (omega arith)
bit_or_digit (suc a) b = simp bit_or-bitwise (lowest_digit (λ y. y) max a b)

bit_and_digit : (a b : ℕ) → bit_and a b ≡ bit_and (a / 2) (b / 2) * 2 + min (a % 2) (b % 2)
bit_and_digit zero b = simp bit_and-bitwise (omega arith)
bit_and_digit (suc a) b = simp bit_and-bitwise (lowest_digit (λ y. 0) min a b)

pub zero-bit_or : (b : ℕ) → bit_or 0 b ≡ b
zero-bit_or b = simp bit_or-bitwise

double_field : (q k : ℕ) → q * 2 ^ suc k ≡ 2 * (q * 2 ^ k)
double_field q k = omega (arith, ap (λ (t : ℕ). q * t) (pow-suc 2 k))

-- `low | (high << k)` is a sum where `low` fits below bit `k`.
pub bit_or-shifted : (k low high : ℕ) → low < 2 ^ k → bit_or low (high * 2 ^ k) ≡ low + high * 2 ^ k
bit_or-shifted zero zero high fits = ground (arith, zero-bit_or high)
bit_or-shifted zero (suc low) high fits = absurd (omega arith)
bit_or-shifted (suc k) low high fits = ground (
  arith,
  bit_or_digit low (high * 2 ^ suc k),
  double_field high k,
  pow-suc 2 k,
  bit_or-shifted k (low / 2) high (omega arith),
)

bit_and-zero_below : (n a : ℕ) → a ≤ n → bit_and a 0 ≡ 0
bit_and-zero_below n zero h = refl
bit_and-zero_below zero (suc a) h = absurd (omega arith)
bit_and-zero_below (suc n) (suc a) h =
    omega (arith, bit_and_digit (suc a) 0, bit_and-zero_below n (suc a / 2) (omega arith))

bit_and-field : (k low high : ℕ) → low < 2 ^ k → bit_and (low + high * 2 ^ k) (2 ^ k - 1) ≡ low
bit_and-field zero low high fits =
    ground (arith, bit_and-zero_below (low + high * 1) (low + high * 1))
bit_and-field (suc k) low high fits = ground (
  arith,
  bit_and_digit (low + high * 2 ^ suc k) (2 ^ suc k - 1),
  double_field high k,
  pow-suc 2 k,
  one-le-pow k 2,
  bit_and-field k (low / 2) high (omega arith),
)

-- `a & (2^k - 1)` is the remainder.
pub bit_and-mask : (k a : ℕ) → bit_and a (2 ^ k - 1) ≡ a % 2 ^ k
bit_and-mask k a = ground (arith, one-le-pow k 2, bit_and-field k (a % 2 ^ k) (a / 2 ^ k))

-- Over a small range, every value is checked by evaluation.
unfoldable pub every_below : ℕ → (ℕ → Bool) → Bool
every_below zero p = true
every_below (suc n) p = p n && every_below n p

pub every_below_sound : (n : ℕ) (p : ℕ → Bool) (x : ℕ) → every_below n p ≡ true → x < n → p x ≡ true
unfolding every_below
every_below_sound zero p x h lt = absurd (omega arith)
every_below_sound (suc n) p x h lt = ground (arith, every_below_sound n p x)

top_bit_table : every_below 256 (λ b. bit_and b 0x80 == (if ltb b 128 then 0 else 128)) ≡ true
unfolding every_below
top_bit_table = refl

-- The top bit of a byte.
pub bit_and-top : (b : ℕ) → b < 256 → bit_and b 0x80 ≡ (if ltb b 128 then 0 else 128)
bit_and-top b h =
    (==_iff (bit_and b 0x80) (if ltb b 128 then 0 else 128)).0
      (every_below_sound 256 _ b top_bit_table h)
