-- ===== src/Monero/Varint.antt =====
-- Varints: reading undoes writing, and only the written form is read.
use Prim.Native.Nat.{bit_and, bit_or}
use native.Mathlib.Numerals.{towards_suc}
use native.Mathlib.Nat.{one-le-pow}
use monero_solo_stratum.Common.{
  ap, ◌∙◌, ℕ, zero, suc, ◌+◌, ◌*◌, ◌/◌, ◌%◌, ◌^◌, ◌≤◌, ◌<◌, ◌≡◌, refl, [], ◌∷◌, ltb, if◌then◌else◌,
  length, arith,
}
use monero_solo_stratum.Common.Bits.{bit_or-shifted, bit_and-mask}
use monero_solo_stratum.Monero.Reader.{encode_rounds, encode_varint}

pub low_group : (v : ℕ) → bit_and v 0x7f ≡ v % 128
low_group v = bit_and-mask 7 v

marked : (b : ℕ) → b < 128 → bit_or b 0x80 ≡ b + 128
marked b h = bit_or-shifted 7 b 1 h

encode_rounds-step :
    (f v : ℕ)
    → encode_rounds (suc f) v
      ≡ (if ltb v 128 then v ∷ [] else (v % 128 + 128) ∷ encode_rounds f (v / 128))
unfolding encode_rounds
encode_rounds-step f v = ground (arith, low_group v, marked (v % 128))

encode_rounds_enough : (m n v : ℕ) → v < m → v < n → encode_rounds m v ≡ encode_rounds n v
encode_rounds_enough zero n v p q = absurd (omega arith)
encode_rounds_enough (suc m) zero v p q = absurd (omega arith)
encode_rounds_enough (suc m) (suc n) v p q =
    ground
      (arith, encode_rounds-step m v, encode_rounds-step n v, encode_rounds_enough m n (v / 128))

encode_varint-rounds : (v : ℕ) → encode_varint v ≡ encode_rounds (suc v) v
unfolding encode_varint
encode_varint-rounds v = refl

-- One group of seven bits at a time, least significant first.
pub encode_varint_lem :
    (v : ℕ)
    → encode_varint v ≡ (if ltb v 128 then v ∷ [] else (v % 128 + 128) ∷ encode_varint (v / 128))
encode_varint_lem v = ground (
  arith,
  encode_varint-rounds v,
  encode_varint-rounds (v / 128),
  encode_rounds-step v v,
  encode_rounds_enough v (suc (v / 128)) (v / 128),
)

pub seven_more : (s : ℕ) → 2 ^ (s + 7) ≡ 128 * 2 ^ s
seven_more s = simp towards_suc (omega arith)

pub power_split : (u p : ℕ) → u * p ≡ u % 128 * p + u / 128 * (128 * p)
power_split u p = omega (arith, ap (λ (t : ℕ). t * p) (split u))
  where
    split : (u : ℕ) → u ≡ u % 128 + u / 128 * 128
    split u = omega arith

pub power_zero : (s u : ℕ) → s ≡ 0 → (2 ^ s ≡ 1) × (u * 2 ^ s ≡ u)
power_zero s u e =
    let p : 2 ^ s ≡ 1 = ap (λ (t : ℕ). 2 ^ t) e in (p, omega (arith, ap (λ (t : ℕ). u * t) p))

pub power_seven :
    (s s' u : ℕ) → s ≡ s' + 7 → (2 ^ s ≡ 128 * 2 ^ s') × (u * 2 ^ s ≡ 128 * (u * 2 ^ s'))
power_seven s s' u e =
    let p : 2 ^ s ≡ 128 * 2 ^ s' = ap (λ (t : ℕ). 2 ^ t) e ∙ seven_more s' in
    (p, omega (arith, ap (λ (t : ℕ). u * t) p))

-- Low groups below a value lengthen its encoding by one byte each.
pub length-encode_varint :
    (i s low u : ℕ)
    → s ≡ 7 * i
    → low < 2 ^ s
    → 1 ≤ u
    → length (encode_varint (low + u * 2 ^ s)) ≡ i + length (encode_varint u)
length-encode_varint zero s low u e h p =
    let z : (2 ^ s ≡ 1) × (u * 2 ^ s ≡ u) = power_zero s u (omega arith) in
    let n : low + u * 2 ^ s ≡ u = omega arith in
    ap (λ (t : ℕ). length (encode_varint t)) n ∙ omega arith
length-encode_varint (suc i) s low u e h p =
    let s' : ℕ = 7 * i in
    let z : (2 ^ s ≡ 128 * 2 ^ s') × (u * 2 ^ s ≡ 128 * (u * 2 ^ s')) =
      power_seven s s' u (omega arith) in
    let more : 1 ≤ u * 2 ^ s' = grind (arith, one-le-pow s' 2) in
    let n : (low + u * 2 ^ s) / 128 ≡ low / 128 + u * 2 ^ s' = omega arith in
    ground (
      arith,
      encode_varint_lem (low + u * 2 ^ s),
      n,
      length-encode_varint i s' (low / 128) u refl (omega arith) p,
    )
