-- ===== src/Stratum/TargetText.antt =====
-- src/stratum/stratum.cpp: the text of a four-byte target, read back.
use Prim.Native.Nat.{bit_and, bit_or}
use monero_solo_stratum.Common.{
  ℕ, ◌+◌, ◌*◌, ◌/◌, ◌%◌, ◌^◌, ◌<◌, ◌≡◌, refl, ap, ◌∙◌, Bool, true, false, Option, none, some, List,
  [], ◌∷◌, ◌==◌, ==_iff, get_or, All, arith,
}
use monero_solo_stratum.Common.Bits.{every_below, every_below_sound}
use monero_solo_stratum.Common.Word.{u8_mod, u32_mod}
use monero_solo_stratum.Monero.VarintCanonical.{IsByte}
use monero_solo_stratum.Stratum.Targets.{
  nibble, decode_hex, decode_hex_pairs, join_nibbles, digits, concat_hex, target_bytes,
  compact_target_hex,
}

abbrev joins : Option ℕ → Option ℕ → ℕ → Bool
joins (some high) (some low) b = bit_or (high * 2 ^ 4) low % u8_mod == b
joins high low b = false

byte_table :
    every_below 256 (λ b.
      joins (nibble (get_or digits (b / 2 ^ 4) 0)) (nibble (get_or digits (bit_and b 0x0f) 0)) b)
    ≡ true
unfolding every_below nibble
byte_table = refl

joins-join :
    (high low : Option ℕ) (b : ℕ) (rest : List ℕ)
    → joins high low b ≡ true
    → join_nibbles high low (some rest) ≡ some (b ∷ rest)
joins-join (some high) (some low) b rest h =
    ap (λ (x : ℕ). some (x ∷ rest)) ((==_iff (bit_or (high * 2 ^ 4) low % u8_mod) b).0 h)
joins-join (some high) none b rest h = ground arith
joins-join none low b rest h = ground arith

decode_hex_pairs-concat_hex :
    (bytes : List ℕ) → All IsByte bytes → decode_hex_pairs (concat_hex bytes) ≡ some bytes
unfolding decode_hex_pairs
decode_hex_pairs-concat_hex [] h = refl
decode_hex_pairs-concat_hex (b ∷ bytes) h =
    ap
      (λ o.
        join_nibbles (nibble (get_or digits (b / 2 ^ 4) 0))
          (nibble (get_or digits (bit_and b 0x0f) 0)) o)
      (decode_hex_pairs-concat_hex bytes h.1)
    ∙ joins-join _ _ b bytes (every_below_sound 256 _ b byte_table h.0)

-- The text of a target below 2^32 reads back as its four bytes, the lowest first, and these bytes
-- make up the target.
pub decode_hex-compact_target_hex :
    (target : ℕ)
    → target < u32_mod
    → (decode_hex 4 (compact_target_hex target) ≡ some (target_bytes target))
      × (target
          ≡ target % u8_mod
            + 2 ^ 8 * (target / 2 ^ 8 % u8_mod)
            + 2 ^ 16 * (target / 2 ^ 16 % u8_mod)
            + 2 ^ 24 * (target / 2 ^ 24 % u8_mod))
unfolding decode_hex compact_target_hex
decode_hex-compact_target_hex target h =
    (decode_hex_pairs-concat_hex (target_bytes target) ground arith, omega arith)
