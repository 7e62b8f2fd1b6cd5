-- ===== src/Hex.antt =====
-- src/crypto/util.cpp: hexadecimal text. A text is the list of its character codes.
pub mod RoundTrip
mod Examples
use Prim.Native.Nat.{bit_and, bit_or}
use monero_solo_stratum.Common.{
  ℕ, ◌+◌, ◌-◌, ◌*◌, ◌/◌, ◌%◌, ◌^◌, Bool, true, false, not, ◌&&◌, ◌||◌, List, [], ◌∷◌, leb, ltb,
  ◌==◌, if◌then◌else◌, length, get_or,
}
use monero_solo_stratum.Common.Outcome.{Outcome, ok, throw, ◌>>=◌}
use monero_solo_stratum.Common.Word.{u8_mod, u64_max}

-- The texts of `ValidationError` here.
pub data HexError : Type 0 where
  odd_length not_hexadecimal unexpected_length : HexError

unfoldable pub is_hex_char : ℕ → Bool
is_hex_char ch = leb 48 ch && leb ch 57 || leb 97 ch && leb ch 102 || leb 65 ch && leb ch 70

unfoldable pub hex_value : ℕ → ℕ
hex_value ch =
    if leb 48 ch && leb ch 57
    then (ch - 48) % u8_mod
    else if leb 97 ch && leb ch 102
    then (ch - 97 + 10) % u8_mod
    else (ch - 65 + 10) % u8_mod

-- The loop over the pairs of characters; a last single one is excluded before.
unfoldable pub decode_pairs : List ℕ → Outcome HexError (List ℕ)
unfolding is_hex_char hex_value
decode_pairs (high ∷ low ∷ text) =
    let rest = decode_pairs text in
    if not (is_hex_char high) || not (is_hex_char low)
    then throw not_hexadecimal
    else rest >>= λ r. ok (bit_or (hex_value high * 2 ^ 4) (hex_value low) % u8_mod ∷ r)
decode_pairs other = ok []

unfoldable pub hex_decode : List ℕ → Outcome HexError (List ℕ)
unfolding decode_pairs
hex_decode text = if length text % 2 == 0 then decode_pairs text else throw odd_length

unfoldable pub hex_decode_exact : List ℕ → ℕ → Outcome HexError (List ℕ)
unfolding hex_decode
hex_decode_exact text bytes =
    if ltb (u64_max / 2) bytes || not (length text == bytes * 2)
    then throw unexpected_length
    else hex_decode text

-- "0123456789abcdef"
abbrev pub digits : List ℕ
digits = 48 ∷ 49 ∷ 50 ∷ 51 ∷ 52 ∷ 53 ∷ 54 ∷ 55 ∷ 56 ∷ 57 ∷ 97 ∷ 98 ∷ 99 ∷ 100 ∷ 101 ∷ 102 ∷ []

unfoldable pub hex_encode : List ℕ → List ℕ
hex_encode [] = []
hex_encode (b ∷ bytes) =
    get_or digits (b / 2 ^ 4) 0 ∷ get_or digits (bit_and b 0x0f) 0 ∷ hex_encode bytes
