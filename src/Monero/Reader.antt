-- ===== src/Monero/Reader.antt =====
-- src/monero/monero.cpp, class `Reader` and `encode_varint`. Bytes are numbers below 256. The span
-- and the position in it are kept as the bytes not yet read and the number of bytes read.
use Prim.Native.Nat.{bit_and, bit_or}
use monero_solo_stratum.Common.{
  ℕ, zero, suc, ◌+◌, ◌-◌, ◌*◌, ◌/◌, ◌%◌, ◌^◌, Bool, true, false, ◌&&◌, List, [], ◌∷◌, ltb, ◌==◌,
  not, if◌then◌else◌, length, take, drop,
}
use monero_solo_stratum.Common.Outcome.{Outcome, ok, throw, ◌>>=◌}
use monero_solo_stratum.Common.Word.{u8_mod, u64_mod}

-- The texts of `MoneroParseError`, a constructor for each.
pub data MoneroParseError : Type 0 where
  truncated_blob varint_overflows noncanonical_varint unterminated_varint : MoneroParseError
  container_count unsupported_input unsupported_output unsupported_version : MoneroParseError
  invalid_input_count not_one_generation_input invalid_output_count : MoneroParseError
  truncated_signatures non_null_ringct empty_tree unsupported_block_version : MoneroParseError
  trailing_bytes invalid_header_range exception_collision not_exact_extra_nonce : MoneroParseError
  nonce_outside : MoneroParseError

pub record Reader : Type 0 where
  pub unread : List ℕ
  pub position : ℕ

abbrev pub Parser : Type 0 → Type 0
Parser A = Reader → Outcome MoneroParseError (A × Reader)

abbrev pub open_reader : List ℕ → Reader
open_reader bytes = record { unread = bytes; position = 0 }

abbrev pub remaining : Reader → ℕ
remaining r = length r.unread

abbrev pub is_eof : Reader → Bool
is_eof r = length r.unread == 0

-- `require(1); return data_[position_++];`
unfoldable pub byte : Parser ℕ
byte r = elim r.unread [
  | [] ↦ throw truncated_blob
  | b ∷ rest ↦ ok (b, record { unread = rest; position = r.position + 1 })
]

unfoldable pub bytes : ℕ → Parser (List ℕ)
bytes count r =
    if ltb (remaining r) count
    then throw truncated_blob
    else ok (
      take count r.unread,
      record { unread = drop count r.unread; position = r.position + count },
    )

unfoldable pub skip : ℕ → Parser (Unit {0})
unfolding bytes
skip count r = do (_, r') ← bytes count r; ok (tt, r')

-- The `do ... while (value != 0)` loop; the fuel is above the value, which shrinks.
unfoldable pub encode_rounds : ℕ → ℕ → List ℕ
encode_rounds zero value = []
encode_rounds (suc fuel) value = elim (value / 2 ^ 7 == 0) [
  | true ↦ bit_and value 0x7f % u8_mod ∷ []
  | false ↦ bit_or (bit_and value 0x7f % u8_mod) 0x80 ∷ encode_rounds fuel (value / 2 ^ 7)
]

unfoldable pub encode_varint : ℕ → List ℕ
unfolding encode_rounds
encode_varint value = encode_rounds (suc value) value

-- The loop of `varint` with `rounds` of its ten rounds left; `shift` is seven times those done.
unfoldable pub varint_rounds : ℕ → ℕ → ℕ → ℕ → Parser ℕ
unfolding byte encode_varint
varint_rounds zero start value shift r = throw unterminated_varint
varint_rounds (suc rounds) start value shift r = do
  (current, r') ← byte r
  let value' = bit_or value (bit_and current 0x7f * 2 ^ shift % u64_mod)
  let more = varint_rounds rounds start value' (shift + 7) r'
  if rounds == 0 && ltb 1 current
      then throw varint_overflows
      else if bit_and current 0x80 == 0
      then (if not (length (encode_varint value') == r'.position - start)
          then throw noncanonical_varint
          else ok (value', r'))
      else more

unfoldable pub varint : Parser ℕ
unfolding varint_rounds
varint r = varint_rounds 10 r.position 0 0 r

unfoldable pub count : ℕ → Parser ℕ
count element_minimum r = do
  (count_value, r') ← varint r
  if ltb (remaining r' / element_minimum) count_value
      then throw container_count
      else ok (count_value, r')
