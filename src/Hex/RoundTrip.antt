-- ===== src/Hex/RoundTrip.antt =====
-- src/crypto/util.cpp: encoding and decoding are inverse, up to the case of the letters.
use Prim.Native.Nat.{bit_and, bit_or}
use monero_solo_stratum.Common.{
  ℕ, ◌+◌, ◌*◌, ◌/◌, ◌%◌, ◌^◌, ◌≡◌, ◌<◌, ◌≤◌, refl, sym, ◌∙◌, ap, subst, Bool, true, not, ◌&&◌, ◌||◌,
  List, [], ◌∷◌, leb, ltb, ◌==◌, if◌then◌else◌, length, get_or, All, arith, ==_iff, inl, inr,
  Bool-cases,
}
use monero_solo_stratum.Common.Outcome.{Outcome, ok, throw}
use monero_solo_stratum.Common.Word.{u8_mod, u64_max}
use monero_solo_stratum.Common.Bits.{every_below, every_below_sound, bit_and-mask}
use monero_solo_stratum.Monero.VarintCanonical.{IsByte}
use monero_solo_stratum.Hex.{
  HexError, is_hex_char, hex_value, decode_pairs, hex_decode, hex_decode_exact, digits, hex_encode,
  not_hexadecimal, odd_length,
}

throw_not_ok : (x : HexError) (a : List ℕ) → Path (Outcome HexError (List ℕ)) (throw x) (ok a) → ⊥
throw_not_ok x a e = ground arith

ok_injective : (a b : List ℕ) → Path (Outcome HexError (List ℕ)) (ok a) (ok b) → a ≡ b
ok_injective a b e = ground arith

-- Both characters of a byte, read back.
abbrev reads_back : ℕ → Bool
reads_back b =
    let high = get_or digits (b / 2 ^ 4) 0 in
    let low = get_or digits (bit_and b 0x0f) 0 in
    is_hex_char high
    && is_hex_char low
    && bit_or (hex_value high * 2 ^ 4) (hex_value low) % u8_mod == b

byte_table : every_below 256 (λ b. reads_back b) ≡ true
unfolding every_below is_hex_char hex_value
byte_table = refl

byte_reads_back : (b : ℕ) → IsByte b → reads_back b ≡ true
byte_reads_back b h = every_below_sound 256 (λ c. reads_back c) b byte_table h

decode_pair :
    (high low b : ℕ) (text rest : List ℕ)
    → is_hex_char high ≡ true
    → is_hex_char low ≡ true
    → bit_or (hex_value high * 2 ^ 4) (hex_value low) % u8_mod ≡ b
    → decode_pairs text ≡ ok rest
    → decode_pairs (high ∷ low ∷ text) ≡ ok (b ∷ rest)
unfolding decode_pairs
decode_pair high low b text rest h l e d = rw (h, l, d, e, decode_pairs) refl

and_parts3 : (a b : Bool) (c d : ℕ) → (a && b && c == d) ≡ true → (a ≡ true) × (b ≡ true) × (c ≡ d)
and_parts3 a b c d e = ground arith

decode_pairs-hex_encode :
    (bytes : List ℕ) → All IsByte bytes → decode_pairs (hex_encode bytes) ≡ ok bytes
unfolding decode_pairs hex_encode
decode_pairs-hex_encode [] h = refl
decode_pairs-hex_encode (b ∷ bytes) h =
    let up = get_or digits (b / 2 ^ 4) 0 in
    let down = get_or digits (bit_and b 0x0f) 0 in
    let (high, low, same) = and_parts3 _ _ _ _ (byte_reads_back b h.0) in
    decode_pair up down b (hex_encode bytes) bytes high low same (decode_pairs-hex_encode bytes h.1)

length-hex_encode : (bytes : List ℕ) → length (hex_encode bytes) ≡ 2 * length bytes
unfolding hex_encode
length-hex_encode [] = omega arith
length-hex_encode (b ∷ bytes) = omega (arith, length-hex_encode bytes)

-- Bytes below 256, at most half of 2^64 - 1 of them, are decoded from their encoding, also where
-- their number is demanded.
pub hex_decode-hex_encode :
    (bytes : List ℕ)
    → All IsByte bytes
    → length bytes ≤ u64_max / 2
    → (hex_decode (hex_encode bytes) ≡ ok bytes)
      × (hex_decode_exact (hex_encode bytes) (length bytes) ≡ ok bytes)
unfolding hex_decode hex_decode_exact
hex_decode-hex_encode bytes h few =
    ground (arith, length-hex_encode bytes, decode_pairs-hex_encode bytes h)

-- Letters in lower case.
abbrev pub lower : ℕ → ℕ
lower ch = if leb 65 ch && leb ch 70 then ch + 32 else ch

abbrev pub lowered : List ℕ → List ℕ
lowered [] = []
lowered (ch ∷ text) = lower ch ∷ lowered text

abbrev is_read : ℕ → Bool
is_read ch =
    not (is_hex_char ch) || ltb (hex_value ch) 16 && get_or digits (hex_value ch) 0 == lower ch

char_table : every_below 103 (λ ch. is_read ch) ≡ true
unfolding every_below is_hex_char hex_value
char_table = refl

hex_char_small : (ch : ℕ) → is_hex_char ch ≡ true → ch < 103
unfolding is_hex_char
hex_char_small ch h = ground arith

char_read :
    (ch : ℕ)
    → is_hex_char ch ≡ true
    → (hex_value ch < 16) × (get_or digits (hex_value ch) 0 ≡ lower ch)
char_read ch h =
    let e = every_below_sound 103 (λ c. is_read c) ch char_table (hex_char_small ch h) in
    let parts : (ltb (hex_value ch) 16 && get_or digits (hex_value ch) 0 == lower ch) ≡ true =
      or_right (is_hex_char ch) _ h e in
    and_parts (hex_value ch) 16 (get_or digits (hex_value ch) 0) (lower ch) parts
  where
    or_right : (a b : Bool) → a ≡ true → (not a || b) ≡ true → b ≡ true
    or_right a b h e = ground arith

    and_parts : (a b c d : ℕ) → (ltb a b && c == d) ≡ true → (a < b) × (c ≡ d)
    and_parts a b c d e = ground arith

nibble_table : every_below 256 (λ b. bit_or (b / 16 * 2 ^ 4) (b % 16) % u8_mod == b) ≡ true
unfolding every_below
nibble_table = refl

nibbles :
    (high low : ℕ) → high < 16 → low < 16 → bit_or (high * 2 ^ 4) low % u8_mod ≡ high * 16 + low
nibbles high low h l =
    let b = high * 16 + low in
    let e =
      (==_iff (bit_or (b / 16 * 2 ^ 4) (b % 16) % u8_mod) b).0
        (every_below_sound 256 _ b nibble_table (omega arith)) in
    let up : b / 16 ≡ high = omega arith in
    let down : b % 16 ≡ low = omega arith in
    ap (λ (x : ℕ). bit_or (x * 2 ^ 4) low % u8_mod) (sym up)
    ∙ ap (λ (x : ℕ). bit_or (b / 16 * 2 ^ 4) x % u8_mod) (sym down)
    ∙ e

-- The text of a pair of characters that was read.
pair_text :
    (high low : ℕ)
    → is_hex_char high ≡ true
    → is_hex_char low ≡ true
    → let b = bit_or (hex_value high * 2 ^ 4) (hex_value low) % u8_mod in
      (b < 256)
      × (get_or digits (b / 2 ^ 4) 0 ≡ lower high)
      × (get_or digits (bit_and b 0x0f) 0 ≡ lower low)
pair_text high low h l =
    let (hs, ht) = char_read high h in
    let (ls, lt) = char_read low l in
    let b = bit_or (hex_value high * 2 ^ 4) (hex_value low) % u8_mod in
    let whole : b ≡ hex_value high * 16 + hex_value low =
      nibbles (hex_value high) (hex_value low) hs ls in
    let up : b / 2 ^ 4 ≡ hex_value high = omega (arith, whole, hs, ls) in
    let down : bit_and b 0x0f ≡ hex_value low = omega (arith, bit_and-mask 4 b, whole, hs, ls) in
    (
      omega (arith, whole, hs, ls),
      ap (λ (x : ℕ). get_or digits x 0) up ∙ ht,
      ap (λ (x : ℕ). get_or digits x 0) down ∙ lt,
    )

abbrev Decoded : List ℕ → List ℕ → Type 0
Decoded text out = All IsByte out × (hex_encode out ≡ lowered text)

both_hex :
    (high low : ℕ) (text out : List ℕ)
    → decode_pairs (high ∷ low ∷ text) ≡ ok out
    → (is_hex_char high ≡ true) × (is_hex_char low ≡ true)
unfolding decode_pairs
both_hex high low text out e = elim (Bool-cases (not (is_hex_char high) || not (is_hex_char low))) [
  | inr y ↦ (ground arith, ground arith)
  | inl y ↦
      let bad : decode_pairs (high ∷ low ∷ text) ≡ throw not_hexadecimal =
        rw (y, decode_pairs) refl in
      absurd (throw_not_ok not_hexadecimal out (sym bad ∙ e))
]

decode_pairs-Decoded :
    (text out : List ℕ) → length text % 2 ≡ 0 → decode_pairs text ≡ ok out → Decoded text out
unfolding hex_encode decode_pairs
decode_pairs-Decoded [] out even e = rw (sym (ok_injective [] out e)) (tt, refl)
decode_pairs-Decoded (high ∷ []) out even e = absurd (omega (arith, even))
decode_pairs-Decoded (high ∷ low ∷ text) out even e =
    rest (λ r d. decode_pairs-Decoded text r (omega (arith, even)) d) (decode_pairs text) refl
  where
    rest :
        ((r : List ℕ) → decode_pairs text ≡ ok r → Decoded text r)
        → (o : Outcome HexError (List ℕ)) → decode_pairs text ≡ o
        → Decoded (high ∷ low ∷ text) out
    rest below (throw x) d =
        let (h, l) = both_hex high low text out e in
        let bad : decode_pairs (high ∷ low ∷ text) ≡ throw x = rw (h, l, d, decode_pairs) refl in
        absurd (throw_not_ok x out (sym bad ∙ e))
    rest below (ok r) d =
        let (h, l) = both_hex high low text out e in
        let b = bit_or (hex_value high * 2 ^ 4) (hex_value low) % u8_mod in
        let same = ok_injective (b ∷ r) out (sym (decode_pair high low b text r h l refl d) ∙ e) in
        let (byte, up, down) = pair_text high low h l in
        let (bytes, back) = below r d in
        subst (Decoded (high ∷ low ∷ text)) same ((byte, bytes), rw (up, down, back) refl)

-- Whatever `hex_decode` accepts, it decodes to bytes below 256 whose encoding is the text with its
-- letters in lower case.
pub hex_encode-hex_decode :
    (text out : List ℕ)
    → hex_decode text ≡ ok out
    → All IsByte out × (hex_encode out ≡ lowered text)
unfolding hex_decode
hex_encode-hex_decode text out e = elim (Bool-cases (length text % 2 == 0)) [
  | inl y ↦
      let runs : hex_decode text ≡ decode_pairs text = rw (y, hex_decode) refl in
      decode_pairs-Decoded text out ((==_iff (length text % 2) 0).0 y) (sym runs ∙ e)
  | inr y ↦
      let bad : hex_decode text ≡ throw odd_length = rw (y, hex_decode) refl in
      absurd (throw_not_ok odd_length out (sym bad ∙ e))
]
