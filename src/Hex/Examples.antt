-- ===== src/Hex/Examples.antt =====
-- Hexadecimal text of concrete sample.
use monero_solo_stratum.Common.{ℕ, ◌≡◌, refl, List, [], ◌∷◌, arith}
use monero_solo_stratum.Common.Outcome.{ok}
use monero_solo_stratum.Hex.{hex_decode, hex_decode_exact, hex_encode}
use monero_solo_stratum.Hex.RoundTrip.{hex_decode-hex_encode}

abbrev sample : List ℕ
sample = 0 ∷ 171 ∷ 255 ∷ []

hex_decode-hex_encode_example :
    (hex_decode (hex_encode sample) ≡ ok sample)
    × (hex_decode_exact (hex_encode sample) 3 ≡ ok sample)
hex_decode-hex_encode_example = hex_decode-hex_encode sample (ground arith) (omega arith)

-- The text "aBff"
abbrev text : List ℕ
text = 97 ∷ 66 ∷ 102 ∷ 102 ∷ []

text_decoded : hex_decode text ≡ ok (171 ∷ 255 ∷ [])
unfolding hex_decode
text_decoded = refl
