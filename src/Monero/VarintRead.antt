-- ===== src/Monero/VarintRead.antt =====
-- `Reader::varint` reads back what `encode_varint` writes, and nothing else.
use Prim.Native.Nat.{bit_and, bit_or}
use monero_solo_stratum.Common.{
  ap, ◌∙◌, ℕ, zero, suc, ◌+◌, ◌-◌, ◌*◌, ◌/◌, ◌%◌, ◌^◌, ◌≤◌, ◌<◌, ◌≡◌, refl, false, ◌&&◌, List, [],
  ◌∷◌, ◌++◌, ltb, ◌==◌, not, if◌then◌else◌, length, arith, inl, inr, Bool-cases, ◌⊎◌, ltb→lt, ◌≢◌,
}
use monero_solo_stratum.Common.Outcome.{Outcome, ok, throw}
use monero_solo_stratum.Common.Word.{u64_mod}
use monero_solo_stratum.Common.Bits.{bit_or-shifted, bit_and-top}
use monero_solo_stratum.Monero.Reader.{
  MoneroParseError, varint_overflows, noncanonical_varint, Reader, encode_varint, varint_rounds,
  varint, byte,
}
use monero_solo_stratum.Monero.Varint.{
  encode_varint_lem, length-encode_varint, low_group, power_zero, power_seven, power_split,
}

-- The body of the loop, in arithmetic.
abbrev pub round_body :
    ℕ
    → ℕ
    → ℕ
    → ℕ
    → Reader
    → Outcome MoneroParseError (ℕ × Reader)
    → Outcome MoneroParseError (ℕ × Reader)
round_body k start c total r more =
    if k == 0 && ltb 1 c
    then throw varint_overflows
    else if ltb c 128
    then (if not (length (encode_varint total) == r.position - start)
        then throw noncanonical_varint
        else ok (total, r))
    else more

pub byte_read :
    (r : Reader) (c : ℕ) (rest : List ℕ)
    → r.unread ≡ c ∷ rest
    → byte r ≡ ok (c, record { unread = rest; position = r.position + 1 })
unfolding byte
byte_read r c rest e = ground arith

module _ (k start value s c : ℕ) (r : Reader) (rest : List ℕ) (h : value < 2 ^ s) (byte_c : c < 256)
    (fits : c % 128 * 2 ^ s < u64_mod) where
  or_group : bit_or value (bit_and c 0x7f * 2 ^ s % u64_mod) ≡ value + c % 128 * 2 ^ s
  or_group = ground (arith, low_group c, bit_or-shifted s value (c % 128) h)

  pub varint_rounds-step :
      r.unread ≡ c ∷ rest
      → let r' : Reader = record { unread = rest; position = r.position + 1 } in
        let total = value + c % 128 * 2 ^ s in
        varint_rounds (suc k) start value s r
        ≡ round_body k start c total r' (varint_rounds k start total (s + 7) r')
  unfolding varint_rounds
  varint_rounds-step e =
      rw (byte_read r c rest e) (rw or_group (ground (arith, bit_and-top c byte_c)))

-- The sum of the groups read so far and of those to come.
pub total_split :
    (value s u : ℕ) → value + u * 2 ^ s ≡ value + u % 128 * 2 ^ s + u / 128 * 2 ^ (s + 7)
total_split value s u =
    let z : (2 ^ (s + 7) ≡ 128 * 2 ^ s) × (u / 128 * 2 ^ (s + 7) ≡ 128 * (u / 128 * 2 ^ s)) =
      power_seven (s + 7) s (u / 128) refl in
    omega (arith, power_split u (2 ^ s))

pub below_next : (s value u : ℕ) → value < 2 ^ s → value + u % 128 * 2 ^ s < 2 ^ (s + 7)
below_next s value u h =
    let z : (2 ^ (s + 7) ≡ 128 * 2 ^ s) × (0 * 2 ^ (s + 7) ≡ 128 * (0 * 2 ^ s)) =
      power_seven (s + 7) s 0 refl in
    let m : u % 128 ≤ 127 = omega arith in
    let w : u % 128 * 2 ^ s ≤ 127 * 2 ^ s = grind arith in omega arith

pub last_bit : (s u : ℕ) → s ≡ 63 → u * 2 ^ s < u64_mod → u ≤ 1
last_bit s u e h = omega (arith, ap (λ (t : ℕ). u * 2 ^ t) e)

no_tenth : (s u : ℕ) → s ≡ 63 → u * 2 ^ s < u64_mod → u < 128
no_tenth s u e h = omega (arith, last_bit s u e h)

length_last :
    (i s low u : ℕ)
    → s ≡ 7 * i
    → low < 2 ^ s
    → (i ≡ 0) ⊎ (1 ≤ u)
    → u < 128
    → length (encode_varint (low + u * 2 ^ s)) ≡ i + 1
length_last i s low u e h (inr p) small =
    ground (arith, length-encode_varint i s low u e h p, encode_varint_lem u)
length_last i s low u e h (inl z) small =
    let q : (2 ^ s ≡ 1) × (u * 2 ^ s ≡ u) = power_zero s u (omega arith) in
    let n : low + u * 2 ^ s ≡ u = omega arith in
    ap (λ (t : ℕ). length (encode_varint t)) n ∙ ground (arith, encode_varint_lem u)

-- One round on the last group.
last_round :
    (k i start s value u : ℕ) (r : Reader) (rest : List ℕ)
    → k + i ≡ 9
    → s ≡ 7 * i
    → value < 2 ^ s
    → (i ≡ 0) ⊎ (1 ≤ u)
    → u < 128
    → value + u * 2 ^ s < u64_mod
    → r.unread ≡ u ∷ rest
    → r.position ≡ start + i
    → varint_rounds (suc k) start value s r
      ≡ ok (value + u * 2 ^ s, record { unread = rest; position = r.position + 1 })
last_round k i start s value u r rest e es h nz small fits eu ep =
    let m : u % 128 ≡ u = omega arith in
    let mp : u % 128 * 2 ^ s ≡ u * 2 ^ s = ap (λ (t : ℕ). t * 2 ^ s) m in
    let top : k ≡ 0 → u ≤ 1 = λ z. last_bit s u (omega arith) (omega arith) in
    ground (
      arith,
      top,
      length_last i s value u es h nz small,
      varint_rounds-step k start value s u r rest h (omega arith) (omega arith) eu,
    )

pub ten : (s i : ℕ) → 0 + i ≡ 10 → s ≡ 7 * i → s ≡ 70
ten s i e es = omega arith

pub not_ltb : (a b : ℕ) → ltb a b ≡ false → b ≤ a
not_ltb a b h = ground arith

-- One round on a group that another follows.
more_round :
    (k start s value u : ℕ) (r : Reader) (rest : List ℕ)
    → s ≡ 63 - 7 * k
    → k ≤ 9
    → value < 2 ^ s
    → 128 ≤ u
    → value + u * 2 ^ s < u64_mod
    → r.unread ≡ (u % 128 + 128) ∷ rest
    → let r' : Reader = record { unread = rest; position = r.position + 1 } in
      varint_rounds (suc k) start value s r
      ≡ varint_rounds k start (value + u % 128 * 2 ^ s) (s + 7) r'
more_round k start s value u r rest es hk h large fits eu =
    let m : (u % 128 + 128) % 128 ≡ u % 128 = omega arith in
    let mp : (u % 128 + 128) % 128 * 2 ^ s ≡ u % 128 * 2 ^ s = ap (λ (t : ℕ). t * 2 ^ s) m in
    let small : u % 128 * 2 ^ s < u64_mod = omega (arith, power_split u (2 ^ s)) in
    let more : k ≢ 0 = λ z. omega (arith, no_tenth s u (omega arith) (omega arith)) in
    ground (
      arith,
      more,
      varint_rounds-step k start value s (u % 128 + 128) r rest h (omega arith) (omega arith) eu,
    )

read_back :
    (k i start s value u : ℕ) (r : Reader) (rest : List ℕ)
    → k + i ≡ 10
    → s ≡ 7 * i
    → value < 2 ^ s
    → (i ≡ 0) ⊎ (1 ≤ u)
    → value + u * 2 ^ s < u64_mod
    → r.unread ≡ encode_varint u ++ rest
    → r.position ≡ start + i
    → varint_rounds k start value s r
      ≡ ok (
        value + u * 2 ^ s,
        record { unread = rest; position = r.position + length (encode_varint u) },
      )
read_back zero i start s value u r rest e es h nz fits eu ep =
    absurd (omega (arith, ap (λ (t : ℕ). u * 2 ^ t) (ten s i e es)))
read_back (suc k) i start s value u r rest e es h nz fits eu ep = elim (Bool-cases (ltb u 128)) [
  | inl small ↦
      let one : encode_varint u ≡ u ∷ [] = ground (arith, encode_varint_lem u) in
      rw one (
        last_round k i start s value u r rest (omega arith) es h nz (ltb→lt u 128 small) fits
          (ground (arith, one)) ep)
  | inr large ↦
      let big : 128 ≤ u = not_ltb u 128 large in
      let enc : encode_varint u ≡ (u % 128 + 128) ∷ encode_varint (u / 128) =
        ground (arith, encode_varint_lem u) in
      let r' : Reader = record {
        unread = encode_varint (u / 128) ++ rest;
        position = r.position + 1;
      } in
      let next : value + u % 128 * 2 ^ s < 2 ^ (s + 7) = below_next s value u h in
      let split : value + u * 2 ^ s ≡ value + u % 128 * 2 ^ s + u / 128 * 2 ^ (s + 7) =
        total_split value s u in
      more_round k start s value u r (encode_varint (u / 128) ++ rest) (omega arith) (omega arith) h
        big fits (ground (arith, enc))
      ∙ read_back k (suc i) start (s + 7) (value + u % 128 * 2 ^ s) (u / 128) r' rest (omega arith)
          (omega arith) next (inr (omega arith)) (omega arith) refl (omega arith)
      ∙ ground (arith, split, enc)
]

-- Every unsigned 64-bit value is read back from its encoding, wherever it stands: the reader ends
-- behind the encoding, on the bytes that follow it.
pub varint-encode_varint :
    (v position : ℕ) (rest : List ℕ)
    → v < u64_mod
    → varint (record { unread = encode_varint v ++ rest; position = position })
      ≡ ok (v, record { unread = rest; position = position + length (encode_varint v) })
unfolding varint
varint-encode_varint v position rest h =
    read_back 10 0 position 0 0 v (record { unread = encode_varint v ++ rest; position = position })
      rest refl refl (omega arith) (inl refl) (omega arith) refl (omega arith)
    ∙ ground arith
