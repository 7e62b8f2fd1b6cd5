-- ===== src/Monero/VarintCanonical.antt =====
-- What `Reader::varint` accepts is the canonical encoding of what it returns.
use native.Mathlib.Nat.{pow-le-pow_right}
use monero_solo_stratum.Common.{
  ap, sym, ◌∙◌, ℕ, zero, suc, ◌+◌, ◌-◌, ◌*◌, ◌/◌, ◌%◌, ◌^◌, ◌≤◌, ◌<◌, ◌≡◌, refl, true, false, ◌&&◌,
  List, [], ◌∷◌, ◌++◌, ltb, ◌==◌, length, All, arith, inl, inr, Bool-cases, ◌⊎◌, ltb→lt, ◌≢◌,
}
use monero_solo_stratum.Common.Outcome.{Outcome, ok, throw}
use monero_solo_stratum.Common.Word.{u64_mod}
use monero_solo_stratum.Monero.Reader.{
  MoneroParseError, varint_overflows, Reader, encode_varint, varint_rounds, varint,
}
use monero_solo_stratum.Monero.Varint.{encode_varint_lem, power_seven}
use monero_solo_stratum.Monero.VarintRead.{
  round_body, byte_read, varint_rounds-step, below_next, total_split, not_ltb,
}

abbrev pub IsByte : ℕ → Type 0
IsByte b = b < 256

-- A value below 2^(7i) has at most i groups.
length-encode_varint_le : (i s v : ℕ) → s ≡ 7 * suc i → v < 2 ^ s → length (encode_varint v) ≤ suc i
length-encode_varint_le zero s v e h =
    let p : 2 ^ s ≡ 128 = ap (λ (t : ℕ). 2 ^ t) (seven s e) in ground (arith, encode_varint_lem v)
  where
    seven : (s : ℕ) → s ≡ 7 * 1 → s ≡ 7
    seven s e = omega arith
length-encode_varint_le (suc i) s v e h =
    let z : (2 ^ s ≡ 128 * 2 ^ (7 * suc i)) × (0 * 2 ^ s ≡ 128 * (0 * 2 ^ (7 * suc i))) =
      power_seven s (7 * suc i) 0 (omega arith) in
    ground (
      arith,
      encode_varint_lem v,
      length-encode_varint_le i (7 * suc i) (v / 128) refl (omega arith),
    )

-- What a run of the loop from group `i` has read: the groups of `u`, the top one not zero.
abbrev Reads : ℕ → ℕ → ℕ → Reader → ℕ → Reader → Type 0
Reads i s value r v r' =
    (u : ℕ) × (v ≡ value + u * 2 ^ s)
    × ((i ≡ 0) ⊎ (1 ≤ u))
    × (r.unread ≡ encode_varint u ++ r'.unread)
    × (r'.position ≡ r.position + length (encode_varint u))
    × (v < u64_mod)

overflow_round :
    (start value s c : ℕ) (r : Reader) (rest : List ℕ)
    → 1 < c
    → r.unread ≡ c ∷ rest
    → varint_rounds 1 start value s r ≡ throw varint_overflows
unfolding varint_rounds
overflow_round start value s c r rest h e = rw (byte_read r c rest e) (ground arith)

truncated_round :
    (k start value s : ℕ) (r : Reader) (v : ℕ) (r' : Reader)
    → r.unread ≡ []
    → varint_rounds (suc k) start value s r ≢ ok (v, r')
unfolding varint_rounds
truncated_round k start value s r v r' e h = ground arith

mul_mono : (a b c : ℕ) → b ≤ c → a * b ≤ a * c
mul_mono a b c h = grind arith

-- A group of the loop fits the word with those below it: the tenth is at most 1, and the others
-- lie below bit 63.
group_fits :
    (k s c value : ℕ)
    → s ≡ 63 - 7 * k
    → k ≤ 9
    → value < 2 ^ s
    → (k ≡ 0 → c ≤ 1)
    → value + c % 128 * 2 ^ s < u64_mod
group_fits zero s c value e h low top =
    omega (arith, ap (λ (t : ℕ). c % 128 * 2 ^ t) e, ap (λ (t : ℕ). 2 ^ t) e, top refl)
group_fits (suc k) s c value e h low top =
    let p : 2 ^ s ≤ 2 ^ 56 = pow-le-pow_right (omega arith) {j = 56} (omega arith) in
    omega (arith, mul_mono (c % 128) (2 ^ s) (2 ^ 56) p)

last_canonical :
    (i s value c : ℕ) (r r' : Reader)
    → s ≡ 7 * i
    → value < 2 ^ s
    → c < 128
    → c * 2 ^ s < u64_mod
    → value + c * 2 ^ s < u64_mod
    → length (encode_varint (value + c * 2 ^ s)) ≡ i + 1
    → r.unread ≡ c ∷ r'.unread
    → r'.position ≡ r.position + 1
    → Reads i s value r (value + c * 2 ^ s) r'
last_canonical i s value c r r' es h small fits bound len eu ep = (
  c,
  refl,
  top i s value c es h len,
  ground (arith, encode_varint_lem c),
  ground (arith, encode_varint_lem c),
  bound,
)
  where
    top :
        (i s value c : ℕ)
        → s ≡ 7 * i
        → value < 2 ^ s
        → length (encode_varint (value + c * 2 ^ s)) ≡ i + 1
        → (i ≡ 0) ⊎ (1 ≤ c)
    top i s value (suc c) es h len = inr (omega arith)
    top zero s value zero es h len = inl refl
    top (suc i) s value zero es h len =
        absurd (omega (arith, length-encode_varint_le i s (value + 0 * 2 ^ s) es (omega arith)))

more_canonical :
    (i s value c v : ℕ) (r r' q : Reader)
    → s ≡ 7 * i
    → 128 ≤ c
    → c < 256
    → r.unread ≡ c ∷ q.unread
    → q.position ≡ r.position + 1
    → Reads (suc i) (s + 7) (value + c % 128 * 2 ^ s) q v r'
    → Reads i s value r v r'
more_canonical i s value c v r r' q es high byte_c eu ep (u, ev, nz, tail, pos, bound) =
    let w : ℕ = c % 128 + u * 128 in
    let lo : w % 128 ≡ c % 128 = omega arith in
    let hi : w / 128 ≡ u = omega arith in
    let enc : encode_varint w ≡ c ∷ encode_varint u = ground (arith, encode_varint_lem w, lo, hi) in
    (
      w,
      ground (arith, ev, total_split value s w, lo, hi),
      inr (omega arith),
      ground (arith, enc, eu, tail),
      ground (arith, enc, ep, pos),
      bound,
    )

no_rounds :
    (start value s : ℕ) (r : Reader) (v : ℕ) (r' : Reader)
    → varint_rounds 0 start value s r ≢ ok (v, r')
unfolding varint_rounds
no_rounds start value s r v r' h = cc

varint_lem : (r : Reader) → varint r ≡ varint_rounds 10 r.position 0 0 r
unfolding varint
varint_lem r = refl

overflow_excluded :
    (k start s value c v : ℕ) (r r' : Reader) (rest : List ℕ)
    → (k == 0 && ltb 1 c) ≡ true
    → r.unread ≡ c ∷ rest
    → varint_rounds (suc k) start value s r ≢ ok (v, r')
overflow_excluded zero start s value c v r r' rest over eu run =
    ground (arith, overflow_round start value s c r rest (ltb→lt 1 c (ground arith)) eu)
overflow_excluded (suc k) start s value c v r r' rest over eu run = ground arith

not_over : (k c : ℕ) → (k == 0 && ltb 1 c) ≡ false → k ≡ 0 → c ≤ 1
not_over k c h z = ground arith

body_last :
    (k start c total v : ℕ) (q r' : Reader) (more : Outcome MoneroParseError (ℕ × Reader))
    → (k == 0 && ltb 1 c) ≡ false
    → ltb c 128 ≡ true
    → round_body k start c total q more ≡ ok (v, r')
    → (total ≡ v) × (q ≡ r') × (length (encode_varint total) ≡ q.position - start)
body_last k start c total v q r' more fine small run = ground arith

body_canonical :
    (k i start s value c v : ℕ) (r r' q : Reader)
    → s ≡ 7 * i
    → value < 2 ^ s
    → c < 256
    → value + c % 128 * 2 ^ s < u64_mod
    → r.unread ≡ c ∷ q.unread
    → q.position ≡ r.position + 1
    → r.position ≡ start + i
    → (k == 0 && ltb 1 c) ≡ false
    → round_body k start c
        (value + c % 128 * 2 ^ s)
        q
        (varint_rounds k start (value + c % 128 * 2 ^ s) (s + 7) q)
      ≡ ok (v, r')
    → (varint_rounds k start (value + c % 128 * 2 ^ s) (s + 7) q ≡ ok (v, r')
        → Reads (suc i) (s + 7) (value + c % 128 * 2 ^ s) q v r')
    → Reads i s value r v r'
unfolding last_canonical
body_canonical k i start s value c v r r' q es h byte_c sum eu ep epos fine run more =
    elim (Bool-cases (ltb c 128)) [
      | inl small ↦
          let m : c % 128 ≡ c = omega (arith, ltb→lt c 128 small) in
          let mp : c % 128 * 2 ^ s ≡ c * 2 ^ s = ap (λ (t : ℕ). t * 2 ^ s) m in
          let total : value + c % 128 * 2 ^ s ≡ value + c * 2 ^ s = omega arith in
          let facts : (value + c % 128 * 2 ^ s ≡ v)
              × (q ≡ r')
              × (length (encode_varint (value + c % 128 * 2 ^ s)) ≡ q.position - start) =
            body_last k start c (value + c % 128 * 2 ^ s) v q r' _ fine small run in
          let w : Reads i s value r (value + c * 2 ^ s) q =
            last_canonical i s value c r q es h (ltb→lt c 128 small) (omega arith) (omega arith)
              (ground (arith, facts, total)) eu ep in
          (
            c,
            omega (arith, facts.0),
            w.2,
            ground (arith, facts.1, w.3),
            ground (arith, facts.1, w.4),
            omega (arith, facts.0),
          )
      | inr large ↦
          more_canonical i s value c v r r' q es (not_ltb c 128 large) byte_c eu ep
            (more (ground arith))
    ]

canonical :
    (k i start s value v : ℕ) (r r' : Reader) (unread : List ℕ)
    → k + i ≡ 10
    → s ≡ 7 * i
    → value < 2 ^ s
    → r.unread ≡ unread
    → All IsByte unread
    → r.position ≡ start + i
    → varint_rounds k start value s r ≡ ok (v, r')
    → Reads i s value r v r'
canonical zero i start s value v r r' unread e es h eu bs ep run =
    absurd (no_rounds start value s r v r' run)
canonical (suc k) i start s value v r r' [] e es h eu bs ep run =
    absurd (truncated_round k start value s r v r' eu run)
canonical (suc k) i start s value v r r' (c ∷ rest) e es h eu bs ep run =
    let q : Reader = record { unread = rest; position = r.position + 1 } in
    elim (Bool-cases (k == 0 && ltb 1 c)) [
      | inl over ↦ absurd (overflow_excluded k start s value c v r r' rest over eu run)
      | inr fine ↦
          let sum : value + c % 128 * 2 ^ s < u64_mod =
            group_fits k s c value (omega arith) (omega arith) h (not_over k c fine) in
          body_canonical k i start s value c v r r' q es h bs.0 sum eu refl ep fine
            (sym (varint_rounds-step k start value s c r rest h bs.0 (omega arith) eu) ∙ run)
            (canonical k (suc i) start (s + 7) (value + c % 128 * 2 ^ s) v q r' rest (omega arith)
              (omega arith) (below_next s value c h) refl bs.1 (omega arith))
    ]

-- Whatever `varint` accepts, it returns the 64-bit value whose encoding it has read: no other
-- sequence of bytes is accepted for that value, and the reader ends right behind it.
pub varint_canonical :
    (v : ℕ) (r r' : Reader)
    → All IsByte r.unread
    → varint r ≡ ok (v, r')
    → (r.unread ≡ encode_varint v ++ r'.unread)
      × (r'.position ≡ r.position + length (encode_varint v))
      × (v < u64_mod)
varint_canonical v r r' bs run =
    let (u, ev, nz, tail, pos, bound) =
      canonical 10 0 r.position 0 0 v r r' r.unread refl refl (omega arith) refl bs (omega arith)
        (sym (varint_lem r) ∙ run) in
    let same : u ≡ v = omega arith in (ground (arith, tail, same), ground (arith, pos, same), bound)
