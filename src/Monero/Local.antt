-- ===== src/Monero/Local.antt =====
-- Parsers that look only at what they consume, and at how much follows.
use mathlib.Core.List.{append_assoc}
use monero_solo_stratum.Common.{
  ℕ, ◌+◌, ◌/◌, ◌≤◌, ◌≡◌, refl, ap, subst, Bool, true, false, List, [], ◌∷◌, ◌++◌, ltb,
  if◌then◌else◌, length, take, drop, All, arith, length-append, take-append-drop, length-take,
}
use monero_solo_stratum.Common.Outcome
use monero_solo_stratum.Common.Outcome.{Outcome, ok, throw}
use monero_solo_stratum.Monero.Reader.{
  MoneroParseError, Reader, Parser, byte, bytes, skip, varint, count, encode_varint,
}
use monero_solo_stratum.Monero.VarintRead.{varint-encode_varint}
use monero_solo_stratum.Monero.VarintCanonical.{IsByte, varint_canonical}
use monero_solo_stratum.Monero.Parse.{◌>>=◌, pure, fail, fail_if, get_position, get_remaining}

-- A successful run consumes some bytes, and gives the same value before any other bytes of the same
-- number.
abbrev pub Consumes : {A : Type 0} → Parser A → Reader → A → Reader → Type 0
Consumes p r a q =
    (used : List ℕ) × (r.unread ≡ used ++ q.unread)
    × (q.position ≡ r.position + length used)
    × ((rest : List ℕ)
        → length rest ≡ length q.unread
        → p (record { unread = used ++ rest; position = r.position })
          ≡ ok (a, record { unread = rest; position = q.position }))

pub record IsLocal {A : Type 0} (p : Parser A) : Type 0 where
  pub run : (r q : Reader) (a : A) → All IsByte r.unread → p r ≡ ok (a, q) → Consumes p r a q

All-right : (P : ℕ → Type 0) (xs ys : List ℕ) → All P (xs ++ ys) → All P ys
All-right P [] ys h = h
All-right P (x ∷ xs) ys h = All-right P xs ys h.1

pub All-unread :
    (xs : List ℕ) (r q : Reader)
    → r.unread ≡ xs ++ q.unread
    → All IsByte r.unread
    → All IsByte q.unread
All-unread xs r q e h = All-right IsByte xs q.unread (subst (All IsByte) e h)

-- A parser that reads nothing, and may look at the reader's length and position.
Consumes-nothing :
    {A : Type 0} (p : Parser A) (r : Reader) (a : A)
    → ((rest : List ℕ)
        → length rest ≡ length r.unread
        → p (record { unread = rest; position = r.position })
          ≡ ok (a, record { unread = rest; position = r.position }))
    → Consumes p r a r
Consumes-nothing p r a same = ([], refl, omega arith, same)

pub pure-IsLocal : {A : Type 0} (a : A) → IsLocal (pure a)
unfolding pure
pure-IsLocal a = record {
  run = λ r q b h e. ([], ground arith, ground arith, λ rest l. ground arith);
}

pub bind_ok :
    {A B : Type 0} (m : Outcome MoneroParseError (A × Reader))
    (f : A × Reader → Outcome MoneroParseError (B × Reader)) (b : B) (q : Reader)
    → Outcome.◌>>=◌ m f ≡ ok (b, q)
    → (a : A) × (r : Reader) × (m ≡ ok (a, r)) × (f (a, r) ≡ ok (b, q))
bind_ok (ok (a, r)) f b q h = (a, r, refl, h)
bind_ok (throw e) f b q h = absurd (ground arith)

Consumes-bind :
    {A B : Type 0} (p : Parser A) (f : A → Parser B) (r m q : Reader) (a : A) (b : B)
    → Consumes p r a m
    → Consumes (f a) m b q
    → Consumes (p >>= f) r b q
unfolding ◌>>=◌
Consumes-bind p f r m q a b (u, eu, pu, ru) (w, ew, pw, rw') = (
  u ++ w,
  ground (arith, eu, ew, append_assoc u w q.unread),
  ground (arith, pu, pw, length-append u w),
  λ rest l.
      let first : p (record { unread = u ++ (w ++ rest); position = r.position })
          ≡ ok (a, record { unread = w ++ rest; position = m.position }) =
        ru (w ++ rest) (ground (arith, ew, length-append w rest, length-append w q.unread, l)) in
      rw (append_assoc u w rest) (rw (first, ◌>>=◌) (rw' rest l)),
)

pub bind-IsLocal :
    {A B : Type 0} (p : Parser A) (f : A → Parser B)
    → IsLocal p
    → ((a : A) → IsLocal (f a))
    → IsLocal (p >>= f)
unfolding ◌>>=◌
bind-IsLocal p f lp lf = record {
  run = λ r q b h e.
      let (a, m, ep, ef) = bind_ok (p r) (λ (a, r'). f a r') b q e in
      let c : Consumes p r a m = lp.run r m a h ep in
      Consumes-bind p f r m q a b c ((lf a).run m q b (All-unread c.0 r m c.1 h) ef);
}

pub fail-IsLocal : {A : Type 0} (e : MoneroParseError) → IsLocal (fail {A = A} e)
unfolding fail
fail-IsLocal e = record { run = λ r q b h k. absurd (ground arith) }

pub fail_if-IsLocal : (b : Bool) (e : MoneroParseError) → IsLocal (fail_if b e)
unfolding fail_if
fail_if-IsLocal true e = fail-IsLocal e
fail_if-IsLocal false e = pure-IsLocal tt

pub get_position-IsLocal : IsLocal get_position
unfolding get_position
get_position-IsLocal = record {
  run = λ r q b h e. ([], ground arith, ground arith, λ rest l. ground arith);
}

pub get_remaining-IsLocal : IsLocal get_remaining
unfolding get_remaining
get_remaining-IsLocal = record {
  run = λ r q b h e. ([], ground arith, ground arith, λ rest l. ground arith);
}

byte-Consumes :
    (xs : List ℕ) (r q : Reader) (b : ℕ) → r.unread ≡ xs → byte r ≡ ok (b, q) → Consumes byte r b q
unfolding byte
byte-Consumes [] r q b h e = absurd (ground arith)
byte-Consumes (x ∷ xs) r q b h e = (x ∷ [], ground arith, ground arith, λ rest l. ground arith)

pub byte-IsLocal : IsLocal byte
byte-IsLocal = record { run = λ r q b h e. byte-Consumes r.unread r q b refl e }

pub take-append_left : (xs ys : List ℕ) → take (length xs) (xs ++ ys) ≡ xs
take-append_left [] ys = refl
take-append_left (x ∷ xs) ys = ap (λ (l : List ℕ). x ∷ l) (take-append_left xs ys)

pub drop-append_left : (xs ys : List ℕ) → drop (length xs) (xs ++ ys) ≡ ys
drop-append_left [] ys = refl
drop-append_left (x ∷ xs) ys = drop-append_left xs ys

-- `bytes n` before at least `n` bytes.
pub bytes_read :
    (n : ℕ) (xs ys : List ℕ) (position : ℕ)
    → length xs ≡ n
    → bytes n (record { unread = xs ++ ys; position = position })
      ≡ ok (xs, record { unread = ys; position = position + n })
unfolding bytes
bytes_read n xs ys position e =
    subst
      (λ m.
        bytes m (record { unread = xs ++ ys; position = position })
        ≡ ok (xs, record { unread = ys; position = position + m }))
      e (ground (arith, length-append xs ys, take-append_left xs ys, drop-append_left xs ys))

bytes_ok :
    (n : ℕ) (r q : Reader) (b : List ℕ)
    → bytes n r ≡ ok (b, q)
    → (n ≤ length r.unread)
      × (b ≡ take n r.unread)
      × (q.unread ≡ drop n r.unread)
      × (q.position ≡ r.position + n)
unfolding bytes
bytes_ok n r q b e = ground arith

pub bytes-Consumes :
    (n : ℕ) (r q : Reader) (b : List ℕ)
    → bytes n r ≡ ok (b, q)
    → (r.unread ≡ b ++ q.unread)
      × (length b ≡ n)
      × (q.position ≡ r.position + n)
      × ((rest : List ℕ)
          → bytes n (record { unread = b ++ rest; position = r.position })
            ≡ ok (b, record { unread = rest; position = q.position }))
bytes-Consumes n r q b e =
    let (fits, eb, eu, ep) = bytes_ok n r q b e in
    let len : length b ≡ n = omega (arith, ap length eb, length-take n r.unread) in
    (
      ground (arith, eb, eu, take-append-drop n r.unread),
      len,
      ep,
      λ rest. rw ep (bytes_read n b rest r.position len),
    )

pub bytes-IsLocal : (n : ℕ) → IsLocal (bytes n)
bytes-IsLocal n = record {
  run = λ r q b h e.
      let (eu, len, ep, again) = bytes-Consumes n r q b e in
      (b, eu, omega (arith, ep), λ rest l. again rest);
}

pub skip-bytes :
    (n : ℕ) (r q : Reader) (u : Unit {0})
    → skip n r ≡ ok (u, q)
    → (b : List ℕ) × (bytes n r ≡ ok (b, q))
unfolding skip
skip-bytes n r q u e = (take n r.unread, ground arith)

pub skip-IsLocal : (n : ℕ) → IsLocal (skip n)
unfolding skip
skip-IsLocal n = record {
  run = λ r q u h e.
      let (b, eb) = skip-bytes n r q u e in
      let (eu, len, ep, again) = bytes-Consumes n r q b eb in
      (b, eu, omega (arith, ep), λ rest l. ground (arith, again rest));
}

pub varint-IsLocal : IsLocal varint
varint-IsLocal = record {
  run = λ r q v h e.
      let (eu, ep, bound) = varint_canonical v r q h e in
      (encode_varint v, eu, ep, λ rest l. rw ep (varint-encode_varint v r.position rest bound));
}

count_ok :
    (n : ℕ) (r q : Reader) (v : ℕ)
    → count n r ≡ ok (v, q)
    → (varint r ≡ ok (v, q)) × (ltb (length q.unread / n) v ≡ false)
unfolding count
count_ok n r q v e = ground arith

count_again :
    (n : ℕ) (r q : Reader) (v : ℕ)
    → varint r ≡ ok (v, q)
    → ltb (length q.unread / n) v ≡ false
    → count n r ≡ ok (v, q)
unfolding count
count_again n r q v e fits = ground arith

pub count-IsLocal : (n : ℕ) → IsLocal (count n)
count-IsLocal n = record {
  run = λ r q v h e.
      let (ev, fits) = count_ok n r q v e in
      let (used, eu, ep, again) = varint-IsLocal.run r q v h ev in
      (used, eu, ep, λ rest l. count_again n _ _ v (again rest l) (rw l fits));
}

-- The cases of a test.
pub if-IsLocal :
    {A : Type 0} (b : Bool) (p q : Parser A) → IsLocal p → IsLocal q → IsLocal (if b then p else q)
if-IsLocal true p q lp lq = lp
if-IsLocal false p q lp lq = lq

pub ruleset local_rules = (
  pure-IsLocal, fail-IsLocal, fail_if-IsLocal, get_position-IsLocal, get_remaining-IsLocal,
  byte-IsLocal, bytes-IsLocal, skip-IsLocal, varint-IsLocal, count-IsLocal, bind-IsLocal,
  if-IsLocal,
)
