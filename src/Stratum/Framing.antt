-- ===== src/Stratum/Framing.antt =====
-- src/stratum/stratum.cpp: the lines of a miner, over two reads of its bytes.
use monero_solo_stratum.Common.{
  either, ℕ, zero, suc, ◌≤◌, ◌<◌, ◌≡◌, refl, sym, ◌∙◌, ap, subst, Bool, true, false, not, ◌&&◌,
  ◌||◌, Option, none, some, List, [], ◌∷◌, ◌++◌, ltb, ◌==◌, if◌then◌else◌, length, length-append,
  arith,
}
use monero_solo_stratum.Stratum.Config.{StratumServerConfig}
use monero_solo_stratum.Stratum.Submits.{Responses, Server}
use monero_solo_stratum.Stratum.Json.{Json}
use monero_solo_stratum.Stratum.Submission.{StratumSubmission, Callbacks}
use monero_solo_stratum.Stratum.Requests.{process_line}
use monero_solo_stratum.Stratum.Reading.{
  split_line, strip_return, Reading, has_no_line, oversized, after_line, line_rounds, take_lines,
}

-- Where a line ends, and what is shorter then.
pub data Splits (input : List ℕ) : Option (List ℕ × List ℕ) → Type 0 where
  no_line : Splits input none
  a_line : (line rest : List ℕ) → length rest < length input → Splits input (some (line, rest))

pub split_line-Splits : (input : List ℕ) → Splits input (split_line input)
unfolding split_line
split_line-Splits [] = no_line
split_line-Splits (byte ∷ bytes) =
    either (Splits (byte ∷ bytes)) (byte == b'\n') _ _ (a_line [] bytes (omega arith))
      (go (split_line bytes) (split_line-Splits bytes))
  where
    go :
        (o : Option (List ℕ × List ℕ))
        → Splits bytes o
        → Splits
            (byte ∷ bytes)
            (elim o [ none ↦ none | some (line, rest) ↦ some (byte ∷ line, rest) ])
    go none h = no_line
    go (some (line, rest)) (a_line _ _ lt) = a_line (byte ∷ line) rest (omega arith)

abbrev pub with_byte : ℕ → Option (List ℕ × List ℕ) → Option (List ℕ × List ℕ)
with_byte byte o = elim o [ none ↦ none | some (line, rest) ↦ some (byte ∷ line, rest) ]

abbrev grown : List ℕ → Option (List ℕ × List ℕ) → Option (List ℕ × List ℕ)
grown ys none = none
grown ys (some (line, rest)) = some (line, rest ++ ys)

-- What follows a line's end changes nothing before it.
split_line-append :
    (xs ys : List ℕ)
    → has_no_line (split_line xs) ≡ false
    → split_line (xs ++ ys) ≡ grown ys (split_line xs)
unfolding split_line
split_line-append [] ys h = absurd (ground arith)
split_line-append (byte ∷ bytes) ys h =
    go (byte == b'\n') (split_line bytes) (split_line (bytes ++ ys)) (split_line-append bytes ys) h
  where
    go :
        (b : Bool) (o p : Option (List ℕ × List ℕ))
        → (has_no_line o ≡ false → p ≡ grown ys o)
        → has_no_line (if b then some ([], bytes) else with_byte byte o) ≡ false
        → (if b then some ([], bytes ++ ys) else with_byte byte p)
          ≡ grown ys (if b then some ([], bytes) else with_byte byte o)
    go true o p ih e = refl
    go false none p ih e = absurd (ground arith)
    go false (some (line, rest)) p ih e = ap (with_byte byte) (ih refl)

module _ (t : Responses) (config : StratumServerConfig) (J : Type 0) ⦃json : Json J⦄
    (callbacks : Callbacks) (now index : ℕ) where
  rounds : ℕ → List ℕ → Server StratumSubmission → Reading
  rounds n = line_rounds t config J callbacks now index n

  line :
      (List ℕ → Server StratumSubmission → Reading)
      → List ℕ
      → Server StratumSubmission
      → Option (List ℕ × List ℕ)
      → Reading
  line next = after_line t config J callbacks now index next

  -- What follows a line is all that the rounds after it decide.
  after_line-same :
      (f g : List ℕ → Server StratumSubmission → Reading) (input : List ℕ)
      (s : Server StratumSubmission) (o : Option (List ℕ × List ℕ))
      → Splits input o
      → ((rest : List ℕ) (after : Server StratumSubmission)
          → length rest < length input
          → f rest after ≡ g rest after)
      → line f input s o ≡ line g input s o
  unfolding line after_line
  after_line-same f g input s none h same = refl
  after_line-same f g input s (some (text, rest)) (a_line _ _ lt) same =
      let after = process_line t config J callbacks now index (strip_return text) s in
      ap
        (λ (r : Reading).
          if ltb config.max_line_bytes (length text)
          then record {
            input = input;
            server = oversized t config J callbacks now index s;
            stopped = true;
          }
          else if (after.connections index).closing || s.running && not after.running
          then record { input = rest; server = after; stopped = true }
          else r)
        (same rest after lt)

  -- More rounds than the input has bytes change nothing.
  enough_rounds :
      (n m : ℕ) (input : List ℕ) (s : Server StratumSubmission)
      → length input ≤ n
      → length input ≤ m
      → rounds n input s ≡ rounds m input s
  unfolding line_rounds rounds line after_line split_line
  enough_rounds zero zero input s h k = refl
  enough_rounds zero (suc m) [] s h k = refl
  enough_rounds zero (suc m) (x ∷ xs) s h k = absurd (omega arith)
  enough_rounds (suc n) zero [] s h k = refl
  enough_rounds (suc n) zero (x ∷ xs) s h k = absurd (omega arith)
  enough_rounds (suc n) (suc m) input s h k =
      after_line-same (λ rest after. rounds n rest after) (λ rest after. rounds m rest after) input
        s (split_line input) (split_line-Splits input)
        (λ rest after lt.
          enough_rounds n m rest after (omega (arith, h, lt)) (omega (arith, k, lt)))

  -- The bytes of one read, then those of the next, hand on the lines that one read of both would: after
  -- the first the server is closing and as it would be, or the second goes on where the first ended.
  pub data Continues (ys : List ℕ) (first both : Reading) : Type 0 where
    goes_on :
        first.stopped ≡ false
        → both ≡ take_lines t config J callbacks now index (first.input ++ ys) first.server
        → Continues ys first both
    stops :
        first.stopped ≡ true
        → both.stopped ≡ true
        → both.server ≡ first.server
        → Continues ys first both

  branches :
      (ys : List ℕ) (a b : Bool)
      (first both first_over both_over first_closed both_closed : Reading)
      → Continues ys first both
      → (first_over.stopped ≡ true)
        × (both_over.stopped ≡ true)
        × (both_over.server ≡ first_over.server)
      → (first_closed.stopped ≡ true)
        × (both_closed.stopped ≡ true)
        × (both_closed.server ≡ first_closed.server)
      → Continues ys
          (if a then first_over else if b then first_closed else first)
          (if a then both_over else if b then both_closed else both)
  branches ys true b first both fo bo fc bc h o c = stops o.0 o.1 o.2
  branches ys false true first both fo bo fc bc h o c = stops c.0 c.1 c.2
  branches ys false false first both fo bo fc bc h o c = h

  -- The whole input, from its first line.
  whole :
      (xs ys text rest : List ℕ) (s : Server StratumSubmission)
      → split_line xs ≡ some (text, rest)
      → take_lines t config J callbacks now index (xs ++ ys) s
        ≡ line
            (λ r after. rounds (length (xs ++ ys)) r after)
            (xs ++ ys)
            s
            (some (text, rest ++ ys))
  unfolding line_rounds rounds take_lines line
  whole xs ys text rest s e =
      enough_rounds (length (xs ++ ys)) (suc (length (xs ++ ys))) (xs ++ ys) s (omega arith)
        (omega arith)
      ∙ ap (line (λ r after. rounds (length (xs ++ ys)) r after) (xs ++ ys) s)
          (split_line-append xs ys (ap has_no_line e) ∙ ap (grown ys) e)

  rounds-append :
      (n : ℕ) (xs ys : List ℕ) (s : Server StratumSubmission)
      → length xs ≤ n
      → Continues ys (rounds n xs s) (take_lines t config J callbacks now index (xs ++ ys) s)
  unfolding line_rounds rounds take_lines line after_line
  rounds-append zero xs ys s h = goes_on refl refl
  rounds-append (suc n) xs ys s h =
      go (split_line xs) refl (split_line-Splits xs)
        (λ rest after k. rounds-append n rest ys after k)
    where
      go :
          (o : Option (List ℕ × List ℕ))
          → split_line xs ≡ o
          → Splits xs o
          → ((rest : List ℕ) (after : Server StratumSubmission)
              → length rest ≤ n
              → Continues ys
                  (rounds n rest after)
                  (take_lines t config J callbacks now index (rest ++ ys) after))
          → Continues ys
              (line (λ r after. rounds n r after) xs s o)
              (take_lines t config J callbacks now index (xs ++ ys) s)
      go none e p ih = goes_on refl refl
      go (some (text, rest)) e (a_line _ _ lt) ih =
          let after = process_line t config J callbacks now index (strip_return text) s in
          subst (Continues ys (line (λ r after. rounds n r after) xs s (some (text, rest))))
            (sym (whole xs ys text rest s e))
            (branches ys (ltb config.max_line_bytes (length text))
              ((after.connections index).closing || s.running && not after.running) _ _ _ _ _ _
              (subst (Continues ys (rounds n rest after))
                (enough_rounds (length (rest ++ ys)) (length (xs ++ ys)) (rest ++ ys) after
                  (omega arith) (omega (arith, length-append rest ys, length-append xs ys)))
                (ih rest after (omega arith)))
              (refl, refl, refl) (refl, refl, refl))

  -- Taking the lines of some bytes either leaves the rest of the last line, from which, with the bytes
  -- that follow, it comes to what taking the lines of all the bytes at once does; or it stops, and then
  -- all the bytes at once stop too and leave the same server.
  pub take_lines-Continues :
      (xs ys : List ℕ) (s : Server StratumSubmission)
      → Continues ys
          (take_lines t config J callbacks now index xs s)
          (take_lines t config J callbacks now index (xs ++ ys) s)
  unfolding take_lines rounds
  take_lines-Continues xs ys s = rounds-append (length xs) xs ys s (omega arith)
