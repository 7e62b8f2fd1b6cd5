-- ===== src/Stratum/ReadBounds.antt =====
-- src/stratum/stratum.cpp: how many bytes of a line that is not complete a connection keeps.
use monero_solo_stratum.Common.{
  zero, suc, ℕ, ◌≤◌, ◌<◌, ◌≡◌, ◌⊎◌, inl, inr, refl, ap, Bool, true, false, not, ◌&&◌, ◌||◌, Option,
  none, some, List, [], ◌∷◌, ◌++◌, ltb, ◌==◌, if◌then◌else◌, length, arith,
}
use monero_solo_stratum.Stratum.Config.{StratumServerConfig}
use monero_solo_stratum.Stratum.Submits.{Responses, Server}
use monero_solo_stratum.Stratum.Json.{Json}
use monero_solo_stratum.Stratum.Submission.{StratumSubmission, Callbacks}
use monero_solo_stratum.Stratum.Requests.{process_line}
use monero_solo_stratum.Stratum.Reading.{
  strip_return, split_line, Reading, Received, received, recv_interrupted, recv_would_block,
  peer_closed, has_no_line, oversized, touched, after_line, line_rounds, take_lines, read_ready,
}
use monero_solo_stratum.Stratum.Framing.{with_byte, Splits, a_line, split_line-Splits}

-- What is left of an input when its lines are taken.
data Left (input : List ℕ) : List ℕ → Type 0 where
  all_left : has_no_line (split_line input) ≡ true → Left input input
  part_left :
      (line rest left : List ℕ)
      → split_line input ≡ some (line, rest)
      → length left ≤ length rest
      → has_no_line (split_line left) ≡ true
      → Left input left

abbrev rest_length : Option (List ℕ × List ℕ) → ℕ
rest_length none = 0
rest_length (some (line, rest)) = length rest

Left-IsShort :
    (input left : List ℕ)
    → Left input left
    → (has_no_line (split_line left) ≡ true) × (length left ≤ length input)
Left-IsShort input _ (all_left h) = (h, omega arith)
Left-IsShort input _ (part_left line rest left e short h) =
    go (split_line input) e (split_line-Splits input)
  where
    go :
        (o : Option (List ℕ × List ℕ))
        → o ≡ some (line, rest)
        → Splits input o
        → (has_no_line (split_line left) ≡ true) × (length left ≤ length input)
    go none e s = absurd (ground arith)
    go (some (l, r)) e (a_line _ _ lt) = (h, omega (arith, lt, short, ap rest_length e))

-- A first line that ends in what was appended.
split_line-appended :
    (xs ys line rest : List ℕ)
    → has_no_line (split_line xs) ≡ true
    → split_line (xs ++ ys) ≡ some (line, rest)
    → length rest < length ys
unfolding split_line
split_line-appended [] ys line rest h e = go (split_line ys) e (split_line-Splits ys)
  where
    go :
        (o : Option (List ℕ × List ℕ))
        → o ≡ some (line, rest)
        → Splits ys o
        → length rest < length ys
    go none q p = absurd (ground arith)
    go (some (l, r)) q (a_line _ _ lt) = omega (arith, lt, ap rest_length q)
split_line-appended (x ∷ xs) ys line rest h e =
    go (x == b'\n') (split_line xs) (split_line (xs ++ ys))
      (λ k l r q. split_line-appended xs ys l r k q) h e
  where
    go :
        (b : Bool) (o p : Option (List ℕ × List ℕ))
        → (has_no_line o ≡ true → (l r : List ℕ) → p ≡ some (l, r) → length r < length ys)
        → has_no_line (if b then some ([], xs) else with_byte x o) ≡ true
        → (if b then some ([], xs ++ ys) else with_byte x p) ≡ some (line, rest)
        → length rest < length ys
    go true o p ih k q = absurd (ground arith)
    go false (some (l, r)) p ih k q = absurd (ground arith)
    go false none none ih k q = absurd (ground arith)
    go false none (some (l, r)) ih k q = omega (arith, ih refl l r refl, ap rest_length q)

module _ (t : Responses) (config : StratumServerConfig) (J : Type 0) ⦃json : Json J⦄
    (callbacks : Callbacks) (now index : ℕ) where
  branches-Left :
      (input : List ℕ) (long shut : Bool) (over closed more : Reading)
      → over.stopped ≡ true
      → closed.stopped ≡ true
      → (more.stopped ≡ false → Left input more.input)
      → (if long then over else if shut then closed else more).stopped ≡ false
      → Left input (if long then over else if shut then closed else more).input
  branches-Left input true shut over closed more o c h e = absurd (ground arith)
  branches-Left input false true over closed more o c h e = absurd (ground arith)
  branches-Left input false false over closed more o c h e = h e

  line_rounds-Left :
      (rounds : ℕ) (input : List ℕ) (s : Server StratumSubmission)
      → length input ≤ rounds
      → (line_rounds t config J callbacks now index rounds input s).stopped ≡ false
      → Left input (line_rounds t config J callbacks now index rounds input s).input
  unfolding line_rounds split_line after_line
  line_rounds-Left zero [] s h e = all_left refl
  line_rounds-Left zero (x ∷ xs) s h e = absurd (omega arith)
  line_rounds-Left (suc rounds) input s h e =
      go (split_line input) refl (split_line-Splits input)
        (λ rest after lt. line_rounds-Left rounds rest after (omega arith)) e
    where
      more : List ℕ → Server StratumSubmission → Reading
      more rest after = line_rounds t config J callbacks now index rounds rest after

      go :
          (o : Option (List ℕ × List ℕ))
          → split_line input ≡ o
          → Splits input o
          → ((rest : List ℕ) (after : Server StratumSubmission)
              → length rest < length input
              → (more rest after).stopped ≡ false
              → Left rest (more rest after).input)
          → (after_line t config J callbacks now index more input s o).stopped ≡ false
          → Left input (after_line t config J callbacks now index more input s o).input
      go none q p ih e = all_left (ap has_no_line q)
      go (some (line, rest)) q (a_line _ _ lt) ih e =
          let after = process_line t config J callbacks now index (strip_return line) s in
          branches-Left input (ltb config.max_line_bytes (length line))
            ((after.connections index).closing || s.running && not after.running)
            (record {
              input = input;
              server = oversized t config J callbacks now index s;
              stopped = true;
            })
            (record { input = rest; server = after; stopped = true }) (more rest after) refl refl
            (λ on.
              let (done, short) = Left-IsShort rest (more rest after).input (ih rest after lt on) in
              part_left line rest (more rest after).input q short done)
            e

-- What no line has taken yet.
pub record IsWaiting (config : StratumServerConfig) (input : List ℕ) : Type 0 where
  pub no_line : has_no_line (split_line input) ≡ true
  pub short : (length input ≤ config.max_line_bytes) ⊎ (length input ≤ 4096)

-- Each answer has at most as many bytes as the buffer.
abbrev pub FitBuffer : List Received → Type 0
FitBuffer [] = Unit {0}
FitBuffer (received bytes ∷ answers) = (length bytes ≤ 4096) × FitBuffer answers
FitBuffer (answer ∷ answers) = FitBuffer answers

after_read-IsWaiting :
    (config : StratumServerConfig) (input bytes left : List ℕ)
    → has_no_line (split_line input) ≡ true
    → length bytes ≤ 4096
    → (ltb config.max_line_bytes (length (input ++ bytes))
        && has_no_line (split_line (input ++ bytes)))
      ≡ false
    → Left (input ++ bytes) left
    → IsWaiting config left
after_read-IsWaiting config input bytes _ none_yet few e (all_left h) = record {
  no_line = h;
  short = inl (ground (arith, e, h));
}
after_read-IsWaiting config input bytes left none_yet few e (part_left line rest _ q short h) =
    record {
      no_line = h;
      short = inr (omega (arith, short, few, split_line-appended input bytes line rest none_yet q));
    }

module _ (t : Responses) (config : StratumServerConfig) (J : Type 0) ⦃json : Json J⦄
    (callbacks : Callbacks) (now index : ℕ) where
  -- When no line is complete in what the connection keeps, and this has at most the greatest length of a
  -- line or at most 4096 bytes, then after any reads of at most 4096 bytes each that do not end in a
  -- closing connection or an exception: again no line is complete in what it keeps, and this has at
  -- most the greatest length of a line or at most 4096 bytes.
  pub read_ready-IsWaiting :
      (answers : List Received) (input : List ℕ) (s : Server StratumSubmission)
      → FitBuffer answers
      → IsWaiting config input
      → (read_ready t config J callbacks now index answers input s).stopped ≡ false
      → IsWaiting config (read_ready t config J callbacks now index answers input s).input
  unfolding read_ready take_lines
  read_ready-IsWaiting [] input s fit waiting e = waiting
  read_ready-IsWaiting (recv_interrupted ∷ answers) input s fit waiting e =
      read_ready-IsWaiting answers input s fit waiting e
  read_ready-IsWaiting (recv_would_block ∷ answers) input s fit waiting e = waiting
  read_ready-IsWaiting (peer_closed ∷ answers) input s fit waiting e = absurd (ground arith)
  read_ready-IsWaiting (received bytes ∷ answers) input s fit waiting e =
      go
        (ltb config.max_line_bytes (length (input ++ bytes))
          && has_no_line (split_line (input ++ bytes)))
        lines.stopped refl refl (λ w. read_ready-IsWaiting answers lines.input lines.server fit.1 w)
        e
    where
      start : Server StratumSubmission
      start = touched t config J callbacks now index s

      lines : Reading
      lines =
          line_rounds t config J callbacks now index (length (input ++ bytes)) (input ++ bytes)
            start

      over : Reading
      over = record {
        input = input ++ bytes;
        server = oversized t config J callbacks now index start;
        stopped = true;
      }

      next : Reading
      next = read_ready t config J callbacks now index answers lines.input lines.server

      go :
          (large ended : Bool)
          → (ltb config.max_line_bytes (length (input ++ bytes))
              && has_no_line (split_line (input ++ bytes)))
            ≡ large
          → lines.stopped ≡ ended
          → (IsWaiting config lines.input → next.stopped ≡ false → IsWaiting config next.input)
          → (if large then over else if ended then lines else next).stopped ≡ false
          → IsWaiting config (if large then over else if ended then lines else next).input
      go true ended p q ih r = absurd (ground arith)
      go false true p q ih r = absurd (ground arith)
      go false false p q ih r =
          ih
            (after_read-IsWaiting config input bytes lines.input waiting.no_line fit.0 p (
              line_rounds-Left t config J callbacks now index (length (input ++ bytes))
                (input ++ bytes) start (omega arith) q))
            r
