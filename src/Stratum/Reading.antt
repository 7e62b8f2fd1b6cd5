-- ===== src/Stratum/Reading.antt =====
-- src/stratum/stratum.cpp: the bytes that a miner sends, cut into lines. What `recv` gives is a list.
use monero_solo_stratum.Common.{
  ℕ, zero, suc, Bool, true, false, not, ◌||◌, ◌&&◌, Option, none, some, List, [], ◌∷◌, ◌++◌, ltb,
  ◌==◌, if◌then◌else◌, length,
}
use monero_solo_stratum.Defense.{AbuseKind}
use monero_solo_stratum.Stratum.Config.{StratumServerConfig}
use monero_solo_stratum.Stratum.Submits.{Responses, Server}
use monero_solo_stratum.Stratum.Json.{Json}
use monero_solo_stratum.Stratum.Submission.{StratumSubmission, Callbacks}
use monero_solo_stratum.Stratum.Requests.{set_connection, abort_connection, told, process_line}

-- Up to the first newline, and what follows it.
unfoldable pub split_line : List ℕ → Option (List ℕ × List ℕ)
split_line [] = none
split_line (byte ∷ bytes) =
    if byte == b'\n'
    then some ([], bytes)
    else elim (split_line bytes) [ none ↦ none | some (line, rest) ↦ some (byte ∷ line, rest) ]

-- Without a carriage return at the end.
unfoldable pub strip_return : List ℕ → List ℕ
strip_return [] = []
strip_return (byte ∷ []) = if byte == b'\r' then [] else byte ∷ []
strip_return (byte ∷ next ∷ bytes) = byte ∷ strip_return (next ∷ bytes)

-- The bytes that no line has taken, the server, and whether the connection is closing.
pub record Reading : Type 0 where
  pub input : List ℕ
  pub server : Server StratumSubmission
  pub stopped : Bool

pub data Received : Type 0 where
  received : List ℕ → Received
  recv_interrupted : Received
  recv_would_block : Received
  peer_closed : Received

abbrev pub has_no_line : Option (List ℕ × List ℕ) → Bool
has_no_line none = true
has_no_line (some split) = false

module _ (t : Responses) (config : StratumServerConfig) (J : Type 0) ⦃json : Json J⦄
    (callbacks : Callbacks) (now index : ℕ) where
  abbrev pub oversized : Server StratumSubmission → Server StratumSubmission
  oversized s = abort_connection index (told t config index AbuseKind.oversized_line s)

  -- A line, and the rounds for what follows it. An exception in a handler stops the server, and the
  -- rounds with it.
  unfoldable pub after_line :
      (List ℕ → Server StratumSubmission → Reading)
      → List ℕ
      → Server StratumSubmission
      → Option (List ℕ × List ℕ)
      → Reading
  unfolding strip_return process_line
  after_line next input s none = record { input = input; server = s; stopped = false }
  after_line next input s (some (line, rest)) =
      let after = process_line t config J callbacks now index (strip_return line) s in
      let later = next rest after in
      if ltb config.max_line_bytes (length line)
      then record { input = input; server = oversized s; stopped = true }
      else if (after.connections index).closing || s.running && not after.running
      then record { input = rest; server = after; stopped = true }
      else later

  -- The lines of the input; a line takes at least its newline, so that as many rounds as bytes are enough.
  unfoldable pub line_rounds : ℕ → List ℕ → Server StratumSubmission → Reading
  unfolding split_line after_line
  line_rounds zero input s = record { input = input; server = s; stopped = false }
  line_rounds (suc rounds) input s =
      after_line (λ rest after. line_rounds rounds rest after) input s (split_line input)

  unfoldable pub take_lines : List ℕ → Server StratumSubmission → Reading
  unfolding line_rounds
  take_lines input s = line_rounds (length input) input s

  abbrev pub touched : Server StratumSubmission → Server StratumSubmission
  touched s = set_connection index (record (s.connections index) { last_activity = now }) s

  abbrev pub continue : Reading → (List ℕ → Server StratumSubmission → Reading) → Reading
  continue r next = if r.stopped then r else next r.input r.server

  -- After the last answer `recv` would block.
  unfoldable pub read_ready : List Received → List ℕ → Server StratumSubmission → Reading
  unfolding take_lines
  read_ready [] input s = record { input = input; server = s; stopped = false }
  read_ready (received bytes ∷ answers) input s =
      let full = input ++ bytes in
      if ltb config.max_line_bytes (length full) && has_no_line (split_line full)
      then record { input = full; server = oversized (touched s); stopped = true }
      else continue (take_lines full (touched s)) (λ rest after. read_ready answers rest after)
  read_ready (recv_interrupted ∷ answers) input s = read_ready answers input s
  read_ready (recv_would_block ∷ answers) input s = record {
    input = input;
    server = s;
    stopped = false;
  }
  read_ready (peer_closed ∷ answers) input s = record {
    input = input;
    server = abort_connection index s;
    stopped = true;
  }
