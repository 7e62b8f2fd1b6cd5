-- ===== src/Stratum/ReadIds.antt =====
-- src/stratum/stratum.cpp: the live request ids while lines are read.
use monero_solo_stratum.Common.{
  either, zero, suc, ℕ, ◌≡◌, refl, ◌∙◌, ap, Bool, true, false, not, ◌&&◌, ◌||◌, Option, none, some,
  List, [], ◌∷◌, ◌++◌, ltb, if◌then◌else◌, length, arith,
}
use monero_solo_stratum.Defense.{AbuseKind}
use monero_solo_stratum.Stratum.Connections.{Connection, close_connection}
use monero_solo_stratum.Stratum.Config.{StratumServerConfig}
use monero_solo_stratum.Stratum.Submits.{Responses, Server}
use monero_solo_stratum.Stratum.Json.{Json}
use monero_solo_stratum.Stratum.Submission.{StratumSubmission, Callbacks}
use monero_solo_stratum.Stratum.Requests.{told, abort_connection, process_line}
use monero_solo_stratum.Stratum.Fates.{update_own}
use monero_solo_stratum.Stratum.LineFates.{process_line-LineFate}
use monero_solo_stratum.Stratum.LiveIds.{LiveIds, LineFate-LiveIds}
use monero_solo_stratum.Stratum.KeptIds.{close_connection-KeepsIds, set_connection-LiveIds}
use monero_solo_stratum.Stratum.Reading.{
  strip_return, split_line, Reading, Received, received, recv_interrupted, recv_would_block,
  peer_closed, has_no_line, oversized, touched, continue, after_line, line_rounds, take_lines,
  read_ready,
}

-- Until it stops, the server runs and the connection is open.
record ReadsOn (index : ℕ) (r : Reading) : Type 0 where
  pub ids : LiveIds [] r.server
  pub running : r.stopped ≡ false → r.server.running ≡ true
  pub live : r.stopped ≡ false → (r.server.connections index).closing ≡ false

module _ (t : Responses) (config : StratumServerConfig) (J : Type 0) ⦃json : Json J⦄
    (callbacks : Callbacks) (now index : ℕ) where
  abort_connection-LiveIds :
      (s : Server StratumSubmission) → LiveIds [] s → LiveIds [] (abort_connection index s)
  abort_connection-LiveIds s inv =
      set_connection-LiveIds index (close_connection (s.connections index)) s
        (close_connection-KeepsIds (s.connections index)) inv

  stops-ReadsOn :
      (input : List ℕ) (s : Server StratumSubmission)
      → LiveIds [] s
      → ReadsOn index (record { input = input; server = s; stopped = true })
  stops-ReadsOn input s inv = record {
    ids = inv;
    running = λ h. absurd (ground arith);
    live = λ h. absurd (ground arith);
  }

  after_line-ReadsOn :
      (next : List ℕ → Server StratumSubmission → Reading) (input : List ℕ)
      (s : Server StratumSubmission) (split : Option (List ℕ × List ℕ))
      → s.running ≡ true
      → (s.connections index).closing ≡ false
      → LiveIds [] s
      → ((rest : List ℕ) (r : Server StratumSubmission)
          → r.running ≡ true
          → (r.connections index).closing ≡ false
          → LiveIds [] r
          → ReadsOn index (next rest r))
      → ReadsOn index (after_line t config J callbacks now index next input s split)
  unfolding after_line
  after_line-ReadsOn next input s none up open_ inv more = record {
    ids = inv;
    running = λ h. up;
    live = λ h. open_;
  }
  after_line-ReadsOn next input s (some (line, rest)) up open_ inv more =
      either (ReadsOn index) (ltb config.max_line_bytes (length line)) _ _
        (stops-ReadsOn input (oversized t config J callbacks now index s)
          (abort_connection-LiveIds (told t config index AbuseKind.oversized_line s) inv))
        (go (after.connections index).closing s.running after.running refl refl refl)
    where
      after : Server StratumSubmission
      after = process_line t config J callbacks now index (strip_return line) s

      ids : LiveIds [] after
      ids =
          LineFate-LiveIds index s after up open_
            (process_line-LineFate t config J callbacks now index (strip_return line) s) inv

      go :
          (shut was runs : Bool)
          → (after.connections index).closing ≡ shut
          → s.running ≡ was
          → after.running ≡ runs
          → ReadsOn index (
              if shut || was && not runs
              then record { input = rest; server = after; stopped = true }
              else next rest after)
      go true was runs e w u = stops-ReadsOn rest after ids
      go false true false e w u = stops-ReadsOn rest after ids
      go false true true e w u = more rest after u e ids
      go false false runs e w u = absurd (ground arith)

  line_rounds-ReadsOn :
      (rounds : ℕ) (input : List ℕ) (s : Server StratumSubmission)
      → s.running ≡ true
      → (s.connections index).closing ≡ false
      → LiveIds [] s
      → ReadsOn index (line_rounds t config J callbacks now index rounds input s)
  unfolding line_rounds
  line_rounds-ReadsOn zero input s up open_ inv = record {
    ids = inv;
    running = λ h. up;
    live = λ h. open_;
  }
  line_rounds-ReadsOn (suc rounds) input s up open_ inv =
      after_line-ReadsOn
        (λ rest after. line_rounds t config J callbacks now index rounds rest after) input s
        (split_line input) up open_ inv (λ rest r u o i. line_rounds-ReadsOn rounds rest r u o i)

  touched-LiveIds :
      (s : Server StratumSubmission)
      → LiveIds [] s
      → LiveIds [] (touched t config J callbacks now index s)
  touched-LiveIds s inv =
      set_connection-LiveIds index (record (s.connections index) { last_activity = now }) s
        (record { ids = refl; closing = λ h. h }) inv

  continue-ReadsOn :
      (r : Reading) (next : List ℕ → Server StratumSubmission → Reading)
      → ReadsOn index r
      → ((rest : List ℕ) (s : Server StratumSubmission)
          → s.running ≡ true
          → (s.connections index).closing ≡ false
          → LiveIds [] s
          → ReadsOn index (next rest s))
      → ReadsOn index (continue t config J callbacks now index r next)
  continue-ReadsOn r next on more = go r.stopped refl
    where
      go : (b : Bool) → r.stopped ≡ b → ReadsOn index (if b then r else next r.input r.server)
      go true e = on
      go false e = more r.input r.server (on.running e) (on.live e) on.ids

  read_ready-ReadsOn :
      (answers : List Received) (input : List ℕ) (s : Server StratumSubmission)
      → s.running ≡ true
      → (s.connections index).closing ≡ false
      → LiveIds [] s
      → ReadsOn index (read_ready t config J callbacks now index answers input s)
  unfolding read_ready take_lines
  read_ready-ReadsOn [] input s up open_ inv = record {
    ids = inv;
    running = λ h. up;
    live = λ h. open_;
  }
  read_ready-ReadsOn (received bytes ∷ answers) input s up open_ inv =
      let now_open : ((touched t config J callbacks now index s).connections index).closing
          ≡ false =
        ap (λ (c : Connection). c.closing)
          (update_own s.connections index (record (s.connections index) { last_activity = now }))
        ∙ open_ in
      either (ReadsOn index)
        (ltb config.max_line_bytes (length (input ++ bytes))
          && has_no_line (split_line (input ++ bytes)))
        _ _
        (stops-ReadsOn (input ++ bytes)
          (oversized t config J callbacks now index (touched t config J callbacks now index s))
          (abort_connection-LiveIds
            (told t config index AbuseKind.oversized_line
              (touched t config J callbacks now index s))
            (touched-LiveIds s inv)))
        (continue-ReadsOn
          (take_lines t config J callbacks now index (input ++ bytes)
            (touched t config J callbacks now index s))
          (λ rest after. read_ready t config J callbacks now index answers rest after)
          (line_rounds-ReadsOn (length (input ++ bytes)) (input ++ bytes)
            (touched t config J callbacks now index s) up now_open (touched-LiveIds s inv))
          (λ rest after u o i. read_ready-ReadsOn answers rest after u o i))
  read_ready-ReadsOn (recv_interrupted ∷ answers) input s up open_ inv =
      read_ready-ReadsOn answers input s up open_ inv
  read_ready-ReadsOn (recv_would_block ∷ answers) input s up open_ inv = record {
    ids = inv;
    running = λ h. up;
    live = λ h. open_;
  }
  read_ready-ReadsOn (peer_closed ∷ answers) input s up open_ inv =
      stops-ReadsOn input (abort_connection index s) (abort_connection-LiveIds s inv)

  pub read_ready-LiveIds :
      (answers : List Received) (input : List ℕ) (s : Server StratumSubmission)
      → s.running ≡ true
      → (s.connections index).closing ≡ false
      → LiveIds [] s
      → LiveIds [] (read_ready t config J callbacks now index answers input s).server
  read_ready-LiveIds answers input s up open_ inv =
      (read_ready-ReadsOn answers input s up open_ inv).ids
