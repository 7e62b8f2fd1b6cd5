-- ===== src/Stratum/Requests.antt =====
-- src/stratum/stratum.cpp: a line of a miner, from its bytes to the handler. What the defense engine,
-- the job provider and the admission resolver answer are arguments.
use monero_solo_stratum.Common.{
  ℕ, Bool, false, not, ◌&&◌, ◌||◌, Option, none, some, List, ◌∷◌, ◌==◌, if◌then◌else◌, length,
}
use monero_solo_stratum.Common.Outcome.{Outcome, ok, throw}
use monero_solo_stratum.Common.Text.{codes}
use monero_solo_stratum.Common.Map.{text_eq, same_text}
use monero_solo_stratum.Defense.{AbuseKind}
use monero_solo_stratum.Monero.Target.{ValidationError}
use monero_solo_stratum.Stratum.Connections.{Connection, close_connection, queue}
use monero_solo_stratum.Stratum.Config.{StratumServerConfig}
use monero_solo_stratum.Stratum.Json.{
  Json, MinerRequestId, id_key, is_in, has_nul, read_document, text_member,
}
use monero_solo_stratum.Stratum.Submits.{
  Responses, Server, update, noted, queue_error, admit_pending,
}
use monero_solo_stratum.Stratum.Login.{LoginResult, handle_login, handle_keepalive}
use monero_solo_stratum.Stratum.Submission.{
  StratumSubmission, Callbacks, decode_submission, resolve, claims_candidate, absent_or,
  request_parts, submit_texts,
}

module _ {S : Type 0} where
  abbrev pub set_connection : ℕ → Connection → Server S → Server S
  set_connection index c s = record s { connections = update s.connections index c }

  abbrev pub abort_connection : ℕ → Server S → Server S
  abort_connection index s = set_connection index (close_connection (s.connections index)) s

module _ (t : Responses) (config : StratumServerConfig) where
  abbrev pub fail_request :
      ℕ → List ℕ → List ℕ → Server StratumSubmission → Server StratumSubmission
  fail_request index key message s =
      set_connection index (queue_error t config key message (s.connections index)) s

  -- An error that releases no request id.
  abbrev pub refuse : ℕ → List ℕ → List ℕ → Server StratumSubmission → Server StratumSubmission
  refuse index key message s =
      set_connection index
        (queue config.max_output_bytes_per_connection (t.error_response key message) none none
          (s.connections index)).0
        s

  abbrev pub told : ℕ → AbuseKind → Server StratumSubmission → Server StratumSubmission
  told index kind s = record s {
    recorded = noted t config (s.connections index).peer (some kind) s.recorded;
  }

  -- An exception ends the event loop.
  abbrev pub admit_claimed :
      ℕ
      → List ℕ
      → StratumSubmission
      → Outcome ValidationError Bool
      → Server StratumSubmission
      → Server StratumSubmission
  admit_claimed index key submission (throw e) s = record s { running = false }
  admit_claimed index key submission (ok claimed) s =
      admit_pending t config claimed index key submission s

  abbrev pub submit_decoded :
      Callbacks
      → ℕ
      → List ℕ
      → Option StratumSubmission
      → Server StratumSubmission
      → Server StratumSubmission
  submit_decoded callbacks index key none s = fail_request index key (codes "Invalid result") s
  submit_decoded callbacks index key (some submission) s =
      elim (resolve callbacks submission (s.connections index)) [
        | none ↦ fail_request index key (codes "Server busy") s
        | some difficulty ↦
            admit_claimed index key submission (claims_candidate submission.claimed_hash difficulty)
              s
      ]

  -- An exception ends the event loop.
  abbrev pub after_login : ℕ → LoginResult → Server StratumSubmission → Server StratumSubmission
  after_login index r s = record s {
    running = s.running && r.returned;
    connections = update s.connections index r.connection;
    recorded = noted t config (s.connections index).peer r.abuse s.recorded;
  }

  module _ {J : Type 0} ⦃json : Json J⦄ where
    unfoldable pub handle_submit :
        Callbacks
        → ℕ
        → J
        → ℕ
        → MinerRequestId
        → List ℕ
        → Server StratumSubmission
        → Server StratumSubmission
    unfolding submit_texts decode_submission
    handle_submit callbacks now params index id key s =
        let c = s.connections index in
        if not s.running
        then s
        else if not (callbacks.admit_submit c.peer)
        then fail_request index key (codes "Server busy") s
        else elim (submit_texts params c) [
          | none ↦ fail_request index key (codes "Invalid result") s
          | some texts ↦ submit_decoded callbacks index key (decode_submission c id now texts) s
        ]

    -- The request's id is live.
    unfoldable pub dispatch :
        Callbacks
        → ℕ
        → List ℕ
        → J
        → ℕ
        → MinerRequestId
        → List ℕ
        → Server StratumSubmission
        → Server StratumSubmission
    unfolding handle_login handle_submit handle_keepalive
    dispatch callbacks now name params index id key s =
        let c = s.connections index in
        if not c.authenticated && not (same_text name (codes "login"))
        then told index AbuseKind.malformed (fail_request index key (codes "Unauthenticated") s)
        else if same_text name (codes "login")
        then after_login index (handle_login t config callbacks.jobs params key c) s
        else if same_text name (codes "submit")
        then handle_submit callbacks now params index id key s
        else if same_text name (codes "keepalived")
        then set_connection index (handle_keepalive t config now params key c) s
        else told index AbuseKind.malformed (fail_request index key (codes "Method not found") s)

    unfoldable pub handle_request :
        Callbacks → ℕ → J → ℕ → MinerRequestId → Server StratumSubmission → Server StratumSubmission
    unfolding id_key dispatch
    handle_request callbacks now document index id s =
        let c = s.connections index in
        let key = id_key id in
        let live : Connection = record c { live_request_ids = key ∷ c.live_request_ids } in
        if not (absent_or (codes "jsonrpc") (codes "2.0") document)
        then refuse index key (codes "Invalid Request") s
        else elim (request_parts (text_member (codes "method") document)
            (json.find (codes "params") document)) [
              | none ↦ refuse index key (codes "Invalid Request") s
              | some (name, params) ↦
                  if is_in key c.live_request_ids
                  then refuse index key (codes "Server busy") s
                  else dispatch callbacks now name params index id key (set_connection index live s)
            ]

  module _ (J : Type 0) ⦃json : Json J⦄ where
    unfoldable pub process_line :
        Callbacks → ℕ → ℕ → List ℕ → Server StratumSubmission → Server StratumSubmission
    unfolding read_document handle_request
    process_line callbacks now index line s =
        if length line == 0 || has_nul line
        then abort_connection index (told index AbuseKind.malformed s)
        else if not (callbacks.admit_request (s.connections index).peer)
        then abort_connection index s
        else elim (read_document {J = J} config.max_json_depth line) [
          | none ↦ abort_connection index (told index AbuseKind.malformed s)
          | some (document, id) ↦ handle_request callbacks now document index id s
        ]
