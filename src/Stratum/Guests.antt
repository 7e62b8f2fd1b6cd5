-- ===== src/Stratum/Guests.antt =====
-- src/stratum/stratum.cpp: what a connection may do before it is authenticated.
use monero_solo_stratum.Common.{
  either, ℕ, ◌≡◌, refl, ◌∙◌, ap, Bool, true, false, not, ◌&&◌, ◌||◌, Option, none, some, List, ◌∷◌,
  ◌==◌, if◌then◌else◌, length, arith,
}
use monero_solo_stratum.Common.Text.{codes}
use monero_solo_stratum.Common.Map.{same_text, same_text_iff}
use monero_solo_stratum.Defense.{AbuseKind}
use monero_solo_stratum.Stratum.Connections.{Connection, close_connection}
use monero_solo_stratum.Stratum.Config.{StratumServerConfig}
use monero_solo_stratum.Stratum.Submits.{Responses, Server, update}
use monero_solo_stratum.Stratum.Json.{
  Json, MinerRequestId, id_key, is_in, has_nul, read_document, text_member,
}
use monero_solo_stratum.Stratum.Submission.{StratumSubmission, Callbacks, absent_or, request_parts}
use monero_solo_stratum.Stratum.Login.{LoginResult, handle_login, handle_keepalive}
use monero_solo_stratum.Stratum.Requests.{
  set_connection, abort_connection, told, refuse, fail_request, after_login, handle_submit,
  dispatch, handle_request, process_line,
}
use monero_solo_stratum.Stratum.Fates.{held, update_own}
use monero_solo_stratum.Stratum.Credentials.{
  close_connection-authenticated, queue-authenticated, Credentials, LoginFate, same, presents,
  handle_login-LoginFate,
}

abbrev live : ℕ → List ℕ → Server StratumSubmission → Server StratumSubmission
live index key s =
    set_connection index
      (record (s.connections index) {
        live_request_ids = key ∷ (s.connections index).live_request_ids;
      })
      s

module _ (config : StratumServerConfig) (J : Type 0) ⦃json : Json J⦄ where
  -- A line of a connection that is not authenticated.
  pub data GuestFate (index : ℕ) (line : List ℕ) (s r : Server StratumSubmission) : Type 0 where
    outside :
        (r.connections index).authenticated ≡ false
        → ((k : List ℕ) (i : ℕ) → held k i r ≡ held k i s)
        → GuestFate index line s r
    enters :
        (document : J) (id : MinerRequestId) (params : J)
        → read_document config.max_json_depth line ≡ some (document, id)
        → text_member (codes "method") document ≡ some (codes "login")
        → json.find (codes "params") document ≡ some params
        → Credentials config params
        → ((k : List ℕ) (i : ℕ) → held k i r ≡ held k i s)
        → GuestFate index line s r

  -- One connection is changed.
  changed-outside :
      (index : ℕ) (line : List ℕ) (s : Server StratumSubmission) (d : Connection)
      (recorded : Option (List (ℕ × AbuseKind)))
      → d.authenticated ≡ false
      → GuestFate index line s
          (record s { connections = update s.connections index d; recorded = recorded })
  changed-outside index line s d recorded e =
      outside (ap (λ (c : Connection). c.authenticated) (update_own s.connections index d) ∙ e)
        (λ k i. refl)

  module _ (t : Responses) (callbacks : Callbacks) (now index : ℕ) (line : List ℕ)
      (s : Server StratumSubmission) (guest : (s.connections index).authenticated ≡ false) where
    abort-GuestFate :
        (recorded : Option (List (ℕ × AbuseKind)))
        → GuestFate index line s (record s {
          connections = update s.connections index (close_connection (s.connections index));
          recorded = recorded;
        })
    abort-GuestFate recorded =
        changed-outside index line s (close_connection (s.connections index)) recorded
          (close_connection-authenticated (s.connections index) ∙ guest)

    refuse-GuestFate :
        (key message : List ℕ) → GuestFate index line s (refuse t config index key message s)
    refuse-GuestFate key message =
        changed-outside index line s _ s.recorded
          (queue-authenticated _ _ none none (s.connections index) ∙ guest)

    live_guest : (key : List ℕ) → ((live index key s).connections index).authenticated ≡ false
    live_guest key =
        ap (λ (c : Connection). c.authenticated) (update_own s.connections index _) ∙ guest

    dispatch-GuestFate :
        (document : J) (id : MinerRequestId) (name : List ℕ) (params : J) (key : List ℕ)
        → read_document config.max_json_depth line ≡ some (document, id)
        → text_member (codes "method") document ≡ some name
        → json.find (codes "params") document ≡ some params
        → GuestFate index line s
            (dispatch t config callbacks now name params index id key (live index key s))
    unfolding dispatch
    dispatch-GuestFate document id name params key e m p =
        go ((live index key s).connections index).authenticated (same_text name (codes "login"))
          refl refl
      where
        c : Connection
        c = (live index key s).connections index

        login_case :
            (r : LoginResult)
            → same_text name (codes "login") ≡ true
            → LoginFate config params c r.connection
            → GuestFate index line s (after_login t config index r (live index key s))
        login_case r l (same q) =
            outside
              (ap (λ (c : Connection). c.authenticated)
                  (update_own (live index key s).connections index r.connection)
                ∙ q
                ∙ live_guest key)
              (λ k i. refl)
        login_case r l (presents h) =
            enters document id params e
              (m ∙ ap (λ (x : List ℕ). some x) ((same_text_iff name (codes "login")).0 l)) p h
              (λ k i. refl)

        other : Server StratumSubmission
        other =
            if same_text name (codes "submit")
            then handle_submit t config callbacks now params index id key (live index key s)
            else if same_text name (codes "keepalived")
            then set_connection index (handle_keepalive t config now params key c)
                (live index key s)
            else told t config index AbuseKind.malformed
                (fail_request t config index key (codes "Method not found") (live index key s))

        go :
            (known login : Bool)
            → c.authenticated ≡ known
            → same_text name (codes "login") ≡ login
            → GuestFate index line s (
                if not known && not login
                then told t config index AbuseKind.malformed
                    (fail_request t config index key (codes "Unauthenticated") (live index key s))
                else if login
                then after_login t config index
                    (handle_login t config callbacks.jobs params key c)
                    (live index key s)
                else other)
        go true login k l = absurd (ground (arith, live_guest key, k))
        go false false k l =
            outside
              (ap (λ (c : Connection). c.authenticated)
                  (update_own (live index key s).connections index _)
                ∙ queue-authenticated _ _ (some key) none c
                ∙ live_guest key)
              (λ k i. refl)
        go false true k l =
            login_case (handle_login t config callbacks.jobs params key c) l
              (handle_login-LoginFate config t callbacks.jobs params key c)

    handle_request-GuestFate :
        (document : J) (id : MinerRequestId)
        → read_document config.max_json_depth line ≡ some (document, id)
        → GuestFate index line s (handle_request t config callbacks now document index id s)
    unfolding handle_request
    handle_request-GuestFate document id e =
        either (GuestFate index line s) (not (absent_or (codes "jsonrpc") (codes "2.0") document)) _
          _ (refuse-GuestFate key (codes "Invalid Request"))
          (parts_case (text_member (codes "method") document) (json.find (codes "params") document)
            refl refl)
      where
        key : List ℕ
        key = id_key id

        handled : List ℕ → J → Server StratumSubmission
        handled name params =
            if is_in key (s.connections index).live_request_ids
            then refuse t config index key (codes "Server busy") s
            else dispatch t config callbacks now name params index id key (live index key s)

        fate_of : Option (List ℕ × J) → Server StratumSubmission
        fate_of none = refuse t config index key (codes "Invalid Request") s
        fate_of (some (name, params)) = handled name params

        object_case :
            (b : Bool) (name : List ℕ) (params : J)
            → text_member (codes "method") document ≡ some name
            → json.find (codes "params") document ≡ some params
            → GuestFate index line s (fate_of (if b then some (name, params) else none))
        object_case false name params m p = refuse-GuestFate key (codes "Invalid Request")
        object_case true name params m p =
            either (GuestFate index line s) (is_in key (s.connections index).live_request_ids) _ _
              (refuse-GuestFate key (codes "Server busy"))
              (dispatch-GuestFate document id name params key e m p)

        parts_case :
            (method : Option (List ℕ)) (params : Option J)
            → text_member (codes "method") document ≡ method
            → json.find (codes "params") document ≡ params
            → GuestFate index line s (fate_of (request_parts method params))
        parts_case none params m p = refuse-GuestFate key (codes "Invalid Request")
        parts_case (some name) none m p = refuse-GuestFate key (codes "Invalid Request")
        parts_case (some name) (some params) m p =
            object_case (json.is_object params) name params m p

    -- After a line of a connection that is not authenticated, no submission has come or gone, and either
    -- the connection is still not authenticated, or the line is a login request whose texts are within
    -- their limits, whose password is the server's unless the server has none, and whose algorithms, if
    -- it names any, have the supported one among them, each a text and none twice.
    pub process_line-GuestFate :
        GuestFate index line s (process_line t config J callbacks now index line s)
    unfolding process_line
    process_line-GuestFate =
        either (GuestFate index line s) (length line == 0 || has_nul line) _ _
          (abort-GuestFate (told t config index AbuseKind.malformed s).recorded)
          (either (GuestFate index line s)
            (not (callbacks.admit_request (s.connections index).peer)) _ _
            (abort-GuestFate s.recorded)
            (document_case (read_document config.max_json_depth line) refl))
      where
        document_case :
            (o : Option (J × MinerRequestId))
            → read_document config.max_json_depth line ≡ o
            → GuestFate index line s (elim o [
              | none ↦ abort_connection index (told t config index AbuseKind.malformed s)
              | some (document, id) ↦ handle_request t config callbacks now document index id s
            ])
        document_case none e = abort-GuestFate (told t config index AbuseKind.malformed s).recorded
        document_case (some (document, id)) e = handle_request-GuestFate document id e
