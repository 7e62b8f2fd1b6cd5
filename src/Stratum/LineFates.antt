-- ===== src/Stratum/LineFates.antt =====
-- src/stratum/stratum.cpp: what becomes of a line.
use monero_solo_stratum.Common.{
  either, ℕ, ◌+◌, ◌≡◌, ◌≢◌, refl, sym, ◌∙◌, ap, subst, Bool, true, false, not, ◌||◌, Option, none,
  some, List, ◌∷◌, ◌==◌, if◌then◌else◌, length,
}
use monero_solo_stratum.Common.Text.{codes}
use monero_solo_stratum.Common.Map.{one_if}
use monero_solo_stratum.Defense.{AbuseKind}
use monero_solo_stratum.Stratum.Connections.{Connection, close_connection, forget_id}
use monero_solo_stratum.Stratum.Output.{close_connection_lem}
use monero_solo_stratum.Stratum.Config.{StratumServerConfig}
use monero_solo_stratum.Stratum.Submits.{Responses, Server, update}
use monero_solo_stratum.Stratum.Json.{
  Json, MinerRequestId, id_key, is_in, has_nul, read_document, text_member,
}
use monero_solo_stratum.Stratum.Submission.{StratumSubmission, Callbacks, absent_or, request_parts}
use monero_solo_stratum.Stratum.Requests.{
  set_connection, abort_connection, refuse, told, dispatch, handle_request, process_line,
}
use monero_solo_stratum.Stratum.Replies.{IsAnswered, closed, replied, queue-IsAnswered, forget_own}
use monero_solo_stratum.Stratum.Fates.{
  is_request, held, Handled, stopped, answered_once, queued, update_own, update_other,
}
use monero_solo_stratum.Stratum.HandlerFates.{dispatch-Handled}

-- A line of a connection, from the server before it to the server after it.
pub data LineFate {S : Type 0} (index : ℕ) (s r : Server S) : Type 0 where
  ended : r.running ≡ false → LineFate index s r
  settled :
      ((other : ℕ) → other ≢ index → r.connections other ≡ s.connections other)
      → ((k : List ℕ) (i : ℕ) → held k i r ≡ held k i s)
      → IsAnswered
          (s.connections index)
          (r.connections index)
          (s.connections index).live_request_ids
      → LineFate index s r
  waits :
      (key : List ℕ)
      → is_in key (s.connections index).live_request_ids ≡ false
      → ((other : ℕ) → other ≢ index → r.connections other ≡ s.connections other)
      → ((k : List ℕ) (i : ℕ) → held k i r ≡ held k i s + one_if (is_request key index k i))
      → (r.connections index).live_request_ids ≡ key ∷ (s.connections index).live_request_ids
      → (r.connections index).output ≡ (s.connections index).output
      → (r.connections index).pending_submits ≡ (s.connections index).pending_submits + 1
      → LineFate index s r

module _ {S : Type 0} where
  changed-LineFate :
      (index : ℕ) (d : Connection) (recorded : Option (List (ℕ × AbuseKind))) (s : Server S)
      → IsAnswered (s.connections index) d (s.connections index).live_request_ids
      → LineFate index s
          (record s { connections = update s.connections index d; recorded = recorded })
  changed-LineFate index d recorded s h =
      settled (update_other s.connections index d) (λ k i. refl)
        (subst
          (λ (e : Connection).
            IsAnswered (s.connections index) e (s.connections index).live_request_ids)
          (sym (update_own s.connections index d)) h)

  abort-LineFate :
      (index : ℕ) (recorded : Option (List (ℕ × AbuseKind))) (s : Server S)
      → LineFate index s (record s {
        connections = update s.connections index (close_connection (s.connections index));
        recorded = recorded;
      })
  abort-LineFate index recorded s =
      changed-LineFate index (close_connection (s.connections index)) recorded s
        (closed (close_connection_lem (s.connections index)).2)

abbrev with_id : List ℕ → Connection → Connection
with_id key c = record c { live_request_ids = key ∷ c.live_request_ids }

-- The request's id becomes live before its handler runs.
module _ {S : Type 0} (key : List ℕ) (index : ℕ) (s : Server S)
    (new : is_in key (s.connections index).live_request_ids ≡ false) where
  abbrev live : Connection
  live = with_id key (s.connections index)

  released :
      (d : Connection)
      → IsAnswered live d (forget_id key live.live_request_ids)
      → IsAnswered (s.connections index) d (s.connections index).live_request_ids
  released d (closed h) = closed h
  released d (replied r) = replied (record {
    text = r.text;
    output = r.output;
    ids = r.ids ∙ forget_own key (s.connections index).live_request_ids new;
    pending = r.pending;
  })

  handled-LineFate :
      (r : Server S)
      → Handled key index (record s { connections = update s.connections index live }) r
      → LineFate index s r
  handled-LineFate r (stopped h) = ended h
  handled-LineFate r (answered_once others same h) =
      settled (λ other away. others other away ∙ update_other s.connections index live other away)
        same
        (released (r.connections index) (
          subst
            (λ (e : Connection).
              IsAnswered e (r.connections index) (forget_id key e.live_request_ids))
            (update_own s.connections index live) h))
  handled-LineFate r (queued others more ids output pending) =
      let here = update_own s.connections index live in
      waits key new
        (λ other away. others other away ∙ update_other s.connections index live other away) more
        (ids ∙ ap (λ (e : Connection). e.live_request_ids) here)
        (output ∙ ap (λ (e : Connection). e.output) here)
        (pending ∙ ap (λ (e : Connection). e.pending_submits + 1) here)

module _ (t : Responses) (config : StratumServerConfig) where
  refuse-LineFate :
      (index : ℕ) (key message : List ℕ) (s : Server StratumSubmission)
      → LineFate index s (refuse t config index key message s)
  refuse-LineFate index key message s =
      changed-LineFate index _ s.recorded s (queue-IsAnswered _ _ none none (s.connections index))

  module _ (J : Type 0) ⦃json : Json J⦄ where
    handle_request-LineFate :
        (callbacks : Callbacks) (now : ℕ) (document : J) (index : ℕ) (id : MinerRequestId)
        (s : Server StratumSubmission)
        → LineFate index s (handle_request t config callbacks now document index id s)
    unfolding handle_request
    handle_request-LineFate callbacks now document index id s =
        either (LineFate index s) (not (absent_or (codes "jsonrpc") (codes "2.0") document)) _ _
          (refuse-LineFate index (id_key id) (codes "Invalid Request") s)
          (parts_case (
            request_parts (text_member (codes "method") document)
              (json.find (codes "params") document)))
      where
        fresh :
            (name : List ℕ) (params : J) (b : Bool)
            → is_in (id_key id) (s.connections index).live_request_ids ≡ b
            → LineFate index s (
                if b
                then refuse t config index (id_key id) (codes "Server busy") s
                else dispatch t config callbacks now name params index id
                    (id_key id)
                    (set_connection index (with_id (id_key id) (s.connections index)) s))
        fresh name params true e = refuse-LineFate index (id_key id) (codes "Server busy") s
        fresh name params false e = handled-LineFate (id_key id) index s e _ (
            dispatch-Handled t config callbacks now name params index id (id_key id)
              (set_connection index (with_id (id_key id) (s.connections index)) s))

        parts_case :
            (parts : Option (List ℕ × J))
            → LineFate index s (elim parts [
              | none ↦ refuse t config index (id_key id) (codes "Invalid Request") s
              | some (name, params) ↦
                  if is_in (id_key id) (s.connections index).live_request_ids
                  then refuse t config index (id_key id) (codes "Server busy") s
                  else dispatch t config callbacks now name params index id
                      (id_key id)
                      (set_connection index (with_id (id_key id) (s.connections index)) s)
            ])
        parts_case none = refuse-LineFate index (id_key id) (codes "Invalid Request") s
        parts_case (some (name, params)) = fresh name params _ refl

    -- After a line of a connection the server stopped running, or the other connections are as before
    -- and one of these holds: the connection is closing; exactly one text follows its output, and its
    -- live ids and its count of submissions are as before; or one more submission is under way, its id
    -- is live and was not before, and the output is as before.
    pub process_line-LineFate :
        (callbacks : Callbacks) (now index : ℕ) (line : List ℕ) (s : Server StratumSubmission)
        → LineFate index s (process_line t config J callbacks now index line s)
    unfolding process_line
    process_line-LineFate callbacks now index line s =
        either (LineFate index s) (length line == 0 || has_nul line) _ _ (abort-LineFate index _ s)
          (either (LineFate index s) (not (callbacks.admit_request (s.connections index).peer)) _ _
            (abort-LineFate index s.recorded s)
            (document_case (read_document config.max_json_depth line)))
      where
        document_case :
            (document : Option (J × MinerRequestId))
            → LineFate index s (elim document [
              | none ↦ abort_connection index (told t config index AbuseKind.malformed s)
              | some (document, id) ↦ handle_request t config callbacks now document index id s
            ])
        document_case none = abort-LineFate index _ s
        document_case (some (document, id)) =
            handle_request-LineFate callbacks now document index id s
