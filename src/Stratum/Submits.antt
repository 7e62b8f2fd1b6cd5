-- ===== src/Stratum/Submits.antt =====
-- src/stratum/stratum.cpp: the submissions' queues, their workers and the results. Each part holds
-- the submissions' lock; the submission itself is of any type.
use monero_solo_stratum.Common.{
  ℕ, ◌+◌, ◌-◌, Bool, true, false, not, ◌&&◌, ◌||◌, Option, none, some, List, [], ◌∷◌, ◌++◌, leb,
  ◌==◌, if◌then◌else◌, length,
}
use monero_solo_stratum.Common.Text.{codes}
use monero_solo_stratum.Common.Map.{same_text}
use monero_solo_stratum.Defense.{AbuseKind}
use monero_solo_stratum.Stratum.Targets.{
  WireTarget, ShareDisposition, accepted, stale, duplicate, low_difficulty, unknown_job,
  share_disposition_message,
}
use monero_solo_stratum.Stratum.Connections.{Connection, queue}
use monero_solo_stratum.Stratum.Config.{StratumServerConfig}

pub record StratumJob : Type 0 where
  pub blob : List ℕ
  pub job_id : List ℕ
  pub target : List ℕ
  pub seed_hash : List ℕ
  pub height : ℕ
  -- Without a callback it is `none`, with one whether it returns.
  pub on_queued : Option Bool
  pub network_difficulty : List ℕ

-- What the job provider answers: a job, none, or an exception.
pub data JobAnswer : Type 0 where
  provided : StratumJob → JobAnswer
  unavailable : JobAnswer
  provider_failed : JobAnswer

-- The texts that are sent, by the request's key: an id and its key determine each other, and so do an
-- error's message and its code.
pub record Responses : Type 0 where
  pub login_response : List ℕ → List ℕ → StratumJob → WireTarget → List ℕ
  pub keepalive_response : List ℕ → List ℕ
  pub job_notification : StratumJob → WireTarget → List ℕ
  pub ok_response : List ℕ → List ℕ
  pub error_response : List ℕ → List ℕ → List ℕ

pub record PendingSubmit (S : Type 0) : Type 0 where
  pub connection : ℕ
  pub request_sequence : ℕ
  pub submission : S
  pub request_key : List ℕ

pub record CompletedSubmit : Type 0 where
  pub connection : ℕ
  pub request_key : List ℕ
  pub disposition : ShareDisposition
  pub internal_code : List ℕ

-- `working` is what the workers took and have not answered. A connection that is gone stands as one
-- that is closing.
pub record Server (S : Type 0) : Type 0 where
  pub running : Bool
  pub connections : ℕ → Connection
  pub pending_submits : List (PendingSubmit S)
  pub pending_candidate_submits : List (PendingSubmit S)
  pub working : List (PendingSubmit S)
  pub completed_submits : List CompletedSubmit
  -- With a defense engine, what it was told.
  pub recorded : Option (List (ℕ × AbuseKind))

abbrev pub update : (ℕ → Connection) → ℕ → Connection → ℕ → Connection
update connections id c other = if other == id then c else connections other

module _ (t : Responses) (config : StratumServerConfig) where
  abbrev pub queue_error : List ℕ → List ℕ → Connection → Connection
  queue_error key message c =
      (queue config.max_output_bytes_per_connection (t.error_response key message) (some key) none
        c).0

  abbrev pub queue_ok : List ℕ → Connection → Connection
  queue_ok key c =
      (queue config.max_output_bytes_per_connection (t.ok_response key) (some key) none c).0

  -- What a share that is not accepted counts against the connection.
  abbrev pub is_uncreditable : ShareDisposition → Bool
  is_uncreditable low_difficulty = true
  is_uncreditable stale = true
  is_uncreditable other = false

  abbrev pub count_uncreditable : ShareDisposition → Connection → Connection
  count_uncreditable disposition c =
      if is_uncreditable disposition
      then record c { uncreditable_work_results = c.uncreditable_work_results + 1 }
      else c

  abbrev pub closing_reason : CompletedSubmit → Connection → Option (List ℕ)
  closing_reason r c =
      if same_text r.internal_code (codes "duplicate_registry_full")
      then some (codes "duplicate registry capacity")
      else if is_uncreditable r.disposition && leb 64 c.uncreditable_work_results
      then some (codes "repeated uncreditable work")
      else none

  abbrev pub close_after : Option (List ℕ) → Connection → Connection
  close_after none c = c
  close_after (some reason) c =
      if c.closing
      then c
      else record c { close_after_flush = true; close_after_flush_reason = reason }

  abbrev pub refused_share : CompletedSubmit → Connection → Connection
  refused_share r c =
      let told =
        count_uncreditable r.disposition
          (queue_error r.request_key (share_disposition_message r.disposition) c) in
      close_after (closing_reason r told) told

  abbrev pub answered : ShareDisposition → CompletedSubmit → Connection → Connection
  answered accepted r c = queue_ok r.request_key c
  answered other r c = refused_share r c

  -- A result's connection, when it is not closing.
  unfoldable pub settle : CompletedSubmit → Connection → Connection
  unfolding queue share_disposition_message
  settle r c = answered r.disposition r (record c { pending_submits = c.pending_submits - 1 })

  abbrev pub abuse_of : ShareDisposition → Option AbuseKind
  abuse_of duplicate = some AbuseKind.duplicate
  abuse_of unknown_job = some AbuseKind.unknown_job
  abuse_of other = none

  abbrev pub noted :
      ℕ → Option AbuseKind → Option (List (ℕ × AbuseKind)) → Option (List (ℕ × AbuseKind))
  noted peer (some kind) (some told) = some (told ++ (peer, kind) ∷ [])
  noted peer kind told = told

  module _ {S : Type 0} where
    unfoldable pub drain_result : CompletedSubmit → Server S → Server S
    unfolding settle
    drain_result r s =
        let c = s.connections r.connection in
        if c.closing then s else record s {
          connections = update s.connections r.connection (settle r c);
          recorded = noted c.peer (abuse_of r.disposition) s.recorded;
        }

    unfoldable pub drain_results : List CompletedSubmit → Server S → Server S
    unfolding drain_result
    drain_results [] s = s
    drain_results (r ∷ results) s = drain_results results (drain_result r s)

    unfoldable pub drain_submit_results : Server S → Server S
    unfolding drain_results
    drain_submit_results s = drain_results s.completed_submits (record s { completed_submits = [] })

    -- Whether there is no room for a submission of the connection.
    abbrev pub is_busy : Bool → Connection → Server S → Bool
    is_busy claimed_candidate c s =
        let ordinary_limit = config.max_pending_submits - config.candidate_submit_reserve in
        let total_pending = length s.pending_submits + length s.pending_candidate_submits in
        leb config.max_pending_submits_per_connection c.pending_submits
        || leb config.max_pending_submits total_pending
        || (not claimed_candidate && leb ordinary_limit (length s.pending_submits))

    abbrev pub enqueue : Bool → PendingSubmit S → Server S → Server S
    enqueue true pending s = record s {
      pending_candidate_submits = s.pending_candidate_submits ++ pending ∷ [];
    }
    enqueue false pending s = record s { pending_submits = s.pending_submits ++ pending ∷ [] }

    -- The end of `handle_submit`: whether the claimed hash meets the network's target, the
    -- connection, the request's key and the submission.
    unfoldable pub admit_pending : Bool → ℕ → List ℕ → S → Server S → Server S
    unfolding queue
    admit_pending claimed_candidate id key submission s =
        let c = s.connections id in
        let sequence = c.request_sequence + 1 in
        let counted : Connection = record c {
          request_sequence = sequence;
          pending_submits = c.pending_submits + 1;
        } in
        let pending : PendingSubmit S = record {
          connection = id;
          request_sequence = sequence;
          submission = submission;
          request_key = key;
        } in
        if not s.running
        then s
        else if is_busy claimed_candidate c s
        then record s {
          connections = update s.connections id (queue_error key (codes "Server busy") c);
        }
        else enqueue claimed_candidate pending
            (record s { connections = update s.connections id counted })

module _ {S : Type 0} where
  -- A worker of the candidates' lane or of the other takes the oldest submission.
  unfoldable pub take_work : Bool → Server S → Server S
  take_work true s = elim s.pending_candidate_submits [
    | [] ↦ s
    | work ∷ later ↦ record s {
      pending_candidate_submits = later;
      working = s.working ++ work ∷ [];
    }
  ]
  take_work false s = elim s.pending_submits [
    | [] ↦ s
    | work ∷ later ↦ record s { pending_submits = later; working = s.working ++ work ∷ [] }
  ]

  -- A worker answers what it took, when others took theirs before and after.
  unfoldable pub complete_work :
      List (PendingSubmit S)
      → PendingSubmit S
      → List (PendingSubmit S)
      → ShareDisposition
      → List ℕ
      → Server S
      → Server S
  complete_work before work after disposition internal_code s = record s {
    working = before ++ after;
    completed_submits =
        s.completed_submits
        ++ record {
          connection = work.connection;
          request_key = work.request_key;
          disposition = disposition;
          internal_code = internal_code;
        }
          ∷ [];
  }
