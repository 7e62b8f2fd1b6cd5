-- ===== src/Stratum/LineHistories.antt =====
-- src/stratum/stratum.cpp: any run of the event loop, with the lines of the miners, and of the workers.
use monero_solo_stratum.Common.{ℕ, ◌≡◌, ap, Bool, true, false, List, [], ◌∷◌, ◌++◌, arith}
use monero_solo_stratum.Common.Map.{one_if}
use monero_solo_stratum.Stratum.Targets.{ShareDisposition}
use monero_solo_stratum.Stratum.Connections.{Connection, close_connection, SendResult, write_ready}
use monero_solo_stratum.Stratum.Config.{StratumServerConfig}
use monero_solo_stratum.Stratum.Submits.{
  Responses, PendingSubmit, Server, drain_submit_results, take_work, complete_work, JobAnswer,
}
use monero_solo_stratum.Stratum.SubmitHistories.{IsIdle}
use monero_solo_stratum.Stratum.Json.{Json, is_in}
use monero_solo_stratum.Stratum.Submission.{StratumSubmission, Callbacks}
use monero_solo_stratum.Stratum.Requests.{set_connection}
use monero_solo_stratum.Stratum.Fates.{count_requests, count_results, held}
use monero_solo_stratum.Stratum.DrainedIds.{drain_submit_results-LiveIds}
use monero_solo_stratum.Stratum.LiveIds.{
  LiveIds, take_work-LiveIds, complete_work-LiveIds, close_connection-LiveIds,
}
use monero_solo_stratum.Stratum.Reading.{Received, read_ready}
use monero_solo_stratum.Stratum.ReadIds.{read_ready-LiveIds}
use monero_solo_stratum.Stratum.KeptIds.{
  write_ready-KeepsIds, set_connection-LiveIds, close_all-LiveIds, refresh_jobs_now-LiveIds,
}
use monero_solo_stratum.Stratum.Upkeep.{refresh_jobs_now, expired_of, close_expired}

-- What arrives is read from an open connection of a running server, where `input` is what no line has
-- taken before.
pub data LineStep (t : Responses) (config : StratumServerConfig) (J : Type 0) ⦃json : Json J⦄
    : Server StratumSubmission → Server StratumSubmission → Type 0 where
  reads :
      {s : Server StratumSubmission} (callbacks : Callbacks) (now index : ℕ)
      (answers : List Received) (input : List ℕ)
      → s.running ≡ true
      → (s.connections index).closing ≡ false
      → LineStep t config J s (read_ready t config J callbacks now index answers input s).server
  writes :
      {s : Server StratumSubmission} (index : ℕ) (answers : List (List ℕ → SendResult))
      → LineStep t config J s (set_connection index (write_ready answers (s.connections index)) s)
  takes :
      {s : Server StratumSubmission} (candidate_lane : Bool)
      → LineStep t config J s (take_work candidate_lane s)
  completes :
      {s : Server StratumSubmission} (before : List (PendingSubmit StratumSubmission))
      (work : PendingSubmit StratumSubmission) (after : List (PendingSubmit StratumSubmission))
      (disposition : ShareDisposition) (internal_code : List ℕ)
      → s.working ≡ before ++ work ∷ after
      → LineStep t config J s (complete_work before work after disposition internal_code s)
  drains : {s : Server StratumSubmission} → LineStep t config J s (drain_submit_results t config s)
  closes :
      {s : Server StratumSubmission} (index : ℕ)
      → LineStep t config J s (set_connection index (close_connection (s.connections index)) s)
  refreshes :
      {s : Server StratumSubmission} (jobs : Connection → JobAnswer) (active : List ℕ)
      → LineStep t config J s (refresh_jobs_now t config jobs active s)
  expires :
      {s : Server StratumSubmission} (banned : ℕ → Bool) (now : ℕ) (active : List ℕ)
      → LineStep t config J s (close_expired config banned now active s)

pub data LineSteps (t : Responses) (config : StratumServerConfig) (J : Type 0) ⦃json : Json J⦄
    : Server StratumSubmission → Server StratumSubmission → Type 0 where
  none_yet : {s : Server StratumSubmission} → LineSteps t config J s s
  followed_by :
      {a b c : Server StratumSubmission}
      → LineSteps t config J a b
      → LineStep t config J b c
      → LineSteps t config J a c

module _ (t : Responses) (config : StratumServerConfig) (J : Type 0) ⦃json : Json J⦄ where
  idle-LiveIds :
      (s : Server StratumSubmission)
      → IsIdle s
      → ((i : ℕ) → (s.connections i).live_request_ids ≡ [])
      → LiveIds [] s
  idle-LiveIds s idle no_ids up i live k = omega (
    arith,
    ap (λ (ids : List (List ℕ)). one_if (is_in k ids)) (no_ids i),
    ap (count_requests k i) idle.no_ordinary,
    ap (count_requests k i) idle.no_candidates,
    ap (count_requests k i) idle.no_working,
    ap (count_results k i) idle.no_completed,
  )

  close_expired-LiveIds :
      (banned : ℕ → Bool) (now : ℕ) (active : List ℕ) (s : Server StratumSubmission)
      → LiveIds [] s
      → LiveIds [] (close_expired config banned now active s)
  unfolding close_expired
  close_expired-LiveIds banned now active s inv =
      close_all-LiveIds (expired_of config banned now active s) s inv

  LineStep-LiveIds :
      (a b : Server StratumSubmission) → LineStep t config J a b → LiveIds [] a → LiveIds [] b
  LineStep-LiveIds a _ (reads callbacks now index answers input up live) inv =
      read_ready-LiveIds t config J callbacks now index answers input a up live inv
  LineStep-LiveIds a _ (writes index answers) inv =
      set_connection-LiveIds index (write_ready answers (a.connections index)) a
        (write_ready-KeepsIds answers (a.connections index)) inv
  LineStep-LiveIds a _ (takes candidate_lane) inv = take_work-LiveIds candidate_lane a inv
  LineStep-LiveIds a _ (completes before work after disposition internal_code e) inv =
      complete_work-LiveIds before work after disposition internal_code a e inv
  LineStep-LiveIds a _ drains inv = drain_submit_results-LiveIds t config a inv
  LineStep-LiveIds a _ (closes index) inv = close_connection-LiveIds index a inv
  LineStep-LiveIds a _ (refreshes jobs active) inv =
      refresh_jobs_now-LiveIds t config jobs active a inv
  LineStep-LiveIds a _ (expires banned now active) inv =
      close_expired-LiveIds banned now active a inv

  steps-LiveIds :
      (a s : Server StratumSubmission)
      → IsIdle a
      → ((i : ℕ) → (a.connections i).live_request_ids ≡ [])
      → LineSteps t config J a s
      → LiveIds [] s
  steps-LiveIds a _ idle no_ids none_yet = idle-LiveIds a idle no_ids
  steps-LiveIds a s idle no_ids (followed_by {b = b} steps step) =
      LineStep-LiveIds b s step (steps-LiveIds a b idle no_ids steps)

  -- From an idle server without live ids, after any reads from miners, writes, steps of the workers,
  -- answers, new jobs and closed or expired connections, while the server runs: the number of the
  -- submissions of an open connection with a given id that are queued, at a worker or waiting for
  -- their answer is 1 when the id is live, and 0 when it is not.
  pub live_ids_exact :
      (a s : Server StratumSubmission) (index : ℕ) (id : List ℕ)
      → IsIdle a
      → ((i : ℕ) → (a.connections i).live_request_ids ≡ [])
      → LineSteps t config J a s
      → s.running ≡ true
      → (s.connections index).closing ≡ false
      → one_if (is_in id (s.connections index).live_request_ids) ≡ held id index s
  live_ids_exact a s index id idle no_ids steps up live =
      omega (arith, steps-LiveIds a s idle no_ids steps up index live id)
