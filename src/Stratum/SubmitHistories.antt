-- ===== src/Stratum/SubmitHistories.antt =====
-- src/stratum/stratum.cpp: any run of the event loop and the workers on the submissions' queues.
use monero_solo_stratum.Common.{
  ℕ, ◌+◌, ◌≤◌, ◌<◌, ◌≡◌, refl, ap, Bool, true, false, some, List, [], ◌∷◌, ◌++◌, length, arith,
}
use monero_solo_stratum.Stratum.Targets.{ShareDisposition}
use monero_solo_stratum.Stratum.Connections.{close_connection}
use monero_solo_stratum.Stratum.Config.{StratumServerConfig, make_config}
use monero_solo_stratum.Stratum.Submits.{
  Responses, PendingSubmit, Server, update, drain_submit_results, is_busy, admit_pending, take_work,
  complete_work,
}
use monero_solo_stratum.Stratum.SubmitCounts.{count_of, count_done, SubmitInv}
use monero_solo_stratum.Stratum.Settings.{make_config-IsUsable}
use monero_solo_stratum.Stratum.Admission.{admit_pending-Inv}
use monero_solo_stratum.Stratum.SubmitSteps.{
  drain_submit_results-Inv, take_work-Inv, complete_work-Inv, close_connection-Inv,
}

-- The steps of the event loop and of the workers, in any order.
pub data Step {S : Type 0} (t : Responses) (config : StratumServerConfig)
    : Server S → Server S → Type 0 where
  admits :
      {s : Server S} (claimed : Bool) (id : ℕ) (key : List ℕ) (submission : S)
      → Step t config s (admit_pending t config claimed id key submission s)
  takes : {s : Server S} (candidate_lane : Bool) → Step t config s (take_work candidate_lane s)
  completes :
      {s : Server S} (before : List (PendingSubmit S)) (work : PendingSubmit S)
      (after : List (PendingSubmit S)) (disposition : ShareDisposition) (internal_code : List ℕ)
      → s.working ≡ before ++ work ∷ after
      → Step t config s (complete_work before work after disposition internal_code s)
  drains : {s : Server S} → Step t config s (drain_submit_results t config s)
  closes :
      {s : Server S} (id : ℕ)
      → Step t config s
          (record s { connections = update s.connections id (close_connection (s.connections id)) })

pub data Steps {S : Type 0} (t : Responses) (config : StratumServerConfig)
    : Server S → Server S → Type 0 where
  done : {s : Server S} → Steps t config s s
  and_then : {a b c : Server S} → Steps t config a b → Step t config b c → Steps t config a c

-- No submission is queued, at a worker or answered.
pub record IsIdle {S : Type 0} (s : Server S) : Type 0 where
  pub no_counts : (id : ℕ) → (s.connections id).pending_submits ≡ 0
  pub no_ordinary : s.pending_submits ≡ []
  pub no_candidates : s.pending_candidate_submits ≡ []
  pub no_working : s.working ≡ []
  pub no_completed : s.completed_submits ≡ []

module _ {S : Type 0} (t : Responses) (config : StratumServerConfig) where
  idle-Inv : (s : Server S) → IsIdle s → SubmitInv config [] s
  idle-Inv s idle = record {
    counted = λ id live. omega (
      arith,
      idle.no_counts id,
      ap (count_of id) idle.no_ordinary,
      ap (count_of id) idle.no_candidates,
      ap (count_of id) idle.no_working,
      ap (count_done id) idle.no_completed,
    );
    limited = λ id. omega (arith, idle.no_counts id);
    ordinary_fit = omega (arith, ap length idle.no_ordinary);
    all_fit = omega (arith, ap length idle.no_ordinary, ap length idle.no_candidates);
  }

  Step-Inv : (a b : Server S) → Step t config a b → SubmitInv config [] a → SubmitInv config [] b
  Step-Inv a _ (admits claimed id key submission) inv =
      admit_pending-Inv t config claimed id key submission a inv
  Step-Inv a _ (takes candidate_lane) inv = take_work-Inv t config candidate_lane a inv
  Step-Inv a _ (completes before work after disposition internal_code e) inv =
      complete_work-Inv t config before work after disposition internal_code a e inv
  Step-Inv a _ drains inv = drain_submit_results-Inv t config a inv
  Step-Inv a _ (closes id) inv = close_connection-Inv t config id a inv

  -- From an idle server, after any steps of the event loop and the workers: the count of an open
  -- connection is the number of its submissions that are queued, at a worker or answered and not yet
  -- sent, no connection has more than its limit, ordinary submissions leave the candidates' reserve
  -- free, and both lanes together hold at most the configured number.
  pub steps-SubmitInv : (a b : Server S) → IsIdle a → Steps t config a b → SubmitInv config [] b
  steps-SubmitInv a _ idle done = idle-Inv a idle
  steps-SubmitInv a c idle (and_then {b = b} steps step) =
      Step-Inv b c step (steps-SubmitInv a b idle steps)

  not_busy :
      (s : Server S) (id : ℕ)
      → config.candidate_submit_reserve ≤ config.max_pending_submits
      → SubmitInv config [] s
      → length s.pending_candidate_submits < config.candidate_submit_reserve
      → (s.connections id).pending_submits < config.max_pending_submits_per_connection
      → is_busy t config true (s.connections id) s ≡ false
  not_busy s id reserve inv few room = ground (arith, inv.ordinary_fit)

  -- With a configuration that the constructor made, after any steps from an idle server: while fewer
  -- candidates wait than the reserve, a running server puts a claimed candidate of a connection below
  -- its own limit at the end of the candidates' lane with the connection's next sequence number,
  -- whatever number of ordinary submissions is pending.
  pub admit_pending-candidate :
      (jobs submits : Bool) (given : StratumServerConfig) (a s : Server S) (id : ℕ) (key : List ℕ)
      (submission : S)
      → make_config jobs submits given ≡ some config
      → IsIdle a
      → Steps t config a s
      → s.running ≡ true
      → length s.pending_candidate_submits < config.candidate_submit_reserve
      → (s.connections id).pending_submits < config.max_pending_submits_per_connection
      → (admit_pending t config true id key submission s).pending_candidate_submits
        ≡ s.pending_candidate_submits
          ++ record {
            connection = id;
            request_sequence = (s.connections id).request_sequence + 1;
            submission = submission;
            request_key = key;
          }
            ∷ []
  unfolding admit_pending
  admit_pending-candidate jobs submits given a s id key submission made idle steps up few room =
      let inv = steps-SubmitInv a s idle steps in
      let free =
        not_busy s id (make_config-IsUsable jobs submits given config made).reserve_fits inv few
          room in
      simp (up, free) refl
