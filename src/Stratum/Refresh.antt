-- ===== src/Stratum/Refresh.antt =====
-- src/stratum/stratum.cpp: a new job for a miner.
use monero_solo_stratum.Common.{
  ℕ, ◌+◌, ◌-◌, ◌≡◌, ◌⊎◌, inl, inr, refl, sym, ◌∙◌, ap, subst, some_injective, Bool, true, false,
  not, ◌&&◌, ◌||◌, Option, none, some, List, [], ◌∷◌, ◌++◌, ltb, if◌then◌else◌, length, arith,
}
use monero_solo_stratum.Common.Map.{text_eq, lookup}
use monero_solo_stratum.Stratum.Targets.{wire_target}
use monero_solo_stratum.Stratum.Connections.{Connection, close_connection, queue, remember_job}
use monero_solo_stratum.Stratum.Config.{StratumServerConfig}
use monero_solo_stratum.Stratum.Submits.{
  StratumJob, JobAnswer, provided, unavailable, provider_failed, Responses,
}
use monero_solo_stratum.Stratum.JobMemory.{IsRemembering, remember_job-Kept}
use monero_solo_stratum.Stratum.Upkeep.{notified, notify, refresh_connection}

module _ (t : Responses) (config : StratumServerConfig) where
  abbrev pub notification : Connection → StratumJob → List ℕ
  notification c job = t.job_notification job (wire_target job.target c.agent c.assigned_difficulty)

  -- The job, as the connection has it.
  pub record HasJob (job : StratumJob) (c d : Connection) : Type 0 where
    pub output : d.output ≡ c.output ++ record { text = notification c job; offset = 0 } ∷ []
    pub sent_height : d.last_sent_height ≡ job.height
    pub queued_height : d.latest_queued_height ≡ job.height
    pub ids : d.live_request_ids ≡ c.live_request_ids
    pub known :
        (job.network_difficulty ≡ [])
        ⊎ (lookup job.job_id d.job_network_difficulties ≡ some job.network_difficulty)
    pub remembering : IsRemembering d

  abbrev pub no_room : Connection → StratumJob → Bool
  no_room c job =
      ltb config.max_output_bytes_per_connection (length (notification c job))
      || ltb (config.max_output_bytes_per_connection - length (notification c job)) c.output_bytes

  -- Whether a connection that has its turn, or has not, is asked a job for.
  abbrev pub is_due : Bool → Connection → Bool
  is_due in_turn c = in_turn && c.authenticated && not c.closing

  -- What becomes of a connection that has its turn, or has not.
  pub data IsRefreshed (jobs : Connection → JobAnswer) (in_turn : Bool) (c d : Connection)
      : Type 0 where
    skipped : is_due in_turn c ≡ false → d ≡ c → IsRefreshed jobs in_turn c d
    no_job :
        is_due in_turn c ≡ true
        → jobs c ≡ unavailable
        → d ≡ close_connection c
        → IsRefreshed jobs in_turn c d
    full :
        (job : StratumJob)
        → is_due in_turn c ≡ true
        → jobs c ≡ provided job
        → no_room c job ≡ true
        → d ≡ close_connection c
        → IsRefreshed jobs in_turn c d
    callback_failed :
        (job : StratumJob)
        → is_due in_turn c ≡ true
        → jobs c ≡ provided job
        → job.on_queued ≡ some false
        → (had : Connection) → HasJob job c had
        → d ≡ close_connection had
        → IsRefreshed jobs in_turn c d
    informed :
        (job : StratumJob)
        → is_due in_turn c ≡ true
        → jobs c ≡ provided job
        → HasJob job c d
        → IsRefreshed jobs in_turn c d

  remembered :
      (job : StratumJob) (c d : Connection)
      → d.output ≡ c.output ++ record { text = notification c job; offset = 0 } ∷ []
      → d.last_sent_height ≡ job.height
      → d.latest_queued_height ≡ job.height
      → d.live_request_ids ≡ c.live_request_ids
      → IsRemembering d
      → HasJob job c (remember_job job.job_id job.network_difficulty d)
  unfolding remember_job
  remembered job c d output sent queued ids inv = go job.network_difficulty refl
    where
      go :
          (difficulty : List ℕ)
          → job.network_difficulty ≡ difficulty
          → HasJob job c (remember_job job.job_id difficulty d)
      go [] e = record {
        output = output;
        sent_height = sent;
        queued_height = queued;
        ids = ids;
        known = inl e;
        remembering = inv;
      }
      go (b ∷ bs) e =
          let kept = remember_job-Kept job.job_id b bs d inv in
          record {
            output = output;
            sent_height = sent;
            queued_height = queued;
            ids = ids;
            known = inr (kept.found ∙ ap (λ (x : List ℕ). some x) (sym e));
            remembering = (kept.jobs, kept.few);
          }

  notified-IsRefreshed :
      (jobs : Connection → JobAnswer) (job : StratumJob) (c d : Connection)
      → is_due true c ≡ true
      → jobs c ≡ provided job
      → HasJob job c (remember_job job.job_id job.network_difficulty d)
      → IsRefreshed jobs true c (notified t config job (d, true))
  notified-IsRefreshed jobs job c d due e h = go job.on_queued refl
    where
      known : Connection
      known = remember_job job.job_id job.network_difficulty d

      go :
          (called : Option Bool)
          → job.on_queued ≡ called
          → IsRefreshed jobs true c (elim called [
            | none ↦ known
            | some true ↦ known
            | some false ↦ close_connection known
          ])
      go none q = informed job due e h
      go (some true) q = informed job due e h
      go (some false) q = callback_failed job due e q known h refl

  queued-IsRefreshed :
      (jobs : Connection → JobAnswer) (job : StratumJob) (c added : Connection)
      → is_due true c ≡ true
      → jobs c ≡ provided job
      → HasJob job c (remember_job job.job_id job.network_difficulty added)
      → IsRefreshed jobs true c (
          notified t config job (
            if c.closing
              || ltb config.max_output_bytes_per_connection (length (notification c job))
              || ltb
                  (config.max_output_bytes_per_connection - length (notification c job))
                  c.output_bytes
            then (close_connection c, false)
            else (added, true)))
  queued-IsRefreshed jobs job c added due e h = go c.closing _ _ refl refl
    where
      go :
          (shut long crowded : Bool)
          → c.closing ≡ shut
          → no_room c job ≡ (long || crowded)
          → IsRefreshed jobs true c (
              notified t config job
                (if shut || long || crowded then (close_connection c, false) else (added, true)))
      go true long crowded p q = absurd (ground arith)
      go false true crowded p q = full job due e q refl
      go false false true p q = full job due e q refl
      go false false false p q = notified-IsRefreshed jobs job c added due e h

  notify-IsRefreshed :
      (jobs : Connection → JobAnswer) (c d : Connection)
      → is_due true c ≡ true
      → IsRemembering c
      → notify t config (jobs c) c ≡ some d
      → IsRefreshed jobs true c d
  unfolding queue
  notify-IsRefreshed jobs c d due inv h = go (jobs c) refl h
    where
      go :
          (answer : JobAnswer)
          → jobs c ≡ answer
          → notify t config answer c ≡ some d
          → IsRefreshed jobs true c d
      go provider_failed e h = absurd (ground arith)
      go unavailable e h = no_job due e (sym (some_injective h))
      go (provided job) e h =
          let added : Connection = record c {
            output_bytes = c.output_bytes + length (notification c job);
            output = c.output ++ record { text = notification c job; offset = 0 } ∷ [];
            last_sent_height = job.height;
            latest_queued_height = job.height;
          } in
          subst (IsRefreshed jobs true c) (some_injective h) (
            queued-IsRefreshed jobs job c added due e
              (remembered job c added refl refl refl refl inv))

  -- The connection has its turn.
  pub refresh_connection-IsRefreshed :
      (jobs : Connection → JobAnswer) (c d : Connection)
      → IsRemembering c
      → refresh_connection t config jobs c ≡ some d
      → IsRefreshed jobs true c d
  unfolding refresh_connection
  refresh_connection-IsRefreshed jobs c d inv h = go c.authenticated c.closing refl refl h
    where
      go :
          (known shut : Bool)
          → c.authenticated ≡ known
          → c.closing ≡ shut
          → (if not known || shut then some c else notify t config (jobs c) c) ≡ some d
          → IsRefreshed jobs true c d
      go false shut e q h = skipped (ground arith) (sym (some_injective h))
      go true true e q h = skipped (ground arith) (sym (some_injective h))
      go true false e q h = notify-IsRefreshed jobs c d (ground arith) inv h

  -- The provider threw.
  pub refresh_connection-throws :
      (jobs : Connection → JobAnswer) (c : Connection)
      → refresh_connection t config jobs c ≡ none
      → (is_due true c ≡ true) × (jobs c ≡ provider_failed)
  unfolding refresh_connection
  refresh_connection-throws jobs c h = go c.authenticated c.closing (jobs c) refl refl refl h
    where
      go :
          (known shut : Bool) (answer : JobAnswer)
          → c.authenticated ≡ known
          → c.closing ≡ shut
          → jobs c ≡ answer
          → (if not known || shut then some c else notify t config answer c) ≡ none
          → (is_due true c ≡ true) × (jobs c ≡ provider_failed)
      go false shut answer e q a h = absurd (ground arith)
      go true true answer e q a h = absurd (ground arith)
      go true false provider_failed e q a h = (ground arith, a)
      go true false unavailable e q a h = absurd (ground arith)
      go true false (provided job) e q a h = absurd (ground arith)
