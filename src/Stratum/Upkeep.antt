-- ===== src/Stratum/Upkeep.antt =====
-- src/stratum/stratum.cpp: new jobs for the miners, and connections that are too old. The connections
-- of the table, in its order, are an argument. Times are in nanoseconds.
use monero_solo_stratum.Common.{
  ℕ, ◌+◌, ◌*◌, Bool, true, false, not, ◌||◌, Option, none, some, List, [], ◌∷◌, leb, if◌then◌else◌,
}
use monero_solo_stratum.Stratum.Targets.{wire_target}
use monero_solo_stratum.Stratum.Connections.{Connection, close_connection, queue, remember_job}
use monero_solo_stratum.Stratum.Config.{StratumServerConfig}
use monero_solo_stratum.Stratum.Submits.{
  StratumJob, JobAnswer, provided, unavailable, provider_failed, Responses, Server,
}
use monero_solo_stratum.Stratum.Requests.{set_connection, abort_connection}

module _ (t : Responses) (config : StratumServerConfig) where
  -- A job that was queued.
  abbrev pub notified : StratumJob → Connection × Bool → Connection
  notified job (c, false) = c
  notified job (c, true) =
      let known = remember_job job.job_id job.network_difficulty c in
      elim job.on_queued [ none ↦ known | some true ↦ known | some false ↦ close_connection known ]

  -- What the job provider answers for an authenticated connection; none when it throws.
  abbrev pub notify : JobAnswer → Connection → Option Connection
  notify provider_failed c = none
  notify unavailable c = some (close_connection c)
  notify (provided job) c = some (
      notified job (
        queue config.max_output_bytes_per_connection
          (t.job_notification job (wire_target job.target c.agent c.assigned_difficulty)) none
          (some job.height) c))

  unfoldable pub refresh_connection : (Connection → JobAnswer) → Connection → Option Connection
  unfolding queue remember_job close_connection
  refresh_connection jobs c = if not c.authenticated || c.closing then some c else notify (jobs c) c

  module _ {S : Type 0} where
    -- A connection of the table, and the rest of the loop. An exception of the job provider ends the
    -- event loop, and this loop with it.
    abbrev pub visited : ℕ → (Server S → Server S) → Option Connection → Server S → Server S
    visited index next none s = record s { running = false }
    visited index next (some c) s = next (set_connection index c s)

    unfoldable pub refresh_jobs_now : (Connection → JobAnswer) → List ℕ → Server S → Server S
    unfolding refresh_connection
    refresh_jobs_now jobs [] s = s
    refresh_jobs_now jobs (index ∷ active) s =
        let after =
          visited index (λ next. refresh_jobs_now jobs active next)
            (refresh_connection jobs (s.connections index)) s in
        if s.running then after else s

-- Whether the defense engine has a ban of the peer.
unfoldable pub is_expired : StratumServerConfig → (ℕ → Bool) → ℕ → Connection → Bool
is_expired config banned now c =
    let limit = if c.authenticated then config.idle_timeout_ms else config.login_timeout_ms in
    let since = if c.authenticated then c.last_activity else c.opened in
    banned c.peer || leb (since + limit * 1000000) now

module _ {S : Type 0} where
  -- The connections that have expired, in their order.
  unfoldable pub expired_of : StratumServerConfig → (ℕ → Bool) → ℕ → List ℕ → Server S → List ℕ
  unfolding is_expired
  expired_of config banned now [] s = []
  expired_of config banned now (index ∷ active) s =
      let rest = expired_of config banned now active s in
      if is_expired config banned now (s.connections index) then index ∷ rest else rest

  unfoldable pub close_all : List ℕ → Server S → Server S
  unfolding close_connection
  close_all [] s = s
  close_all (index ∷ expired) s = close_all expired (abort_connection index s)

  unfoldable pub close_expired : StratumServerConfig → (ℕ → Bool) → ℕ → List ℕ → Server S → Server S
  unfolding expired_of close_all
  close_expired config banned now active s = close_all (expired_of config banned now active s) s
