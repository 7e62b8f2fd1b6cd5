-- ===== src/Stratum/UpkeepExamples.antt =====
-- src/stratum/stratum.cpp: new jobs and expired connections on concrete inputs.
use monero_solo_stratum.Common.{◌≡◌, refl, true, false, some, [], ◌∷◌, arith}
use monero_solo_stratum.Common.Map.{lookup}
use monero_solo_stratum.Common.Text.{codes}
use monero_solo_stratum.Stratum.Connections.{close_connection}
use monero_solo_stratum.Stratum.Submits.{StratumJob, provided, provider_failed}
use monero_solo_stratum.Stratum.JobMemory.{IsRemembering}
use monero_solo_stratum.Stratum.Upkeep.{refresh_connection, refresh_jobs_now, close_expired}
use monero_solo_stratum.Stratum.RefreshLoop.{RefreshResult, refresh_jobs_now-RefreshResult}
use monero_solo_stratum.Stratum.Expired.{close_expired_exact}
use monero_solo_stratum.Stratum.Fixtures.{responses, config, miner, idle_server}

abbrev job : StratumJob
job = record {
  blob = codes "00";
  job_id = codes "j1";
  target = codes "ffff";
  seed_hash = codes "11";
  height = 12;
  on_queued = some true;
  network_difficulty = codes "1000";
}

-- Nothing is remembered yet.
miner-IsRemembering : IsRemembering miner
unfolding lookup
miner-IsRemembering = (record { distinct = tt; same = λ id. refl }, omega arith)

refresh_jobs_now-RefreshResult_example :
    RefreshResult responses config
      (λ c. provided job)
      (3 ∷ 0 ∷ [])
      idle_server
      (refresh_jobs_now responses config (λ c. provided job) (3 ∷ 0 ∷ []) idle_server)
refresh_jobs_now-RefreshResult_example =
    refresh_jobs_now-RefreshResult responses config (λ c. provided job) (3 ∷ 0 ∷ []) idle_server
      refl (refl, (refl, tt)) (λ index member. miner-IsRemembering)

-- The provider throws for the first of them.
refresh_stopped :
    (refresh_jobs_now responses config (λ c. provider_failed) (3 ∷ 0 ∷ []) idle_server).running
    ≡ false
unfolding refresh_jobs_now refresh_connection
refresh_stopped = refl

-- The miners were last active at 0, and 300 seconds have passed.
close_expired_exact_example :
    (close_expired config (λ peer. false) 300000000000 (3 ∷ 0 ∷ []) idle_server).connections 0
    ≡ close_connection miner
close_expired_exact_example =
    close_expired_exact config (λ peer. false) 300000000000 (3 ∷ 0 ∷ []) idle_server 0
