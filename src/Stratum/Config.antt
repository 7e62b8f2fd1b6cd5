-- ===== src/Stratum/Config.antt =====
-- src/stratum/stratum.cpp: the server's configuration and the constructor's checks of it.
use monero_solo_stratum.Common.{
  ℕ, min, max, Bool, not, ◌||◌, Option, none, some, List, ltb, ◌==◌, if◌then◌else◌, length,
}

pub record StratumServerConfig : Type 0 where
  pub listen : List (List ℕ)
  pub access_password : List ℕ
  pub max_connections : ℕ
  pub max_connections_per_ip : ℕ
  pub login_timeout_ms : ℕ
  pub idle_timeout_ms : ℕ
  pub max_line_bytes : ℕ
  pub max_output_bytes_per_connection : ℕ
  pub max_json_depth : ℕ
  pub difficulty_floor : ℕ
  pub minimum_difficulty : Bool
  pub submit_workers : ℕ
  pub candidate_submit_workers : ℕ
  pub max_pending_submits : ℕ
  pub candidate_submit_reserve : ℕ
  pub max_pending_submits_per_connection : ℕ

abbrev pub clamp : ℕ → ℕ → ℕ → ℕ
clamp value low high = min high (max low value)

abbrev pub is_unusable : Bool → Bool → StratumServerConfig → Bool
is_unusable jobs submits c =
    length c.listen == 0
    || not jobs
    || not submits
    || c.max_connections == 0
    || c.max_connections_per_ip == 0
    || ltb c.max_line_bytes 1024
    || ltb c.max_output_bytes_per_connection 4096
    || c.difficulty_floor == 0
    || c.max_pending_submits == 0
    || c.max_pending_submits_per_connection == 0

abbrev pub adjusted : StratumServerConfig → StratumServerConfig
adjusted c = record c {
  submit_workers = clamp c.submit_workers 1 256;
  candidate_submit_workers = clamp c.candidate_submit_workers 1 16;
  candidate_submit_reserve = min c.candidate_submit_reserve c.max_pending_submits;
  max_pending_submits_per_connection =
      min c.max_pending_submits_per_connection c.max_pending_submits;
}

-- The constructor's checks and adjustments, by the presence of the callbacks. `none` is the exception.
unfoldable pub make_config : Bool → Bool → StratumServerConfig → Option StratumServerConfig
make_config jobs submits c = if is_unusable jobs submits c then none else some (adjusted c)
