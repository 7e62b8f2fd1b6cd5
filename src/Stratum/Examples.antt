-- ===== src/Stratum/Examples.antt =====
-- src/stratum/stratum.cpp: the Stratum server on concrete inputs.
use monero_solo_stratum.Common.{
  ℕ, ◌+◌, ◌/◌, ◌≤◌, ◌≡◌, refl, true, false, none, some, List, [], ◌∷◌, ◌++◌, length, arith,
}
use monero_solo_stratum.Common.Text.{codes}
use monero_solo_stratum.Stratum.Targets.{
  u32_max, at_least, is_nicehash_agent, login_difficulty, wire_target, compact_target_hex,
}
use monero_solo_stratum.Stratum.Difficulty.{login_difficulty-wire_target}
use monero_solo_stratum.Stratum.Connections.{Connection, SendResult, sent, write_ready}
use monero_solo_stratum.Stratum.Sending.{IsHonest, Sending, write_ready-Sending}
use monero_solo_stratum.Stratum.Config.{StratumServerConfig, make_config, adjusted}
use monero_solo_stratum.Stratum.Submits.{Responses, Server, admit_pending}
use monero_solo_stratum.Common.Map.{nat_eq, lookup}
use monero_solo_stratum.Stratum.Peers.{Tables, accept_connection}
use monero_solo_stratum.Stratum.PeerCounts.{PeersInv}
use monero_solo_stratum.Stratum.PeerHistories.{
  accepts, none_yet, followed_by, no_connections, steps-PeersInv,
}
use monero_solo_stratum.Stratum.Connections.{remember_job}
use monero_solo_stratum.Stratum.JobMemory.{IsRemembering, Kept, remember_job-Kept}
use monero_solo_stratum.Stratum.SubmitCounts.{SubmitInv}
use monero_solo_stratum.Stratum.SubmitHistories.{
  admits, Steps, done, and_then, IsIdle, steps-SubmitInv, admit_pending-candidate,
}

abbrev agent : List ℕ
agent = codes "NiceHash/1.0"

login_difficulty-wire_target_example :
    at_least 1000 (some 3000000) ≤ 3001374
    × ((t : ℕ) × (wire_target (codes "ffff") agent 3001374
          ≡ record { value = compact_target_hex t; encoding = codes "le32" })
        × (3001374 ≡ u32_max / t))
unfolding login_difficulty is_nicehash_agent
login_difficulty-wire_target_example =
    login_difficulty-wire_target 1000 (some 3000000) agent (codes "ffff") 3001374 (omega arith) refl
      refl

abbrev new_connection : Connection
new_connection = record {
  descriptor = some 7;
  public_id = codes "ab";
  peer = 1;
  login = [];
  rigid = [];
  agent = [];
  assigned_difficulty = 0;
  authenticated = false;
  last_sent_height = 0;
  request_sequence = 0;
  closing = false;
  close_after_flush = false;
  close_after_flush_reason = [];
  uncreditable_work_results = 0;
  output = [];
  output_bytes = 0;
  sent_bytes = [];
  live_request_ids = codes "i:3" ∷ [];
  job_network_difficulties = [];
  job_difficulty_order = [];
  pending_submits = 0;
  latest_queued_height = 0;
  opened = 0;
  last_activity = 0;
}

-- Two chunks, one byte of the first is sent.
abbrev writing : Connection
writing = record new_connection {
  output =
      record { text = codes "abc"; offset = 1 } ∷ record { text = codes "de"; offset = 0 } ∷ [];
  output_bytes = 4;
}

abbrev sends_all : List ℕ → SendResult
sends_all text = sent (length text)

sends_all-IsHonest : IsHonest sends_all
sends_all-IsHonest text n e = ground arith

write_ready-Sending_example : Sending 4096 writing (write_ready (sends_all ∷ []) writing)
write_ready-Sending_example =
    write_ready-Sending 4096 (ground arith) (sends_all ∷ []) writing (sends_all-IsHonest, tt)
      (refl, omega arith)

abbrev responses : Responses
responses = record {
  login_response = λ key id job target. codes "login";
  keepalive_response = λ key. codes "kept";
  job_notification = λ job target. codes "job";
  ok_response = λ key. codes "ok";
  error_response = λ key message. message;
}

-- One ordinary submission fills the ordinary lane.
abbrev given : StratumServerConfig
given = record {
  listen = codes "0.0.0.0:3333" ∷ [];
  access_password = [];
  max_connections = 8;
  max_connections_per_ip = 4;
  login_timeout_ms = 10000;
  idle_timeout_ms = 300000;
  max_line_bytes = 16384;
  max_output_bytes_per_connection = 65536;
  max_json_depth = 32;
  difficulty_floor = 1000;
  minimum_difficulty = true;
  submit_workers = 4;
  candidate_submit_workers = 1;
  max_pending_submits = 2;
  candidate_submit_reserve = 1;
  max_pending_submits_per_connection = 8;
}

abbrev idle_server : Server ℕ
idle_server = record {
  running = true;
  connections = λ id. new_connection;
  pending_submits = [];
  pending_candidate_submits = [];
  working = [];
  completed_submits = [];
  recorded = none;
}

idle_server-IsIdle : IsIdle idle_server
idle_server-IsIdle = record {
  no_counts = λ id. refl;
  no_ordinary = refl;
  no_candidates = refl;
  no_working = refl;
  no_completed = refl;
}

abbrev one_pending : Server ℕ
one_pending = admit_pending responses (adjusted given) false 5 (codes "i:3") 99 idle_server

abbrev admitted_steps : Steps responses (adjusted given) idle_server one_pending
admitted_steps = and_then done (admits false 5 (codes "i:3") 99)

steps-SubmitInv_example : SubmitInv (adjusted given) [] one_pending
steps-SubmitInv_example =
    steps-SubmitInv responses (adjusted given) idle_server one_pending idle_server-IsIdle
      admitted_steps

given_made : make_config true true given ≡ some (adjusted given)
unfolding make_config
given_made = refl

admit_pending-candidate_example :
    (admit_pending responses
      (adjusted given)
      true
      5
      (codes "i:4")
      100
      one_pending).pending_candidate_submits
    ≡ one_pending.pending_candidate_submits
      ++ record {
        connection = 5;
        request_sequence = (one_pending.connections 5).request_sequence + 1;
        submission = 100;
        request_key = codes "i:4";
      }
        ∷ []
unfolding admit_pending
admit_pending-candidate_example =
    admit_pending-candidate responses (adjusted given) true true given idle_server one_pending 5
      (codes "i:4") 100 given_made idle_server-IsIdle admitted_steps refl (omega arith)
      (omega arith)

abbrev one_open : Tables
one_open = accept_connection 8 4 false 7 1 no_connections

no_descriptor : lookup 7 no_connections.open_connections ≡ none
unfolding lookup
no_descriptor = refl

steps-PeersInv_example : PeersInv 8 4 one_open
steps-PeersInv_example =
    steps-PeersInv 8 4 (omega arith) one_open
      (followed_by none_yet (accepts false 7 1 no_descriptor))

new_connection-IsRemembering : IsRemembering new_connection
unfolding lookup
new_connection-IsRemembering = (record { distinct = tt; same = λ id. refl }, omega arith)

remember_job-Kept_example : Kept (codes "0c") (codes "1000") (
  (remember_job (codes "0c") (codes "1000") new_connection).job_difficulty_order,
  (remember_job (codes "0c") (codes "1000") new_connection).job_network_difficulties,
)
remember_job-Kept_example =
    remember_job-Kept (codes "0c") b'1' (codes "000") new_connection new_connection-IsRemembering
