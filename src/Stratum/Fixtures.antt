-- ===== src/Stratum/Fixtures.antt =====
-- src/stratum/stratum.cpp: documents, a configuration and an idle server for concrete inputs.
use monero_solo_stratum.Common.{
  ℕ, zero, suc, Bool, true, false, ◌||◌, Option, none, some, List, [], ◌∷◌, if◌then◌else◌,
}
use monero_solo_stratum.Common.Text.{codes}
use monero_solo_stratum.Common.Map.{same_text}
use monero_solo_stratum.Stratum.Connections.{Connection}
use monero_solo_stratum.Stratum.Config.{StratumServerConfig}
use monero_solo_stratum.Stratum.Submits.{unavailable, Responses, Server}
use monero_solo_stratum.Stratum.Json.{Json, object_start, object_end, key}
use monero_solo_stratum.Stratum.Submission.{StratumSubmission, Callbacks}

-- {"id": 7, "method": method, "params": {"id": "ab", ...}}, where `submit` also has a job, a nonce and
-- a hash of zeros, and `login` a name and a password.
pub data Part : Type 0 where
  request : List ℕ → Part
  params : List ℕ → Part
  number : Part
  text : List ℕ → Part

abbrev pub zeros : ℕ → List ℕ
zeros zero = []
zeros (suc n) = b'0' ∷ zeros n

abbrev pub submit_member : List ℕ → Option Part
submit_member name =
    if same_text name (codes "job_id")
    then some (text (zeros 32))
    else if same_text name (codes "nonce")
    then some (text (zeros 8))
    else if same_text name (codes "result")
    then some (text (zeros 64))
    else none

abbrev pub members : Part → List ℕ → Option Part
members (request method) name =
    if same_text name (codes "id")
    then some number
    else if same_text name (codes "method")
    then some (text method)
    else if same_text name (codes "params")
    then some (params method)
    else none
members (params method) name =
    if same_text name (codes "id")
    then some (text (codes "ab"))
    else if same_text method (codes "submit")
    then submit_member name
    else if same_text method (codes "login")
    then (if same_text name (codes "login") || same_text name (codes "pass")
        then some (text name)
        else none)
    else none
members number name = none
members (text t) name = none

abbrev pub is_text : Part → Bool
is_text (text t) = true
is_text part = false

abbrev pub is_members : Part → Bool
is_members (request method) = true
is_members (params method) = true
is_members part = false

abbrev pub is_number : Part → Bool
is_number number = true
is_number part = false

abbrev pub text_of : Part → List ℕ
text_of (text t) = t
text_of part = []

abbrev pub names_of : Part → List (List ℕ)
names_of (request method) = codes "id" ∷ codes "method" ∷ codes "params" ∷ []
names_of (params method) =
    if same_text method (codes "submit")
    then codes "id" ∷ codes "job_id" ∷ codes "nonce" ∷ codes "result" ∷ []
    else if same_text method (codes "login")
    then codes "login" ∷ codes "pass" ∷ []
    else codes "id" ∷ []
names_of part = []

-- A line is the method alone.
instance abbrev pub part_json : Json Part
part_json = record {
  parse = λ line.
      some ((0, object_start) ∷ (1, key (codes "id")) ∷ (0, object_end) ∷ [], some (request line));
  find = λ name part. members part name;
  is_object = is_members;
  is_array = λ part. false;
  is_string = is_text;
  is_number_integer = is_number;
  is_number_unsigned = is_number;
  keys = names_of;
  elements = λ part. [];
  get_string = text_of;
  get_int64 = λ part. 7;
  get_uint64 = λ part. 7;
}

abbrev pub responses : Responses
responses = record {
  login_response = λ key id job target. codes "login";
  keepalive_response = λ key. codes "kept";
  job_notification = λ job target. codes "job";
  ok_response = λ key. codes "ok";
  error_response = λ key message. message;
}

abbrev pub config : StratumServerConfig
config = record {
  listen = codes "0.0.0.0:3333" ∷ [];
  access_password = [];
  max_connections = 8;
  max_connections_per_ip = 4;
  login_timeout_ms = 10000;
  idle_timeout_ms = 300000;
  max_line_bytes = 16384;
  max_output_bytes_per_connection = 65536;
  max_json_depth = 32;
  difficulty_floor = 1000;
  minimum_difficulty = true;
  submit_workers = 4;
  candidate_submit_workers = 1;
  max_pending_submits = 2;
  candidate_submit_reserve = 1;
  max_pending_submits_per_connection = 2;
}

abbrev pub miner : Connection
miner = record {
  descriptor = some 7;
  public_id = codes "ab";
  peer = 1;
  login = codes "worker";
  rigid = [];
  agent = [];
  assigned_difficulty = 1000;
  authenticated = true;
  last_sent_height = 0;
  request_sequence = 0;
  closing = false;
  close_after_flush = false;
  close_after_flush_reason = [];
  uncreditable_work_results = 0;
  output = [];
  output_bytes = 0;
  sent_bytes = [];
  live_request_ids = [];
  job_network_difficulties = [];
  job_difficulty_order = [];
  pending_submits = 0;
  latest_queued_height = 0;
  opened = 0;
  last_activity = 0;
}

abbrev pub idle_server : Server StratumSubmission
idle_server = record {
  running = true;
  connections = λ index. miner;
  pending_submits = [];
  pending_candidate_submits = [];
  working = [];
  completed_submits = [];
  recorded = some [];
}

abbrev pub callbacks : Callbacks
callbacks = record {
  admit_request = λ peer. true;
  admit_submit = λ peer. true;
  jobs = λ c. unavailable;
  resolver = none;
}
