-- ===== src/Events/Examples.antt =====
-- The event stream at concrete calls.
use monero_solo_stratum.Common.{
  ℕ, ◌≡◌, ◌≢◌, ◌≤◌, refl, true, false, none, some, List, [], ◌∷◌, All, length,
}
use monero_solo_stratum.Common.Text.{codes}
use monero_solo_stratum.Events.{
  EventStream, EventStreamConfig, System, missing, found, Poll, takes, blocks, accepted,
  interrupted, start, publish_committed, accept_clients, service_clients, control_frame, terminated,
  make_event_stream,
}
use monero_solo_stratum.Events.Lifecycle.{StartResult, start-StartResult, start-foreign}
use monero_solo_stratum.Events.Queues.{IsQueued}
use monero_solo_stratum.Events.Feed.{
  Call, publishes, accepts, services, run, feed_all, last_id, Ascends,
}
use monero_solo_stratum.Events.Streams.{Follows, feed_of, run-start-Follows, run-start-IsQueued}

abbrev config : EventStreamConfig
config = record {
  unix_socket = codes "/run/events";
  permissions = 0o660;
  max_clients = 2;
  max_pending_bytes_per_client = 4096;
}

abbrev session : List ℕ
session = codes "0123456789abcdef0123456789abcdef"

abbrev stopped : EventStream
stopped = record {
  config = config;
  session_public_id = session;
  listener = none;
  owns_socket_path = false;
  running = false;
  high_watermark = 0;
  clients = [];
}

stopped_made : make_event_stream config session ≡ some stopped
unfolding make_event_stream
stopped_made = refl

abbrev sys : System
sys = record {
  euid = 1000;
  unlinks_stale = true;
  unlinks_own = true;
  socket = some 3;
  binds = true;
  chmods = true;
  listens = true;
  nonblocks = true;
  starts_thread = true;
}

starts : (start 6 sys stopped (found true 1000)).2 ≡ none
unfolding start
starts = refl

-- The kernel takes a few bytes, then no more.
abbrev slow : ℕ → Poll
slow number = record {
  failed = false;
  readable = false;
  writable = true;
  sends = takes 50 ∷ takes 9 ∷ blocks ∷ [];
}

abbrev calls : List Call
calls =
    accepts (interrupted ∷ accepted 5 (codes "noon") ∷ [])
    ∷ publishes 7 (codes "seven")
    ∷ services slow
    ∷ publishes 7 (codes "again")
    ∷ accepts (accepted 6 (codes "one") ∷ accepted 7 (codes "one") ∷ [])
    ∷ publishes 9 (codes "nine\n")
    ∷ []

feed_seen : (feed_of 6 calls).log ≡ (7, codes "seven\n") ∷ (9, codes "nine\n") ∷ []
unfolding feed_all terminated
feed_seen = refl

two_clients : length (run calls (start 6 sys stopped missing).0).clients ≡ 2
unfolding run start publish_committed accept_clients service_clients control_frame
two_clients = refl

run-start-Follows_example :
    let t = run calls (start 6 sys stopped (found true 1000)).0 in
    let log = (feed_of 6 calls).log in
    Ascends 6 log
    × (t.high_watermark ≡ last_id 6 log)
    × All (Follows t.session_public_id 6 log) t.clients
run-start-Follows_example = run-start-Follows 6 sys stopped (found true 1000) calls refl refl starts

run-start-IsQueued_example :
    let t = run calls (start 6 sys stopped (found true 1000)).0 in
    (length t.clients ≤ t.config.max_clients)
    × All (IsQueued t.config.max_pending_bytes_per_client) t.clients
run-start-IsQueued_example =
    run-start-IsQueued 6 sys stopped (found true 1000) calls refl refl starts

start-StartResult_example :
    let r = start 6 sys stopped (found true 1000) in StartResult 6 sys stopped r.0 r.1 r.2
start-StartResult_example = start-StartResult 6 sys stopped (found true 1000) refl

start-foreign_example :
    let r = start 6 sys stopped (found true 0) in (r.2 ≢ none) × (r.1 ≡ found true 0)
start-foreign_example = start-foreign 6 sys stopped true 0 refl refl refl
