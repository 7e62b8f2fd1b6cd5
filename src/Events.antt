-- ===== src/Events.antt =====
-- src/events/event_stream.cpp, with its header in include/monero_solo/: the socket on which local
-- subscribers follow the committed events. Texts and frames are lists of bytes.
mod Walk
pub mod Lifecycle
pub mod Feed
pub mod Queues
pub mod Streams
mod Examples
use Prim.Native.Nat.{bit_and}
use monero_solo_stratum.Common.{
  ℕ, zero, suc, ◌+◌, ◌-◌, min, Bool, true, false, not, ◌&&◌, ◌||◌, Option, none, some, List, [],
  ◌∷◌, ◌++◌, ltb, leb, ◌==◌, if◌then◌else◌, length, get_elem?, set, take, drop, back?, pop_back,
}
use monero_solo_stratum.Common.Text.{codes, to_string}

pub record EventStreamConfig : Type 0 where
  pub unix_socket : List ℕ
  pub permissions : ℕ
  pub max_clients : ℕ
  pub max_pending_bytes_per_client : ℕ

-- A connected descriptor: its number, and the bytes that the kernel has taken for the peer.
pub record Socket : Type 0 where
  pub number : ℕ
  pub received : List ℕ

pub record Client : Type 0 where
  pub descriptor : Socket
  pub output : List (List ℕ)
  pub front_offset : ℕ
  pub pending_bytes : ℕ

pub record EventStream : Type 0 where
  pub config : EventStreamConfig
  pub session_public_id : List ℕ
  pub listener : Option ℕ
  pub owns_socket_path : Bool
  pub running : Bool
  pub high_watermark : ℕ
  pub clients : List Client

abbrev pub starts_with_slash : List ℕ → Bool
starts_with_slash [] = false
starts_with_slash (c ∷ rest) = c == b'/'

-- The constructor; `none` is `std::invalid_argument`.
unfoldable pub make_event_stream : EventStreamConfig → List ℕ → Option EventStream
make_event_stream config session =
    if not (starts_with_slash config.unix_socket)
      || config.max_clients == 0
      || ltb config.max_pending_bytes_per_client 4096
      || not (length session == 32)
    then none
    else if not (bit_and config.permissions 0o007 == 0)
        || not (bit_and config.permissions 0o111 == 0)
    then none
    else some (record {
      config = config;
      session_public_id = session;
      listener = none;
      owns_socket_path = false;
      running = false;
      high_watermark = 0;
      clients = [];
    })

-- What `lstat` finds at the socket's path.
pub data PathEntry : Type 0 where
  missing : PathEntry
  found : Bool → ℕ → PathEntry
  unreadable : PathEntry

pub data StartError : Type 0 where
  path_too_long : StartError
  unsafe_path : StartError
  not_unlinked : StartError
  not_inspected : StartError
  no_socket : StartError
  not_bound : StartError
  not_nonblocking : StartError
  no_thread : StartError

-- How the system calls of `start` go.
pub record System : Type 0 where
  pub euid : ℕ
  pub unlinks_stale : Bool
  pub unlinks_own : Bool
  pub socket : Option ℕ
  pub binds : Bool
  pub chmods : Bool
  pub listens : Bool
  pub nonblocks : Bool
  pub starts_thread : Bool

-- The stream, what stands at the path, and the exception if there is one.
abbrev pub Started : Type 0
Started = EventStream × PathEntry × Option StartError

abbrev pub unlink : Bool → PathEntry → PathEntry
unlink works path = if works then missing else path

-- The catch block.
unfoldable pub start_failed : System → EventStream → PathEntry → StartError → Started
start_failed sys s path error = (
  record s { running = false; listener = none; owns_socket_path = false },
  (if s.owns_socket_path then unlink sys.unlinks_own path else path),
  some error,
)

-- From the socket on.
unfoldable pub bind_listener : ℕ → System → EventStream → PathEntry → Started
unfolding start_failed
bind_listener initial sys s path = elim sys.socket [
  | none ↦ start_failed sys s path no_socket
  | some fd ↦
      let listening = record s { listener = some fd } in
      let bound = found true sys.euid in
      let owned = record listening { owns_socket_path = true } in
      let marked = record owned { high_watermark = initial } in
      if not sys.binds
      then start_failed sys listening path not_bound
      else if not (sys.chmods && sys.listens)
      then start_failed sys listening bound not_bound
      else if not sys.nonblocks
      then start_failed sys owned bound not_nonblocking
      else if not sys.starts_thread
      then start_failed sys marked bound no_thread
      else (record marked { running = true }, bound, none)
]

unfoldable pub start : ℕ → System → EventStream → PathEntry → Started
unfolding start_failed bind_listener
start initial sys s path =
    if s.running
    then (s, path, none)
    else if leb 108 (length s.config.unix_socket)
    then start_failed sys s path path_too_long
    else elim path [
      | missing ↦ bind_listener initial sys s missing
      | unreadable ↦ start_failed sys s unreadable not_inspected
      | found is_socket owner ↦
          if not is_socket || not (owner == sys.euid)
          then start_failed sys s (found is_socket owner) unsafe_path
          else if not sys.unlinks_stale
          then start_failed sys s (found is_socket owner) not_unlinked
          else bind_listener initial sys s missing
    ]

-- The unlinking in `stop`.
abbrev pub unlink_own : System → PathEntry → PathEntry
unlink_own sys missing = missing
unlink_own sys unreadable = unreadable
unlink_own sys (found is_socket owner) =
    if is_socket && owner == sys.euid
    then unlink sys.unlinks_own (found is_socket owner)
    else found is_socket owner

unfoldable pub stop : System → EventStream → PathEntry → EventStream × PathEntry
stop sys s path = if not s.running then (s, path) else (
  record s { running = false; listener = none; clients = []; owns_socket_path = false },
  (if s.owns_socket_path then unlink_own sys path else path),
)

-- The last client takes the place of the closed one.
unfoldable pub close_client : ℕ → List Client → List Client
close_client index clients = elim (back? clients) [
  | none ↦ []
  | some last ↦ pop_back (if index + 1 == length clients then clients else set clients index last)
]

-- `encoded_event` with a newline at its end.
unfoldable pub terminated : List ℕ → List ℕ
terminated event = elim (back? event) [
  | none ↦ event ++ 10 ∷ []
  | some last ↦ if last == 10 then event else event ++ 10 ∷ []
]

abbrev pub push_frame : List ℕ → Client → Client
push_frame frame c = record c {
  pending_bytes = c.pending_bytes + length frame;
  output = c.output ++ frame ∷ [];
}

-- One client's turn: it is closed where the frame does not fit.
unfoldable pub deliver : ℕ → List ℕ → ℕ → List Client → List Client
unfolding close_client
deliver limit frame index clients = elim (get_elem? clients index) [
  | none ↦ clients
  | some c ↦
      if ltb limit (length frame) || ltb (limit - length frame) c.pending_bytes
      then close_client index clients
      else set clients index (push_frame frame c)
]

-- The loop from the last client to the first.
unfoldable pub deliver_all : ℕ → List ℕ → ℕ → List Client → List Client
unfolding deliver
deliver_all limit frame zero clients = clients
deliver_all limit frame (suc index) clients =
    deliver_all limit frame index (deliver limit frame index clients)

unfoldable pub publish_committed : ℕ → List ℕ → EventStream → EventStream
unfolding deliver_all terminated
publish_committed event_id encoded_event s =
    let frame = terminated encoded_event in
    if not s.running || event_id == 0
    then s
    else if leb event_id s.high_watermark
    then s
    else record s {
      high_watermark = event_id;
      clients =
          deliver_all s.config.max_pending_bytes_per_client frame (length s.clients) s.clients;
    }

-- The first frame of a connection.
unfoldable pub control_frame : List ℕ → List ℕ → ℕ → List ℕ
unfolding to_string
control_frame session time watermark =
    codes "{\"schema_version\":1,\"control\":\"stream_open\",\"session_id\":\""
    ++ (session
        ++ (codes "\",\"time_utc\":\""
            ++ (time
                ++ (codes "\",\"last_committed_event_id\":\""
                    ++ (to_string watermark ++ codes "\"}\n")))))

-- What `accept4` gives: an interruption, or a descriptor, with the text of the clock then.
pub data Accept : Type 0 where
  interrupted : Accept
  accepted : ℕ → List ℕ → Accept

abbrev pub new_client : ℕ → List ℕ → Client
new_client descriptor control = record {
  descriptor = record { number = descriptor; received = [] };
  output = control ∷ [];
  front_offset = 0;
  pending_bytes = length control;
}

unfoldable pub accept_client : ℕ → List ℕ → EventStream → EventStream
accept_client descriptor time s =
    let control = control_frame s.session_public_id time s.high_watermark in
    if leb s.config.max_clients (length s.clients)
    then s
    else if ltb s.config.max_pending_bytes_per_client (length control)
    then s
    else record s { clients = s.clients ++ new_client descriptor control ∷ [] }

-- The list ends where `accept4` has nothing more.
unfoldable pub accept_clients : List Accept → EventStream → EventStream
unfolding accept_client
accept_clients [] s = s
accept_clients (interrupted ∷ more) s = accept_clients more s
accept_clients (accepted descriptor time ∷ more) s =
    accept_clients more (if s.running then accept_client descriptor time s else s)

-- How `send` goes: it takes at most so many bytes, would block, or fails.
pub data Send : Type 0 where
  takes : ℕ → Send
  blocks : Send
  fails : Send

-- What `poll` tells of a client, and the `send` calls that follow.
pub record Poll : Type 0 where
  pub failed : Bool
  pub readable : Bool
  pub writable : Bool
  pub sends : List Send

-- `amount` more bytes of the front frame are sent.
unfoldable pub advance : ℕ → List ℕ → List (List ℕ) → Client → Client
advance amount front later c =
    let all = c.front_offset + amount == length front in
    record c {
      descriptor = record c.descriptor {
        received = c.descriptor.received ++ take amount (drop c.front_offset front);
      };
      pending_bytes = c.pending_bytes - amount;
      output = (if all then later else c.output);
      front_offset = (if all then 0 else c.front_offset + amount);
    }

-- The loop of `send`; `none` closes the client, and past the list a `send` would block.
unfoldable pub send_loop : List Send → Client → Option Client
unfolding advance
send_loop [] c = some c
send_loop (send ∷ more) c = elim c.output [
  | [] ↦ some c
  | front ∷ later ↦ elim send [
    | blocks ↦ some c
    | fails ↦ none
    | takes n ↦
        let amount = min n (length front - c.front_offset) in
        let rest = send_loop more (advance amount front later c) in
        if amount == 0 then none else rest
  ]
]

unfoldable pub service_client : Poll → Client → Option Client
unfolding send_loop
service_client p c =
    if p.failed
    then none
    else if p.readable
    then none
    else if p.writable
    then send_loop p.sends c
    else some c

unfoldable pub service : (ℕ → Poll) → ℕ → List Client → List Client
unfolding service_client close_client
service poll index clients = elim (get_elem? clients index) [
  | none ↦ clients
  | some c ↦ elim (service_client (poll c.descriptor.number) c) [
    | none ↦ close_client index clients
    | some c' ↦ set clients index c'
  ]
]

unfoldable pub service_all : (ℕ → Poll) → ℕ → List Client → List Client
unfolding service
service_all poll zero clients = clients
service_all poll (suc index) clients = service_all poll index (service poll index clients)

unfoldable pub service_clients : (ℕ → Poll) → EventStream → EventStream
unfolding service_all
service_clients poll s = record s { clients = service_all poll (length s.clients) s.clients }
