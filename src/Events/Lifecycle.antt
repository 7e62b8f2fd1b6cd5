-- ===== src/Events/Lifecycle.antt =====
-- src/events/event_stream.cpp: starting and stopping, with what becomes of the socket's path.
use monero_solo_stratum.Common.{
  ℕ, ◌≡◌, ◌≢◌, Bool, true, false, ◌&&◌, Option, none, some, ◌==◌, arith,
}
use monero_solo_stratum.Events.{
  EventStream, PathEntry, missing, found, unreadable, StartError, System, start_failed,
  bind_listener, start,
}

-- What a start leaves: after an exception a stream that is stopped and holds nothing, otherwise a
-- stream that runs, listens and owns its path. The clients and the configuration are as before.
abbrev pub StartResult :
    ℕ → System → EventStream → EventStream → PathEntry → Option StartError → Type 0
StartResult initial sys s t path (some error) =
    (t.running ≡ false)
    × (t.listener ≡ none)
    × (t.owns_socket_path ≡ false)
    × (t.clients ≡ s.clients)
    × (t.config ≡ s.config)
    × (t.session_public_id ≡ s.session_public_id)
StartResult initial sys s t path none =
    (t.running ≡ true)
    × (t.listener ≡ sys.socket)
    × (t.owns_socket_path ≡ true)
    × (t.clients ≡ s.clients)
    × (t.config ≡ s.config)
    × (t.session_public_id ≡ s.session_public_id)
    × (t.high_watermark ≡ initial)
    × (path ≡ found true sys.euid)

bind_listener-StartResult :
    (initial : ℕ) (sys : System) (s : EventStream) (path : PathEntry)
    → let r = bind_listener initial sys s path in StartResult initial sys s r.0 r.1 r.2
unfolding bind_listener start_failed
bind_listener-StartResult initial sys s path = ground arith

-- A start of a stream that does not run: if it throws, the stream does not run, has no listener and
-- owns no path; otherwise it runs, listens on the new socket, owns the path, at which its own socket
-- stands, and has the given watermark. The clients and the configuration are as before.
pub start-StartResult :
    (initial : ℕ) (sys : System) (s : EventStream) (path : PathEntry)
    → s.running ≡ false
    → let r = start initial sys s path in StartResult initial sys s r.0 r.1 r.2
unfolding start start_failed
start-StartResult initial sys s missing h =
    ground (arith, bind_listener-StartResult initial sys s missing)
start-StartResult initial sys s unreadable h = ground arith
start-StartResult initial sys s (found b o) h =
    ground (arith, bind_listener-StartResult initial sys s missing)

-- A start of a stream that neither runs nor owns a path throws where something that is not a socket
-- of the effective user stands at the path, and leaves it there.
pub start-foreign :
    (initial : ℕ) (sys : System) (s : EventStream) (is_socket : Bool) (owner : ℕ)
    → s.running ≡ false
    → s.owns_socket_path ≡ false
    → (is_socket && owner == sys.euid) ≡ false
    → let r = start initial sys s (found is_socket owner) in
      (r.2 ≢ none) × (r.1 ≡ found is_socket owner)
unfolding start start_failed
start-foreign initial sys s is_socket owner h o foreign = ground arith
