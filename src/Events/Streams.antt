-- ===== src/Events/Streams.antt =====
-- src/events/event_stream.cpp: over any calls, the stream serves each client the feed from the moment
-- at which it came, within the bounds of the configuration.
use monero_solo_stratum.Common.{
  ℕ, ◌≤◌, ◌≡◌, refl, sym, ap, ◌∙◌, subst, inl, inr, Bool, true, false, not, ◌&&◌, ◌||◌, Option,
  none, some, List, [], ◌∷◌, ◌++◌, ltb, leb, ◌==◌, if◌then◌else◌, arith, Bool-cases, length, All,
  All-mono, All-append, length-append,
}
use mathlib.Core.List.{append_assoc, append-nil}
use monero_solo_stratum.Events.{
  Client, EventStream, System, PathEntry, StartError, Accept, accepted, interrupted, Poll,
  push_frame, new_client, control_frame, deliver_all, publish_committed, accept_client,
  accept_clients, service_clients, stop, start, terminated, Started,
}
use monero_solo_stratum.Events.Lifecycle.{StartResult, start-StartResult}
use monero_solo_stratum.Events.Walk.{
  All-Split, deliver_all-All, service_all-All, length-deliver_all, length-service_all,
}
use monero_solo_stratum.Events.Queues.{
  stream, IsQueued, concat, stream-push_frame, push_frame-IsQueued, new_client-IsQueued,
  service_client-Keeps,
}
use monero_solo_stratum.Events.Feed.{
  Call, publishes, accepts, services, stops, step, run, Log, Feed, last_id, text, feed, feed_all,
  last_id-append, Ascends, feed_all-Ascends,
}

-- The client came after a first part of the log. What it was sent and will be sent is the control
-- frame with the last id of that part, and then the rest of the log.
pub record Follows (session : List ℕ) (initial : ℕ) (log : Log) (c : Client) : Type 0 where
  pub before : Log
  pub after : Log
  pub time : List ℕ
  pub parts : log ≡ before ++ after
  pub sent : stream c ≡ control_frame session time (last_id initial before) ++ text after

-- A client of a stream with the limit.
abbrev Served : List ℕ → ℕ → ℕ → Log → Client → Type 0
Served session initial limit log c = Follows session initial log c × IsQueued limit c

pub record Serves (initial : ℕ) (f : Feed) (s : EventStream) : Type 0 where
  pub live : s.running ≡ f.live
  pub watermark : s.high_watermark ≡ last_id initial f.log
  pub clients :
      All (Served s.session_public_id initial s.config.max_pending_bytes_per_client f.log) s.clients
  pub count : length s.clients ≤ s.config.max_clients

text-append :
    (log : Log) (event_id : ℕ) (frame : List ℕ)
    → text (log ++ (event_id, frame) ∷ []) ≡ text log ++ frame
text-append [] event_id frame = append-nil frame
text-append ((k, x) ∷ log) event_id frame =
    rw (text-append log event_id frame) (sym (append_assoc x (text log) frame))

push_frame-Follows :
    (session : List ℕ) (initial limit event_id : ℕ) (frame : List ℕ) (log : Log) (c : Client)
    → IsQueued limit c
    → Follows session initial log c
    → Follows session initial (log ++ (event_id, frame) ∷ []) (push_frame frame c)
push_frame-Follows session initial limit event_id frame log c q h = record {
  before = h.before;
  after = h.after ++ (event_id, frame) ∷ [];
  time = h.time;
  parts =
      ap (λ (t : Log). t ++ (event_id, frame) ∷ []) h.parts
      ∙ append_assoc h.before h.after ((event_id, frame) ∷ []);
  sent =
      stream-push_frame limit frame c q
      ∙ ap (λ (t : List ℕ). t ++ frame) h.sent
      ∙ append_assoc (control_frame session h.time (last_id initial h.before)) (text h.after) frame
      ∙ ap (λ (t : List ℕ). control_frame session h.time (last_id initial h.before) ++ t)
          (sym (text-append h.after event_id frame));
}

new_client-Follows :
    (session : List ℕ) (initial descriptor : ℕ) (time : List ℕ) (log : Log)
    → Follows session initial log
        (new_client descriptor (control_frame session time (last_id initial log)))
unfolding concat
new_client-Follows session initial descriptor time log = record {
  before = log;
  after = [];
  time = time;
  parts = sym (append-nil log);
  sent = refl;
}

same_stream-Follows :
    (session : List ℕ) (initial : ℕ) (log : Log) (c d : Client)
    → stream d ≡ stream c
    → Follows session initial log c
    → Follows session initial log d
same_stream-Follows session initial log c d e g = record {
  before = g.before;
  after = g.after;
  time = g.time;
  parts = g.parts;
  sent = e ∙ g.sent;
}

published_record-Serves :
    (initial event_id : ℕ) (frame : List ℕ) (f : Feed) (s : EventStream)
    → Serves initial f s
    → Serves initial
        (record f { log = f.log ++ (event_id, frame) ∷ [] })
        (record s {
          high_watermark = event_id;
          clients =
              deliver_all s.config.max_pending_bytes_per_client frame (length s.clients) s.clients;
        })
published_record-Serves initial event_id frame f s h =
    let limit = s.config.max_pending_bytes_per_client in
    let P = Served s.session_public_id initial limit f.log in
    let Q = Served s.session_public_id initial limit (f.log ++ (event_id, frame) ∷ []) in
    record {
      live = h.live;
      watermark = sym (last_id-append initial event_id frame f.log);
      clients =
          deliver_all-All P Q limit frame (length s.clients) s.clients
            (λ c (g, q) fits. (
              push_frame-Follows s.session_public_id initial limit event_id frame f.log c q g,
              push_frame-IsQueued limit frame c q fits,
            ))
            (All-Split P Q s.clients h.clients);
      count = omega (arith, h.count, length-deliver_all limit frame (length s.clients) s.clients);
    }

-- The event is added to the log exactly when the stream takes it.
publish_committed-Serves :
    (initial event_id : ℕ) (event : List ℕ) (f : Feed) (s : EventStream)
    → Serves initial f s
    → Serves initial
        (feed initial (publishes event_id event) f)
        (publish_committed event_id event s)
unfolding publish_committed feed
publish_committed-Serves initial event_id event f s h =
    elim (Bool-cases (f.live && ltb (last_id initial f.log) event_id)) [
      | inl e ↦
          let shown : (not s.running || event_id == 0) ≡ false = ground (arith, h.live) in
          let newer : leb event_id s.high_watermark ≡ false = ground (arith, h.watermark) in
          rw (e, shown, newer, publish_committed, feed)
            (published_record-Serves initial event_id (terminated event) f s h)
      | inr e ↦ elim (Bool-cases (not s.running || event_id == 0)) [
        | inl silent ↦ rw (e, silent, publish_committed, feed) h
        | inr shown ↦
            let older : leb event_id s.high_watermark ≡ true =
              ground (arith, h.watermark, h.live) in
            rw (e, shown, older, publish_committed, feed) h
      ]
    ]

accept_client-Serves :
    (initial descriptor : ℕ) (time : List ℕ) (f : Feed) (s : EventStream)
    → Serves initial f s
    → Serves initial f (accept_client descriptor time s)
unfolding accept_client
accept_client-Serves initial descriptor time f s h =
    let control = control_frame s.session_public_id time s.high_watermark in
    let limit = s.config.max_pending_bytes_per_client in
    let P = Served s.session_public_id initial limit f.log in
    elim (Bool-cases (leb s.config.max_clients (length s.clients))) [
      | inl e ↦ rw (e, accept_client) h
      | inr e ↦ elim (Bool-cases (ltb limit (length control))) [
        | inl g ↦ rw (e, g, accept_client) h
        | inr g ↦
            rw (e, g, accept_client)
              (record {
                live = h.live;
                watermark = h.watermark;
                clients = All-append P s.clients (new_client descriptor control ∷ []) h.clients (
                  (
                    subst
                        (λ (k : ℕ).
                          Follows s.session_public_id initial f.log
                            (new_client descriptor (control_frame s.session_public_id time k)))
                        (sym h.watermark)
                        (new_client-Follows s.session_public_id initial descriptor time f.log),
                    new_client-IsQueued limit descriptor control (ground arith),
                  ),
                  tt,
                );
                count =
                    ground (
                      arith,
                      h.count,
                      length-append s.clients (new_client descriptor control ∷ []),
                    );
              })
      ]
    ]

accept_clients-Serves :
    (initial : ℕ) (results : List Accept) (f : Feed) (s : EventStream)
    → Serves initial f s
    → Serves initial f (accept_clients results s)
unfolding accept_clients
accept_clients-Serves initial [] f s h = h
accept_clients-Serves initial (interrupted ∷ more) f s h = accept_clients-Serves initial more f s h
accept_clients-Serves initial (accepted descriptor time ∷ more) f s h =
    accept_clients-Serves initial more f (if s.running then accept_client descriptor time s else s)
      (go s.running)
  where
    go : (b : Bool) → Serves initial f (if b then accept_client descriptor time s else s)
    go true = accept_client-Serves initial descriptor time f s h
    go false = h

service_clients-Serves :
    (initial : ℕ) (poll : ℕ → Poll) (f : Feed) (s : EventStream)
    → Serves initial f s
    → Serves initial f (service_clients poll s)
unfolding service_clients
service_clients-Serves initial poll f s h =
    let P = Served s.session_public_id initial s.config.max_pending_bytes_per_client f.log in
    record {
      live = h.live;
      watermark = h.watermark;
      clients =
          service_all-All P P poll (length s.clients) s.clients
            (λ p c d e (g, q).
              let (same, q') =
                service_client-Keeps s.config.max_pending_bytes_per_client p c d e q in
              (same_stream-Follows s.session_public_id initial f.log c d same g, q'))
            (All-Split P P s.clients h.clients);
      count = omega (arith, h.count, length-service_all poll (length s.clients) s.clients);
    }

stop-Serves :
    (initial : ℕ) (sys : System) (path : PathEntry) (f : Feed) (s : EventStream)
    → Serves initial f s
    → Serves initial (record f { live = false }) (stop sys s path).0
unfolding stop
stop-Serves initial sys path f s h = elim (Bool-cases s.running) [
  | inl e ↦
      rw (e, stop)
        (record { live = refl; watermark = h.watermark; clients = tt; count = omega arith })
  | inr e ↦
      rw (e, stop)
        (record { live = refl; watermark = h.watermark; clients = h.clients; count = h.count })
]

step-Serves :
    (initial : ℕ) (call : Call) (f : Feed) (s : EventStream)
    → Serves initial f s
    → Serves initial (feed initial call f) (step call s)
unfolding step feed
step-Serves initial (publishes event_id event) f s h =
    publish_committed-Serves initial event_id event f s h
step-Serves initial (accepts results) f s h = accept_clients-Serves initial results f s h
step-Serves initial (services poll) f s h = service_clients-Serves initial poll f s h
step-Serves initial (stops sys path) f s h = stop-Serves initial sys path f s h

run-Serves :
    (initial : ℕ) (calls : List Call) (f : Feed) (s : EventStream)
    → Serves initial f s
    → Serves initial (feed_all initial calls f) (run calls s)
unfolding run feed_all
run-Serves initial [] f s h = h
run-Serves initial (call ∷ calls) f s h =
    run-Serves initial calls (feed initial call f) (step call s) (step-Serves initial call f s h)

started-Serves :
    (initial : ℕ) (sys : System) (s : EventStream) (path : PathEntry)
    → s.running ≡ false
    → s.clients ≡ []
    → (start initial sys s path).2 ≡ none
    → Serves initial (record { live = true; log = [] }) (start initial sys s path).0
started-Serves initial sys s path stopped empty works =
    go r.2 works (start-StartResult initial sys s path stopped)
  where
    r : Started
    r = start initial sys s path

    go :
        (o : Option StartError)
        → o ≡ none
        → StartResult initial sys s r.0 r.1 o
        → Serves initial (record { live = true; log = [] }) r.0
    go (some error) e h = cc
    go none e h =
        let none_yet = h.3 ∙ empty in
        record {
          live = h.0;
          watermark = h.6;
          clients = rw none_yet tt;
          count = rw none_yet (omega arith);
        }

-- The feed of calls on a stream that has just started.
abbrev pub feed_of : ℕ → List Call → Feed
feed_of initial calls = feed_all initial calls (record { live = true; log = [] })

module _ (initial : ℕ) (sys : System) (s : EventStream) (path : PathEntry) (calls : List Call)
    (stopped : s.running ≡ false) (empty : s.clients ≡ [])
    (works : (start initial sys s path).2 ≡ none) where
  all_served : Serves initial (feed_of initial calls) (run calls (start initial sys s path).0)
  all_served =
      run-Serves initial calls (record { live = true; log = [] }) (start initial sys s path).0
        (started-Serves initial sys s path stopped empty works)

  -- On a stopped stream without clients that starts, after any calls: the ids of the events of the
  -- feed ascend from the one the stream started after, the high watermark is the last of them, and
  -- each client's bytes, sent and unsent, are a control frame with the last id of a first part of
  -- the feed, followed by the frames of all events of the rest.
  pub run-start-Follows :
      let t = run calls (start initial sys s path).0 in
      let log = (feed_of initial calls).log in
      Ascends initial log
      × (t.high_watermark ≡ last_id initial log)
      × All (Follows t.session_public_id initial log) t.clients
  run-start-Follows =
      let t = run calls (start initial sys s path).0 in
      let log = (feed_of initial calls).log in
      (
        feed_all-Ascends initial calls (record { live = true; log = [] }) tt,
        all_served.watermark,
        All-mono (Served t.session_public_id initial t.config.max_pending_bytes_per_client log)
            (Follows t.session_public_id initial log) t.clients (λ c h. h.0) all_served.clients,
      )

  -- On a stopped stream without clients that starts, after any calls: there are at most max_clients
  -- clients, and each one's pending_bytes is the number of its unsent bytes and at most
  -- max_pending_bytes_per_client.
  pub run-start-IsQueued :
      let t = run calls (start initial sys s path).0 in
      (length t.clients ≤ t.config.max_clients)
      × All (IsQueued t.config.max_pending_bytes_per_client) t.clients
  run-start-IsQueued =
      let t = run calls (start initial sys s path).0 in
      let limit = t.config.max_pending_bytes_per_client in
      (
        all_served.count,
        All-mono (Served t.session_public_id initial limit (feed_of initial calls).log)
            (IsQueued limit) t.clients (λ c h. h.1) all_served.clients,
      )
