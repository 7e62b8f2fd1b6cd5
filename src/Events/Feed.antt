-- ===== src/Events/Feed.antt =====
-- src/events/event_stream.cpp: what the stream promises, without clients: the log of the committed
-- events, each with an id above the ids before it. The calls on a started stream are a list.
use monero_solo_stratum.Common.{
  ℕ, ◌<◌, ◌≡◌, refl, Bool, false, ◌&&◌, List, [], ◌∷◌, ◌++◌, ltb, if◌then◌else◌, arith, inl, inr,
  Bool-cases,
}
use monero_solo_stratum.Events.{
  EventStream, PathEntry, System, Accept, Poll, publish_committed, accept_clients, service_clients,
  stop, terminated,
}

pub data Call : Type 0 where
  publishes : ℕ → List ℕ → Call
  accepts : List Accept → Call
  services : (ℕ → Poll) → Call
  stops : System → PathEntry → Call

unfoldable pub step : Call → EventStream → EventStream
step (publishes event_id event) s = publish_committed event_id event s
step (accepts results) s = accept_clients results s
step (services poll) s = service_clients poll s
step (stops sys path) s = (stop sys s path).0

unfoldable pub run : List Call → EventStream → EventStream
unfolding step
run [] s = s
run (call ∷ calls) s = run calls (step call s)

abbrev pub Log : Type 0
Log = List (ℕ × List ℕ)

pub record Feed : Type 0 where
  pub live : Bool
  pub log : Log

-- The id of the last event, or the one that the stream starts after.
abbrev pub last_id : ℕ → Log → ℕ
last_id initial [] = initial
last_id initial ((event_id, frame) ∷ more) = last_id event_id more

abbrev pub text : Log → List ℕ
text [] = []
text ((event_id, frame) ∷ more) = frame ++ text more

unfoldable pub feed : ℕ → Call → Feed → Feed
feed initial (publishes event_id event) f =
    if f.live && ltb (last_id initial f.log) event_id
    then record f { log = f.log ++ (event_id, terminated event) ∷ [] }
    else f
feed initial (accepts results) f = f
feed initial (services poll) f = f
feed initial (stops sys path) f = record f { live = false }

unfoldable pub feed_all : ℕ → List Call → Feed → Feed
unfolding feed
feed_all initial [] f = f
feed_all initial (call ∷ calls) f = feed_all initial calls (feed initial call f)

abbrev pub Ascends : ℕ → Log → Type 0
Ascends initial [] = Unit {0}
Ascends initial ((event_id, frame) ∷ more) = (initial < event_id) × Ascends event_id more

pub last_id-append :
    (initial event_id : ℕ) (frame : List ℕ) (log : Log)
    → last_id initial (log ++ (event_id, frame) ∷ []) ≡ event_id
last_id-append initial event_id frame [] = refl
last_id-append initial event_id frame ((k, x) ∷ log) = last_id-append k event_id frame log

pub Ascends-append :
    (initial event_id : ℕ) (frame : List ℕ) (log : Log)
    → Ascends initial log
    → last_id initial log < event_id
    → Ascends initial (log ++ (event_id, frame) ∷ [])
Ascends-append initial event_id frame [] h lt = (lt, tt)
Ascends-append initial event_id frame ((k, x) ∷ log) h lt =
    (h.0, Ascends-append k event_id frame log h.1 lt)

feed-Ascends :
    (initial : ℕ) (call : Call) (f : Feed)
    → Ascends initial f.log
    → Ascends initial (feed initial call f).log
unfolding feed
feed-Ascends initial (publishes event_id event) f h =
    elim (Bool-cases (f.live && ltb (last_id initial f.log) event_id)) [
      | inl e ↦
          rw (e, feed) (Ascends-append initial event_id (terminated event) f.log h (ground arith))
      | inr e ↦ rw (e, feed) h
    ]
feed-Ascends initial (accepts results) f h = h
feed-Ascends initial (services poll) f h = h
feed-Ascends initial (stops sys path) f h = h

pub feed_all-Ascends :
    (initial : ℕ) (calls : List Call) (f : Feed)
    → Ascends initial f.log
    → Ascends initial (feed_all initial calls f).log
unfolding feed_all
feed_all-Ascends initial [] f h = h
feed_all-Ascends initial (call ∷ calls) f h =
    feed_all-Ascends initial calls (feed initial call f) (feed-Ascends initial call f h)
