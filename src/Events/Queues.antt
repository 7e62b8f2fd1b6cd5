-- ===== src/Events/Queues.antt =====
-- src/events/event_stream.cpp: what a client still has to be sent, and its bounds.
use monero_solo_stratum.Common.{
  ℕ, ◌+◌, ◌-◌, ◌≤◌, ◌≡◌, refl, sym, ap, ◌∙◌, subst, ◌⊎◌, Option, inl, inr, min, Bool, true, false,
  ◌||◌, some, none, List, [], ◌∷◌, ◌++◌, ltb, ==_iff, ◌==◌, if◌then◌else◌, arith, length, take,
  drop, length-append, length-drop, length-take, take-append-drop, drop-drop, drop_all,
}
use mathlib.Core.List.{append_assoc, append-nil}
use monero_solo_stratum.Events.{
  Client, Send, takes, blocks, fails, Poll, push_frame, new_client, advance, send_loop,
  service_client,
}

unfoldable pub concat : List (List ℕ) → List ℕ
concat [] = []
concat (x ∷ xs) = x ++ concat xs

pub concat-append : (xs ys : List (List ℕ)) → concat (xs ++ ys) ≡ concat xs ++ concat ys
unfolding concat
concat-append [] ys = refl
concat-append (x ∷ xs) ys = rw (concat-append xs ys) (sym (append_assoc x (concat xs) (concat ys)))

-- The bytes that are still to be sent.
abbrev pub unsent_from : ℕ → List (List ℕ) → List ℕ
unsent_from offset [] = []
unsent_from offset (front ∷ later) = drop offset front ++ concat later

abbrev pub unsent : Client → List ℕ
unsent c = unsent_from c.front_offset c.output

-- All that the peer was and will be sent.
abbrev pub stream : Client → List ℕ
stream c = c.descriptor.received ++ unsent c

abbrev pub StartsAt : ℕ → List (List ℕ) → Type 0
StartsAt offset [] = offset ≡ 0
StartsAt offset (front ∷ later) = Unit {0}

pub record IsQueued (limit : ℕ) (c : Client) : Type 0 where
  pub offset : StartsAt c.front_offset c.output
  pub counted : c.pending_bytes ≡ length (unsent c)
  pub bounded : c.pending_bytes ≤ limit

unsent_from-append :
    (o : ℕ) (out : List (List ℕ)) (frame : List ℕ)
    → StartsAt o out
    → unsent_from o (out ++ frame ∷ []) ≡ unsent_from o out ++ frame
unfolding concat
unsent_from-append o [] frame h = rw h (append-nil frame)
unsent_from-append o (x ∷ xs) frame h =
    rw (concat-append xs (frame ∷ []), append-nil frame)
      (sym (append_assoc (drop o x) (concat xs) frame))

StartsAt-append :
    (o : ℕ) (out : List (List ℕ)) (frame : List ℕ) → StartsAt o out → StartsAt o (out ++ frame ∷ [])
StartsAt-append o [] frame h = tt
StartsAt-append o (x ∷ xs) frame h = tt

pub stream-push_frame :
    (limit : ℕ) (frame : List ℕ) (c : Client)
    → IsQueued limit c
    → stream (push_frame frame c) ≡ stream c ++ frame
stream-push_frame limit frame c h =
    rw (unsent_from-append c.front_offset c.output frame h.offset)
      (sym (append_assoc c.descriptor.received (unsent c) frame))

pub push_frame-IsQueued :
    (limit : ℕ) (frame : List ℕ) (c : Client)
    → IsQueued limit c
    → (ltb limit (length frame) || ltb (limit - length frame) c.pending_bytes) ≡ false
    → IsQueued limit (push_frame frame c)
push_frame-IsQueued limit frame c h fits =
    let joined = ap length (unsent_from-append c.front_offset c.output frame h.offset) in
    record {
      offset = StartsAt-append c.front_offset c.output frame h.offset;
      counted = omega (arith, h.counted, joined, length-append (unsent c) frame);
      bounded = ground (arith, h.bounded);
    }

pub new_client-IsQueued :
    (limit descriptor : ℕ) (control : List ℕ)
    → length control ≤ limit
    → IsQueued limit (new_client descriptor control)
unfolding concat
new_client-IsQueued limit descriptor control h = record {
  offset = tt;
  counted = rw (append-nil control) refl;
  bounded = h;
}

unsent_from_zero : (out : List (List ℕ)) → unsent_from 0 out ≡ concat out
unfolding concat
unsent_from_zero [] = refl
unsent_from_zero (x ∷ xs) = refl

drop-past : (o a : ℕ) (xs : List ℕ) → o + a ≡ length xs → drop a (drop o xs) ≡ []
drop-past o a xs h = sym (drop-drop o a xs) ∙ drop_all (o + a) xs (omega arith)

take-append-concat :
    (o a : ℕ) (front rest : List ℕ)
    → take a (drop o front) ++ (drop a (drop o front) ++ rest) ≡ drop o front ++ rest
take-append-concat o a front rest =
    sym (append_assoc (take a (drop o front)) (drop a (drop o front)) rest)
    ∙ ap (λ (t : List ℕ). t ++ rest) (take-append-drop a (drop o front))

-- Sending moves bytes from the queue to the peer.
unsent_moves :
    (all : Bool) (o a : ℕ) (front : List ℕ) (later output : List (List ℕ))
    → output ≡ front ∷ later
    → (all ≡ true → o + a ≡ length front)
    → take a (drop o front)
        ++ unsent_from (if all then 0 else o + a) (if all then later else output)
      ≡ unsent_from o output
unsent_moves true o a front later output e h =
    rw (e, unsent_from_zero later)
      (ap (λ (t : List ℕ). take a (drop o front) ++ (t ++ concat later))
          (sym (drop-past o a front (h refl)))
        ∙ take-append-concat o a front (concat later))
unsent_moves false o a front later output e h =
    rw (e, drop-drop o a front) (take-append-concat o a front (concat later))

starts_moves :
    (all : Bool) (o : ℕ) (front : List ℕ) (later output : List (List ℕ))
    → output ≡ front ∷ later
    → StartsAt (if all then 0 else o) (if all then later else output)
starts_moves true o front [] output e = refl
starts_moves true o front (x ∷ later) output e = tt
starts_moves false o front later output e = rw e tt

module _ (amount : ℕ) (front : List ℕ) (later : List (List ℕ)) (c : Client)
    (at_front : c.output ≡ front ∷ later) where
  unsent-advance :
      take amount (drop c.front_offset front) ++ unsent (advance amount front later c) ≡ unsent c
  unfolding advance
  unsent-advance =
      unsent_moves (c.front_offset + amount == length front) c.front_offset amount front later
        c.output at_front ((==_iff (c.front_offset + amount) (length front)).0)

  pub stream-advance : stream (advance amount front later c) ≡ stream c
  unfolding advance
  stream-advance =
      append_assoc c.descriptor.received (take amount (drop c.front_offset front))
        (unsent (advance amount front later c))
      ∙ ap (λ (t : List ℕ). c.descriptor.received ++ t) unsent-advance

  pub advance-IsQueued :
      (limit : ℕ)
      → amount ≤ length front - c.front_offset
      → IsQueued limit c
      → IsQueued limit (advance amount front later c)
  unfolding advance
  advance-IsQueued limit fits h =
      let moved = ap length unsent-advance in
      record {
        offset =
            starts_moves (c.front_offset + amount == length front) (c.front_offset + amount) front
              later c.output at_front;
        counted = omega (
          arith,
          h.counted,
          moved,
          length-append (take amount (drop c.front_offset front))
              (unsent (advance amount front later c)),
          length-take amount (drop c.front_offset front),
          length-drop c.front_offset front,
        );
        bounded = omega (arith, h.bounded);
      }

frames-cases :
    (xs : List (List ℕ))
    → (xs ≡ []) ⊎ ((front : List ℕ) × ((later : List (List ℕ)) × (xs ≡ front ∷ later)))
frames-cases [] = inl refl
frames-cases (x ∷ xs) = inr (x, (xs, refl))

abbrev Keeps : ℕ → Client → Client → Type 0
Keeps limit c d = (stream d ≡ stream c) × IsQueued limit d

stays-Keeps :
    (limit : ℕ) (o : Option Client) (c d : Client)
    → o ≡ some c
    → o ≡ some d
    → IsQueued limit c
    → Keeps limit c d
stays-Keeps limit o c d e f h = subst (Keeps limit c) (cc) (refl, h)

-- What `send` takes is what the peer gets; nothing is lost or repeated.
send_loop-Keeps :
    (limit : ℕ) (sends : List Send) (c d : Client)
    → send_loop sends c ≡ some d
    → IsQueued limit c
    → Keeps limit c d
unfolding send_loop
send_loop-Keeps limit [] c d e h = stays-Keeps limit (some c) c d refl e h
send_loop-Keeps limit (blocks ∷ more) c d e h = elim (frames-cases c.output) [
  | inl q ↦ stays-Keeps limit _ c d (simp (q, send_loop)) e h
  | inr (front, (later, q)) ↦ stays-Keeps limit _ c d (simp (q, send_loop)) e h
]
send_loop-Keeps limit (fails ∷ more) c d e h = elim (frames-cases c.output) [
  | inl q ↦ stays-Keeps limit _ c d (simp (q, send_loop)) e h
  | inr (front, (later, q)) ↦
      let failed : send_loop (fails ∷ more) c ≡ none = simp (q, send_loop) in cc
]
send_loop-Keeps limit (takes n ∷ more) c d e h = elim (frames-cases c.output) [
  | inl q ↦ stays-Keeps limit _ c d (simp (q, send_loop)) e h
  | inr (front, (later, q)) ↦
      let amount = min n (length front - c.front_offset) in
      let next = advance amount front later c in
      let sent : send_loop (takes n ∷ more) c
          ≡ (if amount == 0 then none else send_loop more next) =
        simp (q, send_loop) in
      go (amount == 0) next (send_loop more next) (sym sent ∙ e)
        (stream-advance amount front later c q) (send_loop-Keeps limit more next d)
        (advance-IsQueued amount front later c q limit (omega arith) h)
]
  where
    go :
        (b : Bool) (next : Client) (rest : Option Client)
        → (if b then none else rest) ≡ some d
        → stream next ≡ stream c
        → (rest ≡ some d → IsQueued limit next → Keeps limit next d)
        → IsQueued limit next
        → Keeps limit c d
    go true next rest f s k q = cc
    go false next rest f s k q = ((k f q).0 ∙ s, (k f q).1)

pub service_client-Keeps :
    (limit : ℕ) (p : Poll) (c d : Client)
    → service_client p c ≡ some d
    → IsQueued limit c
    → (stream d ≡ stream c) × IsQueued limit d
unfolding service_client
service_client-Keeps limit p c d e h = go p.failed p.readable p.writable e
  where
    go :
        (x y z : Bool)
        → (if x then none else if y then none else if z then send_loop p.sends c else some c)
          ≡ some d
        → Keeps limit c d
    go true y z f = cc
    go false true z f = cc
    go false false true f = send_loop-Keeps limit p.sends c d f h
    go false false false f = stays-Keeps limit (some c) c d refl f h
