-- ===== src/Stratum/Output.antt =====
-- src/stratum/stratum.cpp: what a connection has still to send.
use monero_solo_stratum.Common.{
  ℕ, ◌+◌, ◌-◌, ◌≤◌, ◌≡◌, refl, sym, ◌∙◌, ap, Bool, true, false, ◌||◌, Option, none, List, [], ◌∷◌,
  ◌++◌, ltb, if◌then◌else◌, length, length-append, drop, arith,
}
use mathlib.Core.List.{append_assoc, append-nil}
use monero_solo_stratum.Stratum.Connections.{OutputChunk, Connection, close_connection, queue}

-- The bytes that wait, in the order in which they were queued.
abbrev pub pending : List OutputChunk → List ℕ
pending [] = []
pending (chunk ∷ rest) = drop chunk.offset chunk.text ++ pending rest

abbrev pub IsBounded : ℕ → Connection → Type 0
IsBounded max_output c =
    (c.output_bytes ≡ length (pending c.output)) × (c.output_bytes ≤ max_output)

pending-append : (xs ys : List OutputChunk) → pending (xs ++ ys) ≡ pending xs ++ pending ys
pending-append [] ys = refl
pending-append (x ∷ xs) ys =
    ap (λ (l : List ℕ). drop x.offset x.text ++ l) (pending-append xs ys)
    ∙ sym (append_assoc (drop x.offset x.text) (pending xs) (pending ys))

-- Closing leaves the output.
closed_parts :
    (b : Bool) (c : Connection)
    → c.closing ≡ b
    → ((if b then c else record c { closing = true; descriptor = none }).output ≡ c.output)
      × ((if b then c else record c { closing = true; descriptor = none }).output_bytes
          ≡ c.output_bytes)
      × ((if b then c else record c { closing = true; descriptor = none }).closing ≡ true)
closed_parts true c h = (refl, refl, h)
closed_parts false c h = (refl, refl, refl)

pub close_connection_lem :
    (c : Connection)
    → ((close_connection c).output ≡ c.output)
      × ((close_connection c).output_bytes ≡ c.output_bytes)
      × ((close_connection c).closing ≡ true)
unfolding close_connection
close_connection_lem c = closed_parts c.closing c refl

pub close_connection-IsBounded :
    (m : ℕ) (c : Connection) → IsBounded m c → IsBounded m (close_connection c)
close_connection-IsBounded m c h =
    let (output, bytes, closing) = close_connection_lem c in
    (
      bytes ∙ h.0 ∙ ap (λ (l : List OutputChunk). length (pending l)) (sym output),
      omega (arith, bytes, h.1),
    )

pending-queued :
    (output : List OutputChunk) (text : List ℕ)
    → pending (output ++ record { text = text; offset = 0 } ∷ []) ≡ pending output ++ text
pending-queued output text =
    pending-append output _ ∙ ap (λ (l : List ℕ). pending output ++ l) (append-nil text)

-- A text is queued whole, or not at all by a connection that closes.
pub record Queued (m : ℕ) (text : List ℕ) (c : Connection) (r : Connection × Bool) : Type 0 where
  pub bounded : IsBounded m r.0
  pub appended : pending r.0.output ≡ pending c.output ++ (if r.1 then text else [])
  pub refused : r.1 ≡ false → r.0.closing ≡ true

decided :
    (b : Bool) (m : ℕ) (text : List ℕ) (c added : Connection)
    → (c.closing || ltb m (length text) || ltb (m - length text) c.output_bytes) ≡ b
    → added.output ≡ c.output ++ record { text = text; offset = 0 } ∷ []
    → added.output_bytes ≡ c.output_bytes + length text
    → IsBounded m c
    → Queued m text c (if b then (close_connection c, false) else (added, true))
decided true m text c added e output bytes h = record {
  bounded = close_connection-IsBounded m c h;
  appended = ap pending (close_connection_lem c).0 ∙ sym (append-nil (pending c.output));
  refused = λ r. (close_connection_lem c).2;
}
decided false m text c added e output bytes h =
    let joined = ap pending output ∙ pending-queued c.output text in
    record {
      bounded = (
        omega (arith, bytes, h.0, ap length joined, length-append (pending c.output) text),
        ground (arith, bytes, h.1),
      );
      appended = joined;
      refused = λ r. ground arith;
    }

-- For a connection whose counted bytes are those that wait, within the bound, both hold again after
-- queueing a text. The text is appended whole to the bytes that wait, or none of it is and the
-- connection is closing.
pub queue-Queued :
    (m : ℕ) (text : List ℕ) (release_key : Option (List ℕ)) (sent_height : Option ℕ)
    (c : Connection)
    → IsBounded m c
    → Queued m text c (queue m text release_key sent_height c)
unfolding queue
queue-Queued m text release_key sent_height c h =
    decided (c.closing || ltb m (length text) || ltb (m - length text) c.output_bytes) m text c _
      refl refl refl h
