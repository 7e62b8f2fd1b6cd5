-- ===== src/Stratum/Sending.antt =====
-- src/stratum/stratum.cpp: writing to a connection.
use mathlib.Core.List.{append_assoc, append-nil}
use monero_solo_stratum.Common.{
  either, take, take-append, take_add, ℕ, ◌+◌, ◌≤◌, ◌<◌, ◌≡◌, refl, sym, ◌∙◌, ap, Bool, true, false,
  List, [], ◌∷◌, ◌++◌, ◌==◌, ==_iff, if◌then◌else◌, length, length-append, length-drop, drop,
  drop-drop, drop_all, drop-append, All, arith,
}
use monero_solo_stratum.Common.Word.{u64_mod}
use monero_solo_stratum.Stratum.Connections.{
  OutputChunk, Connection, close_connection, SendResult, sent, closed_by_peer, interrupted,
  would_block, send_failed, advanced, flushed, Turn, again, returned, turn_of, taken_by_kernel,
  send_front, write_ready,
}
use monero_solo_stratum.Stratum.Output.{
  pending, IsBounded, close_connection_lem, close_connection-IsBounded,
}

-- The next bytes of the stream.
pending-advanced :
    (chunk : OutputChunk) (rest : List OutputChunk) (amount : ℕ) (c : Connection)
    → amount ≤ length (drop chunk.offset chunk.text)
    → pending (advanced chunk rest amount c).output ≡ drop amount (pending (chunk ∷ rest))
pending-advanced chunk rest amount c h = go (chunk.offset + amount == length chunk.text) refl
  where
    go :
        (b : Bool)
        → (chunk.offset + amount == length chunk.text) ≡ b
        → pending (if b then rest else record chunk { offset = chunk.offset + amount } ∷ rest)
          ≡ drop amount (drop chunk.offset chunk.text ++ pending rest)
    go true e =
        let whole = (==_iff (chunk.offset + amount) (length chunk.text)).0 e in
        ap (λ (l : List ℕ). l ++ pending rest)
          (sym (drop_all (chunk.offset + amount) chunk.text (omega arith))
            ∙ drop-drop chunk.offset amount chunk.text)
        ∙ sym (drop-append amount (drop chunk.offset chunk.text) (pending rest) h)
    go false e =
        ap (λ (l : List ℕ). l ++ pending rest) (drop-drop chunk.offset amount chunk.text)
        ∙ sym (drop-append amount (drop chunk.offset chunk.text) (pending rest) h)

-- `send` reports no more than it was given.
abbrev pub IsHonest : (List ℕ → SendResult) → Type 0
IsHonest send = (text : List ℕ) (n : ℕ) → send text ≡ sent n → n ≤ length text

-- The kernel took the first `count` bytes that waited, and the others wait in their order.
pub record Sending (m : ℕ) (c d : Connection) : Type 0 where
  pub bounded : IsBounded m d
  pub count : ℕ
  pub taken : d.sent_bytes ≡ c.sent_bytes ++ take count (pending c.output)
  pub left : pending d.output ≡ drop count (pending c.output)

abbrev pub TurnSends : ℕ → Connection → Turn → Type 0
TurnSends m c (again d) = Sending m c d
TurnSends m c (returned d) = Sending m c d

-- Nothing was taken.
idle-Sending : (m : ℕ) (c : Connection) → IsBounded m c → Sending m c c
idle-Sending m c h = record {
  bounded = h;
  count = 0;
  taken = sym (append-nil c.sent_bytes);
  left = refl;
}

close_connection-sent_bytes : (c : Connection) → (close_connection c).sent_bytes ≡ c.sent_bytes
unfolding close_connection
close_connection-sent_bytes c =
    either (λ (d : Connection). d.sent_bytes ≡ c.sent_bytes) c.closing _ _ refl refl

closed-Sending : (m : ℕ) (c : Connection) → IsBounded m c → Sending m c (close_connection c)
closed-Sending m c h = record {
  bounded = close_connection-IsBounded m c h;
  count = 0;
  taken = close_connection-sent_bytes c ∙ sym (append-nil c.sent_bytes);
  left = ap pending (close_connection_lem c).0;
}

flushed-Sending : (m : ℕ) (c : Connection) → IsBounded m c → Sending m c (flushed c)
flushed-Sending m c h =
    either (Sending m c) c.close_after_flush _ _ (closed-Sending m c h) (idle-Sending m c h)

module _ (m : ℕ) (small : m < u64_mod) where
  advanced-Sending :
      (chunk : OutputChunk) (rest : List OutputChunk) (amount : ℕ) (c : Connection)
      → c.output ≡ chunk ∷ rest
      → amount ≤ length (drop chunk.offset chunk.text)
      → IsBounded m c
      → Sending m c (advanced chunk rest amount (taken_by_kernel amount chunk c))
  advanced-Sending chunk rest amount c e fits h =
      let moved =
        pending-advanced chunk rest amount (taken_by_kernel amount chunk c) fits
        ∙ ap (λ (o : List OutputChunk). drop amount (pending o)) (sym e) in
      let all = ap (λ (o : List OutputChunk). length (pending o)) e in
      let joined = length-append (drop chunk.offset chunk.text) (pending rest) in
      record {
        bounded = (
          omega (
            arith,
            h.0,
            h.1,
            all,
            joined,
            ap length moved,
            length-drop amount (pending c.output),
          ),
          omega (arith, h.0, h.1, all, joined),
        );
        count = amount;
        taken =
            ap (λ (l : List ℕ). c.sent_bytes ++ l)
              (sym (take-append amount (drop chunk.offset chunk.text) (pending rest) fits)
                ∙ ap (λ (o : List OutputChunk). take amount (pending o)) (sym e));
        left = moved;
      }

  turn_of-TurnSends :
      (r : SendResult) (chunk : OutputChunk) (rest : List OutputChunk) (c : Connection)
      → c.output ≡ chunk ∷ rest
      → ((n : ℕ) → r ≡ sent n → n ≤ length (drop chunk.offset chunk.text))
      → IsBounded m c
      → TurnSends m c (turn_of r chunk rest c)
  turn_of-TurnSends (sent n) chunk rest c e fits h =
      advanced-Sending chunk rest n c e (fits n refl) h
  turn_of-TurnSends closed_by_peer chunk rest c e fits h = closed-Sending m c h
  turn_of-TurnSends interrupted chunk rest c e fits h = idle-Sending m c h
  turn_of-TurnSends would_block chunk rest c e fits h = idle-Sending m c h
  turn_of-TurnSends send_failed chunk rest c e fits h = closed-Sending m c h

  send_front-TurnSends :
      (send : List ℕ → SendResult) (output : List OutputChunk) (c : Connection)
      → c.output ≡ output
      → IsHonest send
      → IsBounded m c
      → TurnSends m c (send_front send output c)
  send_front-TurnSends send [] c e honest h = flushed-Sending m c h
  send_front-TurnSends send (chunk ∷ rest) c e honest h =
      turn_of-TurnSends (send (drop chunk.offset chunk.text)) chunk rest c e
        (honest (drop chunk.offset chunk.text)) h

  no_answer :
      (output : List OutputChunk) (c : Connection)
      → IsBounded m c
      → Sending m c (elim output [ [] ↦ flushed c | chunk ∷ rest ↦ c ])
  no_answer [] c h = flushed-Sending m c h
  no_answer (chunk ∷ rest) c h = idle-Sending m c h

  Sending-trans : (c d e : Connection) → Sending m c d → Sending m d e → Sending m c e
  Sending-trans c d e k l = record {
    bounded = l.bounded;
    count = k.count + l.count;
    taken =
        l.taken
        ∙ ap (λ (b : List ℕ). b ++ take l.count (pending d.output)) k.taken
        ∙ append_assoc c.sent_bytes (take k.count (pending c.output))
            (take l.count (pending d.output))
        ∙ ap (λ (b : List ℕ). c.sent_bytes ++ (take k.count (pending c.output) ++ take l.count b))
            k.left
        ∙ ap (λ (b : List ℕ). c.sent_bytes ++ b)
            (sym (take_add k.count l.count (pending c.output)));
    left =
        l.left
        ∙ ap (λ (b : List ℕ). drop l.count b) k.left
        ∙ sym (drop-drop k.count l.count (pending c.output));
  }

  -- For a connection whose counted bytes are those that wait, within a bound below 2^64, and a
  -- kernel whose answers count no more bytes than they were given: what the kernel takes while the
  -- connection is written to is, in this order, a prefix of the bytes that wait, the bytes that wait
  -- afterwards are exactly the others in their order, and the counted bytes are again those that
  -- wait, within the bound.
  pub write_ready-Sending :
      (answers : List (List ℕ → SendResult)) (c : Connection)
      → All IsHonest answers
      → IsBounded m c
      → Sending m c (write_ready answers c)
  unfolding write_ready
  write_ready-Sending [] c honest h = no_answer c.output c h
  write_ready-Sending (send ∷ answers) c honest h =
      go (send_front send c.output c) (λ d k. write_ready-Sending answers d honest.1 k)
        (send_front-TurnSends send c.output c refl honest.0 h)
    where
      go :
          (t : Turn)
          → ((d : Connection) → IsBounded m d → Sending m d (write_ready answers d))
          → TurnSends m c t
          → Sending m c (elim t [ again d ↦ write_ready answers d | returned d ↦ d ])
      go (again d) ih k = Sending-trans c d (write_ready answers d) k (ih d k.bounded)
      go (returned d) ih k = k
