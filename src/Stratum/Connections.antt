-- ===== src/Stratum/Connections.antt =====
-- src/stratum/stratum.cpp: a miner's connection, its output and the jobs that it remembers. The text
-- of a response is made by the JSON library and is an argument. A counter of 64 bits that grows by
-- one is a number without a bound; the queued bytes stay within the configured one.
use monero_solo_stratum.Common.{
  ℕ, ◌+◌, ◌-◌, ◌%◌, Bool, true, false, ◌||◌, Option, none, some, List, [], ◌∷◌, ◌++◌, ltb, ◌==◌,
  if◌then◌else◌, length, drop, take,
}
use monero_solo_stratum.Common.Word.{u64_mod}
use monero_solo_stratum.Common.Map.{Map, text_eq, same_text, lookup, insert, erase}

pub record OutputChunk : Type 0 where
  pub text : List ℕ
  pub offset : ℕ

-- A set of ids is a list.
pub record Connection : Type 0 where
  pub descriptor : Option ℕ
  pub public_id : List ℕ
  pub peer : ℕ
  pub login : List ℕ
  pub rigid : List ℕ
  pub agent : List ℕ
  pub assigned_difficulty : ℕ
  pub authenticated : Bool
  pub last_sent_height : ℕ
  pub request_sequence : ℕ
  pub closing : Bool
  pub close_after_flush : Bool
  pub close_after_flush_reason : List ℕ
  pub uncreditable_work_results : ℕ
  pub output : List OutputChunk
  pub output_bytes : ℕ
  -- What the kernel took for the peer, in its order.
  pub sent_bytes : List ℕ
  pub live_request_ids : List (List ℕ)
  pub job_network_difficulties : Map (List ℕ) (List ℕ)
  pub job_difficulty_order : List (List ℕ)
  pub pending_submits : ℕ
  pub latest_queued_height : ℕ
  pub opened : ℕ
  pub last_activity : ℕ

unfoldable pub close_connection : Connection → Connection
close_connection c = if c.closing then c else record c { closing = true; descriptor = none }

unfoldable pub forget_id : List ℕ → List (List ℕ) → List (List ℕ)
forget_id id [] = []
forget_id id (x ∷ ids) = let rest = forget_id id ids in if same_text x id then rest else x ∷ rest

abbrev pub release_id : Option (List ℕ) → List (List ℕ) → List (List ℕ)
release_id none ids = ids
release_id (some id) ids = forget_id id ids

abbrev pub height_or : Option ℕ → ℕ → ℕ
height_or none height = height
height_or (some sent) height = sent

-- The configured bound, the text, the request id that it answers and the height of a job in it.
-- `false` is a text that was not queued.
unfoldable pub queue : ℕ → List ℕ → Option (List ℕ) → Option ℕ → Connection → Connection × Bool
unfolding close_connection forget_id
queue max_output text release_key sent_height c =
    if c.closing || ltb max_output (length text) || ltb (max_output - length text) c.output_bytes
    then (close_connection c, false)
    else (
      record c {
        output_bytes = c.output_bytes + length text;
        output = c.output ++ record { text = text; offset = 0 } ∷ [];
        live_request_ids = release_id release_key c.live_request_ids;
        last_sent_height = height_or sent_height c.last_sent_height;
        latest_queued_height = height_or sent_height c.latest_queued_height;
      },
      true,
    )

-- The answer of `send`; `sent` has a positive count.
pub data SendResult : Type 0 where
  sent : ℕ → SendResult
  closed_by_peer : SendResult
  interrupted : SendResult
  would_block : SendResult
  send_failed : SendResult

-- The first chunk with so many more of its bytes sent.
abbrev pub advanced : OutputChunk → List OutputChunk → ℕ → Connection → Connection
advanced chunk rest amount c =
    let moved = chunk.offset + amount in
    record c {
      output_bytes = (c.output_bytes + u64_mod - amount) % u64_mod;
      output =
          (if moved == length chunk.text then rest else record chunk { offset = moved } ∷ rest);
    }

abbrev pub flushed : Connection → Connection
flushed c = if c.close_after_flush then close_connection c else c

-- The kernel is given what is left of the chunk, and takes so many bytes of it.
abbrev pub taken_by_kernel : ℕ → OutputChunk → Connection → Connection
taken_by_kernel amount chunk c = record c {
  sent_bytes = c.sent_bytes ++ take amount (drop chunk.offset chunk.text);
}

-- One turn of the loop: it goes on or returns.
pub data Turn : Type 0 where
  again : Connection → Turn
  returned : Connection → Turn

abbrev pub turn_of : SendResult → OutputChunk → List OutputChunk → Connection → Turn
turn_of (sent amount) chunk rest c =
    again (advanced chunk rest amount (taken_by_kernel amount chunk c))
turn_of interrupted chunk rest c = again c
turn_of would_block chunk rest c = returned c
turn_of closed_by_peer chunk rest c = returned (close_connection c)
turn_of send_failed chunk rest c = returned (close_connection c)

abbrev pub send_front : (List ℕ → SendResult) → List OutputChunk → Connection → Turn
send_front send [] c = returned (flushed c)
send_front send (chunk ∷ rest) c = turn_of (send (drop chunk.offset chunk.text)) chunk rest c

-- The kernel's answers, each by the bytes that it is given; after the last one it would block.
unfoldable pub write_ready : List (List ℕ → SendResult) → Connection → Connection
write_ready [] c = elim c.output [ [] ↦ flushed c | chunk ∷ rest ↦ c ]
write_ready (send ∷ answers) c = elim (send_front send c.output c) [
  | again d ↦ write_ready answers d
  | returned d ↦ d
]

-- The oldest job is forgotten while there are more than 64.
unfoldable pub forget_oldest :
    List (List ℕ) → Map (List ℕ) (List ℕ) → List (List ℕ) × Map (List ℕ) (List ℕ)
forget_oldest [] jobs = ([], jobs)
forget_oldest (id ∷ ids) jobs =
    let rest = forget_oldest ids (erase id jobs) in
    if ltb 64 (length (id ∷ ids)) then rest else (id ∷ ids, jobs)

abbrev pub is_known : Option (List ℕ) → Bool
is_known none = false
is_known (some difficulty) = true

-- A job's id and network difficulty.
unfoldable pub remember_job : List ℕ → List ℕ → Connection → Connection
unfolding forget_oldest
remember_job job_id [] c = c
remember_job job_id (b ∷ difficulty) c =
    let known = is_known (lookup job_id c.job_network_difficulties) in
    let order = if known then c.job_difficulty_order else c.job_difficulty_order ++ job_id ∷ [] in
    let kept = forget_oldest order (insert job_id (b ∷ difficulty) c.job_network_difficulties) in
    record c { job_difficulty_order = kept.0; job_network_difficulties = kept.1 }
