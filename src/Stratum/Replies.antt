-- ===== src/Stratum/Replies.antt =====
-- src/stratum/stratum.cpp: a request that is answered.
use monero_solo_stratum.Common.{
  ℕ, ◌-◌, ◌≡◌, refl, ◌∙◌, ap, Bool, true, false, ◌||◌, Option, List, [], ◌∷◌, ◌++◌, ltb,
  if◌then◌else◌, length, arith,
}
use monero_solo_stratum.Common.Map.{same_text, same_text_iff}
use monero_solo_stratum.Stratum.Connections.{
  OutputChunk, Connection, close_connection, forget_id, release_id, queue, remember_job,
}
use monero_solo_stratum.Stratum.Output.{close_connection_lem}
use monero_solo_stratum.Stratum.Json.{is_in}

-- One text follows the output, and the live ids are these; no submission came or went.
pub record Replies (c d : Connection) (live : List (List ℕ)) : Type 0 where
  pub text : List ℕ
  pub output : d.output ≡ c.output ++ record { text = text; offset = 0 } ∷ []
  pub ids : d.live_request_ids ≡ live
  pub pending : d.pending_submits ≡ c.pending_submits

pub data IsAnswered (c d : Connection) (live : List (List ℕ)) : Type 0 where
  closed : d.closing ≡ true → IsAnswered c d live
  replied : Replies c d live → IsAnswered c d live

pub queue-IsAnswered :
    (m : ℕ) (text : List ℕ) (release_key : Option (List ℕ)) (height : Option ℕ) (c : Connection)
    → IsAnswered c (queue m text release_key height c).0 (release_id release_key c.live_request_ids)
unfolding queue
queue-IsAnswered m text release_key height c =
    go (c.closing || ltb m (length text) || ltb (m - length text) c.output_bytes) _ refl refl refl
  where
    go :
        (b : Bool) (added : Connection)
        → added.output ≡ c.output ++ record { text = text; offset = 0 } ∷ []
        → added.live_request_ids ≡ release_id release_key c.live_request_ids
        → added.pending_submits ≡ c.pending_submits
        → (let r : Connection × Bool = if b then (close_connection c, false) else (added, true) in
            IsAnswered c r.0 (release_id release_key c.live_request_ids))
    go true added o i p = closed (close_connection_lem c).2
    go false added o i p = replied (record { text = text; output = o; ids = i; pending = p })

forget_absent :
    (key : List ℕ) (ids : List (List ℕ)) → is_in key ids ≡ false → forget_id key ids ≡ ids
unfolding forget_id
forget_absent key [] h = refl
forget_absent key (x ∷ xs) h = ground (arith, forget_absent key xs)

-- A key that was not live before is released.
pub forget_own :
    (key : List ℕ) (ids : List (List ℕ)) → is_in key ids ≡ false → forget_id key (key ∷ ids) ≡ ids
unfolding forget_id
forget_own key ids h = ground (arith, forget_absent key ids h, (same_text_iff key key).1 refl)

pub is_in-forget_id :
    (k key : List ℕ) (ids : List (List ℕ))
    → is_in k (forget_id key ids) ≡ (if same_text key k then false else is_in k ids)
unfolding forget_id
is_in-forget_id k key [] = ground arith
is_in-forget_id k key (x ∷ xs) =
    ground
      (arith, is_in-forget_id k key xs, same_text_iff x key, same_text_iff key k, same_text_iff x k)

-- What the output and the request ids of a connection are.
pub record SameWork (c d : Connection) : Type 0 where
  pub output : d.output ≡ c.output
  pub ids : d.live_request_ids ≡ c.live_request_ids
  pub pending : d.pending_submits ≡ c.pending_submits
  pub closing : d.closing ≡ c.closing

pub IsAnswered-SameWork :
    (c d e : Connection) (live : List (List ℕ))
    → IsAnswered c d live
    → SameWork d e
    → IsAnswered c e live
IsAnswered-SameWork c d e live (closed h) same = closed (same.closing ∙ h)
IsAnswered-SameWork c d e live (replied r) same = replied (record {
  text = r.text;
  output = same.output ∙ r.output;
  ids = same.ids ∙ r.ids;
  pending = same.pending ∙ r.pending;
})

pub SameWork-IsAnswered :
    (c d e : Connection) (live : List (List ℕ))
    → SameWork c d
    → IsAnswered d e live
    → IsAnswered c e live
SameWork-IsAnswered c d e live same (closed h) = closed h
SameWork-IsAnswered c d e live same (replied r) = replied (record {
  text = r.text;
  output =
      r.output
      ∙ ap (λ (o : List OutputChunk). o ++ record { text = r.text; offset = 0 } ∷ []) same.output;
  ids = r.ids;
  pending = r.pending ∙ same.pending;
})

pub same_work : (c : Connection) → SameWork c c
same_work c = record { output = refl; ids = refl; pending = refl; closing = refl }

pub remember_job-SameWork :
    (job_id difficulty : List ℕ) (c : Connection) → SameWork c (remember_job job_id difficulty c)
unfolding remember_job
remember_job-SameWork job_id [] c = record {
  output = refl;
  ids = refl;
  pending = refl;
  closing = refl;
}
remember_job-SameWork job_id (b ∷ bs) c = record {
  output = refl;
  ids = refl;
  pending = refl;
  closing = refl;
}
