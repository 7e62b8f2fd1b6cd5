-- ===== src/Stratum/KeptIds.antt =====
-- src/stratum/stratum.cpp: the live request ids while texts are sent, jobs are refreshed
-- and connections expire.
use monero_solo_stratum.Common.{
  either, some_injective, subst, arith, none, ltb, ◌-◌, length, some, Option, not, sym, ◌||◌, ℕ,
  ◌≡◌, refl, ◌∙◌, ap, Bool, true, false, List, [], ◌∷◌, if◌then◌else◌, drop,
}
use monero_solo_stratum.Common.Map.{one_if}
use monero_solo_stratum.Stratum.Targets.{wire_target}
use monero_solo_stratum.Stratum.Connections.{
  OutputChunk, Connection, close_connection, SendResult, sent, closed_by_peer, interrupted,
  would_block, send_failed, flushed, Turn, again, returned, turn_of, send_front, write_ready, queue,
  remember_job,
}
use monero_solo_stratum.Stratum.Config.{StratumServerConfig}
use monero_solo_stratum.Stratum.Submits.{
  Responses, Server, StratumJob, JobAnswer, provided, unavailable, provider_failed,
}
use monero_solo_stratum.Stratum.SubmitCounts.{update_at}
use monero_solo_stratum.Stratum.Json.{is_in}
use monero_solo_stratum.Stratum.Requests.{set_connection}
use monero_solo_stratum.Stratum.LiveIds.{IdsAt, LiveIds}
use monero_solo_stratum.Stratum.Replies.{remember_job-SameWork}
use monero_solo_stratum.Stratum.Upkeep.{
  notified, notify, visited, refresh_connection, refresh_jobs_now, close_all,
}

-- The live ids are kept, and a closing connection stays closing.
pub record KeepsIds (c d : Connection) : Type 0 where
  pub ids : d.live_request_ids ≡ c.live_request_ids
  pub closing : d.closing ≡ false → c.closing ≡ false

same_ids : (c : Connection) → KeepsIds c c
same_ids c = record { ids = refl; closing = λ h. h }

KeepsIds-trans : (c d e : Connection) → KeepsIds c d → KeepsIds d e → KeepsIds c e
KeepsIds-trans c d e k l = record { ids = l.ids ∙ k.ids; closing = λ h. k.closing (l.closing h) }

pub close_connection-KeepsIds : (c : Connection) → KeepsIds c (close_connection c)
unfolding close_connection
close_connection-KeepsIds c = go c.closing refl
  where
    go :
        (b : Bool)
        → c.closing ≡ b
        → KeepsIds c (if b then c else record c { closing = true; descriptor = none })
    go true e = same_ids c
    go false e = record { ids = refl; closing = λ h. e }

flushed-KeepsIds : (c : Connection) → KeepsIds c (flushed c)
flushed-KeepsIds c =
    either (KeepsIds c) c.close_after_flush _ _ (close_connection-KeepsIds c) (same_ids c)

abbrev TurnKeeps : Connection → Turn → Type 0
TurnKeeps c (again d) = KeepsIds c d
TurnKeeps c (returned d) = KeepsIds c d

turn_of-ids :
    (r : SendResult) (chunk : OutputChunk) (rest : List OutputChunk) (c : Connection)
    → TurnKeeps c (turn_of r chunk rest c)
turn_of-ids (sent n) chunk rest c = record { ids = refl; closing = λ h. h }
turn_of-ids interrupted chunk rest c = same_ids c
turn_of-ids would_block chunk rest c = same_ids c
turn_of-ids closed_by_peer chunk rest c = close_connection-KeepsIds c
turn_of-ids send_failed chunk rest c = close_connection-KeepsIds c

send_front-ids :
    (send : List ℕ → SendResult) (output : List OutputChunk) (c : Connection)
    → TurnKeeps c (send_front send output c)
send_front-ids send [] c = flushed-KeepsIds c
send_front-ids send (chunk ∷ rest) c =
    turn_of-ids (send (drop chunk.offset chunk.text)) chunk rest c

pub write_ready-KeepsIds :
    (answers : List (List ℕ → SendResult)) (c : Connection) → KeepsIds c (write_ready answers c)
unfolding write_ready
write_ready-KeepsIds [] c = no_answer c.output
  where
    no_answer :
        (output : List OutputChunk) → KeepsIds c (elim output [ [] ↦ flushed c | chunk ∷ rest ↦ c ])
    no_answer [] = flushed-KeepsIds c
    no_answer (chunk ∷ rest) = same_ids c
write_ready-KeepsIds (send ∷ answers) c =
    go (send_front send c.output c) (λ d. write_ready-KeepsIds answers d)
      (send_front-ids send c.output c)
  where
    go :
        (t : Turn)
        → ((d : Connection) → KeepsIds d (write_ready answers d))
        → TurnKeeps c t
        → KeepsIds c (elim t [ again d ↦ write_ready answers d | returned d ↦ d ])
    go (again d) ih k = KeepsIds-trans c d (write_ready answers d) k (ih d)
    go (returned d) ih k = k

-- Without a key to release.
queue-KeepsIds :
    (m : ℕ) (text : List ℕ) (height : Option ℕ) (c : Connection)
    → KeepsIds c (queue m text none height c).0
unfolding queue
queue-KeepsIds m text height c =
    go (c.closing || ltb m (length text) || ltb (m - length text) c.output_bytes) _ refl refl
  where
    go :
        (b : Bool) (added : Connection)
        → added.live_request_ids ≡ c.live_request_ids
        → added.closing ≡ c.closing
        → (let r : Connection × Bool = if b then (close_connection c, false) else (added, true) in
            KeepsIds c r.0)
    go true added ids open_ = close_connection-KeepsIds c
    go false added ids open_ = record { ids = ids; closing = λ h. sym open_ ∙ h }

module _ (t : Responses) (config : StratumServerConfig) where
  notified-KeepsIds :
      (job : StratumJob) (c d : Connection) (queued : Bool)
      → KeepsIds c d
      → KeepsIds c (notified t config job (d, queued))
  notified-KeepsIds job c d false k = k
  notified-KeepsIds job c d true k = go job.on_queued
    where
      known : Connection
      known = remember_job job.job_id job.network_difficulty d

      remembered : KeepsIds c known
      remembered =
          let same = remember_job-SameWork job.job_id job.network_difficulty d in
          record { ids = same.ids ∙ k.ids; closing = λ h. k.closing (sym same.closing ∙ h) }

      go :
          (called : Option Bool)
          → KeepsIds c (elim called [
            | none ↦ known
            | some true ↦ known
            | some false ↦ close_connection known
          ])
      go none = remembered
      go (some true) = remembered
      go (some false) =
          KeepsIds-trans c known (close_connection known) remembered
            (close_connection-KeepsIds known)

  notify-KeepsIds :
      (answer : JobAnswer) (c d : Connection) → notify t config answer c ≡ some d → KeepsIds c d
  notify-KeepsIds provider_failed c d e = absurd (ground arith)
  notify-KeepsIds unavailable c d e =
      subst (KeepsIds c) (some_injective e) (close_connection-KeepsIds c)
  notify-KeepsIds (provided job) c d e =
      let text = t.job_notification job (wire_target job.target c.agent c.assigned_difficulty) in
      let r = queue config.max_output_bytes_per_connection text none (some job.height) c in
      subst (KeepsIds c) (some_injective e) (
        notified-KeepsIds job c r.0 r.1
          (queue-KeepsIds config.max_output_bytes_per_connection text (some job.height) c))

  pub refresh_connection-KeepsIds :
      (jobs : Connection → JobAnswer) (c d : Connection)
      → refresh_connection t config jobs c ≡ some d
      → KeepsIds c d
  unfolding refresh_connection
  refresh_connection-KeepsIds jobs c d e =
      either (λ (o : Option Connection). o ≡ some d → KeepsIds c d)
        (not c.authenticated || c.closing) _ _
        (λ same. subst (KeepsIds c) (some_injective same) (same_ids c))
        (notify-KeepsIds (jobs c) c d) e

module _ {S : Type 0} where
  pub set_connection-LiveIds :
      (index : ℕ) (d : Connection) (s : Server S)
      → KeepsIds (s.connections index) d
      → LiveIds [] s
      → LiveIds [] (set_connection index d s)
  set_connection-LiveIds index d s kept inv up =
      update_at (IdsAt [] s) s.connections index d (λ other away. inv up other)
        (λ live k.
          ap (λ (ids : List (List ℕ)). one_if (is_in k ids)) kept.ids
          ∙ inv up index (kept.closing live) k)

  pub close_all-LiveIds :
      (expired : List ℕ) (s : Server S) → LiveIds [] s → LiveIds [] (close_all expired s)
  unfolding close_all
  close_all-LiveIds [] s inv = inv
  close_all-LiveIds (x ∷ xs) s inv =
      close_all-LiveIds xs (set_connection x (close_connection (s.connections x)) s) (
        set_connection-LiveIds x (close_connection (s.connections x)) s
          (close_connection-KeepsIds (s.connections x)) inv)

  pub refresh_jobs_now-LiveIds :
      (t : Responses) (config : StratumServerConfig) (jobs : Connection → JobAnswer)
      (active : List ℕ) (s : Server S)
      → LiveIds [] s
      → LiveIds [] (refresh_jobs_now t config jobs active s)
  unfolding refresh_jobs_now
  refresh_jobs_now-LiveIds t config jobs [] s inv = inv
  refresh_jobs_now-LiveIds t config jobs (x ∷ xs) s inv =
      either (LiveIds []) s.running _ _
        (go (refresh_connection t config jobs (s.connections x)) refl
          (λ next h. refresh_jobs_now-LiveIds t config jobs xs next h))
        inv
    where
      go :
          (o : Option Connection)
          → refresh_connection t config jobs (s.connections x) ≡ o
          → ((next : Server S)
              → LiveIds [] next
              → LiveIds [] (refresh_jobs_now t config jobs xs next))
          → LiveIds [] (visited t config x (λ next. refresh_jobs_now t config jobs xs next) o s)
      go none e ih = λ up. absurd (ground arith)
      go (some d) e ih = ih (set_connection x d s) (
          set_connection-LiveIds x d s
            (refresh_connection-KeepsIds t config jobs (s.connections x) d e) inv)
