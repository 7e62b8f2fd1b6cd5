-- ===== src/Stratum/SubmitFates.antt =====
-- src/stratum/stratum.cpp: what becomes of a submission that was decoded.
use monero_solo_stratum.Common.{
  either, ℕ, ◌+◌, ◌≡◌, refl, ◌∙◌, ap, Bool, true, false, not, Option, none, some, List, [], ◌∷◌,
  if◌then◌else◌, arith,
}
use monero_solo_stratum.Common.Outcome.{Outcome, ok, throw}
use monero_solo_stratum.Common.Text.{codes}
use monero_solo_stratum.Common.Map.{one_if}
use monero_solo_stratum.Monero.Target.{ValidationError}
use monero_solo_stratum.Stratum.Connections.{Connection}
use monero_solo_stratum.Stratum.Config.{StratumServerConfig}
use monero_solo_stratum.Stratum.Submits.{
  Responses, PendingSubmit, Server, update, is_busy, enqueue, admit_pending,
}
use monero_solo_stratum.Stratum.Submission.{StratumSubmission, Callbacks, resolve, claims_candidate}
use monero_solo_stratum.Stratum.Requests.{fail_request, admit_claimed, submit_decoded}
use monero_solo_stratum.Stratum.LoginReplies.{queue_error-Releases}
use monero_solo_stratum.Stratum.Fates.{
  is_request, count_requests-append, held, Handled, stopped, queued, update_own, update_other,
  changed-Handled,
}

module _ (t : Responses) (config : StratumServerConfig) where
  pub fail_request-Handled :
      (index : ℕ) (key message : List ℕ) (s : Server StratumSubmission)
      → Handled key index s (fail_request t config index key message s)
  fail_request-Handled index key message s =
      changed-Handled key index _ s.running s.recorded s
        (queue_error-Releases t config key message (s.connections index))

  -- A submission that found room.
  enqueue-held :
      (claimed : Bool) (p : PendingSubmit StratumSubmission) (s : Server StratumSubmission)
      (k : List ℕ) (i : ℕ)
      → held k i (enqueue t config claimed p s)
        ≡ held k i s + one_if (is_request p.request_key p.connection k i)
  enqueue-held true p s k i =
      omega (arith, count_requests-append k i s.pending_candidate_submits (p ∷ []))
  enqueue-held false p s k i = omega (arith, count_requests-append k i s.pending_submits (p ∷ []))

  enqueue-connections :
      (claimed : Bool) (p : PendingSubmit StratumSubmission) (s : Server StratumSubmission)
      → (enqueue t config claimed p s).connections ≡ s.connections
  enqueue-connections true p s = refl
  enqueue-connections false p s = refl

  enqueued-Handled :
      (claimed : Bool) (p : PendingSubmit StratumSubmission) (d : Connection)
      (s : Server StratumSubmission)
      → d.live_request_ids ≡ (s.connections p.connection).live_request_ids
      → d.output ≡ (s.connections p.connection).output
      → d.pending_submits ≡ (s.connections p.connection).pending_submits + 1
      → Handled p.request_key p.connection s (
          enqueue t config claimed p
            (record s { connections = update s.connections p.connection d }))
  enqueued-Handled claimed p d s live output pending =
      let same =
        enqueue-connections claimed p
          (record s { connections = update s.connections p.connection d }) in
      let here : (enqueue t config claimed p
              (record s { connections = update s.connections p.connection d })).connections
            p.connection
          ≡ d =
        ap (λ (f : ℕ → Connection). f p.connection) same
        ∙ update_own s.connections p.connection d in
      queued
        (λ other away.
          ap (λ (f : ℕ → Connection). f other) same
          ∙ update_other s.connections p.connection d other away)
        (λ k i.
          enqueue-held claimed p (record s { connections = update s.connections p.connection d }) k
            i)
        (ap (λ (c : Connection). c.live_request_ids) here ∙ live)
        (ap (λ (c : Connection). c.output) here ∙ output)
        (ap (λ (c : Connection). c.pending_submits) here ∙ pending)

  admit_pending-Handled :
      (claimed : Bool) (index : ℕ) (key : List ℕ) (submission : StratumSubmission)
      (s : Server StratumSubmission)
      → Handled key index s (admit_pending t config claimed index key submission s)
  unfolding admit_pending
  admit_pending-Handled claimed index key submission s = go s.running refl
    where
      counted : Connection
      counted = record (s.connections index) {
        request_sequence = (s.connections index).request_sequence + 1;
        pending_submits = (s.connections index).pending_submits + 1;
      }

      added : Server StratumSubmission
      added =
          enqueue t config claimed
            (record {
              connection = index;
              request_sequence = (s.connections index).request_sequence + 1;
              submission = submission;
              request_key = key;
            })
            (record s { connections = update s.connections index counted })

      go :
          (up : Bool)
          → s.running ≡ up
          → Handled key index s (
              if not up
              then s
              else if is_busy t config claimed (s.connections index) s
              then fail_request t config index key (codes "Server busy") s
              else added)
      go false e = stopped e
      go true e =
          either (Handled key index s) (is_busy t config claimed (s.connections index) s) _ _
            (fail_request-Handled index key (codes "Server busy") s)
            (enqueued-Handled claimed _ counted s refl refl refl)

  admit_claimed-Handled :
      (index : ℕ) (key : List ℕ) (submission : StratumSubmission)
      (claimed : Outcome ValidationError Bool) (s : Server StratumSubmission)
      → Handled key index s (admit_claimed t config index key submission claimed s)
  admit_claimed-Handled index key submission (throw e) s = stopped refl
  admit_claimed-Handled index key submission (ok claimed) s =
      admit_pending-Handled claimed index key submission s

  pub submit_decoded-Handled :
      (callbacks : Callbacks) (index : ℕ) (key : List ℕ) (submission : Option StratumSubmission)
      (s : Server StratumSubmission)
      → Handled key index s (submit_decoded t config callbacks index key submission s)
  submit_decoded-Handled callbacks index key none s =
      fail_request-Handled index key (codes "Invalid result") s
  submit_decoded-Handled callbacks index key (some submission) s =
      go (resolve callbacks submission (s.connections index))
    where
      go :
          (difficulty : Option (List ℕ))
          → Handled key index s (elim difficulty [
            | none ↦ fail_request t config index key (codes "Server busy") s
            | some difficulty ↦
                admit_claimed t config index key submission
                  (claims_candidate submission.claimed_hash difficulty)
                  s
          ])
      go none = fail_request-Handled index key (codes "Server busy") s
      go (some difficulty) = admit_claimed-Handled index key submission _ s
