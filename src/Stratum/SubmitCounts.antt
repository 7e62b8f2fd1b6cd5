-- ===== src/Stratum/SubmitCounts.antt =====
-- src/stratum/stratum.cpp: what the queues of submissions hold, and the invariant of their counts.
use monero_solo_stratum.Common.{
  ℕ, ◌+◌, ◌-◌, ◌≤◌, ◌≡◌, ◌≢◌, refl, sym, ◌∙◌, subst, Bool, true, false, ◌||◌, Option, none, some,
  List, [], ◌∷◌, ◌++◌, ltb, ◌==◌, ==_iff, if◌then◌else◌, length, arith,
}
use monero_solo_stratum.Common.Map.{one_if}
use monero_solo_stratum.Stratum.Targets.{ShareDisposition, accepted, share_disposition_message}
use monero_solo_stratum.Stratum.Connections.{Connection, close_connection, queue}
use monero_solo_stratum.Stratum.Config.{StratumServerConfig}
use monero_solo_stratum.Stratum.Submits.{
  Responses, PendingSubmit, CompletedSubmit, Server, update, queue_error, is_uncreditable,
  count_uncreditable, closing_reason, close_after, refused_share, answered, settle,
}

abbrev pub count_done : ℕ → List CompletedSubmit → ℕ
count_done id [] = 0
count_done id (r ∷ rs) = one_if (r.connection == id) + count_done id rs

module _ {S : Type 0} where
  abbrev pub count_of : ℕ → List (PendingSubmit S) → ℕ
  count_of id [] = 0
  count_of id (p ∷ ps) = one_if (p.connection == id) + count_of id ps

  pub count_of-append :
      (id : ℕ) (xs ys : List (PendingSubmit S))
      → count_of id (xs ++ ys) ≡ count_of id xs + count_of id ys
  count_of-append id [] ys = omega arith
  count_of-append id (x ∷ xs) ys = omega (arith, count_of-append id xs ys)

  -- The submissions of a connection that are queued, at a worker or answered and not yet sent.
  abbrev pub under_way : ℕ → Server S → ℕ
  under_way id s =
      count_of id s.pending_submits
      + count_of id s.pending_candidate_submits
      + count_of id s.working
      + count_done id s.completed_submits

  -- With the results of which the loop is not yet done.
  pub record SubmitInv (config : StratumServerConfig) (left : List CompletedSubmit) (s : Server S)
      : Type 0 where
    pub counted :
        (id : ℕ)
        → (s.connections id).closing ≡ false
        → (s.connections id).pending_submits ≡ under_way id s + count_done id left
    pub limited :
        (id : ℕ) → (s.connections id).pending_submits ≤ config.max_pending_submits_per_connection
    pub ordinary_fit :
        length s.pending_submits ≤ config.max_pending_submits - config.candidate_submit_reserve
    pub all_fit :
        length s.pending_submits + length s.pending_candidate_submits ≤ config.max_pending_submits

pub count_done-append :
    (id : ℕ) (xs ys : List CompletedSubmit)
    → count_done id (xs ++ ys) ≡ count_done id xs + count_done id ys
count_done-append id [] ys = omega arith
count_done-append id (x ∷ xs) ys = omega (arith, count_done-append id xs ys)

pub update_at {ℓ} :
    (P : ℕ → Connection → Type ℓ) (connections : ℕ → Connection) (id : ℕ) (c : Connection)
    → ((other : ℕ) → other ≢ id → P other (connections other))
    → P id c
    → (other : ℕ) → P other (update connections id c other)
update_at P connections id c away here other = go (other == id) refl
  where
    go : (b : Bool) → (other == id) ≡ b → P other (if b then c else connections other)
    go true e = subst (λ (x : ℕ). P x c) (sym ((==_iff other id).0 e)) here
    go false e = away other (λ same. ground (arith, ==_iff other id))

-- The number of submissions is kept, and a closing connection stays closing.
pub record Keeps (c d : Connection) : Type 0 where
  pub pending : d.pending_submits ≡ c.pending_submits
  pub closing : d.closing ≡ false → c.closing ≡ false

Keeps-trans : (c d e : Connection) → Keeps c d → Keeps d e → Keeps c e
Keeps-trans c d e k l = record {
  pending = l.pending ∙ k.pending;
  closing = λ h. k.closing (l.closing h);
}

pub close_connection-Keeps : (c : Connection) → Keeps c (close_connection c)
unfolding close_connection
close_connection-Keeps c = go c.closing c refl
  where
    go :
        (b : Bool) (c : Connection)
        → c.closing ≡ b
        → Keeps c (if b then c else record c { closing = true; descriptor = none })
    go true c e = record { pending = refl; closing = λ h. h }
    go false c e = record { pending = refl; closing = λ h. e }

queue-Keeps :
    (m : ℕ) (text : List ℕ) (key : Option (List ℕ)) (height : Option ℕ) (c : Connection)
    → Keeps c (queue m text key height c).0
unfolding queue
queue-Keeps m text key height c =
    go (c.closing || ltb m (length text) || ltb (m - length text) c.output_bytes) _ refl refl
  where
    go :
        (b : Bool) (added : Connection)
        → added.pending_submits ≡ c.pending_submits
        → added.closing ≡ c.closing
        → (let r : Connection × Bool = if b then (close_connection c, false) else (added, true) in
            Keeps c r.0)
    go true added p k = close_connection-Keeps c
    go false added p k = record { pending = p; closing = λ h. sym k ∙ h }

module _ (t : Responses) (config : StratumServerConfig) where
  pub queue_error-Keeps :
      (key message : List ℕ) (c : Connection) → Keeps c (queue_error t config key message c)
  queue_error-Keeps key message c = queue-Keeps _ _ _ _ c

  count_uncreditable-Keeps :
      (d : ShareDisposition) (c : Connection) → Keeps c (count_uncreditable t config d c)
  count_uncreditable-Keeps d c = go (is_uncreditable t config d)
    where
      go :
          (b : Bool)
          → Keeps c (
              if b
              then record c { uncreditable_work_results = c.uncreditable_work_results + 1 }
              else c)
      go true = record { pending = refl; closing = λ h. h }
      go false = record { pending = refl; closing = λ h. h }

  close_after-Keeps :
      (reason : Option (List ℕ)) (c : Connection) → Keeps c (close_after t config reason c)
  close_after-Keeps none c = record { pending = refl; closing = λ h. h }
  close_after-Keeps (some reason) c = go c.closing
    where
      go :
          (b : Bool)
          → Keeps c (
              if b
              then c
              else record c { close_after_flush = true; close_after_flush_reason = reason })
      go true = record { pending = refl; closing = λ h. h }
      go false = record { pending = refl; closing = λ h. h }

  refused_share-Keeps :
      (r : CompletedSubmit) (c : Connection) → Keeps c (refused_share t config r c)
  refused_share-Keeps r c =
      let message = share_disposition_message r.disposition in
      let refused = queue_error t config r.request_key message c in
      let told = count_uncreditable t config r.disposition refused in
      Keeps-trans c refused _ (queue_error-Keeps r.request_key message c) (
        Keeps-trans refused told _ (count_uncreditable-Keeps r.disposition refused)
          (close_after-Keeps (closing_reason t config r told) told))

  answered-Keeps :
      (d : ShareDisposition) (r : CompletedSubmit) (c : Connection)
      → Keeps c (answered t config d r c)
  answered-Keeps accepted r c = queue-Keeps _ _ _ _ c
  answered-Keeps ShareDisposition.stale r c = refused_share-Keeps r c
  answered-Keeps ShareDisposition.duplicate r c = refused_share-Keeps r c
  answered-Keeps ShareDisposition.low_difficulty r c = refused_share-Keeps r c
  answered-Keeps ShareDisposition.invalid_result r c = refused_share-Keeps r c
  answered-Keeps ShareDisposition.unknown_job r c = refused_share-Keeps r c
  answered-Keeps ShareDisposition.server_busy r c = refused_share-Keeps r c
  answered-Keeps ShareDisposition.verifier_failed r c = refused_share-Keeps r c
  answered-Keeps ShareDisposition.cancelled r c = refused_share-Keeps r c

  -- Settling a result is one submission less.
  pub settle_lem :
      (r : CompletedSubmit) (c : Connection)
      → ((settle t config r c).pending_submits ≡ c.pending_submits - 1)
        × ((settle t config r c).closing ≡ false → c.closing ≡ false)
  unfolding settle
  settle_lem r c =
      let k =
        answered-Keeps r.disposition r (record c { pending_submits = c.pending_submits - 1 }) in
      (k.pending, k.closing)
