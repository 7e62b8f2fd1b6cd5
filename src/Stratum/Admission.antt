-- ===== src/Stratum/Admission.antt =====
-- src/stratum/stratum.cpp: admission and the invariant of the queues.
use monero_solo_stratum.Common.{
  ℕ, List, ◌+◌, ◌≤◌, ◌<◌, ◌≡◌, refl, sym, ◌∙◌, Bool, true, false, not, [], ◌∷◌, ◌==◌, if◌then◌else◌,
  length-append, arith,
}
use monero_solo_stratum.Common.Map.{one_if}
use monero_solo_stratum.Common.Text.{codes}
use monero_solo_stratum.Stratum.Connections.{Connection}
use monero_solo_stratum.Stratum.Config.{StratumServerConfig}
use monero_solo_stratum.Stratum.Submits.{
  Responses, PendingSubmit, Server, update, queue_error, is_busy, enqueue, admit_pending,
}
use monero_solo_stratum.Stratum.SubmitCounts.{
  count_of-append, under_way, SubmitInv, update_at, queue_error-Keeps,
}
use monero_solo_stratum.Stratum.SubmitSteps.{own_count, other_count, changed-Inv}

module _ {S : Type 0} (t : Responses) (config : StratumServerConfig) where
  -- A submission of a connection, at the end of its lane.
  counted_in_lane :
      (claimed : Bool) (p : PendingSubmit S) (s : Server S) (other : ℕ)
      → under_way other (enqueue t config claimed p s)
        ≡ under_way other s + one_if (p.connection == other)
  counted_in_lane true p s other =
      omega (arith, count_of-append other s.pending_candidate_submits (p ∷ []))
  counted_in_lane false p s other = omega (arith, count_of-append other s.pending_submits (p ∷ []))

  counts_with :
      (claimed : Bool) (p : PendingSubmit S) (c : Connection) (s : Server S)
      → c.closing ≡ (s.connections p.connection).closing
      → c.pending_submits ≡ (s.connections p.connection).pending_submits + 1
      → SubmitInv config [] s
      → (other : ℕ) → (update s.connections p.connection c other).closing ≡ false
      → (update s.connections p.connection c other).pending_submits
        ≡ under_way other (enqueue t config claimed p s) + 0
  counts_with claimed p c s closing pending inv =
      update_at
        (λ (other : ℕ) (d : Connection).
          d.closing ≡ false
          → d.pending_submits ≡ under_way other (enqueue t config claimed p s) + 0)
        s.connections p.connection c
        (λ other away live. omega (
          arith,
          inv.counted other live,
          counted_in_lane claimed p s other,
          other_count p.connection other away,
        ))
        (λ live. omega (
          arith,
          pending,
          inv.counted p.connection (sym closing ∙ live),
          counted_in_lane claimed p s p.connection,
          own_count p.connection,
        ))

  limit_with :
      (p : PendingSubmit S) (c : Connection) (s : Server S)
      → c.pending_submits ≡ (s.connections p.connection).pending_submits + 1
      → (s.connections p.connection).pending_submits < config.max_pending_submits_per_connection
      → SubmitInv config [] s
      → (other : ℕ)
      → (update s.connections p.connection c other).pending_submits
        ≤ config.max_pending_submits_per_connection
  limit_with p c s pending room inv =
      update_at
        (λ (other : ℕ) (d : Connection).
          d.pending_submits ≤ config.max_pending_submits_per_connection)
        s.connections p.connection c (λ other away. inv.limited other) (omega (arith, pending))

  enqueue-Inv :
      (claimed : Bool) (p : PendingSubmit S) (c : Connection) (s : Server S)
      → c.closing ≡ (s.connections p.connection).closing
      → c.pending_submits ≡ (s.connections p.connection).pending_submits + 1
      → is_busy t config claimed (s.connections p.connection) s ≡ false
      → SubmitInv config [] s
      → SubmitInv config [] (
          enqueue t config claimed p
            (record s { connections = update s.connections p.connection c }))
  enqueue-Inv true p c s closing pending free inv = record {
    counted = counts_with true p c s closing pending inv;
    limited = limit_with p c s pending (ground arith) inv;
    ordinary_fit = inv.ordinary_fit;
    all_fit = ground (arith, length-append s.pending_candidate_submits (p ∷ []));
  }
  enqueue-Inv false p c s closing pending free inv = record {
    counted = counts_with false p c s closing pending inv;
    limited = limit_with p c s pending (ground arith) inv;
    ordinary_fit = ground (arith, length-append s.pending_submits (p ∷ []));
    all_fit = ground (arith, length-append s.pending_submits (p ∷ []));
  }

  branched :
      (down busy : Bool) (s refused admitted : Server S)
      → SubmitInv config [] s
      → SubmitInv config [] refused
      → (busy ≡ false → SubmitInv config [] admitted)
      → SubmitInv config [] (if down then s else if busy then refused else admitted)
  branched true busy s refused admitted inv r a = inv
  branched false true s refused admitted inv r a = r
  branched false false s refused admitted inv r a = a refl

  pub admit_pending-Inv :
      (claimed : Bool) (id : ℕ) (key : List ℕ) (submission : S) (s : Server S)
      → SubmitInv config [] s
      → SubmitInv config [] (admit_pending t config claimed id key submission s)
  unfolding admit_pending
  admit_pending-Inv claimed id key submission s inv =
      let kept = queue_error-Keeps t config key (codes "Server busy") (s.connections id) in
      branched (not s.running) (is_busy t config claimed (s.connections id) s) s _ _ inv
        (changed-Inv t config [] [] id
          (queue_error t config key (codes "Server busy") (s.connections id)) s.recorded s
          (λ other away. refl) (λ live. kept.pending ∙ inv.counted id (kept.closing live))
          (omega (arith, kept.pending, inv.limited id)) inv)
        (λ free. enqueue-Inv claimed _ _ s refl refl free inv)
