-- ===== src/Stratum/SubmitSteps.antt =====
-- src/stratum/stratum.cpp: the steps of the submissions' queues and their invariant.
use monero_solo_stratum.Common.{
  ℕ, ◌+◌, ◌≤◌, ◌≡◌, ◌≢◌, refl, sym, ◌∙◌, ap, Bool, true, false, Option, List, [], ◌∷◌, ◌++◌, ◌==◌,
  if◌then◌else◌, length, arith,
}
use monero_solo_stratum.Common.Map.{one_if}
use monero_solo_stratum.Defense.{AbuseKind}
use monero_solo_stratum.Stratum.Targets.{ShareDisposition}
use monero_solo_stratum.Stratum.Connections.{Connection, close_connection}
use monero_solo_stratum.Stratum.Config.{StratumServerConfig}
use monero_solo_stratum.Stratum.Submits.{
  Responses, PendingSubmit, CompletedSubmit, Server, update, settle, drain_result, drain_results,
  drain_submit_results, take_work, complete_work,
}
use monero_solo_stratum.Stratum.SubmitCounts.{
  count_of, count_done, count_of-append, count_done-append, under_way, SubmitInv, update_at,
  close_connection-Keeps, settle_lem,
}

pub own_count : (id : ℕ) → one_if (id == id) ≡ 1
own_count id = ground arith

pub other_count : (id other : ℕ) → other ≢ id → one_if (id == other) ≡ 0
other_count id other away = ground arith

true≢false : (b : Bool) → b ≡ true → b ≡ false → ⊥
true≢false b h e = cc

module _ {S : Type 0} (t : Responses) (config : StratumServerConfig) where
  -- One connection is changed and the queues are left.
  pub changed-Inv :
      (left later : List CompletedSubmit) (id : ℕ) (c : Connection)
      (told : Option (List (ℕ × AbuseKind))) (s : Server S)
      → ((other : ℕ) → other ≢ id → count_done other later ≡ count_done other left)
      → (c.closing ≡ false → c.pending_submits ≡ under_way id s + count_done id later)
      → c.pending_submits ≤ config.max_pending_submits_per_connection
      → SubmitInv config left s
      → SubmitInv config later
          (record s { connections = update s.connections id c; recorded = told })
  changed-Inv left later id c told s others here limit inv = record {
    counted =
        update_at
          (λ (other : ℕ) (d : Connection).
            d.closing ≡ false → d.pending_submits ≡ under_way other s + count_done other later)
          s.connections id c
          (λ other away live. omega (arith, inv.counted other live, others other away)) here;
    limited =
        update_at
          (λ (other : ℕ) (d : Connection).
            d.pending_submits ≤ config.max_pending_submits_per_connection)
          s.connections id c (λ other away. inv.limited other) limit;
    ordinary_fit = inv.ordinary_fit;
    all_fit = inv.all_fit;
  }

  drain_result-Inv :
      (r : CompletedSubmit) (left : List CompletedSubmit) (s : Server S)
      → SubmitInv config (r ∷ left) s
      → SubmitInv config left (drain_result t config r s)
  unfolding drain_result
  drain_result-Inv r left s inv = go (s.connections r.connection).closing _ refl
    where
      go :
          (b : Bool) (told : Option (List (ℕ × AbuseKind)))
          → (s.connections r.connection).closing ≡ b
          → SubmitInv config left (
              if b then s else record s {
                connections =
                    update s.connections r.connection
                      (settle t config r (s.connections r.connection));
                recorded = told;
              })
      go true told e = record {
        counted = λ id live.
            let away : id ≢ r.connection = λ same.
              true≢false _ e (ap (λ (x : ℕ). (s.connections x).closing) (sym same) ∙ live) in
            omega (arith, inv.counted id live, other_count r.connection id away);
        limited = inv.limited;
        ordinary_fit = inv.ordinary_fit;
        all_fit = inv.all_fit;
      }
      go false told e =
          let settled = settle_lem t config r (s.connections r.connection) in
          changed-Inv (r ∷ left) left r.connection _ told s
            (λ other away. omega (arith, other_count r.connection other away))
            (λ live. omega (arith, settled.0, inv.counted r.connection e, own_count r.connection))
            (omega (arith, settled.0, inv.limited r.connection)) inv

  drain_results-Inv :
      (results : List CompletedSubmit) (s : Server S)
      → SubmitInv config results s
      → SubmitInv config [] (drain_results t config results s)
  unfolding drain_results
  drain_results-Inv [] s inv = inv
  drain_results-Inv (r ∷ results) s inv =
      drain_results-Inv results (drain_result t config r s) (drain_result-Inv r results s inv)

  pub drain_submit_results-Inv :
      (s : Server S) → SubmitInv config [] s → SubmitInv config [] (drain_submit_results t config s)
  unfolding drain_submit_results
  drain_submit_results-Inv s inv = drain_results-Inv s.completed_submits _ (record {
    counted = λ id live. omega (arith, inv.counted id live);
    limited = inv.limited;
    ordinary_fit = inv.ordinary_fit;
    all_fit = inv.all_fit;
  })

  pub take_work-Inv :
      (candidate_lane : Bool) (s : Server S)
      → SubmitInv config [] s
      → SubmitInv config [] (take_work candidate_lane s)
  unfolding take_work
  take_work-Inv true s inv = candidate s.pending_candidate_submits refl
    where
      candidate :
          (lane : List (PendingSubmit S))
          → s.pending_candidate_submits ≡ lane
          → SubmitInv config [] (elim lane [
            | [] ↦ s
            | work ∷ later ↦ record s {
              pending_candidate_submits = later;
              working = s.working ++ work ∷ [];
            }
          ])
      candidate [] e = inv
      candidate (work ∷ later) e = record {
        counted = λ id live. omega (
          arith,
          inv.counted id live,
          ap (count_of id) e,
          count_of-append id s.working (work ∷ []),
        );
        limited = inv.limited;
        ordinary_fit = inv.ordinary_fit;
        all_fit = omega (arith, inv.all_fit, ap length e);
      }
  take_work-Inv false s inv = ordinary s.pending_submits refl
    where
      ordinary :
          (lane : List (PendingSubmit S))
          → s.pending_submits ≡ lane
          → SubmitInv config [] (elim lane [
            | [] ↦ s
            | work ∷ later ↦ record s { pending_submits = later; working = s.working ++ work ∷ [] }
          ])
      ordinary [] e = inv
      ordinary (work ∷ later) e = record {
        counted = λ id live. omega (
          arith,
          inv.counted id live,
          ap (count_of id) e,
          count_of-append id s.working (work ∷ []),
        );
        limited = inv.limited;
        ordinary_fit = omega (arith, inv.ordinary_fit, ap length e);
        all_fit = omega (arith, inv.all_fit, ap length e);
      }

  pub complete_work-Inv :
      (before : List (PendingSubmit S)) (work : PendingSubmit S) (after : List (PendingSubmit S))
      (disposition : ShareDisposition) (internal_code : List ℕ) (s : Server S)
      → s.working ≡ before ++ work ∷ after
      → SubmitInv config [] s
      → SubmitInv config [] (complete_work before work after disposition internal_code s)
  unfolding complete_work
  complete_work-Inv before work after disposition internal_code s e inv = record {
    counted = λ id live. omega (
      arith,
      inv.counted id live,
      ap (count_of id) e,
      count_of-append id before (work ∷ after),
      count_of-append id before after,
      count_done-append id s.completed_submits (
          record {
            connection = work.connection;
            request_key = work.request_key;
            disposition = disposition;
            internal_code = internal_code;
          }
          ∷ []),
    );
    limited = inv.limited;
    ordinary_fit = inv.ordinary_fit;
    all_fit = inv.all_fit;
  }

  pub close_connection-Inv :
      (id : ℕ) (s : Server S)
      → SubmitInv config [] s
      → SubmitInv config []
          (record s { connections = update s.connections id (close_connection (s.connections id)) })
  close_connection-Inv id s inv =
      let kept = close_connection-Keeps (s.connections id) in
      changed-Inv [] [] id (close_connection (s.connections id)) s.recorded s (λ other away. refl)
        (λ live. kept.pending ∙ inv.counted id (kept.closing live))
        (omega (arith, kept.pending, inv.limited id)) inv
