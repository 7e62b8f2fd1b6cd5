-- ===== src/Stratum/DrainedIds.antt =====
-- src/stratum/stratum.cpp: the live request ids when the results are answered.
use monero_solo_stratum.Common.{
  ℕ, ◌-◌, ◌≡◌, ◌≢◌, refl, sym, ◌∙◌, ap, Bool, true, false, Option, List, [], ◌∷◌, if◌then◌else◌,
  arith,
}
use monero_solo_stratum.Common.Map.{one_if}
use monero_solo_stratum.Defense.{AbuseKind}
use monero_solo_stratum.Stratum.Connections.{Connection, forget_id}
use monero_solo_stratum.Stratum.Config.{StratumServerConfig}
use monero_solo_stratum.Stratum.Submits.{
  Responses, CompletedSubmit, Server, update, settle, drain_result, drain_results,
  drain_submit_results,
}
use monero_solo_stratum.Stratum.SubmitCounts.{update_at}
use monero_solo_stratum.Stratum.Json.{is_in}
use monero_solo_stratum.Stratum.Replies.{IsAnswered, closed, replied, is_in-forget_id}
use monero_solo_stratum.Stratum.SettleReplies.{settle-Releases}
use monero_solo_stratum.Stratum.LiveIds.{
  IdsAt, LiveIds, not_request, own_request, open_not_closing, released_id,
}

module _ {S : Type 0} (t : Responses) (config : StratumServerConfig) where
  drain_open :
      (r : CompletedSubmit) (left : List CompletedSubmit) (s : Server S)
      → IdsAt (r ∷ left) s r.connection (s.connections r.connection)
      → (s.connections r.connection).closing ≡ false
      → IdsAt left s r.connection (settle t config r (s.connections r.connection))
  drain_open r left s inv live = go (settle-Releases t config r (s.connections r.connection))
    where
      c : Connection
      c = s.connections r.connection

      go :
          IsAnswered
            (record c { pending_submits = c.pending_submits - 1 })
            (settle t config r c)
            (forget_id r.request_key c.live_request_ids)
          → IdsAt left s r.connection (settle t config r c)
      go (closed h) open_ k = absurd (open_not_closing _ h open_)
      go (replied p) open_ k =
          ap (λ (ids : List (List ℕ)). one_if (is_in k ids)) p.ids
          ∙ ap one_if (is_in-forget_id k r.request_key c.live_request_ids)
          ∙ released_id _ _ _ (inv live k ∙ omega (arith, own_request r.request_key r.connection k))

  drain_result-LiveIds :
      (r : CompletedSubmit) (left : List CompletedSubmit) (s : Server S)
      → LiveIds (r ∷ left) s
      → LiveIds left (drain_result t config r s)
  unfolding drain_result
  drain_result-LiveIds r left s inv = go (s.connections r.connection).closing _ refl
    where
      others :
          (other : ℕ)
          → other ≢ r.connection
          → IdsAt (r ∷ left) s other (s.connections other)
          → IdsAt left s other (s.connections other)
      others other away h live k =
          h live k ∙ omega (arith, not_request r.request_key r.connection k other away)

      go :
          (b : Bool) (recorded : Option (List (ℕ × AbuseKind)))
          → (s.connections r.connection).closing ≡ b
          → LiveIds left (
              if b then s else record s {
                connections =
                    update s.connections r.connection
                      (settle t config r (s.connections r.connection));
                recorded = recorded;
              })
      go true recorded e up i = λ live.
          others i
            (λ same.
              open_not_closing _ e (ap (λ (x : ℕ). (s.connections x).closing) (sym same) ∙ live))
            (inv up i) live
      go false recorded e up i =
          update_at (IdsAt left s) s.connections r.connection
            (settle t config r (s.connections r.connection))
            (λ other away. others other away (inv up other))
            (drain_open r left s (inv up r.connection) e) i

  drain_results-LiveIds :
      (results : List CompletedSubmit) (s : Server S)
      → LiveIds results s
      → LiveIds [] (drain_results t config results s)
  unfolding drain_results
  drain_results-LiveIds [] s inv = inv
  drain_results-LiveIds (r ∷ results) s inv =
      drain_results-LiveIds results (drain_result t config r s)
        (drain_result-LiveIds r results s inv)

  pub drain_submit_results-LiveIds :
      (s : Server S) → LiveIds [] s → LiveIds [] (drain_submit_results t config s)
  unfolding drain_submit_results
  drain_submit_results-LiveIds s inv =
      drain_results-LiveIds s.completed_submits (record s { completed_submits = [] })
        (λ up i live k. inv up i live k ∙ omega arith)
