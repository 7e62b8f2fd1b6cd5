-- ===== src/Stratum/SettleReplies.antt =====
-- src/stratum/stratum.cpp: the answer to the result of a submission.
use monero_solo_stratum.Common.{
  ℕ, ◌-◌, ◌+◌, refl, Bool, true, false, Option, none, some, List, if◌then◌else◌,
}
use monero_solo_stratum.Stratum.Targets.{ShareDisposition, accepted, share_disposition_message}
use monero_solo_stratum.Stratum.Connections.{Connection}
use monero_solo_stratum.Stratum.Config.{StratumServerConfig}
use monero_solo_stratum.Stratum.Submits.{
  Responses, CompletedSubmit, queue_error, is_uncreditable, count_uncreditable, closing_reason,
  close_after, refused_share, answered, settle,
}
use monero_solo_stratum.Stratum.Replies.{queue-IsAnswered, SameWork, same_work, IsAnswered-SameWork}
use monero_solo_stratum.Stratum.LoginReplies.{Releases, queue_error-Releases}

module _ (t : Responses) (config : StratumServerConfig) where
  count_uncreditable-SameWork :
      (d : ShareDisposition) (c : Connection) → SameWork c (count_uncreditable t config d c)
  count_uncreditable-SameWork d c = go (is_uncreditable t config d)
    where
      go :
          (b : Bool)
          → SameWork c (
              if b
              then record c { uncreditable_work_results = c.uncreditable_work_results + 1 }
              else c)
      go true = record { output = refl; ids = refl; pending = refl; closing = refl }
      go false = same_work c

  close_after-SameWork :
      (reason : Option (List ℕ)) (c : Connection) → SameWork c (close_after t config reason c)
  close_after-SameWork none c = same_work c
  close_after-SameWork (some reason) c = go c.closing
    where
      go :
          (b : Bool)
          → SameWork c (
              if b
              then c
              else record c { close_after_flush = true; close_after_flush_reason = reason })
      go true = same_work c
      go false = record { output = refl; ids = refl; pending = refl; closing = refl }

  refused_share-Releases :
      (r : CompletedSubmit) (c : Connection)
      → Releases t config r.request_key c (refused_share t config r c)
  refused_share-Releases r c =
      let message = share_disposition_message r.disposition in
      let refused = queue_error t config r.request_key message c in
      let told = count_uncreditable t config r.disposition refused in
      IsAnswered-SameWork c told _ _
        (IsAnswered-SameWork c refused _ _ (queue_error-Releases t config r.request_key message c)
          (count_uncreditable-SameWork r.disposition refused))
        (close_after-SameWork (closing_reason t config r told) told)

  answered-Releases :
      (d : ShareDisposition) (r : CompletedSubmit) (c : Connection)
      → Releases t config r.request_key c (answered t config d r c)
  answered-Releases accepted r c = queue-IsAnswered _ _ (some r.request_key) none c
  answered-Releases ShareDisposition.stale r c = refused_share-Releases r c
  answered-Releases ShareDisposition.duplicate r c = refused_share-Releases r c
  answered-Releases ShareDisposition.low_difficulty r c = refused_share-Releases r c
  answered-Releases ShareDisposition.invalid_result r c = refused_share-Releases r c
  answered-Releases ShareDisposition.unknown_job r c = refused_share-Releases r c
  answered-Releases ShareDisposition.server_busy r c = refused_share-Releases r c
  answered-Releases ShareDisposition.verifier_failed r c = refused_share-Releases r c
  answered-Releases ShareDisposition.cancelled r c = refused_share-Releases r c

  pub settle-Releases :
      (r : CompletedSubmit) (c : Connection)
      → Releases t config r.request_key
          (record c { pending_submits = c.pending_submits - 1 })
          (settle t config r c)
  unfolding settle
  settle-Releases r c =
      answered-Releases r.disposition r (record c { pending_submits = c.pending_submits - 1 })
