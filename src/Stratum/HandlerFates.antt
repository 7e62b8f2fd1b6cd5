-- ===== src/Stratum/HandlerFates.antt =====
-- src/stratum/stratum.cpp: what becomes of the request of each handler.
use monero_solo_stratum.Common.{
  either, ℕ, ◌≡◌, refl, Bool, true, false, not, ◌&&◌, Option, none, some, List, if◌then◌else◌,
  arith,
}
use monero_solo_stratum.Common.Text.{codes}
use monero_solo_stratum.Common.Map.{same_text}
use monero_solo_stratum.Defense.{AbuseKind}
use monero_solo_stratum.Stratum.Config.{StratumServerConfig}
use monero_solo_stratum.Stratum.Submits.{Responses, Server}
use monero_solo_stratum.Stratum.Login.{LoginResult, handle_login}
use monero_solo_stratum.Stratum.Json.{Json, MinerRequestId}
use monero_solo_stratum.Stratum.Submission.{
  StratumSubmission, Callbacks, SubmitTexts, decode_submission, submit_texts,
}
use monero_solo_stratum.Stratum.Requests.{
  fail_request, told, after_login, submit_decoded, handle_submit, dispatch,
}
use monero_solo_stratum.Stratum.LoginReplies.{
  queue_error-Releases, handle_keepalive-Releases, AnswersLogin, threw, releases,
  handle_login-AnswersLogin,
}
use monero_solo_stratum.Stratum.Fates.{Handled, stopped, changed-Handled}
use monero_solo_stratum.Stratum.SubmitFates.{fail_request-Handled, submit_decoded-Handled}

module _ (t : Responses) (config : StratumServerConfig) where
  told_fail-Handled :
      (index : ℕ) (key message : List ℕ) (s : Server StratumSubmission)
      → Handled key index s
          (told t config index AbuseKind.malformed (fail_request t config index key message s))
  told_fail-Handled index key message s =
      changed-Handled key index _ s.running _ s
        (queue_error-Releases t config key message (s.connections index))

  module _ {J : Type 0} ⦃json : Json J⦄ where
    handle_submit-Handled :
        (callbacks : Callbacks) (now : ℕ) (params : J) (index : ℕ) (id : MinerRequestId)
        (key : List ℕ) (s : Server StratumSubmission)
        → Handled key index s (handle_submit t config callbacks now params index id key s)
    unfolding handle_submit
    handle_submit-Handled callbacks now params index id key s = go s.running refl
      where
        texts_case :
            (texts : Option SubmitTexts)
            → Handled key index s (elim texts [
              | none ↦ fail_request t config index key (codes "Invalid result") s
              | some texts ↦
                  submit_decoded t config callbacks index key
                    (decode_submission (s.connections index) id now texts)
                    s
            ])
        texts_case none = fail_request-Handled t config index key (codes "Invalid result") s
        texts_case (some texts) = submit_decoded-Handled t config callbacks index key _ s

        go :
            (up : Bool)
            → s.running ≡ up
            → Handled key index s (
                if not up
                then s
                else if not (callbacks.admit_submit (s.connections index).peer)
                then fail_request t config index key (codes "Server busy") s
                else elim (submit_texts params (s.connections index)) [
                  | none ↦ fail_request t config index key (codes "Invalid result") s
                  | some texts ↦
                      submit_decoded t config callbacks index key
                        (decode_submission (s.connections index) id now texts)
                        s
                ])
        go false e = stopped e
        go true e =
            either (Handled key index s) (not (callbacks.admit_submit (s.connections index).peer)) _
              _ (fail_request-Handled t config index key (codes "Server busy") s)
              (texts_case (submit_texts params (s.connections index)))

    pub dispatch-Handled :
        (callbacks : Callbacks) (now : ℕ) (name : List ℕ) (params : J) (index : ℕ)
        (id : MinerRequestId) (key : List ℕ) (s : Server StratumSubmission)
        → Handled key index s (dispatch t config callbacks now name params index id key s)
    unfolding dispatch
    dispatch-Handled callbacks now name params index id key s =
        let c = s.connections index in
        either (Handled key index s) (not c.authenticated && not (same_text name (codes "login"))) _
          _ (told_fail-Handled index key (codes "Unauthenticated") s)
          (either (Handled key index s) (same_text name (codes "login")) _ _
            (login_case (handle_login t config callbacks.jobs params key c)
              (handle_login-AnswersLogin t config callbacks.jobs params key c))
            (either (Handled key index s) (same_text name (codes "submit")) _ _
              (handle_submit-Handled callbacks now params index id key s)
              (either (Handled key index s) (same_text name (codes "keepalived")) _ _
                (changed-Handled key index _ s.running s.recorded s
                  (handle_keepalive-Releases t config now params key c))
                (told_fail-Handled index key (codes "Method not found") s))))
      where
        login_case :
            (r : LoginResult)
            → AnswersLogin t config key (s.connections index) r
            → Handled key index s (after_login t config index r s)
        login_case r (threw e) = stopped (ground (arith, e))
        login_case r (releases h) =
            changed-Handled key index r.connection (s.running && r.returned) _ s h
