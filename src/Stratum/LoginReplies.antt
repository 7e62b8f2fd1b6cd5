-- ===== src/Stratum/LoginReplies.antt =====
-- src/stratum/stratum.cpp: the answers to logins and keepalives.
use monero_solo_stratum.Common.{
  either, ℕ, ◌≡◌, refl, subst, Bool, true, false, not, ◌&&◌, Option, none, some, List, [], ◌∷◌,
  ◌==◌, if◌then◌else◌, length,
}
use monero_solo_stratum.Common.Text.{codes}
use monero_solo_stratum.Common.Map.{same_text}
use monero_solo_stratum.Defense.{AbuseKind}
use monero_solo_stratum.Stratum.Targets.{login_difficulty}
use monero_solo_stratum.Stratum.Connections.{
  Connection, close_connection, forget_id, queue, remember_job,
}
use monero_solo_stratum.Stratum.Output.{close_connection_lem}
use monero_solo_stratum.Stratum.Config.{StratumServerConfig}
use monero_solo_stratum.Stratum.Submits.{
  StratumJob, JobAnswer, provided, unavailable, provider_failed, Responses, queue_error,
}
use monero_solo_stratum.Stratum.Json.{Json, text_member, strict_keys}
use monero_solo_stratum.Stratum.Login.{
  LoginResult, finished, LoginTexts, within_limits, login_texts, algorithm_supported, split_login,
  after_job, logged_in, send_job, assign, login_with, handle_login, handle_keepalive,
}
use monero_solo_stratum.Stratum.Replies.{
  SameWork, IsAnswered, closed, SameWork-IsAnswered, queue-IsAnswered, IsAnswered-SameWork,
  remember_job-SameWork,
}

module _ (t : Responses) (config : StratumServerConfig) where
  -- The request with the key is answered.
  abbrev pub Releases : List ℕ → Connection → Connection → Type 0
  Releases key c d = IsAnswered c d (forget_id key c.live_request_ids)

  pub queue_error-Releases :
      (key message : List ℕ) (c : Connection) → Releases key c (queue_error t config key message c)
  queue_error-Releases key message c = queue-IsAnswered _ _ (some key) none c

  after_job-Releases :
      (key : List ℕ) (job : StratumJob) (c d : Connection)
      → Releases key c d
      → Releases key c (after_job t config job d)
  after_job-Releases key job c d h = go job.on_queued
    where
      known : Connection
      known = record d { authenticated = true; last_sent_height = job.height }

      go :
          (called : Option Bool)
          → Releases key c
              (elim called [ none ↦ known | some true ↦ known | some false ↦ close_connection d ])
      go none =
          IsAnswered-SameWork c d known _ h
            (record { output = refl; ids = refl; pending = refl; closing = refl })
      go (some true) =
          IsAnswered-SameWork c d known _ h
            (record { output = refl; ids = refl; pending = refl; closing = refl })
      go (some false) = closed (close_connection_lem d).2

  logged_in-Releases :
      (key : List ℕ) (job : StratumJob) (c d : Connection) (queued : Bool)
      → Releases key c d
      → Releases key c (logged_in t config job (d, queued))
  logged_in-Releases key job c d false h = h
  logged_in-Releases key job c d true h =
      let remembered = remember_job job.job_id job.network_difficulty d in
      after_job-Releases key job c remembered (
        IsAnswered-SameWork c d remembered _ h
          (remember_job-SameWork job.job_id job.network_difficulty d))

  -- An exception left the handler, or the request with the key is answered.
  pub data AnswersLogin (key : List ℕ) (c : Connection) (r : LoginResult) : Type 0 where
    threw : r.returned ≡ false → AnswersLogin key c r
    releases : Releases key c r.connection → AnswersLogin key c r

  login_error :
      (key message : List ℕ) (c : Connection) (abuse : Option AbuseKind)
      → AnswersLogin key c (finished (queue_error t config key message c) abuse)
  login_error key message c abuse = releases (queue_error-Releases key message c)

  send_job-AnswersLogin :
      (key : List ℕ) (answer : JobAnswer) (c : Connection)
      → AnswersLogin key c (send_job t config key answer c)
  send_job-AnswersLogin key unavailable c = login_error key (codes "Server busy") c none
  send_job-AnswersLogin key provider_failed c = threw refl
  send_job-AnswersLogin key (provided job) c =
      releases
        (logged_in-Releases key job c _ _ (queue-IsAnswered _ _ (some key) (some job.height) c))

  -- The connection had other names and another difficulty before.
  renamed :
      (key : List ℕ) (c d : Connection) (r : LoginResult)
      → SameWork c d
      → d.live_request_ids ≡ c.live_request_ids
      → AnswersLogin key d r
      → AnswersLogin key c r
  renamed key c d r same ids (threw h) = threw h
  renamed key c d r same ids (releases h) = releases (
      SameWork-IsAnswered c d r.connection _ same
        (subst (λ (l : List (List ℕ)). IsAnswered d r.connection (forget_id key l)) ids h))

  assign-AnswersLogin :
      (jobs : Connection → JobAnswer) (key : List ℕ) (texts : LoginTexts) (name : List ℕ)
      (requested : Option ℕ) (c : Connection)
      → AnswersLogin key c (assign t config jobs key texts name requested c)
  unfolding assign
  assign-AnswersLogin jobs key texts name requested c =
      go (login_difficulty config.difficulty_floor requested texts.agent)
    where
      named : Connection
      named = record c { login = name; rigid = texts.rigid; agent = texts.agent }

      go :
          (d : Option ℕ)
          → AnswersLogin key c (elim d [
            | none ↦
                finished
                  (queue_error t config key
                    (codes "NiceHash difficulty is not representable")
                    named)
                  none
            | some difficulty ↦
                send_job t config key
                  (jobs (record named { assigned_difficulty = difficulty }))
                  (record named { assigned_difficulty = difficulty })
          ])
      go none =
          renamed key c named _
            (record { output = refl; ids = refl; pending = refl; closing = refl }) refl
            (login_error key (codes "NiceHash difficulty is not representable") named none)
      go (some difficulty) =
          let assigned : Connection = record named { assigned_difficulty = difficulty } in
          renamed key c assigned _
            (record { output = refl; ids = refl; pending = refl; closing = refl }) refl
            (send_job-AnswersLogin key (jobs assigned) assigned)

  module _ {J : Type 0} ⦃json : Json J⦄ where
    login_with-AnswersLogin :
        (jobs : Connection → JobAnswer) (params : J) (key : List ℕ) (texts : LoginTexts)
        (c : Connection)
        → AnswersLogin key c (login_with t config jobs params key texts c)
    unfolding login_with
    login_with-AnswersLogin jobs params key texts c =
        either (AnswersLogin key c) (not (within_limits texts)) _ _ (login_error key _ c none) (
          either (AnswersLogin key c)
            (not (length config.access_password == 0)
              && not (same_text texts.pass config.access_password))
            _ _ (login_error key _ c _)
            (either (AnswersLogin key c) (not (algorithm_supported params)) _ _
              (login_error key _ c none) (go (split_login config.minimum_difficulty texts.login))))
      where
        go :
            (split : Option (List ℕ × Option ℕ))
            → AnswersLogin key c (elim split [
              | none ↦ finished (queue_error t config key (codes "Invalid login") c) none
              | some (name, requested) ↦ assign t config jobs key texts name requested c
            ])
        go none = login_error key _ c none
        go (some (name, requested)) = assign-AnswersLogin jobs key texts name requested c

    pub handle_login-AnswersLogin :
        (jobs : Connection → JobAnswer) (params : J) (key : List ℕ) (c : Connection)
        → AnswersLogin key c (handle_login t config jobs params key c)
    unfolding handle_login
    handle_login-AnswersLogin jobs params key c =
        either (AnswersLogin key c) c.authenticated _ _ (login_error key _ c none)
          (go (login_texts params))
      where
        go :
            (texts : Option LoginTexts)
            → AnswersLogin key c (elim texts [
              | none ↦ finished (queue_error t config key (codes "Invalid login") c) none
              | some texts ↦ login_with t config jobs params key texts c
            ])
        go none = login_error key _ c none
        go (some texts) = login_with-AnswersLogin jobs params key texts c

    pub handle_keepalive-Releases :
        (now : ℕ) (params : J) (key : List ℕ) (c : Connection)
        → Releases key c (handle_keepalive t config now params key c)
    unfolding handle_keepalive
    handle_keepalive-Releases now params key c = go (text_member (codes "id") params)
      where
        kept : Connection
        kept =
            (queue config.max_output_bytes_per_connection (t.keepalive_response key) (some key) none
              c).0

        go :
            (id : Option (List ℕ))
            → Releases key c (elim id [
              | none ↦ queue_error t config key (codes "Unauthenticated") c
              | some id ↦
                  if strict_keys (codes "id" ∷ []) params && same_text id c.public_id
                  then record kept { last_activity = now }
                  else queue_error t config key (codes "Unauthenticated") c
            ])
        go none = queue_error-Releases key _ c
        go (some id) =
            either (Releases key c)
              (strict_keys (codes "id" ∷ []) params && same_text id c.public_id) _ _
              (IsAnswered-SameWork c kept _ _ (queue-IsAnswered _ _ (some key) none c)
                (record { output = refl; ids = refl; pending = refl; closing = refl }))
              (queue_error-Releases key _ c)
