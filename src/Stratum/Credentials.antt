-- ===== src/Stratum/Credentials.antt =====
-- src/stratum/stratum.cpp: what a login must have.
use monero_solo_stratum.Common.{
  either, ℕ, ◌≡◌, ◌⊎◌, inl, inr, refl, Bool, true, false, not, ◌&&◌, ◌||◌, Option, none, some, List,
  [], ◌∷◌, ltb, ◌-◌, ◌==◌, if◌then◌else◌, length, arith,
}
use monero_solo_stratum.Common.Text.{codes}
use monero_solo_stratum.Common.Map.{same_text, same_text_iff}
use monero_solo_stratum.Defense.{AbuseKind}
use monero_solo_stratum.Stratum.Connections.{Connection, close_connection, queue}
use monero_solo_stratum.Stratum.Config.{StratumServerConfig}
use monero_solo_stratum.Stratum.Submits.{JobAnswer, Responses, queue_error}
use monero_solo_stratum.Stratum.Json.{Json}
use monero_solo_stratum.Stratum.Login.{
  LoginResult, finished, LoginTexts, login_texts, within_limits, algorithm_supported, split_login,
  assign, login_with, handle_login,
}

pub close_connection-authenticated :
    (c : Connection) → (close_connection c).authenticated ≡ c.authenticated
unfolding close_connection
close_connection-authenticated c =
    either (λ (d : Connection). d.authenticated ≡ c.authenticated) c.closing _ _ refl refl

pub queue-authenticated :
    (m : ℕ) (text : List ℕ) (key : Option (List ℕ)) (height : Option ℕ) (c : Connection)
    → (queue m text key height c).0.authenticated ≡ c.authenticated
unfolding queue
queue-authenticated m text key height c =
    go (c.closing || ltb m (length text) || ltb (m - length text) c.output_bytes) _ refl
  where
    go :
        (b : Bool) (added : Connection)
        → added.authenticated ≡ c.authenticated
        → (let r : Connection × Bool = if b then (close_connection c, false) else (added, true) in
            r.0.authenticated ≡ c.authenticated)
    go true added e = close_connection-authenticated c
    go false added e = e

accepted_password :
    (password pass : List ℕ)
    → (not (length password == 0) && not (same_text pass password)) ≡ false
    → (password ≡ []) ⊎ (pass ≡ password)
accepted_password [] pass h = inl refl
accepted_password (x ∷ xs) pass h = inr ((same_text_iff pass (x ∷ xs)).0 (ground arith))

module _ (config : StratumServerConfig) {J : Type 0} ⦃json : Json J⦄ where
  -- What the params of a login must have.
  pub record Credentials (params : J) : Type 0 where
    pub texts : LoginTexts
    pub given : login_texts params ≡ some texts
    pub limits : within_limits texts ≡ true
    pub password : (config.access_password ≡ []) ⊎ (texts.pass ≡ config.access_password)
    pub algorithm : algorithm_supported params ≡ true

  pub data LoginFate (params : J) (c d : Connection) : Type 0 where
    same : d.authenticated ≡ c.authenticated → LoginFate params c d
    presents : Credentials params → LoginFate params c d

  login_with-LoginFate :
      (t : Responses) (jobs : Connection → JobAnswer) (params : J) (key : List ℕ)
      (texts : LoginTexts) (c : Connection)
      → login_texts params ≡ some texts
      → LoginFate params c (login_with t config jobs params key texts c).connection
  unfolding login_with
  login_with-LoginFate t jobs params key texts c given =
      go (within_limits texts)
        (not (length config.access_password == 0)
          && not (same_text texts.pass config.access_password))
        (algorithm_supported params) refl refl refl
    where
      failed : List ℕ → Connection
      failed message = queue_error t config key message c

      fails : (message : List ℕ) → LoginFate params c (failed message)
      fails message = same (queue-authenticated _ _ (some key) none c)

      split_case :
          (split : Option (List ℕ × Option ℕ))
          → Credentials params
          → LoginFate params c
              (elim split as (λ o. LoginResult) [
                | none ↦ finished (failed (codes "Invalid login")) none
                | some (name, requested) ↦ assign t config jobs key texts name requested c
              ]).connection
      split_case none h = fails (codes "Invalid login")
      split_case (some (name, requested)) h = presents h

      go :
          (short wrong known : Bool)
          → within_limits texts ≡ short
          → (not (length config.access_password == 0)
              && not (same_text texts.pass config.access_password))
            ≡ wrong
          → algorithm_supported params ≡ known
          → (let r : LoginResult =
                if not short
                then finished (failed (codes "Invalid login")) none
                else if wrong
                then finished
                    (failed (codes "Unauthenticated"))
                    (some AbuseKind.authentication_failure)
                else if not known
                then finished (failed (codes "Unsupported algorithm")) none
                else elim (split_login config.minimum_difficulty texts.login) [
                  | none ↦ finished (failed (codes "Invalid login")) none
                  | some (name, requested) ↦ assign t config jobs key texts name requested c
                ] in
              LoginFate params c r.connection)
      go false wrong known l w a = fails (codes "Invalid login")
      go true true known l w a = fails (codes "Unauthenticated")
      go true false false l w a = fails (codes "Unsupported algorithm")
      go true false true l w a =
          split_case (split_login config.minimum_difficulty texts.login) (record {
            texts = texts;
            given = given;
            limits = l;
            password = accepted_password config.access_password texts.pass w;
            algorithm = a;
          })

  pub handle_login-LoginFate :
      (t : Responses) (jobs : Connection → JobAnswer) (params : J) (key : List ℕ) (c : Connection)
      → LoginFate params c (handle_login t config jobs params key c).connection
  unfolding handle_login
  handle_login-LoginFate t jobs params key c =
      either (λ (r : LoginResult). LoginFate params c r.connection) c.authenticated _ _
        (same (queue-authenticated _ _ (some key) none c)) (go (login_texts params) refl)
    where
      go :
          (o : Option LoginTexts)
          → login_texts params ≡ o
          → LoginFate params c
              (elim o as (λ o. LoginResult) [
                | none ↦ finished (queue_error t config key (codes "Invalid login") c) none
                | some texts ↦ login_with t config jobs params key texts c
              ]).connection
      go none e = same (queue-authenticated _ _ (some key) none c)
      go (some texts) e = login_with-LoginFate t jobs params key texts c e
