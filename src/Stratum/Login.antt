-- ===== src/Stratum/Login.antt =====
-- src/stratum/stratum.cpp: login and keepalive requests. What the job provider answers is an argument.
use monero_solo_stratum.Common.{
  ℕ, ◌+◌, ◌-◌, ◌*◌, Bool, true, false, not, ◌&&◌, ◌||◌, Option, none, some, List, [], ◌∷◌, ltb, leb,
  ◌==◌, if◌then◌else◌, length,
}
use monero_solo_stratum.Common.Text.{codes}
use monero_solo_stratum.Common.Map.{same_text}
use monero_solo_stratum.Common.Word.{u64_mod}
use monero_solo_stratum.Defense.{AbuseKind}
use monero_solo_stratum.Stratum.Targets.{login_difficulty, wire_target}
use monero_solo_stratum.Stratum.Connections.{Connection, close_connection, queue, remember_job}
use monero_solo_stratum.Stratum.Config.{StratumServerConfig}
use monero_solo_stratum.Stratum.Json.{Json, is_in, has_nul, strict_keys, text_member, optional_text}
use monero_solo_stratum.Stratum.Submits.{
  StratumJob, JobAnswer, provided, unavailable, provider_failed, Responses, queue_error,
}

abbrev pub digit_of : ℕ → Option ℕ
digit_of byte = if leb b'0' byte && leb byte b'9' then some (byte - b'0') else none

-- `std::from_chars` on decimal digits, to the end of the text. `none` is another character or a number
-- out of range.
unfoldable pub from_chars : ℕ → List ℕ → Option ℕ
from_chars value [] = some value
from_chars value (byte ∷ bytes) = elim (digit_of byte) [
  | none ↦ none
  | some digit ↦
      let next = value * 10 + digit in
      let rest = from_chars next bytes in if ltb next u64_mod then rest else none
]

-- At the last `+`, what stands before it and after it.
unfoldable pub rfind_plus : List ℕ → Option (List ℕ × List ℕ)
rfind_plus [] = none
rfind_plus (byte ∷ bytes) = elim (rfind_plus bytes) [
  | some (before, after) ↦ some (byte ∷ before, after)
  | none ↦ if byte == b'+' then some ([], bytes) else none
]

abbrev pub requested_of : List ℕ → Option ℕ → Option (List ℕ × Option ℕ)
requested_of name none = none
requested_of name (some n) = if n == 0 then none else some (name, some n)

-- The login without its suffix, and the difficulty that the suffix asks for; `none` is invalid.
unfoldable pub split_login : Bool → List ℕ → Option (List ℕ × Option ℕ)
unfolding from_chars rfind_plus
split_login minimum_difficulty login =
    if not minimum_difficulty then some (login, none) else elim (rfind_plus login) [
      | none ↦ some (login, none)
      | some (before, after) ↦
          if length before == 0 || length after == 0
          then none
          else requested_of before (from_chars 0 after)
    ]

pub record LoginTexts : Type 0 where
  pub login : List ℕ
  pub pass : List ℕ
  pub agent : List ℕ
  pub rigid : List ℕ

abbrev pub all_texts :
    Option (List ℕ) → Option (List ℕ) → Option (List ℕ) → Option (List ℕ) → Option LoginTexts
all_texts (some login) (some pass) (some agent) (some rigid) =
    some (record { login = login; pass = pass; agent = agent; rigid = rigid })
all_texts login pass agent rigid = none

abbrev pub within_limits : LoginTexts → Bool
within_limits t = not (
    length t.login == 0
    || ltb 256 (length t.login)
    || ltb 256 (length t.rigid)
    || ltb 512 (length t.agent)
    || has_nul t.login
    || has_nul t.rigid
    || has_nul t.agent
    || has_nul t.pass)

-- The connection, what the defense engine is told of its peer, and whether the handler returned; an
-- exception of the job provider leaves it otherwise.
pub record LoginResult : Type 0 where
  pub connection : Connection
  pub abuse : Option AbuseKind
  pub returned : Bool

abbrev pub finished : Connection → Option AbuseKind → LoginResult
finished c abuse = record { connection = c; abuse = abuse; returned = true }

module _ (t : Responses) (config : StratumServerConfig) where
  abbrev pub after_job : StratumJob → Connection → Connection
  after_job job c =
      let known : Connection = record c { authenticated = true; last_sent_height = job.height } in
      elim job.on_queued [ none ↦ known | some true ↦ known | some false ↦ close_connection c ]

  abbrev pub logged_in : StratumJob → Connection × Bool → Connection
  logged_in job (c, false) = c
  logged_in job (c, true) = after_job job (remember_job job.job_id job.network_difficulty c)

  -- With the difficulty that is assigned.
  abbrev pub send_job : List ℕ → JobAnswer → Connection → LoginResult
  send_job key unavailable c = finished (queue_error t config key (codes "Server busy") c) none
  send_job key provider_failed c = record { connection = c; abuse = none; returned = false }
  send_job key (provided job) c =
      finished
        (logged_in job (
          queue config.max_output_bytes_per_connection
            (t.login_response key c.public_id job
              (wire_target job.target c.agent c.assigned_difficulty))
            (some key) (some job.height) c))
        none

  unfoldable pub assign :
      (Connection → JobAnswer) → List ℕ → LoginTexts → List ℕ → Option ℕ → Connection → LoginResult
  unfolding login_difficulty
  assign jobs key texts name requested c =
      let named : Connection = record c {
        login = name;
        rigid = texts.rigid;
        agent = texts.agent;
      } in
      elim (login_difficulty config.difficulty_floor requested texts.agent) [
        | none ↦
            finished
              (queue_error t config key (codes "NiceHash difficulty is not representable") named)
              none
        | some difficulty ↦
            let assigned : Connection = record named { assigned_difficulty = difficulty } in
            send_job key (jobs assigned) assigned
      ]

module _ {J : Type 0} ⦃json : Json J⦄ where
  unfoldable pub login_texts : J → Option LoginTexts
  unfolding strict_keys
  login_texts params =
      let names =
        codes "login" ∷ codes "pass" ∷ codes "agent" ∷ codes "rigid" ∷ codes "algo" ∷ [] in
      if strict_keys names params
      then all_texts (text_member (codes "login") params) (text_member (codes "pass") params)
          (optional_text (codes "agent") params) (optional_text (codes "rigid") params)
      else none

  unfoldable pub supports : List (List ℕ) → List J → Bool → Bool
  supports seen [] supported = supported
  supports seen (algorithm ∷ algorithms) supported =
      let name = json.get_string algorithm in
      let rest = supports (name ∷ seen) algorithms (supported || same_text name (codes "rx/0")) in
      if not (json.is_string algorithm) || is_in name seen then false else rest

  unfoldable pub algorithm_supported : J → Bool
  unfolding supports
  algorithm_supported params = elim (json.find (codes "algo") params) [
    | none ↦ true
    | some algo ↦
        if json.is_string algo
        then same_text (json.get_string algo) (codes "rx/0")
        else if json.is_array algo
        then supports [] (json.elements algo) false
        else false
  ]

  module _ (t : Responses) (config : StratumServerConfig) where
    unfoldable pub login_with :
        (Connection → JobAnswer) → J → List ℕ → LoginTexts → Connection → LoginResult
    unfolding assign algorithm_supported split_login
    login_with jobs params key texts c =
        if not (within_limits texts)
        then finished (queue_error t config key (codes "Invalid login") c) none
        else if not (length config.access_password == 0)
            && not (same_text texts.pass config.access_password)
        then finished (queue_error t config key (codes "Unauthenticated") c)
            (some AbuseKind.authentication_failure)
        else if not (algorithm_supported params)
        then finished (queue_error t config key (codes "Unsupported algorithm") c) none
        else elim (split_login config.minimum_difficulty texts.login) [
          | none ↦ finished (queue_error t config key (codes "Invalid login") c) none
          | some (name, requested) ↦ assign t config jobs key texts name requested c
        ]

    unfoldable pub handle_login : (Connection → JobAnswer) → J → List ℕ → Connection → LoginResult
    unfolding login_texts login_with
    handle_login jobs params key c =
        if c.authenticated
        then finished (queue_error t config key (codes "Already authenticated") c) none
        else elim (login_texts params) [
          | none ↦ finished (queue_error t config key (codes "Invalid login") c) none
          | some texts ↦ login_with jobs params key texts c
        ]

    unfoldable pub handle_keepalive : ℕ → J → List ℕ → Connection → Connection
    unfolding queue strict_keys
    handle_keepalive now params key c = elim (text_member (codes "id") params) [
      | none ↦ queue_error t config key (codes "Unauthenticated") c
      | some id ↦
          let kept =
            (queue config.max_output_bytes_per_connection (t.keepalive_response key) (some key) none
              c).0 in
          if strict_keys (codes "id" ∷ []) params && same_text id c.public_id
          then record kept { last_activity = now }
          else queue_error t config key (codes "Unauthenticated") c
    ]
