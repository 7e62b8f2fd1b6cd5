-- ===== src/Stratum/Submission.antt =====
-- src/stratum/stratum.cpp: a submission, from the members of its request to its bytes.
use monero_solo_stratum.Common.{
  ℕ, Bool, true, false, ◌&&◌, Option, none, some, List, [], ◌∷◌, if◌then◌else◌,
}
use monero_solo_stratum.Common.Outcome.{Outcome, ok}
use monero_solo_stratum.Common.Text.{codes}
use monero_solo_stratum.Common.Map.{text_eq, same_text, lookup}
use monero_solo_stratum.Monero.Target.{ValidationError, meets_network_target}
use monero_solo_stratum.Stratum.Targets.{decode_hex, normalize_hex}
use monero_solo_stratum.Stratum.Connections.{Connection}
use monero_solo_stratum.Stratum.Json.{Json, MinerRequestId, strict_keys, text_member}
use monero_solo_stratum.Stratum.Submits.{JobAnswer}

-- The part of a connection that a submission and the callbacks are given.
pub record MinerConnection : Type 0 where
  pub public_id : List ℕ
  pub peer : ℕ
  pub login : List ℕ
  pub rigid : List ℕ
  pub agent : List ℕ
  pub assigned_difficulty : ℕ
  pub last_sent_height : ℕ
  pub request_sequence : ℕ

abbrev pub connection_info : Connection → MinerConnection
connection_info c = record {
  public_id = c.public_id;
  peer = c.peer;
  login = c.login;
  rigid = c.rigid;
  agent = c.agent;
  assigned_difficulty = c.assigned_difficulty;
  last_sent_height = c.last_sent_height;
  request_sequence = c.request_sequence;
}

pub record StratumSubmission : Type 0 where
  pub connection : MinerConnection
  pub request_id : MinerRequestId
  pub received : ℕ
  pub job_id : List ℕ
  pub nonce : List ℕ
  pub claimed_hash : List ℕ
  pub claimed_hash_hex : List ℕ

-- `resolver` is `none` without an admission resolver; its answer is the network difficulty of the
-- admitted job, `none` when it throws.
pub record Callbacks : Type 0 where
  pub admit_request : ℕ → Bool
  pub admit_submit : ℕ → Bool
  pub jobs : Connection → JobAnswer
  pub resolver : Option (StratumSubmission → Option (List ℕ))

pub record SubmitTexts : Type 0 where
  pub job_id : List ℕ
  pub nonce : List ℕ
  pub claimed : List ℕ

abbrev pub submit_members : Option (List ℕ) → Option (List ℕ) → Option (List ℕ) → Option SubmitTexts
submit_members (some job_id) (some nonce_text) (some claimed) =
    some (record { job_id = job_id; nonce = nonce_text; claimed = claimed })
submit_members job_id nonce_text claimed = none

abbrev pub decoded :
    Connection
    → MinerRequestId
    → ℕ
    → SubmitTexts
    → Option (List ℕ)
    → Option (List ℕ)
    → Option (List ℕ)
    → Option StratumSubmission
decoded c id now texts (some job) (some nonce_bytes) (some hash) = some (record {
  connection = connection_info c;
  request_id = id;
  received = now;
  job_id = normalize_hex texts.job_id;
  nonce = nonce_bytes;
  claimed_hash = hash;
  claimed_hash_hex = normalize_hex texts.claimed;
})
decoded c id now texts job nonce_bytes hash = none

unfoldable pub decode_submission :
    Connection → MinerRequestId → ℕ → SubmitTexts → Option StratumSubmission
unfolding decode_hex normalize_hex
decode_submission c id now texts =
    decoded c id now texts (decode_hex 16 (normalize_hex texts.job_id)) (decode_hex 4 texts.nonce)
      (decode_hex 32 texts.claimed)

-- The network difficulty of the submission's job, empty when it is not known; `none` when the
-- resolver throws.
unfoldable pub resolve : Callbacks → StratumSubmission → Connection → Option (List ℕ)
resolve callbacks submission c = elim callbacks.resolver [
  | some resolver ↦ resolver submission
  | none ↦ elim (lookup submission.job_id c.job_network_difficulties) [
    | none ↦ some []
    | some difficulty ↦ some difficulty
  ]
]

unfoldable pub claims_candidate : List ℕ → List ℕ → Outcome ValidationError Bool
unfolding meets_network_target
claims_candidate claimed_hash [] = ok false
claims_candidate claimed_hash (b ∷ difficulty) = meets_network_target claimed_hash (b ∷ difficulty)

module _ {J : Type 0} ⦃json : Json J⦄ where
  abbrev pub is_for_connection : J → Connection → Bool
  is_for_connection params c = elim (text_member (codes "id") params) [
    | none ↦ false
    | some id ↦ same_text id c.public_id
  ]

  -- A member that may be missing and otherwise is the text.
  abbrev pub absent_or : List ℕ → List ℕ → J → Bool
  absent_or name text params = elim (json.find name params) [
    | none ↦ true
    | some value ↦ json.is_string value && same_text (json.get_string value) text
  ]

  abbrev pub request_parts : Option (List ℕ) → Option J → Option (List ℕ × J)
  request_parts (some name) (some params) =
      if json.is_object params then some (name, params) else none
  request_parts name params = none

  unfoldable pub submit_texts : J → Connection → Option SubmitTexts
  unfolding strict_keys
  submit_texts params c =
      let names =
        codes "id" ∷ codes "job_id" ∷ codes "nonce" ∷ codes "result" ∷ codes "algo" ∷ [] in
      if strict_keys names params
        && is_for_connection params c
        && absent_or (codes "algo") (codes "rx/0") params
      then submit_members (text_member (codes "job_id") params) (text_member (codes "nonce") params)
          (text_member (codes "result") params)
      else none
