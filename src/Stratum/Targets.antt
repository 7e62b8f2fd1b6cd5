-- ===== src/Stratum/Targets.antt =====
-- src/stratum/stratum.cpp: texts, difficulties and targets of the Stratum protocol.
use Prim.Native.Nat.{bit_and, bit_or}
use monero_solo_stratum.Common.{
  ℕ, max, ◌+◌, ◌-◌, ◌*◌, ◌/◌, ◌%◌, ◌^◌, Bool, true, false, not, ◌&&◌, ◌||◌, Option, none, some,
  List, [], ◌∷◌, ◌++◌, map, ltb, leb, ◌==◌, if◌then◌else◌, length, get_or,
}
use monero_solo_stratum.Common.Text.{codes}
use monero_solo_stratum.Common.Word.{u8_mod, u32_mod}

abbrev pub u32_max : ℕ
u32_max = u32_mod - 1

-- -1 is `none`.
unfoldable pub nibble : ℕ → Option ℕ
nibble byte =
    if leb b'0' byte && leb byte b'9'
    then some (byte - b'0')
    else if leb b'a' byte && leb byte b'f'
    then some (byte - b'a' + 10)
    else if leb b'A' byte && leb byte b'F'
    then some (byte - b'A' + 10)
    else none

abbrev pub join_nibbles : Option ℕ → Option ℕ → Option (List ℕ) → Option (List ℕ)
join_nibbles (some high) (some low) (some rest) = some (bit_or (high * 2 ^ 4) low % u8_mod ∷ rest)
join_nibbles high low rest = none

unfoldable pub decode_hex_pairs : List ℕ → Option (List ℕ)
unfolding nibble
decode_hex_pairs [] = some []
decode_hex_pairs (high ∷ []) = none
decode_hex_pairs (high ∷ low ∷ text) =
    join_nibbles (nibble high) (nibble low) (decode_hex_pairs text)

-- `none` is `false`.
unfoldable pub decode_hex : ℕ → List ℕ → Option (List ℕ)
unfolding decode_hex_pairs
decode_hex n encoded = if not (length encoded == n * 2) then none else decode_hex_pairs encoded

-- `std::tolower` in the "C" locale.
unfoldable pub tolower : ℕ → ℕ
tolower byte = if leb b'A' byte && leb byte b'Z' then byte + 32 else byte

unfoldable pub normalize_hex : List ℕ → List ℕ
unfolding tolower
normalize_hex value = map tolower value

abbrev pub begins_with : List ℕ → List ℕ → Bool
begins_with [] text = true
begins_with (c ∷ marker) [] = false
begins_with (c ∷ marker) (b ∷ text) = b == c && begins_with marker text

abbrev pub contains : List ℕ → List ℕ → Bool
contains marker [] = begins_with marker []
contains marker (b ∷ text) = begins_with marker (b ∷ text) || contains marker text

-- `std::search` with the agent's bytes in lower case.
unfoldable pub is_nicehash_agent : List ℕ → Bool
unfolding tolower
is_nicehash_agent agent = contains (codes "nicehash") (map tolower agent)

unfoldable pub compact_target : ℕ → Option ℕ
compact_target difficulty =
    let target = u32_max / difficulty % u32_mod in
    if difficulty == 0 || ltb u32_max difficulty
    then none
    else if target == 0
    then none
    else some target

abbrev pub digits : List ℕ
digits = codes "0123456789abcdef"

abbrev pub byte_hex : ℕ → List ℕ
byte_hex byte = get_or digits (byte / 2 ^ 4) 0 ∷ get_or digits (bit_and byte 0x0f) 0 ∷ []

-- The four bytes, the lowest first.
abbrev pub target_bytes : ℕ → List ℕ
target_bytes target =
    target % u8_mod
    ∷ target / 2 ^ 8 % u8_mod
    ∷ target / 2 ^ 16 % u8_mod
    ∷ target / 2 ^ 24 % u8_mod
    ∷ []

abbrev pub concat_hex : List ℕ → List ℕ
concat_hex [] = []
concat_hex (byte ∷ bytes) = byte_hex byte ++ concat_hex bytes

unfoldable pub compact_target_hex : ℕ → List ℕ
compact_target_hex target = concat_hex (target_bytes target)

abbrev pub at_least : ℕ → Option ℕ → ℕ
at_least floor none = floor
at_least floor (some requested) = max floor requested

-- The difficulty of a login: at least the floor, and for a NiceHash agent the one that the target on
-- the wire stands for. `none` is the answer that it is not representable.
unfoldable pub login_difficulty : ℕ → Option ℕ → List ℕ → Option ℕ
unfolding is_nicehash_agent compact_target
login_difficulty floor requested agent =
    let difficulty = at_least floor requested in
    if is_nicehash_agent agent
    then elim (compact_target difficulty) [ none ↦ none | some target ↦ some (u32_max / target) ]
    else some difficulty

pub record WireTarget : Type 0 where
  pub value : List ℕ
  pub encoding : List ℕ

-- The job's target, the agent and the assigned difficulty.
unfoldable pub wire_target : List ℕ → List ℕ → ℕ → WireTarget
unfolding is_nicehash_agent compact_target compact_target_hex
wire_target job_target agent assigned_difficulty =
    let plain : WireTarget = record { value = job_target; encoding = codes "le64" } in
    if is_nicehash_agent agent
    then elim (compact_target assigned_difficulty) [
      | none ↦ plain
      | some target ↦ record { value = compact_target_hex target; encoding = codes "le32" }
    ]
    else plain

pub data ShareDisposition : Type 0 where
  accepted : ShareDisposition
  stale : ShareDisposition
  duplicate : ShareDisposition
  low_difficulty : ShareDisposition
  invalid_result : ShareDisposition
  unknown_job : ShareDisposition
  server_busy : ShareDisposition
  verifier_failed : ShareDisposition
  cancelled : ShareDisposition

unfoldable pub share_disposition_message : ShareDisposition → List ℕ
share_disposition_message accepted = codes "OK"
share_disposition_message stale = codes "Stale share"
share_disposition_message duplicate = codes "Duplicate share"
share_disposition_message low_difficulty = codes "Low difficulty share"
share_disposition_message invalid_result = codes "Invalid result"
share_disposition_message unknown_job = codes "Unknown job"
share_disposition_message server_busy = codes "Server busy"
share_disposition_message verifier_failed = codes "Server busy"
share_disposition_message cancelled = codes "Server busy"
