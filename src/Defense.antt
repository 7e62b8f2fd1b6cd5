-- ===== src/Defense.antt =====
-- src/stratum/defense.cpp and include/monero_solo/defense.hpp: the defence engine against abusive
-- peers. A time point, steady or wall, is a number of nanoseconds, more than a day after the
-- epoch of its clock; a `double` is a type with the operations that the source uses.
pub mod Peers
pub mod Bans
pub mod Rates
pub mod Admission
pub mod Candidates
pub mod Evidence
pub mod BanInvariant
pub mod Expiry
pub mod BanTable
pub mod PeerTable
pub mod Inflight
pub mod Calls
pub mod MoreCalls
pub mod Histories
pub mod BanCalls
pub mod BanHistories
mod Examples
use monero_solo_stratum.Common.{
  ℕ, ◌+◌, ◌-◌, ◌*◌, ◌/◌, ◌%◌, ◌^◌, Bool, true, false, not, ◌&&◌, ◌||◌, Option, none, some, List, [],
  ◌∷◌, ltb, ◌==◌, if◌then◌else◌,
}
use monero_solo_stratum.Common.Map.{Map}
use monero_solo_stratum.Common.Word.{u32_mod}

-- `double`: what the source does with it.
pub record Double (F : Type 0) : Type 0 where
  pub of_nat : ℕ → F
  pub add : F → F → F
  pub sub : F → F → F
  pub mul : F → F → F
  pub div : F → F → F
  pub min : F → F → F
  pub less : F → F → Bool
  -- `static_cast<std::uint64_t>(std::max(1.0, std::ceil(x)))`
  pub ceil_count : F → ℕ

-- The family and the bytes of an address, as a number with its first byte the highest; the size
-- follows from the family.
abbrev pub PeerAddress : Type 0
PeerAddress = ℕ × ℕ

abbrev pub af_inet : ℕ
af_inet = 2

abbrev pub af_inet6 : ℕ
af_inet6 = 10

-- `sockaddr_storage`
pub data SocketAddress : Type 0 where
  inet inet6 other : ℕ → SocketAddress

-- `none` is `std::invalid_argument`; a mapped IPv4 address is ten bytes 0, two bytes 0xff and the
-- four bytes of the address.
unfoldable pub from_socket : SocketAddress → Option PeerAddress
from_socket (inet a) = some (af_inet, a)
from_socket (inet6 a) =
    if a / 2 ^ 32 == 0xffff then some (af_inet, a % 2 ^ 32) else some (af_inet6, a)
from_socket (other family) = none

pub data AbuseKind : Type 0 where
  malformed authentication_failure unknown_job duplicate oversized_line : AbuseKind
  verified_false_candidate candidate_mismatch trusted_candidate_rejection : AbuseKind
  rate_hammer : AbuseKind

-- The enumerators' values.
abbrev pub kind_value : AbuseKind → ℕ
kind_value malformed = 0
kind_value authentication_failure = 1
kind_value unknown_job = 2
kind_value duplicate = 3
kind_value oversized_line = 4
kind_value verified_false_candidate = 5
kind_value candidate_mismatch = 6
kind_value trusted_candidate_rejection = 7
kind_value rate_hammer = 8

pub record DefensePolicyConfig : Type 0 where
  pub enabled : Bool
  pub ban_seconds : ℕ
  pub connection_rate_per_minute : ℕ
  pub connection_burst : ℕ
  pub request_rate_per_second : ℕ
  pub request_burst : ℕ
  pub submit_rate_per_second : ℕ
  pub submit_burst : ℕ
  pub malformed_limit : ℕ
  pub auth_failure_limit : ℕ
  pub unknown_job_limit : ℕ
  pub duplicate_limit : ℕ
  pub abuse_window_seconds : ℕ
  pub hammer_rate_multiplier : ℕ
  pub hammer_sustain_seconds : ℕ
  pub candidate_rate_per_minute : ℕ
  pub candidate_burst : ℕ
  pub candidate_inflight_per_ip : ℕ
  pub candidate_global_inflight : ℕ
  pub false_candidate_limit : ℕ
  pub false_candidate_window_seconds : ℕ
  pub trusted_candidate_rejection_limit : ℕ
  pub trusted_candidate_rejection_window_seconds : ℕ
  pub verification_mismatch_limit : ℕ
  pub verification_mismatch_window_seconds : ℕ
  pub max_peer_states : ℕ
  pub max_active_bans : ℕ

pub record BanRecord : Type 0 where
  pub peer : PeerAddress
  pub reason : AbuseKind
  pub created : ℕ
  pub expires : ℕ
  pub evidence_start : ℕ
  pub evidence_end : ℕ

pub record TokenBucket (F : Type 0) : Type 0 where
  pub tokens : F
  pub updated : ℕ
  pub initialized : Bool

pub record HammerState : Type 0 where
  pub bucket : ℕ
  pub attempts : ℕ
  pub consecutive_seconds : ℕ
  pub evidence_start : ℕ
  pub initialized : Bool

pub record PeerState (F : Type 0) : Type 0 where
  pub connections : TokenBucket F
  pub requests : TokenBucket F
  pub submits : TokenBucket F
  pub candidates : TokenBucket F
  pub connection_hammer : HammerState
  pub request_hammer : HammerState
  pub submit_hammer : HammerState
  pub candidate_hammer : HammerState
  pub candidate_inflight : ℕ
  -- the queues by the value of their kind
  pub evidence : Map ℕ (List ℕ)
  pub last_activity : ℕ

pub record DefenseEngine (F : Type 0) : Type 0 where
  pub config : DefensePolicyConfig
  pub peers : Map PeerAddress (PeerState F)
  -- the least recently used first; a peer's iterator is its place in the list
  pub peer_lru : List PeerAddress
  pub bans : Map PeerAddress BanRecord
  -- in the order of the times
  pub ban_expiries : List (ℕ × List PeerAddress)
  pub ban_overflow_until : Option ℕ
  pub candidate_global_inflight : ℕ

-- `std::chrono::seconds`
abbrev pub seconds : ℕ → ℕ
seconds n = n * 10 ^ 9

-- The constructor; `none` is `std::invalid_argument`.
unfoldable pub make_engine : {F : Type 0} → DefensePolicyConfig → Option (DefenseEngine F)
make_engine c =
    if c.enabled
      && (ltb c.hammer_rate_multiplier 2
          || c.hammer_sustain_seconds == 0
          || c.max_peer_states == 0
          || c.max_active_bans == 0)
    then none
    else some (record {
      config = c;
      peers = [];
      peer_lru = [];
      bans = [];
      ban_expiries = [];
      ban_overflow_until = none;
      candidate_global_inflight = 0;
    })

unfoldable pub threshold : DefensePolicyConfig → AbuseKind → ℕ × ℕ
threshold c malformed = (c.malformed_limit, seconds c.abuse_window_seconds)
threshold c authentication_failure = (c.auth_failure_limit, seconds c.abuse_window_seconds)
threshold c unknown_job = (c.unknown_job_limit, seconds c.abuse_window_seconds)
threshold c duplicate = (c.duplicate_limit, seconds c.abuse_window_seconds)
threshold c oversized_line = (2, seconds c.abuse_window_seconds)
threshold c verified_false_candidate =
    (c.false_candidate_limit, seconds c.false_candidate_window_seconds)
threshold c candidate_mismatch =
    (c.verification_mismatch_limit, seconds c.verification_mismatch_window_seconds)
threshold c trusted_candidate_rejection =
    (c.trusted_candidate_rejection_limit, seconds c.trusted_candidate_rejection_window_seconds)
threshold c rate_hammer = (2 ^ 32 - 1, seconds c.hammer_sustain_seconds)
