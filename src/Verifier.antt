-- ===== src/Verifier.antt =====
-- src/verifier/verifier.cpp, with its header in include/monero_solo/: the adapter to the native
-- verifier.
pub mod Table
mod Probes
pub mod Search
pub mod Placement
pub mod Slots
pub mod Updates
pub mod State
pub mod SeedCalls
pub mod Submissions
pub mod SeedLists
pub mod Invariant
pub mod SeedSteps
pub mod SeedReleases
pub mod SeedPreparation
pub mod SubmissionSteps
pub mod CompletionSteps
pub mod Construction
pub mod TableSize
pub mod Lookup
pub mod Histories
pub mod Wakeups
pub mod Destruction
pub mod Correspondence
mod Examples
