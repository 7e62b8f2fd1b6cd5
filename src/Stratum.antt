-- ===== src/Stratum.antt =====
-- src/stratum/stratum.cpp, with its header in include/monero_solo/: the Stratum server.
pub mod Targets
pub mod Difficulty
pub mod TargetText
pub mod Connections
pub mod Output
pub mod Sending
pub mod Config
pub mod Submits
pub mod Json
pub mod Login
pub mod Submission
pub mod Requests
pub mod Replies
pub mod LoginReplies
pub mod Fates
pub mod SubmitFates
pub mod HandlerFates
pub mod LineFates
pub mod SettleReplies
pub mod LiveIds
pub mod DrainedIds
pub mod KeptIds
pub mod ReadIds
pub mod Credentials
pub mod Guests
pub mod ReadBounds
pub mod LineHistories
pub mod Upkeep
pub mod Expired
pub mod Refresh
pub mod RefreshLoop
pub mod Reading
pub mod Framing
mod Fixtures
mod RequestExamples
mod UpkeepExamples
pub mod SubmitCounts
pub mod SubmitSteps
pub mod Admission
pub mod SubmitHistories
pub mod Settings
pub mod Peers
pub mod PeerCounts
pub mod PeerHistories
pub mod JobMemory
mod Examples
