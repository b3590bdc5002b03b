-- ===== src/Tests.antt =====
-- The theorems at concrete inputs.
pub mod Protocol
pub mod Containers
pub mod Keys
pub mod Access
pub mod Replay
pub mod Snapshot
pub mod Restart
pub mod Admin
pub mod Pubsub
pub mod Blocking
pub mod Connections
pub mod Client
