-- ===== src/Sync/Server.antt =====
-- apps/krymux-sync/src/sync/mod.rs, the server side of a session: `handle_sync_server` and what it
-- calls.
pub mod Paths
pub mod State
pub mod Scan
pub mod Files
pub mod Upload
pub mod Session
pub mod Joining
pub mod Kept
pub mod Steps
pub mod Verified
pub mod Sound
pub mod Untouched
pub mod Installed
mod Tests
