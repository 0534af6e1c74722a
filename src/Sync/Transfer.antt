-- ===== src/Sync/Transfer.antt =====
-- sync/mod.rs, `run_sync_client` from the local scan on: a pass that carries out its plan.
pub mod State
pub mod Download
pub mod Apply
pub mod Run
pub mod Received
pub mod Verified
pub mod Stream
pub mod Arriving
pub mod Delivery
pub mod Exchange
pub mod Steps
pub mod Apart
pub mod Mirrored
pub mod Separate
pub mod Mirror
pub mod Quiet
pub mod Readonly
mod Tests
