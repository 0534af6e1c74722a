-- ===== src/Mux.antt =====
-- crates/krymux/src/mux.rs: the multiplexing session.
pub mod State
pub mod Handle
pub mod Inbound
pub mod Outbound
pub mod Tasks
pub mod Session
pub mod Reading
pub mod Streams
pub mod Retire
pub mod Valid
pub mod Invariant
pub mod Credits
pub mod Conserve
pub mod Pump
pub mod InStep
pub mod Flow
pub mod Keeps
pub mod Life
pub mod OpenValid
pub mod OutValid
pub mod Reach
pub mod Closing
pub mod Opening
pub mod Sending
pub mod Sends
pub mod Moves
pub mod Given
pub mod Outflow
pub mod Progress
mod Tests
