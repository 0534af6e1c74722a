-- ===== src/Ws.antt =====
-- crates/krymux/src/ws.rs: browser sessions over WebSocket, up to the bridge to the multiplexer.
pub mod Codec
pub mod Http
pub mod Identity
pub mod Auth
pub mod Bridge
pub mod Heads
pub mod RoundTrip
pub mod Guarded
pub mod Safety
pub mod Binding
pub mod Bounds
mod Tests
