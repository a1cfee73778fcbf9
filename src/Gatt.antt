-- ===== src/Gatt.antt =====
-- The GATT sync protocol (src/gatt/protocol.rs): messages and their headers, fragmentation to the
-- MTU, reassembly, and the state machine of a sync.
pub mod Message
pub mod Fragments
pub mod Protocol
pub mod Framing
pub mod Reassembly
pub mod Errors
pub mod Oversize
pub mod Session
mod Tests
