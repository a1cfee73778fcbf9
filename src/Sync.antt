-- ===== src/Sync.antt =====
-- CRDT synchronization over GATT: vector clocks and delta encoding (src/sync/delta.rs), batches
-- (src/sync/batch.rs), chunked transfer and the protocol that joins them (src/sync/protocol.rs).
pub mod Clock
pub mod Merge
pub mod Causality
pub mod Delta
pub mod Resend
pub mod Batch
pub mod BatchCodec
pub mod Accounting
pub mod Accumulation
pub mod Chunk
pub mod Pigeonhole
pub mod Received
pub mod Transfer
pub mod Steps
pub mod Delivery
pub mod Coordinator
pub mod EndToEnd
pub mod Handover
mod Tests
mod ProtocolTests
