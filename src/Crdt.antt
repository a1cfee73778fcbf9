-- ===== src/Crdt.antt =====
-- The replicated data of src/sync/crdt.rs: the last-writer-wins register, the grow-only counter
-- and the emergency event.
pub mod Lww
pub mod GCounter
pub mod Counting
pub mod CounterCodec
pub mod Emergency
pub mod Acks
pub mod Convergence
pub mod AckCodec
pub mod Reports
pub mod Operation
pub mod OperationCodec
mod Tests
