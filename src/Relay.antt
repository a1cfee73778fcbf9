-- ===== src/Relay.antt =====
-- Multi-hop relay (src/relay.rs): the envelope that carries a document from hop to hop, and the
-- cache of message ids that stops a message from going round for ever.
pub mod Envelope
pub mod Codec
pub mod Hops
pub mod Seen
pub mod Eviction
pub mod Dedup
mod Tests
