-- ===== src/Peers.antt =====
-- Peers that come and go: reconnection with backoff (src/reconnect.rs) and the removal of stale peers
-- (src/peer_lifetime.rs).
pub mod Reconnect
pub mod Backoff
pub mod Ready
pub mod Lifetime
pub mod Staleness
mod Tests
