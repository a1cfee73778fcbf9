-- ===== src/Sync/Handover.antt =====
-- The one batch that all peers share (src/sync/protocol.rs, `prepare_sync`).
use peat_btle.Sync.Batch
