-- ===== src/Power/Pending.antt =====
-- Queueing a sync (src/power/scheduler.rs, `queue_sync`).
use peat_btle.Prelude.{ℕ, ◌≤◌, ◌≡◌, Bool, false, ◌↔◌, length}
use peat_btle.Power.Queue.{SyncPriority, rank, min_rank, or_critical}
use peat_btle.Power.Scheduler.{RadioScheduler}
use peat_btle.Power.Ranks.{AtLeast}

-- What queueing a sync of the priority gives.
abbrev Queued : SyncPriority → RadioScheduler → Bool × RadioScheduler → Type 0
Queued priority r out =
    (length out.1.pending_syncs ≤ r.config.max_pending_syncs)
    × ((out ≡ (false, r))
        ↔ (length r.pending_syncs ≡ r.config.max_pending_syncs)
          × AtLeast (rank priority) r.pending_syncs)

module _ (peer_id : ℕ) (priority : SyncPriority) (size now : ℕ) (r : RadioScheduler)
    (l : length r.pending_syncs ≤ r.config.max_pending_syncs) where
  lowest : ℕ
  lowest = or_critical (min_rank r.pending_syncs)
