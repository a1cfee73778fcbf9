-- ===== src/Power/Tests.antt =====
-- Runs of the scheduler at concrete inputs.
use peat_btle.Prelude.{◌<◌, ◌≡◌, refl, true, false, none, some, List, [], ◌∷◌, ◌++◌, ◌⊎◌, All}
use peat_btle.Power.Profile
use peat_btle.Power.Profile.{balanced, aggressive, low_power, new_battery, suggested_profile}
use peat_btle.Power.Queue
use peat_btle.Power.Queue.{
  PendingSync, SyncPriority, low, normal, high, critical, new_sync, rank, retain_live,
}
use peat_btle.Power.Scheduler
use peat_btle.Power.Scheduler.{
  RadioScheduler, SchedulerEvent, default_config, new, queue_sync, next_pending_sync, next_event,
  time_until_next_activity, update_battery,
}
use peat_btle.Power.Ranks.{AtMost}
use peat_btle.Power.Serving.{next_pending_sync_lem}

abbrev small_queue : RadioScheduler
small_queue = record (new balanced (record default_config { max_pending_syncs = 2 })) {
  pending_syncs = new_sync 1 low 10 100 ∷ (new_sync 2 high 10 200 ∷ []);
}

-- A full queue makes room for a higher priority.
low_replaced :
    (queue_sync 3 normal 10 300 small_queue).1.pending_syncs
    ≡ new_sync 2 high 10 200 ∷ (new_sync 3 normal 10 300 ∷ [])
unfolding queue_sync Scheduler.drop_lowest Scheduler.push_sync Queue.take_first Queue.min_rank new
    new_sync
low_replaced = refl

highest_served : (next_pending_sync 1000 small_queue).0 ≡ some (new_sync 2 high 10 200)
unfolding next_pending_sync Scheduler.drop_expired retain_live Queue.is_expired Queue.max_rank
    Queue.take_first new_sync Queue.max_age new
highest_served = refl

battery_steps :
    (suggested_profile (new_battery 15 false) aggressive ≡ balanced)
    × (suggested_profile (new_battery 5 false) aggressive ≡ low_power)
    × (suggested_profile (new_battery 5 true) aggressive ≡ aggressive)
unfolding suggested_profile new_battery Profile.is_critical Profile.is_low Profile.step_down
battery_steps = (refl, refl, refl)

next_pending_sync_lem_example :
    ((retain_live 1000 small_queue.pending_syncs ≡ [])
      × ((next_pending_sync 1000 small_queue).0 ≡ none)
      × ((next_pending_sync 1000 small_queue).1.pending_syncs ≡ []))
    ⊎ ((sync : PendingSync) × (before : List PendingSync) × (after : List PendingSync)
        × ((next_pending_sync 1000 small_queue).0 ≡ some sync)
        × (retain_live 1000 small_queue.pending_syncs ≡ before ++ (sync ∷ after))
        × ((next_pending_sync 1000 small_queue).1.pending_syncs ≡ before ++ after)
        × All (λ s. rank s.priority < rank sync.priority) before
        × AtMost (rank sync.priority) after)
next_pending_sync_lem_example = next_pending_sync_lem 1000 small_queue
