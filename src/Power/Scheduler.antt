-- ===== src/Power/Scheduler.antt =====
-- src/power/scheduler.rs: `RadioScheduler`. Additions of times and counters wrap, as in a release build.
use peat_btle.Prelude.{
  ℕ, ◌+◌, ◌-◌, ◌%◌, Bool, true, false, not, ◌&&◌, ◌||◌, Option, none, some, List, [], ◌∷◌, ◌++◌,
  min, leb, ◌==◌, if◌then◌else◌, length,
}
use peat_btle.Prelude.Bytes.{u64_mod}
use peat_btle.Power.Profile.{
  PowerProfile, RadioTiming, BatteryState, timing, default_battery, suggested_profile, same_profile,
}
use peat_btle.Power.Queue.{
  SyncPriority, PendingSync, rank, new_sync, min_rank, max_rank, take_first, or_critical,
  has_critical, is_empty, retain_live,
}

pub data RadioState : Type 0 where
  idle : RadioState
  scanning : RadioState
  advertising : RadioState
  syncing : RadioState
  transitioning : RadioState

pub data SchedulerEvent : Type 0 where
  start_scan : SchedulerEvent
  stop_scan : SchedulerEvent
  start_advertising : SchedulerEvent
  stop_advertising : SchedulerEvent
  sync_now : SchedulerEvent
  profile_changed : SchedulerEvent
  enter_sleep : SchedulerEvent

pub record SchedulerConfig : Type 0 where
  pub max_pending_syncs : ℕ
  pub sync_coalesce_ms : ℕ
  pub profile_change_cooldown_ms : ℕ

unfoldable pub default_config : SchedulerConfig
default_config = record {
  max_pending_syncs = 16;
  sync_coalesce_ms = 500;
  profile_change_cooldown_ms = 10000;
}

pub record SchedulerStats : Type 0 where
  pub scan_windows : ℕ
  pub adv_events : ℕ
  pub syncs_performed : ℕ
  pub syncs_dropped : ℕ
  pub critical_syncs : ℕ
  pub profile_changes : ℕ

unfoldable pub default_stats : SchedulerStats
default_stats = record {
  scan_windows = 0;
  adv_events = 0;
  syncs_performed = 0;
  syncs_dropped = 0;
  critical_syncs = 0;
  profile_changes = 0;
}

pub record RadioScheduler : Type 0 where
  pub profile : PowerProfile
  pub radio_timing : RadioTiming
  pub radio_state : RadioState
  pub pending_syncs : List PendingSync
  pub config : SchedulerConfig
  pub next_scan_time : ℕ
  pub next_adv_time : ℕ
  pub last_state_change : ℕ
  pub last_profile_change : ℕ
  pub battery : BatteryState
  pub auto_adjust_enabled : Bool
  pub stats : SchedulerStats

unfoldable pub new : PowerProfile → SchedulerConfig → RadioScheduler
new profile config = record {
  profile = profile;
  radio_timing = timing profile;
  radio_state = idle;
  pending_syncs = [];
  config = config;
  next_scan_time = 0;
  next_adv_time = 0;
  last_state_change = 0;
  last_profile_change = 0;
  battery = default_battery;
  auto_adjust_enabled = true;
  stats = default_stats;
}

unfoldable pub set_profile : PowerProfile → ℕ → RadioScheduler → Bool × RadioScheduler
set_profile profile current_time r =
    let cooldown_elapsed : Bool =
      (r.stats.profile_changes == 0)
      || leb ((r.last_profile_change + r.config.profile_change_cooldown_ms) % u64_mod)
          current_time in
    if not cooldown_elapsed then (false, r) else (
      true,
      record r {
        profile = profile;
        radio_timing = timing profile;
        last_profile_change = current_time;
        stats = record r.stats { profile_changes = (r.stats.profile_changes + 1) % u64_mod };
      },
    )

unfoldable pub update_battery : BatteryState → ℕ → RadioScheduler → RadioScheduler
update_battery battery current_time r =
    let updated : RadioScheduler = record r { battery = battery } in
    let suggested : PowerProfile = suggested_profile battery r.profile in
    if r.auto_adjust_enabled && not (same_profile suggested r.profile)
    then (set_profile suggested current_time updated).1
    else updated

unfoldable pub set_auto_adjust : Bool → RadioScheduler → RadioScheduler
set_auto_adjust enabled r = record r { auto_adjust_enabled = enabled }

unfoldable pub push_sync : PendingSync → RadioScheduler → RadioScheduler
push_sync s r = record r { pending_syncs = r.pending_syncs ++ (s ∷ []) }

-- The removal of one sync of the lowest priority.
unfoldable pub drop_lowest : ℕ → RadioScheduler → RadioScheduler
drop_lowest lowest_priority r = elim (take_first lowest_priority r.pending_syncs) [
  | none ↦ r
  | some (found, left) ↦ record r {
    pending_syncs = left;
    stats = record r.stats { syncs_dropped = (r.stats.syncs_dropped + 1) % u64_mod };
  }
]

unfoldable pub queue_sync : ℕ → SyncPriority → ℕ → ℕ → RadioScheduler → Bool × RadioScheduler
queue_sync peer_id priority data_size current_time r =
    let sync : PendingSync = new_sync peer_id priority data_size current_time in
    let lowest_priority : ℕ = or_critical (min_rank r.pending_syncs) in
    if leb r.config.max_pending_syncs (length r.pending_syncs)
    then (if leb (rank priority) lowest_priority
        then (false, r)
        else (true, push_sync sync (drop_lowest lowest_priority r)))
    else (true, push_sync sync r)

unfoldable pub has_critical_sync : RadioScheduler → Bool
has_critical_sync r = has_critical r.pending_syncs

-- The next event of a radio without a critical sync.
unfoldable pub next_in : RadioState → ℕ → RadioScheduler → Option (SchedulerEvent × ℕ)
next_in idle current_time r =
    if leb r.next_scan_time current_time
    then some (start_scan, current_time)
    else if leb r.next_adv_time current_time
    then some (start_advertising, current_time)
    else if not (is_empty r.pending_syncs)
    then some (sync_now, current_time)
    else some (enter_sleep, min r.next_scan_time r.next_adv_time)
next_in scanning current_time r =
    if leb ((r.last_state_change + r.radio_timing.scan_window_ms) % u64_mod) current_time
    then some (stop_scan, current_time)
    else none
next_in advertising current_time r = some (stop_advertising, current_time)
next_in syncing current_time r = none
next_in transitioning current_time r = none

unfoldable pub next_event : ℕ → RadioScheduler → Option (SchedulerEvent × ℕ)
next_event current_time r =
    if has_critical_sync r
    then some (sync_now, current_time)
    else next_in r.radio_state current_time r

unfoldable pub process_event : SchedulerEvent → ℕ → RadioScheduler → RadioScheduler
process_event start_scan current_time r = record r {
  radio_state = scanning;
  last_state_change = current_time;
  stats = record r.stats { scan_windows = (r.stats.scan_windows + 1) % u64_mod };
}
process_event stop_scan current_time r = record r {
  radio_state = idle;
  next_scan_time = (current_time + r.radio_timing.scan_interval_ms) % u64_mod;
  last_state_change = current_time;
}
process_event start_advertising current_time r = record r {
  radio_state = advertising;
  last_state_change = current_time;
  stats = record r.stats { adv_events = (r.stats.adv_events + 1) % u64_mod };
}
process_event stop_advertising current_time r = record r {
  radio_state = idle;
  next_adv_time = (current_time + r.radio_timing.adv_interval_ms) % u64_mod;
  last_state_change = current_time;
}
process_event sync_now current_time r = record r {
  radio_state = syncing;
  last_state_change = current_time;
}
process_event profile_changed current_time r = r
process_event enter_sleep current_time r = record r { radio_state = idle }

-- The removal of expired syncs, counted.
unfoldable pub drop_expired : ℕ → RadioScheduler → RadioScheduler
drop_expired current_time r =
    let live : List PendingSync = retain_live current_time r.pending_syncs in
    record r {
      pending_syncs = live;
      stats = record r.stats {
        syncs_dropped = (r.stats.syncs_dropped + (length r.pending_syncs - length live)) % u64_mod;
      };
    }

-- The counters of a sync that is handed out.
unfoldable pub count_performed : PendingSync → SchedulerStats → SchedulerStats
count_performed s stats = record stats {
  critical_syncs =
      if rank s.priority == 3 then (stats.critical_syncs + 1) % u64_mod else stats.critical_syncs;
  syncs_performed = (stats.syncs_performed + 1) % u64_mod;
}

unfoldable pub next_pending_sync : ℕ → RadioScheduler → Option PendingSync × RadioScheduler
next_pending_sync current_time r =
    let r' : RadioScheduler = drop_expired current_time r in
    elim (max_rank r'.pending_syncs) [
      | none ↦ (none, r')
      | some max_priority ↦ elim (take_first max_priority r'.pending_syncs) [
        | none ↦ (none, r')
        | some (sync, left) ↦
            (some sync, record r' { pending_syncs = left; stats = count_performed sync r'.stats })
      ]
    ]

unfoldable pub complete_sync : ℕ → RadioScheduler → RadioScheduler
complete_sync current_time r = record r { radio_state = idle; last_state_change = current_time }

unfoldable pub reset : ℕ → RadioScheduler → RadioScheduler
reset current_time r = record r {
  radio_state = idle;
  pending_syncs = [];
  next_scan_time = current_time;
  next_adv_time = current_time;
  last_state_change = current_time;
}

unfoldable pub time_until_next_activity : ℕ → RadioScheduler → ℕ
time_until_next_activity current_time r =
    if has_critical_sync r
    then 0
    else if not (is_empty r.pending_syncs)
    then 0
    else min (r.next_scan_time - current_time) (r.next_adv_time - current_time)
