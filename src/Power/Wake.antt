-- ===== src/Power/Wake.antt =====
-- When the radio wakes (src/power/scheduler.rs): `next_event` against `time_until_next_activity`.
use peat_btle.Prelude.{ℕ, ◌+◌, ◌≡◌, some, inl, inr, arith, Bool-cases, dec_le}
use peat_btle.Power.Queue.{is_empty}
use peat_btle.Power.Scheduler.{
  RadioScheduler, SchedulerEvent, idle, sync_now, start_scan, start_advertising, enter_sleep,
  next_event, next_in, has_critical_sync, time_until_next_activity,
}

-- An idle radio always has a next event, and its time is the current time plus what
-- `time_until_next_activity` says.
pub next_event-time_until :
    (r : RadioScheduler) (current_time : ℕ)
    → r.radio_state ≡ idle
    → (e : SchedulerEvent) × (next_event current_time r
        ≡ some (e, current_time + time_until_next_activity current_time r))
unfolding next_event next_in time_until_next_activity
next_event-time_until r now h = elim (Bool-cases (has_critical_sync r)) [
  | inl c ↦ (sync_now, ground arith)
  | inr c ↦ elim (dec_le r.next_scan_time now) [
    | yes a ↦ (start_scan, ground arith)
    | no a ↦ elim (dec_le r.next_adv_time now) [
      | yes b ↦ (start_advertising, ground arith)
      | no b ↦ elim (Bool-cases (is_empty r.pending_syncs)) [
        | inl d ↦ (enter_sleep, ground arith)
        | inr d ↦ (sync_now, ground arith)
      ]
    ]
  ]
]
