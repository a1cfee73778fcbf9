-- ===== src/Power/Profile.antt =====
-- src/power/profile.rs: radio timings, profiles and the battery state. The estimates in `f32`
-- (`duty_cycle_percent`, `estimated_battery_hours`) are left out.
use peat_btle.Prelude.{ℕ, Bool, true, false, not, ◌&&◌, min, leb, ◌==◌, if◌then◌else◌}

pub record RadioTiming : Type 0 where
  pub scan_interval_ms : ℕ
  pub scan_window_ms : ℕ
  pub adv_interval_ms : ℕ
  pub conn_interval_ms : ℕ
  pub supervision_timeout_ms : ℕ
  pub slave_latency : ℕ

pub data PowerProfile : Type 0 where
  aggressive : PowerProfile
  balanced : PowerProfile
  low_power : PowerProfile
  custom : RadioTiming → PowerProfile

unfoldable pub timing : PowerProfile → RadioTiming
timing aggressive = record {
  scan_interval_ms = 100;
  scan_window_ms = 50;
  adv_interval_ms = 100;
  conn_interval_ms = 15;
  supervision_timeout_ms = 4000;
  slave_latency = 0;
}
timing balanced = record {
  scan_interval_ms = 500;
  scan_window_ms = 50;
  adv_interval_ms = 500;
  conn_interval_ms = 30;
  supervision_timeout_ms = 4000;
  slave_latency = 2;
}
timing low_power = record {
  scan_interval_ms = 5000;
  scan_window_ms = 100;
  adv_interval_ms = 2000;
  conn_interval_ms = 100;
  supervision_timeout_ms = 6000;
  slave_latency = 4;
}
timing (custom t) = t

-- The derived equality tests.
unfoldable pub same_timing : RadioTiming → RadioTiming → Bool
same_timing s t =
    (s.scan_interval_ms == t.scan_interval_ms)
    && ((s.scan_window_ms == t.scan_window_ms)
        && ((s.adv_interval_ms == t.adv_interval_ms)
            && ((s.conn_interval_ms == t.conn_interval_ms)
                && ((s.supervision_timeout_ms == t.supervision_timeout_ms)
                    && (s.slave_latency == t.slave_latency)))))

unfoldable pub same_profile : PowerProfile → PowerProfile → Bool
same_profile aggressive aggressive = true
same_profile balanced balanced = true
same_profile low_power low_power = true
same_profile (custom s) (custom t) = same_timing s t
same_profile _ _ = false

pub record BatteryState : Type 0 where
  pub level_percent : ℕ
  pub is_charging : Bool
  pub low_threshold : ℕ
  pub critical_threshold : ℕ

unfoldable pub default_battery : BatteryState
default_battery = record {
  level_percent = 100;
  is_charging = false;
  low_threshold = 20;
  critical_threshold = 10;
}

unfoldable pub new_battery : ℕ → Bool → BatteryState
new_battery level_percent is_charging = record {
  level_percent = min level_percent 100;
  is_charging = is_charging;
  low_threshold = 20;
  critical_threshold = 10;
}

unfoldable pub is_low : BatteryState → Bool
is_low b = not b.is_charging && leb b.level_percent b.low_threshold

unfoldable pub is_critical : BatteryState → Bool
is_critical b = not b.is_charging && leb b.level_percent b.critical_threshold

-- The step down of a low battery.
unfoldable pub step_down : PowerProfile → PowerProfile
step_down aggressive = balanced
step_down _ = low_power

unfoldable pub suggested_profile : BatteryState → PowerProfile → PowerProfile
suggested_profile b current =
    if b.is_charging
    then current
    else if is_critical b
    then low_power
    else if is_low b
    then step_down current
    else current
