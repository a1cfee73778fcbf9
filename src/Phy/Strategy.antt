-- ===== src/Phy/Strategy.antt =====
-- src/phy/strategy.rs: `PhyStrategy`, `PhySwitchDecision` and `evaluate_phy_switch`. The names of the
-- strategies are left out.
use peat_btle.Prelude.{ℕ, Bool, true, false, Option, none, some, ◌&&◌, if◌then◌else◌}
use peat_btle.Prelude.Int.{ℤ, negsuc, ◌+ℤ◌, ◌-ℤ◌, ltb_ℤ, of_byte, wrap_i8}
use peat_btle.Phy.Types.{
  BlePhy, le_1m, le_2m, le_coded_s2, le_coded_s8, same_phy, is_coded, PhyCapabilities, supports,
}

pub record Thresholds : Type 0 where
  pub rssi_threshold_high : ℤ
  pub rssi_threshold_low : ℤ
  pub hysteresis_db : ℕ
  pub coded_phy : BlePhy

pub data PhyStrategy : Type 0 where
  fixed : BlePhy → PhyStrategy
  adaptive : Thresholds → PhyStrategy
  max_range : PhyStrategy
  max_throughput : PhyStrategy
  power_optimized : ℤ → PhyStrategy

unfoldable pub default_strategy : PhyStrategy
default_strategy = adaptive (record {
  rssi_threshold_high = negsuc 49;
  rssi_threshold_low = negsuc 74;
  hysteresis_db = 5;
  coded_phy = le_coded_s2;
})

unfoldable pub adaptive_between : ℤ → ℤ → ℕ → PhyStrategy
adaptive_between high_threshold low_threshold hysteresis = adaptive (record {
  rssi_threshold_high = high_threshold;
  rssi_threshold_low = low_threshold;
  hysteresis_db = hysteresis;
  coded_phy = le_coded_s2;
})

unfoldable pub adaptive_max_range : PhyStrategy
adaptive_max_range = adaptive (record {
  rssi_threshold_high = negsuc 49;
  rssi_threshold_low = negsuc 69;
  hysteresis_db = 5;
  coded_phy = le_coded_s8;
})

-- The thresholds with the hysteresis of the current PHY. The differences wrap, as they do in a release
-- build.
unfoldable pub high_thresh : Thresholds → BlePhy → ℤ
high_thresh t current_phy =
    if same_phy current_phy le_2m
    then wrap_i8 (t.rssi_threshold_high -ℤ of_byte t.hysteresis_db)
    else t.rssi_threshold_high

unfoldable pub low_thresh : Thresholds → BlePhy → ℤ
low_thresh t current_phy =
    if same_phy current_phy le_2m
    then t.rssi_threshold_low
    else (if is_coded current_phy
        then wrap_i8 (t.rssi_threshold_low +ℤ of_byte t.hysteresis_db)
        else t.rssi_threshold_low)

-- The PHY that the strategy wants, supported or not.
unfoldable pub selected_phy : PhyStrategy → BlePhy → ℤ → PhyCapabilities → BlePhy
selected_phy (fixed phy) current_phy rssi capabilities = phy
selected_phy (adaptive t) current_phy rssi capabilities =
    if ltb_ℤ (high_thresh t current_phy) rssi
    then le_2m
    else (if ltb_ℤ rssi (low_thresh t current_phy) then t.coded_phy else le_1m)
selected_phy max_range current_phy rssi capabilities =
    if capabilities.has_coded then le_coded_s8 else le_1m
selected_phy max_throughput current_phy rssi capabilities =
    if capabilities.has_2m then le_2m else le_1m
selected_phy (power_optimized rssi_threshold) current_phy rssi capabilities =
    if ltb_ℤ rssi_threshold rssi && capabilities.has_2m then le_2m else le_1m

unfoldable pub select_phy : PhyStrategy → BlePhy → ℤ → PhyCapabilities → BlePhy
select_phy strategy current_phy rssi capabilities =
    let selected = selected_phy strategy current_phy rssi capabilities in
    if supports capabilities selected then selected else le_1m

unfoldable pub requires_capability_check : PhyStrategy → Bool
requires_capability_check (fixed le_1m) = false
requires_capability_check _ = true

pub data PhySwitchDecision : Type 0 where
  keep : PhySwitchDecision
  switch : BlePhy → PhySwitchDecision

unfoldable pub should_switch : PhySwitchDecision → Bool
should_switch keep = false
should_switch (switch phy) = true

unfoldable pub target : PhySwitchDecision → Option BlePhy
target keep = none
target (switch phy) = some phy

unfoldable pub evaluate_phy_switch : PhyStrategy → BlePhy → ℤ → PhyCapabilities → PhySwitchDecision
evaluate_phy_switch strategy current_phy rssi capabilities =
    let recommended = select_phy strategy current_phy rssi capabilities in
    if same_phy recommended current_phy then keep else switch recommended
