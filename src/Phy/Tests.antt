-- ===== src/Phy/Tests.antt =====
-- The choice of a PHY (src/phy) at concrete inputs.
use peat_btle.Prelude.{◌≡◌, refl, false, some, [], ◌∷◌}
use peat_btle.Prelude.Int.{negsuc, ◌+ℤ◌, ◌-ℤ◌, of_byte, wrap_i8}
use peat_btle.Phy.Types.{le_1m, le_2m, same_phy, is_coded, ble5_full, supports, symmetric}
use peat_btle.Phy.Strategy.{
  default_strategy, select_phy, selected_phy, high_thresh, low_thresh, evaluate_phy_switch,
}
use peat_btle.Phy.Steady.{IsSteady, select_phy-select_phy}
use peat_btle.Phy.Controller
use peat_btle.Phy.Controller.{
  PhyController, PhyControllerConfig, active, switch_recommended, default_controller, is_active,
  effective_capabilities, sum_rssi, div_i32, average_rssi, evaluate_switch, remove_oldest,
  with_sample, may_switch, recommendation, record_rssi, switch_begun, request_switch,
}
use peat_btle.Phy.Recommended.{request_switch-record_rssi}
use native.Mathlib.Omega.{arith}

-- Above -55 dBm the 2M rate is kept, though it is only taken above -50 dBm.
select_phy-select_phy_example :
    select_phy default_strategy
      (select_phy default_strategy le_2m (negsuc 52) ble5_full)
      (negsuc 52)
      ble5_full
    ≡ select_phy default_strategy le_2m (negsuc 52) ble5_full
unfolding default_strategy IsSteady is_coded supports ble5_full wrap_i8 of_byte ◌-ℤ◌ ◌+ℤ◌
select_phy-select_phy_example =
    select_phy-select_phy default_strategy le_2m (negsuc 52) ble5_full
      (refl, (omega arith, omega arith)) refl

abbrev near : PhyController
near = record (Controller.new default_controller ble5_full) {
  state = active;
  peer_caps = ble5_full;
  rssi_samples = negsuc 39 ∷ negsuc 39 ∷ negsuc 40 ∷ negsuc 41 ∷ [];
}

request_switch-record_rssi_example :
    (le_1m ≡ (record_rssi (negsuc 40) 6000 near).1.tx_phy)
    × ((same_phy le_2m le_1m ≡ false)
        × (request_switch le_2m (record_rssi (negsuc 40) 6000 near).1
            ≡ (some (symmetric le_2m), switch_begun (record_rssi (negsuc 40) 6000 near).1)))
unfolding Controller.new default_controller ble5_full default_strategy record_rssi with_sample
    may_switch average_rssi sum_rssi div_i32 wrap_i8 of_byte evaluate_switch evaluate_phy_switch
    select_phy selected_phy high_thresh low_thresh effective_capabilities supports same_phy is_coded
    recommendation is_active remove_oldest ◌+ℤ◌ ◌-ℤ◌
request_switch-record_rssi_example =
    request_switch-record_rssi (negsuc 40) 6000 near le_1m le_2m (negsuc 39) refl
