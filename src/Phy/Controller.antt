-- ===== src/Phy/Controller.antt =====
-- src/phy/controller.rs: `PhyController`. The success rate in `f32` is left out. The counters of the
-- statistics stay below 2^64, and a window below 2^23 samples, so that their sum fits in an `i32`.
use peat_btle.Prelude.{
  ℕ, ◌+◌, ◌/◌, ◌%◌, Bool, true, false, Option, none, some, List, [], ◌∷◌, ◌++◌, ◌&&◌, ltb, leb,
  length, if◌then◌else◌,
}
use peat_btle.Prelude.Bytes.{u64_mod}
use peat_btle.Prelude.Int.{ℤ, pos, negsuc, ◌+ℤ◌, sub_ℕ, wrap_i8}
use peat_btle.Phy.Types.{
  BlePhy, le_1m, le_2m, le_coded_s2, le_coded_s8, PhyCapabilities, le_1m_only, supports,
  PhyPreference, symmetric,
}
use peat_btle.Phy.Strategy.{
  PhyStrategy, default_strategy, PhySwitchDecision, keep, switch, evaluate_phy_switch,
}

pub data PhyControllerState : Type 0 where
  idle : PhyControllerState
  negotiating : PhyControllerState
  active : PhyControllerState
  switching : PhyControllerState
  error : PhyControllerState

pub data PhyUpdateResult : Type 0 where
  success : BlePhy → BlePhy → PhyUpdateResult
  rejected : PhyUpdateResult
  not_supported : PhyUpdateResult
  timeout : PhyUpdateResult
  failed : PhyUpdateResult

pub data PhyControllerEvent : Type 0 where
  negotiation_complete : PhyCapabilities → PhyCapabilities → PhyControllerEvent
  switch_recommended : BlePhy → BlePhy → ℤ → PhyControllerEvent
  update_complete : PhyUpdateResult → PhyControllerEvent
  rssi_update : ℤ → PhyControllerEvent

pub record PhyStats : Type 0 where
  pub switches : ℕ
  pub successful_switches : ℕ
  pub failed_switches : ℕ
  pub samples : ℕ
  pub time_in_le1m : ℕ
  pub time_in_le2m : ℕ
  pub time_in_coded : ℕ

unfoldable pub record_time : BlePhy → ℕ → PhyStats → PhyStats
record_time le_1m time_units s = record s { time_in_le1m = s.time_in_le1m + time_units }
record_time le_2m time_units s = record s { time_in_le2m = s.time_in_le2m + time_units }
record_time le_coded_s2 time_units s = record s { time_in_coded = s.time_in_coded + time_units }
record_time le_coded_s8 time_units s = record s { time_in_coded = s.time_in_coded + time_units }

pub record PhyControllerConfig : Type 0 where
  pub strategy : PhyStrategy
  pub min_samples_for_switch : ℕ
  pub rssi_window_size : ℕ
  pub switch_cooldown_ms : ℕ
  pub auto_switch : Bool

unfoldable pub default_controller : PhyControllerConfig
default_controller = record {
  strategy = default_strategy;
  min_samples_for_switch = 5;
  rssi_window_size = 10;
  switch_cooldown_ms = 5000;
  auto_switch = true;
}

pub record PhyController : Type 0 where
  pub config : PhyControllerConfig
  pub state : PhyControllerState
  pub tx_phy : BlePhy
  pub rx_phy : BlePhy
  pub local_caps : PhyCapabilities
  pub peer_caps : PhyCapabilities
  pub rssi_samples : List ℤ
  pub last_switch_time : ℕ
  pub stats : PhyStats

unfoldable pub new : PhyControllerConfig → PhyCapabilities → PhyController
new config local_caps = record {
  config = config;
  state = idle;
  tx_phy = le_1m;
  rx_phy = le_1m;
  local_caps = local_caps;
  peer_caps = le_1m_only;
  rssi_samples = [];
  last_switch_time = 0;
  stats = record {
    switches = 0;
    successful_switches = 0;
    failed_switches = 0;
    samples = 0;
    time_in_le1m = 0;
    time_in_le2m = 0;
    time_in_coded = 0;
  };
}

unfoldable pub with_defaults : PhyCapabilities → PhyController
with_defaults local_caps = new default_controller local_caps

-- The derived `==` with `Active`.
unfoldable pub is_active : PhyControllerState → Bool
is_active active = true
is_active _ = false

unfoldable pub current_preference : PhyController → PhyPreference
current_preference c = record { tx = c.tx_phy; rx = c.rx_phy }

unfoldable pub effective_capabilities : PhyController → PhyCapabilities
effective_capabilities c = record {
  has_2m = c.local_caps.has_2m && c.peer_caps.has_2m;
  has_coded = c.local_caps.has_coded && c.peer_caps.has_coded;
}

unfoldable pub start_negotiation : PhyController → PhyController
start_negotiation c = record c { state = negotiating; rssi_samples = [] }

unfoldable pub complete_negotiation :
    PhyCapabilities → PhyController → PhyControllerEvent × PhyController
complete_negotiation peer_caps c = (
  negotiation_complete c.local_caps peer_caps,
  record c { peer_caps = peer_caps; state = active },
)

unfoldable pub sum_rssi : List ℤ → ℤ
sum_rssi [] = pos 0
sum_rssi (r ∷ samples) = r +ℤ sum_rssi samples

-- The division of `i32`, which rounds towards zero.
unfoldable pub div_i32 : ℤ → ℕ → ℤ
div_i32 (pos n) d = pos (n / d)
div_i32 (negsuc n) d = sub_ℕ 0 ((n + 1) / d)

unfoldable pub average_rssi : PhyController → ℤ
average_rssi c = average_of c.rssi_samples
  where
    average_of : List ℤ → ℤ
    average_of [] = negsuc 99
    average_of (r ∷ samples) = wrap_i8 (div_i32 (sum_rssi (r ∷ samples)) (length (r ∷ samples)))

unfoldable pub evaluate_switch : ℤ → PhyController → PhySwitchDecision
evaluate_switch rssi c =
    evaluate_phy_switch c.config.strategy c.tx_phy rssi (effective_capabilities c)

-- `remove(0)`
unfoldable pub remove_oldest : List ℤ → List ℤ
remove_oldest [] = []
remove_oldest (r ∷ samples) = samples

-- The sample is noted, and the oldest one leaves a full window.
unfoldable pub with_sample : ℤ → PhyController → PhyController
with_sample rssi c =
    let samples = c.rssi_samples ++ (rssi ∷ []) in
    record c {
      rssi_samples =
          if ltb c.config.rssi_window_size (length samples) then remove_oldest samples else samples;
      stats = record c.stats { samples = c.stats.samples + 1 };
    }

unfoldable pub may_switch : ℕ → PhyController → Bool
may_switch current_time c =
    c.config.auto_switch
    && (is_active c.state
        && (leb c.config.min_samples_for_switch (length c.rssi_samples)
            && leb ((c.last_switch_time + c.config.switch_cooldown_ms) % u64_mod) current_time))

-- What is recommended for a decision.
unfoldable pub recommendation : PhySwitchDecision → ℤ → PhyController → Option PhyControllerEvent
recommendation keep avg_rssi c = none
recommendation (switch to_phy) avg_rssi c = some (switch_recommended c.tx_phy to_phy avg_rssi)

unfoldable pub record_rssi : ℤ → ℕ → PhyController → Option PhyControllerEvent × PhyController
record_rssi rssi current_time c =
    let sampled = with_sample rssi c in
    let avg_rssi = average_rssi sampled in
    if may_switch current_time sampled
    then (recommendation (evaluate_switch avg_rssi sampled) avg_rssi sampled, sampled)
    else (none, sampled)

-- The controller while it switches.
unfoldable pub switch_begun : PhyController → PhyController
switch_begun c = record c {
  state = switching;
  stats = record c.stats { switches = c.stats.switches + 1 };
}

unfoldable pub request_switch : BlePhy → PhyController → Option PhyPreference × PhyController
request_switch to_phy c =
    if is_active c.state
    then (if supports (effective_capabilities c) to_phy
        then (some (symmetric to_phy), switch_begun c)
        else (none, c))
    else (none, c)

-- The controller after an update that did not succeed.
unfoldable pub update_failed : PhyController → PhyController
update_failed c = record c {
  state = active;
  stats = record c.stats { failed_switches = c.stats.failed_switches + 1 };
}

unfoldable pub updated : PhyUpdateResult → ℕ → PhyController → PhyController
updated (success tx_phy rx_phy) current_time c = record c {
  tx_phy = tx_phy;
  rx_phy = rx_phy;
  last_switch_time = current_time;
  state = active;
  stats = record c.stats { successful_switches = c.stats.successful_switches + 1 };
}
updated rejected current_time c = update_failed c
updated not_supported current_time c = update_failed c
updated timeout current_time c = update_failed c
updated failed current_time c = update_failed c

unfoldable pub handle_update_result :
    PhyUpdateResult → ℕ → PhyController → PhyControllerEvent × PhyController
handle_update_result result current_time c = (update_complete result, updated result current_time c)

unfoldable pub reset : PhyController → PhyController
reset c = record c {
  state = idle;
  tx_phy = le_1m;
  rx_phy = le_1m;
  peer_caps = le_1m_only;
  rssi_samples = [];
  last_switch_time = 0;
}

unfoldable pub set_strategy : PhyStrategy → PhyController → PhyController
set_strategy strategy c = record c { config = record c.config { strategy = strategy } }

unfoldable pub set_auto_switch : Bool → PhyController → PhyController
set_auto_switch enabled c = record c { config = record c.config { auto_switch = enabled } }
