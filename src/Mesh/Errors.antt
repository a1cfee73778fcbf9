-- ===== src/Mesh/Errors.antt =====
-- src/error.rs: `BleError`. The texts that most of the errors carry are left out.
use peat_btle.Prelude.{ℕ}

pub data BleError : Type 0 where
  adapter_not_available : BleError
  not_powered : BleError
  permission_denied : BleError
  not_supported : BleError
  connection_failed : BleError
  connection_lost : BleError
  discovery_failed : BleError
  gatt_error : BleError
  characteristic_not_found : BleError
  service_not_found : BleError
  mtu_negotiation_failed : ℕ → ℕ → BleError
  security_error : BleError
  pairing_failed : BleError
  sync_error : BleError
  platform_error : BleError
  timeout : BleError
  invalid_config : BleError
  invalid_state : BleError
  resource_exhausted : BleError
  io : BleError
