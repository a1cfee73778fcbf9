-- ===== src/Phy/Types.antt =====
-- src/phy/types.rs: `BlePhy`, `PhyCapabilities` and `PhyPreference`. The names and the relative power
-- in `f32` are left out.
use peat_btle.Prelude.{ℕ, ◌+◌, ◌*◌, ◌/◌, ◌%◌, Bool, true, false, Option, none, some, if◌then◌else◌}
use peat_btle.Prelude.Bytes.{u64_mod}

pub data BlePhy : Type 0 where
  le_1m : BlePhy
  le_2m : BlePhy
  le_coded_s2 : BlePhy
  le_coded_s8 : BlePhy

-- The derived `==`.
unfoldable pub same_phy : BlePhy → BlePhy → Bool
same_phy le_1m le_1m = true
same_phy le_2m le_2m = true
same_phy le_coded_s2 le_coded_s2 = true
same_phy le_coded_s8 le_coded_s8 = true
same_phy _ _ = false

unfoldable pub data_rate_bps : BlePhy → ℕ
data_rate_bps le_1m = 1000000
data_rate_bps le_2m = 2000000
data_rate_bps le_coded_s2 = 500000
data_rate_bps le_coded_s8 = 125000

unfoldable pub data_rate_kbps : BlePhy → ℕ
data_rate_kbps phy = data_rate_bps phy / 1000

unfoldable pub typical_range_m : BlePhy → ℕ
typical_range_m le_1m = 100
typical_range_m le_2m = 50
typical_range_m le_coded_s2 = 200
typical_range_m le_coded_s8 = 400

unfoldable pub typical_latency_ms : BlePhy → ℕ
typical_latency_ms le_1m = 30
typical_latency_ms le_2m = 20
typical_latency_ms le_coded_s2 = 50
typical_latency_ms le_coded_s8 = 100

unfoldable pub is_coded : BlePhy → Bool
is_coded le_1m = false
is_coded le_2m = false
is_coded le_coded_s2 = true
is_coded le_coded_s8 = true

unfoldable pub requires_ble5 : BlePhy → Bool
requires_ble5 le_1m = false
requires_ble5 le_2m = true
requires_ble5 le_coded_s2 = true
requires_ble5 le_coded_s8 = true

unfoldable pub coding_scheme : BlePhy → Option ℕ
coding_scheme le_1m = none
coding_scheme le_2m = none
coding_scheme le_coded_s2 = some 2
coding_scheme le_coded_s8 = some 8

-- A `usize` has 64 bits, and the products wrap, as they do in a release build.
unfoldable pub transmit_time_us : ℕ → BlePhy → ℕ
transmit_time_us bytes phy =
    ((((bytes + 10) % u64_mod * 8) % u64_mod * 1000000) % u64_mod) / data_rate_bps phy

pub record PhyCapabilities : Type 0 where
  pub has_2m : Bool
  pub has_coded : Bool

unfoldable pub le_1m_only : PhyCapabilities
le_1m_only = record { has_2m = false; has_coded = false }

unfoldable pub ble5_full : PhyCapabilities
ble5_full = record { has_2m = true; has_coded = true }

unfoldable pub ble5_no_coded : PhyCapabilities
ble5_no_coded = record { has_2m = true; has_coded = false }

unfoldable pub supports : PhyCapabilities → BlePhy → Bool
supports caps le_1m = true
supports caps le_2m = caps.has_2m
supports caps le_coded_s2 = caps.has_coded
supports caps le_coded_s8 = caps.has_coded

unfoldable pub best_for_range : PhyCapabilities → BlePhy
best_for_range caps = if caps.has_coded then le_coded_s8 else le_1m

unfoldable pub best_for_throughput : PhyCapabilities → BlePhy
best_for_throughput caps = if caps.has_2m then le_2m else le_1m

pub record PhyPreference : Type 0 where
  pub tx : BlePhy
  pub rx : BlePhy

unfoldable pub default_preference : PhyPreference
default_preference = record { tx = le_1m; rx = le_1m }

unfoldable pub symmetric : BlePhy → PhyPreference
symmetric phy = record { tx = phy; rx = phy }

unfoldable pub is_symmetric : PhyPreference → Bool
is_symmetric p = same_phy p.tx p.rx
