-- ===== src/Phy/Steady.antt =====
-- The choice of a PHY (src/phy/strategy.rs) is supported, and settles at once.
use peat_btle.Prelude.{◌≡◌, refl, Bool, true, inl, inr, arith, Bool-cases, if◌then◌else◌}
use peat_btle.Prelude.Int.{ℤ, ◌+ℤ◌, ◌-ℤ◌, ◌≤ℤ◌, ltb_ℤ, of_byte, wrap_i8}
use peat_btle.Phy.Types.{
  BlePhy, le_1m, le_2m, le_coded_s2, le_coded_s8, same_phy, is_coded, PhyCapabilities, supports,
}
use peat_btle.Phy.Strategy.{
  Thresholds, PhyStrategy, fixed, adaptive, max_range, max_throughput, power_optimized,
  selected_phy, select_phy, high_thresh, low_thresh,
}

pub supports-select_phy :
    (s : PhyStrategy) (cur : BlePhy) (rssi : ℤ) (caps : PhyCapabilities)
    → supports caps (select_phy s cur rssi caps) ≡ true
unfolding select_phy supports
supports-select_phy s cur rssi caps =
    elim (Bool-cases (supports caps (selected_phy s cur rssi caps))) [
      | inl e ↦ rw (e, e) refl
      | inr e ↦ rw e refl
    ]

-- The thresholds name a coded PHY, and the hysteresis does not wrap around.
unfoldable pub IsSteady : PhyStrategy → Type 0
IsSteady (adaptive t) =
    (is_coded t.coded_phy ≡ true)
    × ((wrap_i8 (t.rssi_threshold_high -ℤ of_byte t.hysteresis_db) ≤ℤ t.rssi_threshold_high)
        × (t.rssi_threshold_low ≤ℤ wrap_i8 (t.rssi_threshold_low +ℤ of_byte t.hysteresis_db)))
IsSteady _ = Unit

-- The choice between the three rates, and its fallback.
abbrev choice : Bool → Bool → BlePhy → PhyCapabilities → BlePhy
choice above below coded caps =
    let selected = if above then le_2m else (if below then coded else le_1m) in
    if supports caps selected then selected else le_1m

abbrev choose : Bool → Bool → Bool → Bool → BlePhy → PhyCapabilities → BlePhy → BlePhy
choose above above_2m below below_coded coded caps cur =
    choice (if same_phy cur le_2m then above_2m else above)
      (if same_phy cur le_2m then below else (if is_coded cur then below_coded else below)) coded
      caps

lt_trans : (a b x : ℤ) → a ≤ℤ b → ltb_ℤ b x ≡ true → ltb_ℤ a x ≡ true
lt_trans a b x h e = ground arith

trans_lt : (x a b : ℤ) → a ≤ℤ b → ltb_ℤ x a ≡ true → ltb_ℤ x b ≡ true
trans_lt x a b h e = ground arith

-- The rates that each choice can come to.
choose_again :
    (a a2 b b2 : Bool) (coded : BlePhy) (caps : PhyCapabilities) (cur : BlePhy)
    → is_coded coded ≡ true
    → supports caps cur ≡ true
    → (a ≡ true → a2 ≡ true)
    → (b ≡ true → b2 ≡ true)
    → choose a a2 b b2 coded caps (choose a a2 b b2 coded caps cur)
      ≡ choose a a2 b b2 coded caps cur
unfolding same_phy is_coded supports
choose_again a a2 b b2 le_1m caps cur c s f g = absurd (ground arith)
choose_again a a2 b b2 le_2m caps cur c s f g = absurd (ground arith)
choose_again a a2 b b2 le_coded_s2 caps le_1m c s f g = ground arith
choose_again a a2 b b2 le_coded_s2 caps le_2m c s f g = ground arith
choose_again a a2 b b2 le_coded_s2 caps le_coded_s2 c s f g = ground arith
choose_again a a2 b b2 le_coded_s2 caps le_coded_s8 c s f g = ground arith
choose_again a a2 b b2 le_coded_s8 caps le_1m c s f g = ground arith
choose_again a a2 b b2 le_coded_s8 caps le_2m c s f g = ground arith
choose_again a a2 b b2 le_coded_s8 caps le_coded_s2 c s f g = ground arith
choose_again a a2 b b2 le_coded_s8 caps le_coded_s8 c s f g = ground arith

select_phy-adaptive :
    (t : Thresholds) (cur : BlePhy) (rssi : ℤ) (caps : PhyCapabilities)
    → select_phy (adaptive t) cur rssi caps
      ≡ choose
          (ltb_ℤ t.rssi_threshold_high rssi)
          (ltb_ℤ (wrap_i8 (t.rssi_threshold_high -ℤ of_byte t.hysteresis_db)) rssi)
          (ltb_ℤ rssi t.rssi_threshold_low)
          (ltb_ℤ rssi (wrap_i8 (t.rssi_threshold_low +ℤ of_byte t.hysteresis_db)))
          t.coded_phy
          caps
          cur
unfolding select_phy selected_phy high_thresh low_thresh same_phy is_coded
select_phy-adaptive t le_1m rssi caps = refl
select_phy-adaptive t le_2m rssi caps = refl
select_phy-adaptive t le_coded_s2 rssi caps = refl
select_phy-adaptive t le_coded_s8 rssi caps = refl

-- Any strategy, where the thresholds of an adaptive one name a coded PHY and its hysteresis does not
-- wrap around, and a PHY in use that is supported. At the same signal strength, a second choice right
-- after the first one keeps the PHY: the selection does not swing between two of them.
pub select_phy-select_phy :
    (s : PhyStrategy) (cur : BlePhy) (rssi : ℤ) (caps : PhyCapabilities)
    → IsSteady s
    → supports caps cur ≡ true
    → select_phy s (select_phy s cur rssi caps) rssi caps ≡ select_phy s cur rssi caps
unfolding IsSteady select_phy selected_phy
select_phy-select_phy (adaptive t) cur rssi caps (coded, (high, low)) able =
    rw (select_phy-adaptive t cur rssi caps, select_phy-adaptive t _ rssi caps)
      (choose_again _ _ _ _ t.coded_phy caps cur coded able
        (lt_trans (wrap_i8 (t.rssi_threshold_high -ℤ of_byte t.hysteresis_db)) t.rssi_threshold_high
          rssi high)
        (trans_lt rssi t.rssi_threshold_low
          (wrap_i8 (t.rssi_threshold_low +ℤ of_byte t.hysteresis_db)) low))
select_phy-select_phy (fixed phy) cur rssi caps h able = refl
select_phy-select_phy max_range cur rssi caps h able = refl
select_phy-select_phy max_throughput cur rssi caps h able = refl
select_phy-select_phy (power_optimized t) cur rssi caps h able = refl
