-- ===== src/Phy/Recommended.antt =====
-- What the controller recommends (src/phy/controller.rs, `record_rssi`), it then carries out.
use peat_btle.Prelude.{
  ℕ, ◌≡◌, refl, sym, ◌∙◌, ap, ◌⊎◌, true, false, Option, none, some, inl, inr, arith, Bool-cases,
}
use mathlib.Core.Path.{subst}
use peat_btle.Prelude.Int.{ℤ}
use peat_btle.Phy.Types.{BlePhy, le_1m, same_phy, supports, symmetric}
use peat_btle.Phy.Strategy.{PhySwitchDecision, keep, switch, select_phy, evaluate_phy_switch}
use peat_btle.Phy.Steady.{supports-select_phy}
use peat_btle.Phy.Controller.{
  PhyController, PhyControllerEvent, switch_recommended, is_active, effective_capabilities,
  average_rssi, evaluate_switch, with_sample, may_switch, recommendation, record_rssi, switch_begun,
  request_switch,
}

abbrev from_of : Option PhyControllerEvent → BlePhy
from_of (some (switch_recommended from to rssi)) = from
from_of _ = le_1m

abbrev to_of : Option PhyControllerEvent → BlePhy
to_of (some (switch_recommended from to rssi)) = to
to_of _ = le_1m

abbrev target_of : PhySwitchDecision → BlePhy
target_of keep = le_1m
target_of (switch to) = to

recommendation-switch :
    (decision : PhySwitchDecision) (avg : ℤ) (c : PhyController) (from to : BlePhy) (seen : ℤ)
    → recommendation decision avg c ≡ some (switch_recommended from to seen)
    → (from ≡ c.tx_phy) × (decision ≡ switch to)
unfolding recommendation
recommendation-switch keep avg c from to seen e = absurd (ground arith)
recommendation-switch (switch p) avg c from to seen e =
    (sym (ap from_of e), ap (λ x. switch (to_of x)) e)

-- A decision for another PHY is for the one that the strategy selects.
evaluate_switch-cases :
    (rssi : ℤ) (c : PhyController)
    → (evaluate_switch rssi c ≡ keep)
      ⊎ ((same_phy (select_phy c.config.strategy c.tx_phy rssi (effective_capabilities c)) c.tx_phy
            ≡ false)
          × (evaluate_switch rssi c
              ≡ switch (select_phy c.config.strategy c.tx_phy rssi (effective_capabilities c))))
unfolding evaluate_switch evaluate_phy_switch
evaluate_switch-cases rssi c =
    elim (Bool-cases
      (same_phy (select_phy c.config.strategy c.tx_phy rssi (effective_capabilities c)) c.tx_phy)) [
        | inl e ↦ inl (rw e refl)
        | inr e ↦ inr (e, rw e refl)
      ]

may_switch-is_active :
    (t : ℕ) (c : PhyController) → may_switch t c ≡ true → is_active c.state ≡ true
unfolding may_switch
may_switch-is_active t c e = ground arith

request_switch-supports :
    (to : BlePhy) (c : PhyController)
    → is_active c.state ≡ true
    → supports (effective_capabilities c) to ≡ true
    → request_switch to c ≡ (some (symmetric to), switch_begun c)
unfolding request_switch
request_switch-supports to c on able = rw (on, able) refl

evaluate_switch-other :
    (rssi : ℤ) (c : PhyController) (to : BlePhy)
    → evaluate_switch rssi c ≡ switch to
    → (same_phy to c.tx_phy ≡ false) × (supports (effective_capabilities c) to ≡ true)
evaluate_switch-other rssi c to e = elim (evaluate_switch-cases rssi c) [
  | inl kept ↦ absurd (switch_apart (sym kept ∙ e))
  | inr (other, switched) ↦
      subst (λ x. (same_phy x c.tx_phy ≡ false) × (supports (effective_capabilities c) x ≡ true))
        (ap target_of (sym switched ∙ e))
        (other, supports-select_phy c.config.strategy c.tx_phy rssi (effective_capabilities c))
]
  where
    switch_apart : keep ≡ switch to → ⊥
    switch_apart h = ground arith

none_apart : (event : PhyControllerEvent) → none ≡ some event → ⊥
none_apart event e = ground arith

recommended_from :
    (avg : ℤ) (c : PhyController) (from to : BlePhy) (seen : ℤ)
    → is_active c.state ≡ true
    → recommendation (evaluate_switch avg c) avg c ≡ some (switch_recommended from to seen)
    → (from ≡ c.tx_phy)
      × ((same_phy to from ≡ false) × (request_switch to c ≡ (some (symmetric to), switch_begun c)))
recommended_from avg c from to seen on e =
    let (here, decided) = recommendation-switch (evaluate_switch avg c) avg c from to seen e in
    let (other, able) = evaluate_switch-other avg c to decided in
    (here, (rw here other, request_switch-supports to c on able))

record_rssi-cases :
    (rssi : ℤ) (t : ℕ) (c : PhyController)
    → (record_rssi rssi t c ≡ (none, with_sample rssi c))
      ⊎ ((is_active (with_sample rssi c).state ≡ true)
          × (record_rssi rssi t c ≡ (
            recommendation
                (evaluate_switch (average_rssi (with_sample rssi c)) (with_sample rssi c))
                (average_rssi (with_sample rssi c))
                (with_sample rssi c),
            with_sample rssi c,
          )))
unfolding record_rssi
record_rssi-cases rssi t c = elim (Bool-cases (may_switch t (with_sample rssi c))) [
  | inr stays ↦ inl (rw stays refl)
  | inl may ↦ inr (may_switch-is_active t (with_sample rssi c) may, rw may refl)
]

-- Where noting a sample makes the controller recommend a switch, it does so from the PHY in use and to
-- another one, and a request for that switch right after it is accepted: it asks for that PHY in both
-- directions, and the controller is switching.
pub request_switch-record_rssi :
    (rssi : ℤ) (t : ℕ) (c : PhyController) (from to : BlePhy) (avg : ℤ)
    → (record_rssi rssi t c).0 ≡ some (switch_recommended from to avg)
    → (from ≡ (record_rssi rssi t c).1.tx_phy)
      × ((same_phy to from ≡ false)
          × (request_switch to (record_rssi rssi t c).1
              ≡ (some (symmetric to), switch_begun (record_rssi rssi t c).1)))
request_switch-record_rssi rssi t c from to avg = elim (record_rssi-cases rssi t c) [
  | inl e ↦
      subst IsCarriedOut (sym e)
        (λ none_told. absurd (none_apart (switch_recommended from to avg) none_told))
  | inr (on, e) ↦
      subst IsCarriedOut (sym e)
        (recommended_from (average_rssi (with_sample rssi c)) (with_sample rssi c) from to avg on)
]
  where
    IsCarriedOut : Option PhyControllerEvent × PhyController → Type 0
    IsCarriedOut out =
        out.0 ≡ some (switch_recommended from to avg)
        → (from ≡ out.1.tx_phy)
          × ((same_phy to from ≡ false)
              × (request_switch to out.1 ≡ (some (symmetric to), switch_begun out.1)))
