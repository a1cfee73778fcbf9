-- ===== src/Relay/Hops.antt =====
-- How often an envelope can be relayed (src/relay.rs, `relay` and `remaining_hops`).
use peat_btle.Prelude.{ℕ, zero, suc, ◌+◌, ◌≡◌, Option, none, some, arith, leb, if◌then◌else◌}
use peat_btle.Relay.Envelope.{RelayEnvelope, relay, remaining_hops}

-- `n` relays one after another.
abbrev pub relay_times : ℕ → RelayEnvelope → Option RelayEnvelope
relay_times zero e = some e
relay_times (suc n) e = elim (relay e) [ none ↦ none | some e' ↦ relay_times n e' ]

-- An envelope can be relayed exactly `remaining_hops` times, whatever its fields are. Each relay
-- adds one to the hop count and changes nothing else; the next one is refused.
pub relay_times_lem :
    (n : ℕ) (e : RelayEnvelope)
    → relay_times n e
      ≡ (if leb n (remaining_hops e) then some (record e { hop_count = e.hop_count + n }) else none)
unfolding relay remaining_hops
relay_times_lem zero e = ground arith
relay_times_lem (suc n) e =
    ground (arith, relay_times_lem n (record e { hop_count = e.hop_count + 1 }))
