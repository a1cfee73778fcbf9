-- ===== src/Peers/Reconnect.antt =====
-- src/reconnect.rs: `ReconnectionConfig` and `ReconnectionManager`. Times and durations are in whole
-- milliseconds; a call reads the clock once, as `now`, and `elapsed` stops at 0. An address is the
-- list of its bytes.
use peat_btle.Prelude.{
  is_some, ℕ, ◌+◌, ◌-◌, ◌*◌, ◌%◌, ◌^◌, min, Bool, true, false, none, some, List, [], ◌∷◌, leb, ◌==◌,
  if◌then◌else◌, length, ℕ_discrete,
}
use mathlib.Core.List.{List-discrete}
use peat_btle.Prelude.Bytes.{u32_mod, u64_mod}
use peat_btle.Prelude.Assoc

abbrev pub address_discrete : Discrete (List ℕ)
address_discrete = List-discrete ℕ_discrete

pub record ReconnectionConfig : Type 0 where
  pub base_delay : ℕ
  pub max_delay : ℕ
  pub max_attempts : ℕ
  pub check_interval : ℕ
  pub use_flat_delay : Bool
  pub reset_on_exhaustion : Bool

unfoldable pub new_config : ℕ → ℕ → ℕ → ℕ → ReconnectionConfig
new_config base_delay max_delay max_attempts check_interval = record {
  base_delay = base_delay;
  max_delay = max_delay;
  max_attempts = max_attempts;
  check_interval = check_interval;
  use_flat_delay = false;
  reset_on_exhaustion = false;
}

unfoldable pub default_reconnection : ReconnectionConfig
default_reconnection = record {
  base_delay = 2000;
  max_delay = 60000;
  max_attempts = 10;
  check_interval = 5000;
  use_flat_delay = false;
  reset_on_exhaustion = false;
}

unfoldable pub fast : ReconnectionConfig
fast = record {
  base_delay = 500;
  max_delay = 5000;
  max_attempts = 5;
  check_interval = 1000;
  use_flat_delay = false;
  reset_on_exhaustion = false;
}

unfoldable pub conservative : ReconnectionConfig
conservative = record {
  base_delay = 5000;
  max_delay = 120000;
  max_attempts = 5;
  check_interval = 10000;
  use_flat_delay = false;
  reset_on_exhaustion = false;
}

unfoldable pub kotlin_normal : ReconnectionConfig
kotlin_normal = record {
  base_delay = 1000;
  max_delay = 15000;
  max_attempts = 20;
  check_interval = 5000;
  use_flat_delay = false;
  reset_on_exhaustion = false;
}

unfoldable pub kotlin_high_priority : ReconnectionConfig
kotlin_high_priority = record {
  base_delay = 1000;
  max_delay = 15000;
  max_attempts = 20;
  check_interval = 5000;
  use_flat_delay = true;
  reset_on_exhaustion = true;
}

pub record PeerReconnectionState : Type 0 where
  pub attempts : ℕ
  pub last_attempt : ℕ
  pub disconnected_at : ℕ

unfoldable pub new_peer : ℕ → PeerReconnectionState
new_peer now = record { attempts = 0; last_attempt = now; disconnected_at = now }

pub data ReconnectionStatus : Type 0 where
  ready : ReconnectionStatus
  waiting : ℕ → ReconnectionStatus
  exhausted : ℕ → ReconnectionStatus
  not_tracked : ReconnectionStatus

pub record ReconnectionManager : Type 0 where
  pub config : ReconnectionConfig
  pub peers : List (List ℕ × PeerReconnectionState)

unfoldable pub new : ReconnectionConfig → ReconnectionManager
new config = record { config = config; peers = [] }

unfoldable pub track_disconnection : ℕ → List ℕ → ReconnectionManager → ReconnectionManager
track_disconnection now address m = elim (Assoc.get address_discrete address m.peers) [
  | none ↦ record m { peers = Assoc.insert address_discrete address (new_peer now) m.peers }
  | some s ↦ m
]

unfoldable pub is_tracked : List ℕ → ReconnectionManager → Bool
is_tracked address m = is_some (Assoc.get address_discrete address m.peers)

-- The product wraps, as it does in a release build; the exponent is at most 30.
unfoldable pub calculate_delay : ReconnectionConfig → ℕ → ℕ
calculate_delay c attempts =
    if c.use_flat_delay
    then c.base_delay
    else min ((c.base_delay * 2 ^ min attempts 30) % u64_mod) c.max_delay

-- `get_status` of a peer that is tracked.
unfoldable pub status_of : ReconnectionConfig → ℕ → PeerReconnectionState → ReconnectionStatus
status_of c now s =
    if leb c.max_attempts s.attempts
    then (if c.reset_on_exhaustion then ready else exhausted s.attempts)
    else if s.attempts == 0
    then ready
    else if leb (calculate_delay c s.attempts) (now - s.last_attempt)
    then ready
    else waiting (calculate_delay c s.attempts - (now - s.last_attempt))

unfoldable pub get_status : ℕ → List ℕ → ReconnectionManager → ReconnectionStatus
get_status now address m = elim (Assoc.get address_discrete address m.peers) [
  | none ↦ not_tracked
  | some s ↦ status_of m.config now s
]

-- The first loop of `get_peers_to_reconnect`.
unfoldable pub reset_exhausted :
    ReconnectionConfig
    → ℕ
    → List (List ℕ × PeerReconnectionState)
    → List (List ℕ × PeerReconnectionState)
reset_exhausted c now [] = []
reset_exhausted c now ((a, s) ∷ m) =
    let rest = reset_exhausted c now m in
    if leb c.max_attempts s.attempts
    then (a, record s { attempts = 0; last_attempt = now }) ∷ rest
    else (a, s) ∷ rest

-- The test of `filter_map`.
unfoldable pub is_due : ReconnectionConfig → ℕ → PeerReconnectionState → Bool
is_due c now s =
    if leb c.max_attempts s.attempts
    then false
    else if s.attempts == 0
    then true
    else leb (calculate_delay c s.attempts) (now - s.last_attempt)

unfoldable pub due_addresses :
    ReconnectionConfig → ℕ → List (List ℕ × PeerReconnectionState) → List (List ℕ)
due_addresses c now [] = []
due_addresses c now ((a, s) ∷ m) =
    let rest = due_addresses c now m in if is_due c now s then a ∷ rest else rest

unfoldable pub get_peers_to_reconnect :
    ℕ → ReconnectionManager → List (List ℕ) × ReconnectionManager
get_peers_to_reconnect now m =
    let peers : List (List ℕ × PeerReconnectionState) =
      if m.config.reset_on_exhaustion then reset_exhausted m.config now m.peers else m.peers in
    (due_addresses m.config now peers, record m { peers = peers })

unfoldable pub record_attempt : ℕ → List ℕ → ReconnectionManager → ReconnectionManager
record_attempt now address m = elim (Assoc.get address_discrete address m.peers) [
  | none ↦ m
  | some s ↦ record m {
    peers =
        Assoc.insert address_discrete address
          (record s { attempts = (s.attempts + 1) % u32_mod; last_attempt = now }) m.peers;
  }
]

unfoldable pub on_connection_success : List ℕ → ReconnectionManager → ReconnectionManager
on_connection_success address m = record m { peers = Assoc.remove address_discrete address m.peers }

unfoldable pub stop_tracking : List ℕ → ReconnectionManager → ReconnectionManager
stop_tracking address m = record m { peers = Assoc.remove address_discrete address m.peers }

unfoldable pub clear : ReconnectionManager → ReconnectionManager
clear m = record m { peers = [] }

unfoldable pub tracked_count : ReconnectionManager → ℕ
tracked_count m = length m.peers
