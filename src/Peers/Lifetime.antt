-- ===== src/Peers/Lifetime.antt =====
-- src/peer_lifetime.rs: `PeerLifetimeManager`. Times and durations are in whole milliseconds; a call
-- reads the clock once, as `now`, and `elapsed` stops at 0. An address is the list of its bytes.
use peat_btle.Prelude.{
  ℕ, ◌+◌, ◌-◌, Bool, true, false, Option, none, some, List, [], ◌∷◌, ltb, if◌then◌else◌, length,
  is_some,
}
use peat_btle.Prelude.Assoc
use peat_btle.Prelude.SortBy.{remove_all}
use peat_btle.Peers.Reconnect.{address_discrete}

pub record PeerLifetimeConfig : Type 0 where
  pub disconnected_timeout : ℕ
  pub connected_timeout : ℕ
  pub cleanup_interval : ℕ

unfoldable pub default_lifetime : PeerLifetimeConfig
default_lifetime = record {
  disconnected_timeout = 30000;
  connected_timeout = 60000;
  cleanup_interval = 10000;
}

unfoldable pub fast : PeerLifetimeConfig
fast = record { disconnected_timeout = 5000; connected_timeout = 10000; cleanup_interval = 2000 }

unfoldable pub relaxed : PeerLifetimeConfig
relaxed = record {
  disconnected_timeout = 60000;
  connected_timeout = 120000;
  cleanup_interval = 30000;
}

pub record PeerState : Type 0 where
  pub connected : Bool
  pub last_seen : ℕ
  pub first_seen : ℕ
  pub disconnected_at : Option ℕ

unfoldable pub new_peer : ℕ → Bool → PeerState
new_peer now connected = record {
  connected = connected;
  last_seen = now;
  first_seen = now;
  disconnected_at = if connected then none else some now;
}

pub data StaleReason : Type 0 where
  timed_out_disconnected timed_out_connected : StaleReason

pub record StalePeerInfo : Type 0 where
  pub address : List ℕ
  pub reason : StaleReason
  pub time_since_last_seen : ℕ
  pub was_connected : Bool

pub record PeerLifetimeManager : Type 0 where
  pub config : PeerLifetimeConfig
  pub peers : List (List ℕ × PeerState)

unfoldable pub new : PeerLifetimeConfig → PeerLifetimeManager
new config = record { config = config; peers = [] }

-- `on_peer_activity` for a peer that is tracked.
unfoldable pub active : ℕ → Bool → PeerState → PeerState
active now true s =
    if s.connected
    then record s { last_seen = now }
    else record s { last_seen = now; connected = true; disconnected_at = none }
active now false s =
    if s.connected
    then record s { last_seen = now; connected = false; disconnected_at = some now }
    else record s { last_seen = now }

unfoldable pub on_peer_activity : ℕ → List ℕ → Bool → PeerLifetimeManager → PeerLifetimeManager
on_peer_activity now address connected m = elim (Assoc.get address_discrete address m.peers) [
  | none ↦ record m {
    peers = Assoc.insert address_discrete address (new_peer now connected) m.peers;
  }
  | some s ↦ record m {
    peers = Assoc.insert address_discrete address (active now connected s) m.peers;
  }
]

-- The time of the last activity stays.
unfoldable pub lost : ℕ → PeerState → PeerState
lost now s = if s.connected then record s { connected = false; disconnected_at = some now } else s

unfoldable pub on_peer_disconnected : ℕ → List ℕ → PeerLifetimeManager → PeerLifetimeManager
on_peer_disconnected now address m = elim (Assoc.get address_discrete address m.peers) [
  | none ↦ m
  | some s ↦ record m { peers = Assoc.insert address_discrete address (lost now s) m.peers }
]

unfoldable pub is_tracked : List ℕ → PeerLifetimeManager → Bool
is_tracked address m = is_some (Assoc.get address_discrete address m.peers)

unfoldable pub is_connected : List ℕ → PeerLifetimeManager → Bool
is_connected address m = elim (Assoc.get address_discrete address m.peers) [
  | none ↦ false
  | some s ↦ s.connected
]

unfoldable pub is_stale : PeerLifetimeConfig → ℕ → PeerState → Bool
is_stale c now s =
    if s.connected
    then ltb c.connected_timeout (now - s.last_seen)
    else ltb c.disconnected_timeout (now - s.last_seen)

unfoldable pub stale_info : ℕ → List ℕ → PeerState → StalePeerInfo
stale_info now address s = record {
  address = address;
  reason = if s.connected then timed_out_connected else timed_out_disconnected;
  time_since_last_seen = now - s.last_seen;
  was_connected = s.connected;
}

-- The `filter_map` of `get_stale_peers`.
unfoldable pub stale_infos : PeerLifetimeConfig → ℕ → List (List ℕ × PeerState) → List StalePeerInfo
stale_infos c now [] = []
stale_infos c now ((a, s) ∷ m) =
    let rest = stale_infos c now m in if is_stale c now s then stale_info now a s ∷ rest else rest

unfoldable pub get_stale_peers : ℕ → PeerLifetimeManager → List StalePeerInfo
get_stale_peers now m = stale_infos m.config now m.peers

unfoldable pub addresses : List StalePeerInfo → List (List ℕ)
addresses [] = []
addresses (i ∷ is) = i.address ∷ addresses is

unfoldable pub get_stale_peer_addresses : ℕ → PeerLifetimeManager → List (List ℕ)
get_stale_peer_addresses now m = addresses (get_stale_peers now m)

unfoldable pub remove_peer : List ℕ → PeerLifetimeManager → Bool × PeerLifetimeManager
remove_peer address m = (
  is_some (Assoc.get address_discrete address m.peers),
  record m { peers = Assoc.remove address_discrete address m.peers },
)

unfoldable pub cleanup_stale_peers :
    ℕ → PeerLifetimeManager → List StalePeerInfo × PeerLifetimeManager
cleanup_stale_peers now m =
    let stale = get_stale_peers now m in
    (stale, record m { peers = remove_all address_discrete (addresses stale) m.peers })

pub record PeerLifetimeStats : Type 0 where
  pub total_tracked : ℕ
  pub connected : ℕ
  pub disconnected : ℕ

-- The loop of `stats`.
unfoldable pub count_peers : List (List ℕ × PeerState) → ℕ → ℕ → ℕ × ℕ
count_peers [] connected disconnected = (connected, disconnected)
count_peers ((a, s) ∷ m) connected disconnected =
    count_peers m (if s.connected then connected + 1 else connected)
      (if s.connected then disconnected else disconnected + 1)

unfoldable pub stats : PeerLifetimeManager → PeerLifetimeStats
stats m =
    let c = count_peers m.peers 0 0 in
    record { total_tracked = length m.peers; connected = c.0; disconnected = c.1 }

unfoldable pub clear : PeerLifetimeManager → PeerLifetimeManager
clear m = record m { peers = [] }

unfoldable pub tracked_count : PeerLifetimeManager → ℕ
tracked_count m = length m.peers
