-- ===== src/Mesh/Events.antt =====
-- What a node keeps of its peers and tells of its topology (src/mesh/topology.rs: `PeerInfo`,
-- `TopologyEvent` and the types of their fields).
use peat_btle.Prelude.{ℕ, Bool, Option, none, some}
use peat_btle.Prelude.Bytes.{sat_add}
use peat_btle.Prelude.Int.{ℤ}
use peat_btle.Mesh.Topology.{HierarchyLevel, PeerRole}

pub data ConnectionState : Type 0 where
  disconnected connecting connected disconnecting : ConnectionState

pub record PeerInfo : Type 0 where
  pub node_id : ℕ
  pub role : PeerRole
  pub state : ConnectionState
  pub hierarchy_level : HierarchyLevel
  pub rssi : Option ℤ
  pub connected_at : Option ℕ
  pub messages_received : ℕ
  pub messages_sent : ℕ
  pub failure_count : ℕ
  pub last_seen_ms : ℕ

unfoldable pub new_info : ℕ → PeerRole → HierarchyLevel → PeerInfo
new_info node_id role hierarchy_level = record {
  node_id = node_id;
  role = role;
  state = disconnected;
  hierarchy_level = hierarchy_level;
  rssi = none;
  connected_at = none;
  messages_received = 0;
  messages_sent = 0;
  failure_count = 0;
  last_seen_ms = 0;
}

unfoldable pub update_info_rssi : ℤ → PeerInfo → PeerInfo
update_info_rssi rssi i = record i { rssi = some rssi }

unfoldable pub record_info_failure : PeerInfo → PeerInfo
record_info_failure i = record i { failure_count = sat_add 255 i.failure_count 1 }

unfoldable pub reset_failures : PeerInfo → PeerInfo
reset_failures i = record i { failure_count = 0 }

pub data DisconnectReason : Type 0 where
  requested timeout remote_disconnect supervision_timeout link_loss local_error unknown :
      DisconnectReason

pub data TopologyEvent : Type 0 where
  parent_connected : ℕ → HierarchyLevel → Option ℤ → TopologyEvent
  parent_disconnected : ℕ → DisconnectReason → TopologyEvent
  child_connected : ℕ → HierarchyLevel → TopologyEvent
  child_disconnected : ℕ → DisconnectReason → TopologyEvent
  peer_connected : ℕ → TopologyEvent
  peer_disconnected : ℕ → DisconnectReason → TopologyEvent
  topology_changed : ℕ → ℕ → Bool → TopologyEvent
  parent_failover_started : ℕ → TopologyEvent
  parent_failover_completed : ℕ → Option ℕ → TopologyEvent
  connection_quality_changed : ℕ → ℤ → TopologyEvent
