-- ===== src/Mesh/Reachable.antt =====
-- The manager of the mesh as a state machine (src/mesh/manager.rs, `MeshManager`): its calls as steps,
-- and what every reachable state keeps true.
use peat_btle.Prelude.{ℕ, ◌≡◌, refl, false, none, some}
use peat_btle.Prelude.Int.{ℤ}
use peat_btle.Mesh.Topology
use peat_btle.Mesh.Topology.{
  HierarchyLevel, MeshTopology, contains, is_connected, has_parent, can_accept_child,
  can_accept_connection, set_parent, add_child, remove_child, remove_node, connection_count,
}
use peat_btle.Mesh.Candidates.{TopologyConfig}
use peat_btle.Mesh.Manager
use peat_btle.Mesh.Manager.{
  MeshManager, update_info, is_stopped, Outcome, failover, running, is_running, connect_parent,
  parent_info, disconnect_parent, accept_child, child_info, start, stop, start_failover,
  complete_failover, update_rssi, record_failure, age_candidates, process_beacon, set_time_ms,
}
use peat_btle.Mesh.Events.{update_info_rssi, record_info_failure, DisconnectReason}
use peat_btle.Mesh.Consistency.{
  IsConsistent, updated, connect_parent-IsConsistent, disconnect_parent-IsConsistent,
  accept_child-IsConsistent, remove_child-IsConsistent, start_failover-IsConsistent,
  complete_failover-IsConsistent, process_beacon-IsConsistent, start-IsConsistent, empty-Agrees,
}

-- A call of the manager. A node that connects is not connected yet.
pub data Step : MeshManager → MeshManager → Type 0 where
  started : (m : MeshManager) → Step m (start m).manager
  stopped_now : (m : MeshManager) → Step m (stop m).manager
  at_time : (m : MeshManager) (t : ℕ) → Step m (set_time_ms t m)
  beacon :
      (m : MeshManager) (n : ℕ) (level : HierarchyLevel) (rssi : ℤ)
      → Step m (process_beacon n level rssi m)
  parent_came :
      (m : MeshManager) (n : ℕ) (level : HierarchyLevel) (rssi : ℤ)
      → is_connected n m.topology ≡ false
      → Step m (connect_parent n level rssi m).manager
  parent_left :
      (m : MeshManager) (reason : DisconnectReason) → Step m (disconnect_parent reason m).manager
  child_came :
      (m : MeshManager) (n : ℕ) (level : HierarchyLevel)
      → is_connected n m.topology ≡ false
      → Step m (accept_child n level m).manager
  child_left :
      (m : MeshManager) (n : ℕ) (reason : DisconnectReason)
      → Step m (Manager.remove_child n reason m).manager
  failover_started : (m : MeshManager) → Step m (start_failover m).manager
  failover_ended : (m : MeshManager) → Step m (complete_failover none m).manager
  failover_done :
      (m : MeshManager) (n : ℕ) (level : HierarchyLevel) (rssi : ℤ)
      → is_connected n m.topology ≡ false
      → Step m (complete_failover (some (n, (level, rssi))) m).manager
  rssi_read : (m : MeshManager) (n : ℕ) (rssi : ℤ) → Step m (update_rssi n rssi m).manager
  failed_once : (m : MeshManager) (n : ℕ) → Step m (record_failure n m)
  aged : (m : MeshManager) (t : ℕ) → Step m (age_candidates t m)

pub data Reach (m : MeshManager) : MeshManager → Type 0 where
  here : Reach m m
  next : {k l : MeshManager} → Reach m k → Step k l → Reach m l

-- No step leads from a consistent manager to an inconsistent one.
pub Step-IsConsistent : {m k : MeshManager} → Step m k → IsConsistent m → IsConsistent k
unfolding set_time_ms age_candidates record_failure update_rssi stop complete_failover
Step-IsConsistent (started m) c = start-IsConsistent m c
Step-IsConsistent (stopped_now m) c =
    empty-Agrees m.topology m.config c.children_limit c.connections_limit
Step-IsConsistent (at_time m t) c = c
Step-IsConsistent (beacon m n level rssi) c = process_beacon-IsConsistent n level rssi m c
Step-IsConsistent (parent_came m n level rssi new) c =
    connect_parent-IsConsistent n level rssi m new c
Step-IsConsistent (parent_left m reason) c = disconnect_parent-IsConsistent reason m c
Step-IsConsistent (child_came m n level new) c = accept_child-IsConsistent n level m new c
Step-IsConsistent (child_left m n reason) c = remove_child-IsConsistent n reason m c
Step-IsConsistent (failover_started m) c = start_failover-IsConsistent m c
Step-IsConsistent (failover_ended m) c = c
Step-IsConsistent (failover_done m n level rssi new) c =
    complete_failover-IsConsistent n level rssi m new c
Step-IsConsistent (rssi_read m n rssi) c =
    updated m n (λ i. record (update_info_rssi rssi i) { last_seen_ms = m.current_time_ms }) c
Step-IsConsistent (failed_once m n) c = updated m n record_info_failure c
Step-IsConsistent (aged m t) c = c

Reach-IsConsistent : {m k : MeshManager} → IsConsistent m → Reach m k → IsConsistent k
Reach-IsConsistent c here = c
Reach-IsConsistent c (next r s) = Step-IsConsistent s (Reach-IsConsistent c r)

-- Any state that a new manager comes to by its calls, where a node is only connected (as the parent, as
-- a child, or at the end of a failover) while it is not connected yet. There are at most as many children
-- and connections as the configuration allows, no node is connected twice, and exactly the connected nodes
-- have an entry.
pub new-IsConsistent :
    (node_id : ℕ) (my_level : HierarchyLevel) (config : TopologyConfig) {m : MeshManager}
    → Reach (Manager.new node_id my_level config) m
    → IsConsistent m
unfolding Manager.new Topology.new
new-IsConsistent node_id my_level config r =
    Reach-IsConsistent
      (empty-Agrees (Topology.new my_level config.max_children config.max_connections) config refl
        refl)
      r
