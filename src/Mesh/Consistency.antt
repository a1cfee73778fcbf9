-- ===== src/Mesh/Consistency.antt =====
-- What the calls of the manager of the mesh keep true (src/mesh/manager.rs, `MeshManager`).
use peat_btle.Prelude.{
  ℕ, ◌≡◌, refl, sym, false, none, some, List, [], ltb, inl, inr, arith, Bool-cases, Option-cases,
}
use mathlib.Core.Path.{subst}
use peat_btle.Prelude.Assoc.{get}
use peat_btle.Prelude.Int.{ℤ}
use peat_btle.Mesh.Topology
use peat_btle.Mesh.Topology.{
  HierarchyLevel, MeshTopology, contains, is_connected, has_parent, can_accept_child,
  can_accept_connection, set_parent, add_child, remove_child, remove_node, connection_count,
}
use peat_btle.Mesh.Capacity
use peat_btle.Mesh.Candidates.{rank, heard, update_first, TopologyConfig}
use peat_btle.Mesh.Manager
use peat_btle.Mesh.Manager.{
  MeshManager, update_info, is_stopped, Outcome, failover, running, is_running, connect_parent,
  parent_info, disconnect_parent, accept_child, child_info, start, stop, start_failover,
  complete_failover, update_rssi, record_failure, age_candidates, process_beacon, set_time_ms,
}
use peat_btle.Mesh.Events.{PeerInfo, DisconnectReason, link_loss}
use peat_btle.Mesh.Connecting.{
  connect_parent-cases, disconnect_parent-cases, accept_child-cases, remove_child-cases,
}
use peat_btle.Mesh.Links.{IsLinked}
use peat_btle.Mesh.Linking.{parent_added, parent_removed, child_added, child_removed, info_updated}

-- The topology keeps to the limits of the configuration, and exactly the connected nodes have an entry.
pub record Agrees (t : MeshTopology) (infos : List (ℕ × PeerInfo)) (config : TopologyConfig)
    : Type 0 where
  pub linked : IsLinked t infos
  pub limits : Capacity.IsValid t
  pub children_limit : t.max_children ≡ config.max_children
  pub connections_limit : t.max_connections ≡ config.max_connections

abbrev pub IsConsistent : MeshManager → Type 0
IsConsistent m = Agrees m.topology m.peers m.config

cleared :
    (m : MeshManager) → IsConsistent m → Capacity.IsValid (record m.topology { parent = none })
unfolding Topology.clear_parent
cleared m c = Capacity.clear_parent-IsValid m.topology c.limits

-- A change of an entry.
pub updated :
    (m : MeshManager) (n : ℕ) (f : PeerInfo → PeerInfo)
    → IsConsistent m
    → Agrees m.topology (update_info n f m.peers) m.config
updated m n f c = record {
  linked = info_updated m.topology m.peers n f c.linked;
  limits = c.limits;
  children_limit = c.children_limit;
  connections_limit = c.connections_limit;
}

pub connect_parent-IsConsistent :
    (n : ℕ) (level : HierarchyLevel) (rssi : ℤ) (m : MeshManager)
    → is_connected n m.topology ≡ false
    → IsConsistent m
    → IsConsistent (connect_parent n level rssi m).manager
connect_parent-IsConsistent n level rssi m new c = elim (connect_parent-cases n level rssi m) [
  | inl e ↦ subst IsConsistent (sym e) c
  | inr (alone, set, e) ↦ subst IsConsistent (sym e) (record {
    linked =
        parent_added m.topology m.peers c.linked n (parent_info n level rssi m.current_time_ms)
          alone new;
    limits =
        subst (λ out. Capacity.IsValid out.1) set
          (Capacity.set_parent-IsValid n m.topology c.limits);
    children_limit = c.children_limit;
    connections_limit = c.connections_limit;
  })
]

pub disconnect_parent-IsConsistent :
    (reason : DisconnectReason) (m : MeshManager)
    → IsConsistent m
    → IsConsistent (disconnect_parent reason m).manager
disconnect_parent-IsConsistent reason m c = elim (disconnect_parent-cases reason m) [
  | inl (_, e, _) ↦ subst IsConsistent (sym e) c
  | inr (p, had, e, _) ↦ subst IsConsistent (sym e) (record {
    linked = parent_removed m.topology m.peers c.linked p had;
    limits = cleared m c;
    children_limit = c.children_limit;
    connections_limit = c.connections_limit;
  })
]

pub accept_child-IsConsistent :
    (n : ℕ) (level : HierarchyLevel) (m : MeshManager)
    → is_connected n m.topology ≡ false
    → IsConsistent m
    → IsConsistent (accept_child n level m).manager
accept_child-IsConsistent n level m new c = elim (accept_child-cases n level m) [
  | inl e ↦ subst IsConsistent (sym e) c
  | inr (absent, added, e) ↦ subst IsConsistent (sym e) (record {
    linked =
        child_added m.topology m.peers c.linked n (child_info n level m.current_time_ms) new absent;
    limits =
        subst (λ out. Capacity.IsValid out.1) added
          (Capacity.add_child-IsValid n m.topology c.limits);
    children_limit = c.children_limit;
    connections_limit = c.connections_limit;
  })
]

pub remove_child-IsConsistent :
    (n : ℕ) (reason : DisconnectReason) (m : MeshManager)
    → IsConsistent m
    → IsConsistent (Manager.remove_child n reason m).manager
remove_child-IsConsistent n reason m c = elim (remove_child-cases n reason m) [
  | inl e ↦ subst IsConsistent (sym e) c
  | inr (left, found, removed, e) ↦ subst IsConsistent (sym e) (record {
    linked = child_removed m.topology m.peers c.linked n left found;
    limits =
        subst (λ out. Capacity.IsValid out.1) removed
          (Capacity.remove_child-IsValid n m.topology c.limits);
    children_limit = c.children_limit;
    connections_limit = c.connections_limit;
  })
]

pub start_failover-IsConsistent :
    (m : MeshManager) → IsConsistent m → IsConsistent (start_failover m).manager
unfolding start_failover
start_failover-IsConsistent m c = elim (Bool-cases (is_running m.state)) [
  | inr n ↦ rw (start_failover, n) c
  | inl r ↦
      let d = disconnect_parent-IsConsistent link_loss m c in
      elim (Option-cases (disconnect_parent link_loss m).answer) [
        | inl e ↦ rw (start_failover, r, e) d
        | inr (p, e) ↦ rw (start_failover, r, e) d
      ]
]

pub complete_failover-IsConsistent :
    (n : ℕ) (level : HierarchyLevel) (rssi : ℤ) (m : MeshManager)
    → is_connected n m.topology ≡ false
    → IsConsistent m
    → IsConsistent (complete_failover (some (n, (level, rssi))) m).manager
unfolding complete_failover
complete_failover-IsConsistent n level rssi m new c =
    let d = connect_parent-IsConsistent n level rssi m new c in
    elim (Option-cases (connect_parent n level rssi m).answer) [
      | inl e ↦ rw (complete_failover, e) d
      | inr (error, e) ↦ rw (complete_failover, e) d
    ]

pub process_beacon-IsConsistent :
    (n : ℕ) (level : HierarchyLevel) (rssi : ℤ) (m : MeshManager)
    → IsConsistent m
    → IsConsistent (process_beacon n level rssi m)
unfolding process_beacon
process_beacon-IsConsistent n level rssi m c =
    elim (Bool-cases (ltb (rank m.my_level) (rank level))) [
      | inr low ↦ rw (process_beacon, low) c
      | inl high ↦ elim (Option-cases (update_first n (heard level rssi) m.candidates)) [
        | inl e ↦ rw (process_beacon, high, e) c
        | inr (changed, e) ↦ rw (process_beacon, high, e) c
      ]
    ]

pub start-IsConsistent : (m : MeshManager) → IsConsistent m → IsConsistent (start m).manager
unfolding start
start-IsConsistent m c = elim (Bool-cases (is_stopped m.state)) [
  | inl e ↦ rw (start, e) c
  | inr e ↦ rw (start, e) c
]

-- A topology with no connection, and no entry.
pub empty-Agrees :
    (t : MeshTopology) (config : TopologyConfig)
    → t.max_children ≡ config.max_children
    → t.max_connections ≡ config.max_connections
    → Agrees (record t { parent = none; children = []; peers = [] }) [] config
unfolding connection_count is_connected contains get
empty-Agrees t config a b = record {
  linked = record { no_siblings = refl; apart = tt; once = tt; entries = tt; known = λ n. refl };
  limits = (omega arith, omega arith, tt, tt);
  children_limit = a;
  connections_limit = b;
}
