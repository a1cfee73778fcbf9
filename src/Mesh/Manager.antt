-- ===== src/Mesh/Manager.antt =====
-- src/mesh/manager.rs: `MeshManager`, over the records and events of Mesh/Events. A callback
-- is code of the application: what the callbacks are called with is the list of events that each
-- operation answers with. Errors keep their kind, not their text. A time fits in a `usize` of 64 bits.
use peat_btle.Prelude.{
  ℕ, ◌*◌, ◌%◌, Bool, true, false, not, Option, none, some, List, [], ◌∷◌, ◌++◌, ltb, if◌then◌else◌,
  length, ℕ_discrete,
}
use peat_btle.Prelude.Bytes.{u64_mod}
use peat_btle.Prelude.Assoc
use peat_btle.Prelude.Int.{ℤ, ◌+ℤ◌, ltb_ℤ, of_byte, wrap_i8}
use peat_btle.Mesh.Topology
use peat_btle.Mesh.Topology.{HierarchyLevel, PeerRole, parent_role, child_role, MeshTopology}
use peat_btle.Mesh.Events.{
  connected, PeerInfo, new_info, update_info_rssi, record_info_failure, DisconnectReason, link_loss,
  TopologyEvent, parent_connected, parent_disconnected, child_connected, child_disconnected,
  topology_changed, parent_failover_started, parent_failover_completed, connection_quality_changed,
}
use peat_btle.Mesh.Errors.{BleError, invalid_state, connection_failed}
use peat_btle.Mesh.Candidates.{
  ParentCandidate, TopologyConfig, rank, best_of, update_first, heard, add_failure, age_all,
}

pub data ManagerState : Type 0 where
  stopped starting running failover stopping : ManagerState

pub record MeshManager : Type 0 where
  pub node_id : ℕ
  pub my_level : HierarchyLevel
  pub config : TopologyConfig
  pub topology : MeshTopology
  pub peers : List (ℕ × PeerInfo)
  pub candidates : List ParentCandidate
  pub state : ManagerState
  pub current_time_ms : ℕ

-- What an operation answers, the events it emits in order, and the manager after it.
pub record Outcome (A : Type 0) : Type 0 where
  pub answer : A
  pub events : List TopologyEvent
  pub manager : MeshManager

abbrev pub outcome : {A : Type 0} → A → List TopologyEvent → MeshManager → Outcome A
outcome a es m = record { answer = a; events = es; manager = m }

-- `Ok(())` is `none`.
abbrev pub Result : Type 0
Result = Outcome (Option BleError)

unfoldable pub new : ℕ → HierarchyLevel → TopologyConfig → MeshManager
new node_id my_level config = record {
  node_id = node_id;
  my_level = my_level;
  config = config;
  topology = Topology.new my_level config.max_children config.max_connections;
  peers = [];
  candidates = [];
  state = stopped;
  current_time_ms = 0;
}

abbrev pub is_stopped : ManagerState → Bool
is_stopped stopped = true
is_stopped starting = false
is_stopped running = false
is_stopped failover = false
is_stopped stopping = false

abbrev pub is_running : ManagerState → Bool
is_running running = true
is_running stopped = false
is_running starting = false
is_running failover = false
is_running stopping = false

unfoldable pub start : MeshManager → Result
start m =
    if is_stopped m.state
    then outcome none [] (record m { state = running })
    else outcome (some invalid_state) [] m

unfoldable pub stop : MeshManager → Result
stop m = outcome none [] (record m {
  state = stopped;
  topology = record m.topology { parent = none; children = []; peers = [] };
  peers = [];
  candidates = [];
})

unfoldable pub set_time_ms : ℕ → MeshManager → MeshManager
set_time_ms time_ms m = record m { current_time_ms = time_ms }

abbrev pub failures : Option PeerInfo → ℕ
failures none = 0
failures (some i) = i.failure_count

-- Of the beacon only the node and its level are read.
unfoldable pub process_beacon : ℕ → HierarchyLevel → ℤ → MeshManager → MeshManager
process_beacon node_id level rssi m =
    let candidate : ParentCandidate = record {
      node_id = node_id;
      level = level;
      rssi = rssi;
      age_ms = 0;
      failure_count = failures (Assoc.get ℕ_discrete node_id m.peers);
    } in
    if ltb (rank m.my_level) (rank level)
    then elim (update_first node_id (heard level rssi) m.candidates) [
      | none ↦ record m { candidates = m.candidates ++ (candidate ∷ []) }
      | some changed ↦ record m { candidates = changed }
    ]
    else m

unfoldable pub select_best_parent : MeshManager → Option ParentCandidate
select_best_parent m = best_of m.config m.my_level m.candidates

unfoldable pub topology_event : MeshManager → TopologyEvent
topology_event m =
    topology_changed (length m.topology.children) (length m.topology.peers)
      (Topology.has_parent m.topology)

-- The entry of a new parent, and of a new child.
unfoldable pub parent_info : ℕ → HierarchyLevel → ℤ → ℕ → PeerInfo
parent_info node_id level rssi time = record (new_info node_id parent_role level) {
  state = connected;
  rssi = some rssi;
  connected_at = some time;
  last_seen_ms = time;
}

unfoldable pub child_info : ℕ → HierarchyLevel → ℕ → PeerInfo
child_info node_id level time = record (new_info node_id child_role level) {
  state = connected;
  connected_at = some time;
  last_seen_ms = time;
}

unfoldable pub connect_parent : ℕ → HierarchyLevel → ℤ → MeshManager → Result
connect_parent node_id level rssi m =
    let out = Topology.set_parent node_id m.topology in
    let info : PeerInfo = parent_info node_id level rssi m.current_time_ms in
    let after : MeshManager = record m {
      topology = out.1;
      peers = Assoc.insert ℕ_discrete node_id info m.peers;
    } in
    if Topology.has_parent m.topology
    then outcome (some invalid_state) [] m
    else if not out.0
    then outcome (some connection_failed) [] m
    else outcome none (parent_connected node_id level (some rssi) ∷ (topology_event after ∷ []))
        after

unfoldable pub disconnect_parent : DisconnectReason → MeshManager → Outcome (Option ℕ)
disconnect_parent reason m =
    let out = Topology.clear_parent m.topology in
    elim out.0 [
      | none ↦ outcome none [] (record m { topology = out.1 })
      | some parent_id ↦
          let after : MeshManager = record m {
            topology = out.1;
            peers = Assoc.remove ℕ_discrete parent_id m.peers;
          } in
          outcome (some parent_id)
            (parent_disconnected parent_id reason ∷ (topology_event after ∷ [])) after
    ]

unfoldable pub accept_child : ℕ → HierarchyLevel → MeshManager → Result
accept_child node_id level m =
    let out = Topology.add_child node_id m.topology in
    let info : PeerInfo = child_info node_id level m.current_time_ms in
    let after : MeshManager = record m {
      topology = out.1;
      peers = Assoc.insert ℕ_discrete node_id info m.peers;
    } in
    if not out.0
    then outcome (some connection_failed) [] m
    else outcome none (child_connected node_id level ∷ (topology_event after ∷ [])) after

unfoldable pub remove_child : ℕ → DisconnectReason → MeshManager → Outcome Bool
remove_child node_id reason m =
    let out = Topology.remove_child node_id m.topology in
    let after : MeshManager = record m {
      topology = out.1;
      peers = Assoc.remove ℕ_discrete node_id m.peers;
    } in
    if out.0
    then outcome true (child_disconnected node_id reason ∷ (topology_event after ∷ [])) after
    else outcome false [] (record m { topology = out.1 })

unfoldable pub start_failover : MeshManager → Result
start_failover m =
    let out = disconnect_parent link_loss m in
    if not (is_running m.state) then outcome (some invalid_state) [] m else elim out.answer [
      | none ↦ outcome none out.events out.manager
      | some old_parent_id ↦
          outcome none (out.events ++ (parent_failover_started old_parent_id ∷ []))
            (record out.manager { state = failover })
    ]

-- `candidates.first()`, or node 0.
unfoldable pub first_candidate : List ParentCandidate → ℕ
first_candidate [] = 0
first_candidate (c ∷ cs) = c.node_id

unfoldable pub complete_failover : Option (ℕ × (HierarchyLevel × ℤ)) → MeshManager → Result
complete_failover none m =
    outcome none (parent_failover_completed (first_candidate m.candidates) none ∷ [])
      (record m { state = running })
complete_failover (some (node_id, (level, rssi))) m =
    let out = connect_parent node_id level rssi m in
    elim out.answer [
      | some error ↦ outcome (some error) out.events out.manager
      | none ↦
          outcome none
            (out.events
              ++ (parent_failover_completed (first_candidate m.candidates) (some node_id) ∷ []))
            (record out.manager { state = running })
    ]

-- `if let Some(peer) = peers.get_mut(node_id) { f(peer) }`
unfoldable pub update_info : ℕ → (PeerInfo → PeerInfo) → List (ℕ × PeerInfo) → List (ℕ × PeerInfo)
update_info node_id f peers = elim (Assoc.get ℕ_discrete node_id peers) [
  | none ↦ peers
  | some i ↦ Assoc.insert ℕ_discrete node_id (f i) peers
]

unfoldable pub update_rssi : ℕ → ℤ → MeshManager → Outcome Unit
update_rssi node_id rssi m = outcome tt (connection_quality_changed node_id rssi ∷ []) (record m {
  peers =
      update_info node_id
        (λ i. record (update_info_rssi rssi i) { last_seen_ms = m.current_time_ms }) m.peers;
})

unfoldable pub record_failure : ℕ → MeshManager → MeshManager
record_failure node_id m = record m {
  peers = update_info node_id record_info_failure m.peers;
  candidates = elim (update_first node_id add_failure m.candidates) [
    | none ↦ m.candidates
    | some changed ↦ changed
  ];
}

unfoldable pub age_candidates : ℕ → MeshManager → MeshManager
age_candidates elapsed_ms m = record m {
  candidates = age_all elapsed_ms ((m.config.max_beacon_age_ms * 2) % u64_mod) m.candidates;
}

-- The signal strength of the parent, by which a better one is judged.
unfoldable pub parent_rssi : MeshManager → Option ℤ
parent_rssi m = elim m.topology.parent [
  | none ↦ none
  | some p ↦ elim (Assoc.get ℕ_discrete p m.peers) [ none ↦ none | some i ↦ i.rssi ]
]

-- The sum wraps, as it does in a release build.
unfoldable pub should_switch_parent : MeshManager → Option ParentCandidate
should_switch_parent m = elim (parent_rssi m) [
  | none ↦ none
  | some current_rssi ↦ elim (select_best_parent m) [
    | none ↦ none
    | some best ↦
        if ltb_ℤ (wrap_i8 (current_rssi +ℤ of_byte m.config.rssi_hysteresis)) best.rssi
        then some best
        else none
  ]
]
