-- ===== src/Mesh/Tests.antt =====
-- Runs of the topology, the routes and the manager at concrete inputs.
use peat_btle.Prelude.{
  ℕ, ◌≤◌, ◌≡◌, refl, true, false, not, ◌&&◌, ◌==◌, none, some, List, [], ◌∷◌, arith, get_elem?,
  ℕ_discrete,
}
use peat_btle.Prelude.Assoc
use peat_btle.Prelude.Int.{ℤ, negsuc, ◌+ℤ◌, ◌-ℤ◌, ◌*ℤ◌, ◌≤ℤ◌}
use peat_btle.Mesh.Topology
use peat_btle.Mesh.Topology.{
  MeshTopology, squad, platoon, new, set_parent, add_child, add_peer, is_connected, get_role,
  contains, all_connected, connection_count, parent_role,
}
use peat_btle.Mesh.Capacity.{IsValid, Distinct}
use peat_btle.Mesh.Routing
use peat_btle.Mesh.Routing.{MeshRouter, downward, broadcast, targeted, handle_received, new_tracker}
use peat_btle.Mesh.Forwarding.{handle_received-except}
use peat_btle.Mesh.HopLimit.{walk, walk-new_tracker}
use peat_btle.Mesh.Candidates.{
  ParentCandidate, default_topology, best_of, better, is_eligible, score, freshness, level_bonus,
  rank, ideal_level,
}
use peat_btle.Mesh.Selection.{best_of_lem}
use peat_btle.Mesh.Manager
use peat_btle.Mesh.Manager.{
  MeshManager, start, connect_parent, parent_info, start_failover, complete_failover, running,
}
use peat_btle.Mesh.Reachable.{Reach, here, next, started, parent_came, new-IsConsistent}
use peat_btle.Mesh.Consistency.{IsConsistent}
use peat_btle.Mesh.Failover.{complete_failover-start_failover}

abbrev small_mesh : MeshTopology
small_mesh = record (new squad 2 3) { parent = some 9; children = 4 ∷ [] }

small_mesh-IsValid : IsValid small_mesh
unfolding new connection_count contains
small_mesh-IsValid = (omega arith, omega arith, (refl, tt), tt)

-- The last connection is given away, and then no more.
mesh_filled : (add_peer 6 (add_child 5 small_mesh).1).0 ≡ false
unfolding add_peer add_child contains new Topology.can_accept_child Topology.can_accept_connection
    connection_count
mesh_filled = refl

-- A parent is accepted as a child too; its role stays the parent's.
parent_and_child : get_role 9 (add_child 9 small_mesh).1 ≡ some parent_role
unfolding get_role add_child contains new Topology.can_accept_child Topology.can_accept_connection
    connection_count
parent_and_child = refl

-- The router of a node with one parent and two children.
abbrev router : MeshRouter
router = record { node_id = 1; my_level = squad }

abbrev wide_mesh : MeshTopology
wide_mesh = record (new squad 3 7) { parent = some 9; children = 4 ∷ (5 ∷ []) }

broadcast_forwarded : (handle_received router 4 none broadcast wide_mesh).next_hops ≡ 9 ∷ (5 ∷ [])
unfolding handle_received Routing.forward Routing.except Routing.success all_connected new
broadcast_forwarded = refl

-- A message for an unknown node that the parent sent goes back to the parent.
targeted_returned : (handle_received router 9 none (targeted 77) wide_mesh).next_hops ≡ 9 ∷ []
unfolding handle_received Routing.forward Routing.route_targeted Routing.success is_connected
    contains new
targeted_returned = refl

handle_received-except_example :
    (contains 5 (handle_received router 4 (some 8) downward wide_mesh).next_hops
      ≡ (contains 5 (4 ∷ (5 ∷ [])) && not (5 == 4)))
    × (contains 5 (handle_received router 4 (some 8) broadcast wide_mesh).next_hops
        ≡ (is_connected 5 wide_mesh && not (5 == 4)))
handle_received-except_example = handle_received-except router 4 5 (some 8) wide_mesh refl

walk-new_tracker_example :
    ((walk (1 ∷ (2 ∷ (1 ∷ (3 ∷ [])))) (new_tracker 2)).0 ≤ 2)
    × Distinct (walk (1 ∷ (2 ∷ (1 ∷ (3 ∷ [])))) (new_tracker 2)).1.visited
walk-new_tracker_example = walk-new_tracker (1 ∷ (2 ∷ (1 ∷ (3 ∷ [])))) 2

-- A strong and a weak candidate, at -50 and -80 dBm.
abbrev candidate : ℕ → ℤ → ParentCandidate
candidate n rssi = record {
  node_id = n;
  level = platoon;
  rssi = rssi;
  age_ms = 500;
  failure_count = 0;
}

abbrev two_candidates : List ParentCandidate
two_candidates = candidate 20 (negsuc 79) ∷ (candidate 21 (negsuc 49) ∷ [])

strong_chosen : best_of default_topology squad two_candidates ≡ some (candidate 21 (negsuc 49))
unfolding best_of better is_eligible score freshness level_bonus rank ideal_level default_topology
    ◌+ℤ◌ ◌-ℤ◌ ◌*ℤ◌
strong_chosen = refl

best_of_lem_example :
    (b : ParentCandidate) × (best_of default_topology squad two_candidates ≡ some b)
    × (score (candidate 20 (negsuc 79)) squad ≤ℤ score b squad)
    × (is_eligible default_topology b ≡ true)
    × ((j : ℕ) × (get_elem? two_candidates j ≡ some b))
unfolding is_eligible default_topology
best_of_lem_example =
    best_of_lem default_topology squad two_candidates 0 (candidate 20 (negsuc 79)) refl refl

-- A manager that has started and has connected to a parent.
abbrev made : MeshManager
made = Manager.new 1 squad default_topology

abbrev linked : MeshManager
linked = (connect_parent 9 platoon (negsuc 59) (start made).manager).manager

linked-Reach : Reach made linked
unfolding Manager.new start new is_connected contains
linked-Reach =
    next (next here (started made)) (parent_came (start made).manager 9 platoon (negsuc 59) refl)

new-IsConsistent_example : IsConsistent linked
new-IsConsistent_example = new-IsConsistent 1 squad default_topology linked-Reach

complete_failover-start_failover_example :
    ((complete_failover (some (8, (platoon, negsuc 69))) (start_failover linked).manager).answer
      ≡ none)
    × ((complete_failover
          (some (8, (platoon, negsuc 69)))
          (start_failover linked).manager).manager.state
        ≡ running)
    × ((complete_failover
          (some (8, (platoon, negsuc 69)))
          (start_failover linked).manager).manager.topology.parent
        ≡ some 8)
    × (Assoc.get ℕ_discrete 8
          (complete_failover
            (some (8, (platoon, negsuc 69)))
            (start_failover linked).manager).manager.peers
        ≡ some (parent_info 8 platoon (negsuc 69) linked.current_time_ms))
unfolding Manager.new start connect_parent new set_parent Topology.has_parent
    Topology.can_accept_connection connection_count default_topology
complete_failover-start_failover_example =
    complete_failover-start_failover 9 8 platoon (negsuc 69) linked
      (new-IsConsistent 1 squad default_topology linked-Reach) refl refl

-- A manager that was never started runs after the end of a failover that never began.
stopped_runs : (complete_failover none made).manager.state ≡ running
unfolding complete_failover Manager.new
stopped_runs = refl
