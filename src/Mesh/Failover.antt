-- ===== src/Mesh/Failover.antt =====
-- The replacement of a lost parent (src/mesh/manager.rs, `start_failover` and `complete_failover`).
use peat_btle.Prelude.{
  ℕ, ◌+◌, ◌≡◌, refl, ap, ◌∙◌, true, false, none, some, arith, ℕ_discrete, lt→ltb, length,
}
use peat_btle.Prelude.Assoc
use peat_btle.Prelude.Assoc.{insert, remove, get-insert_self}
use peat_btle.Prelude.Int.{ℤ}
use peat_btle.Mesh.Topology
use peat_btle.Mesh.Topology.{
  HierarchyLevel, MeshTopology, has_parent, set_parent, can_accept_connection, connection_count,
}
use peat_btle.Mesh.Capacity
use peat_btle.Mesh.Manager.{
  MeshManager, failover, running, connect_parent, parent_info, disconnect_parent, start_failover,
  complete_failover,
}
use peat_btle.Mesh.Connecting.{connect_parent_accepted}
use peat_btle.Mesh.Consistency.{IsConsistent}

-- The manager that has lost its parent.
abbrev orphan : ℕ → MeshManager → MeshManager
orphan p m = record m {
  topology = record m.topology { parent = none };
  peers = remove ℕ_discrete p m.peers;
  state = failover;
}

some_same : {A : Type 0} (a b : A) → some a ≡ some b → a ≡ b
some_same a b e = ground (arith, e)

start_failover-orphan :
    (p : ℕ) (m : MeshManager)
    → m.state ≡ running
    → m.topology.parent ≡ some p
    → (start_failover m).manager ≡ orphan p m
unfolding start_failover disconnect_parent Topology.clear_parent
start_failover-orphan p m r e = rw (start_failover, r, e, e) refl

room_without :
    (p : ℕ) (t : MeshTopology)
    → t.parent ≡ some p
    → Capacity.IsValid t
    → can_accept_connection (record t { parent = none }) ≡ true
unfolding can_accept_connection connection_count
room_without p t e v =
    lt→ltb (0 + length t.children + length t.peers) t.max_connections (ground (arith, v.0, e))

complete_failover-none :
    (n : ℕ) (level : HierarchyLevel) (rssi : ℤ) (m : MeshManager)
    → (connect_parent n level rssi m).answer ≡ none
    → ((complete_failover (some (n, (level, rssi))) m).answer ≡ none)
      × ((complete_failover (some (n, (level, rssi))) m).manager
          ≡ record (connect_parent n level rssi m).manager { state = running })
unfolding complete_failover
complete_failover-none n level rssi m e =
    (rw (complete_failover, e) refl, rw (complete_failover, e) refl)

connect_parent-none :
    (n : ℕ) (level : HierarchyLevel) (rssi : ℤ) (m : MeshManager)
    → has_parent m.topology ≡ false
    → set_parent n m.topology ≡ (true, record m.topology { parent = some n })
    → (connect_parent n level rssi m).answer ≡ none
unfolding connect_parent
connect_parent-none n level rssi m h e = rw (connect_parent, h, e) refl

-- A consistent manager that is running and has a parent. It starts a failover and completes it with any
-- node: this succeeds, since the lost parent leaves room. The manager is running again, with that node as
-- its parent and a fresh entry for it.
pub complete_failover-start_failover :
    (p n : ℕ) (level : HierarchyLevel) (rssi : ℤ) (m : MeshManager)
    → IsConsistent m
    → m.state ≡ running
    → m.topology.parent ≡ some p
    → ((complete_failover (some (n, (level, rssi))) (start_failover m).manager).answer ≡ none)
      × ((complete_failover (some (n, (level, rssi))) (start_failover m).manager).manager.state
          ≡ running)
      × ((complete_failover
            (some (n, (level, rssi)))
            (start_failover m).manager).manager.topology.parent
          ≡ some n)
      × (Assoc.get ℕ_discrete n
            (complete_failover (some (n, (level, rssi))) (start_failover m).manager).manager.peers
          ≡ some (parent_info n level rssi m.current_time_ms))
unfolding has_parent
complete_failover-start_failover p n level rssi m c r e =
    let k : MeshManager = orphan p m in
    let accepted =
      Capacity.set_parent_accepted n k.topology refl (room_without p m.topology e c.limits) in
    let done =
      complete_failover-none n level rssi k (connect_parent-none n level rssi k refl accepted) in
    let after =
      done.1
      ∙ ap {A = MeshManager} (λ x. record x { state = running })
          (connect_parent_accepted n level rssi k refl accepted) in
    rw (start_failover-orphan p m r e) (
      done.0,
      ap (λ x. x.state) after,
      ap (λ x. x.topology.parent) after,
      ap (λ x. Assoc.get ℕ_discrete n x.peers) after
          ∙ get-insert_self ℕ_discrete n (parent_info n level rssi m.current_time_ms)
              (remove ℕ_discrete p m.peers),
    )
