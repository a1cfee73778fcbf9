-- ===== src/Mesh/Connecting.antt =====
-- What the calls that connect and disconnect make of the manager (src/mesh/manager.rs).
use peat_btle.Prelude.{
  is_some, ℕ, ◌≡◌, refl, true, false, not, ◌||◌, none, some, List, [], ◌∷◌, ◌++◌, ◌⊎◌, inl, inr,
  arith, Bool-cases, Option-cases, ℕ_discrete,
}
use peat_btle.Prelude.Assoc.{insert, remove}
use peat_btle.Prelude.Int.{ℤ}
use peat_btle.Mesh.Topology.{
  HierarchyLevel, MeshTopology, contains, has_parent, can_accept_child, can_accept_connection,
  set_parent, add_child, remove_child, remove_node, clear_parent,
}
use peat_btle.Mesh.Capacity
use peat_btle.Mesh.Manager
use peat_btle.Mesh.Manager.{
  MeshManager, Outcome, failover, running, is_running, connect_parent, parent_info,
  disconnect_parent, accept_child, child_info, start, stop, start_failover, complete_failover,
  update_rssi, record_failure, age_candidates, process_beacon, set_time_ms,
}
use peat_btle.Mesh.Events.{DisconnectReason}

-- The manager with a new parent, and with a new child.
abbrev pub with_parent : ℕ → HierarchyLevel → ℤ → MeshManager → MeshManager
with_parent n level rssi m = record m {
  topology = record m.topology { parent = some n };
  peers = insert ℕ_discrete n (parent_info n level rssi m.current_time_ms) m.peers;
}

abbrev pub with_child : ℕ → HierarchyLevel → MeshManager → MeshManager
with_child n level m = record m {
  topology = record m.topology { children = m.topology.children ++ (n ∷ []) };
  peers = insert ℕ_discrete n (child_info n level m.current_time_ms) m.peers;
}

connect_parent_refused :
    (n : ℕ) (level : HierarchyLevel) (rssi : ℤ) (m : MeshManager)
    → set_parent n m.topology ≡ (false, m.topology)
    → (connect_parent n level rssi m).manager ≡ m
unfolding connect_parent
connect_parent_refused n level rssi m e = elim (Bool-cases (has_parent m.topology)) [
  | inl h ↦ rw (connect_parent, h) refl
  | inr h ↦ rw (connect_parent, h, e) refl
]

pub connect_parent_accepted :
    (n : ℕ) (level : HierarchyLevel) (rssi : ℤ) (m : MeshManager)
    → has_parent m.topology ≡ false
    → set_parent n m.topology ≡ (true, record m.topology { parent = some n })
    → (connect_parent n level rssi m).manager ≡ with_parent n level rssi m
unfolding connect_parent
connect_parent_accepted n level rssi m h e = rw (connect_parent, h, e) refl

pub connect_parent-cases :
    (n : ℕ) (level : HierarchyLevel) (rssi : ℤ) (m : MeshManager)
    → ((connect_parent n level rssi m).manager ≡ m)
      ⊎ ((m.topology.parent ≡ none)
          × (set_parent n m.topology ≡ (true, record m.topology { parent = some n }))
          × ((connect_parent n level rssi m).manager ≡ with_parent n level rssi m))
unfolding has_parent
connect_parent-cases n level rssi m =
    elim (Bool-cases (is_some m.topology.parent || not (can_accept_connection m.topology))) [
      | inl h ↦
          inl (connect_parent_refused n level rssi m (Capacity.set_parent_refused n m.topology h))
      | inr h ↦
          let alone : is_some m.topology.parent ≡ false = ground (arith, h) in
          let accepted = Capacity.set_parent_accepted n m.topology alone (ground (arith, h)) in
          inr
            (ground (arith, alone), accepted, connect_parent_accepted n level rssi m alone accepted)
    ]

pub disconnect_parent-cases :
    (reason : DisconnectReason) (m : MeshManager)
    → ((m.topology.parent ≡ none)
        × ((disconnect_parent reason m).manager ≡ m)
        × ((disconnect_parent reason m).answer ≡ none))
      ⊎ ((p : ℕ) × (m.topology.parent ≡ some p)
          × ((disconnect_parent reason m).manager ≡ record m {
            topology = record m.topology { parent = none };
            peers = remove ℕ_discrete p m.peers;
          })
          × ((disconnect_parent reason m).answer ≡ some p))
unfolding disconnect_parent clear_parent
disconnect_parent-cases reason m = elim (Option-cases m.topology.parent) [
  | inl e ↦ inl (e, rw (disconnect_parent, e) refl, rw (disconnect_parent, e) refl)
  | inr (p, e) ↦ inr (p, e, rw (disconnect_parent, e) refl, rw (disconnect_parent, e) refl)
]

add_child_refused :
    (n : ℕ) (t : MeshTopology)
    → (not (can_accept_child t) || contains n t.children) ≡ true
    → add_child n t ≡ (false, t)
unfolding add_child
add_child_refused n t h = ground (arith, h)

add_child_accepted :
    (n : ℕ) (t : MeshTopology)
    → (not (can_accept_child t) || contains n t.children) ≡ false
    → add_child n t ≡ (true, record t { children = t.children ++ (n ∷ []) })
unfolding add_child
add_child_accepted n t h = ground (arith, h)

pub accept_child-cases :
    (n : ℕ) (level : HierarchyLevel) (m : MeshManager)
    → ((accept_child n level m).manager ≡ m)
      ⊎ ((contains n m.topology.children ≡ false)
          × (add_child n m.topology
              ≡ (true, record m.topology { children = m.topology.children ++ (n ∷ []) }))
          × ((accept_child n level m).manager ≡ with_child n level m))
unfolding accept_child
accept_child-cases n level m =
    elim (Bool-cases (not (can_accept_child m.topology) || contains n m.topology.children)) [
      | inl h ↦ inl (rw (accept_child, add_child_refused n m.topology h) refl)
      | inr h ↦
          let e = add_child_accepted n m.topology h in
          inr (ground (arith, h), e, rw (accept_child, e) refl)
    ]

remove_child_refused :
    (n : ℕ) (t : MeshTopology) → remove_node n t.children ≡ none → remove_child n t ≡ (false, t)
unfolding remove_child
remove_child_refused n t e = rw (remove_child, e) refl

remove_child_accepted :
    (n : ℕ) (left : List ℕ) (t : MeshTopology)
    → remove_node n t.children ≡ some left
    → remove_child n t ≡ (true, record t { children = left })
unfolding remove_child
remove_child_accepted n left t e = rw (remove_child, e) refl

pub remove_child-cases :
    (n : ℕ) (reason : DisconnectReason) (m : MeshManager)
    → ((Manager.remove_child n reason m).manager ≡ m)
      ⊎ ((left : List ℕ) × (remove_node n m.topology.children ≡ some left)
          × (remove_child n m.topology ≡ (true, record m.topology { children = left }))
          × ((Manager.remove_child n reason m).manager ≡ record m {
            topology = record m.topology { children = left };
            peers = remove ℕ_discrete n m.peers;
          }))
unfolding Manager.remove_child
remove_child-cases n reason m = elim (Option-cases (remove_node n m.topology.children)) [
  | inl e ↦ inl (rw (Manager.remove_child, remove_child_refused n m.topology e) refl)
  | inr (left, e) ↦
      let gone = remove_child_accepted n left m.topology e in
      inr (left, e, gone, rw (Manager.remove_child, gone) refl)
]
