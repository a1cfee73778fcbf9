-- ===== src/Mesh/Roles.antt =====
-- The ways to ask for the connected nodes (src/mesh/topology.rs): `is_connected`, `get_role`,
-- `all_connected` and `connection_count`.
use peat_btle.Prelude.{
  is_some, ℕ, ◌≡◌, refl, ◌||◌, Option, none, some, List, [], ◌∷◌, ◌++◌, length, length-append,
  arith,
}
use peat_btle.Mesh.Topology.{
  MeshTopology, contains, is_node, parent_list, is_connected, get_role, all_connected,
  connection_count,
}

pub contains-append :
    (n : ℕ) (xs ys : List ℕ) → contains n (xs ++ ys) ≡ (contains n xs || contains n ys)
unfolding contains
contains-append n [] ys = refl
contains-append n (x ∷ xs) ys = ground (arith, contains-append n xs ys)

contains-parent_list : (n : ℕ) (p : Option ℕ) → contains n (parent_list p) ≡ is_node p n
unfolding contains
contains-parent_list n none = refl
contains-parent_list n (some p) = ground arith

-- A node counts as connected exactly when it has a role, and exactly when it is among all
-- connected nodes; and there are as many of these as connections are counted.
pub is_connected_lem :
    (n : ℕ) (t : MeshTopology)
    → (is_connected n t ≡ is_some (get_role n t))
      × (is_connected n t ≡ contains n (all_connected t))
      × (length (all_connected t) ≡ connection_count t)
unfolding is_connected get_role all_connected connection_count
is_connected_lem n t = (
  ground arith,
  ground (
    arith,
    contains-append n (parent_list t.parent) (t.children ++ t.peers),
    contains-append n t.children t.peers,
    contains-parent_list n t.parent,
  ),
  ground (
    arith,
    length-append (parent_list t.parent) (t.children ++ t.peers),
    length-append t.children t.peers,
  ),
)
