-- ===== src/Mesh/Topology.antt =====
-- src/mesh/topology.rs: `MeshTopology`. A node id is a number.
use peat_btle.Prelude.{
  is_some, ℕ, ◌+◌, Bool, true, false, not, ◌&&◌, ◌||◌, Option, none, some, List, [], ◌∷◌, ◌++◌, ltb,
  ◌==◌, if◌then◌else◌, length,
}

pub data HierarchyLevel : Type 0 where
  platform : HierarchyLevel
  squad : HierarchyLevel
  platoon : HierarchyLevel
  company : HierarchyLevel

pub data PeerRole : Type 0 where
  parent_role : PeerRole
  child_role : PeerRole
  peer_role : PeerRole

pub record MeshTopology : Type 0 where
  pub parent : Option ℕ
  pub children : List ℕ
  pub peers : List ℕ
  pub my_level : HierarchyLevel
  pub max_children : ℕ
  pub max_connections : ℕ

unfoldable pub new : HierarchyLevel → ℕ → ℕ → MeshTopology
new my_level max_children max_connections = record {
  parent = none;
  children = [];
  peers = [];
  my_level = my_level;
  max_children = max_children;
  max_connections = max_connections;
}

unfoldable pub has_parent : MeshTopology → Bool
has_parent t = is_some t.parent

unfoldable pub connection_count : MeshTopology → ℕ
connection_count t = (if is_some t.parent then 1 else 0) + length t.children + length t.peers

unfoldable pub can_accept_connection : MeshTopology → Bool
can_accept_connection t = ltb (connection_count t) t.max_connections

unfoldable pub can_accept_child : MeshTopology → Bool
can_accept_child t = ltb (length t.children) t.max_children && can_accept_connection t

-- `contains`
unfoldable pub contains : ℕ → List ℕ → Bool
contains n [] = false
contains n (x ∷ xs) = (x == n) || contains n xs

-- `position` and `remove` of it: the list without the first such node, if there is one.
unfoldable pub remove_node : ℕ → List ℕ → Option (List ℕ)
remove_node n [] = none
remove_node n (x ∷ xs) =
    let rest = remove_node n xs in
    if x == n then some xs else elim rest [ none ↦ none | some left ↦ some (x ∷ left) ]

unfoldable pub set_parent : ℕ → MeshTopology → Bool × MeshTopology
set_parent node_id t =
    if is_some t.parent
    then (false, t)
    else if not (can_accept_connection t)
    then (false, t)
    else (true, record t { parent = some node_id })

unfoldable pub clear_parent : MeshTopology → Option ℕ × MeshTopology
clear_parent t = (t.parent, record t { parent = none })

unfoldable pub add_child : ℕ → MeshTopology → Bool × MeshTopology
add_child node_id t =
    if not (can_accept_child t)
    then (false, t)
    else if contains node_id t.children
    then (false, t)
    else (true, record t { children = t.children ++ (node_id ∷ []) })

unfoldable pub remove_child : ℕ → MeshTopology → Bool × MeshTopology
remove_child node_id t = elim (remove_node node_id t.children) [
  | none ↦ (false, t)
  | some left ↦ (true, record t { children = left })
]

unfoldable pub add_peer : ℕ → MeshTopology → Bool × MeshTopology
add_peer node_id t =
    if not (can_accept_connection t)
    then (false, t)
    else if contains node_id t.peers
    then (false, t)
    else (true, record t { peers = t.peers ++ (node_id ∷ []) })

unfoldable pub remove_peer : ℕ → MeshTopology → Bool × MeshTopology
remove_peer node_id t = elim (remove_node node_id t.peers) [
  | none ↦ (false, t)
  | some left ↦ (true, record t { peers = left })
]

abbrev pub parent_list : Option ℕ → List ℕ
parent_list none = []
parent_list (some p) = p ∷ []

unfoldable pub all_connected : MeshTopology → List ℕ
all_connected t = parent_list t.parent ++ (t.children ++ t.peers)

-- `self.parent.as_ref() == Some(node_id)`
abbrev pub is_node : Option ℕ → ℕ → Bool
is_node none n = false
is_node (some p) n = p == n

unfoldable pub is_connected : ℕ → MeshTopology → Bool
is_connected node_id t =
    is_node t.parent node_id || (contains node_id t.children || contains node_id t.peers)

unfoldable pub get_role : ℕ → MeshTopology → Option PeerRole
get_role node_id t =
    if is_node t.parent node_id
    then some parent_role
    else if contains node_id t.children
    then some child_role
    else if contains node_id t.peers
    then some peer_role
    else none
