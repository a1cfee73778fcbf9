-- ===== src/Mesh/Routing.antt =====
-- src/mesh/routing.rs: `RouteDecision`, `MeshRouter` and `HopTracker`. A node id is a number.
use peat_btle.Prelude.{
  ℕ, ◌-◌, ◌%◌, Bool, true, false, Option, none, some, List, [], ◌∷◌, ◌++◌, leb, ◌==◌, if◌then◌else◌,
  length,
}
use peat_btle.Prelude.Bytes.{u8_mod}
use peat_btle.Mesh.Topology.{HierarchyLevel, MeshTopology, contains, is_connected, all_connected}

pub data RouteDirection : Type 0 where
  upward downward broadcast : RouteDirection
  targeted : ℕ → RouteDirection

pub data RouteFailure : Type 0 where
  no_parent no_children target_not_found no_peers ttl_expired message_too_large : RouteFailure

pub record RouteDecision : Type 0 where
  pub next_hops : List ℕ
  pub local_copy : Bool
  pub routed : Bool
  pub failure_reason : Option RouteFailure

unfoldable pub success : List ℕ → Bool → RouteDecision
success next_hops local_copy = record {
  next_hops = next_hops;
  local_copy = local_copy;
  routed = true;
  failure_reason = none;
}

unfoldable pub failed : RouteFailure → RouteDecision
failed reason = record {
  next_hops = [];
  local_copy = false;
  routed = false;
  failure_reason = some reason;
}

unfoldable pub local_only : RouteDecision
local_only = record { next_hops = []; local_copy = true; routed = true; failure_reason = none }

pub record MeshRouter : Type 0 where
  pub node_id : ℕ
  pub my_level : HierarchyLevel

unfoldable pub route_upward : MeshTopology → RouteDecision
route_upward t = elim t.parent [
  | none ↦ failed no_parent
  | some parent_id ↦ success (parent_id ∷ []) true
]

-- `failed` for no nodes, else `success` with all of them.
unfoldable pub flood : RouteFailure → Bool → List ℕ → RouteDecision
flood reason local_copy [] = failed reason
flood reason local_copy (n ∷ ns) = success (n ∷ ns) local_copy

unfoldable pub route_downward : MeshTopology → RouteDecision
route_downward t = flood no_children true t.children

unfoldable pub route_broadcast : MeshTopology → RouteDecision
route_broadcast t = flood no_peers true (all_connected t)

unfoldable pub route_targeted : ℕ → MeshTopology → RouteDecision
route_targeted target t =
    if is_connected target t then success (target ∷ []) false else elim t.parent [
      | none ↦ flood target_not_found false t.children
      | some parent ↦ success (parent ∷ []) false
    ]

unfoldable pub route : RouteDirection → MeshTopology → RouteDecision
route upward t = route_upward t
route downward t = route_downward t
route broadcast t = route_broadcast t
route (targeted target) t = route_targeted target t

-- `retain(|n| n != source)`
unfoldable pub except : ℕ → List ℕ → List ℕ
except source [] = []
except source (n ∷ ns) = let rest = except source ns in if n == source then rest else n ∷ rest

unfoldable pub success_or_local : List ℕ → RouteDecision
success_or_local [] = local_only
success_or_local (n ∷ ns) = success (n ∷ ns) true

-- `handle_received` from the match on the direction on.
unfoldable pub forward : MeshRouter → ℕ → RouteDirection → MeshTopology → RouteDecision
forward r source upward t = route_upward t
forward r source downward t = success_or_local (except source t.children)
forward r source broadcast t = success (except source (all_connected t)) true
forward r source (targeted target) t =
    if target == r.node_id then local_only else route_targeted target t

-- `destination == Some(&self.node_id)`
abbrev pub is_ours : MeshRouter → Option ℕ → Bool
is_ours r none = false
is_ours r (some dest) = dest == r.node_id

unfoldable pub handle_received :
    MeshRouter → ℕ → Option ℕ → RouteDirection → MeshTopology → RouteDecision
handle_received r source destination direction t =
    if is_ours r destination then local_only else forward r source direction t

unfoldable pub aggregation_route : MeshTopology → Option ℕ
aggregation_route t = t.parent

unfoldable pub dissemination_routes : MeshTopology → List ℕ
dissemination_routes t = t.children

pub record HopTracker : Type 0 where
  pub max_hops : ℕ
  pub visited : List ℕ

unfoldable pub new_tracker : ℕ → HopTracker
new_tracker max_hops = record { max_hops = max_hops; visited = [] }

unfoldable pub visit : ℕ → HopTracker → Bool × HopTracker
visit node_id h =
    if contains node_id h.visited
    then (false, h)
    else if leb h.max_hops (length h.visited)
    then (false, h)
    else (true, record h { visited = h.visited ++ (node_id ∷ []) })

unfoldable pub has_visited : ℕ → HopTracker → Bool
has_visited node_id h = contains node_id h.visited

unfoldable pub remaining_hops : HopTracker → ℕ
remaining_hops h = h.max_hops - length h.visited % u8_mod

unfoldable pub is_expired : HopTracker → Bool
is_expired h = leb h.max_hops (length h.visited)
