-- ===== src/Mesh/Forwarding.antt =====
-- Where messages go, and for how many hops (src/mesh/routing.rs).
use peat_btle.Prelude.{
  ℕ, ◌≡◌, refl, ap, sym, ◌∙◌, Bool, true, false, not, ◌&&◌, Option, none, some, List, [], ◌∷◌, ◌==◌,
  arith, Bool-cases, Option-cases, inl, inr,
}
use mathlib.Core.Path.{subst}
use peat_btle.Mesh.Topology.{MeshTopology, contains, is_connected, all_connected}
use peat_btle.Mesh.Roles.{is_connected_lem}
use peat_btle.Mesh.Routing.{
  RouteDirection, upward, downward, broadcast, targeted, RouteDecision, RouteFailure, no_children,
  no_peers, no_parent, target_not_found, MeshRouter, is_ours, except, flood, success, failed,
  local_only, success_or_local, forward, handle_received, route, route_upward, route_downward,
  route_broadcast, route_targeted,
}

contains-except :
    (n source : ℕ) (ns : List ℕ)
    → contains n (except source ns) ≡ (contains n ns && not (n == source))
unfolding contains except
contains-except n source [] = refl
contains-except n source (m ∷ ns) = ground (arith, contains-except n source ns)

success_or_local-next_hops : (ns : List ℕ) → (success_or_local ns).next_hops ≡ ns
unfolding success_or_local success local_only
success_or_local-next_hops [] = refl
success_or_local-next_hops (n ∷ ns) = refl

handle_received-forward :
    (r : MeshRouter) (source : ℕ) (destination : Option ℕ) (direction : RouteDirection)
    (t : MeshTopology)
    → is_ours r destination ≡ false
    → handle_received r source destination direction t ≡ forward r source direction t
unfolding handle_received
handle_received-forward r source destination direction t other = rw (handle_received, other) refl

-- A message that another node sent, for which this node is not the destination. Downward, it goes
-- exactly to the children that did not send it; as a broadcast, exactly to the connected nodes that did
-- not send it.
pub handle_received-except :
    (r : MeshRouter) (source n : ℕ) (destination : Option ℕ) (t : MeshTopology)
    → is_ours r destination ≡ false
    → (contains n (handle_received r source destination downward t).next_hops
        ≡ (contains n t.children && not (n == source)))
      × (contains n (handle_received r source destination broadcast t).next_hops
          ≡ (is_connected n t && not (n == source)))
unfolding forward success
handle_received-except r source n destination t other = (
  ap (λ d. contains n d.next_hops) (handle_received-forward r source destination downward t other)
      ∙ (ap (contains n) (success_or_local-next_hops (except source t.children))
          ∙ contains-except n source t.children),
  ap (λ d. contains n d.next_hops) (handle_received-forward r source destination broadcast t other)
      ∙ (contains-except n source (all_connected t)
          ∙ ap (λ b. b && not (n == source)) (sym ((is_connected_lem n t).1))),
)

abbrev is_nil : List ℕ → Bool
is_nil [] = true
is_nil (n ∷ ns) = false

-- Every next hop is connected, and a decision counts as routed exactly when it has one.
abbrev IsSound : MeshTopology → RouteDecision → Type 0
IsSound t d =
    ((n : ℕ) → contains n d.next_hops ≡ true → is_connected n t ≡ true)
    × (d.routed ≡ not (is_nil d.next_hops))

flood-IsSound :
    (reason : RouteFailure) (copy : Bool) (ns : List ℕ) (t : MeshTopology)
    → ((n : ℕ) → contains n ns ≡ true → is_connected n t ≡ true)
    → IsSound t (flood reason copy ns)
unfolding flood failed success
flood-IsSound reason copy [] t h = (h, refl)
flood-IsSound reason copy (m ∷ ns) t h = (h, refl)

contains_one : (m n : ℕ) → contains n (m ∷ []) ≡ true → m ≡ n
unfolding contains
contains_one m n e = ground arith

failed-IsSound : (reason : RouteFailure) (t : MeshTopology) → IsSound t (failed reason)
unfolding failed contains
failed-IsSound reason t = (λ n e. absurd (ground arith), refl)

one-IsSound :
    (copy : Bool) (m : ℕ) (t : MeshTopology)
    → is_connected m t ≡ true
    → IsSound t (success (m ∷ []) copy)
unfolding success contains
one-IsSound copy m t h = (λ n e. same n (contains_one m n e), refl)
  where
    same : (n : ℕ) → m ≡ n → is_connected n t ≡ true
    same n q = subst (λ k. is_connected k t ≡ true) q h

parent-is_connected : (m : ℕ) (t : MeshTopology) → t.parent ≡ some m → is_connected m t ≡ true
unfolding is_connected
parent-is_connected m t e = rw e (ground arith)

children-is_connected :
    (n : ℕ) (t : MeshTopology) → contains n t.children ≡ true → is_connected n t ≡ true
unfolding is_connected
children-is_connected n t e = ground arith

route_upward-failed : (t : MeshTopology) → t.parent ≡ none → route_upward t ≡ failed no_parent
unfolding route_upward
route_upward-failed t e = rw (route_upward, e) refl

route_upward-success :
    (m : ℕ) (t : MeshTopology) → t.parent ≡ some m → route_upward t ≡ success (m ∷ []) true
unfolding route_upward
route_upward-success m t e = rw (route_upward, e) refl

route_targeted-success :
    (n : ℕ) (t : MeshTopology)
    → is_connected n t ≡ true
    → route_targeted n t ≡ success (n ∷ []) false
unfolding route_targeted
route_targeted-success n t e = rw (route_targeted, e) refl

route_targeted-flood :
    (n : ℕ) (t : MeshTopology)
    → is_connected n t ≡ false
    → t.parent ≡ none
    → route_targeted n t ≡ flood target_not_found false t.children
unfolding route_targeted
route_targeted-flood n t e a = rw (route_targeted, e, a) refl

route_targeted-parent :
    (n m : ℕ) (t : MeshTopology)
    → is_connected n t ≡ false
    → t.parent ≡ some m
    → route_targeted n t ≡ success (m ∷ []) false
unfolding route_targeted
route_targeted-parent n m t e a = rw (route_targeted, e, a) refl

-- A message of this node's own, in any direction: every next hop is a connected node, and the decision
-- counts as routed exactly when there is a next hop.
pub route_lem : (direction : RouteDirection) (t : MeshTopology) → IsSound t (route direction t)
unfolding route route_downward route_broadcast
route_lem upward t = elim (Option-cases t.parent) [
  | inl e ↦ subst (IsSound t) (sym (route_upward-failed t e)) (failed-IsSound no_parent t)
  | inr (m, e) ↦
      subst (IsSound t) (sym (route_upward-success m t e))
        (one-IsSound true m t (parent-is_connected m t e))
]
route_lem downward t = flood-IsSound no_children true t.children t (λ n. children-is_connected n t)
route_lem broadcast t =
    flood-IsSound no_peers true (all_connected t) t (λ n e. (is_connected_lem n t).1 ∙ e)
route_lem (targeted target) t = elim (Bool-cases (is_connected target t)) [
  | inl e ↦
      subst (IsSound t) (sym (route_targeted-success target t e)) (one-IsSound false target t e)
  | inr e ↦ elim (Option-cases t.parent) [
    | inl a ↦
        subst (IsSound t) (sym (route_targeted-flood target t e a))
          (flood-IsSound target_not_found false t.children t (λ n. children-is_connected n t))
    | inr (m, a) ↦
        subst (IsSound t) (sym (route_targeted-parent target m t e a))
          (one-IsSound false m t (parent-is_connected m t a))
  ]
]
