-- ===== src/Mesh/Capacity.antt =====
-- The limits of the topology (src/mesh/topology.rs): no operation exceeds them or lists a node twice.
use peat_btle.Prelude.{
  is_some, ℕ, suc, ◌≤◌, ◌≡◌, refl, true, false, some, List, [], ◌∷◌, ◌++◌, ◌==◌, length,
  length-append, sym, not, ◌||◌, arith, Option-cases, inl, inr, Bool-cases,
}
use mathlib.Core.Path.{subst}
use peat_btle.Mesh.Topology.{
  MeshTopology, contains, remove_node, connection_count, can_accept_connection, can_accept_child,
  set_parent, clear_parent, add_child, remove_child, add_peer, remove_peer,
}

-- No node is listed twice.
abbrev pub Distinct : List ℕ → Type 0
Distinct [] = Unit
Distinct (x ∷ xs) = (contains x xs ≡ false) × Distinct xs

-- The limits hold, and no node is twice a child or twice a peer.
abbrev pub IsValid : MeshTopology → Type 0
IsValid t =
    (connection_count t ≤ t.max_connections)
    × (length t.children ≤ t.max_children)
    × Distinct t.children
    × Distinct t.peers

contains-snoc :
    (m n : ℕ) (xs : List ℕ)
    → contains m xs ≡ false
    → (n == m) ≡ false
    → contains m (xs ++ (n ∷ [])) ≡ false
unfolding contains
contains-snoc m n [] h k = ground arith
contains-snoc m n (x ∷ xs) h k = ground (arith, contains-snoc m n xs)

pub snoc-Distinct :
    (n : ℕ) (xs : List ℕ) → contains n xs ≡ false → Distinct xs → Distinct (xs ++ (n ∷ []))
unfolding contains
snoc-Distinct n [] h d = (refl, tt)
snoc-Distinct n (x ∷ xs) h d =
    (contains-snoc x n xs d.0 (ground arith), snoc-Distinct n xs (ground arith) d.1)

pub remove_node-contains :
    (m n : ℕ) (xs ys : List ℕ)
    → remove_node n xs ≡ some ys
    → contains m xs ≡ false
    → contains m ys ≡ false
unfolding remove_node contains
remove_node-contains m n [] ys e h = absurd (ground arith)
remove_node-contains m n (x ∷ xs) ys e h = elim (Bool-cases (x == n)) [
  | inl q ↦
      let same : xs ≡ ys = ground arith in subst (λ zs. contains m zs ≡ false) same (ground arith)
  | inr q ↦ elim (Option-cases (remove_node n xs)) [
    | inl a ↦ absurd (ground arith)
    | inr (zs, a) ↦
        let same : x ∷ zs ≡ ys = ground arith in
        subst (λ zs. contains m zs ≡ false) same (ground (arith, remove_node-contains m n xs zs a))
  ]
]

pub remove_node-Distinct :
    (n : ℕ) (xs ys : List ℕ)
    → remove_node n xs ≡ some ys
    → Distinct xs
    → Distinct ys × (length xs ≡ suc (length ys))
unfolding remove_node
remove_node-Distinct n [] ys e d = absurd (ground arith)
remove_node-Distinct n (x ∷ xs) ys e d = elim (Bool-cases (x == n)) [
  | inl q ↦
      let same : xs ≡ ys = ground arith in
      subst (λ zs. Distinct zs × (suc (length xs) ≡ suc (length zs))) same (d.1, refl)
  | inr q ↦ elim (Option-cases (remove_node n xs)) [
    | inl a ↦ absurd (ground arith)
    | inr (zs, a) ↦
        let same : x ∷ zs ≡ ys = ground arith in
        let ih = remove_node-Distinct n xs zs a d.1 in
        subst (λ zs. Distinct zs × (suc (length xs) ≡ suc (length zs))) same
          ((remove_node-contains x n xs zs a d.0, ih.0), omega (arith, ih.1))
  ]
]

pub set_parent_accepted :
    (n : ℕ) (t : MeshTopology)
    → is_some t.parent ≡ false
    → can_accept_connection t ≡ true
    → set_parent n t ≡ (true, record t { parent = some n })
unfolding set_parent
set_parent_accepted n t p c = ground arith

pub set_parent_refused :
    (n : ℕ) (t : MeshTopology)
    → (is_some t.parent || not (can_accept_connection t)) ≡ true
    → set_parent n t ≡ (false, t)
unfolding set_parent
set_parent_refused n t h = ground arith

pub set_parent-IsValid : (n : ℕ) (t : MeshTopology) → IsValid t → IsValid (set_parent n t).1
unfolding can_accept_connection connection_count
set_parent-IsValid n t v = elim (Bool-cases (is_some t.parent || not (can_accept_connection t))) [
  | inl h ↦ subst (λ out. IsValid out.1) (sym (set_parent_refused n t h)) v
  | inr h ↦
      subst (λ out. IsValid out.1)
        (sym (set_parent_accepted n t (ground (arith, h)) (ground (arith, h))))
        (ground (arith, h, v.0), v.1, v.2, v.3)
]

pub add_child-IsValid : (n : ℕ) (t : MeshTopology) → IsValid t → IsValid (add_child n t).1
unfolding add_child can_accept_child can_accept_connection connection_count
add_child-IsValid n t v = elim (Bool-cases (can_accept_child t)) [
  | inr c ↦ rw (c, add_child) v
  | inl c ↦ elim (Bool-cases (contains n t.children)) [
    | inl d ↦ rw (c, d, add_child) v
    | inr d ↦
        rw (c, d, add_child)
          (
            ground (arith, c, v.0, length-append t.children (n ∷ [])),
            ground (arith, c, v.1, length-append t.children (n ∷ [])),
            snoc-Distinct n t.children d v.2,
            v.3,
          )
  ]
]

add_peer-IsValid : (n : ℕ) (t : MeshTopology) → IsValid t → IsValid (add_peer n t).1
unfolding add_peer can_accept_connection connection_count
add_peer-IsValid n t v = elim (Bool-cases (can_accept_connection t)) [
  | inr c ↦ rw (c, add_peer) v
  | inl c ↦ elim (Bool-cases (contains n t.peers)) [
    | inl d ↦ rw (c, d, add_peer) v
    | inr d ↦
        rw (c, d, add_peer)
          (
            ground (arith, c, v.0, length-append t.peers (n ∷ [])),
            v.1,
            v.2,
            snoc-Distinct n t.peers d v.3,
          )
  ]
]

pub remove_child-IsValid : (n : ℕ) (t : MeshTopology) → IsValid t → IsValid (remove_child n t).1
unfolding remove_child connection_count
remove_child-IsValid n t v = elim (Option-cases (remove_node n t.children)) [
  | inl e ↦ rw (e, remove_child) v
  | inr (ys, e) ↦
      let r = remove_node-Distinct n t.children ys e v.2 in
      rw (e, remove_child) (omega (arith, v.0, r.1), omega (arith, v.1, r.1), r.0, v.3)
]

remove_peer-IsValid : (n : ℕ) (t : MeshTopology) → IsValid t → IsValid (remove_peer n t).1
unfolding remove_peer connection_count
remove_peer-IsValid n t v = elim (Option-cases (remove_node n t.peers)) [
  | inl e ↦ rw (e, remove_peer) v
  | inr (ys, e) ↦
      let r = remove_node-Distinct n t.peers ys e v.3 in
      rw (e, remove_peer) (omega (arith, v.0, r.1), v.1, v.2, r.0)
]

pub clear_parent-IsValid : (t : MeshTopology) → IsValid t → IsValid (clear_parent t).1
unfolding clear_parent connection_count
clear_parent-IsValid t v = (ground (arith, v.0), v.1, v.2, v.3)

-- Every operation on a topology within its limits, whose children and whose peers are listed once,
-- gives such a topology again: setting or clearing the parent, adding or removing a child or a peer,
-- whether it is accepted or not.
pub operations-IsValid :
    (n : ℕ) (t : MeshTopology)
    → IsValid t
    → IsValid (set_parent n t).1
      × IsValid (clear_parent t).1
      × IsValid (add_child n t).1
      × IsValid (remove_child n t).1
      × IsValid (add_peer n t).1
      × IsValid (remove_peer n t).1
operations-IsValid n t v = (
  set_parent-IsValid n t v,
  clear_parent-IsValid t v,
  add_child-IsValid n t v,
  remove_child-IsValid n t v,
  add_peer-IsValid n t v,
  remove_peer-IsValid n t v,
)
