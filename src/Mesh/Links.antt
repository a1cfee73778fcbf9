-- ===== src/Mesh/Links.antt =====
-- The connected nodes and what is kept of each (src/mesh/manager.rs, the topology and the peers).
use peat_btle.Prelude.{
  is_some, ℕ, ◌≡◌, refl, Bool, true, false, not, ◌&&◌, ◌||◌, Option, none, some, List, [], ◌∷◌,
  ◌++◌, ◌==◌, ℕ_discrete, arith, Bool-cases, Option-cases, inl, inr,
}
use mathlib.Core.Path.{subst}
use peat_btle.Prelude.Assoc
use peat_btle.Prelude.Assoc.{
  insert, remove, get-insert, get-insert_self, get-insert_ne, get-remove_self, get-remove_ne,
  insert-Distinct, remove-Distinct,
}
use peat_btle.Mesh.Topology.{MeshTopology, contains, remove_node, is_node, is_connected}
use peat_btle.Mesh.Capacity
use peat_btle.Mesh.Events.{PeerInfo}
use peat_btle.Mesh.Roles.{contains-append}

-- The parent is not also a child.
abbrev pub IsApart : Option ℕ → List ℕ → Type 0
IsApart none children = Unit
IsApart (some p) children = contains p children ≡ false

-- Exactly the connected nodes have an entry, and none is connected in two roles.
pub record IsLinked (t : MeshTopology) (infos : List (ℕ × PeerInfo)) : Type 0 where
  pub no_siblings : t.peers ≡ []
  pub apart : IsApart t.parent t.children
  pub once : Capacity.Distinct t.children
  pub entries : Assoc.Distinct ℕ_discrete infos
  pub known : (n : ℕ) → is_some (Assoc.get ℕ_discrete n infos) ≡ is_connected n t

-- Entries after a change, by whether the node is the one that is changed.
pub get-insert_is :
    (k n : ℕ) (i : PeerInfo) (infos : List (ℕ × PeerInfo))
    → is_some (Assoc.get ℕ_discrete k (insert ℕ_discrete n i infos))
      ≡ ((n == k) || is_some (Assoc.get ℕ_discrete k infos))
get-insert_is k n i infos = elim (ℕ_discrete n k) [
  | yes e ↦ ground (arith, e, get-insert ℕ_discrete k n i infos)
  | no e ↦ ground (arith, e, get-insert ℕ_discrete k n i infos)
]

pub get-remove_is :
    (k n : ℕ) (infos : List (ℕ × PeerInfo))
    → Assoc.Distinct ℕ_discrete infos
    → is_some (Assoc.get ℕ_discrete k (remove ℕ_discrete n infos))
      ≡ (not (n == k) && is_some (Assoc.get ℕ_discrete k infos))
get-remove_is k n infos d = elim (ℕ_discrete n k) [
  | yes e ↦ ground (
    arith,
    e,
    subst (λ j. Assoc.get ℕ_discrete j (remove ℕ_discrete n infos) ≡ none) e
        (get-remove_self ℕ_discrete n infos d),
  )
  | no e ↦ ground (arith, e, get-remove_ne ℕ_discrete k n infos e)
]

contains_skip :
    (k n x : ℕ) (xs : List ℕ)
    → (x == n) ≡ true
    → contains n xs ≡ false
    → contains k xs ≡ (not (n == k) && ((x == k) || contains k xs))
contains_skip k n x xs q absent = elim (ℕ_discrete n k) [
  | yes e ↦
      let here : contains k xs ≡ false = subst (λ j. contains j xs ≡ false) e absent in
      ground (arith, e, q, here)
  | no e ↦ ground (arith, e, q)
]

pub contains-remove_node :
    (k n : ℕ) (xs ys : List ℕ)
    → remove_node n xs ≡ some ys
    → Capacity.Distinct xs
    → contains k ys ≡ (not (n == k) && contains k xs)
unfolding remove_node contains
contains-remove_node k n [] ys e d = absurd (ground arith)
contains-remove_node k n (x ∷ xs) ys e d = elim (Bool-cases (x == n)) [
  | inl q ↦
      let same : xs ≡ ys = ground arith in
      let absent : contains n xs ≡ false =
        subst (λ j. contains j xs ≡ false) {y = n} (ground (arith, q)) d.0 in
      subst (λ zs. contains k zs ≡ (not (n == k) && contains k (x ∷ xs))) same
        (contains_skip k n x xs q absent)
  | inr q ↦ elim (Option-cases (remove_node n xs)) [
    | inl a ↦ absurd (ground arith)
    | inr (zs, a) ↦
        let same : x ∷ zs ≡ ys = ground arith in
        let ih = contains-remove_node k n xs zs a d.1 in
        subst (λ zs. contains k zs ≡ (not (n == k) && contains k (x ∷ xs))) same
          (ground (arith, ih, q))
  ]
]

pub or_swap : (a b c : Bool) → (a || (b || c)) ≡ (b || (a || c))
or_swap a b c = ground arith

-- Without siblings, the connected nodes are the parent and the children.
pub is_connected_two :
    (k : ℕ) (t : MeshTopology)
    → t.peers ≡ []
    → is_connected k t ≡ (is_node t.parent k || contains k t.children)
unfolding is_connected contains
is_connected_two k t e = rw (is_connected, e) (ground arith)

pub contains-last :
    (k n : ℕ) (xs : List ℕ) → contains k (xs ++ (n ∷ [])) ≡ ((n == k) || contains k xs)
unfolding contains
contains-last k n xs = ground (arith, contains-append k xs (n ∷ []))

pub IsApart-last :
    (o : Option ℕ) (n : ℕ) (xs : List ℕ)
    → is_node o n ≡ false
    → IsApart o xs
    → IsApart o (xs ++ (n ∷ []))
IsApart-last none n xs new a = tt
IsApart-last (some p) n xs new a = ground (arith, new, a, contains-last p n xs)

pub IsApart-removed :
    (o : Option ℕ) (n : ℕ) (xs ys : List ℕ)
    → remove_node n xs ≡ some ys
    → IsApart o xs
    → IsApart o ys
IsApart-removed none n xs ys e a = tt
IsApart-removed (some p) n xs ys e a = Capacity.remove_node-contains p n xs ys e a

pub apart-is_node :
    (o : Option ℕ) (n : ℕ) (xs : List ℕ) → contains n xs ≡ true → IsApart o xs → is_node o n ≡ false
apart-is_node none n xs c a = refl
apart-is_node (some p) n xs c a = elim (ℕ_discrete p n) [
  | yes q ↦
      let here : contains n xs ≡ false = subst (λ j. contains j xs ≡ false) q a in
      absurd (ground (arith, here, c))
  | no q ↦ ground (arith, q)
]

pub remove_node-some : (n : ℕ) (xs ys : List ℕ) → remove_node n xs ≡ some ys → contains n xs ≡ true
unfolding remove_node contains
remove_node-some n [] ys e = absurd (ground arith)
remove_node-some n (x ∷ xs) ys e = elim (Bool-cases (x == n)) [
  | inl q ↦ ground (arith, q)
  | inr q ↦ elim (Option-cases (remove_node n xs)) [
    | inl a ↦ absurd (ground arith)
    | inr (zs, a) ↦ ground (arith, q, remove_node-some n xs zs a)
  ]
]
