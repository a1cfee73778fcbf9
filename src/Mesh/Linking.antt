-- ===== src/Mesh/Linking.antt =====
-- A parent or a child that comes or goes (src/mesh/manager.rs): what is connected stays what is kept.
use peat_btle.Prelude.{
  is_some, ℕ, ◌≡◌, refl, sym, ◌∙◌, false, not, ◌&&◌, ◌||◌, none, some, List, [], ◌∷◌, ◌++◌, ◌==◌,
  ℕ_discrete, arith, Option-cases, inl, inr,
}
use mathlib.Core.Path.{subst}
use peat_btle.Prelude.Assoc
use peat_btle.Prelude.Assoc.{
  insert, remove, get-insert, get-insert_self, get-insert_ne, get-remove_self, get-remove_ne,
  insert-Distinct, remove-Distinct,
}
use peat_btle.Mesh.Topology.{MeshTopology, contains, remove_node, is_node, is_connected}
use peat_btle.Mesh.Capacity
use peat_btle.Mesh.Manager.{update_info}
use peat_btle.Mesh.Events.{PeerInfo}
use peat_btle.Mesh.Links.{
  IsApart, IsLinked, get-insert_is, get-remove_is, contains-remove_node, or_swap, is_connected_two,
  contains-last, IsApart-last, IsApart-removed, apart-is_node, remove_node-some,
}

module _ (t : MeshTopology) (infos : List (ℕ × PeerInfo)) (l : IsLinked t infos) where
  known_two :
      (k : ℕ)
      → is_some (Assoc.get ℕ_discrete k infos) ≡ (is_node t.parent k || contains k t.children)
  known_two k = l.known k ∙ is_connected_two k t l.no_siblings

  pub parent_added :
      (n : ℕ) (i : PeerInfo)
      → t.parent ≡ none
      → is_connected n t ≡ false
      → IsLinked (record t { parent = some n }) (insert ℕ_discrete n i infos)
  parent_added n i alone new = record {
    no_siblings = l.no_siblings;
    apart = ground (arith, new, is_connected_two n t l.no_siblings);
    once = l.once;
    entries = insert-Distinct ℕ_discrete n i infos l.entries;
    known = λ k.
        get-insert_is k n i infos
        ∙ (added k ∙ sym (is_connected_two k (record t { parent = some n }) l.no_siblings));
  }
    where
      added :
          (k : ℕ)
          → ((n == k) || is_some (Assoc.get ℕ_discrete k infos))
            ≡ ((n == k) || contains k t.children)
      added k = rw (known_two k, alone) refl

  pub parent_removed :
      (p : ℕ)
      → t.parent ≡ some p
      → IsLinked (record t { parent = none }) (remove ℕ_discrete p infos)
  parent_removed p e = record {
    no_siblings = l.no_siblings;
    apart = tt;
    once = l.once;
    entries = remove-Distinct ℕ_discrete p infos l.entries;
    known = λ k.
        get-remove_is k p infos l.entries
        ∙ (left k ∙ sym (is_connected_two k (record t { parent = none }) l.no_siblings));
  }
    where
      absent : contains p t.children ≡ false
      absent = subst (λ o. IsApart o t.children) e l.apart

      left :
          (k : ℕ) → (not (p == k) && is_some (Assoc.get ℕ_discrete k infos)) ≡ contains k t.children
      left k = elim (ℕ_discrete p k) [
        | yes q ↦
            let here : contains k t.children ≡ false =
              subst (λ j. contains j t.children ≡ false) q absent in
            ground (arith, q, here)
        | no q ↦ rw (known_two k, e) (ground (arith, q))
      ]

  pub child_added :
      (n : ℕ) (i : PeerInfo)
      → is_connected n t ≡ false
      → contains n t.children ≡ false
      → IsLinked (record t { children = t.children ++ (n ∷ []) }) (insert ℕ_discrete n i infos)
  child_added n i new absent = record {
    no_siblings = l.no_siblings;
    apart =
        IsApart-last t.parent n t.children (ground (arith, new, is_connected_two n t l.no_siblings))
          l.apart;
    once = Capacity.snoc-Distinct n t.children absent l.once;
    entries = insert-Distinct ℕ_discrete n i infos l.entries;
    known = λ k.
        get-insert_is k n i infos
        ∙ (added k
            ∙ sym (
                is_connected_two k (record t { children = t.children ++ (n ∷ []) }) l.no_siblings));
  }
    where
      added :
          (k : ℕ)
          → ((n == k) || is_some (Assoc.get ℕ_discrete k infos))
            ≡ (is_node t.parent k || contains k (t.children ++ (n ∷ [])))
      added k =
          rw (known_two k, contains-last k n t.children)
            (or_swap (n == k) (is_node t.parent k) (contains k t.children))

  pub child_removed :
      (n : ℕ) (left : List ℕ)
      → remove_node n t.children ≡ some left
      → IsLinked (record t { children = left }) (remove ℕ_discrete n infos)
  child_removed n left e = record {
    no_siblings = l.no_siblings;
    apart = IsApart-removed t.parent n t.children left e l.apart;
    once = (Capacity.remove_node-Distinct n t.children left e l.once).0;
    entries = remove-Distinct ℕ_discrete n infos l.entries;
    known = λ k.
        get-remove_is k n infos l.entries
        ∙ (others k ∙ sym (is_connected_two k (record t { children = left }) l.no_siblings));
  }
    where
      no_parent : is_node t.parent n ≡ false
      no_parent = apart-is_node t.parent n t.children (remove_node-some n t.children left e) l.apart

      others :
          (k : ℕ)
          → (not (n == k) && is_some (Assoc.get ℕ_discrete k infos))
            ≡ (is_node t.parent k || contains k left)
      others k = elim (ℕ_discrete n k) [
        | yes q ↦
            let here : is_node t.parent k ≡ false =
              subst (λ j. is_node t.parent j ≡ false) q no_parent in
            rw (contains-remove_node k n t.children left e l.once, here) (ground (arith, q))
        | no q ↦
            rw (known_two k, contains-remove_node k n t.children left e l.once) (ground (arith, q))
      ]

-- A change of an entry changes no one's presence.
pub info_updated :
    (t : MeshTopology) (infos : List (ℕ × PeerInfo)) (n : ℕ) (f : PeerInfo → PeerInfo)
    → IsLinked t infos
    → IsLinked t (update_info n f infos)
unfolding update_info
info_updated t infos n f l = elim (Option-cases (Assoc.get ℕ_discrete n infos)) [
  | inl e ↦ rw (update_info, e) l
  | inr (i, e) ↦
      rw (update_info, e)
        (record {
          no_siblings = l.no_siblings;
          apart = l.apart;
          once = l.once;
          entries = insert-Distinct ℕ_discrete n (f i) infos l.entries;
          known = λ k. get-insert_is k n (f i) infos ∙ (present k i e ∙ l.known k);
        })
]
  where
    present :
        (k : ℕ) (i : PeerInfo)
        → Assoc.get ℕ_discrete n infos ≡ some i
        → ((n == k) || is_some (Assoc.get ℕ_discrete k infos))
          ≡ is_some (Assoc.get ℕ_discrete k infos)
    present k i e = elim (ℕ_discrete n k) [
      | yes q ↦
          let here : Assoc.get ℕ_discrete k infos ≡ some i =
            subst (λ j. Assoc.get ℕ_discrete j infos ≡ some i) q e in
          rw here (ground (arith, q))
      | no q ↦ ground (arith, q)
    ]
