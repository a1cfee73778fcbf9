-- ===== src/Mesh/HopLimit.antt =====
-- The nodes that a message has visited (src/mesh/routing.rs, `HopTracker`).
use peat_btle.Prelude.{
  ℕ, ◌+◌, ◌≤◌, ◌<◌, ◌≡◌, refl, sym, ◌∙◌, true, false, not, ◌||◌, ◌⊎◌, List, [], ◌∷◌, ◌++◌, leb,
  if◌then◌else◌, length, length-append, arith, Bool-cases, inl, inr,
}
use mathlib.Core.Path.{subst}
use peat_btle.Prelude.Bytes.{u8_mod}
use peat_btle.Mesh.Topology.{contains}
use peat_btle.Mesh.Capacity.{Distinct, snoc-Distinct}
use peat_btle.Mesh.Routing.{HopTracker, visit, has_visited, remaining_hops, new_tracker, is_expired}

-- No node is listed twice, and there are no more than the hops allowed.
abbrev pub IsTracked : HopTracker → Type 0
IsTracked h = Distinct h.visited × (length h.visited ≤ h.max_hops)

-- The tracker with one node more.
abbrev with_node : ℕ → HopTracker → HopTracker
with_node n h = record h { visited = h.visited ++ (n ∷ []) }

visit-cases :
    (n : ℕ) (h : HopTracker)
    → (((has_visited n h || is_expired h) ≡ true) × (visit n h ≡ (false, h)))
      ⊎ ((contains n h.visited ≡ false)
          × (length h.visited < h.max_hops)
          × (visit n h ≡ (true, with_node n h)))
unfolding visit has_visited is_expired
visit-cases n h = elim (Bool-cases (contains n h.visited)) [
  | inl e ↦ inl (rw e refl, rw (visit, e) refl)
  | inr e ↦ elim (Bool-cases (leb h.max_hops (length h.visited))) [
    | inl f ↦ inl (ground (arith, f), rw (visit, e, f) refl)
    | inr f ↦ inr (e, ground (arith, f), rw (visit, e, f) refl)
  ]
]

visit-IsTracked : (n : ℕ) (h : HopTracker) → IsTracked h → IsTracked (visit n h).1
visit-IsTracked n h t = elim (visit-cases n h) [
  | inl (_, e) ↦ subst (λ out. IsTracked out.1) (sym e) t
  | inr (new, room, e) ↦
      subst (λ out. IsTracked out.1) (sym e)
        (snoc-Distinct n h.visited new t.0, omega (arith, length-append h.visited (n ∷ []), room))
]

-- A tracker of at most 255 hops that lists no node twice and no more than the hops allowed. A visit is
-- accepted exactly when the node is new and the hops are not used up; it then takes one of the
-- remaining hops, and else none.
pub visit-remaining_hops :
    (n : ℕ) (h : HopTracker)
    → IsTracked h
    → h.max_hops < u8_mod
    → ((visit n h).0 ≡ not (has_visited n h || is_expired h))
      × (remaining_hops (visit n h).1 + (if (visit n h).0 then 1 else 0) ≡ remaining_hops h)
unfolding has_visited is_expired remaining_hops
visit-remaining_hops n h t small = elim (visit-cases n h) [
  | inl (seen, e) ↦ rw (e, seen) (refl, omega arith)
  | inr (new, room, e) ↦
      rw (e, new) (ground (arith, room), omega (arith, room, length-append h.visited (n ∷ [])))
]

-- The nodes that a message comes to, one after the other: how many visits are accepted, and the
-- tracker at the end.
unfoldable pub walk : List ℕ → HopTracker → ℕ × HopTracker
walk [] h = (0, h)
walk (n ∷ ns) h =
    let out = visit n h in let rest = walk ns out.1 in ((if out.0 then 1 else 0) + rest.0, rest.1)

-- A visit keeps the limit, and an accepted one adds a node.
visit-visited :
    (n : ℕ) (h : HopTracker)
    → ((visit n h).1.max_hops ≡ h.max_hops)
      × ((if (visit n h).0 then 1 else 0) + length h.visited ≡ length (visit n h).1.visited)
visit-visited n h = elim (visit-cases n h) [
  | inl (_, e) ↦ rw e (refl, omega arith)
  | inr (new, room, e) ↦ rw e (refl, omega (arith, length-append h.visited (n ∷ [])))
]

walk_from :
    (ns : List ℕ) (h : HopTracker)
    → IsTracked h
    → IsTracked (walk ns h).1
      × ((walk ns h).1.max_hops ≡ h.max_hops)
      × ((walk ns h).0 + length h.visited ≡ length (walk ns h).1.visited)
unfolding walk
walk_from [] h t = (t, refl, omega arith)
walk_from (n ∷ ns) h t =
    let ih = walk_from ns (visit n h).1 (visit-IsTracked n h t) in
    (ih.0, ih.1 ∙ (visit-visited n h).0, omega (arith, ih.2, (visit-visited n h).1))

-- Whatever nodes a message comes to, in whatever order and however often: a new tracker accepts at most
-- as many visits as the hops allowed, and lists each accepted node once.
pub walk-new_tracker :
    (ns : List ℕ) (max_hops : ℕ)
    → ((walk ns (new_tracker max_hops)).0 ≤ max_hops)
      × Distinct (walk ns (new_tracker max_hops)).1.visited
unfolding new_tracker
walk-new_tracker ns max_hops =
    let r = walk_from ns (new_tracker max_hops) (tt, omega arith) in
    (omega (arith, (r.0).1, r.1, r.2), (r.0).0)
