-- ===== src/Crdt/Acks.antt =====
-- Acknowledgments (src/sync/crdt.rs, `EmergencyEvent`): who has acknowledged, after each operation.
use peat_btle.Prelude.{
  ℕ, ◌≡◌, refl, Bool, true, false, not, ◌||◌, List, [], ◌∷◌, ◌==◌, if◌then◌else◌, arith, ◌∙◌, ◌↔◌,
}
use peat_btle.Prelude.Sorted.{get, insert, IsSorted, get-insert, get-merge_entries, get-Above_self}
use peat_btle.Crdt.Emergency.{
  EmergencyEvent, new, has_acked, track, track_peers, ack, add_peer, merge, merge_changes, or_step,
  or_false,
}

get-track : (j k : ℕ) (m : List (ℕ × Bool)) → or_false (get j (track k m)) ≡ or_false (get j m)
unfolding track
get-track j k m = ground (arith, get-insert j k false m)

get-track_peers :
    (j s : ℕ) (ps : List ℕ) (m : List (ℕ × Bool))
    → or_false (get j (track_peers s ps m)) ≡ or_false (get j m)
unfolding track_peers
get-track_peers j s [] m = refl
get-track_peers j s (p ∷ ps) m =
    get-track_peers j s ps (if p == s then m else track p m) ∙ ground (arith, get-track j p m)

-- A new emergency is acknowledged by its source and by nobody else. To track a peer changes no
-- acknowledgment. To acknowledge adds that node's acknowledgment and no other, never takes one
-- back, and reports "new" exactly if the node had not acknowledged.
pub has_acked_lem :
    (e : EmergencyEvent) (source time node j : ℕ) (peers : List ℕ)
    → (has_acked (new source time peers) j ≡ (source == j))
      × (has_acked (add_peer e node) j ≡ has_acked e j)
      × (has_acked (ack e node).0 j ≡ (node == j) || has_acked e j)
      × ((ack e node).1 ≡ not (has_acked e node))
unfolding has_acked new add_peer ack get
has_acked_lem e source time node j peers = (
  get-track_peers j source peers (insert source true [])
      ∙ ground (arith, get-insert j source true []),
  get-track j node e.acks,
  ground (arith, get-insert j node true e.acks),
  ground arith,
)

-- To merge two views of one emergency is to join the acknowledgments: a node has acknowledged in
-- the result exactly if it has in one of the two. Of two emergencies with different times the
-- later one is kept whole.
pub has_acked-merge :
    (e other : EmergencyEvent) (j : ℕ)
    → IsSorted other.acks
    → e.source_node ≡ other.source_node
    → e.timestamp ≡ other.timestamp
    → has_acked (merge e other).0 j ≡ has_acked e j || has_acked other j
unfolding has_acked merge
has_acked-merge e other j s hs ht = ground (arith, get-merge_entries or_step j e.acks other.acks s)

-- The acknowledgments of `theirs` are all in `ours`.
abbrev Covers : List (ℕ × Bool) → List (ℕ × Bool) → Type 0
Covers ours theirs = (j : ℕ) → or_false (get j theirs) ≡ true → or_false (get j ours) ≡ true

Covers-of_unchanged :
    (ours theirs : List (ℕ × Bool)) → merge_changes ours theirs ≡ false → Covers ours theirs
unfolding merge_changes get
Covers-of_unchanged ours [] h j e = absurd (ground arith)
Covers-of_unchanged ours ((k, b) ∷ theirs) h j e =
    let ours' = insert k (or_step (get k ours) b) ours in
    let rest : merge_changes ours' theirs ≡ false = ground arith in
    ground
      (arith, Covers-of_unchanged ours' theirs rest j, get-insert j k (or_step (get k ours) b) ours)

unchanged_of_Covers :
    (ours theirs : List (ℕ × Bool))
    → IsSorted theirs
    → Covers ours theirs
    → merge_changes ours theirs ≡ false
unfolding merge_changes get
unchanged_of_Covers ours [] s h = refl
unchanged_of_Covers ours ((k, b) ∷ theirs) s h =
    let ours' = insert k (or_step (get k ours) b) ours in
    let rest : Covers ours' theirs = λ j e.
      ground
        (arith, h j, get-insert j k (or_step (get k ours) b) ours, get-Above_self k theirs s.0) in
    ground (arith, h k, unchanged_of_Covers ours' theirs s.1 rest)

-- `merge` of two views of one emergency reports no change exactly if every node that has
-- acknowledged in the other view has acknowledged in this one.
pub merge_changed :
    (e other : EmergencyEvent)
    → IsSorted other.acks
    → e.source_node ≡ other.source_node
    → e.timestamp ≡ other.timestamp
    → ((merge e other).1 ≡ false) ↔ ((j : ℕ) → has_acked other j ≡ true → has_acked e j ≡ true)
unfolding has_acked merge
merge_changed e other s hs ht =
    let same : (merge e other).1 ≡ merge_changes e.acks other.acks = ground arith in
    rw same (Covers-of_unchanged e.acks other.acks, unchanged_of_Covers e.acks other.acks s)
