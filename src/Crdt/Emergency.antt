-- ===== src/Crdt/Emergency.antt =====
-- src/sync/crdt.rs: `EmergencyEvent`, an emergency with the acknowledgments of the nodes. The
-- `BTreeMap` is a list in ascending order of the node ids.
use peat_btle.Prelude.{
  ℕ, zero, suc, ◌+◌, ◌*◌, ◌%◌, Bool, true, false, not, ◌&&◌, ◌||◌, Option, none, some, List, [],
  ◌∷◌, ◌++◌, ltb, ◌==◌, if◌then◌else◌, length, slice, get_or,
}
use peat_btle.Prelude.Bytes.{u32_mod, le_bytes, from_le_bytes}
use peat_btle.Prelude.Sorted.{get, insert, merge_entries}

abbrev pub min_valid_timestamp : ℕ
min_valid_timestamp = 1577836800000

abbrev pub max_emergency_acks : ℕ
max_emergency_acks = 256

pub record EmergencyEvent : Type 0 where
  pub source_node : ℕ
  pub timestamp : ℕ
  pub acks : List (ℕ × Bool)

-- `unwrap_or(false)`, and what `or_insert(false)` finds.
abbrev pub or_false : Option Bool → Bool
or_false none = false
or_false (some b) = b

-- `acks.entry(node).or_insert(false)`
unfoldable pub track : ℕ → List (ℕ × Bool) → List (ℕ × Bool)
track node acks = elim (get node acks) [ none ↦ insert node false acks | some _ ↦ acks ]

-- The loop of `EmergencyEvent::new`.
unfoldable pub track_peers : ℕ → List ℕ → List (ℕ × Bool) → List (ℕ × Bool)
unfolding track
track_peers source [] acks = acks
track_peers source (p ∷ ps) acks =
    track_peers source ps (if p == source then acks else track p acks)

unfoldable pub new : ℕ → ℕ → List ℕ → EmergencyEvent
unfolding track_peers
new source_node timestamp known_peers = record {
  source_node = source_node;
  timestamp = timestamp;
  acks = track_peers source_node known_peers (insert source_node true []);
}

unfoldable pub has_acked : EmergencyEvent → ℕ → Bool
has_acked e node_id = or_false (get node_id e.acks)

-- The new event, and whether the acknowledgment is a new one.
unfoldable pub ack : EmergencyEvent → ℕ → EmergencyEvent × Bool
ack e node_id =
    if not (or_false (get node_id e.acks))
    then (record e { acks = insert node_id true e.acks }, true)
    else (e, false)

unfoldable pub add_peer : EmergencyEvent → ℕ → EmergencyEvent
unfolding track
add_peer e node_id = record e { acks = track node_id e.acks }

-- The ids whose flag is `flag`: `acked_nodes` and `pending_nodes`.
unfoldable pub nodes_with : Bool → List (ℕ × Bool) → List ℕ
nodes_with flag [] = []
nodes_with flag ((k, b) ∷ m) =
    let rest = nodes_with flag m in if (if flag then b else not b) then k ∷ rest else rest

unfoldable pub acked_nodes : EmergencyEvent → List ℕ
unfolding nodes_with
acked_nodes e = nodes_with true e.acks

unfoldable pub pending_nodes : EmergencyEvent → List ℕ
unfolding nodes_with
pending_nodes e = nodes_with false e.acks

unfoldable pub every_acked : List (ℕ × Bool) → Bool
every_acked [] = true
every_acked ((k, b) ∷ m) = b && every_acked m

unfoldable pub all_acked : EmergencyEvent → Bool
unfolding every_acked
all_acked e = not (length e.acks == 0) && every_acked e.acks

abbrev pub or_step : Option Bool → Bool → Bool
or_step ours theirs = or_false ours || theirs

-- Whether the loop of `merge` sets `changed`.
unfoldable pub merge_changes : List (ℕ × Bool) → List (ℕ × Bool) → Bool
merge_changes ours [] = false
merge_changes ours ((k, b) ∷ theirs) =
    (b && not (or_false (get k ours)))
    || merge_changes (insert k (or_step (get k ours) b) ours) theirs

unfoldable pub merge : EmergencyEvent → EmergencyEvent → EmergencyEvent × Bool
merge e other =
    if not (e.source_node == other.source_node) || not (e.timestamp == other.timestamp)
    then if ltb e.timestamp other.timestamp then (other, true) else (e, false)
    else (
      record e { acks = merge_entries or_step e.acks other.acks },
      merge_changes e.acks other.acks,
    )

unfoldable pub encode_acks : List (ℕ × Bool) → List ℕ
encode_acks [] = []
encode_acks ((k, b) ∷ m) = le_bytes 4 k ++ ((if b then 1 else 0) ∷ encode_acks m)

unfoldable pub encode : EmergencyEvent → List ℕ
encode e =
    le_bytes 4 e.source_node
    ++ (le_bytes 8 e.timestamp ++ (le_bytes 4 (length e.acks % u32_mod) ++ encode_acks e.acks))

-- The loop of `decode`, with `n` rounds to go.
unfoldable pub decode_acks : ℕ → List ℕ → ℕ → List (ℕ × Bool) → List (ℕ × Bool)
decode_acks zero bytes offset acks = acks
decode_acks (suc n) bytes offset acks =
    let node_id = from_le_bytes (slice bytes (offset + 0) (offset + 4)) in
    let acked = not (get_or bytes (offset + 4) 0 == 0) in
    decode_acks n bytes (offset + 5) (if node_id == 0 then acks else insert node_id acked acks)

unfoldable pub decode : List ℕ → Option EmergencyEvent
decode bytes =
    let source_node = from_le_bytes (slice bytes 0 4) in
    let timestamp = from_le_bytes (slice bytes 4 12) in
    let num_acks = from_le_bytes (slice bytes 12 16) in
    if ltb (length bytes) 16
    then none
    else if source_node == 0
    then none
    else if ltb timestamp min_valid_timestamp
    then none
    else if ltb max_emergency_acks num_acks
    then none
    else if ltb (length bytes) (16 + num_acks * 5)
    then none
    else some (record {
      source_node = source_node;
      timestamp = timestamp;
      acks = decode_acks num_acks bytes 16 [];
    })
