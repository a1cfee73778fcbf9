-- ===== src/Sync/Delta.antt =====
-- src/sync/delta.rs: `PeerSyncState`, `DeltaEncoder` and the keys of operations; the operations are
-- those of Crdt/Operation. A string is the list of its bytes. Counters of bytes and syncs wrap, as in
-- a release build.
use peat_btle.Prelude.{
  ℕ, zero, suc, ◌+◌, ◌-◌, ◌/◌, ◌%◌, Bool, true, Option, none, some, List, [], ◌∷◌, ◌++◌, ltb,
  if◌then◌else◌, length, ℕ_discrete,
}
use mathlib.Core.List.{List-discrete}
use peat_btle.Prelude.Bytes.{u32_mod, u64_mod}
use peat_btle.Prelude.Assoc
use peat_btle.Crdt.Operation.{
  CrdtOperation, update_position, update_health, increment_counter, update_register,
}

-- Keys are compared byte by byte.
abbrev pub key_discrete : Discrete (List ℕ)
key_discrete = List-discrete ℕ_discrete

pub record PeerSyncState : Type 0 where
  pub last_sent : List (List ℕ × ℕ)
  pub last_received_timestamp : ℕ
  pub sync_count : ℕ
  pub bytes_sent : ℕ
  pub bytes_received : ℕ

unfoldable pub new_state : PeerSyncState
new_state = record {
  last_sent = [];
  last_received_timestamp = 0;
  sync_count = 0;
  bytes_sent = 0;
  bytes_received = 0;
}

unfoldable pub mark_key : List ℕ → ℕ → PeerSyncState → PeerSyncState
mark_key key timestamp s = record {
  last_sent = Assoc.insert key_discrete key timestamp s.last_sent;
  last_received_timestamp = s.last_received_timestamp;
  sync_count = s.sync_count;
  bytes_sent = s.bytes_sent;
  bytes_received = s.bytes_received;
}

unfoldable pub last_sent_timestamp : List ℕ → PeerSyncState → Option ℕ
last_sent_timestamp key s = Assoc.get key_discrete key s.last_sent

unfoldable pub needs_send : List ℕ → ℕ → PeerSyncState → Bool
needs_send key timestamp s = elim (Assoc.get key_discrete key s.last_sent) [
  | none ↦ true
  | some last ↦ ltb last timestamp
]

unfoldable pub clear_sent : PeerSyncState → PeerSyncState
clear_sent s = record {
  last_sent = [];
  last_received_timestamp = s.last_received_timestamp;
  sync_count = s.sync_count;
  bytes_sent = s.bytes_sent;
  bytes_received = s.bytes_received;
}

pub record DeltaEncoder : Type 0 where
  pub node_id : ℕ
  pub peers : List (ℕ × PeerSyncState)
  pub current_state : List (List ℕ × (ℕ × ℕ))

unfoldable pub new_encoder : ℕ → DeltaEncoder
new_encoder node_id = record { node_id = node_id; peers = []; current_state = [] }

abbrev pub with_peers : List (ℕ × PeerSyncState) → DeltaEncoder → DeltaEncoder
with_peers peers e = record { node_id = e.node_id; peers = peers; current_state = e.current_state }

-- `if let Some(state) = self.peers.get_mut(id) { f(state) }`
unfoldable pub update_peer : ℕ → (PeerSyncState → PeerSyncState) → DeltaEncoder → DeltaEncoder
update_peer peer_id f e = elim (Assoc.get ℕ_discrete peer_id e.peers) [
  | none ↦ e
  | some s ↦ with_peers (Assoc.insert ℕ_discrete peer_id (f s) e.peers) e
]

unfoldable pub add_peer : ℕ → DeltaEncoder → DeltaEncoder
add_peer peer_id e = elim (Assoc.get ℕ_discrete peer_id e.peers) [
  | none ↦ with_peers (Assoc.insert ℕ_discrete peer_id new_state e.peers) e
  | some s ↦ e
]

unfoldable pub remove_peer : ℕ → DeltaEncoder → DeltaEncoder
remove_peer peer_id e = with_peers (Assoc.remove ℕ_discrete peer_id e.peers) e

unfoldable pub get_peer_state : ℕ → DeltaEncoder → Option PeerSyncState
get_peer_state peer_id e = Assoc.get ℕ_discrete peer_id e.peers

unfoldable pub update_state : List ℕ → ℕ → ℕ → DeltaEncoder → DeltaEncoder
update_state key value_hash timestamp e = record {
  node_id = e.node_id;
  peers = e.peers;
  current_state = Assoc.insert key_discrete key (value_hash, timestamp) e.current_state;
}

-- One upper-case hexadecimal digit.
unfoldable pub hex_digit : ℕ → ℕ
hex_digit d = if ltb d 10 then 48 + d else 55 + d

-- `{:08X}` of a 32-bit number, the `Display` of a `NodeId` (src/lib.rs): `w` digits.
unfoldable pub hex : ℕ → ℕ → List ℕ
hex zero n = []
hex (suc w) n = hex w (n / 16) ++ (hex_digit (n % 16) ∷ [])

-- `{}` of an 8-bit number.
unfoldable pub decimal : ℕ → List ℕ
decimal n =
    if ltb n 10
    then (48 + n) ∷ []
    else if ltb n 100
    then (48 + n / 10) ∷ ((48 + n % 10) ∷ [])
    else (48 + n / 100) ∷ ((48 + (n / 10) % 10) ∷ ((48 + n % 10) ∷ []))

-- The codes of "pos:", "health:", "counter:", "reg:" stand before the fields.
unfoldable pub operation_key_timestamp : CrdtOperation → List ℕ × ℕ
operation_key_timestamp (update_position node_id position timestamp) =
    (112 ∷ 111 ∷ 115 ∷ 58 ∷ hex 8 node_id, timestamp)
operation_key_timestamp (update_health node_id status timestamp) =
    (104 ∷ 101 ∷ 97 ∷ 108 ∷ 116 ∷ 104 ∷ 58 ∷ hex 8 node_id, timestamp)
operation_key_timestamp (increment_counter counter_id node_id amount) = (
  99 ∷ 111 ∷ 117 ∷ 110 ∷ 116 ∷ 101 ∷ 114 ∷ 58 ∷ (decimal counter_id ++ (58 ∷ hex 8 node_id)),
  u64_mod - 1,
)
operation_key_timestamp (update_register key value timestamp node_id) =
    (114 ∷ 101 ∷ 103 ∷ 58 ∷ (key ++ (58 ∷ hex 8 node_id)), timestamp)

unfoldable pub op_needs_send : PeerSyncState → CrdtOperation → Bool
op_needs_send s op = needs_send (operation_key_timestamp op).0 (operation_key_timestamp op).1 s

-- `iter().filter(…).cloned().collect()`
unfoldable pub filter_ops : PeerSyncState → List CrdtOperation → List CrdtOperation
filter_ops s [] = []
filter_ops s (op ∷ ops) =
    let rest = filter_ops s ops in if op_needs_send s op then op ∷ rest else rest

unfoldable pub filter_for_peer : ℕ → List CrdtOperation → DeltaEncoder → List CrdtOperation
filter_for_peer peer_id operations e = elim (Assoc.get ℕ_discrete peer_id e.peers) [
  | none ↦ operations
  | some s ↦ filter_ops s operations
]

-- The loop of `mark_sent`.
unfoldable pub mark_ops : List CrdtOperation → PeerSyncState → PeerSyncState
mark_ops [] s = s
mark_ops (op ∷ ops) s =
    mark_ops ops (mark_key (operation_key_timestamp op).0 (operation_key_timestamp op).1 s)

unfoldable pub mark_sent : ℕ → List CrdtOperation → DeltaEncoder → DeltaEncoder
mark_sent peer_id operations e = update_peer peer_id (mark_ops operations) e

unfoldable pub add_sent : ℕ → PeerSyncState → PeerSyncState
add_sent bytes s = record {
  last_sent = s.last_sent;
  last_received_timestamp = s.last_received_timestamp;
  sync_count = (s.sync_count + 1) % u32_mod;
  bytes_sent = (s.bytes_sent + bytes) % u64_mod;
  bytes_received = s.bytes_received;
}

unfoldable pub record_sent : ℕ → ℕ → DeltaEncoder → DeltaEncoder
record_sent peer_id bytes e = update_peer peer_id (add_sent bytes) e

unfoldable pub add_received : ℕ → ℕ → PeerSyncState → PeerSyncState
add_received bytes timestamp s = record {
  last_sent = s.last_sent;
  last_received_timestamp = timestamp;
  sync_count = s.sync_count;
  bytes_sent = s.bytes_sent;
  bytes_received = (s.bytes_received + bytes) % u64_mod;
}

unfoldable pub record_received : ℕ → ℕ → ℕ → DeltaEncoder → DeltaEncoder
record_received peer_id bytes timestamp e = update_peer peer_id (add_received bytes timestamp) e

unfoldable pub reset_peer : ℕ → DeltaEncoder → DeltaEncoder
reset_peer peer_id e = update_peer peer_id clear_sent e

pub record DeltaStats : Type 0 where
  pub peer_count : ℕ
  pub total_bytes_sent : ℕ
  pub total_bytes_received : ℕ
  pub total_syncs : ℕ
  pub tracked_keys : ℕ

-- The loop of `stats`: bytes sent, bytes received, syncs.
unfoldable pub totals : List (ℕ × PeerSyncState) → ℕ → ℕ → ℕ → ℕ × (ℕ × ℕ)
totals [] sent received syncs = (sent, (received, syncs))
totals ((k, s) ∷ peers) sent received syncs =
    totals peers ((sent + s.bytes_sent) % u64_mod) ((received + s.bytes_received) % u64_mod)
      ((syncs + s.sync_count) % u32_mod)

unfoldable pub stats : DeltaEncoder → DeltaStats
stats e =
    let t = totals e.peers 0 0 0 in
    record {
      peer_count = length e.peers;
      total_bytes_sent = t.0;
      total_bytes_received = t.1.0;
      total_syncs = t.1.1;
      tracked_keys = length e.current_state;
    }
