-- ===== src/Sync/Coordinator.antt =====
-- src/sync/protocol.rs: `GattSyncProtocol`, which joins the batch, the delta encoder, the vector
-- clock and the chunks. Sizes in memory (`usize`) are small enough not to wrap.
use peat_btle.Prelude.{
  ℕ, ◌+◌, ◌%◌, Bool, true, false, Option, none, some, List, [], ◌∷◌, ◌++◌, ltb, if◌then◌else◌,
  length,
}
use peat_btle.Prelude.Bytes.{u32_mod}
use peat_btle.Crdt.Operation.{
  CrdtOperation, update_position, update_health, increment_counter, update_register, size,
}
use peat_btle.Sync.Batch
use peat_btle.Sync.Batch.{
  BatchConfig, BatchAccumulator, OperationBatch, default_batch, low_power_batch, responsive_batch,
  is_empty,
}
use peat_btle.Sync.Clock
use peat_btle.Sync.Clock.{VectorClock}
use peat_btle.Sync.Delta
use peat_btle.Sync.Delta.{DeltaEncoder, filter_for_peer, mark_sent, record_sent, record_received}
use peat_btle.Sync.Chunk
use peat_btle.Sync.Chunk.{SyncChunk, ChunkReassembler, chunk_data}

abbrev pub default_mtu : ℕ
default_mtu = 23

abbrev pub max_mtu : ℕ
max_mtu = 517

pub data SyncState : Type 0 where
  idle sending receiving waiting_ack : SyncState

pub record SyncConfig : Type 0 where
  pub mtu : ℕ
  pub batch : BatchConfig
  pub sync_interval_ms : ℕ
  pub enable_delta : Bool
  pub max_retries : ℕ

unfoldable pub default_sync : SyncConfig
default_sync = record {
  mtu = default_mtu;
  batch = default_batch;
  sync_interval_ms = 5000;
  enable_delta = true;
  max_retries = 3;
}

unfoldable pub low_power_sync : SyncConfig
low_power_sync = record {
  mtu = default_mtu;
  batch = low_power_batch;
  sync_interval_ms = 30000;
  enable_delta = true;
  max_retries = 2;
}

unfoldable pub responsive_sync : SyncConfig
responsive_sync = record {
  mtu = max_mtu;
  batch = responsive_batch;
  sync_interval_ms = 1000;
  enable_delta = true;
  max_retries = 3;
}

pub record GattSyncProtocol : Type 0 where
  pub node_id : ℕ
  pub config : SyncConfig
  pub state : SyncState
  pub batch : BatchAccumulator
  pub delta : DeltaEncoder
  pub vector_clock : VectorClock
  pub tx_queue : List SyncChunk
  pub rx_reassembler : ChunkReassembler
  pub next_message_id : ℕ
  pub current_time_ms : ℕ
  pub last_sync_time_ms : ℕ

unfoldable pub new : ℕ → SyncConfig → GattSyncProtocol
new node_id config = record {
  node_id = node_id;
  config = config;
  state = idle;
  batch = Batch.new config.batch;
  delta = Delta.new_encoder node_id;
  vector_clock = Clock.new;
  tx_queue = [];
  rx_reassembler = Chunk.new;
  next_message_id = 1;
  current_time_ms = 0;
  last_sync_time_ms = 0;
}

unfoldable pub set_time : ℕ → GattSyncProtocol → GattSyncProtocol
set_time time_ms p = record p { current_time_ms = time_ms }

unfoldable pub set_mtu : ℕ → GattSyncProtocol → GattSyncProtocol
set_mtu mtu p = record p { config = record p.config { mtu = mtu } }

unfoldable pub add_peer : ℕ → GattSyncProtocol → GattSyncProtocol
add_peer peer_id p = record p { delta = Delta.add_peer peer_id p.delta }

unfoldable pub remove_peer : ℕ → GattSyncProtocol → GattSyncProtocol
remove_peer peer_id p = record p { delta = Delta.remove_peer peer_id p.delta }

unfoldable pub queue_operation : CrdtOperation → GattSyncProtocol → Bool × GattSyncProtocol
queue_operation op p =
    let clock : VectorClock = (Clock.increment p.vector_clock p.node_id).0 in
    let out = Batch.add op p.current_time_ms p.batch in
    (out.0, record p { vector_clock = clock; batch = out.1 })

unfoldable pub should_sync : GattSyncProtocol → Bool
should_sync p = Batch.should_flush p.current_time_ms p.batch

-- `operations.iter().map(|o| o.size()).sum()`
unfoldable pub sum_sizes : List CrdtOperation → ℕ
sum_sizes [] = 0
sum_sizes (op ∷ ops) = size op + sum_sizes ops

-- The operations of a batch that the peer needs.
unfoldable pub select : ℕ → List CrdtOperation → GattSyncProtocol → List CrdtOperation
select peer_id operations p =
    if p.config.enable_delta then filter_for_peer peer_id operations p.delta else operations

-- `prepare_sync` from the filtered operations on, of which there are some.
unfoldable pub send_batch :
    ℕ → List CrdtOperation → ℕ → GattSyncProtocol → List SyncChunk × GattSyncProtocol
send_batch peer_id operations created_at p =
    let encoded : List ℕ = Batch.encode (record {
      operations = operations;
      total_bytes = sum_sizes operations;
      created_at = created_at;
    }) in
    (
      chunk_data encoded p.config.mtu p.next_message_id,
      record p {
        next_message_id = (p.next_message_id + 1) % u32_mod;
        delta = record_sent peer_id (length encoded) (mark_sent peer_id operations p.delta);
        state = sending;
        last_sync_time_ms = p.current_time_ms;
      },
    )

unfoldable pub prepare_sync : ℕ → GattSyncProtocol → List SyncChunk × GattSyncProtocol
prepare_sync peer_id p =
    let out = Batch.flush p.current_time_ms p.batch in
    let flushed : GattSyncProtocol = record p { batch = out.1 } in
    elim out.0 [
      | none ↦ ([], flushed)
      | some b ↦
          let operations : List CrdtOperation = select peer_id b.operations flushed in
          if is_empty operations
          then ([], flushed)
          else send_batch peer_id operations b.created_at flushed
    ]

-- `pop_front` and `extend` of the queue.
unfoldable pub next_tx_chunk : GattSyncProtocol → Option SyncChunk × GattSyncProtocol
next_tx_chunk p = elim p.tx_queue [
  | [] ↦ (none, p)
  | chunk ∷ chunks ↦ (some chunk, record p { tx_queue = chunks })
]

unfoldable pub queue_chunks : List SyncChunk → GattSyncProtocol → GattSyncProtocol
queue_chunks chunks p = record p { tx_queue = p.tx_queue ++ chunks }

unfoldable pub has_pending_tx : GattSyncProtocol → Bool
has_pending_tx p = elim p.tx_queue [ [] ↦ false | chunk ∷ chunks ↦ true ]

unfoldable pub timestamp_of : CrdtOperation → ℕ
timestamp_of (update_position node_id position timestamp) = timestamp
timestamp_of (update_health node_id status timestamp) = timestamp
timestamp_of (update_register key value timestamp node_id) = timestamp
timestamp_of (increment_counter counter_id node_id amount) = 0

-- The loop over the received operations.
unfoldable pub note_received : ℕ → List CrdtOperation → VectorClock → VectorClock
note_received peer_id [] clock = clock
note_received peer_id (op ∷ ops) clock =
    note_received peer_id ops
      (if ltb 0 (timestamp_of op) then Clock.update clock peer_id (timestamp_of op) else clock)

-- `process_received` from the complete message on.
unfoldable pub accept_message :
    ℕ → List ℕ → GattSyncProtocol → Option (List CrdtOperation) × GattSyncProtocol
accept_message peer_id complete p = elim (Batch.decode complete) [
  | none ↦ (none, p)
  | some b ↦ (
    some b.operations,
    record p {
      delta = record_received peer_id (length complete) p.current_time_ms p.delta;
      vector_clock = note_received peer_id b.operations p.vector_clock;
      state = idle;
    },
  )
]

unfoldable pub process_received :
    SyncChunk → ℕ → GattSyncProtocol → Option (List CrdtOperation) × GattSyncProtocol
process_received chunk peer_id p =
    let out = Chunk.process chunk p.current_time_ms p.rx_reassembler in
    let taken : GattSyncProtocol = record p { state = receiving; rx_reassembler = out.1 } in
    elim out.0 [ none ↦ (none, taken) | some complete ↦ accept_message peer_id complete taken ]

unfoldable pub ack_send : GattSyncProtocol → GattSyncProtocol
ack_send p = elim p.tx_queue [ [] ↦ record p { state = idle } | chunk ∷ chunks ↦ p ]

unfoldable pub reset : GattSyncProtocol → GattSyncProtocol
reset p = record p { state = idle; tx_queue = []; rx_reassembler = Chunk.new }

unfoldable pub reset_peer : ℕ → GattSyncProtocol → GattSyncProtocol
reset_peer peer_id p = record p { delta = Delta.reset_peer peer_id p.delta }

unfoldable pub tick : GattSyncProtocol → GattSyncProtocol
tick p = record p { rx_reassembler = Chunk.cleanup p.current_time_ms p.rx_reassembler }

pub record SyncStats : Type 0 where
  pub bytes_sent : ℕ
  pub bytes_received : ℕ
  pub syncs_completed : ℕ
  pub pending_operations : ℕ
  pub pending_tx_chunks : ℕ
  pub pending_rx_messages : ℕ

unfoldable pub stats : GattSyncProtocol → SyncStats
stats p =
    let delta_stats = Delta.stats p.delta in
    record {
      bytes_sent = delta_stats.total_bytes_sent;
      bytes_received = delta_stats.total_bytes_received;
      syncs_completed = delta_stats.total_syncs;
      pending_operations = Batch.pending_count p.batch;
      pending_tx_chunks = length p.tx_queue;
      pending_rx_messages = Chunk.pending_count p.rx_reassembler;
    }
