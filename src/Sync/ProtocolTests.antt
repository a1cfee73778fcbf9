-- ===== src/Sync/ProtocolTests.antt =====
-- Runs of the batches and of the coordinator at concrete inputs.
use peat_btle.Prelude.{
  ℕ, ◌≤◌, ◌<◌, ◌*◌, ◌≡◌, refl, none, some, List, [], ◌∷◌, ◌++◌, length, arith, All, ℕ_discrete,
}
use peat_btle.Prelude.Assoc
use peat_btle.Crdt.Operation
use peat_btle.Crdt.Reports
use peat_btle.Crdt.Operation.{CrdtOperation, update_health}
use peat_btle.Sync.Batch
use peat_btle.Sync.Batch.{OperationBatch, BatchAccumulator, responsive_batch}
use peat_btle.Sync.BatchCodec.{Fits, decode_batch, total_size}
use peat_btle.Sync.Accumulation.{run, run_log, run-Fifo, run-IsAccounted}
use peat_btle.Sync.Accounting.{BatchCall, added, flushed, IsAccounted}
use mathlib.Core.Path.{subst}
use peat_btle.Prelude.{sym, ap}
use peat_btle.Prelude.Bytes.{u16_mod}
use peat_btle.Sync.Delta
use peat_btle.Sync.Chunk
use peat_btle.Sync.Delivery.{IsFresh}
use peat_btle.Sync.Batch.{is_empty}
use peat_btle.Sync.EndToEnd.{batch_bytes}
use peat_btle.Sync.Coordinator
use peat_btle.Sync.Coordinator.{
  GattSyncProtocol, default_sync, add_peer, queue_operation, prepare_sync, select, set_mtu,
}
use peat_btle.Sync.EndToEnd.{received, received-prepare_sync}

abbrev beat : ℕ → CrdtOperation
beat t =
    update_health 7 (record { battery_percent = 80; heart_rate = none; activity = 1; alerts = 0 }) t

abbrev two_beats : List CrdtOperation
two_beats = beat 100 ∷ (beat 200 ∷ [])

beat-Fits : (t : ℕ) → t < 1000 → Fits (beat t)
unfolding Operation.encode Reports.encode_health
beat-Fits t h = (
  (
    omega arith,
    omega arith,
    record { battery = omega arith; known_activity = omega arith; rate = tt },
  ),
  omega arith,
)

abbrev batch_of_two : OperationBatch
batch_of_two = record { operations = two_beats; total_bytes = 35; created_at = 9 }

decode_batch_example :
    Batch.decode (Batch.encode batch_of_two)
    ≡ some (record { operations = two_beats; total_bytes = total_size two_beats 0; created_at = 0 })
decode_batch_example =
    decode_batch batch_of_two (beat-Fits 100 (omega arith), (beat-Fits 200 (omega arith), tt))
      (omega arith)

abbrev calls : List BatchCall
calls = added (beat 100) 5 ∷ (flushed 6 ∷ (added (beat 200) 7 ∷ []))

run-Fifo_example :
    (run calls (Batch.new responsive_batch)).1.0
      ++ (run calls (Batch.new responsive_batch)).1.1.pending
    ≡ (Batch.new responsive_batch).pending ++ (run calls (Batch.new responsive_batch)).0
run-Fifo_example = run-Fifo calls (Batch.new responsive_batch)

run-IsAccounted_example :
    IsAccounted
      (run_log calls (Batch.new responsive_batch) [])
      (run calls (Batch.new responsive_batch)).1.1
run-IsAccounted_example = run-IsAccounted calls responsive_batch

-- A node with two pending operations, and the same node without any.
abbrev sender : GattSyncProtocol
sender =
    let fresh : GattSyncProtocol = add_peer 2 (Coordinator.new 1 default_sync) in
    (queue_operation (beat 200) (queue_operation (beat 100) fresh).1).1

abbrev receiver : GattSyncProtocol
receiver = Coordinator.new 2 default_sync

beats_needed : select 2 sender.batch.pending sender ≡ two_beats
unfolding select queue_operation add_peer Coordinator.new Batch.add default_sync
    Delta.filter_for_peer Assoc.get Delta.add_peer Delta.new_encoder Assoc.insert ℕ_discrete
    Delta.filter_ops Batch.new Batch.default_batch Operation.size Reports.encode_health
    Delta.op_needs_send Delta.needs_send Delta.new_state
beats_needed = refl

abbrev needed_bytes : List CrdtOperation → ℕ
needed_bytes ops = length (batch_bytes ops sender.current_time_ms)

beats_short : needed_bytes two_beats ≤ 65535 * 15
unfolding Batch.encode Batch.encode_ops Operation.encode Reports.encode_health queue_operation
    add_peer Coordinator.new
beats_short = omega arith

sender_mtu : sender.config.mtu ≡ 23
unfolding queue_operation add_peer Coordinator.new default_sync
sender_mtu = refl

receiver-IsFresh : IsFresh sender.next_message_id receiver.rx_reassembler
unfolding Coordinator.new Chunk.new Assoc.get
receiver-IsFresh = (tt, refl)

received-prepare_sync_example :
    received 1 (prepare_sync 2 sender).0 receiver ≡ select 2 sender.batch.pending sender ∷ []
unfolding queue_operation add_peer Coordinator.new default_sync
received-prepare_sync_example =
    received-prepare_sync 2 1 sender receiver (ap is_empty beats_needed)
      (subst (All Fits) (sym beats_needed)
        (beat-Fits 100 (omega arith), (beat-Fits 200 (omega arith), tt)))
      (subst (λ ops. length ops < u16_mod) (sym beats_needed) (omega arith)) (omega arith)
      (subst (λ ops. needed_bytes ops ≤ 65535 * 15) (sym beats_needed) beats_short) receiver-IsFresh
