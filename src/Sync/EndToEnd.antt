-- ===== src/Sync/EndToEnd.antt =====
-- A sync from one node to another (src/sync/protocol.rs, `prepare_sync` and `process_received`).
use peat_btle.Prelude.{
  true, false, Bool-cases, ℕ, suc, ◌-◌, ◌*◌, ◌≤◌, ◌<◌, inl, inr, ◌≡◌, refl, ap, sym, ◌∙◌, none,
  some, List, [], ◌∷◌, length, All, arith, Option-cases,
}
use peat_btle.Prelude.Bytes.{u16_mod}
use peat_btle.Crdt.Operation.{CrdtOperation}
use peat_btle.Sync.Batch
use peat_btle.Sync.Batch.{OperationBatch, BatchAccumulator, is_empty}
use peat_btle.Sync.BatchCodec.{Fits, decode_batch, total_size}
use peat_btle.Sync.Delta.{record_received, filter_for_peer, filter_ops}
use peat_btle.Sync.Accounting.{emptied, flush-cases}
use peat_btle.Sync.Chunk.{SyncChunk, ChunkReassembler, chunk_data, chunk_header_size, process}
use peat_btle.Sync.Delivery.{
  delivered, delivered-none, delivered-some, delivered-chunk_data, IsFresh,
}
use peat_btle.Sync.Coordinator.{
  receiving, idle, note_received, GattSyncProtocol, process_received, accept_message, send_batch,
  prepare_sync, sum_sizes, select,
}

-- What `process_received` returns while chunks of a peer arrive, one after the other, with no other
-- call between: the lists of operations, in order.
abbrev pub received : ℕ → List SyncChunk → GattSyncProtocol → List (List CrdtOperation)
received peer_id [] p = []
received peer_id (c ∷ cs) p =
    let out = process_received c peer_id p in
    let rest = received peer_id cs out.1 in elim out.0 [ none ↦ rest | some ops ↦ ops ∷ rest ]

-- The messages that can be decoded.
abbrev decoded : List (List ℕ) → List (List CrdtOperation)
decoded [] = []
decoded (m ∷ ms) = elim (Batch.decode m) [ none ↦ decoded ms | some b ↦ b.operations ∷ decoded ms ]

-- The state after a batch has been decoded from a message.
abbrev noted : ℕ → List ℕ → OperationBatch → GattSyncProtocol → GattSyncProtocol
noted peer_id m b p = record p {
  delta = record_received peer_id (length m) p.current_time_ms p.delta;
  vector_clock = note_received peer_id b.operations p.vector_clock;
  state = idle;
}

-- One chunk more, by what `process_received` answers.
received_quiet :
    (peer_id : ℕ) (c : SyncChunk) (cs : List SyncChunk) (p p' : GattSyncProtocol)
    → process_received c peer_id p ≡ (none, p')
    → received peer_id (c ∷ cs) p ≡ received peer_id cs p'
received_quiet peer_id c cs p p' e = rw (received, e, e) refl

received_some :
    (peer_id : ℕ) (c : SyncChunk) (cs : List SyncChunk) (ops : List CrdtOperation)
    (p p' : GattSyncProtocol)
    → process_received c peer_id p ≡ (some ops, p')
    → received peer_id (c ∷ cs) p ≡ ops ∷ received peer_id cs p'
received_some peer_id c cs ops p p' e = rw (received, e, e) refl

decoded-none :
    (m : List ℕ) (ms : List (List ℕ)) → Batch.decode m ≡ none → decoded (m ∷ ms) ≡ decoded ms
decoded-none m ms d = rw (decoded, d) refl

decoded-some :
    (m : List ℕ) (ms : List (List ℕ)) (b : OperationBatch)
    → Batch.decode m ≡ some b
    → decoded (m ∷ ms) ≡ b.operations ∷ decoded ms
decoded-some m ms b d = rw (decoded, d) refl

-- The state after a chunk, with what the reassembler has become.
abbrev stored : ChunkReassembler → GattSyncProtocol → GattSyncProtocol
stored r p = record p { state = receiving; rx_reassembler = r }

process_received-none :
    (peer_id : ℕ) (c : SyncChunk) (p : GattSyncProtocol)
    → (process c p.current_time_ms p.rx_reassembler).0 ≡ none
    → process_received c peer_id p
      ≡ (none, stored (process c p.current_time_ms p.rx_reassembler).1 p)
unfolding process_received
process_received-none peer_id c p e = rw (process_received, e) refl

process_received-undecoded :
    (peer_id : ℕ) (c : SyncChunk) (m : List ℕ) (p : GattSyncProtocol)
    → (process c p.current_time_ms p.rx_reassembler).0 ≡ some m
    → Batch.decode m ≡ none
    → process_received c peer_id p
      ≡ (none, stored (process c p.current_time_ms p.rx_reassembler).1 p)
unfolding process_received accept_message
process_received-undecoded peer_id c m p e d = rw (process_received, e, accept_message, d) refl

process_received-some :
    (peer_id : ℕ) (c : SyncChunk) (m : List ℕ) (b : OperationBatch) (p : GattSyncProtocol)
    → (process c p.current_time_ms p.rx_reassembler).0 ≡ some m
    → Batch.decode m ≡ some b
    → process_received c peer_id p ≡ (
      some b.operations,
      noted peer_id m b (stored (process c p.current_time_ms p.rx_reassembler).1 p),
    )
unfolding process_received accept_message
process_received-some peer_id c m b p e d = rw (process_received, e, accept_message, d) refl

-- What the receiver returns are the decoded messages of its reassembler.
received-delivered :
    (peer_id : ℕ) (cs : List SyncChunk) (i : ℕ) (p : GattSyncProtocol)
    → received peer_id cs p ≡ decoded (delivered (λ i. p.current_time_ms) i cs p.rx_reassembler)
received-delivered peer_id [] i p = refl
received-delivered peer_id (c ∷ cs) i p =
    let out = process c p.current_time_ms p.rx_reassembler in
    let taken : GattSyncProtocol = stored out.1 p in
    let clock : ℕ → ℕ = λ i. p.current_time_ms in
    elim (Option-cases out.0) [
      | inl e ↦
          received_quiet peer_id c cs p taken (process_received-none peer_id c p e)
          ∙ (received-delivered peer_id cs (suc i) taken
              ∙ ap decoded (sym (delivered-none clock i c cs p.rx_reassembler e)))
      | inr (m, e) ↦
          let heard = ap decoded (sym (delivered-some clock i c cs p.rx_reassembler m e)) in
          let ms : List (List ℕ) = delivered clock (suc i) cs out.1 in
          elim (Option-cases (Batch.decode m)) [
            | inl d ↦
                received_quiet peer_id c cs p taken (process_received-undecoded peer_id c m p e d)
                ∙ (received-delivered peer_id cs (suc i) taken
                    ∙ (sym (decoded-none m ms d) ∙ heard))
            | inr (b, d) ↦
                received_some peer_id c cs b.operations p (noted peer_id m b taken)
                  (process_received-some peer_id c m b p e d)
                ∙ (ap (λ rest. b.operations ∷ rest)
                      (received-delivered peer_id cs (suc i) (noted peer_id m b taken))
                    ∙ (sym (decoded-some m ms b d) ∙ heard))
          ]
    ]

-- The encoded batch of a sync.
abbrev pub batch_bytes : List CrdtOperation → ℕ → List ℕ
batch_bytes operations created_at = Batch.encode (record {
  operations = operations;
  total_bytes = sum_sizes operations;
  created_at = created_at;
})

received-send_batch :
    (to from created_at : ℕ) (operations : List CrdtOperation) (sender receiver : GattSyncProtocol)
    → All Fits operations
    → length operations < u16_mod
    → chunk_header_size < sender.config.mtu
    → length (batch_bytes operations created_at) ≤ 65535 * (sender.config.mtu - chunk_header_size)
    → IsFresh sender.next_message_id receiver.rx_reassembler
    → received from (send_batch to operations created_at sender).0 receiver ≡ operations ∷ []
unfolding send_batch
received-send_batch to from created_at operations sender receiver fit few room fits fresh =
    let bytes : List ℕ = batch_bytes operations created_at in
    let b : OperationBatch = record {
      operations = operations;
      total_bytes = sum_sizes operations;
      created_at = created_at;
    } in
    received-delivered from (chunk_data bytes sender.config.mtu sender.next_message_id) 0 receiver
    ∙ (ap decoded (
          delivered-chunk_data (λ i. receiver.current_time_ms) bytes sender.config.mtu
            sender.next_message_id receiver.rx_reassembler room fits fresh)
        ∙ decoded-some bytes []
            (record {
              operations = operations;
              total_bytes = total_size operations 0;
              created_at = 0;
            })
            (decode_batch b fit few))

select_nothing : (to : ℕ) (p : GattSyncProtocol) → select to [] p ≡ []
unfolding select filter_for_peer filter_ops
select_nothing to p = elim (Bool-cases p.config.enable_delta) [
  | inl e ↦ rw e none_needed
  | inr e ↦ rw e refl
]
  where
    none_needed : filter_for_peer to [] p.delta ≡ []
    none_needed = ground arith

-- `prepare_sync` by what the batch hands over.
pub prepare_sync-some :
    (to : ℕ) (p : GattSyncProtocol) (b : OperationBatch) (rest : BatchAccumulator)
    → Batch.flush p.current_time_ms p.batch ≡ (some b, rest)
    → is_empty (select to b.operations p) ≡ false
    → prepare_sync to p
      ≡ send_batch to (select to b.operations p) b.created_at (record p { batch = rest })
unfolding prepare_sync select
prepare_sync-some to p b rest e n = rw (prepare_sync, e, e, n) refl

-- `prepare_sync` where the peer needs some of the pending operations.
prepare_sync-send_batch :
    (to : ℕ) (p : GattSyncProtocol)
    → is_empty (select to p.batch.pending p) ≡ false
    → prepare_sync to p
      ≡ send_batch to
          (select to p.batch.pending p)
          p.current_time_ms
          (record p { batch = emptied p.current_time_ms p.batch })
prepare_sync-send_batch to p n = elim (flush-cases p.current_time_ms p.batch) [
  | inl (nothing, _) ↦
      let quiet : is_empty (select to p.batch.pending p) ≡ true =
        ap (λ ops. is_empty (select to ops p)) nothing ∙ ap is_empty (select_nothing to p) in
      absurd (ground (arith, quiet, n))
  | inr e ↦
      prepare_sync-some to p
        (record {
          operations = p.batch.pending;
          total_bytes = p.batch.bytes_accumulated;
          created_at = p.current_time_ms;
        })
        (emptied p.current_time_ms p.batch) e n
]

-- A node calls `prepare_sync` for a peer that needs some of its pending operations: fewer than
-- 65,536, each decodable and of fewer than 65,536 bytes, which together fit into 65,535 chunks at its
-- MTU. The peer receives the chunks one after the other, with no other call between, and has nothing
-- of a message with their id. Then `process_received` returns exactly the operations that the peer
-- needs, in their order, once.
pub received-prepare_sync :
    (to from : ℕ) (sender receiver : GattSyncProtocol)
    → is_empty (select to sender.batch.pending sender) ≡ false
    → All Fits (select to sender.batch.pending sender)
    → length (select to sender.batch.pending sender) < u16_mod
    → chunk_header_size < sender.config.mtu
    → length (batch_bytes (select to sender.batch.pending sender) sender.current_time_ms)
      ≤ 65535 * (sender.config.mtu - chunk_header_size)
    → IsFresh sender.next_message_id receiver.rx_reassembler
    → received from (prepare_sync to sender).0 receiver ≡ select to sender.batch.pending sender ∷ []
received-prepare_sync to from sender receiver some_needed fit few room fits fresh =
    ap (λ out. received from out.0 receiver) (prepare_sync-send_batch to sender some_needed)
    ∙ received-send_batch to from sender.current_time_ms (select to sender.batch.pending sender)
        (record sender { batch = emptied sender.current_time_ms sender.batch }) receiver fit few
        room fits fresh
