-- ===== src/Lib.antt =====
-- peat-btle: a Bluetooth Low Energy mesh transport.
--
-- Nodes with little memory exchange replicated data over GATT characteristics and relay it from hop
-- to hop. This library models the parts that decide what the nodes agree on and what reaches whom:
--
--   * Relay (src/relay.rs). Relay/Envelope: MessageId, RelayFlags and RelayEnvelope, their
--     operations and the wire format. Relay/Seen: SeenMessageCache, which tells a node whether it has
--     met a message. Proofs: Relay/Codec, Relay/Hops, Relay/Eviction, Relay/Dedup.
--   * Crdt (src/sync/crdt.rs). Crdt/Lww: LwwRegister. Crdt/GCounter: GCounter. Crdt/Emergency:
--     EmergencyEvent with its acknowledgments. Crdt/Reports: Position and HealthStatus, and
--     Crdt/Operation: CrdtOperation, with their bytes. Proofs: Crdt/Counting, Crdt/CounterCodec,
--     Crdt/Acks, Crdt/Convergence, Crdt/AckCodec, Crdt/OperationCodec.
--   * Gatt (src/gatt/protocol.rs, and the packet header of src/gatt/characteristics.rs).
--     Gatt/Message: SyncMessage and its bytes. Gatt/Fragments: fragment_payload and
--     FragmentReassembler. Gatt/Protocol: SyncProtocol, the state of a sync session. Proofs:
--     Gatt/Framing, Gatt/Reassembly, Gatt/Oversize, Gatt/Errors, Gatt/Session.
--   * Sync. Sync/Clock: VectorClock, and Sync/Delta: PeerSyncState and DeltaEncoder, both of
--     src/sync/delta.rs. Sync/Batch: OperationBatch and BatchAccumulator of src/sync/batch.rs.
--     Sync/Chunk: ChunkHeader, SyncChunk, ChunkReassembler and chunk_data, and Sync/Coordinator:
--     GattSyncProtocol, both of src/sync/protocol.rs. Proofs: Sync/Merge, Sync/Causality,
--     Sync/Resend, Sync/BatchCodec, Sync/Accounting, Sync/Accumulation, Sync/Pigeonhole,
--     Sync/Received, Sync/Transfer, Sync/Steps, Sync/Delivery, Sync/EndToEnd, Sync/Handover.
--   * Power (src/power). Power/Profile: profiles and the battery, of src/power/profile.rs.
--     Power/Queue and Power/Scheduler: the pending syncs and RadioScheduler, of
--     src/power/scheduler.rs. Proofs: Power/Ranks, Power/Pending, Power/Serving, Power/Wake.
--   * Mesh (src/mesh). Mesh/Topology: MeshTopology of src/mesh/topology.rs. Mesh/Routing:
--     MeshRouter and HopTracker of src/mesh/routing.rs. Mesh/Candidates: the candidates for the
--     parent with their scores, and Mesh/Events: PeerInfo and TopologyEvent, of
--     src/mesh/topology.rs. Mesh/Errors: BleError of src/error.rs. Mesh/Manager: MeshManager of
--     src/mesh/manager.rs; Mesh/Reachable makes its calls the steps of a relation. Proofs:
--     Mesh/Capacity, Mesh/Roles, Mesh/Forwarding, Mesh/HopLimit, Mesh/Selection, Mesh/Links,
--     Mesh/Linking, Mesh/Connecting, Mesh/Consistency, Mesh/Reachable, Mesh/Failover.
--   * Peers. Peers/Reconnect: ReconnectionManager of src/reconnect.rs. Peers/Lifetime:
--     PeerLifetimeManager of src/peer_lifetime.rs. Proofs: Peers/Backoff, Peers/Ready,
--     Peers/Staleness.
--   * Phy (src/phy). Phy/Types: BlePhy, PhyCapabilities and PhyPreference of src/phy/types.rs.
--     Phy/Strategy: PhyStrategy of src/phy/strategy.rs. Phy/Controller: PhyController of
--     src/phy/controller.rs. Proofs: Phy/Steady, Phy/Recommended.
--   * Prelude: what the parts share. Lists and machine words over the native numbers, `HashMap` as an
--     association list in iteration order (Prelude/Assoc), `BTreeMap` as a list in ascending order of
--     its keys (Prelude/Sorted), `sort_by_key` (Prelude/SortBy), `chunks` (Prelude/Chunks) and
--     signed integers (Prelude/Int).
--
-- The parts meet in the sending of data. A CRDT's bytes are the payload of a sync message. The
-- coordinator collects operations in the batch, asks the delta encoder which of them a peer lacks, and
-- cuts the encoded batch into chunks; the peer's coordinator puts the chunks together, decodes the
-- batch and raises its vector clock. Fragments carry a document that is larger than a packet; the
-- envelope carries it over several hops, and the cache keeps it from going round. The manager decides
-- whom a node is connected to, the router where a message goes next, the reconnection and the
-- lifetimes which peers to call again and which to forget, the PHY controller which
-- rate a connection has, and the scheduler when the radio is on and
-- which pending sync goes first.
--
-- Conventions. A method that changes its receiver is a function from the state to the state, paired
-- with the result where there is one; names are those of the source. A byte is a number below 256, a
-- string the list of its character codes. A w-bit addition is written with its wrap-around, `% 2 ^ w`,
-- as it behaves in a release build, and saturating operations as such. A panic is `none`. A clock that
-- the source reads is an argument. Loops run over the list or the count that the source's loop runs
-- over, so none of them needs fuel, but for `chunks`, which takes the length of the list: each round
-- takes at least one element off it. A callback or a lock has no
-- counterpart: what an operation tells the callbacks is a list of events in its result, and operations
-- follow one another. The tests of each folder run the definitions at concrete inputs.
--
-- Not modelled: the adapters to the operating systems' Bluetooth stacks (src/platform), the bindings,
-- the cryptography of src/security and what is built on it, the peer manager with its records
-- (src/peer.rs, src/peer_manager.rs), documents (src/document.rs, src/document_sync.rs), chat messages
-- and the remaining CRDTs, the facade src/peat_mesh.rs, discovery, and estimates
-- in floating point. Statements about timing hold for the times that are passed in.
pub mod Prelude
pub mod Relay
pub mod Crdt
pub mod Gatt
pub mod Sync
pub mod Power
pub mod Mesh
pub mod Peers
pub mod Phy
