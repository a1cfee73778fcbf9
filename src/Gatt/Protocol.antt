-- ===== src/Gatt/Protocol.antt =====
-- src/gatt/protocol.rs: `SyncProtocol`, the state of one sync session.
use peat_btle.Prelude.{
  ℕ, ◌+◌, ◌%◌, Bool, true, false, Option, none, some, List, [], ◌∷◌, ◌++◌, ltb, ◌==◌, if◌then◌else◌,
  not,
}
use peat_btle.Prelude.Bytes.{u16_mod}
use peat_btle.Gatt.Message.{
  SyncMessageType, SyncMessage, sync_vector, document, ack, end_sync, error, new, decode,
}
use peat_btle.Gatt.Fragments.{
  FragmentReassembler, default_max_payload, max_payload_size, fragment_payload, start, is_complete,
  add_fragment, reassemble,
}

pub data SyncProtocolState : Type 0 where
  idle sending_vector receiving_documents sending_documents waiting_ack complete failed :
      SyncProtocolState

pub record SyncProtocol : Type 0 where
  pub state : SyncProtocolState
  pub seq : ℕ
  pub outgoing : List SyncMessage
  pub pending_acks : List ℕ
  pub reassembler : Option FragmentReassembler
  pub max_payload : ℕ

unfoldable pub initial : SyncProtocol
initial = record {
  state = idle;
  seq = 0;
  outgoing = [];
  pending_acks = [];
  reassembler = none;
  max_payload = default_max_payload;
}

unfoldable pub set_mtu : SyncProtocol → ℕ → SyncProtocol
unfolding max_payload_size
set_mtu p mtu = record p { max_payload = max_payload_size mtu }

-- `next_seq`: the number that is used, and the state with the next one.
unfoldable pub next_seq : SyncProtocol → ℕ × SyncProtocol
next_seq p = (p.seq, record p { seq = (p.seq + 1) % u16_mod })

-- The messages of one payload are put on the queue. `none` is the panic of `fragment_payload`.
unfoldable pub enqueue : SyncMessageType → List ℕ → SyncProtocol → Option SyncProtocol
unfolding next_seq
enqueue msg_type payload p =
    let (seq, p') = next_seq p in
    elim (fragment_payload msg_type seq payload p'.max_payload) [
      | none ↦ none
      | some messages ↦ some (record p' { outgoing = p'.outgoing ++ messages })
    ]

unfoldable pub start_sync : SyncProtocol → List ℕ → Option SyncProtocol
unfolding enqueue
start_sync p vector = enqueue sync_vector vector (record p { state = sending_vector; seq = 0 })

unfoldable pub is_idle : SyncProtocolState → Bool
is_idle idle = true
is_idle _ = false

unfoldable pub queue_document : SyncProtocol → List ℕ → Option SyncProtocol
unfolding enqueue is_idle
queue_document p doc =
    enqueue document doc (if is_idle p.state then record p { state = sending_documents } else p)

unfoldable pub end_sync_session : SyncProtocol → SyncProtocol
unfolding next_seq
end_sync_session p =
    let (seq, p') = next_seq p in
    record p' { outgoing = p'.outgoing ++ (new end_sync seq [] ∷ []); state = complete }

unfoldable pub next_outgoing : SyncProtocol → SyncProtocol × Option SyncMessage
next_outgoing p = elim p.outgoing [
  | [] ↦ (p, none)
  | m ∷ rest ↦ (record p { outgoing = rest }, some m)
]

abbrev pub Received : Type 0
Received = SyncProtocol × Option (SyncMessageType × List ℕ)

-- A completed reassembler is read and dropped.
unfoldable pub deliver : SyncProtocol → FragmentReassembler → Received
deliver p r = elim (reassemble r) [
  | none ↦ (record p { reassembler = some r }, none)
  | some payload ↦ (record p { reassembler = none }, some (r.msg_type, payload))
]

-- "Start new reassembly". `none` is the panic of `FragmentReassembler::new`.
unfoldable pub begin_reassembly : SyncProtocol → SyncMessage → Option Received
unfolding deliver
begin_reassembly p m = elim (start m) [
  | none ↦ none
  | some r ↦ some (if is_complete r then deliver p r else (record p { reassembler = some r }, none))
]

-- The branch for a message of more than one fragment.
unfoldable pub on_fragment : SyncProtocol → SyncMessage → Option Received
unfolding begin_reassembly deliver
on_fragment p m = elim p.reassembler [
  | none ↦ begin_reassembly p m
  | some r ↦
      if r.seq == m.seq
      then (let (r', done) = add_fragment r m in
          some (if done then deliver p r' else (record p { reassembler = some r' }, none)))
      else begin_reassembly p m
]

-- `pending_acks.retain(|&s| s != seq)`
unfoldable pub drop_ack : ℕ → List ℕ → List ℕ
drop_ack seq [] = []
drop_ack seq (s ∷ acks) = let rest = drop_ack seq acks in if not (s == seq) then s ∷ rest else rest

-- The branch for a message in one piece.
unfoldable pub on_whole : SyncProtocol → SyncMessage → SyncMessageType → Received
unfolding drop_ack
on_whole p m ack = (record p { pending_acks = drop_ack m.seq p.pending_acks }, none)
on_whole p m sync_vector = (record p { state = receiving_documents }, some (sync_vector, m.payload))
on_whole p m document =
    (record p { outgoing = p.outgoing ++ (new ack m.seq [] ∷ []) }, some (document, m.payload))
on_whole p m end_sync = (record p { state = complete }, some (end_sync, []))
on_whole p m error = (record p { state = failed }, some (error, m.payload))

-- `none` is a panic.
unfoldable pub process_incoming : SyncProtocol → List ℕ → Option Received
unfolding on_fragment on_whole
process_incoming p bytes = elim (decode bytes) [
  | none ↦ some (p, none)
  | some m ↦ if ltb 1 m.total_fragments then on_fragment p m else some (on_whole p m m.msg_type)
]

unfoldable pub reset : SyncProtocol → SyncProtocol
reset p = record p { state = idle; seq = 0; outgoing = []; pending_acks = []; reassembler = none }
