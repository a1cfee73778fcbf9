-- ===== src/Gatt/Message.antt =====
-- src/gatt/characteristics.rs (`SyncDataOp`, `SyncDataHeader`) and src/gatt/protocol.rs
-- (`SyncMessage`): the header of a sync packet and the message around it.
use peat_btle.Prelude.{
  ℕ, ◌+◌, ◌*◌, ◌/◌, ◌%◌, ◌^◌, Option, none, some, List, [], ◌∷◌, ◌++◌, ltb, ◌==◌, if◌then◌else◌,
  length, get_or, drop,
}

pub data SyncDataOp : Type 0 where
  document vector ack end : SyncDataOp

-- `self.op as u8`
unfoldable pub op_byte : SyncDataOp → ℕ
op_byte document = 0x01
op_byte vector = 0x02
op_byte ack = 0x03
op_byte end = 0xFF

-- `From<u8>`: an unknown byte is a document.
unfoldable pub op_from : ℕ → SyncDataOp
op_from value =
    if value == 0x01
    then document
    else if value == 0x02
    then vector
    else if value == 0x03
    then ack
    else if value == 0xFF
    then end
    else document

pub record SyncDataHeader : Type 0 where
  pub op : SyncDataOp
  pub seq : ℕ
  pub total_fragments : ℕ
  pub fragment_index : ℕ

abbrev pub header_size : ℕ
header_size = 5

-- `(seq >> 8) as u8`, `seq as u8`: the high byte first.
unfoldable pub encode_header : SyncDataHeader → List ℕ
unfolding op_byte
encode_header h =
    op_byte h.op ∷ (h.seq / 2 ^ 8) % 256 ∷ h.seq % 256 ∷ h.total_fragments ∷ h.fragment_index ∷ []

-- The shift and the `|` of two bytes are written as a sum.
unfoldable pub decode_header : List ℕ → Option SyncDataHeader
unfolding op_from
decode_header bytes =
    if ltb (length bytes) header_size
    then none
    else some (record {
      op = op_from (get_or bytes 0 0);
      seq = get_or bytes 1 0 * 2 ^ 8 + get_or bytes 2 0;
      total_fragments = get_or bytes 3 0;
      fragment_index = get_or bytes 4 0;
    })

pub data SyncMessageType : Type 0 where
  sync_vector document ack end_sync error : SyncMessageType

pub record SyncMessage : Type 0 where
  pub msg_type : SyncMessageType
  pub seq : ℕ
  pub total_fragments : ℕ
  pub fragment_index : ℕ
  pub payload : List ℕ

unfoldable pub new : SyncMessageType → ℕ → List ℕ → SyncMessage
new msg_type seq payload = record {
  msg_type = msg_type;
  seq = seq;
  total_fragments = 1;
  fragment_index = 0;
  payload = payload;
}

unfoldable pub op_of : SyncMessageType → SyncDataOp
op_of sync_vector = vector
op_of SyncMessageType.document = SyncDataOp.document
op_of SyncMessageType.ack = SyncDataOp.ack
op_of end_sync = end
op_of error = end

unfoldable pub type_of : SyncDataOp → SyncMessageType
type_of vector = sync_vector
type_of SyncDataOp.document = SyncMessageType.document
type_of SyncDataOp.ack = SyncMessageType.ack
type_of end = end_sync

unfoldable pub encode : SyncMessage → List ℕ
unfolding op_of encode_header
encode m =
    encode_header (record {
      op = op_of m.msg_type;
      seq = m.seq;
      total_fragments = m.total_fragments;
      fragment_index = m.fragment_index;
    })
    ++ m.payload

unfoldable pub decode : List ℕ → Option SyncMessage
unfolding type_of decode_header
decode bytes = elim (decode_header bytes) [
  | none ↦ none
  | some header ↦ some (record {
    msg_type = type_of header.op;
    seq = header.seq;
    total_fragments = header.total_fragments;
    fragment_index = header.fragment_index;
    payload = if ltb header_size (length bytes) then drop header_size bytes else [];
  })
]
