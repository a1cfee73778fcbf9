-- ===== src/Gatt/Framing.antt =====
-- The bytes of a sync message (src/gatt/protocol.rs and src/gatt/characteristics.rs, `encode` and
-- `decode`).
use peat_btle.Prelude.{
  ℕ, ◌+◌, ◌*◌, ◌/◌, ◌%◌, ◌≤◌, ◌<◌, ◌≡◌, ◌≢◌, refl, some, List, [], ◌∷◌, arith, ltb, length,
  if◌then◌else◌,
}
use peat_btle.Prelude.Bytes.{u16_mod}
use peat_btle.Gatt.Message.{
  SyncMessage, SyncMessageType, sync_vector, document, ack, end_sync, error, op_of, type_of, encode,
  decode, encode_header, decode_header, SyncDataOp, op_byte, op_from,
}
use peat_btle.Gatt.Protocol.{SyncProtocol, process_incoming, complete}

-- The values that the fields can hold in the program.
pub record IsWf (m : SyncMessage) : Type 0 where
  pub seq_word : m.seq < u16_mod
  pub total_byte : m.total_fragments < 256
  pub index_byte : m.fragment_index < 256

op_from-op_byte : (op : SyncDataOp) → op_from (op_byte op) ≡ op
unfolding op_from op_byte
op_from-op_byte op = ground arith

type_of-op_of : (t : SyncMessageType) → t ≢ error → type_of (op_of t) ≡ t
unfolding type_of op_of
type_of-op_of sync_vector ne = refl
type_of-op_of document ne = refl
type_of-op_of ack ne = refl
type_of-op_of end_sync ne = refl
type_of-op_of error ne = absurd (ne refl)

error_type : {t : SyncMessageType} → t ≡ error → type_of (op_of t) ≡ end_sync
unfolding type_of op_of
error_type e = rw e

drop_header : (bytes : List ℕ) → (if ltb 5 (5 + length bytes) then bytes else []) ≡ bytes
drop_header [] = refl
drop_header (b ∷ bytes) = ground arith

pub decode-encode_type :
    (m : SyncMessage)
    → IsWf m
    → decode (encode m) ≡ some (record m { msg_type = type_of (op_of m.msg_type) })
unfolding decode encode decode_header encode_header
decode-encode_type m w =
    let sum : m.seq / 256 % 256 * 256 + m.seq % 256 ≡ m.seq = omega arith in
    ground (arith, sum, op_from-op_byte (op_of m.msg_type), drop_header m.payload)

-- A message that is no error message is read back from its bytes.
pub decode_lem : (m : SyncMessage) → IsWf m → m.msg_type ≢ error → decode (encode m) ≡ some m
decode_lem m w ne = rw (decode-encode_type m w) (rw (type_of-op_of m.msg_type ne) refl)

-- An error message in one piece is not told from the end of a sync: a session that receives it counts the
-- sync as complete and hands over no error.
pub process_incoming-error :
    (p : SyncProtocol) (m : SyncMessage)
    → IsWf m
    → m.msg_type ≡ error
    → m.total_fragments ≤ 1
    → process_incoming p (encode m) ≡ some (record p { state = complete }, some (end_sync, []))
unfolding process_incoming
process_incoming-error p m w e whole =
    rw (decode-encode_type m w, process_incoming) (ground (arith, error_type e))
