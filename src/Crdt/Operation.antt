-- ===== src/Crdt/Operation.antt =====
-- src/sync/crdt.rs: `CrdtOperation` with its bytes. A string is the list of its bytes in UTF-8.
use peat_btle.Prelude.{
  ℕ, zero, suc, ◌+◌, ◌%◌, Bool, true, false, not, ◌&&◌, Option, none, some, List, [], ◌∷◌, ◌++◌,
  ltb, leb, ◌==◌, if◌then◌else◌, length, get_or, slice, drop,
}
use peat_btle.Prelude.Bytes.{u8_mod, u16_mod, le_bytes, from_le_bytes}
use peat_btle.Crdt.Reports.{
  Position, HealthStatus, encode_position, decode_position, encode_health, decode_health,
}

pub data CrdtOperation : Type 0 where
  update_position : (node_id : ℕ) (position : Position) (timestamp : ℕ) → CrdtOperation
  update_health : (node_id : ℕ) (status : HealthStatus) (timestamp : ℕ) → CrdtOperation
  increment_counter : (counter_id node_id amount : ℕ) → CrdtOperation
  update_register : (key value : List ℕ) (timestamp node_id : ℕ) → CrdtOperation

-- `str::from_utf8(…).is_ok()`: the bytes that a first byte asks for, and the range of the next one.
unfoldable pub lead_byte : ℕ → Option (ℕ × (ℕ × ℕ))
lead_byte b =
    if ltb b 0x80
    then some (0, (0x80, 0xbf))
    else if leb 0xc2 b && leb b 0xdf
    then some (1, (0x80, 0xbf))
    else if b == 0xe0
    then some (2, (0xa0, 0xbf))
    else if b == 0xed
    then some (2, (0x80, 0x9f))
    else if leb 0xe1 b && leb b 0xef
    then some (2, (0x80, 0xbf))
    else if b == 0xf0
    then some (3, (0x90, 0xbf))
    else if leb 0xf1 b && leb b 0xf3
    then some (3, (0x80, 0xbf))
    else if b == 0xf4
    then some (3, (0x80, 0x8f))
    else none

unfoldable pub utf8_from : ℕ → ℕ → ℕ → List ℕ → Bool
utf8_from zero lo hi [] = true
utf8_from (suc n) lo hi [] = false
utf8_from zero lo hi (b ∷ bs) = elim (lead_byte b) [
  | none ↦ false
  | some (n, (lo', hi')) ↦ utf8_from n lo' hi' bs
]
utf8_from (suc n) lo hi (b ∷ bs) = (leb lo b && leb b hi) && utf8_from n 0x80 0xbf bs

abbrev pub is_utf8 : List ℕ → Bool
is_utf8 bytes = utf8_from 0 0x80 0xbf bytes

unfoldable pub size : CrdtOperation → ℕ
size (update_position node_id position timestamp) = 4 + 8 + length (encode_position position)
size (update_health node_id status timestamp) = 4 + 8 + length (encode_health status)
size (increment_counter counter_id node_id amount) = 1 + 4 + 8
size (update_register key value timestamp node_id) = 4 + 8 + length key + length value

unfoldable pub encode : CrdtOperation → List ℕ
encode (update_position node_id position timestamp) =
    1 ∷ (le_bytes 4 node_id ++ (le_bytes 8 timestamp ++ encode_position position))
encode (update_health node_id status timestamp) =
    2 ∷ (le_bytes 4 node_id ++ (le_bytes 8 timestamp ++ encode_health status))
encode (increment_counter counter_id node_id amount) =
    3 ∷ counter_id ∷ (le_bytes 4 node_id ++ le_bytes 8 amount)
encode (update_register key value timestamp node_id) =
    4
    ∷ (le_bytes 4 node_id
        ++ (le_bytes 8 timestamp
            ++ ((length key % u8_mod) ∷ (key ++ (le_bytes 2 (length value % u16_mod) ++ value)))))

-- The cases of `decode`, one for each tag.
unfoldable pub decode_update_position : List ℕ → Option CrdtOperation
decode_update_position bytes =
    if ltb (length bytes) 13 then none else elim (decode_position (drop 13 bytes)) [
      | none ↦ none
      | some position ↦ some (
          update_position (from_le_bytes (slice bytes 1 5)) position
            (from_le_bytes (slice bytes 5 13)))
    ]

unfoldable pub decode_update_health : List ℕ → Option CrdtOperation
decode_update_health bytes =
    if ltb (length bytes) 13 then none else elim (decode_health (drop 13 bytes)) [
      | none ↦ none
      | some status ↦ some (
          update_health (from_le_bytes (slice bytes 1 5)) status (from_le_bytes (slice bytes 5 13)))
    ]

unfoldable pub decode_increment_counter : List ℕ → Option CrdtOperation
decode_increment_counter bytes =
    if ltb (length bytes) 14
    then none
    else some (
        increment_counter (get_or bytes 1 0) (from_le_bytes (slice bytes 2 6))
          (from_le_bytes (slice bytes 6 14)))

unfoldable pub decode_update_register : List ℕ → Option CrdtOperation
decode_update_register bytes =
    let key_len : ℕ = get_or bytes 13 0 in
    let key : List ℕ = slice bytes 14 (14 + key_len) in
    let value_len : ℕ = from_le_bytes (slice bytes (14 + key_len) (16 + key_len)) in
    let value : List ℕ = slice bytes (16 + key_len) (16 + key_len + value_len) in
    if ltb (length bytes) 14
    then none
    else if ltb (length bytes) (14 + key_len + 2)
    then none
    else if not (is_utf8 key)
    then none
    else if ltb (length bytes) (16 + key_len + value_len)
    then none
    else some (
        update_register key value (from_le_bytes (slice bytes 5 13))
          (from_le_bytes (slice bytes 1 5)))

unfoldable pub decode : List ℕ → Option CrdtOperation
decode bytes =
    let tag : ℕ = get_or bytes 0 0 in
    if tag == 1
    then decode_update_position bytes
    else if tag == 2
    then decode_update_health bytes
    else if tag == 3
    then decode_increment_counter bytes
    else if tag == 4
    then decode_update_register bytes
    else none
