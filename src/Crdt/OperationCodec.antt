-- ===== src/Crdt/OperationCodec.antt =====
-- The wire format of operations (src/sync/crdt.rs, `CrdtOperation::encode` and `decode`).
use peat_btle.Prelude.{
  ℕ, ◌+◌, ◌%◌, ◌≤◌, ◌<◌, ◌≡◌, refl, ap, ◌∙◌, Bool, true, Option, none, some, List, ◌++◌, length,
  get_or, slice, drop, take, arith, length-append, take-append_left, drop-append_skip, slice_at,
  drop_at, take_of_length-le,
}
use peat_btle.Prelude.Bytes.{
  u8_mod, u16_mod, u32_mod, u64_mod, le_bytes, from_le_bytes, from_le_bytes-le_bytes,
}
use peat_btle.Crdt.Operation.{
  CrdtOperation, update_position, update_health, increment_counter, update_register, is_utf8,
  encode, decode, decode_update_position, decode_update_health, decode_increment_counter,
  decode_update_register,
}
use peat_btle.Crdt.Reports.{
  Position, HealthStatus, latitude_ok, longitude_ok, altitude_ok, accuracy_ok, encode_position,
  decode_position, read_field, read_accuracy, encode_health, decode_health,
}

-- An optional word that passes a test.
abbrev pub Passes : (ℕ → Bool) → Option ℕ → Type 0
Passes ok none = Unit
Passes ok (some x) = (ok x ≡ true) × (x < u32_mod)

-- What `decode` asks of a position, and the sizes of its fields.
pub record ValidPosition (p : Position) : Type 0 where
  pub latitude_passes : latitude_ok p.latitude ≡ true
  pub latitude_word : p.latitude < u32_mod
  pub longitude_passes : longitude_ok p.longitude ≡ true
  pub longitude_word : p.longitude < u32_mod
  pub altitude_passes : Passes altitude_ok p.altitude
  pub accuracy_passes : Passes accuracy_ok p.accuracy

abbrev pub ValidRate : Option ℕ → Type 0
ValidRate none = Unit
ValidRate (some x) = (20 ≤ x) × (x ≤ 250)

pub record ValidHealth (s : HealthStatus) : Type 0 where
  pub battery : s.battery_percent ≤ 100
  pub known_activity : s.activity ≤ 3
  pub rate : ValidRate s.heart_rate

health_bytes :
    (battery activity alerts : ℕ) (rate : Option ℕ)
    → battery ≤ 100
    → activity ≤ 3
    → ValidRate rate
    → decode_health (
        encode_health (record {
          battery_percent = battery;
          heart_rate = rate;
          activity = activity;
          alerts = alerts;
        }))
      ≡ some (record {
        battery_percent = battery;
        heart_rate = rate;
        activity = activity;
        alerts = alerts;
      })
unfolding decode_health encode_health
health_bytes battery activity alerts none b a h = ground arith
health_bytes battery activity alerts (some x) b a h = ground arith

position_bytes :
    (latitude longitude : ℕ) (altitude accuracy : Option ℕ)
    → let p : Position = record {
      latitude = latitude;
      longitude = longitude;
      altitude = altitude;
      accuracy = accuracy;
    } in
      ValidPosition p → decode_position (encode_position p) ≡ some p
unfolding decode_position encode_position read_accuracy read_field
position_bytes lat lon none none v = ground (
  arith,
  from_le_bytes-le_bytes 4 lat v.latitude_word,
  from_le_bytes-le_bytes 4 lon v.longitude_word,
)
position_bytes lat lon (some x) none v = ground (
  arith,
  from_le_bytes-le_bytes 4 lat v.latitude_word,
  from_le_bytes-le_bytes 4 lon v.longitude_word,
  from_le_bytes-le_bytes 4 x v.altitude_passes.1,
)
position_bytes lat lon none (some y) v = ground (
  arith,
  from_le_bytes-le_bytes 4 lat v.latitude_word,
  from_le_bytes-le_bytes 4 lon v.longitude_word,
  from_le_bytes-le_bytes 4 y v.accuracy_passes.1,
)
position_bytes lat lon (some x) (some y) v = ground (
  arith,
  from_le_bytes-le_bytes 4 lat v.latitude_word,
  from_le_bytes-le_bytes 4 lon v.longitude_word,
  from_le_bytes-le_bytes 4 x v.altitude_passes.1,
  from_le_bytes-le_bytes 4 y v.accuracy_passes.1,
)

-- What `decode` asks of an operation, and the sizes of its fields.
abbrev pub IsValid : CrdtOperation → Type 0
IsValid (update_position node_id position timestamp) =
    (node_id < u32_mod) × (timestamp < u64_mod) × ValidPosition position
IsValid (update_health node_id status timestamp) =
    (node_id < u32_mod) × (timestamp < u64_mod) × ValidHealth status
IsValid (increment_counter counter_id node_id amount) = (node_id < u32_mod) × (amount < u64_mod)
IsValid (update_register key value timestamp node_id) =
    (node_id < u32_mod)
    × (timestamp < u64_mod)
    × (is_utf8 key ≡ true)
    × (length key < u8_mod)
    × (length value < u16_mod)

-- A buffer that holds a key of known length behind 14 bytes, and a value behind that.
module _ (bytes key lead value : List ℕ) (two : length lead ≡ 2)
    (at : drop 14 bytes ≡ key ++ (lead ++ value)) where
  slice_eq : (i i' j j' : ℕ) → i ≡ i' → j ≡ j' → slice bytes i j ≡ slice bytes i' j'
  slice_eq i i' j j' e f = ap (λ k. slice bytes k j) e ∙ ap (slice bytes i') f

  key_at : slice bytes 14 (14 + length key) ≡ key
  key_at =
      slice_eq 14 (14 + 0) (14 + length key) (14 + length key) refl refl
      ∙ (slice_at bytes (key ++ (lead ++ value)) 14 0 (length key) at
          ∙ (ap (λ n. take n (key ++ (lead ++ value))) {y = length key} (omega arith)
              ∙ take-append_left (length key) key (lead ++ value) refl))

  drop-key : drop (14 + length key) bytes ≡ lead ++ value
  drop-key =
      drop_at bytes (key ++ (lead ++ value)) 14 (length key) at
      ∙ (ap (λ n. drop n (key ++ (lead ++ value))) {y = length key + 0} (omega arith)
          ∙ drop-append_skip (length key) 0 key (lead ++ value) refl)

  lead_at : slice bytes (14 + length key) (16 + length key) ≡ lead
  lead_at =
      slice_eq (14 + length key) (14 + length key + 0) (16 + length key) (14 + length key + 2)
        (omega arith) (omega arith)
      ∙ (slice_at bytes (lead ++ value) (14 + length key) 0 2 drop-key
          ∙ take-append_left 2 lead value two)

  drop-lead : drop (16 + length key) bytes ≡ value
  drop-lead =
      ap (λ n. drop n bytes) {y = 14 + length key + 2} (omega arith)
      ∙ (drop_at bytes (lead ++ value) (14 + length key) 2 drop-key
          ∙ drop-append_skip 2 0 lead value two)

  value_at : slice bytes (16 + length key) (16 + length key + length value) ≡ value
  value_at =
      slice_eq (16 + length key) (16 + length key + 0) (16 + length key + length value)
        (16 + length key + length value) (omega arith) refl
      ∙ (slice_at bytes value (16 + length key) 0 (length value) drop-lead
          ∙ (ap (λ n. take n value) {y = length value} (omega arith)
              ∙ take_of_length-le (length value) value (omega arith)))

-- The fields of a register's bytes.
read_register :
    (bytes key value : List ℕ) (timestamp node_id : ℕ)
    → get_or bytes 13 0 ≡ length key
    → slice bytes 14 (14 + length key) ≡ key
    → is_utf8 key ≡ true
    → from_le_bytes (slice bytes (14 + length key) (16 + length key)) ≡ length value
    → slice bytes (16 + length key) (16 + length key + length value) ≡ value
    → from_le_bytes (slice bytes 5 13) ≡ timestamp
    → from_le_bytes (slice bytes 1 5) ≡ node_id
    → length bytes ≡ 16 + length key + length value
    → decode_update_register bytes ≡ some (update_register key value timestamp node_id)
unfolding decode_update_register
read_register bytes key value timestamp node_id a b c d e f g h = ground arith

register_bytes :
    (key value : List ℕ) (timestamp node_id : ℕ)
    → IsValid (update_register key value timestamp node_id)
    → decode_update_register (encode (update_register key value timestamp node_id))
      ≡ some (update_register key value timestamp node_id)
unfolding encode
register_bytes key value timestamp node_id v =
    let bytes : List ℕ = encode (update_register key value timestamp node_id) in
    let lead : List ℕ = le_bytes 2 (length value % u16_mod) in
    let words : length value % u16_mod ≡ length value = omega arith in
    read_register bytes key value timestamp node_id (omega arith)
      (key_at bytes key lead value refl refl) v.2
      (ap from_le_bytes (lead_at bytes key lead value refl refl)
        ∙ (from_le_bytes-le_bytes 2 (length value % u16_mod) (omega arith) ∙ words))
      (value_at bytes key lead value refl refl) (from_le_bytes-le_bytes 8 timestamp v.1)
      (from_le_bytes-le_bytes 4 node_id v.0) (omega (arith, length-append key (lead ++ value)))

-- A valid operation is read back from its bytes: a position in range, a plausible health status, a
-- register whose key is UTF-8 and shorter than 256 bytes and whose value is shorter than 65,536.
pub decode_operation : (op : CrdtOperation) → IsValid op → decode (encode op) ≡ some op
unfolding decode encode decode_update_position decode_update_health decode_increment_counter
decode_operation (update_position n p t) v = ground (
  arith,
  position_bytes p.latitude p.longitude p.altitude p.accuracy v.2,
  from_le_bytes-le_bytes 4 n v.0,
  from_le_bytes-le_bytes 8 t v.1,
)
decode_operation (update_health n s t) v = ground (
  arith,
  health_bytes s.battery_percent s.activity s.alerts s.heart_rate v.2.battery v.2.known_activity
      v.2.rate,
  from_le_bytes-le_bytes 4 n v.0,
  from_le_bytes-le_bytes 8 t v.1,
)
decode_operation (increment_counter c n a) v =
    ground (arith, from_le_bytes-le_bytes 4 n v.0, from_le_bytes-le_bytes 8 a v.1)
decode_operation (update_register k v t n) w = register_bytes k v t n w
