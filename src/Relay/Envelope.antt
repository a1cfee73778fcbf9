-- ===== src/Relay/Envelope.antt =====
-- src/relay.rs: message ids, relay flags and the relay envelope, with its wire format.
use peat_btle.Prelude.{
  ℕ, zero, suc, ◌+◌, ◌-◌, ◌*◌, ◌/◌, ◌%◌, ◌^◌, ◌<◌, ◌≡◌, Bool, true, false, not, Option, none, some,
  List, [], ◌∷◌, ◌++◌, ltb, ◌==◌, if◌then◌else◌, length, get_or, slice,
}
use peat_btle.Prelude.Bytes.{u32_mod, u64_mod, le_bytes, from_le_bytes}
use Prim.Native.Nat.{bit_and, bit_or}

-- `NodeId`, a 32-bit number.
abbrev pub NodeId : Type 0
NodeId = ℕ

-- `MessageId`, 16 bytes.
abbrev pub MessageId : Type 0
MessageId = List ℕ

abbrev pub relay_envelope_marker : ℕ
relay_envelope_marker = 0xB1

abbrev pub default_max_hops : ℕ
default_max_hops = 7

-- The bytes that the loop of `MessageId::new` writes: `n` rounds from `seed`.
unfoldable pub lcg_bytes : ℕ → ℕ → List ℕ
lcg_bytes zero seed = []
lcg_bytes (suc n) seed =
    let seed' = (seed * 6364136223846793005 + 1) % u64_mod in
    (seed' / 2 ^ 32) % 256 ∷ lcg_bytes n seed'

-- `MessageId::new`; `now` is the clock's reading in nanoseconds.
unfoldable pub fresh_message_id : ℕ → MessageId
unfolding lcg_bytes
fresh_message_id now = le_bytes 8 now ++ lcg_bytes 8 (now % u64_mod)

-- `MessageId::from_content`
unfoldable pub from_content : NodeId → ℕ → ℕ → MessageId
from_content origin timestamp_ms payload_hash =
    le_bytes 4 origin ++ (le_bytes 8 timestamp_ms ++ le_bytes 4 payload_hash)

pub record RelayFlags : Type 0 where
  pub requires_ack : Bool
  pub is_broadcast : Bool

unfoldable pub to_byte : RelayFlags → ℕ
to_byte f =
    let flags = if f.requires_ack then bit_or 0 0x01 else 0 in
    if f.is_broadcast then bit_or flags 0x02 else flags

unfoldable pub from_byte : ℕ → RelayFlags
from_byte byte = record {
  requires_ack = not (bit_and byte 0x01 == 0);
  is_broadcast = not (bit_and byte 0x02 == 0);
}

pub record RelayEnvelope : Type 0 where
  pub message_id : MessageId
  pub hop_count : ℕ
  pub max_hops : ℕ
  pub origin_node : NodeId
  pub flags : RelayFlags
  pub payload : List ℕ

-- `RelayEnvelope::new`
unfoldable pub new : ℕ → NodeId → List ℕ → RelayEnvelope
new now origin_node payload = record {
  message_id = fresh_message_id now;
  hop_count = 0;
  max_hops = default_max_hops;
  origin_node = origin_node;
  flags = record { requires_ack = false; is_broadcast = false };
  payload = payload;
}

-- `RelayEnvelope::broadcast`
unfoldable pub broadcast : ℕ → NodeId → List ℕ → RelayEnvelope
broadcast now origin_node payload = record {
  message_id = fresh_message_id now;
  hop_count = 0;
  max_hops = default_max_hops;
  origin_node = origin_node;
  flags = record { requires_ack = false; is_broadcast = true };
  payload = payload;
}

unfoldable pub with_max_hops : RelayEnvelope → ℕ → RelayEnvelope
with_max_hops e max_hops = record e { max_hops = max_hops }

unfoldable pub can_relay : RelayEnvelope → Bool
can_relay e = ltb e.hop_count e.max_hops

-- `self.max_hops.saturating_sub(self.hop_count)`
unfoldable pub remaining_hops : RelayEnvelope → ℕ
remaining_hops e = e.max_hops - e.hop_count

unfoldable pub relay : RelayEnvelope → Option RelayEnvelope
unfolding can_relay
relay e = if not (can_relay e) then none else some (record e { hop_count = e.hop_count + 1 })

unfoldable pub encode : RelayEnvelope → List ℕ
encode e =
    relay_envelope_marker
    ∷ to_byte e.flags
    ∷ (e.message_id
        ++ (e.hop_count
            ∷ e.max_hops
            ∷ (le_bytes 4 e.origin_node ++ (le_bytes 4 (length e.payload % u32_mod) ++ e.payload))))

-- An index is read only behind the check of the length, so the default of `get_or` is never used.
unfoldable pub decode : List ℕ → Option RelayEnvelope
decode bytes =
    if ltb (length bytes) 28
    then none
    else if not (get_or bytes 0 0 == relay_envelope_marker)
    then none
    else let payload_len = from_le_bytes (slice bytes 24 28) in
      if ltb (length bytes) (28 + payload_len)
      then none
      else some (record {
        message_id = slice bytes 2 18;
        hop_count = get_or bytes 18 0;
        max_hops = get_or bytes 19 0;
        origin_node = from_le_bytes (slice bytes 20 24);
        flags = from_byte (get_or bytes 1 0);
        payload = slice bytes 28 (28 + payload_len);
      })

unfoldable pub is_relay_envelope : List ℕ → Bool
is_relay_envelope [] = false
is_relay_envelope (b ∷ bytes) = b == relay_envelope_marker

-- The values that the fields can hold in the program.
pub record IsWf (e : RelayEnvelope) : Type 0 where
  pub id_size : length e.message_id ≡ 16
  pub hop_byte : e.hop_count < 256
  pub max_byte : e.max_hops < 256
  pub origin_word : e.origin_node < u32_mod
  pub payload_size : length e.payload < u32_mod
