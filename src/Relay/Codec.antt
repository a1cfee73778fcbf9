-- ===== src/Relay/Codec.antt =====
-- The wire format of the relay envelope (src/relay.rs, `encode` and `decode`).
use peat_btle.Prelude.{
  ℕ, ◌+◌, ◌%◌, ◌<◌, ◌≡◌, refl, none, some, arith, ap, List, [], ◌∷◌, ◌++◌, length, get_or, slice,
  take, drop, length-append, length-take, take-append_left, drop-append_skip, get_or-append_skip,
  dec_lt, slice-take,
}
use peat_btle.Prelude.Bytes.{u32_mod, le_bytes, from_le_bytes, from_le_bytes-le_bytes}
use peat_btle.Relay.Envelope.{
  RelayEnvelope, RelayFlags, IsWf, to_byte, from_byte, encode, decode, relay_envelope_marker,
}
use mathlib.Core.List.{append_assoc, append-nil}

from_byte-to_byte : (f : RelayFlags) → from_byte (to_byte f) ≡ f
unfolding from_byte to_byte
from_byte-to_byte f = ground arith

-- The bytes behind the message id.
abbrev tail_of : RelayEnvelope → List ℕ → List ℕ
tail_of e rest =
    e.hop_count
    ∷ e.max_hops
    ∷ (le_bytes 4 e.origin_node ++ (le_bytes 4 (length e.payload % u32_mod) ++ (e.payload ++ rest)))

encode_layout :
    (e : RelayEnvelope) (rest : List ℕ)
    → encode e ++ rest ≡ relay_envelope_marker ∷ to_byte e.flags ∷ (e.message_id ++ tail_of e rest)
unfolding encode
encode_layout e rest = simp append_assoc

-- Reading such a buffer field by field.
module _ (id tail : List ℕ) (h : length id ≡ 16) where
  read_past : (m : ℕ) (d : ℕ) → get_or (id ++ tail) (16 + m) d ≡ get_or tail m d
  read_past m d = get_or-append_skip 16 m id tail d h

  cut_past : (m : ℕ) → drop (16 + m) (id ++ tail) ≡ drop m tail
  cut_past m = drop-append_skip 16 m id tail h

-- Whatever follows an encoded envelope, `decode` gives the envelope back.
pub decode-encode :
    (e : RelayEnvelope) (rest : List ℕ) → IsWf e → decode (encode e ++ rest) ≡ some e
unfolding decode
decode-encode e rest w =
    let id = e.message_id in
    let tail = tail_of e rest in
    let h = w.id_size in
    let len = from_le_bytes-le_bytes 4 (length e.payload) w.payload_size in
    let small : length e.payload % u32_mod ≡ length e.payload = omega arith in
    rw (encode_layout, small)
      (ground (
        arith,
        take-append_left 16 id tail h,
        read_past id tail h 0 0,
        read_past id tail h 1 0,
        cut_past id tail h 2,
        cut_past id tail h 6,
        cut_past id tail h 10,
        from_le_bytes-le_bytes 4 e.origin_node w.origin_word,
        len,
        length-append id tail,
        length-append e.payload rest,
        take-append_left (length e.payload) e.payload rest refl,
        from_byte-to_byte e.flags,
      ))

-- A buffer that is shorter than its own length field says is refused.
decode_short :
    (bytes : List ℕ) → length bytes < 28 + from_le_bytes (slice bytes 24 28) → decode bytes ≡ none
unfolding decode
decode_short bytes h = ground arith

length-encode : (e : RelayEnvelope) → IsWf e → length (encode e) ≡ 28 + length e.payload
unfolding encode
length-encode e w = omega (arith, w.id_size, length-append {0})

-- The length field of an encoded envelope.
field_of_encode :
    (e : RelayEnvelope) → IsWf e → from_le_bytes (slice (encode e) 24 28) ≡ length e.payload
field_of_encode e w =
    let small : length e.payload % u32_mod ≡ length e.payload = omega arith in
    rw (← append-nil (encode e), encode_layout e [], small)
      (ground (
        arith,
        cut_past e.message_id (tail_of e []) w.id_size 6,
        from_le_bytes-le_bytes 4 (length e.payload) w.payload_size,
      ))

-- An envelope of which any part is missing at the end is refused.
pub decode-take-encode :
    (e : RelayEnvelope) (n : ℕ) → IsWf e → n < length (encode e) → decode (take n (encode e)) ≡ none
decode-take-encode e n w h = decode_short (take n (encode e)) (elim (dec_lt n 28) [
  | yes p ↦ omega (arith, length-take n (encode e))
  | no p ↦ omega (
    arith,
    length-take n (encode e),
    length-encode e w,
    field_of_encode e w,
    ap from_le_bytes (slice-take n 24 28 (encode e) (omega arith)),
  )
])
