-- ===== src/Crdt/AckCodec.antt =====
-- The wire format of the emergency (src/sync/crdt.rs, `EmergencyEvent::encode` and `decode`).
use peat_btle.Prelude.{
  ℕ, ◌+◌, ◌*◌, ◌%◌, ◌≤◌, ◌<◌, ◌≡◌, refl, ap, Bool, not, some, List, [], ◌∷◌, ◌++◌, ◌==◌, false,
  if◌then◌else◌, length, slice, get_or, drop, length-append, slice_at, drop_at, get_at, arith, ◌∙◌,
}
use peat_btle.Prelude.Bytes.{u32_mod, u64_mod, from_le_bytes, from_le_bytes-le_bytes}
use peat_btle.Prelude.Sorted.{insert, IsSorted, insert_all, insert_all-nil}
use peat_btle.Crdt.Emergency.{
  EmergencyEvent, min_valid_timestamp, max_emergency_acks, encode_acks, encode, decode_acks, decode,
}

-- Every tracked id is a 32-bit number and not 0.
abbrev pub ValidIds : List (ℕ × Bool) → Type 0
ValidIds [] = Unit
ValidIds ((k, b) ∷ m) = (0 < k) × (k < u32_mod) × ValidIds m

-- What `decode` demands of an emergency, and what the types of the fields give.
pub record IsValid (e : EmergencyEvent) : Type 0 where
  pub sorted : IsSorted e.acks
  pub ids : ValidIds e.acks
  pub source_pos : 0 < e.source_node
  pub source_word : e.source_node < u32_mod
  pub recent : min_valid_timestamp ≤ e.timestamp
  pub time_word : e.timestamp < u64_mod
  pub few : length e.acks ≤ max_emergency_acks

length-encode_acks : (m : List (ℕ × Bool)) → length (encode_acks m) ≡ length m * 5
unfolding encode_acks
length-encode_acks [] = refl
length-encode_acks ((k, b) ∷ m) = omega (arith, length-encode_acks m)

decode_acks-encode_acks :
    (m acc : List (ℕ × Bool)) (bytes rest : List ℕ) (offset : ℕ)
    → ValidIds m
    → drop offset bytes ≡ encode_acks m ++ rest
    → decode_acks (length m) bytes offset acc ≡ insert_all acc m
unfolding decode_acks encode_acks insert_all
decode_acks-encode_acks [] acc bytes rest offset r h = refl
decode_acks-encode_acks ((k, b) ∷ m) acc bytes rest offset r h =
    let here = encode_acks ((k, b) ∷ m) ++ rest in
    let key : from_le_bytes (slice bytes (offset + 0) (offset + 4)) ≡ k =
      ap from_le_bytes (slice_at bytes here offset 0 4 h) ∙ from_le_bytes-le_bytes 4 k r.1 in
    let flag : not (get_or bytes (offset + 4) 0 == 0) ≡ b =
      ap (λ x. not (x == 0)) (get_at bytes here offset 4 0 h) ∙ ground arith in
    let nonzero : (k == 0) ≡ false = ground arith in
    let written : (if from_le_bytes (slice bytes (offset + 0) (offset + 4)) == 0
          then acc
          else insert (from_le_bytes (slice bytes (offset + 0) (offset + 4)))
              (not (get_or bytes (offset + 4) 0 == 0)) acc)
        ≡ insert k b acc =
      rw (key, flag, nonzero) in
    ap (decode_acks (length m) bytes (offset + 5)) written
    ∙ decode_acks-encode_acks m (insert k b acc) bytes rest (offset + 5) r.2
        (drop_at bytes here offset 5 h)

module _ (e : EmergencyEvent) (rest : List ℕ) (v : IsValid e) where
  -- An emergency that `decode` can accept is read back from its encoding, whatever bytes follow: a
  -- source that is not node 0, a time from 2020 on, at most 256 tracked nodes and no node 0 among
  -- them.
  pub decode_emergency : decode (encode e ++ rest) ≡ some e
  unfolding decode encode
  decode_emergency =
      let n : length e.acks % u32_mod ≡ length e.acks = omega arith in
      let bytes = encode e ++ rest in
      ground (
        arith,
        from_le_bytes-le_bytes 4 e.source_node v.source_word,
        from_le_bytes-le_bytes 8 e.timestamp v.time_word,
        from_le_bytes-le_bytes 4 (length e.acks) (omega arith),
        length-append (encode_acks e.acks) rest,
        length-encode_acks e.acks,
        decode_acks-encode_acks e.acks [] bytes rest 16 v.ids refl,
        insert_all-nil e.acks v.sorted,
        n,
      )
