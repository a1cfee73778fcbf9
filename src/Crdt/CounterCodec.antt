-- ===== src/Crdt/CounterCodec.antt =====
-- The wire format of the counter (src/sync/crdt.rs, `GCounter::encode` and `GCounter::decode`).
use peat_btle.Prelude.{
  ℕ, ◌+◌, ◌*◌, ◌%◌, ◌≤◌, ◌<◌, ◌≡◌, refl, ap, none, some, List, [], ◌∷◌, ◌++◌, ◌==◌, false,
  if◌then◌else◌, length, slice, drop, length-append, slice_at, drop_at, arith, ◌∙◌,
}
use peat_btle.Prelude.Bytes.{u32_mod, le_bytes, from_le_bytes, from_le_bytes-le_bytes}
use peat_btle.Prelude.Sorted.{insert, insert_all, insert_all-nil}
use peat_btle.Crdt.GCounter.{
  GCounter, max_counter_entries, encode_entries, encode, decode_entries, decode, InRange, NonZero,
  IsValid,
}

length-encode_entries : (m : List (ℕ × ℕ)) → length (encode_entries m) ≡ length m * 12
unfolding encode_entries
length-encode_entries [] = refl
length-encode_entries ((k, v) ∷ m) = omega (arith, length-encode_entries m)

-- The loop reads back the entries that stand at its offset.
decode_entries-encode_entries :
    (m acc : List (ℕ × ℕ)) (bytes rest : List ℕ) (offset : ℕ)
    → InRange m
    → NonZero m
    → drop offset bytes ≡ encode_entries m ++ rest
    → decode_entries (length m) bytes offset acc ≡ insert_all acc m
unfolding decode_entries encode_entries insert_all
decode_entries-encode_entries [] acc bytes rest offset r z h = refl
decode_entries-encode_entries ((k, v) ∷ m) acc bytes rest offset r z h =
    let here = slice_at bytes (encode_entries ((k, v) ∷ m) ++ rest) offset in
    let key : from_le_bytes (slice bytes (offset + 0) (offset + 4)) ≡ k =
      ap from_le_bytes (here 0 4 h) ∙ from_le_bytes-le_bytes 4 k r.0 in
    let count : from_le_bytes (slice bytes (offset + 4) (offset + 12)) ≡ v =
      ap from_le_bytes (here 4 12 h) ∙ from_le_bytes-le_bytes 8 v r.1 in
    let nonzero : (k == 0) ≡ false = ground arith in
    let written : (if from_le_bytes (slice bytes (offset + 0) (offset + 4)) == 0
          then acc
          else insert (from_le_bytes (slice bytes (offset + 0) (offset + 4)))
              (from_le_bytes (slice bytes (offset + 4) (offset + 12))) acc)
        ≡ insert k v acc =
      rw (key, count, nonzero) in
    ap (decode_entries (length m) bytes (offset + 12)) written
    ∙ decode_entries-encode_entries m (insert k v acc) bytes rest (offset + 12) r.2 z.1
        (drop_at bytes (encode_entries ((k, v) ∷ m) ++ rest) offset 12 h)

module _ (c : GCounter) (rest : List ℕ) where
  layout :
      encode c ++ rest ≡ le_bytes 4 (length c.counts % u32_mod) ++ (encode_entries c.counts ++ rest)
  unfolding encode
  layout = refl

  entries_field : drop 4 (encode c ++ rest) ≡ encode_entries c.counts ++ rest
  entries_field = rw layout

  count_field :
      length c.counts < u32_mod → from_le_bytes (slice (encode c ++ rest) 0 4) ≡ length c.counts
  count_field small =
      let e : length c.counts % u32_mod ≡ length c.counts = omega arith in
      rw (layout, e) (from_le_bytes-le_bytes 4 (length c.counts) small)

  total_length : length (encode c ++ rest) ≡ 4 + length c.counts * 12 + length rest
  total_length =
      rw layout (
        omega (arith, length-append (encode_entries c.counts) rest, length-encode_entries c.counts))

  -- A counter of at most 256 nodes, none of them node 0, is read back from its encoding, whatever
  -- bytes follow.
  pub decode_counter :
      IsValid c
      → NonZero c.counts
      → length c.counts ≤ max_counter_entries
      → decode (encode c ++ rest) ≡ some c
  unfolding decode
  decode_counter v z small =
      let n = count_field (omega arith) in
      let loop =
        decode_entries-encode_entries c.counts [] (encode c ++ rest) rest 4 v.in_range z
          entries_field in
      ground (arith, n, total_length, loop, insert_all-nil c.counts v.sorted)

  -- A counter of more nodes is encoded all the same, and its encoding is refused by `decode`.
  pub decode_large_counter :
      length c.counts < u32_mod
      → max_counter_entries < length c.counts
      → decode (encode c ++ rest) ≡ none
  unfolding decode
  decode_large_counter small large = ground (arith, count_field small, total_length)
