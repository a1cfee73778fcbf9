-- ===== src/Sync/BatchCodec.antt =====
-- The wire format of batches (src/sync/batch.rs, `OperationBatch::encode` and `decode`).
use peat_btle.Prelude.{
  ℕ, ◌+◌, ◌%◌, ◌<◌, ◌≡◌, refl, ap, ◌∙◌, some, List, [], ◌∷◌, ◌++◌, length, slice, drop, take, All,
  arith, false, ltb, length-append, slice_at, drop_at, take-append_left, drop-append_skip,
  length-drop, le→ltb,
}
use peat_btle.Prelude.Bytes.{
  u16_mod, le_bytes, from_le_bytes, from_le_bytes-le_bytes, length-le_bytes,
}
use peat_btle.Crdt.Operation
use peat_btle.Crdt.Operation.{CrdtOperation, size}
use peat_btle.Crdt.OperationCodec.{IsValid, decode_operation}
use peat_btle.Sync.Batch.{OperationBatch, encode_ops, encode, decode_ops, decode}

-- The sizes of operations, summed up.
abbrev pub total_size : List CrdtOperation → ℕ → ℕ
total_size [] total = total
total_size (op ∷ ops) total = total_size ops (total + size op)

-- An operation that can be decoded, with a length that fits in 16 bits.
abbrev pub Fits : CrdtOperation → Type 0
Fits op = IsValid op × (length (Operation.encode op) < u16_mod)

-- One operation and what follows it, at an offset.
module _ (op : CrdtOperation) (tail bytes : List ℕ) (offset : ℕ) (fits : Fits op)
    (at : drop offset bytes
      ≡ le_bytes 2 (length (Operation.encode op) % u16_mod) ++ (Operation.encode op ++ tail)) where
  len_at : from_le_bytes (slice bytes (offset + 0) (offset + 2)) ≡ length (Operation.encode op)
  len_at =
      let small : length (Operation.encode op) % u16_mod ≡ length (Operation.encode op) =
        omega arith in
      ap from_le_bytes (
        slice_at bytes
          (le_bytes 2 (length (Operation.encode op) % u16_mod) ++ (Operation.encode op ++ tail))
          offset 0 2 at)
      ∙ (from_le_bytes-le_bytes 2 (length (Operation.encode op) % u16_mod) (omega arith) ∙ small)

  body_at : drop (offset + 2) bytes ≡ Operation.encode op ++ tail
  body_at =
      drop_at bytes
        (le_bytes 2 (length (Operation.encode op) % u16_mod) ++ (Operation.encode op ++ tail))
        offset 2 at

  op_at : slice bytes (offset + 2) (offset + 2 + length (Operation.encode op)) ≡ Operation.encode op
  op_at =
      ap (λ k. slice bytes k (offset + 2 + length (Operation.encode op))) {y = offset + 2 + 0}
        (omega arith)
      ∙ (slice_at bytes (Operation.encode op ++ tail) (offset + 2) 0 (length (Operation.encode op))
            body_at
          ∙ (ap (λ n. take n (Operation.encode op ++ tail)) {y = length (Operation.encode op)}
                (omega arith)
              ∙ take-append_left (length (Operation.encode op)) (Operation.encode op) tail refl))

  tail_at : drop (offset + 2 + length (Operation.encode op)) bytes ≡ tail
  tail_at =
      drop_at bytes (Operation.encode op ++ tail) (offset + 2) (length (Operation.encode op))
        body_at
      ∙ (ap (λ n. drop n (Operation.encode op ++ tail)) {y = length (Operation.encode op) + 0}
            (omega arith)
          ∙ drop-append_skip (length (Operation.encode op)) 0 (Operation.encode op) tail refl)

  room : offset + 2 + length (Operation.encode op) + length tail ≡ length bytes
  room =
      let whole =
        ap length at
        ∙ length-append (le_bytes 2 (length (Operation.encode op) % u16_mod))
            (Operation.encode op ++ tail) in
      omega (
        arith,
        whole,
        length-drop offset bytes,
        length-append (Operation.encode op) tail,
        length-le_bytes 2 (length (Operation.encode op) % u16_mod),
      )

decode_ops-encode_ops :
    (ops : List CrdtOperation) (bytes : List ℕ) (offset total : ℕ)
    → All Fits ops
    → drop offset bytes ≡ encode_ops ops
    → decode_ops (length ops) bytes offset total ≡ some (ops, total_size ops total)
unfolding decode_ops encode_ops
decode_ops-encode_ops [] bytes offset total f at = refl
decode_ops-encode_ops (op ∷ ops) bytes offset total f at =
    let n : ℕ = length (Operation.encode op) in
    let enough = room op (encode_ops ops) bytes offset f.0 at in
    let no_length : ltb (length bytes) (offset + 2) ≡ false =
      le→ltb (length bytes) (offset + 2) (omega (arith, enough)) in
    let no_body : ltb (length bytes) (offset + 2 + n) ≡ false =
      le→ltb (length bytes) (offset + 2 + n) (omega (arith, enough)) in
    rw (
      len_at op (encode_ops ops) bytes offset f.0 at,
      no_length,
      no_body,
      op_at op (encode_ops ops) bytes offset f.0 at,
      decode_operation op (f.0).0,
      len_at op (encode_ops ops) bytes offset f.0 at,
      decode_ops-encode_ops ops bytes (offset + 2 + n) (total + size op) f.1
          (tail_at op (encode_ops ops) bytes offset f.0 at),
    )

-- A batch of fewer than 65,536 operations that can be decoded, each of which takes fewer than 65,536
-- bytes. Its encoding is decoded to the same operations in the same order, with the sum of their sizes
-- and the creation time 0.
pub decode_batch :
    (b : OperationBatch)
    → All Fits b.operations
    → length b.operations < u16_mod
    → decode (encode b)
      ≡ some (record {
        operations = b.operations;
        total_bytes = total_size b.operations 0;
        created_at = 0;
      })
unfolding decode encode
decode_batch b f few =
    let count : List ℕ = le_bytes 2 (length b.operations % u16_mod) in
    let body : List ℕ = encode_ops b.operations in
    let two : length count ≡ 2 = length-le_bytes 2 (length b.operations % u16_mod) in
    let small : length b.operations % u16_mod ≡ length b.operations = omega arith in
    let whole = length-append count body in
    let no_count : ltb (length (count ++ body)) 2 ≡ false =
      le→ltb (length (count ++ body)) 2 (omega (arith, whole, two)) in
    let count_at : from_le_bytes (slice (count ++ body) 0 2) ≡ length b.operations =
      ap from_le_bytes (take-append_left 2 count body two)
      ∙ (from_le_bytes-le_bytes 2 (length b.operations % u16_mod) (omega arith) ∙ small) in
    rw (
      no_count,
      count_at,
      decode_ops-encode_ops b.operations (count ++ body) 2 0 f
          (drop-append_skip 2 0 count body two),
    )
