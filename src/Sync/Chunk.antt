-- ===== src/Sync/Chunk.antt =====
-- src/sync/protocol.rs: `ChunkHeader`, `SyncChunk`, `ChunkReassembler` and `chunk_data`.
use peat_btle.Prelude.{
  ℕ, zero, suc, ◌+◌, ◌-◌, ◌%◌, Option, none, some, List, [], ◌∷◌, ◌++◌, max, ltb, ◌==◌,
  if◌then◌else◌, length, slice, drop, ℕ_discrete,
}
use peat_btle.Prelude.Bytes.{u16_mod, u64_mod, le_bytes, from_le_bytes}
use peat_btle.Prelude.Assoc
use peat_btle.Prelude.Assoc.{insert, remove, retain}
use peat_btle.Prelude.Chunks.{chunks, div_ceil}

abbrev pub chunk_header_size : ℕ
chunk_header_size = 8

pub record ChunkHeader : Type 0 where
  pub message_id : ℕ
  pub chunk_index : ℕ
  pub total_chunks : ℕ

unfoldable pub encode_header : ChunkHeader → List ℕ
encode_header h = le_bytes 4 h.message_id ++ (le_bytes 2 h.chunk_index ++ le_bytes 2 h.total_chunks)

unfoldable pub decode_header : List ℕ → Option ChunkHeader
decode_header bytes =
    if ltb (length bytes) chunk_header_size
    then none
    else some (record {
      message_id = from_le_bytes (slice bytes 0 4);
      chunk_index = from_le_bytes (slice bytes 4 6);
      total_chunks = from_le_bytes (slice bytes 6 8);
    })

pub record SyncChunk : Type 0 where
  pub header : ChunkHeader
  pub payload : List ℕ

unfoldable pub encode : SyncChunk → List ℕ
encode c = encode_header c.header ++ c.payload

unfoldable pub decode : List ℕ → Option SyncChunk
decode bytes = elim (decode_header bytes) [
  | none ↦ none
  | some h ↦ some (record { header = h; payload = drop chunk_header_size bytes })
]

unfoldable pub encoded_size : SyncChunk → ℕ
encoded_size c = chunk_header_size + length c.payload

pub record PartialMessage : Type 0 where
  pub expected : ℕ
  pub received : List (ℕ × List ℕ)
  pub started_at : ℕ

-- The field `max_partials` is never read by the code.
pub record ChunkReassembler : Type 0 where
  pub partials : List (ℕ × PartialMessage)
  pub max_partials : ℕ
  pub partial_timeout_ms : ℕ

unfoldable pub new : ChunkReassembler
new = record { partials = []; max_partials = 8; partial_timeout_ms = 30000 }

abbrev pub with_partials : List (ℕ × PartialMessage) → ChunkReassembler → ChunkReassembler
with_partials partials r = record {
  partials = partials;
  max_partials = r.max_partials;
  partial_timeout_ms = r.partial_timeout_ms;
}

-- `entry(msg_id).or_insert_with(…)`
abbrev pub or_started : ℕ → ℕ → Option PartialMessage → PartialMessage
or_started total current_time_ms none = record {
  expected = total;
  received = [];
  started_at = current_time_ms;
}
or_started total current_time_ms (some p) = p

-- The loop of `process`, from index `i` with `n` rounds to go.
unfoldable pub join : ℕ → ℕ → List (ℕ × List ℕ) → Option (List ℕ)
join zero i received = some []
join (suc n) i received =
    let rest = join n (suc i) received in
    elim (Assoc.get ℕ_discrete i received) [
      | none ↦ none
      | some bytes ↦ elim rest [ none ↦ none | some more ↦ some (bytes ++ more) ]
    ]

-- The message, if it is complete with this chunk, and the reassembler after it.
unfoldable pub process : SyncChunk → ℕ → ChunkReassembler → Option (List ℕ) × ChunkReassembler
process c current_time_ms r =
    let msg_id = c.header.message_id in
    let partial : PartialMessage =
      or_started c.header.total_chunks current_time_ms (Assoc.get ℕ_discrete msg_id r.partials) in
    let received : List (ℕ × List ℕ) =
      insert ℕ_discrete c.header.chunk_index c.payload partial.received in
    let updated : PartialMessage = record {
      expected = partial.expected;
      received = received;
      started_at = partial.started_at;
    } in
    if c.header.total_chunks == 1
    then (some c.payload, r)
    else if length received == partial.expected
    then (
      join partial.expected 0 received,
      with_partials (remove ℕ_discrete msg_id (insert ℕ_discrete msg_id updated r.partials)) r,
    )
    else (none, with_partials (insert ℕ_discrete msg_id updated r.partials) r)

-- The subtraction wraps, as it does in a release build.
unfoldable pub cleanup : ℕ → ChunkReassembler → ChunkReassembler
cleanup current_time_ms r =
    with_partials
      (retain (λ p. ltb ((current_time_ms + u64_mod - p.started_at) % u64_mod) r.partial_timeout_ms)
        r.partials)
      r

unfoldable pub pending_count : ChunkReassembler → ℕ
pending_count r = length r.partials

-- The loop of `chunk_data`, from index `i`.
unfoldable pub number_pieces : ℕ → ℕ → ℕ → List (List ℕ) → List SyncChunk
number_pieces message_id total i [] = []
number_pieces message_id total i (piece ∷ pieces) =
    record {
      header = record { message_id = message_id; chunk_index = i % u16_mod; total_chunks = total };
      payload = piece;
    }
    ∷ number_pieces message_id total (suc i) pieces

unfoldable pub or_empty_chunk : ℕ → List SyncChunk → List SyncChunk
or_empty_chunk message_id [] =
    record {
      header = record { message_id = message_id; chunk_index = 0; total_chunks = 1 };
      payload = [];
    }
    ∷ []
or_empty_chunk message_id (c ∷ cs) = c ∷ cs

unfoldable pub chunk_data : List ℕ → ℕ → ℕ → List SyncChunk
chunk_data bytes mtu message_id =
    let payload_size = mtu - chunk_header_size in
    let total = max (div_ceil (length bytes) payload_size) 1 % u16_mod in
    if payload_size == 0
    then []
    else or_empty_chunk message_id (number_pieces message_id total 0 (chunks bytes payload_size))
