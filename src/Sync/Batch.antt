-- ===== src/Sync/Batch.antt =====
-- src/sync/batch.rs: `OperationBatch` with its bytes and `BatchAccumulator`. Sizes in memory (`usize`)
-- are small enough not to wrap; sums of times wrap, as in a release build.
use peat_btle.Prelude.{
  ℕ, zero, suc, ◌+◌, ◌%◌, Bool, true, false, not, ◌&&◌, Option, none, some, List, [], ◌∷◌, ◌++◌,
  ltb, leb, if◌then◌else◌, length, slice,
}
use peat_btle.Prelude.Bytes.{u16_mod, u64_mod, le_bytes, from_le_bytes}
use peat_btle.Crdt.Operation
use peat_btle.Crdt.Operation.{CrdtOperation, size}

pub record BatchConfig : Type 0 where
  pub max_wait_ms : ℕ
  pub max_bytes : ℕ
  pub max_operations : ℕ
  pub min_interval_ms : ℕ

unfoldable pub default_batch : BatchConfig
default_batch = record {
  max_wait_ms = 5000;
  max_bytes = 512;
  max_operations = 20;
  min_interval_ms = 1000;
}

unfoldable pub low_power_batch : BatchConfig
low_power_batch = record {
  max_wait_ms = 30000;
  max_bytes = 1024;
  max_operations = 50;
  min_interval_ms = 10000;
}

unfoldable pub responsive_batch : BatchConfig
responsive_batch = record {
  max_wait_ms = 1000;
  max_bytes = 256;
  max_operations = 10;
  min_interval_ms = 500;
}

pub record OperationBatch : Type 0 where
  pub operations : List CrdtOperation
  pub total_bytes : ℕ
  pub created_at : ℕ

-- The loop of `encode`.
unfoldable pub encode_ops : List CrdtOperation → List ℕ
encode_ops [] = []
encode_ops (op ∷ ops) =
    le_bytes 2 (length (Operation.encode op) % u16_mod) ++ (Operation.encode op ++ encode_ops ops)

unfoldable pub encode : OperationBatch → List ℕ
encode b = le_bytes 2 (length b.operations % u16_mod) ++ encode_ops b.operations

-- The loop of `decode`, with `n` rounds to go: the operations and the sum of their sizes.
unfoldable pub decode_ops : ℕ → List ℕ → ℕ → ℕ → Option (List CrdtOperation × ℕ)
decode_ops zero bytes offset total = some ([], total)
decode_ops (suc n) bytes offset total =
    let op_len : ℕ = from_le_bytes (slice bytes (offset + 0) (offset + 2)) in
    if ltb (length bytes) (offset + 2)
    then none
    else if ltb (length bytes) (offset + 2 + op_len)
    then none
    else elim (Operation.decode (slice bytes (offset + 2) (offset + 2 + op_len))) [
      | none ↦ none
      | some op ↦ elim (decode_ops n bytes (offset + 2 + op_len) (total + size op)) [
        | none ↦ none
        | some (ops, sum) ↦ some (op ∷ ops, sum)
      ]
    ]

unfoldable pub decode : List ℕ → Option OperationBatch
decode bytes =
    if ltb (length bytes) 2
    then none
    else elim (decode_ops (from_le_bytes (slice bytes 0 2)) bytes 2 0) [
      | none ↦ none
      | some (ops, sum) ↦ some (record { operations = ops; total_bytes = sum; created_at = 0 })
    ]

pub record BatchAccumulator : Type 0 where
  pub config : BatchConfig
  pub pending : List CrdtOperation
  pub bytes_accumulated : ℕ
  pub first_pending_time : Option ℕ
  pub last_sync_time : ℕ

unfoldable pub new : BatchConfig → BatchAccumulator
new config = record {
  config = config;
  pending = [];
  bytes_accumulated = 0;
  first_pending_time = none;
  last_sync_time = 0;
}

abbrev pub is_empty : List CrdtOperation → Bool
is_empty [] = true
is_empty (op ∷ ops) = false

abbrev pub or_first : Option ℕ → ℕ → Option ℕ
or_first none t = some t
or_first (some first) t = some first

unfoldable pub add : CrdtOperation → ℕ → BatchAccumulator → Bool × BatchAccumulator
add op current_time_ms a =
    if ltb a.config.max_bytes (a.bytes_accumulated + size op) && not (is_empty a.pending)
    then (false, a)
    else if leb a.config.max_operations (length a.pending)
    then (false, a)
    else (
      true,
      record a {
        pending = a.pending ++ (op ∷ []);
        bytes_accumulated = a.bytes_accumulated + size op;
        first_pending_time = or_first a.first_pending_time current_time_ms;
      },
    )

-- The time limit of `should_flush`.
unfoldable pub waited : Option ℕ → ℕ → ℕ → Bool
waited none current_time_ms max_wait_ms = false
waited (some first) current_time_ms max_wait_ms =
    leb ((first + max_wait_ms) % u64_mod) current_time_ms

unfoldable pub should_flush : ℕ → BatchAccumulator → Bool
should_flush current_time_ms a =
    if is_empty a.pending
    then false
    else if ltb current_time_ms ((a.last_sync_time + a.config.min_interval_ms) % u64_mod)
    then false
    else if leb a.config.max_bytes a.bytes_accumulated
    then true
    else if leb a.config.max_operations (length a.pending)
    then true
    else waited a.first_pending_time current_time_ms a.config.max_wait_ms

unfoldable pub flush : ℕ → BatchAccumulator → Option OperationBatch × BatchAccumulator
flush current_time_ms a = if is_empty a.pending then (none, a) else (
  some (record {
    operations = a.pending;
    total_bytes = a.bytes_accumulated;
    created_at = current_time_ms;
  }),
  record a {
    pending = [];
    bytes_accumulated = 0;
    first_pending_time = none;
    last_sync_time = current_time_ms;
  },
)

unfoldable pub force_flush : ℕ → BatchAccumulator → Option OperationBatch × BatchAccumulator
force_flush current_time_ms a = flush current_time_ms a

unfoldable pub pending_count : BatchAccumulator → ℕ
pending_count a = length a.pending

unfoldable pub clear : BatchAccumulator → BatchAccumulator
clear a = record a { pending = []; bytes_accumulated = 0; first_pending_time = none }

unfoldable pub set_config : BatchConfig → BatchAccumulator → BatchAccumulator
set_config config a = record a { config = config }
