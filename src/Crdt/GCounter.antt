-- ===== src/Crdt/GCounter.antt =====
-- src/sync/crdt.rs: `GCounter`. The `BTreeMap` is a list in ascending order of the node ids.
use peat_btle.Prelude.{
  ℕ, zero, suc, ◌+◌, ◌*◌, ◌%◌, ◌<◌, Option, none, some, List, [], ◌∷◌, ◌++◌, max, ltb, ◌==◌,
  if◌then◌else◌, length, slice,
}
use peat_btle.Prelude.Bytes.{u32_mod, u64_mod, sat_add, le_bytes, from_le_bytes}
use peat_btle.Prelude.Sorted.{get, insert, merge_entries, IsSorted}

abbrev pub max_counter_entries : ℕ
max_counter_entries = 256

pub record GCounter : Type 0 where
  pub counts : List (ℕ × ℕ)

-- `unwrap_or(0)`, and what `or_insert(0)` finds.
abbrev pub or_zero : Option ℕ → ℕ
or_zero none = 0
or_zero (some n) = n

unfoldable pub new : GCounter
new = record { counts = [] }

unfoldable pub sum_counts : List (ℕ × ℕ) → ℕ
sum_counts [] = 0
sum_counts ((k, v) ∷ m) = v + sum_counts m

-- The sum wraps, as it does in a release build.
unfoldable pub value : GCounter → ℕ
unfolding sum_counts
value c = sum_counts c.counts % u64_mod

unfoldable pub increment : GCounter → ℕ → ℕ → GCounter
increment c node_id amount = record {
  counts = insert node_id (sat_add u64_mod (or_zero (get node_id c.counts)) amount) c.counts;
}

unfoldable pub node_count : GCounter → ℕ → ℕ
node_count c node_id = or_zero (get node_id c.counts)

abbrev pub max_step : Option ℕ → ℕ → ℕ
max_step ours count = max (or_zero ours) count

unfoldable pub merge : GCounter → GCounter → GCounter
merge c other = record { counts = merge_entries max_step c.counts other.counts }

unfoldable pub node_count_total : GCounter → ℕ
node_count_total c = length c.counts

unfoldable pub encode_entries : List (ℕ × ℕ) → List ℕ
encode_entries [] = []
encode_entries ((k, v) ∷ m) = le_bytes 4 k ++ (le_bytes 8 v ++ encode_entries m)

unfoldable pub encode : GCounter → List ℕ
encode c = le_bytes 4 (length c.counts % u32_mod) ++ encode_entries c.counts

-- The loop of `decode`, with `n` rounds to go.
unfoldable pub decode_entries : ℕ → List ℕ → ℕ → List (ℕ × ℕ) → List (ℕ × ℕ)
decode_entries zero bytes offset counts = counts
decode_entries (suc n) bytes offset counts =
    let node_id = from_le_bytes (slice bytes (offset + 0) (offset + 4)) in
    let count = from_le_bytes (slice bytes (offset + 4) (offset + 12)) in
    decode_entries n bytes (offset + 12)
      (if node_id == 0 then counts else insert node_id count counts)

unfoldable pub decode : List ℕ → Option GCounter
decode bytes =
    let num_entries = from_le_bytes (slice bytes 0 4) in
    if ltb (length bytes) 4
    then none
    else if ltb max_counter_entries num_entries
    then none
    else if ltb (length bytes) (4 + num_entries * 12)
    then none
    else some (record { counts = decode_entries num_entries bytes 4 [] })

-- A `BTreeMap` yields its keys in order; the counts are 64-bit and the ids 32-bit numbers.
abbrev pub InRange : List (ℕ × ℕ) → Type 0
InRange [] = Unit
InRange ((k, v) ∷ m) = (k < u32_mod) × (v < u64_mod) × InRange m

abbrev pub NonZero : List (ℕ × ℕ) → Type 0
NonZero [] = Unit
NonZero ((k, v) ∷ m) = (0 < k) × NonZero m

pub record IsValid (c : GCounter) : Type 0 where
  pub sorted : IsSorted c.counts
  pub in_range : InRange c.counts
