-- ===== src/Sync/Clock.antt =====
-- src/sync/delta.rs: `VectorClock`. The `HashMap` is an association list.
use peat_btle.Prelude.{
  ℕ, zero, suc, ◌+◌, ◌*◌, ◌%◌, Bool, true, false, not, ◌&&◌, Option, none, some, List, [], ◌∷◌,
  ◌++◌, max, ltb, if◌then◌else◌, length, slice, ℕ_discrete,
}
use peat_btle.Prelude.Bytes.{u32_mod, u64_mod, le_bytes, from_le_bytes}
use peat_btle.Prelude.Assoc
use peat_btle.Prelude.Assoc.{insert}

pub record VectorClock : Type 0 where
  pub clocks : List (ℕ × ℕ)

abbrev pub or_zero : Option ℕ → ℕ
or_zero none = 0
or_zero (some n) = n

unfoldable pub new : VectorClock
new = record { clocks = [] }

-- `clocks.get(&node).copied().unwrap_or(0)`
unfoldable pub count_of : ℕ → List (ℕ × ℕ) → ℕ
count_of node_id clocks = or_zero (Assoc.get ℕ_discrete node_id clocks)

unfoldable pub get : VectorClock → ℕ → ℕ
unfolding count_of
get c node_id = count_of node_id c.clocks

-- The addition wraps, as it does in a release build. The new value is returned too.
unfoldable pub increment : VectorClock → ℕ → VectorClock × ℕ
increment c node_id =
    let clock = (count_of node_id c.clocks + 1) % u64_mod in
    (record { clocks = insert ℕ_discrete node_id clock c.clocks }, clock)

-- `entry(node).or_insert(0)`, raised to `value`.
unfoldable pub raise : ℕ → ℕ → List (ℕ × ℕ) → List (ℕ × ℕ)
raise node_id value clocks = insert ℕ_discrete node_id (max (count_of node_id clocks) value) clocks

unfoldable pub update : VectorClock → ℕ → ℕ → VectorClock
update c node_id value = record { clocks = raise node_id value c.clocks }

-- The loop of `merge`.
unfoldable pub raise_all : List (ℕ × ℕ) → List (ℕ × ℕ) → List (ℕ × ℕ)
raise_all ours [] = ours
raise_all ours ((k, v) ∷ theirs) = raise_all (raise k v ours) theirs

unfoldable pub merge : VectorClock → VectorClock → VectorClock
merge c other = record { clocks = raise_all c.clocks other.clocks }

-- The first loop of `happens_before`: `none` is `return false`, else the flag `dominated`.
unfoldable pub all_le : List (ℕ × ℕ) → List (ℕ × ℕ) → Bool → Option Bool
all_le [] theirs dominated = some dominated
all_le ((k, v) ∷ ours) theirs dominated =
    let their_val = count_of k theirs in
    let rest = all_le ours theirs (if ltb v their_val then true else dominated) in
    if ltb their_val v then none else rest

-- Its second loop.
unfoldable pub any_new : List (ℕ × ℕ) → List (ℕ × ℕ) → Bool → Bool
any_new ours [] dominated = dominated
any_new ours ((k, v) ∷ theirs) dominated = any_new ours theirs (elim (Assoc.get ℕ_discrete k ours) [
  | none ↦ if ltb 0 v then true else dominated
  | some _ ↦ dominated
])

unfoldable pub happens_before : VectorClock → VectorClock → Bool
happens_before c other = elim (all_le c.clocks other.clocks false) [
  | none ↦ false
  | some dominated ↦ any_new c.clocks other.clocks dominated
]

unfoldable pub concurrent_with : VectorClock → VectorClock → Bool
concurrent_with c other = not (happens_before c other) && not (happens_before other c)

unfoldable pub encode_entries : List (ℕ × ℕ) → List ℕ
encode_entries [] = []
encode_entries ((k, v) ∷ m) = le_bytes 4 k ++ (le_bytes 8 v ++ encode_entries m)

unfoldable pub encode : VectorClock → List ℕ
encode c = le_bytes 4 (length c.clocks % u32_mod) ++ encode_entries c.clocks

-- The loop of `decode`, with `n` rounds to go.
unfoldable pub decode_entries : ℕ → List ℕ → ℕ → List (ℕ × ℕ) → List (ℕ × ℕ)
decode_entries zero bytes offset clocks = clocks
decode_entries (suc n) bytes offset clocks =
    let node_id = from_le_bytes (slice bytes (offset + 0) (offset + 4)) in
    let value = from_le_bytes (slice bytes (offset + 4) (offset + 12)) in
    decode_entries n bytes (offset + 12) (insert ℕ_discrete node_id value clocks)

unfoldable pub decode : List ℕ → Option VectorClock
decode bytes =
    let count = from_le_bytes (slice bytes 0 4) in
    if ltb (length bytes) 4
    then none
    else if ltb (length bytes) (4 + count * 12)
    then none
    else some (record { clocks = decode_entries count bytes 4 [] })
