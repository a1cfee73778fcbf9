-- ===== src/Crdt/Lww.antt =====
-- src/sync/crdt.rs: `LwwRegister`.
use peat_btle.Prelude.{
  ℕ, ◌<◌, ◌≡◌, Bool, true, false, ◌&&◌, ◌||◌, arith, ltb, ◌==◌, if◌then◌else◌, ◌⊎◌, ◌↔◌,
}

pub record LwwRegister {ℓ} (T : Type ℓ) : Type ℓ where
  pub value : T
  pub timestamp : ℕ
  pub node_id : ℕ

module _ {ℓ} {T : Type ℓ} where
  unfoldable pub new : T → ℕ → ℕ → LwwRegister T
  new value timestamp node_id = record { value = value; timestamp = timestamp; node_id = node_id }

  abbrev pub should_update : LwwRegister T → ℕ → ℕ → Bool
  should_update r timestamp node_id =
      ltb r.timestamp timestamp || (timestamp == r.timestamp && ltb r.node_id node_id)

  -- The new register, and whether it was written.
  unfoldable pub set : LwwRegister T → T → ℕ → ℕ → LwwRegister T × Bool
  set r value timestamp node_id =
      if should_update r timestamp node_id
      then (record { value = value; timestamp = timestamp; node_id = node_id }, true)
      else (r, false)

  unfoldable pub merge : LwwRegister T → LwwRegister T → LwwRegister T × Bool
  merge r other =
      if should_update r other.timestamp other.node_id
      then (
        record { value = other.value; timestamp = other.timestamp; node_id = other.node_id },
        true,
      )
      else (r, false)

  -- Writes with one stamp (timestamp and node) carry one value.
  abbrev pub Agree : LwwRegister T → LwwRegister T → Type ℓ
  Agree a b = a.timestamp ≡ b.timestamp → a.node_id ≡ b.node_id → a.value ≡ b.value

  pub merge_assoc : (a b c : LwwRegister T) → (merge (merge a b).0 c).0 ≡ (merge a (merge b c).0).0
  unfolding merge
  merge_assoc a b c = ground arith

  -- Replicas of a register converge: merging is idempotent and associative, and commutative where
  -- the two registers hold one value if they have one stamp. A merge reports a change exactly if
  -- the other stamp is the higher one, and to `set` the register's parts does the same.
  pub merge_semilattice :
      (a b c : LwwRegister T)
      → Agree a b
      → ((merge a a).0 ≡ a)
        × ((merge (merge a b).0 c).0 ≡ (merge a (merge b c).0).0)
        × ((merge a b).0 ≡ (merge b a).0)
        × (((merge a b).1 ≡ true) ↔ (
            (a.timestamp < b.timestamp) ⊎ ((b.timestamp ≡ a.timestamp) × (a.node_id < b.node_id))))
        × (set a b.value b.timestamp b.node_id ≡ merge a b)
  unfolding merge set
  merge_semilattice a b c agree =
      (ground arith, merge_assoc a b c, ground arith, ground arith, ground arith)
