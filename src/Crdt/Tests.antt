-- ===== src/Crdt/Tests.antt =====
-- The replicated data on concrete inputs.
use peat_btle.Prelude.{
  ℕ, ◌+◌, ◌<◌, ◌≡◌, ◌≢◌, refl, true, false, some, List, [], ◌∷◌, ◌++◌, ◌⊎◌, inl, ◌↔◌, arith, zero,
  suc,
}
use peat_btle.Prelude.Sorted
use peat_btle.Prelude.Sorted.{IsSorted, Above}
use peat_btle.Crdt.Operation
use peat_btle.Crdt.Operation.{CrdtOperation, update_health}
use peat_btle.Crdt.OperationCodec.{decode_operation}
use peat_btle.Crdt.Lww
use peat_btle.Crdt.Lww.{LwwRegister}
use peat_btle.Crdt.GCounter
use peat_btle.Crdt.GCounter.{GCounter, node_count, increment, InRange}
use peat_btle.Crdt.Counting
use peat_btle.Crdt.Emergency
use peat_btle.Crdt.Emergency.{EmergencyEvent, has_acked, ack, add_peer}
use peat_btle.Crdt.Convergence.{
  merge_converges, merge_diverges, Exchange, left_merges, right_merges, left_acks, right_acks,
  exchange, acks_left, acks_right, ack_all,
}
use peat_btle.Crdt.AckCodec

abbrev old_register : LwwRegister ℕ
old_register = record { value = 7; timestamp = 100; node_id = 1 }

abbrev new_register : LwwRegister ℕ
new_register = record { value = 9; timestamp = 100; node_id = 2 }

merge_semilattice_example :
    ((Lww.merge old_register old_register).0 ≡ old_register)
    × ((Lww.merge (Lww.merge old_register new_register).0 old_register).0
        ≡ (Lww.merge old_register (Lww.merge new_register old_register).0).0)
    × ((Lww.merge old_register new_register).0 ≡ (Lww.merge new_register old_register).0)
    × (((Lww.merge old_register new_register).1 ≡ true)
        ↔ ((100 < 100) ⊎ ((old_register.timestamp ≡ 100) × (1 < 2))))
    × (Lww.set old_register 9 100 2 ≡ Lww.merge old_register new_register)
merge_semilattice_example =
    Lww.merge_semilattice old_register new_register old_register (λ t n. absurd (omega arith))

abbrev counter_a : GCounter
counter_a = record { counts = (1, 5) ∷ (4, 2) ∷ [] }

abbrev counter_b : GCounter
counter_b = record { counts = (1, 3) ∷ (2, 8) ∷ [] }

counter_merge :
    GCounter.merge counter_a counter_b ≡ record { counts = (1, 5) ∷ (2, 8) ∷ (4, 2) ∷ [] }
unfolding GCounter.merge Sorted.merge_entries Sorted.insert Sorted.get
counter_merge = refl

merge_replicas_example :
    (GCounter.merge counter_a counter_a ≡ counter_a)
    × (GCounter.merge counter_a counter_b ≡ GCounter.merge counter_b counter_a)
    × (GCounter.merge (GCounter.merge counter_a counter_b) counter_b
        ≡ GCounter.merge counter_a (GCounter.merge counter_b counter_b))
    × IsSorted (GCounter.merge counter_a counter_b).counts
merge_replicas_example =
    Counting.merge_replicas counter_a counter_b counter_b (omega arith) (omega arith) (omega arith)

counter_a-IsValid : GCounter.IsValid counter_a
counter_a-IsValid = omega arith

-- A counter of `n` nodes.
abbrev many : ℕ → ℕ → List (ℕ × ℕ)
many zero k = []
many (suc n) k = (k, 1) ∷ many n (k + 1)

abbrev event_a : EmergencyEvent
event_a = record {
  source_node = 5;
  timestamp = 1700000000000;
  acks = (2, true) ∷ (5, true) ∷ (9, false) ∷ [];
}

abbrev event_b : EmergencyEvent
event_b = record event_a { acks = (5, true) ∷ (9, true) ∷ [] }

abbrev event_c : EmergencyEvent
event_c = record event_a { source_node = 6 }

merge_converges_example :
    ((Emergency.merge event_a event_b).0 ≡ (Emergency.merge event_b event_a).0)
    × ((Emergency.merge event_a event_a).0 ≡ event_a)
merge_converges_example = merge_converges event_a event_b (omega arith) (omega arith) (inl refl)

abbrev exchanges : List Exchange
exchanges = left_merges ∷ right_acks 9 ∷ left_merges ∷ right_merges ∷ left_acks 4 ∷ []

merge_diverges_example :
    (exchange exchanges (event_a, event_c)
      ≡ (ack_all (acks_left exchanges) event_a, ack_all (acks_right exchanges) event_c))
    × ((exchange exchanges (event_a, event_c)).0.source_node
        ≢ (exchange exchanges (event_a, event_c)).1.source_node)
merge_diverges_example = merge_diverges exchanges event_a event_c (omega arith) refl

event_a-IsValid : AckCodec.IsValid event_a
event_a-IsValid = omega arith

decode_emergency_example : Emergency.decode (Emergency.encode event_a ++ (1 ∷ [])) ≡ some event_a
decode_emergency_example = AckCodec.decode_emergency event_a (1 ∷ []) event_a-IsValid

abbrev health_update : CrdtOperation
health_update =
    update_health 7
      (record { battery_percent = 80; heart_rate = some 72; activity = 1; alerts = 0 }) 100

decode_operation_example : Operation.decode (Operation.encode health_update) ≡ some health_update
decode_operation_example = decode_operation health_update (
  omega arith,
  omega arith,
  record { battery = omega arith; known_activity = omega arith; rate = (omega arith, omega arith) },
)
