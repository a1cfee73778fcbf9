-- ===== src/Sync/Tests.antt =====
-- Runs of the synchronization at concrete inputs.
use peat_btle.Prelude.{
  ℕ, suc, ◌≤◌, ◌≡◌, ◌≢◌, refl, true, false, Option, none, some, List, [], ◌∷◌, ◌⊎◌, inl, inr, ◌↔◌,
  concat, length, map, arith, get_elem?, ◌+◌, ℕ_discrete, ◌<◌, ◌++◌,
}
use peat_btle.Prelude.Assoc
use peat_btle.Sync.Clock
use peat_btle.Sync.Clock.{VectorClock, update, merge, happens_before, concurrent_with}
use peat_btle.Sync.Merge.{IsValid, IsSeenBy, merge_lem}
use peat_btle.Sync.Causality.{happens_before_lem}
use peat_btle.Crdt.Operation.{CrdtOperation, update_health, update_register, increment_counter}
use peat_btle.Sync.Delta
use peat_btle.Sync.Delta.{
  PeerSyncState, DeltaEncoder, new_encoder, new_state, add_peer, filter_for_peer, mark_sent,
  reset_peer, get_peer_state, record_sent, record_received, stats, operation_key_timestamp, hex,
  decimal,
}
use peat_btle.Sync.Resend.{IsAscending, filter-mark_sent, increments_dropped}
use peat_btle.Sync.Chunk
use peat_btle.Sync.Chunk.{SyncChunk, ChunkHeader, ChunkReassembler, process, chunk_data}
use peat_btle.Sync.Received.{IsPartOf}
use peat_btle.Sync.Delivery.{delivered, delivered-chunk_data}
use peat_btle.Sync.Transfer.{CompletedBy, process_lem}

abbrev left_clock : VectorClock
left_clock = record { clocks = (1, 2) ∷ ((2, 1) ∷ []) }

abbrev right_clock : VectorClock
right_clock = record { clocks = (2, 5) ∷ ((3, 4) ∷ []) }

abbrev merged_clock : VectorClock
merged_clock = record { clocks = (1, 2) ∷ ((2, 5) ∷ ((3, 4) ∷ [])) }

merge_lem_example :
    IsValid (merge left_clock right_clock)
    × (IsSeenBy left_clock (merge left_clock right_clock)
        × IsSeenBy right_clock (merge left_clock right_clock))
    × (IsSeenBy (merge left_clock right_clock) merged_clock
        ↔ IsSeenBy left_clock merged_clock × IsSeenBy right_clock merged_clock)
unfolding Assoc.get ℕ_discrete
merge_lem_example =
    merge_lem left_clock right_clock merged_clock (refl, (refl, tt)) (refl, (refl, tt))

happens_before_lem_example :
    (happens_before left_clock merged_clock ≡ true)
    ↔ IsSeenBy left_clock merged_clock × (¬ IsSeenBy merged_clock left_clock)
unfolding Assoc.get ℕ_discrete
happens_before_lem_example =
    happens_before_lem left_clock merged_clock (refl, (refl, tt)) (refl, (refl, (refl, tt)))

-- Clocks that each count something the other does not are concurrent.
clocks_concurrent : concurrent_with left_clock right_clock ≡ true
unfolding concurrent_with happens_before Clock.all_le Clock.any_new Clock.count_of Assoc.get
    ℕ_discrete
clocks_concurrent = refl

clock_merged : merge left_clock right_clock ≡ merged_clock
unfolding merge Clock.raise_all Clock.raise Clock.count_of Assoc.get Assoc.insert ℕ_discrete
clock_merged = refl

abbrev health : ℕ → CrdtOperation
health t =
    update_health 7 (record { battery_percent = 80; heart_rate = none; activity = 1; alerts = 0 }) t

abbrev two_healths : List CrdtOperation
two_healths = health 100 ∷ (health 200 ∷ [])

abbrev two_peers : DeltaEncoder
two_peers = record {
  node_id = 1;
  peers = (2, new_state) ∷ ((3, new_state) ∷ []);
  current_state = [];
}

peers_added : add_peer 3 (add_peer 2 (new_encoder 1)) ≡ two_peers
unfolding add_peer new_encoder Assoc.get Assoc.insert ℕ_discrete
peers_added = refl

peer_known : get_peer_state 2 two_peers ≡ some new_state
unfolding get_peer_state Assoc.get ℕ_discrete
peer_known = refl

-- `reg:k:000000FF`
health_key : (operation_key_timestamp (update_register (107 ∷ []) [] 9 255)).0 ≡ (
    114
    ∷ (101
        ∷ (103 ∷ (58 ∷ (107 ∷ (58 ∷ (48 ∷ (48 ∷ (48 ∷ (48 ∷ (48 ∷ (48 ∷ (70 ∷ (70 ∷ []))))))))))))))
unfolding operation_key_timestamp hex Delta.hex_digit
health_key = refl

healths-IsAscending : IsAscending two_healths
unfolding operation_key_timestamp
healths-IsAscending = ((λ e. omega arith, tt), (tt, tt))

filter-mark_sent_example :
    (filter_for_peer 2 two_healths (mark_sent 2 two_healths two_peers) ≡ [])
    × (filter_for_peer 3 two_healths (mark_sent 2 two_healths two_peers)
        ≡ filter_for_peer 3 two_healths two_peers)
filter-mark_sent_example =
    filter-mark_sent 2 3 two_healths two_healths two_peers new_state peer_known healths-IsAscending
      (λ e. omega arith)

increments_dropped_example :
    filter_for_peer 2
      (map (increment_counter 4 7) (1 ∷ (10 ∷ [])))
      (mark_sent 2 (two_healths ++ (increment_counter 4 7 5 ∷ [])) two_peers)
    ≡ []
increments_dropped_example =
    increments_dropped 2 4 7 5 two_healths [] (1 ∷ (10 ∷ [])) two_peers new_state peer_known

abbrev pieces_of_5 : List (List ℕ)
pieces_of_5 = (1 ∷ (2 ∷ [])) ∷ ((3 ∷ (4 ∷ [])) ∷ ((5 ∷ []) ∷ []))

abbrev chunk_of_5 : ℕ → List ℕ → SyncChunk
chunk_of_5 i bytes = record {
  header = record { message_id = 9; chunk_index = i; total_chunks = 3 };
  payload = bytes;
}

chunked :
    chunk_data (1 ∷ (2 ∷ (3 ∷ (4 ∷ (5 ∷ []))))) 10 9
    ≡ chunk_of_5 0 (1 ∷ (2 ∷ [])) ∷ (chunk_of_5 1 (3 ∷ (4 ∷ [])) ∷ (chunk_of_5 2 (5 ∷ []) ∷ []))
unfolding chunk_data Chunk.or_empty_chunk Chunk.number_pieces peat_btle.Prelude.Chunks.chunks
chunked = refl

-- The first two chunks have arrived, the second one first.
abbrev two_arrived : ChunkReassembler
two_arrived = record {
  partials =
      (
        9,
        record {
          expected = 3;
          received = (1, 3 ∷ (4 ∷ [])) ∷ ((0, 1 ∷ (2 ∷ [])) ∷ []);
          started_at = 50;
        },
      )
      ∷ [];
  max_partials = 8;
  partial_timeout_ms = 30000;
}

two_arrived-IsPartOf : IsPartOf pieces_of_5 9 two_arrived
unfolding Assoc.get ℕ_discrete
two_arrived-IsPartOf = ((refl, tt), (refl, ((refl, (refl, tt)), λ j v e. stored j v e)))
  where
    stored :
        (j : ℕ) (v : List ℕ)
        → Assoc.get ℕ_discrete j ((1, 3 ∷ (4 ∷ [])) ∷ ((0, 1 ∷ (2 ∷ [])) ∷ [])) ≡ some v
        → get_elem? pieces_of_5 j ≡ some v
    stored j v e = elim (ℕ_discrete 1 j) [
      | yes p ↦ ground (arith, e)
      | no p ↦ elim (ℕ_discrete 0 j) [
        | yes q ↦ ground (arith, e)
        | no q ↦ absurd (ground (arith, e))
      ]
    ]

process_lem_example :
    IsPartOf pieces_of_5 9 (process (chunk_of_5 2 (5 ∷ [])) 60 two_arrived).1
    × (((process (chunk_of_5 2 (5 ∷ [])) 60 two_arrived).0 ≡ none)
        ⊎ ((process (chunk_of_5 2 (5 ∷ [])) 60 two_arrived).0 ≡ some (concat pieces_of_5)))
    × (((process (chunk_of_5 2 (5 ∷ [])) 60 two_arrived).0 ≡ some (concat pieces_of_5))
        ↔ CompletedBy 3 (chunk_of_5 2 (5 ∷ [])) two_arrived)
process_lem_example =
    process_lem pieces_of_5 (chunk_of_5 2 (5 ∷ [])) 60 two_arrived (omega arith) refl refl
      two_arrived-IsPartOf

abbrev five_bytes : List ℕ
five_bytes = 1 ∷ 2 ∷ 3 ∷ 4 ∷ 5 ∷ []

delivered-chunk_data_example :
    delivered (λ i. 1000 + i) 0 (chunk_data five_bytes 10 9) Chunk.new ≡ five_bytes ∷ []
unfolding Chunk.new Assoc.get
delivered-chunk_data_example =
    delivered-chunk_data (λ i. 1000 + i) five_bytes 10 9
      (record { partials = []; max_partials = 8; partial_timeout_ms = 30000 }) (omega arith)
      (omega arith) (tt, refl)
