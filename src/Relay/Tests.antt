-- ===== src/Relay/Tests.antt =====
-- The relay on concrete inputs.
use peat_btle.Prelude.{
  ℕ, zero, suc, ◌+◌, ◌≤◌, ◌<◌, ◌≡◌, refl, true, false, not, none, some, List, [], ◌∷◌, ◌++◌, arith,
  length, All, ℕ_discrete, leb, if◌then◌else◌, ite,
}
use peat_btle.Prelude.Assoc.{get, retain, remove, Distinct}
use peat_btle.Prelude.SortBy.{sort_by_key, remove_all}
use peat_btle.Relay.Envelope.{
  RelayEnvelope, IsWf, MessageId, encode, decode, to_byte, remaining_hops,
}
use peat_btle.Relay.Codec.{decode-encode}
use peat_btle.Relay.Hops.{relay_times, relay_times_lem}
use peat_btle.Relay.Seen.{
  SeenMessageCache, SeenEntry, id_dec, max_cache_size, evict, cleanup, has_seen, periodic_cleanup,
  mark_seen, len,
}
use peat_btle.Relay.Dedup.{IsValid, live, cleanup_oldest, mark_seen_lem}

abbrev id_a : MessageId
id_a = 1 ∷ 2 ∷ 3 ∷ 4 ∷ 5 ∷ 6 ∷ 7 ∷ 8 ∷ 9 ∷ 10 ∷ 11 ∷ 12 ∷ 13 ∷ 14 ∷ 15 ∷ 16 ∷ []

abbrev id_b : MessageId
id_b = 9 ∷ 2 ∷ 3 ∷ 4 ∷ 5 ∷ 6 ∷ 7 ∷ 8 ∷ 9 ∷ 10 ∷ 11 ∷ 12 ∷ 13 ∷ 14 ∷ 15 ∷ 16 ∷ []

abbrev envelope : RelayEnvelope
envelope = record {
  message_id = id_a;
  hop_count = 2;
  max_hops = 7;
  origin_node = 0x12345678;
  flags = record { requires_ack = true; is_broadcast = false };
  payload = 0xDE ∷ 0xAD ∷ [];
}

envelope-IsWf : IsWf envelope
envelope-IsWf = omega arith

envelope_bytes :
    encode envelope
    ≡ 0xB1 ∷ 1 ∷ (id_a ++ (2 ∷ 7 ∷ 0x78 ∷ 0x56 ∷ 0x34 ∷ 0x12 ∷ 2 ∷ 0 ∷ 0 ∷ 0 ∷ 0xDE ∷ 0xAD ∷ []))
unfolding encode to_byte
envelope_bytes = refl

decode-encode_example : decode (encode envelope ++ (0xFF ∷ [])) ≡ some envelope
decode-encode_example = decode-encode envelope (0xFF ∷ []) envelope-IsWf

relay_times_lem_example : relay_times 5 envelope ≡ (
    if leb 5 (remaining_hops envelope) then some (record envelope { hop_count = 2 + 5 }) else none)
relay_times_lem_example = relay_times_lem 5 envelope

abbrev entry_a : SeenEntry
entry_a = record { first_seen_ms = 1000; count = 1; origin = 5 }

abbrev one : SeenMessageCache
one = record { cache = (id_a, entry_a) ∷ []; ttl_ms = 10000; last_cleanup_ms = 0 }

one-IsValid : IsValid one
unfolding get
one-IsValid = (refl, tt)

mark_seen_lem_example :
    let c' = periodic_cleanup one 2000 in
    let (after, fresh) = mark_seen one id_b 7 2000 in
    (fresh ≡ not (has_seen c' id_b))
    × (has_seen after id_a ≡ ite (id_dec id_b id_a) true (has_seen c' id_a))
mark_seen_lem_example = mark_seen_lem one id_b 7 2000 id_a

-- A cache with `n` entries, the oldest first; each entry is one millisecond younger.
abbrev crowd : ℕ → ℕ → List (MessageId × SeenEntry)
crowd zero t = []
crowd (suc n) t = (t ∷ [], record { first_seen_ms = t; count = 1; origin = 1 }) ∷ crowd n (t + 1)

crowd_absent : (n t u : ℕ) → u < t → get id_dec (u ∷ []) (crowd n t) ≡ none
unfolding get
crowd_absent zero t u h = refl
crowd_absent (suc n) t u h = ground (arith, crowd_absent n (t + 1) u)

crowd-Distinct : (n t : ℕ) → Distinct id_dec (crowd n t)
crowd-Distinct zero t = tt
crowd-Distinct (suc n) t = (crowd_absent n (t + 1) t (omega arith), crowd-Distinct n (t + 1))

abbrev crowded : SeenMessageCache
crowded = record { cache = crowd 1001 0; ttl_ms = 300000; last_cleanup_ms = 0 }

cleanup_oldest_example :
    (max_cache_size < length (live crowded 2000))
    × (len (cleanup crowded 2000) ≡ 500)
    × All (λ kept. 3 ≤ kept.1.first_seen_ms) (cleanup crowded 2000).cache
unfolding get cleanup retain evict remove_all remove sort_by_key id_dec ℕ_discrete
cleanup_oldest_example =
    cleanup_oldest crowded 2000 (crowd-Distinct 1001 0) (3 ∷ [])
      (record { first_seen_ms = 3; count = 1; origin = 1 }) refl (omega arith) refl
