-- ===== src/Relay/Dedup.antt =====
-- Deduplication (src/relay.rs, `SeenMessageCache`): what `cleanup` and `mark_seen` do to the cache.
use peat_btle.Prelude.{
  ite, ℕ, ◌+◌, ◌-◌, ◌/◌, ◌≤◌, ◌<◌, ◌≡◌, refl, ap, true, false, not, none, some, List, arith, ltb,
  length, All, ◌∙◌, inl, inr, Option-cases,
}
use peat_btle.Prelude.Assoc.{
  get-insert, get, insert, retain, Distinct, keep_if, retain-Distinct, get-retain, insert-Distinct,
  length-insert, length-retain-le, get-insert_self,
}
use peat_btle.Relay.Envelope.{MessageId, NodeId}
use peat_btle.Relay.Seen.{
  SeenMessageCache, SeenEntry, id_dec, max_cache_size, is_live, cleanup, has_seen, periodic_cleanup,
  note_seen, mark_seen, len, evict,
}
use peat_btle.Relay.Eviction.{length-evict, evict-Distinct, evict_sound, evict_oldest-All}

-- A `HashMap` holds one entry per key.
abbrev pub IsValid : SeenMessageCache → Type 0
IsValid c = Distinct id_dec c.cache

-- The entries that the expiry test of `cleanup` keeps.
abbrev pub live : SeenMessageCache → ℕ → List (MessageId × SeenEntry)
live c now = retain (is_live c.ttl_ms now) c.cache

module _ (c : SeenMessageCache) (now : ℕ) (v : IsValid c) where
  live-Distinct : Distinct id_dec (live c now)
  live-Distinct = retain-Distinct id_dec (is_live c.ttl_ms now) c.cache v

  get-live :
      (k : MessageId)
      → get id_dec k (live c now) ≡ keep_if (is_live c.ttl_ms now) (get id_dec k c.cache)
  get-live k = get-retain id_dec (is_live c.ttl_ms now) k c.cache v

  pub cleanup-IsValid : IsValid (cleanup c now)
  unfolding cleanup
  cleanup-IsValid = ground (arith, live-Distinct, evict-Distinct (live c now) live-Distinct)

  -- After `cleanup` the cache holds at most the maximum number of entries, however many it held.
  pub len-cleanup-le : len (cleanup c now) ≤ max_cache_size
  unfolding cleanup
  len-cleanup-le = ground (arith, length-evict (live c now) live-Distinct)

  -- `cleanup` invents and alters nothing, and keeps nothing that has expired: an entry that is in
  -- the cache afterwards was there before, and is younger than the TTL.
  pub cleanup_sound :
      (k : MessageId) (e : SeenEntry)
      → get id_dec k (cleanup c now).cache ≡ some e
      → (get id_dec k c.cache ≡ some e) × (now - e.first_seen_ms < c.ttl_ms)
  unfolding cleanup
  cleanup_sound k e h = ground (arith, get-live k, evict_sound (live c now) live-Distinct k e)

  -- A cache with one entry per id. Where `cleanup` drops an unexpired entry, more than the maximum of
  -- them were in the cache, exactly half of the maximum are kept, and each entry that is kept is at least
  -- as young as the dropped one.
  pub cleanup_oldest :
      (j : MessageId) (dropped : SeenEntry)
      → get id_dec j c.cache ≡ some dropped
      → now - dropped.first_seen_ms < c.ttl_ms
      → get id_dec j (cleanup c now).cache ≡ none
      → (max_cache_size < length (live c now))
        × (len (cleanup c now) ≡ max_cache_size / 2)
        × All (λ kept. dropped.first_seen_ms ≤ kept.1.first_seen_ms) (cleanup c now).cache
  unfolding cleanup
  cleanup_oldest j dropped hj young gone =
      let gj = get-live j in
      let big : ltb max_cache_size (length (live c now)) ≡ true = ground arith in
      let evicted : (cleanup c now).cache ≡ evict (live c now) = rw (cleanup, big) refl in
      let lost : get id_dec j (evict (live c now)) ≡ none = rw (← evicted) gone in
      (
        ground arith,
        ap length evicted ∙ length-evict (live c now) live-Distinct (ground arith),
        rw evicted (evict_oldest-All (live c now) live-Distinct j dropped (ground arith) lost),
      )

  -- The clean-up that `mark_seen` may run keeps the map well formed.
  pub periodic_cleanup-IsValid : IsValid (periodic_cleanup c now)
  unfolding periodic_cleanup
  periodic_cleanup-IsValid = ground (arith, cleanup-IsValid)

  -- An unexpired entry outlives the clean-up of a cache that is not too large.
  periodic_cleanup_keeps :
      (k : MessageId) (e : SeenEntry)
      → get id_dec k c.cache ≡ some e
      → now - e.first_seen_ms < c.ttl_ms
      → len c ≤ max_cache_size
      → get id_dec k (periodic_cleanup c now).cache ≡ some e
  unfolding periodic_cleanup cleanup
  periodic_cleanup_keeps k e h young small =
      ground (arith, get-live k, length-retain-le (is_live c.ttl_ms now) c.cache)

  -- An expired entry does not outlive a clean-up.
  periodic_cleanup_drops :
      (k : MessageId) (e : SeenEntry)
      → get id_dec k c.cache ≡ some e
      → c.ttl_ms ≤ now - e.first_seen_ms
      → c.ttl_ms / 2 < now - c.last_cleanup_ms
      → get id_dec k (periodic_cleanup c now).cache ≡ none
  unfolding periodic_cleanup
  periodic_cleanup_drops k e h old due = elim (Option-cases (get id_dec k (cleanup c now).cache)) [
    | inl gone ↦ ground arith
    | inr (w, kept) ↦ absurd (ground (arith, cleanup_sound k w kept))
  ]

  ttl_ms-periodic_cleanup : (periodic_cleanup c now).ttl_ms ≡ c.ttl_ms
  unfolding periodic_cleanup cleanup
  ttl_ms-periodic_cleanup = ground arith

periodic_cleanup_skip :
    (c : SeenMessageCache) (now : ℕ)
    → now - c.last_cleanup_ms ≤ c.ttl_ms / 2
    → periodic_cleanup c now ≡ c
unfolding periodic_cleanup
periodic_cleanup_skip c now h = ground arith

module _ (c : SeenMessageCache) (id : MessageId) (origin : NodeId) (now : ℕ) where
  abbrev new_entry : SeenEntry
  new_entry = record { first_seen_ms = now; count = 1; origin = origin }

  note_seen_new :
      get id_dec id c.cache ≡ none
      → note_seen c id origin now ≡ (record c { cache = insert id_dec id new_entry c.cache }, true)
  unfolding note_seen
  note_seen_new h = rw (h, note_seen)

  note_seen_old :
      (e : SeenEntry) → get id_dec id c.cache ≡ some e → (note_seen c id origin now).1 ≡ false
  unfolding note_seen
  note_seen_old e h = rw (h, note_seen)

module _ (c : SeenMessageCache) (id : MessageId) (origin : NodeId) (now : ℕ) where
  -- `mark_seen` keeps one entry per message id.
  pub mark_seen-IsValid : IsValid c → IsValid (mark_seen c id origin now).0
  unfolding mark_seen note_seen
  mark_seen-IsValid v =
      let c' = periodic_cleanup c now in
      let v' = periodic_cleanup-IsValid c now v in
      elim (Option-cases (get id_dec id c'.cache)) [
        | inl new ↦ rw (new, note_seen) (insert-Distinct id_dec id _ c'.cache v')
        | inr (e, old) ↦ rw (old, note_seen) (insert-Distinct id_dec id _ c'.cache v')
      ]

  -- `mark_seen` answers "new" exactly for an id that its clean-up has left no entry of; afterwards
  -- that id counts as seen, and every other id counts as seen exactly if it did.
  pub mark_seen_lem :
      (j : MessageId)
      → let c' = periodic_cleanup c now in
        let (after, fresh) = mark_seen c id origin now in
        (fresh ≡ not (has_seen c' id)) × (has_seen after j ≡ ite (id_dec id j) true (has_seen c' j))
  unfolding mark_seen note_seen has_seen
  mark_seen_lem j = (ground arith, grind (arith, get-insert id_dec j id))

  -- A message that comes again within the TTL is a duplicate, unless a cache of more than the
  -- maximum number of entries had to be cut down in between.
  pub mark_seen_twice :
      (origin' : NodeId) (now' : ℕ)
      → IsValid c
      → get id_dec id (periodic_cleanup c now).cache ≡ none
      → now' - now < c.ttl_ms
      → len (mark_seen c id origin now).0 ≤ max_cache_size
      → (mark_seen (mark_seen c id origin now).0 id origin' now').1 ≡ false
  unfolding mark_seen
  mark_seen_twice origin' now' v fresh soon small =
      let c' = periodic_cleanup c now in
      let v' = mark_seen-IsValid v in
      let e = new_entry c id origin now in
      let first = note_seen_new c' id origin now fresh in
      let c1 = (mark_seen c id origin now).0 in
      let stored : get id_dec id c1.cache ≡ some e =
        rw first (get-insert_self id_dec id e c'.cache) in
      let ttl : c1.ttl_ms ≡ c.ttl_ms = rw first (ttl_ms-periodic_cleanup c now v) in
      note_seen_old (periodic_cleanup c1 now') id origin' now' e
        (periodic_cleanup_keeps c1 now' v' id e stored (omega arith) small)

  -- Once its entry has expired, a message is accepted anew at the next periodic clean-up.
  pub mark_seen_expired :
      (e : SeenEntry)
      → IsValid c
      → get id_dec id c.cache ≡ some e
      → c.ttl_ms ≤ now - e.first_seen_ms
      → c.ttl_ms / 2 < now - c.last_cleanup_ms
      → (mark_seen c id origin now).1 ≡ true
  unfolding mark_seen
  mark_seen_expired e v h old due =
      ap (λ r. r.1)
        (note_seen_new (periodic_cleanup c now) id origin now
          (periodic_cleanup_drops c now v id e h old due))

  -- Within half a TTL of the last clean-up each new message adds an entry, also where the cache
  -- already holds the maximum number or more.
  pub len-mark_seen :
      get id_dec id c.cache ≡ none
      → now - c.last_cleanup_ms ≤ c.ttl_ms / 2
      → len (mark_seen c id origin now).0 ≡ len c + 1
  unfolding mark_seen
  len-mark_seen h recent =
      rw (periodic_cleanup_skip c now recent, note_seen_new c id origin now h)
        (rw (length-insert id_dec id (new_entry c id origin now) c.cache, h) refl)
