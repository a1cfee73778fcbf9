-- ===== src/Relay/Eviction.antt =====
-- What `cleanup` leaves in the cache of seen messages (src/relay.rs).
use peat_btle.Prelude.{
  ℕ, zero, suc, ◌-◌, ◌/◌, ◌≤◌, ◌≡◌, refl, sym, ◌∙◌, none, some, List, [], ◌∷◌, arith, length, take,
  All, length-take,
}
use peat_btle.Prelude.Assoc.{get, keys, Distinct}
use peat_btle.Prelude.SortBy.{
  sort_by_key, remove_all-Distinct, get-remove_all, Within, length-remove_all, sort_by_key-ByAge,
  ByAge, length-sort_by_key, get-sort_by_key, sort_by_key-Distinct,
}
use peat_btle.Relay.Envelope.{MessageId}
use peat_btle.Relay.Seen.{SeenEntry, id_dec, max_cache_size, evict}

module _ {ℓ} {K V : Type ℓ} (dec : Discrete K) where
  get-take-none :
      (n : ℕ) (k : K) (m : List (K × V)) → get dec k m ≡ none → get dec k (take n m) ≡ none
  unfolding get
  get-take-none zero k m h = refl
  get-take-none (suc n) k [] h = refl
  get-take-none (suc n) k ((i, w) ∷ m) h = ground (arith, get-take-none n k m)

  take-Distinct : (n : ℕ) (m : List (K × V)) → Distinct dec m → Distinct dec (take n m)
  take-Distinct zero m d = tt
  take-Distinct (suc n) [] d = tt
  take-Distinct (suc n) ((i, w) ∷ m) d = (get-take-none n i m d.0, take-Distinct n m d.1)

  -- Entries of a map without double keys stand in every map with the same lookups.
  Within-get :
      (l m : List (K × V))
      → Distinct dec l
      → ((k : K) (v : V) → get dec k l ≡ some v → get dec k m ≡ some v)
      → Within dec l m
  unfolding get
  Within-get [] m d h = tt
  Within-get ((i, w) ∷ l) m d h =
      (h i w (ground arith), Within-get l m d.1 (λ k v e. h k v (ground (arith, d.0))))

  get-take :
      (n : ℕ) (k : K) (v : V) (m : List (K × V))
      → get dec k (take n m) ≡ some v
      → get dec k m ≡ some v
  unfolding get
  get-take zero k v m h = absurd (ground arith)
  get-take (suc n) k v [] h = h
  get-take (suc n) k v ((i, w) ∷ m) h = ground (arith, get-take n k v m)

  age-get :
      (age : V → ℕ) (n : ℕ) (k : K) (w : V) (m : List (K × V))
      → All (λ y. n ≤ age y.1) m
      → get dec k m ≡ some w
      → n ≤ age w
  unfolding get
  age-get age n k w [] a h = absurd (ground arith)
  age-get age n k w ((i, u) ∷ m) a h = ground (arith, age-get age n k w m a.1)

  -- In a list in order of age, what stands in a prefix is no younger than what does not.
  age-take :
      (age : V → ℕ) (n : ℕ) (j k : K) (v w : V) (m : List (K × V))
      → ByAge age m
      → get dec j (take n m) ≡ some v
      → get dec k (take n m) ≡ none
      → get dec k m ≡ some w
      → age v ≤ age w
  unfolding get
  age-take age zero j k v w m b hj hk hm = absurd (ground arith)
  age-take age (suc n) j k v w [] b hj hk hm = absurd (ground arith)
  age-take age (suc n) j k v w ((i, u) ∷ m) b hj hk hm =
      ground (arith, age-take age n j k v w m b.1, get-take n j v m, age-get age (age u) k w m b.0)

-- What holds of each value that is found holds of all entries of a map without double keys.
module _ {ℓ κ} {K V : Type ℓ} (dec : Discrete K) (P : V → Type κ) where
  All-get :
      (m : List (K × V))
      → Distinct dec m
      → ((k : K) (v : V) → get dec k m ≡ some v → P v)
      → All (λ e. P e.1) m
  unfolding get
  All-get [] d h = tt
  All-get ((i, w) ∷ m) d h =
      (h i w (ground arith), All-get m d.1 (λ k v e. h k v (ground (arith, d.0))))

abbrev age : SeenEntry → ℕ
age e = e.first_seen_ms

-- What `evict` removes.
abbrev removed : List (MessageId × SeenEntry) → List (MessageId × SeenEntry)
removed m = take (length m - max_cache_size / 2) (sort_by_key age m)

module _ (m : List (MessageId × SeenEntry)) (d : Distinct id_dec m) where
  removed-Distinct : Distinct id_dec (removed m)
  removed-Distinct = take-Distinct id_dec _ _ (sort_by_key-Distinct id_dec age m d)

  removed-get :
      (k : MessageId) (v : SeenEntry) → get id_dec k (removed m) ≡ some v → get id_dec k m ≡ some v
  removed-get k v e =
      sym (get-sort_by_key id_dec age k m d)
      ∙ get-take id_dec (length m - max_cache_size / 2) k v (sort_by_key age m) e

  -- Half of the maximum is left.
  pub length-evict : 500 ≤ length m → length (evict m) ≡ 500
  unfolding evict
  length-evict h = omega (
    arith,
    length-remove_all id_dec (removed m) m removed-Distinct
        (Within-get id_dec (removed m) m removed-Distinct removed-get),
    length-take (length m - max_cache_size / 2) (sort_by_key age m),
    length-sort_by_key age m,
  )

  pub evict-Distinct : Distinct id_dec (evict m)
  unfolding evict
  evict-Distinct = remove_all-Distinct id_dec (keys (removed m)) m d

  pub evict_sound :
      (k : MessageId) (w : SeenEntry) → get id_dec k (evict m) ≡ some w → get id_dec k m ≡ some w
  unfolding evict
  evict_sound k w h = ground (arith, get-remove_all id_dec k (removed m) m d)

  -- What is removed is no younger than what is kept.
  pub evict_oldest :
      (j k : MessageId) (v w : SeenEntry)
      → get id_dec j m ≡ some v
      → get id_dec j (evict m) ≡ none
      → get id_dec k (evict m) ≡ some w
      → v.first_seen_ms ≤ w.first_seen_ms
  unfolding evict
  evict_oldest j k v w hj gone kept = grind (
    arith,
    get-remove_all id_dec j (removed m) m d,
    get-remove_all id_dec k (removed m) m d,
    age-take id_dec age (length m - max_cache_size / 2) j k v w (sort_by_key age m)
        (sort_by_key-ByAge age m),
    get-sort_by_key id_dec age k m d,
    removed-get j,
  )

  pub evict_oldest-All :
      (j : MessageId) (v : SeenEntry)
      → get id_dec j m ≡ some v
      → get id_dec j (evict m) ≡ none
      → All (λ kept. v.first_seen_ms ≤ kept.1.first_seen_ms) (evict m)
  evict_oldest-All j v hj gone =
      All-get id_dec (λ w. v.first_seen_ms ≤ w.first_seen_ms) (evict m) evict-Distinct
        (λ k w kept. evict_oldest j k v w hj gone kept)
