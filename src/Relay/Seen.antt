-- ===== src/Relay/Seen.antt =====
-- src/relay.rs: `SeenMessageCache` of the std build. The `HashMap` is an association list; its
-- order is the order in which `iter` yields the entries.
use peat_btle.Prelude.{
  ℕ, ◌+◌, ◌-◌, ◌/◌, ◌%◌, Bool, true, false, Option, none, some, List, [], ltb, if◌then◌else◌,
  length, take, ℕ_discrete,
}
use peat_btle.Prelude.Bytes.{u32_mod}
use peat_btle.Prelude.Assoc.{get, insert, retain, keys}
use peat_btle.Prelude.SortBy.{sort_by_key, remove_all}
use peat_btle.Relay.Envelope.{MessageId, NodeId}

abbrev pub default_seen_ttl_ms : ℕ
default_seen_ttl_ms = 300000

abbrev pub max_cache_size : ℕ
max_cache_size = 1000

unfoldable pub id_dec : Discrete MessageId
unfolding ℕ_discrete
id_dec = hlevel ℕ_discrete

pub record SeenEntry : Type 0 where
  pub first_seen_ms : ℕ
  pub count : ℕ
  pub origin : NodeId

pub record SeenMessageCache : Type 0 where
  pub cache : List (MessageId × SeenEntry)
  pub ttl_ms : ℕ
  pub last_cleanup_ms : ℕ

unfoldable pub with_ttl : ℕ → SeenMessageCache
with_ttl ttl_ms = record { cache = []; ttl_ms = ttl_ms; last_cleanup_ms = 0 }

unfoldable pub new : SeenMessageCache
unfolding with_ttl
new = with_ttl default_seen_ttl_ms

unfoldable pub has_seen : SeenMessageCache → MessageId → Bool
has_seen c message_id = elim (get id_dec message_id c.cache) [ none ↦ false | some _ ↦ true ]

-- `now_ms.saturating_sub(entry.first_seen_ms) < self.ttl_ms`
abbrev pub is_live : ℕ → ℕ → SeenEntry → Bool
is_live ttl_ms now_ms e = ltb (now_ms - e.first_seen_ms) ttl_ms

-- The `if` of `cleanup`: the oldest entries are removed until half of the maximum is left.
unfoldable pub evict : List (MessageId × SeenEntry) → List (MessageId × SeenEntry)
evict m =
    let entries = sort_by_key (λ e. e.first_seen_ms) m in
    let to_remove = take (length m - max_cache_size / 2) entries in
    remove_all id_dec (keys to_remove) m

unfoldable pub cleanup : SeenMessageCache → ℕ → SeenMessageCache
cleanup c now_ms =
    let live = retain (is_live c.ttl_ms now_ms) c.cache in
    record c {
      cache = if ltb max_cache_size (length live) then evict live else live;
      last_cleanup_ms = now_ms;
    }

-- The first `if` of `mark_seen`.
unfoldable pub periodic_cleanup : SeenMessageCache → ℕ → SeenMessageCache
periodic_cleanup c now_ms =
    if ltb (c.ttl_ms / 2) (now_ms - c.last_cleanup_ms) then cleanup c now_ms else c

-- The rest of `mark_seen`.
unfoldable pub note_seen : SeenMessageCache → MessageId → NodeId → ℕ → SeenMessageCache × Bool
note_seen c message_id origin now_ms = elim (get id_dec message_id c.cache) [
  | some e ↦ (
    record c {
      cache = insert id_dec message_id (record e { count = (e.count + 1) % u32_mod }) c.cache;
    },
    false,
  )
  | none ↦ (
    record c {
      cache =
          insert id_dec message_id (record { first_seen_ms = now_ms; count = 1; origin = origin })
            c.cache;
    },
    true,
  )
]

unfoldable pub mark_seen : SeenMessageCache → MessageId → NodeId → ℕ → SeenMessageCache × Bool
mark_seen c message_id origin now_ms =
    note_seen (periodic_cleanup c now_ms) message_id origin now_ms

unfoldable pub check_and_mark : SeenMessageCache → MessageId → NodeId → ℕ → SeenMessageCache × Bool
check_and_mark = mark_seen

unfoldable pub clear : SeenMessageCache → SeenMessageCache
clear c = record c { cache = [] }

-- `len`, `is_empty`
abbrev pub len : SeenMessageCache → ℕ
len c = length c.cache

unfoldable pub get_stats : SeenMessageCache → MessageId → Option (ℕ × ℕ × NodeId)
get_stats c message_id = elim (get id_dec message_id c.cache) [
  | none ↦ none
  | some e ↦ some (e.first_seen_ms, e.count, e.origin)
]
