-- ===== src/Power/Queue.antt =====
-- src/power/scheduler.rs: `PendingSync` and the searches in the queue, a list with its front first.
-- The addition of times wraps, as in a release build.
use peat_btle.Prelude.{
  ℕ, ◌+◌, ◌%◌, Bool, true, false, ◌||◌, Option, none, some, List, [], ◌∷◌, min, max, ltb, ◌==◌,
  if◌then◌else◌,
}
use peat_btle.Prelude.Bytes.{u64_mod}

pub data SyncPriority : Type 0 where
  low : SyncPriority
  normal : SyncPriority
  high : SyncPriority
  critical : SyncPriority

-- The discriminants, by which the derived order compares.
abbrev pub rank : SyncPriority → ℕ
rank low = 0
rank normal = 1
rank high = 2
rank critical = 3

pub record PendingSync : Type 0 where
  pub peer_id : ℕ
  pub priority : SyncPriority
  pub data_size : ℕ
  pub queued_at : ℕ
  pub max_age_ms : ℕ

unfoldable pub max_age : SyncPriority → ℕ
max_age low = 60000
max_age normal = 30000
max_age high = 10000
max_age critical = 5000

unfoldable pub new_sync : ℕ → SyncPriority → ℕ → ℕ → PendingSync
new_sync peer_id priority data_size queued_at = record {
  peer_id = peer_id;
  priority = priority;
  data_size = data_size;
  queued_at = queued_at;
  max_age_ms = max_age priority;
}

unfoldable pub is_expired : ℕ → PendingSync → Bool
is_expired current_time s = ltb ((s.queued_at + s.max_age_ms) % u64_mod) current_time

-- `iter().map(|s| s.priority).min()` and `.max()`, as discriminants.
unfoldable pub min_rank : List PendingSync → Option ℕ
min_rank [] = none
min_rank (s ∷ ss) = elim (min_rank ss) [
  | none ↦ some (rank s.priority)
  | some least ↦ some (min (rank s.priority) least)
]

unfoldable pub max_rank : List PendingSync → Option ℕ
max_rank [] = none
max_rank (s ∷ ss) = elim (max_rank ss) [
  | none ↦ some (rank s.priority)
  | some most ↦ some (max (rank s.priority) most)
]

-- `position(|s| s.priority == …)` and `remove` of it: the first one, and the queue without it.
unfoldable pub take_first : ℕ → List PendingSync → Option (PendingSync × List PendingSync)
take_first wanted [] = none
take_first wanted (s ∷ ss) =
    let rest = take_first wanted ss in
    if rank s.priority == wanted
    then some (s, ss)
    else elim rest [ none ↦ none | some (found, left) ↦ some (found, s ∷ left) ]

abbrev pub or_critical : Option ℕ → ℕ
or_critical none = 3
or_critical (some least) = least

unfoldable pub has_critical : List PendingSync → Bool
has_critical [] = false
has_critical (s ∷ ss) = (rank s.priority == 3) || has_critical ss

abbrev pub is_empty : List PendingSync → Bool
is_empty [] = true
is_empty (s ∷ ss) = false

-- `retain(|s| !s.is_expired(current_time))`
unfoldable pub retain_live : ℕ → List PendingSync → List PendingSync
retain_live current_time [] = []
retain_live current_time (s ∷ ss) =
    let rest = retain_live current_time ss in if is_expired current_time s then rest else s ∷ rest
