-- ===== src/Crdt/Counting.antt =====
-- Counting with replicas (src/sync/crdt.rs, `GCounter`).
use peat_btle.Prelude.{
  ℕ, ◌+◌, ◌-◌, ◌≤◌, ◌≡◌, ap, Option, max, min, ◌==◌, if◌then◌else◌, arith, sym, ◌∙◌,
}
use peat_btle.Prelude.Bytes.{u64_mod, sat_add}
use peat_btle.Prelude.Sorted.{
  get, opt_step, IsSorted, ext, get-insert, get-merge_entries, merge_entries-IsSorted,
}
use peat_btle.Crdt.GCounter.{GCounter, increment, node_count, merge, max_step, or_zero}

max_step_comm : (x y : Option ℕ) → opt_step max_step x y ≡ opt_step max_step y x
max_step_comm x y = ground arith

max_step_assoc :
    (x y z : Option ℕ)
    → opt_step max_step (opt_step max_step x y) z ≡ opt_step max_step x (opt_step max_step y z)
max_step_assoc x y z = ground arith

max_step_idem : (x : Option ℕ) → opt_step max_step x x ≡ x
max_step_idem x = ground arith

-- A map is equal to a counter's if each lookup is.
counts_ext :
    (a b : GCounter)
    → IsSorted a.counts
    → IsSorted b.counts
    → ((k : ℕ) → get k a.counts ≡ get k b.counts)
    → a ≡ b
counts_ext a b s t h = ap (λ m. record { counts = m }) (ext a.counts b.counts s t h)

merge-IsSorted : (a b : GCounter) → IsSorted a.counts → IsSorted (merge a b).counts
unfolding merge
merge-IsSorted a b s = merge_entries-IsSorted max_step a.counts b.counts s

get-merge :
    (k : ℕ) (a b : GCounter)
    → IsSorted b.counts
    → get k (merge a b).counts ≡ opt_step max_step (get k a.counts) (get k b.counts)
unfolding merge
get-merge k a b s = get-merge_entries max_step k a.counts b.counts s

module _ (a b c : GCounter) (sa : IsSorted a.counts) (sb : IsSorted b.counts)
    (sc : IsSorted c.counts) where
  merge_idem : merge a a ≡ a
  merge_idem =
      counts_ext (merge a a) a (merge-IsSorted a a sa) sa
        (λ k. get-merge k a a sa ∙ max_step_idem (get k a.counts))

  merge_comm : merge a b ≡ merge b a
  merge_comm =
      counts_ext (merge a b) (merge b a) (merge-IsSorted a b sa) (merge-IsSorted b a sb) (λ k.
        get-merge k a b sb
        ∙ max_step_comm (get k a.counts) (get k b.counts)
        ∙ sym (get-merge k b a sa))

  merge_assoc : merge (merge a b) c ≡ merge a (merge b c)
  merge_assoc =
      counts_ext (merge (merge a b) c) (merge a (merge b c))
        (merge-IsSorted (merge a b) c (merge-IsSorted a b sa)) (merge-IsSorted a (merge b c) sa)
        (λ k. ground (
          arith,
          get-merge k (merge a b) c sc,
          get-merge k a b sb,
          get-merge k a (merge b c) (merge-IsSorted b c sb),
          get-merge k b c sc,
          max_step_assoc (get k a.counts) (get k b.counts) (get k c.counts),
        ))

  -- Replicas of a counter converge: on counters whose map is in order, as a `BTreeMap` is, merging
  -- is idempotent, commutative and associative, and gives such a counter again.
  pub merge_replicas :
      (merge a a ≡ a)
      × (merge a b ≡ merge b a)
      × (merge (merge a b) c ≡ merge a (merge b c))
      × IsSorted (merge a b).counts
  merge_replicas = (merge_idem, merge_comm, merge_assoc, merge-IsSorted a b sa)

-- To merge is to take the higher count of each node, so that no replica's increments are lost or
-- counted twice: an increment of node `k` raises that node's count by the amount (up to the 64-bit
-- maximum) and leaves the count of every other node `j`; the merged counter shows at least the
-- raised count.
pub node_count-merge :
    (a b : GCounter) (k j amount : ℕ)
    → IsSorted b.counts
    → let raised = min (node_count a k + amount) (u64_mod - 1) in
      (node_count (merge a b) k ≡ max (node_count a k) (node_count b k))
      × (node_count (increment a k amount) j ≡ (if k == j then raised else node_count a j))
      × (raised ≤ node_count (merge (increment a k amount) b) k)
unfolding node_count increment
node_count-merge a b k j amount s =
    let total = sat_add u64_mod (or_zero (get k a.counts)) amount in
    (
      ground (arith, get-merge k a b s),
      ground (arith, get-insert j k total a.counts),
      ground (arith, get-insert k k total a.counts, get-merge k (increment a k amount) b s),
    )
