-- ===== src/Sync/Merge.antt =====
-- Merging vector clocks (src/sync/delta.rs, `merge`).
use peat_btle.Prelude.{ℕ, ◌≤◌, ◌≡◌, List, [], ◌∷◌, max, ◌↔◌, ℕ_discrete, arith, ite}
use peat_btle.Prelude.Assoc
use peat_btle.Prelude.Assoc.{Distinct, insert, get-insert, insert-Distinct}
use peat_btle.Sync.Clock.{VectorClock, get, count_of, raise, raise_all, merge}

-- A `HashMap` holds one entry per node.
abbrev pub IsValid : VectorClock → Type 0
IsValid c = Distinct ℕ_discrete c.clocks

count_of-raise :
    (j k v : ℕ) (m : List (ℕ × ℕ))
    → count_of j (raise k v m) ≡ ite (ℕ_discrete k j) (max (count_of k m) v) (count_of j m)
unfolding count_of raise
count_of-raise j k v m = ground (arith, get-insert ℕ_discrete j k (max (count_of k m) v) m)

count_of-raise_all :
    (j : ℕ) (ours theirs : List (ℕ × ℕ))
    → Distinct ℕ_discrete theirs
    → count_of j (raise_all ours theirs) ≡ max (count_of j ours) (count_of j theirs)
unfolding raise_all count_of Assoc.get
count_of-raise_all j ours [] d = omega arith
count_of-raise_all j ours ((k, v) ∷ theirs) d =
    ground (arith, count_of-raise_all j (raise k v ours) theirs d.1, count_of-raise j k v ours)

raise_all-Distinct :
    (ours theirs : List (ℕ × ℕ))
    → Distinct ℕ_discrete ours
    → Distinct ℕ_discrete (raise_all ours theirs)
unfolding raise_all raise
raise_all-Distinct ours [] d = d
raise_all-Distinct ours ((k, v) ∷ theirs) d =
    raise_all-Distinct (raise k v ours) theirs
      (insert-Distinct ℕ_discrete k (max (count_of k ours) v) ours d)

count_of-merge :
    (j : ℕ) (c other : VectorClock)
    → IsValid other
    → get (merge c other) j ≡ max (get c j) (get other j)
unfolding merge get
count_of-merge j c other d = count_of-raise_all j c.clocks other.clocks d

-- All that one clock has counted, another has too.
abbrev pub IsSeenBy : VectorClock → VectorClock → Type 0
IsSeenBy c other = (j : ℕ) → get c j ≤ get other j

-- Merging valid vector clocks gives their least upper bound: the result is valid, it counts all
-- that either of the two counts, and a clock counts all that the result counts exactly when it
-- counts all that both count.
pub merge_lem :
    (c other bound : VectorClock)
    → IsValid c
    → IsValid other
    → IsValid (merge c other)
      × (IsSeenBy c (merge c other) × IsSeenBy other (merge c other))
      × (IsSeenBy (merge c other) bound ↔ IsSeenBy c bound × IsSeenBy other bound)
unfolding merge
merge_lem c other bound d e = (
  raise_all-Distinct c.clocks other.clocks d,
  (λ j. omega (arith, count_of-merge j c other e), λ j. omega (arith, count_of-merge j c other e)),
  (λ h. (λ j. left j (h j), λ j. right j (h j)), λ h j. both j (h.0 j) (h.1 j)),
)
  where
    left : (j : ℕ) → get (merge c other) j ≤ get bound j → get c j ≤ get bound j
    left j h = omega (arith, count_of-merge j c other e)

    right : (j : ℕ) → get (merge c other) j ≤ get bound j → get other j ≤ get bound j
    right j h = omega (arith, count_of-merge j c other e)

    both :
        (j : ℕ)
        → get c j ≤ get bound j
        → get other j ≤ get bound j
        → get (merge c other) j ≤ get bound j
    both j h k = omega (arith, count_of-merge j c other e)
