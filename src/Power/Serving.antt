-- ===== src/Power/Serving.antt =====
-- Handing out the next sync (src/power/scheduler.rs, `next_pending_sync`).
use peat_btle.Prelude.{
  ℕ, ◌≤◌, ◌<◌, ◌≡◌, ◌≢◌, none, some, List, [], ◌∷◌, ◌++◌, ◌⊎◌, inl, inr, All, arith, Option-cases,
}
use mathlib.Core.Path.{subst}
use peat_btle.Power.Queue.{PendingSync, rank, max_rank, take_first, retain_live}
use peat_btle.Power.Scheduler.{RadioScheduler, drop_expired, next_pending_sync}
use peat_btle.Power.Ranks.{
  AtMost, Taken, AtMost-mono, max_rank-none, max_rank-AtMost, take_first-none, max_rank-here,
  take_first-Taken,
}

below-All :
    (n m : ℕ) (ss : List PendingSync)
    → n ≡ m
    → AtMost m ss
    → All (λ s. rank s.priority ≢ m) ss
    → All (λ s. rank s.priority < n) ss
below-All n m [] e h o = tt
below-All n m (s ∷ ss) e h o =
    let here : rank s.priority < n = ground (arith, h.0, o.0) in (here, below-All n m ss e h.1 o.1)

All-split :
    (P : PendingSync → Type 0) (xs : List PendingSync) (y : PendingSync) (ys : List PendingSync)
    → All P (xs ++ (y ∷ ys))
    → All P xs × All P ys
All-split P [] y ys h = (tt, h.1)
All-split P (x ∷ xs) y ys h = let rest = All-split P xs y ys h.1 in ((h.0, rest.0), rest.1)

-- The next sync that is handed out is the first of those of the highest priority among the pending
-- syncs that have not expired, and the others stay in their order; none is handed out exactly when
-- all pending ones have expired, and then the queue is left empty.
pub next_pending_sync_lem :
    (current_time : ℕ) (r : RadioScheduler)
    → ((retain_live current_time r.pending_syncs ≡ [])
        × ((next_pending_sync current_time r).0 ≡ none)
        × ((next_pending_sync current_time r).1.pending_syncs ≡ []))
      ⊎ ((sync : PendingSync) × (before : List PendingSync) × (after : List PendingSync)
          × ((next_pending_sync current_time r).0 ≡ some sync)
          × (retain_live current_time r.pending_syncs ≡ before ++ (sync ∷ after))
          × ((next_pending_sync current_time r).1.pending_syncs ≡ before ++ after)
          × All (λ s. rank s.priority < rank sync.priority) before
          × AtMost (rank sync.priority) after)
unfolding next_pending_sync drop_expired
next_pending_sync_lem now r =
    let live : List PendingSync = retain_live now r.pending_syncs in
    elim (Option-cases (max_rank live)) [
      | inl e ↦ inl (max_rank-none live e, ground arith, ground (arith, max_rank-none live e))
      | inr (m, e) ↦ elim (Option-cases (take_first m live)) [
        | inl a ↦ absurd (max_rank-here m live e (take_first-none m live a))
        | inr ((f, left), a) ↦
            let t : Taken m live f left = take_first-Taken m live f left a in
            let most : AtMost m (t.before ++ (f ∷ t.after)) =
              subst (AtMost m) t.whole (max_rank-AtMost live m e) in
            let parts = All-split (λ s. rank s.priority ≤ m) t.before f t.after most in
            inr (
              f,
              t.before,
              t.after,
              ground arith,
              t.whole,
              ground (arith, t.rest),
              below-All (rank f.priority) m t.before t.ranked parts.0 t.first,
              AtMost-mono m (rank f.priority) t.after (omega (arith, t.ranked)) parts.1,
            )
      ]
    ]
