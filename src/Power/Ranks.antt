-- ===== src/Power/Ranks.antt =====
-- The priorities in the queue of pending syncs (src/power/scheduler.rs): the lowest, the highest, and
-- the first sync of one priority.
use peat_btle.Prelude.{
  ℕ, suc, ◌≤◌, ◌≡◌, ◌≢◌, refl, ap, sym, ◌∙◌, none, some, List, [], ◌∷◌, ◌++◌, ◌==◌, inl, inr,
  length, length-append, All, ℕ_discrete, arith, Bool-cases, Option-cases,
}
use mathlib.Core.Path.{subst}
use peat_btle.Power.Queue.{
  SyncPriority, PendingSync, rank, min_rank, max_rank, take_first, or_critical,
}

abbrev pub AtLeast : ℕ → List PendingSync → Type 0
AtLeast n = All (λ s. n ≤ rank s.priority)

abbrev pub AtMost : ℕ → List PendingSync → Type 0
AtMost n = All (λ s. rank s.priority ≤ n)

pub AtLeast-mono : (m n : ℕ) (ss : List PendingSync) → m ≤ n → AtLeast n ss → AtLeast m ss
AtLeast-mono m n [] l h = tt
AtLeast-mono m n (s ∷ ss) l h = (omega (arith, h.0), AtLeast-mono m n ss l h.1)

pub AtMost-mono : (m n : ℕ) (ss : List PendingSync) → m ≤ n → AtMost m ss → AtMost n ss
AtMost-mono m n [] l h = tt
AtMost-mono m n (s ∷ ss) l h = (omega (arith, h.0), AtMost-mono m n ss l h.1)

pub rank-le : (p : SyncPriority) → rank p ≤ 3
rank-le p = ground arith

pub min_rank-AtLeast : (ss : List PendingSync) → AtLeast (or_critical (min_rank ss)) ss
unfolding min_rank
min_rank-AtLeast [] = tt
min_rank-AtLeast (s ∷ ss) =
    let here : or_critical (min_rank (s ∷ ss)) ≤ rank s.priority =
      ground (arith, rank-le s.priority) in
    let there : or_critical (min_rank (s ∷ ss)) ≤ or_critical (min_rank ss) =
      ground (arith, rank-le s.priority) in
    (
      here,
      AtLeast-mono (or_critical (min_rank (s ∷ ss))) (or_critical (min_rank ss)) ss there
          (min_rank-AtLeast ss),
    )

pub AtLeast-min_rank :
    (n : ℕ) (ss : List PendingSync) → n ≤ 3 → AtLeast n ss → n ≤ or_critical (min_rank ss)
unfolding min_rank
AtLeast-min_rank n [] l h = l
AtLeast-min_rank n (s ∷ ss) l h = ground (arith, AtLeast-min_rank n ss l h.1)

pub min_rank-none : (ss : List PendingSync) → min_rank ss ≡ none → ss ≡ []
unfolding min_rank
min_rank-none [] h = refl
min_rank-none (s ∷ ss) h = ground arith

pub max_rank-none : (ss : List PendingSync) → max_rank ss ≡ none → ss ≡ []
unfolding max_rank
max_rank-none [] h = refl
max_rank-none (s ∷ ss) h = ground arith

pub max_rank-AtMost : (ss : List PendingSync) (n : ℕ) → max_rank ss ≡ some n → AtMost n ss
unfolding max_rank
max_rank-AtMost [] n h = tt
max_rank-AtMost (s ∷ ss) n h = elim (Option-cases (max_rank ss)) [
  | inl e ↦ (ground arith, subst (AtMost n) (sym (max_rank-none ss e)) tt)
  | inr (m, e) ↦ (ground arith, AtMost-mono m n ss (ground arith) (max_rank-AtMost ss m e))
]

abbrev pub Other : ℕ → List PendingSync → Type 0
Other n = All (λ s. rank s.priority ≢ n)

pub take_first-none : (n : ℕ) (ss : List PendingSync) → take_first n ss ≡ none → Other n ss
unfolding take_first
take_first-none n [] h = tt
take_first-none n (s ∷ ss) h = elim (Option-cases (take_first n ss)) [
  | inl e ↦ (λ q. ground arith, take_first-none n ss e)
  | inr (p, e) ↦ absurd (ground arith)
]

pub min_rank-here : (n : ℕ) (ss : List PendingSync) → min_rank ss ≡ some n → ¬ Other n ss
unfolding min_rank
min_rank-here n [] h o = ground arith
min_rank-here n (s ∷ ss) h o = elim (Option-cases (min_rank ss)) [
  | inl e ↦ o.0 (ground arith)
  | inr (m, e) ↦ elim (ℕ_discrete m n) [
    | yes q ↦ min_rank-here n ss (e ∙ ap some q) o.1
    | no q ↦ o.0 (ground arith)
  ]
]

pub max_rank-here : (n : ℕ) (ss : List PendingSync) → max_rank ss ≡ some n → ¬ Other n ss
unfolding max_rank
max_rank-here n [] h o = ground arith
max_rank-here n (s ∷ ss) h o = elim (Option-cases (max_rank ss)) [
  | inl e ↦ o.0 (ground arith)
  | inr (m, e) ↦ elim (ℕ_discrete m n) [
    | yes q ↦ max_rank-here n ss (e ∙ ap some q) o.1
    | no q ↦ o.0 (ground arith)
  ]
]

-- The queue around the sync that is taken from it.
pub record Taken (n : ℕ) (ss : List PendingSync) (found : PendingSync) (left : List PendingSync)
    : Type 0 where
  pub before : List PendingSync
  pub after : List PendingSync
  pub whole : ss ≡ before ++ (found ∷ after)
  pub rest : left ≡ before ++ after
  pub ranked : rank found.priority ≡ n
  pub first : All (λ s. rank s.priority ≢ n) before

pub take_first-Taken :
    (n : ℕ) (ss : List PendingSync) (found : PendingSync) (left : List PendingSync)
    → take_first n ss ≡ some (found, left)
    → Taken n ss found left
unfolding take_first
take_first-Taken n [] f l h = absurd (ground arith)
take_first-Taken n (s ∷ ss) f l h = elim (Bool-cases (rank s.priority == n)) [
  | inl e ↦
      let same : ◌≡◌ {A = PendingSync × List PendingSync} (s, ss) (f, l) = ground arith in
      let ranked : rank s.priority ≡ n = ground arith in
      subst (λ p. Taken n (s ∷ ss) p.0 p.1) same
        (record { before = []; after = ss; whole = refl; rest = refl; ranked = ranked; first = tt })
  | inr e ↦ elim (Option-cases (take_first n ss)) [
    | inl a ↦ absurd (ground arith)
    | inr ((g, m), a) ↦
        let same : ◌≡◌ {A = PendingSync × List PendingSync} (g, s ∷ m) (f, l) = ground arith in
        let t : Taken n ss g m = take_first-Taken n ss g m a in
        subst (λ p. Taken n (s ∷ ss) p.0 p.1) same
          (record {
            before = s ∷ t.before;
            after = t.after;
            whole = ap (◌∷◌ s) t.whole;
            rest = ap (◌∷◌ s) t.rest;
            ranked = t.ranked;
            first = (λ q. ground arith, t.first);
          })
  ]
]

pub take_first-length :
    (n : ℕ) (ss : List PendingSync) (found : PendingSync) (left : List PendingSync)
    → take_first n ss ≡ some (found, left)
    → length ss ≡ suc (length left)
take_first-length n ss f l h =
    let t : Taken n ss f l = take_first-Taken n ss f l h in
    omega (
      arith,
      ap length t.whole,
      ap length t.rest,
      length-append t.before (f ∷ t.after),
      length-append t.before t.after,
    )
