-- ===== src/Mesh/Selection.antt =====
-- The choice of the parent (src/mesh/manager.rs, `select_best_parent`).
use peat_btle.Prelude.{
  ℕ, zero, suc, ◌≡◌, refl, ap, sym, ◌∙◌, true, false, Option, none, some, List, [], ◌∷◌, get_elem?,
  arith, Bool-cases, inl, inr, ◌⊎◌,
}
use mathlib.Core.Path.{subst}
use peat_btle.Prelude.Int.{ℤ, ◌≤ℤ◌, leb_ℤ}
use peat_btle.Mesh.Topology.{HierarchyLevel}
use peat_btle.Mesh.Candidates.{ParentCandidate, TopologyConfig, score, is_eligible, better, best_of}

some_same : (a b : ParentCandidate) → some a ≡ some b → a ≡ b
some_same a b e = ground (arith, e)

≤ℤ_trans : (a b c : ℤ) → a ≤ℤ b → b ≤ℤ c → a ≤ℤ c
≤ℤ_trans a b c h k = omega arith

module _ (config : TopologyConfig) (my_level : HierarchyLevel) where
  -- The first candidate, if it passes the filter, against the best of the others.
  better-score :
      (c : ParentCandidate) (later : Option ParentCandidate)
      → (score c my_level ≤ℤ score (better my_level c later) my_level)
        × ((l : ParentCandidate)
            → later ≡ some l
            → score l my_level ≤ℤ score (better my_level c later) my_level)
        × ((better my_level c later ≡ c) ⊎ (later ≡ some (better my_level c later)))
  unfolding better
  better-score c none = (omega arith, λ l e. absurd (ground arith), inl refl)
  better-score c (some later) =
      elim (Bool-cases (leb_ℤ (score c my_level) (score later my_level))) [
        | inl e ↦
            rw (e, better)
              (
                ground (arith, e),
                λ l q.
                    let same : later ≡ l = ground (arith, q) in
                    subst (λ k. score k my_level ≤ℤ score later my_level) same (omega arith),
                inr refl,
              )
        | inr e ↦
            rw (e, better)
              (
                omega arith,
                λ l q.
                    let same : later ≡ l = ground (arith, q) in
                    subst (λ k. score k my_level ≤ℤ score c my_level) same (ground (arith, e)),
                inl refl,
              )
      ]

  best_of-eligible :
      (c : ParentCandidate) (cs : List ParentCandidate)
      → is_eligible config c ≡ true
      → best_of config my_level (c ∷ cs) ≡ some (better my_level c (best_of config my_level cs))
  unfolding best_of
  best_of-eligible c cs e = rw e refl

  best_of-skip :
      (c : ParentCandidate) (cs : List ParentCandidate)
      → is_eligible config c ≡ false
      → best_of config my_level (c ∷ cs) ≡ best_of config my_level cs
  unfolding best_of
  best_of-skip c cs e = rw e refl

  -- What is chosen is one of the candidates and passes the filter.
  best_of-is_eligible :
      (cs : List ParentCandidate) (b : ParentCandidate)
      → best_of config my_level cs ≡ some b
      → (is_eligible config b ≡ true) × ((j : ℕ) × (get_elem? cs j ≡ some b))
  unfolding best_of
  best_of-is_eligible [] b e = absurd (ground arith)
  best_of-is_eligible (c ∷ cs) b e = elim (Bool-cases (is_eligible config c)) [
    | inr n ↦
        let ih = best_of-is_eligible cs b (sym (best_of-skip c cs n) ∙ e) in
        (ih.0, (suc (ih.1).0, (ih.1).1))
    | inl p ↦
        let chosen : ParentCandidate = better my_level c (best_of config my_level cs) in
        let same : chosen ≡ b = some_same chosen b (sym (best_of-eligible c cs p) ∙ e) in
        elim ((better-score c (best_of config my_level cs)).2) [
          | inl q ↦
              let first : c ≡ b = sym q ∙ same in
              (subst (λ k. is_eligible config k ≡ true) first p, (0, ap some first))
          | inr q ↦
              let ih = best_of-is_eligible cs b (q ∙ ap some same) in
              (ih.0, (suc (ih.1).0, (ih.1).1))
        ]
  ]

  best_of-score :
      (cs : List ParentCandidate) (i : ℕ) (d : ParentCandidate)
      → get_elem? cs i ≡ some d
      → is_eligible config d ≡ true
      → (b : ParentCandidate) × (best_of config my_level cs ≡ some b)
        × (score d my_level ≤ℤ score b my_level)
  best_of-score [] i d e p = absurd (ground arith)
  best_of-score (c ∷ cs) zero d e p =
      let same : c ≡ d = some_same c d e in
      let rest = best_of config my_level cs in
      (
        better my_level c rest,
        best_of-eligible c cs (subst (λ k. is_eligible config k ≡ true) (sym same) p),
        subst (λ k. score k my_level ≤ℤ score (better my_level c rest) my_level) same
            (better-score c rest).0,
      )
  best_of-score (c ∷ cs) (suc i) d e p =
      let ih = best_of-score cs i d e p in
      let rest = best_of config my_level cs in
      elim (Bool-cases (is_eligible config c)) [
        | inr n ↦ (ih.0, best_of-skip c cs n ∙ ih.1, ih.2)
        | inl q ↦ (
          better my_level c rest,
          best_of-eligible c cs q,
          ≤ℤ_trans (score d my_level) (score ih.0 my_level)
              (score (better my_level c rest) my_level) ih.2 ((better-score c rest).1 ih.0 ih.1),
        )
      ]

-- Some candidate passes the filter on signal strength, age and failures. Then a parent is chosen, which
-- is one of the candidates, passes the filter too, and has at least the score of that candidate.
pub best_of_lem :
    (config : TopologyConfig) (my_level : HierarchyLevel) (cs : List ParentCandidate) (i : ℕ)
    (d : ParentCandidate)
    → get_elem? cs i ≡ some d
    → is_eligible config d ≡ true
    → (b : ParentCandidate) × (best_of config my_level cs ≡ some b)
      × (score d my_level ≤ℤ score b my_level)
      × (is_eligible config b ≡ true)
      × ((j : ℕ) × (get_elem? cs j ≡ some b))
best_of_lem config my_level cs i d e p =
    let best = best_of-score config my_level cs i d e p in
    let chosen = best_of-is_eligible config my_level cs best.0 best.1 in
    (best.0, best.1, best.2, chosen.0, chosen.1)
