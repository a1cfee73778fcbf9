-- ===== src/Sync/Causality.antt =====
-- The causal order of vector clocks (src/sync/delta.rs, `happens_before`).
use peat_btle.Prelude.{
  ℕ, ◌≤◌, ◌≡◌, ◌≢◌, refl, ap, ◌∙◌, Bool, true, false, none, some, List, [], ◌∷◌, ltb, if◌then◌else◌,
  inl, inr, ◌↔◌, ℕ_discrete, arith, Bool-cases, Option-cases,
}
use peat_btle.Prelude.Assoc
use peat_btle.Prelude.Assoc.{Distinct, insert, get-insert, insert-Distinct}
use peat_btle.Sync.Clock.{VectorClock, get, count_of, or_zero, all_le, any_new, happens_before}
use peat_btle.Sync.Merge.{IsValid, IsSeenBy}

-- Every entry of the first map passes a test against the second one.
abbrev EachEntry : (ℕ → ℕ → Type 0) → List (ℕ × ℕ) → Type 0
EachEntry P m = (j v : ℕ) → Assoc.get ℕ_discrete j m ≡ some v → P j v

tail_entries :
    (P : ℕ → ℕ → Type 0) (k w : ℕ) (m : List (ℕ × ℕ))
    → Assoc.get ℕ_discrete k m ≡ none
    → EachEntry P ((k, w) ∷ m)
    → P k w × EachEntry P m
unfolding Assoc.get
tail_entries P k w m d h = (h k w (ground arith), λ j v e. h j v (ground arith))

all_le-le :
    (ours theirs : List (ℕ × ℕ)) (flag b : Bool)
    → Distinct ℕ_discrete ours
    → (j : ℕ) → all_le ours theirs flag ≡ some b
    → count_of j ours ≤ count_of j theirs
unfolding all_le count_of Assoc.get
all_le-le [] theirs flag b d j e = omega arith
all_le-le ((k, v) ∷ ours) theirs flag b d j e =
    ground (arith, all_le-le ours theirs (if ltb v (count_of k theirs) then true else flag) b d.1 j)

all_le-none :
    (ours theirs : List (ℕ × ℕ)) (flag : Bool)
    → Distinct ℕ_discrete ours
    → EachEntry (λ j v. v ≤ count_of j theirs) ours
    → all_le ours theirs flag ≢ none
unfolding all_le
all_le-none [] theirs flag d h = λ e. ground arith
all_le-none ((k, v) ∷ ours) theirs flag d h =
    let t = tail_entries (λ j v. v ≤ count_of j theirs) k v ours d.0 h in
    let rest = all_le-none ours theirs (if ltb v (count_of k theirs) then true else flag) d.1 t.1 in
    ground arith

all_le-flag :
    (ours theirs : List (ℕ × ℕ)) (flag b : Bool)
    → Distinct ℕ_discrete ours
    → EachEntry (λ j v. count_of j theirs ≤ v) ours
    → all_le ours theirs flag ≡ some b
    → b ≡ flag
unfolding all_le
all_le-flag [] theirs flag b d h e = ground arith
all_le-flag ((k, v) ∷ ours) theirs flag b d h e =
    let t = tail_entries (λ j v. count_of j theirs ≤ v) k v ours d.0 h in
    ground (arith, all_le-flag ours theirs flag b d.1 t.1)

all_le-false :
    (ours theirs : List (ℕ × ℕ)) (flag : Bool)
    → all_le ours theirs flag ≡ some false
    → (flag ≡ false) × EachEntry (λ j v. count_of j theirs ≤ v) ours
unfolding all_le Assoc.get
all_le-false [] theirs flag e = (ground arith, λ j v h. absurd (ground arith))
all_le-false ((k, v) ∷ ours) theirs flag e =
    let ih =
      all_le-false ours theirs (if ltb v (count_of k theirs) then true else flag) (ground arith) in
    (ground arith, λ j w h. ground (arith, ih.1 j w))

new_entry :
    (k v : ℕ) (ours theirs : List (ℕ × ℕ)) (flag : Bool)
    → v ≤ count_of k ours
    → any_new ours theirs flag ≡ flag
    → any_new ours ((k, v) ∷ theirs) flag ≡ flag
unfolding any_new count_of
new_entry k v ours theirs flag h e = elim (Option-cases (Assoc.get ℕ_discrete k ours)) [
  | inl a ↦ ground arith
  | inr a ↦ ground arith
]

any_new-flag :
    (ours theirs : List (ℕ × ℕ)) (flag : Bool)
    → Distinct ℕ_discrete theirs
    → EachEntry (λ j v. v ≤ count_of j ours) theirs
    → any_new ours theirs flag ≡ flag
unfolding any_new
any_new-flag ours [] flag d h = refl
any_new-flag ours ((k, v) ∷ theirs) flag d h =
    let t = tail_entries (λ j v. v ≤ count_of j ours) k v theirs d.0 h in
    new_entry k v ours theirs flag t.0 (any_new-flag ours theirs flag d.1 t.1)

any_new-false :
    (ours theirs : List (ℕ × ℕ)) (flag : Bool)
    → any_new ours theirs flag ≡ false
    → (flag ≡ false) × ((j : ℕ) → Assoc.get ℕ_discrete j ours ≡ none → count_of j theirs ≤ 0)
unfolding any_new count_of Assoc.get
any_new-false ours [] flag e = (e, λ j h. omega arith)
any_new-false ours ((k, v) ∷ theirs) flag e = elim (Option-cases (Assoc.get ℕ_discrete k ours)) [
  | inl a ↦
      let ih = any_new-false ours theirs (if ltb 0 v then true else flag) (ground arith) in
      (ground arith, λ j h. ground (arith, ih.1 j))
  | inr a ↦
      let ih = any_new-false ours theirs flag (ground arith) in
      (ih.0, λ j h. ground (arith, ih.1 j))
]

-- What a count says of an entry.
count_entry : (j v : ℕ) (m : List (ℕ × ℕ)) → Assoc.get ℕ_discrete j m ≡ some v → count_of j m ≡ v
unfolding count_of
count_entry j v m h = ap or_zero h

count_absent : (j : ℕ) (m : List (ℕ × ℕ)) → Assoc.get ℕ_discrete j m ≡ none → count_of j m ≡ 0
unfolding count_of
count_absent j m h = ap or_zero h

before_seen :
    (c other : VectorClock) (flag : Bool)
    → IsValid c
    → IsValid other
    → all_le c.clocks other.clocks false ≡ some flag
    → any_new c.clocks other.clocks flag ≡ true
    → ¬ IsSeenBy other c
unfolding get
before_seen c other flag d e h k s =
    let unflagged : flag ≡ false =
      all_le-flag c.clocks other.clocks false flag d
        (λ j v a. omega (arith, count_entry j v c.clocks a, s j)) h in
    let same : any_new c.clocks other.clocks flag ≡ flag =
      any_new-flag c.clocks other.clocks flag e
        (λ j v a. omega (arith, count_entry j v other.clocks a, s j)) in
    ground arith

not_seen_before :
    (c other : VectorClock) (flag : Bool)
    → all_le c.clocks other.clocks false ≡ some flag
    → any_new c.clocks other.clocks flag ≡ false
    → IsSeenBy other c
unfolding get
not_seen_before c other flag h k j = elim (Option-cases (Assoc.get ℕ_discrete j c.clocks)) [
  | inl a ↦ let new = (any_new-false c.clocks other.clocks flag k).1 j a in omega (arith, new)
  | inr (v, a) ↦
      let le =
        (all_le-false c.clocks other.clocks false
            (h ∙ ap some (any_new-false c.clocks other.clocks flag k).0)).1
          j v a in
      omega (arith, le, count_entry j v c.clocks a)
]

-- `happens_before` decides the strict causal order of two valid clocks: one happens before another
-- exactly when the other counts all that it counts, and not the other way round.
pub happens_before_lem :
    (c other : VectorClock)
    → IsValid c
    → IsValid other
    → (happens_before c other ≡ true) ↔ IsSeenBy c other × (¬ IsSeenBy other c)
unfolding happens_before get
happens_before_lem c other d e = elim (Option-cases (all_le c.clocks other.clocks false)) [
  | inl a ↦ (
    λ h. absurd (ground arith),
    λ h. absurd (
        all_le-none c.clocks other.clocks false d
          (λ j v b. omega (arith, count_entry j v c.clocks b, h.0 j)) a),
  )
  | inr (flag, a) ↦ (
    λ h. (
      λ j. all_le-le c.clocks other.clocks false flag d j a,
      before_seen c other flag d e a (ground arith),
    ),
    λ h. elim (Bool-cases (any_new c.clocks other.clocks flag)) [
      | inl b ↦ ground arith
      | inr b ↦ absurd (h.1 (not_seen_before c other flag a b))
    ],
  )
]
