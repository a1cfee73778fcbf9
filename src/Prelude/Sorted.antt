-- ===== src/Prelude/Sorted.antt =====
-- `BTreeMap<u32, _>` as an association list in ascending order of its keys, the order in which the
-- map yields its entries.
use Prim.Native.Nat.{ℕ, ◌<◌}
use mathlib.Core.Path.{◌≡◌, refl, ap₂}
use mathlib.Core.Option.{Option, none, some}
use mathlib.Core.List.{List, [], ◌∷◌}
use native.Mathlib.Omega.{arith}
use peat_btle.Prelude.Tests.{if◌then◌else◌, ltb, ◌==◌}

module _ {ℓ} {V : Type ℓ} where
  -- `m.get(&k)`
  unfoldable pub get : ℕ → List (ℕ × V) → Option V
  get k [] = none
  get k ((j, v) ∷ m) = if j == k then some v else get k m

  -- `m.insert(k, v)`
  unfoldable pub insert : ℕ → V → List (ℕ × V) → List (ℕ × V)
  insert k v [] = (k, v) ∷ []
  insert k v ((j, w) ∷ m) =
      let later = insert k v m in
      if j == k then (k, v) ∷ m else if ltb k j then (k, v) ∷ (j, w) ∷ m else (j, w) ∷ later

  -- Every key of the map is above `b`.
  abbrev pub Above : ℕ → List (ℕ × V) → Type 0
  Above b [] = Unit
  Above b ((k, v) ∷ m) = (b < k) × Above b m

  abbrev pub IsSorted : List (ℕ × V) → Type 0
  IsSorted [] = Unit
  IsSorted ((k, v) ∷ m) = Above k m × IsSorted m

  pub get-insert :
      (j k : ℕ) (v : V) (m : List (ℕ × V))
      → get j (insert k v m) ≡ (if k == j then some v else get j m)
  unfolding get insert
  get-insert j k v [] = refl
  get-insert j k v ((i, w) ∷ m) = ground (arith, get-insert j k v m)

  pub Above-trans : (a b : ℕ) (m : List (ℕ × V)) → a < b → Above b m → Above a m
  Above-trans a b [] h s = tt
  Above-trans a b ((k, v) ∷ m) h s = (omega arith, Above-trans a b m h s.1)

  pub insert-Above :
      (b k : ℕ) (v : V) (m : List (ℕ × V)) → b < k → Above b m → Above b (insert k v m)
  unfolding insert
  insert-Above b k v [] h s = (h, tt)
  insert-Above b k v ((i, w) ∷ m) h s = ground (arith, insert-Above b k v m h s.1)

  pub insert-IsSorted : (k : ℕ) (v : V) (m : List (ℕ × V)) → IsSorted m → IsSorted (insert k v m)
  unfolding insert
  insert-IsSorted k v [] s = (tt, tt)
  insert-IsSorted k v ((i, w) ∷ m) s =
      ground (arith, insert-IsSorted k v m s.1, insert-Above i k v m, Above-trans k i m)

  pub get-Above : (k b : ℕ) (m : List (ℕ × V)) → k < b → Above b m → get k m ≡ none
  unfolding get
  get-Above k b [] h s = refl
  get-Above k b ((i, w) ∷ m) h s = ground (arith, get-Above k b m h s.1)

  pub get-Above_self : (k : ℕ) (m : List (ℕ × V)) → Above k m → get k m ≡ none
  unfolding get
  get-Above_self k [] s = refl
  get-Above_self k ((i, w) ∷ m) s = ground (arith, get-Above_self k m s.1)

  -- Two maps with the same lookups are one map.
  pub ext : (m n : List (ℕ × V)) → IsSorted m → IsSorted n → ((k : ℕ) → get k m ≡ get k n) → m ≡ n
  unfolding get
  ext [] [] s t h = refl
  ext [] ((j, w) ∷ n) s t h = absurd (ground (arith, h j))
  ext ((i, v) ∷ m) [] s t h = absurd (ground (arith, h i))
  ext ((i, v) ∷ m) ((j, w) ∷ n) s t h =
      let key : i ≡ j =
        ground (arith, h i, h j, get-Above i j n, get-Above j i m, Above-trans j i m) in
      let val : v ≡ w = ground (arith, h i) in
      ap₂ ◌∷◌ (λ i. (key i, val i))
        (ext m n s.1 t.1 (λ k. ground (arith, h k, get-Above_self i m s.0, get-Above_self j n t.0)))

module _ {ℓ} {V : Type ℓ} where
  -- What `entry(k)` finds, changed by one more value for the key.
  abbrev pub opt_step : (Option V → V → V) → Option V → Option V → Option V
  opt_step step x none = x
  opt_step step x (some v) = some (step x v)

  -- `for (k, v) in b { let e = a.entry(k); … }`
  unfoldable pub merge_entries : (Option V → V → V) → List (ℕ × V) → List (ℕ × V) → List (ℕ × V)
  merge_entries step a [] = a
  merge_entries step a ((k, v) ∷ b) = merge_entries step (insert k (step (get k a) v) a) b

  pub get-merge_entries :
      (step : Option V → V → V) (j : ℕ) (a b : List (ℕ × V))
      → IsSorted b
      → get j (merge_entries step a b) ≡ opt_step step (get j a) (get j b)
  unfolding merge_entries get
  get-merge_entries step j a [] s = refl
  get-merge_entries step j a ((k, v) ∷ b) s = ground (
    arith,
    get-merge_entries step j (insert k (step (get k a) v) a) b s.1,
    get-insert j k (step (get k a) v) a,
    get-Above_self k b s.0,
  )

  pub merge_entries-IsSorted :
      (step : Option V → V → V) (a b : List (ℕ × V))
      → IsSorted a
      → IsSorted (merge_entries step a b)
  unfolding merge_entries
  merge_entries-IsSorted step a [] s = s
  merge_entries-IsSorted step a ((k, v) ∷ b) s =
      merge_entries-IsSorted step (insert k (step (get k a) v) a) b
        (insert-IsSorted k (step (get k a) v) a s)

  -- All entries of `b` written into `a`.
  unfoldable pub insert_all : List (ℕ × V) → List (ℕ × V) → List (ℕ × V)
  insert_all a [] = a
  insert_all a ((k, v) ∷ b) = insert_all (insert k v a) b

  get-insert_all :
      (j : ℕ) (a b : List (ℕ × V))
      → IsSorted b
      → get j (insert_all a b) ≡ opt_step (λ _ v. v) (get j a) (get j b)
  unfolding insert_all get
  get-insert_all j a [] s = refl
  get-insert_all j a ((k, v) ∷ b) s =
      ground
        (arith, get-insert_all j (insert k v a) b s.1, get-insert j k v a, get-Above_self k b s.0)

  insert_all-IsSorted : (a b : List (ℕ × V)) → IsSorted a → IsSorted (insert_all a b)
  unfolding insert_all
  insert_all-IsSorted a [] s = s
  insert_all-IsSorted a ((k, v) ∷ b) s =
      insert_all-IsSorted (insert k v a) b (insert-IsSorted k v a s)

  get_nil : (k : ℕ) → get {V = V} k [] ≡ none
  unfolding get
  get_nil k = refl

  -- A map that is written entry by entry into an empty one is copied.
  pub insert_all-nil : (b : List (ℕ × V)) → IsSorted b → insert_all [] b ≡ b
  insert_all-nil b s = ext (insert_all [] b) b (insert_all-IsSorted [] b tt) s (λ k. copied k)
    where
      copied : (k : ℕ) → get k (insert_all [] b) ≡ get k b
      copied k = ground (arith, get-insert_all k [] b s, get_nil k)
