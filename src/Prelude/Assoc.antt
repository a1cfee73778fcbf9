-- ===== src/Prelude/Assoc.antt =====
-- `HashMap` as an association list over keys with decidable equality: its entries in the order in
-- which the map yields them. At most one entry per key is the invariant `Distinct`.
use Prim.Native.Nat.{◌+◌, ◌≤◌}
use mathlib.Core.Path.{◌≡◌, refl}
use mathlib.Core.Logic.{ite, ◌≢◌, inl, inr}
use mathlib.Core.Bool.{Bool}
use mathlib.Core.Option.{Option, none, some}
use mathlib.Core.List.{List, [], ◌∷◌}
use native.Mathlib.Omega.{arith}
use peat_btle.Prelude.Tests.{if◌then◌else◌, Bool-cases}
use peat_btle.Prelude.Lists.{length}

module _ {ℓ} {K V : Type ℓ} where
  abbrev pub keys : List (K × V) → List K
  keys [] = []
  keys ((k, v) ∷ m) = k ∷ keys m

  -- `m.retain(|k, v| keep(v))`
  unfoldable pub retain : (V → Bool) → List (K × V) → List (K × V)
  retain keep [] = []
  retain keep ((k, v) ∷ m) = let rest = retain keep m in if keep v then (k, v) ∷ rest else rest

  pub length-retain-le : (keep : V → Bool) (m : List (K × V)) → length (retain keep m) ≤ length m
  unfolding retain
  length-retain-le keep [] = omega arith
  length-retain-le keep ((k, v) ∷ m) = ground (arith, length-retain-le keep m)

-- An optional value that must pass a test.
abbrev pub keep_if {ℓ} : {V : Type ℓ} → (V → Bool) → Option V → Option V
keep_if keep none = none
keep_if keep (some v) = if keep v then some v else none

module _ {ℓ} {K V : Type ℓ} (dec : Discrete K) where
  -- `m.get(&k)`
  unfoldable pub get : K → List (K × V) → Option V
  get k [] = none
  get k ((j, v) ∷ m) = ite (dec j k) (some v) (get k m)

  -- `m.insert(k, v)`: in place, or as a new entry.
  unfoldable pub insert : K → V → List (K × V) → List (K × V)
  insert k v [] = (k, v) ∷ []
  insert k v ((j, w) ∷ m) = ite (dec j k) ((j, v) ∷ m) ((j, w) ∷ insert k v m)

  -- `m.remove(&k)`
  unfoldable pub remove : K → List (K × V) → List (K × V)
  remove k [] = []
  remove k ((j, w) ∷ m) = ite (dec j k) m ((j, w) ∷ remove k m)

  -- No key has two entries.
  abbrev pub Distinct : List (K × V) → Type ℓ
  Distinct [] = Unit
  Distinct ((k, v) ∷ m) = (get k m ≡ none) × Distinct m

  pub get-insert :
      (j k : K) (v : V) (m : List (K × V)) → get j (insert k v m) ≡ ite (dec k j) (some v) (get j m)
  unfolding get insert
  get-insert j k v [] = refl
  get-insert j k v ((i, w) ∷ m) = ground (arith, get-insert j k v m)

  pub get-insert_self : (k : K) (v : V) (m : List (K × V)) → get k (insert k v m) ≡ some v
  get-insert_self k v m = ground (arith, get-insert k k v m)

  pub get-insert_ne : (j k : K) (v : V) (m : List (K × V)) → k ≢ j → get j (insert k v m) ≡ get j m
  get-insert_ne j k v m h = ground (arith, get-insert j k v m)

  pub insert-Distinct : (k : K) (v : V) (m : List (K × V)) → Distinct m → Distinct (insert k v m)
  unfolding insert get
  insert-Distinct k v [] d = (refl, tt)
  insert-Distinct k v ((j, w) ∷ m) d = ground (arith, insert-Distinct k v m d.1, get-insert j k v m)

  pub get-remove_ne : (j k : K) (m : List (K × V)) → k ≢ j → get j (remove k m) ≡ get j m
  unfolding get remove
  get-remove_ne j k [] h = refl
  get-remove_ne j k ((i, w) ∷ m) h = ground (arith, get-remove_ne j k m h)

  pub get-remove_self : (k : K) (m : List (K × V)) → Distinct m → get k (remove k m) ≡ none
  unfolding get remove
  get-remove_self k [] d = refl
  get-remove_self k ((i, w) ∷ m) d = ground (arith, get-remove_self k m d.1)

  pub get-remove-none : (j k : K) (m : List (K × V)) → get j m ≡ none → get j (remove k m) ≡ none
  unfolding get remove
  get-remove-none j k [] h = refl
  get-remove-none j k ((i, w) ∷ m) h = ground (arith, get-remove-none j k m)

  pub remove-Distinct : (k : K) (m : List (K × V)) → Distinct m → Distinct (remove k m)
  unfolding remove get
  remove-Distinct k [] d = tt
  remove-Distinct k ((i, w) ∷ m) d =
      ground (arith, remove-Distinct k m d.1, get-remove-none i k m d.0)

  pub remove_absent : (k : K) (m : List (K × V)) → get k m ≡ none → remove k m ≡ m
  unfolding get remove
  remove_absent k [] h = refl
  remove_absent k ((i, w) ∷ m) h = ground (arith, remove_absent k m)

  pub length-remove :
      (k : K) (v : V) (m : List (K × V)) → get k m ≡ some v → length (remove k m) + 1 ≡ length m
  unfolding get remove
  length-remove k v [] h = absurd (ground arith)
  length-remove k v ((i, w) ∷ m) h = ground (arith, length-remove k v m)

  pub length-insert :
      (k : K) (v : V) (m : List (K × V))
      → length (insert k v m) ≡ elim (get k m) [ none ↦ length m + 1 | some _ ↦ length m ]
  unfolding get insert
  length-insert k v [] = omega arith
  length-insert k v ((i, w) ∷ m) = ground (arith, length-insert k v m)

  pub get-retain-none :
      (keep : V → Bool) (k : K) (m : List (K × V)) → get k m ≡ none → get k (retain keep m) ≡ none
  unfolding get retain
  get-retain-none keep k [] h = refl
  get-retain-none keep k ((i, w) ∷ m) h = ground (arith, get-retain-none keep k m)

  pub retain-Distinct : (keep : V → Bool) (m : List (K × V)) → Distinct m → Distinct (retain keep m)
  unfolding retain
  retain-Distinct keep [] d = tt
  retain-Distinct keep ((i, w) ∷ m) d = elim (Bool-cases (keep w)) [
    | inl e ↦ rw (e, retain) (get-retain-none keep i m d.0, retain-Distinct keep m d.1)
    | inr e ↦ rw (e, retain) (retain-Distinct keep m d.1)
  ]

  pub get-retain :
      (keep : V → Bool) (k : K) (m : List (K × V))
      → Distinct m
      → get k (retain keep m) ≡ keep_if keep (get k m)
  unfolding get retain
  get-retain keep k [] d = refl
  get-retain keep k ((i, w) ∷ m) d =
      ground (arith, get-retain keep k m d.1, get-retain-none keep k m)
