-- ===== src/Prelude/SortBy.antt =====
-- `sort_by_key` over the entries of a map (the library's stable sort, as an insertion sort), and
-- the removal of a list of keys.
use Prim.Native.Nat.{ℕ, suc, ◌+◌, ◌≤◌}
use mathlib.Core.Path.{◌≡◌, refl, ◌∙◌}
use mathlib.Core.Logic.{ite}
use mathlib.Core.Option.{none, some}
use mathlib.Core.List.{List, [], ◌∷◌}
use native.Mathlib.Omega.{arith}
use peat_btle.Prelude.Tests.{if◌then◌else◌, leb}
use peat_btle.Prelude.Lists.{length, All}
use peat_btle.Prelude.Assoc.{
  get, remove, keys, Distinct, get-remove_ne, get-remove_self, get-remove-none, remove-Distinct,
  length-remove,
}

module _ {ℓ} {K V : Type ℓ} (age : V → ℕ) where
  unfoldable pub place : K × V → List (K × V) → List (K × V)
  place x [] = x ∷ []
  place x (y ∷ ys) = if leb (age x.1) (age y.1) then x ∷ y ∷ ys else y ∷ place x ys

  unfoldable pub sort_by_key : List (K × V) → List (K × V)
  unfolding place
  sort_by_key [] = []
  sort_by_key (x ∷ xs) = place x (sort_by_key xs)

  -- In ascending order of age.
  abbrev pub ByAge : List (K × V) → Type 0
  ByAge [] = Unit
  ByAge (x ∷ xs) = All (λ y. age x.1 ≤ age y.1) xs × ByAge xs

  All-place :
      (n : ℕ) (x : K × V) (xs : List (K × V))
      → n ≤ age x.1
      → All (λ y. n ≤ age y.1) xs
      → All (λ y. n ≤ age y.1) (place x xs)
  unfolding place
  All-place n x [] h a = (h, tt)
  All-place n x (y ∷ ys) h a = ground (arith, All-place n x ys h a.1)

  All-trans :
      (m n : ℕ) (xs : List (K × V)) → m ≤ n → All (λ y. n ≤ age y.1) xs → All (λ y. m ≤ age y.1) xs
  All-trans m n [] h a = tt
  All-trans m n (y ∷ ys) h a = (omega arith, All-trans m n ys h a.1)

  place-ByAge : (x : K × V) (xs : List (K × V)) → ByAge xs → ByAge (place x xs)
  unfolding place
  place-ByAge x [] b = (tt, tt)
  place-ByAge x (y ∷ ys) b =
      ground
        (arith, place-ByAge x ys b.1, All-place (age y.1) x ys, All-trans (age x.1) (age y.1) ys)

  pub sort_by_key-ByAge : (xs : List (K × V)) → ByAge (sort_by_key xs)
  unfolding sort_by_key
  sort_by_key-ByAge [] = tt
  sort_by_key-ByAge (x ∷ xs) = place-ByAge x (sort_by_key xs) (sort_by_key-ByAge xs)

  length-place : (x : K × V) (xs : List (K × V)) → length (place x xs) ≡ suc (length xs)
  unfolding place
  length-place x [] = refl
  length-place x (y ∷ ys) = ground (arith, length-place x ys)

  pub length-sort_by_key : (xs : List (K × V)) → length (sort_by_key xs) ≡ length xs
  unfolding sort_by_key
  length-sort_by_key [] = refl
  length-sort_by_key (x ∷ xs) =
      omega (arith, length-place x (sort_by_key xs), length-sort_by_key xs)

module _ {ℓ} {K V : Type ℓ} (dec : Discrete K) where
  -- `for id in ids { m.remove(&id) }`
  unfoldable pub remove_all : List K → List (K × V) → List (K × V)
  remove_all [] m = m
  remove_all (k ∷ ks) m = remove_all ks (remove dec k m)

  pub remove_all-Distinct :
      (ks : List K) (m : List (K × V)) → Distinct dec m → Distinct dec (remove_all ks m)
  unfolding remove_all
  remove_all-Distinct [] m d = d
  remove_all-Distinct (k ∷ ks) m d =
      remove_all-Distinct ks (remove dec k m) (remove-Distinct dec k m d)

  get-remove_all-none :
      (j : K) (ks : List K) (m : List (K × V))
      → get dec j m ≡ none
      → get dec j (remove_all ks m) ≡ none
  unfolding remove_all
  get-remove_all-none j [] m h = h
  get-remove_all-none j (k ∷ ks) m h =
      get-remove_all-none j ks (remove dec k m) (get-remove-none dec j k m h)

  -- What is left after the keys of some entries are removed.
  pub get-remove_all :
      (j : K) (l m : List (K × V))
      → Distinct dec m
      → get dec j (remove_all (keys l) m)
        ≡ elim (get dec j l) [ none ↦ get dec j m | some _ ↦ none ]
  unfolding remove_all get
  get-remove_all j [] m d = refl
  get-remove_all j ((k, v) ∷ l) m d = ground (
    arith,
    get-remove_all j l (remove dec k m) (remove-Distinct dec k m d),
    get-remove_ne dec j k m,
    get-remove_self dec k m d,
    get-remove_all-none j (keys l) (remove dec k m),
  )

  -- Every entry of `l` stands in `m`.
  abbrev pub Within : List (K × V) → List (K × V) → Type ℓ
  Within [] m = Unit
  Within ((k, v) ∷ l) m = (get dec k m ≡ some v) × Within l m

  Within-remove :
      (k : K) (l m : List (K × V)) → get dec k l ≡ none → Within l m → Within l (remove dec k m)
  unfolding get
  Within-remove k [] m h s = tt
  Within-remove k ((i, w) ∷ l) m h s = ground (arith, Within-remove k l m, get-remove_ne dec i k m)

  pub length-remove_all :
      (l m : List (K × V))
      → Distinct dec l
      → Within l m
      → length (remove_all (keys l) m) + length l ≡ length m
  unfolding remove_all
  length-remove_all [] m d s = omega arith
  length-remove_all ((k, v) ∷ l) m d s =
      let ih = length-remove_all l (remove dec k m) d.1 (Within-remove k l m d.0 s.1) in
      omega (arith, ih, length-remove dec k v m s.0)

  module _ (age : V → ℕ) where
    get-place :
        (j k : K) (v : V) (m : List (K × V))
        → get dec k m ≡ none
        → get dec j (place age (k, v) m) ≡ ite (dec k j) (some v) (get dec j m)
    unfolding get place
    get-place j k v [] h = refl
    get-place j k v ((i, w) ∷ m) h = ground (arith, get-place j k v m)

    place-Distinct :
        (k : K) (v : V) (m : List (K × V))
        → get dec k m ≡ none
        → Distinct dec m
        → Distinct dec (place age (k, v) m)
    unfolding get place
    place-Distinct k v [] h d = (refl, tt)
    place-Distinct k v ((i, w) ∷ m) h d = ground (arith, place-Distinct k v m, get-place i k v m)

    pub get-sort_by_key :
        (j : K) (m : List (K × V)) → Distinct dec m → get dec j (sort_by_key age m) ≡ get dec j m
    unfolding get sort_by_key
    get-sort_by_key j [] d = refl
    get-sort_by_key j ((i, w) ∷ m) d = ground (
      arith,
      get-sort_by_key j m d.1,
      get-sort_by_key i m d.1,
      get-place j i w (sort_by_key age m),
    )

    pub sort_by_key-Distinct :
        (m : List (K × V)) → Distinct dec m → Distinct dec (sort_by_key age m)
    unfolding sort_by_key
    sort_by_key-Distinct [] d = tt
    sort_by_key-Distinct ((i, w) ∷ m) d =
        place-Distinct i w (sort_by_key age m) (get-sort_by_key i m d.1 ∙ d.0)
          (sort_by_key-Distinct m d.1)
