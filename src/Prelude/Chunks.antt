-- ===== src/Prelude/Chunks.antt =====
-- `data.chunks(size)`: runs of `size` elements, the last one perhaps shorter.
use Prim.Native.Nat.{ℕ, zero, suc, ◌+◌, ◌-◌, ◌*◌, ◌/◌, ◌%◌, ◌≤◌, ◌<◌}
use mathlib.Core.Path.{◌≡◌, refl, ap, ◌∙◌}
use mathlib.Core.List.{List, [], ◌∷◌, ◌++◌}
use native.Mathlib.Omega.{arith}
use native.Mathlib.Decide.{dec_le, dec_lt, ℕ_discrete}
use native.Mathlib.Nat.{mod-lt, div-add-mod}
use peat_btle.Prelude.Tests.{if◌then◌else◌, ltb}
use peat_btle.Prelude.Lists.{
  length, take, drop, concat, All, length-take, length-drop, take-append-drop,
}

-- `a.div_ceil(b)`
abbrev pub div_ceil : ℕ → ℕ → ℕ
div_ceil a b = if ltb 0 (a % b) then a / b + 1 else a / b

pub mul_mono : (m n k : ℕ) → m ≤ n → m * k ≤ n * k
mul_mono m n k h = grind arith

-- A dividend of more than `k` divisors.
pub le-div_ceil : (k a b : ℕ) → 0 < b → k * b < a → k ≤ div_ceil a b
le-div_ceil k a b p h =
    let q = a / b in
    let split = div-add-mod a b in
    let small : a % b < b = mod-lt a p in
    elim (dec_le k q) [
      | yes low ↦ ground arith
      | no above ↦ absurd (grind (arith, mul_mono (q + 1) k b (omega arith)))
    ]

-- A dividend of at most `k` divisors.
pub div_ceil-le : (k a b : ℕ) → 0 < b → a ≤ k * b → div_ceil a b ≤ k
div_ceil-le k a b p h =
    let q = a / b in
    let split = div-add-mod a b in
    let small : a % b < b = mod-lt a p in
    elim (dec_lt k q) [
      | yes above ↦ absurd (grind (arith, mul_mono (k + 1) q b (omega arith)))
      | no low ↦ elim (ℕ_discrete k q) [ yes e ↦ grind arith | no ne ↦ ground arith ]
    ]

pub two-le-div_ceil : (n b : ℕ) → 0 < b → b < n → 2 ≤ div_ceil n b
two-le-div_ceil n b p h =
    let q = n / b in
    let split = div-add-mod n b in
    let small : n % b < b = mod-lt n p in
    elim (dec_lt 1 q) [
      | yes more ↦ ground arith
      | no few ↦ grind (arith, mul_mono q 1 b (omega arith))
    ]

one_more :
    (k s a d : ℕ)
    → d ≡ suc a - s
    → (d ≤ k * s) × (k * s < d + s)
    → (suc a ≤ suc k * s) × (suc k * s < suc a + s)
one_more zero s a d e h = (omega arith, omega arith)
one_more (suc k) s a d e h = (omega arith, omega arith)

div_ceil_unique : (a b n : ℕ) → 0 < b → (a ≤ n * b) × (n * b < a + b) → n ≡ div_ceil a b
div_ceil_unique a b n p h =
    let q = a / b in
    let split = div-add-mod a b in
    let small : a % b < b = mod-lt a p in
    elim (dec_le n q) [
      | yes low ↦ grind (arith, mul_mono n q b low)
      | no above ↦ elim (dec_le (q + 2) n) [
        | yes high ↦ grind (arith, mul_mono (q + 2) n b high)
        | no below ↦ grind arith
      ]
    ]

module _ {ℓ} {A : Type ℓ} where
  -- The fuel is a bound on the length of the list.
  chunks_fuel : ℕ → List A → ℕ → List (List A)
  chunks_fuel zero xs size = []
  chunks_fuel (suc fuel) [] size = []
  chunks_fuel (suc fuel) (x ∷ xs) size =
      take size (x ∷ xs) ∷ chunks_fuel fuel (drop size (x ∷ xs)) size

  unfoldable pub chunks : List A → ℕ → List (List A)
  unfolding chunks_fuel
  chunks xs size = chunks_fuel (length xs) xs size

  concat-chunks_fuel :
      (fuel : ℕ) (xs : List A) (size : ℕ)
      → length xs ≤ fuel
      → 0 < size
      → concat (chunks_fuel fuel xs size) ≡ xs
  unfolding chunks_fuel
  concat-chunks_fuel zero [] size h p = refl
  concat-chunks_fuel zero (x ∷ xs) size h p = elim h [ ]
  concat-chunks_fuel (suc fuel) [] size h p = refl
  concat-chunks_fuel (suc fuel) (x ∷ xs) size h p =
      ap (◌++◌ (take size (x ∷ xs))) (
        concat-chunks_fuel fuel (drop size (x ∷ xs)) size (omega (arith, length-drop size (x ∷ xs)))
          p)
      ∙ take-append-drop size (x ∷ xs)

  -- Nothing is lost: the chunks make up the list.
  pub concat-chunks : (xs : List A) (size : ℕ) → 0 < size → concat (chunks xs size) ≡ xs
  unfolding chunks
  concat-chunks xs size p = concat-chunks_fuel (length xs) xs size (omega arith) p

  length-chunks_fuel :
      (fuel : ℕ) (xs : List A) (size : ℕ)
      → length xs ≤ fuel
      → 0 < size
      → (length xs ≤ length (chunks_fuel fuel xs size) * size)
        × (length (chunks_fuel fuel xs size) * size < length xs + size)
  unfolding chunks_fuel
  length-chunks_fuel zero [] size h p = (omega arith, omega arith)
  length-chunks_fuel zero (x ∷ xs) size h p = elim h [ ]
  length-chunks_fuel (suc fuel) [] size h p = (omega arith, omega arith)
  length-chunks_fuel (suc fuel) (x ∷ xs) size h p =
      let d = length-drop size (x ∷ xs) in
      let ih = length-chunks_fuel fuel (drop size (x ∷ xs)) size (omega arith) p in
      let k : ℕ = length (chunks_fuel fuel (drop size (x ∷ xs)) size) in
      let bounds : (suc (length xs) ≤ suc k * size) × (suc k * size < suc (length xs) + size) =
        one_more k size (length xs) (length (drop size (x ∷ xs))) d ih in
      bounds

  All-chunks_fuel :
      (fuel : ℕ) (xs : List A) (size : ℕ) → All (λ c. length c ≤ size) (chunks_fuel fuel xs size)
  unfolding chunks_fuel
  All-chunks_fuel zero xs size = tt
  All-chunks_fuel (suc fuel) [] size = tt
  All-chunks_fuel (suc fuel) (x ∷ xs) size =
      (omega (arith, length-take size (x ∷ xs)), All-chunks_fuel fuel (drop size (x ∷ xs)) size)

  -- No chunk is longer than the size.
  pub All-chunks : (xs : List A) (size : ℕ) → All (λ c. length c ≤ size) (chunks xs size)
  unfolding chunks
  All-chunks xs size = All-chunks_fuel (length xs) xs size

  -- There are as many chunks as `div_ceil` says.
  pub length-chunks :
      (xs : List A) (size : ℕ) → 0 < size → length (chunks xs size) ≡ div_ceil (length xs) size
  unfolding chunks
  length-chunks xs size p =
      div_ceil_unique (length xs) size (length (chunks xs size)) p
        (length-chunks_fuel (length xs) xs size (omega arith) p)
