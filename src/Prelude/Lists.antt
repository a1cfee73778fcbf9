-- ===== src/Prelude/Lists.antt =====
-- Lists measured and cut by native numbers, under the library's names.
use Prim.Native.Nat.{ℕ, zero, suc, ◌+◌, ◌-◌, ◌≤◌, min}
use mathlib.Core.Path.{◌≡◌, refl, ap, sym, ◌∙◌}
use mathlib.Core.List.{List, [], ◌∷◌, ◌++◌}
use mathlib.Core.Option.{Option, none, some}
use native.Mathlib.Omega.{arith}

module _ {ℓ} {A : Type ℓ} where
  abbrev pub length : List A → ℕ
  length [] = 0
  length (x ∷ xs) = suc (length xs)

  abbrev pub get_elem? : List A → ℕ → Option A
  get_elem? [] i = none
  get_elem? (x ∷ xs) zero = some x
  get_elem? (x ∷ xs) (suc i) = get_elem? xs i

  abbrev pub get_or : List A → ℕ → A → A
  get_or [] i d = d
  get_or (x ∷ xs) zero d = x
  get_or (x ∷ xs) (suc i) d = get_or xs i d

  abbrev pub take : ℕ → List A → List A
  take zero xs = []
  take (suc n) [] = []
  take (suc n) (x ∷ xs) = x ∷ take n xs

  abbrev pub drop : ℕ → List A → List A
  drop zero xs = xs
  drop (suc n) [] = []
  drop (suc n) (x ∷ xs) = drop n xs

  -- `data[from..to]`
  abbrev pub slice : List A → ℕ → ℕ → List A
  slice xs from to = take (to - from) (drop from xs)

  pub length-append : (xs ys : List A) → length (xs ++ ys) ≡ length xs + length ys
  length-append [] ys = omega arith
  length-append (x ∷ xs) ys = omega (arith, length-append xs ys)

  pub append_nil : (xs : List A) → xs ++ [] ≡ xs
  append_nil [] = refl
  append_nil (x ∷ xs) = ap (◌∷◌ x) (append_nil xs)

  pub length-take : (n : ℕ) (xs : List A) → length (take n xs) ≡ min n (length xs)
  length-take zero xs = omega arith
  length-take (suc n) [] = omega arith
  length-take (suc n) (x ∷ xs) = omega (arith, length-take n xs)

  pub length-drop : (n : ℕ) (xs : List A) → length (drop n xs) ≡ length xs - n
  length-drop zero xs = omega arith
  length-drop (suc n) [] = omega arith
  length-drop (suc n) (x ∷ xs) = omega (arith, length-drop n xs)

  pub take-append-drop : (n : ℕ) (xs : List A) → take n xs ++ drop n xs ≡ xs
  take-append-drop zero xs = refl
  take-append-drop (suc n) [] = refl
  take-append-drop (suc n) (x ∷ xs) = ap (◌∷◌ x) (take-append-drop n xs)

  pub take_of_length-le : (n : ℕ) (xs : List A) → length xs ≤ n → take n xs ≡ xs
  take_of_length-le zero [] h = refl
  take_of_length-le zero (x ∷ xs) h = elim h [ ]
  take_of_length-le (suc n) [] h = refl
  take_of_length-le (suc n) (x ∷ xs) h = ap (◌∷◌ x) (take_of_length-le n xs (omega arith))

  take_nil : (n : ℕ) → take n [] ≡ []
  take_nil zero = refl
  take_nil (suc n) = refl

  -- A prefix of known length is cut off exactly.
  pub take-append_left : (n : ℕ) (xs ys : List A) → length xs ≡ n → take n (xs ++ ys) ≡ xs
  take-append_left zero [] ys h = refl
  take-append_left zero (x ∷ xs) ys h = absurd (omega arith)
  take-append_left (suc n) [] ys h = absurd (omega arith)
  take-append_left (suc n) (x ∷ xs) ys h = ap (◌∷◌ x) (take-append_left n xs ys (omega arith))

  -- Skipping a prefix of known length, and `m` elements more.
  pub drop-append_skip :
      (n m : ℕ) (xs ys : List A) → length xs ≡ n → drop (n + m) (xs ++ ys) ≡ drop m ys
  drop-append_skip zero m [] ys h = ap (λ k. drop k ys) (omega arith)
  drop-append_skip zero m (x ∷ xs) ys h = absurd (omega arith)
  drop-append_skip (suc n) m [] ys h = absurd (omega arith)
  drop-append_skip (suc n) m (x ∷ xs) ys h =
      let step : suc n + m ≡ suc (n + m) = omega arith in
      ap (λ k. drop k (x ∷ (xs ++ ys))) step ∙ drop-append_skip n m xs ys (omega arith)

  pub drop_all : (n : ℕ) (xs : List A) → length xs ≤ n → drop n xs ≡ []
  drop_all zero [] h = refl
  drop_all zero (x ∷ xs) h = elim h [ ]
  drop_all (suc n) [] h = refl
  drop_all (suc n) (x ∷ xs) h = drop_all n xs (omega arith)

  -- A predicate holds of every element.
  abbrev pub All {κ} : (A → Type κ) → List A → Type κ
  All P [] = Unit
  All P (x ∷ xs) = P x × All P xs

  pub All-append {κ} : (P : A → Type κ) (xs ys : List A) → All P xs → All P ys → All P (xs ++ ys)
  All-append P [] ys h k = k
  All-append P (x ∷ xs) ys h k = (h.0, All-append P xs ys h.1 k)

  pub get_or-append_skip :
      (n m : ℕ) (xs ys : List A) (d : A)
      → length xs ≡ n
      → get_or (xs ++ ys) (n + m) d ≡ get_or ys m d
  get_or-append_skip zero m [] ys d h = ap (λ k. get_or ys k d) (omega arith)
  get_or-append_skip zero m (x ∷ xs) ys d h = absurd (omega arith)
  get_or-append_skip (suc n) m [] ys d h = absurd (omega arith)
  get_or-append_skip (suc n) m (x ∷ xs) ys d h =
      let step : suc n + m ≡ suc (n + m) = omega arith in
      ap (λ k. get_or (x ∷ (xs ++ ys)) k d) step ∙ get_or-append_skip n m xs ys d (omega arith)

  pub take-take_le : (a b : ℕ) (xs : List A) → a ≤ b → take a (take b xs) ≡ take a xs
  take-take_le zero b xs h = refl
  take-take_le (suc a) zero xs h = absurd (omega arith)
  take-take_le (suc a) (suc b) [] h = refl
  take-take_le (suc a) (suc b) (x ∷ xs) h = ap (◌∷◌ x) (take-take_le a b xs (omega arith))

  pub drop-take : (a b : ℕ) (xs : List A) → drop a (take b xs) ≡ take (b - a) (drop a xs)
  drop-take zero b xs = ap (λ k. take k xs) (omega arith)
  drop-take (suc a) zero xs =
      let e : 0 - suc a ≡ 0 = omega arith in ap (λ k. take k (drop (suc a) xs)) (sym e)
  drop-take (suc a) (suc b) [] = sym (take_nil (suc b - suc a))
  drop-take (suc a) (suc b) (x ∷ xs) =
      let e : suc b - suc a ≡ b - a = omega arith in
      drop-take a b xs ∙ ap (λ k. take k (drop a xs)) (sym e)

  -- A range that ends inside a prefix is read off the prefix.
  pub slice-take :
      (n from to : ℕ) (xs : List A) → to ≤ n → slice (take n xs) from to ≡ slice xs from to
  slice-take n from to xs h =
      ap (take (to - from)) (drop-take from n xs)
      ∙ take-take_le (to - from) (n - from) (drop from xs) (omega arith)

  drop_nil : (n : ℕ) → drop n [] ≡ []
  drop_nil zero = refl
  drop_nil (suc n) = refl

  pub drop-drop : (a b : ℕ) (xs : List A) → drop (a + b) xs ≡ drop b (drop a xs)
  drop-drop zero b xs = ap (λ k. drop k xs) (omega arith)
  drop-drop (suc a) b [] =
      let e : suc a + b ≡ suc (a + b) = omega arith in ap (λ k. drop k []) e ∙ sym (drop_nil b)
  drop-drop (suc a) b (x ∷ xs) =
      let e : suc a + b ≡ suc (a + b) = omega arith in
      ap (λ k. drop k (x ∷ xs)) e ∙ drop-drop a b xs

  -- Reading at an offset, where what stands there is known.
  pub slice_at :
      (xs ys : List A) (off from to : ℕ)
      → drop off xs ≡ ys
      → slice xs (off + from) (off + to) ≡ slice ys from to
  slice_at xs ys off from to h =
      let e : off + to - (off + from) ≡ to - from = omega arith in
      ap (λ k. take k (drop (off + from) xs)) e
      ∙ ap (take (to - from)) (drop-drop off from xs ∙ ap (drop from) h)

  pub drop_at : (xs ys : List A) (off n : ℕ) → drop off xs ≡ ys → drop (off + n) xs ≡ drop n ys
  drop_at xs ys off n h = drop-drop off n xs ∙ ap (drop n) h

  pub get_or-drop : (xs : List A) (a b : ℕ) (d : A) → get_or xs (a + b) d ≡ get_or (drop a xs) b d
  get_or-drop xs zero b d = ap (λ k. get_or xs k d) (omega arith)
  get_or-drop [] (suc a) b d = refl
  get_or-drop (x ∷ xs) (suc a) b d =
      let e : suc a + b ≡ suc (a + b) = omega arith in
      ap (λ k. get_or (x ∷ xs) k d) e ∙ get_or-drop xs a b d

  pub get_at :
      (xs ys : List A) (off i : ℕ) (d : A)
      → drop off xs ≡ ys
      → get_or xs (off + i) d ≡ get_or ys i d
  get_at xs ys off i d h = get_or-drop xs off i d ∙ ap (λ zs. get_or zs i d) h

  abbrev pub set : List A → ℕ → A → List A
  set [] i v = []
  set (x ∷ xs) zero v = v ∷ xs
  set (x ∷ xs) (suc i) v = x ∷ set xs i v

  abbrev pub replicate : ℕ → A → List A
  replicate zero a = []
  replicate (suc n) a = a ∷ replicate n a

  abbrev pub concat : List (List A) → List A
  concat [] = []
  concat (x ∷ xs) = x ++ concat xs
