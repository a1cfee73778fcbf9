-- ===== src/Sync/Pigeonhole.antt =====
-- Maps whose keys are the indexes below a bound: how many entries they have.
use peat_btle.Prelude.{
  ℕ, zero, suc, ◌≤◌, ◌<◌, ◌≡◌, ◌≢◌, sym, ◌∙◌, none, some, List, [], ◌∷◌, inl, inr, length,
  ℕ_discrete, arith, Option-cases,
}
use peat_btle.Prelude.Assoc
use peat_btle.Prelude.Assoc.{
  Distinct, remove, remove-Distinct, get-remove_ne, get-remove_self, length-remove, insert,
  insert-Distinct, length-insert, get-insert_ne,
}

module _ {V : Type 0} where
  abbrev pub Below : ℕ → List (ℕ × V) → Type 0
  Below n m = (j : ℕ) (v : V) → Assoc.get ℕ_discrete j m ≡ some v → j < n

  abbrev pub Full : ℕ → List (ℕ × V) → Type 0
  Full n m = (j : ℕ) → j < n → Assoc.get ℕ_discrete j m ≢ none

  lower_bound :
      (n : ℕ) (m : List (ℕ × V)) → Assoc.get ℕ_discrete n m ≡ none → Below (suc n) m → Below n m
  lower_bound n m h b j v e = elim (ℕ_discrete n j) [
    | yes p ↦ absurd (ground (arith, h, e))
    | no p ↦ let l = b j v e in omega arith
  ]

  lower_removed :
      (n : ℕ) (m : List (ℕ × V))
      → Distinct ℕ_discrete m
      → Below (suc n) m
      → Below n (remove ℕ_discrete n m)
  lower_removed n m d b j v e = elim (ℕ_discrete n j) [
    | yes p ↦ absurd (ground (arith, get-remove_self ℕ_discrete n m d))
    | no p ↦ let l = b j v (sym (get-remove_ne ℕ_discrete j n m p) ∙ e) in omega arith
  ]

  get_head : (k : ℕ) (v : V) (m : List (ℕ × V)) → Assoc.get ℕ_discrete k ((k, v) ∷ m) ≡ some v
  unfolding Assoc.get
  get_head k v m = ground arith

  -- A map has at most as many entries as there are indexes.
  pub length-le : (n : ℕ) (m : List (ℕ × V)) → Distinct ℕ_discrete m → Below n m → length m ≤ n
  length-le zero [] d b = omega arith
  length-le zero ((k, v) ∷ m) d b = let l = b k v (get_head k v m) in absurd (omega arith)
  length-le (suc n) m d b = elim (Option-cases (Assoc.get ℕ_discrete n m)) [
    | inl e ↦ let ih = length-le n m d (lower_bound n m e b) in omega arith
    | inr (v, e) ↦
        let ih =
          length-le n (remove ℕ_discrete n m) (remove-Distinct ℕ_discrete n m d)
            (lower_removed n m d b) in
        omega (arith, length-remove ℕ_discrete n v m e)
  ]

  Full-removed : (n : ℕ) (m : List (ℕ × V)) → Full (suc n) m → Full n (remove ℕ_discrete n m)
  Full-removed n m f j l e =
      let p : n ≢ j = λ q. omega arith in
      f j (omega arith) (sym (get-remove_ne ℕ_discrete j n m p) ∙ e)

  -- A map that has every index has that many entries.
  pub le-length : (n : ℕ) (m : List (ℕ × V)) → Distinct ℕ_discrete m → Full n m → n ≤ length m
  le-length zero m d f = omega arith
  le-length (suc n) m d f = elim (Option-cases (Assoc.get ℕ_discrete n m)) [
    | inl e ↦ absurd (f n (omega arith) e)
    | inr (v, e) ↦
        let ih =
          le-length n (remove ℕ_discrete n m) (remove-Distinct ℕ_discrete n m d)
            (Full-removed n m f) in
        omega (arith, length-remove ℕ_discrete n v m e)
  ]

  overfull :
      (n j : ℕ) (v : V) (m : List (ℕ × V)) → j < n → Below n m → Below n (insert ℕ_discrete j v m)
  overfull n j v m l b i w e = elim (ℕ_discrete j i) [
    | yes p ↦ omega arith
    | no p ↦ b i w (sym (get-insert_ne ℕ_discrete i j v m p) ∙ e)
  ]

  -- A map with keys below a bound and as many entries has every index.
  pub length-Full :
      (n : ℕ) (m : List (ℕ × V)) → Distinct ℕ_discrete m → Below n m → length m ≡ n → V → Full n m
  length-Full n m d b h v j l e =
      let more =
        length-le n (insert ℕ_discrete j v m) (insert-Distinct ℕ_discrete j v m d)
          (overfull n j v m l b) in
      ground (arith, length-insert ℕ_discrete j v m)
