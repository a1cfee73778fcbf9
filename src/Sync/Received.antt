-- ===== src/Sync/Received.antt =====
-- The pieces of a message that have been received (src/sync/protocol.rs, `PartialMessage`), and the
-- message that they are joined to.
use peat_btle.Prelude.{
  ℕ, zero, suc, ◌+◌, ◌<◌, ◌≡◌, ◌≢◌, refl, ap, sym, ◌∙◌, Option, none, some, List, [], ◌∷◌, ◌⊎◌, inl,
  inr, length, get_elem?, concat, ℕ_discrete, arith, Option-cases,
}
use peat_btle.Prelude.Assoc
use peat_btle.Prelude.Assoc.{
  Distinct, insert, remove, insert-Distinct, get-insert, get-insert_self, get-insert_ne,
  get-remove_self, remove-Distinct,
}
use peat_btle.Sync.Pigeonhole.{Below, Full}
use peat_btle.Sync.Chunk.{PartialMessage, ChunkReassembler, join}

pub get_elem?-lt :
    {A : Type 0} (i : ℕ) (x : A) (xs : List A) → get_elem? xs i ≡ some x → i < length xs
get_elem?-lt i x [] h = absurd (ground arith)
get_elem?-lt zero x (y ∷ xs) h = omega arith
get_elem?-lt (suc i) x (y ∷ xs) h = omega (arith, get_elem?-lt i x xs h)

-- What has been received of a message: some of its pieces, each under its index.
abbrev pub Received : List (List ℕ) → List (ℕ × List ℕ) → Type 0
Received pieces m =
    Distinct ℕ_discrete m
    × ((j : ℕ) (v : List ℕ) → Assoc.get ℕ_discrete j m ≡ some v → get_elem? pieces j ≡ some v)

abbrev pub IsPartial : List (List ℕ) → Option PartialMessage → Type 0
IsPartial pieces none = Unit
IsPartial pieces (some p) = (p.expected ≡ length pieces) × Received pieces p.received

-- The reassembler holds nothing of the message but pieces of it.
abbrev pub IsPartOf : List (List ℕ) → ℕ → ChunkReassembler → Type 0
IsPartOf pieces message_id r =
    Distinct ℕ_discrete r.partials × IsPartial pieces (Assoc.get ℕ_discrete message_id r.partials)

-- What the reassembler has of the message.
abbrev pub received_of : Option PartialMessage → List (ℕ × List ℕ)
received_of none = []
received_of (some p) = p.received

-- A piece has arrived, or is the one that stands at the index.
abbrev pub HasPiece : ℕ → ℕ → ChunkReassembler → ℕ → Type 0
HasPiece message_id i r j =
    (i ≡ j)
    ⊎ (Assoc.get ℕ_discrete j (received_of (Assoc.get ℕ_discrete message_id r.partials)) ≢ none)

pub Received-Below :
    (pieces : List (List ℕ)) (m : List (ℕ × List ℕ)) → Received pieces m → Below (length pieces) m
Received-Below pieces m h j v e = get_elem?-lt j v pieces (h.1 j v e)

pub Received-insert :
    (pieces : List (List ℕ)) (i : ℕ) (piece : List ℕ) (m : List (ℕ × List ℕ))
    → get_elem? pieces i ≡ some piece
    → Received pieces m
    → Received pieces (insert ℕ_discrete i piece m)
Received-insert pieces i piece m p h = (
  insert-Distinct ℕ_discrete i piece m h.0,
  λ j v e. elim (ℕ_discrete i j) [
    | yes q ↦ ground (arith, get-insert ℕ_discrete j i piece m)
    | no q ↦ h.1 j v (sym (get-insert_ne ℕ_discrete j i piece m q) ∙ e)
  ],
)

pub join_all :
    (i : ℕ) (pieces : List (List ℕ)) (m : List (ℕ × List ℕ))
    → ((j : ℕ) (v : List ℕ) → get_elem? pieces j ≡ some v → Assoc.get ℕ_discrete (i + j) m ≡ some v)
    → join (length pieces) i m ≡ some (concat pieces)
unfolding join
join_all i [] m h = refl
join_all i (piece ∷ pieces) m h =
    let here : Assoc.get ℕ_discrete i m ≡ some piece =
      ap (λ k. Assoc.get ℕ_discrete k m) (omega arith) ∙ h 0 piece refl in
    let rest =
      join_all (suc i) pieces m
        (λ j v e. ap (λ k. Assoc.get ℕ_discrete k m) (omega arith) ∙ h (suc j) v e) in
    ground arith

-- A full map of received pieces is joined to the whole message.
pub join-Full :
    (pieces : List (List ℕ)) (m : List (ℕ × List ℕ))
    → Received pieces m
    → Full (length pieces) m
    → join (length pieces) 0 m ≡ some (concat pieces)
join-Full pieces m h f =
    join_all 0 pieces m
      (λ j v e. ap (λ k. Assoc.get ℕ_discrete k m) {y = j} (omega arith) ∙ found j v e)
  where
    found : (j : ℕ) (v : List ℕ) → get_elem? pieces j ≡ some v → Assoc.get ℕ_discrete j m ≡ some v
    found j v e = elim (Option-cases (Assoc.get ℕ_discrete j m)) [
      | inl a ↦ absurd (f j (get_elem?-lt j v pieces e) a)
      | inr (w, a) ↦ a ∙ (sym (h.1 j w a) ∙ e)
    ]
