-- ===== src/Sync/Steps.antt =====
-- One chunk of a message that arrives in order (src/sync/protocol.rs, `ChunkReassembler::process`).
use peat_btle.Prelude.{
  ℕ, zero, suc, ◌+◌, ◌≤◌, ◌<◌, ◌≡◌, ◌≢◌, ap, ◌∙◌, none, some, List, [], ◌∷◌, ◌⊎◌, inl, inr, length,
  get_elem?, concat, ℕ_discrete, arith, ltb, if◌then◌else◌,
}
use peat_btle.Prelude.Assoc
use peat_btle.Prelude.Assoc.{
  Distinct, insert, get-insert, get-insert_self, get-insert_ne, insert-Distinct,
}
use peat_btle.Sync.Chunk.{SyncChunk, ChunkReassembler, process, with_partials}
use peat_btle.Sync.Pigeonhole.{length-Full}
use peat_btle.Sync.Received.{IsPartOf, received_of, Received-Below}
use peat_btle.Sync.Transfer.{
  partial_for, process_lem, process_more, received_with, updated_by, held, with_piece,
}

-- What the reassembler has of a message.
abbrev pub stored : ℕ → ChunkReassembler → List (ℕ × List ℕ)
stored message_id r = received_of (Assoc.get ℕ_discrete message_id r.partials)

-- Of the message, the first `k` pieces are there, and no others.
abbrev pub Upto : List (List ℕ) → ℕ → ℕ → ChunkReassembler → Type 0
Upto pieces message_id k r =
    IsPartOf pieces message_id r
    × ((j : ℕ)
        → Assoc.get ℕ_discrete j (stored message_id r)
          ≡ (if ltb j k then get_elem? pieces j else none))

get_elem?-some : {A : Type 0} (i : ℕ) (xs : List A) → i < length xs → get_elem? xs i ≢ none
get_elem?-some i [] l h = absurd (omega arith)
get_elem?-some zero (y ∷ xs) l h = ground arith
get_elem?-some (suc i) (y ∷ xs) l h = get_elem?-some i xs (omega arith) h

module _ (pieces : List (List ℕ)) (c : SyncChunk) (now : ℕ) (r : ChunkReassembler)
    (many : 2 ≤ length pieces) (total : c.header.total_chunks ≡ length pieces)
    (piece : get_elem? pieces c.header.chunk_index ≡ some c.payload)
    (upto : Upto pieces c.header.message_id c.header.chunk_index r) where
  -- What is there with the chunk.
  get-received_with :
      (j : ℕ)
      → Assoc.get ℕ_discrete j (received_with c now r)
        ≡ (if ltb j (c.header.chunk_index + 1) then get_elem? pieces j else none)
  get-received_with j =
      let before : Assoc.get ℕ_discrete j (partial_for c now r).received
          ≡ (if ltb j c.header.chunk_index then get_elem? pieces j else none) =
        ap (Assoc.get ℕ_discrete j) (held pieces c now r many total piece upto.0) ∙ upto.1 j in
      elim (ℕ_discrete c.header.chunk_index j) [
        | yes p ↦ ground (
          arith,
          get-insert ℕ_discrete j c.header.chunk_index c.payload (partial_for c now r).received,
        )
        | no p ↦ ground (
          arith,
          before,
          get-insert ℕ_discrete j c.header.chunk_index c.payload (partial_for c now r).received,
        )
      ]

  incomplete :
      c.header.chunk_index + 1 < length pieces → length (received_with c now r) ≢ length pieces
  incomplete l e =
      let part = with_piece pieces c now r many total piece upto.0 in
      length-Full (length pieces) (received_with c now r) part.0
        (Received-Below pieces (received_with c now r) part) e [] (c.header.chunk_index + 1) l
        (ground (arith, get-received_with (c.header.chunk_index + 1)))

  pub step_more :
      c.header.chunk_index + 1 < length pieces
      → process c now r ≡ (
        none,
        with_partials (insert ℕ_discrete c.header.message_id (updated_by c now r) r.partials) r,
      )
  step_more l = process_more pieces c now r many total piece upto.0 (incomplete l)

  pub step-Upto :
      c.header.chunk_index + 1 < length pieces
      → Upto pieces c.header.message_id (c.header.chunk_index + 1) (process c now r).1
  step-Upto l = (
    (process_lem pieces c now r many total piece upto.0).0,
    λ j.
        ap (λ out. Assoc.get ℕ_discrete j (stored c.header.message_id out.1)) (step_more l)
        ∙ (ap (λ o. Assoc.get ℕ_discrete j (received_of o))
              (get-insert_self ℕ_discrete c.header.message_id (updated_by c now r) r.partials)
            ∙ get-received_with j),
  )

  pub last_out :
      c.header.chunk_index + 1 ≡ length pieces → (process c now r).0 ≡ some (concat pieces)
  last_out l = (process_lem pieces c now r many total piece upto.0).2.1 (λ j h. there j h)
    where
      there :
          (j : ℕ)
          → j < length pieces
          → (c.header.chunk_index ≡ j)
            ⊎ (Assoc.get ℕ_discrete j (stored c.header.message_id r) ≢ none)
      there j h = elim (ℕ_discrete c.header.chunk_index j) [
        | yes p ↦ inl p
        | no p ↦ inr (λ e. get_elem?-some j pieces h (ground (arith, e, upto.1 j)))
      ]
