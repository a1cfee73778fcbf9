-- ===== src/Sync/Transfer.antt =====
-- Chunked transfer (src/sync/protocol.rs): what a receiver makes of the chunks of one message.
use peat_btle.Prelude.{
  true, false, ℕ, ◌≤◌, ◌<◌, ◌≡◌, ◌≢◌, refl, ap, sym, ◌∙◌, Option, none, some, List, [], ◌⊎◌, inl,
  inr, ◌↔◌, length, get_elem?, concat, ℕ_discrete, arith, ◌==◌,
}
use mathlib.Core.Path.{subst}
use peat_btle.Prelude.Assoc
use peat_btle.Prelude.Assoc.{
  Distinct, insert, remove, insert-Distinct, get-insert, get-insert_self, get-insert_ne,
  get-remove_self, remove-Distinct,
}
use peat_btle.Sync.Pigeonhole.{Full, length-le, le-length, length-Full}
use peat_btle.Sync.Chunk.{
  SyncChunk, PartialMessage, ChunkReassembler, join, process, or_started, with_partials,
}
use peat_btle.Sync.Received.{
  Received, IsPartial, IsPartOf, received_of, HasPiece, Received-Below, Received-insert, join-Full,
}

-- The partial message that a chunk is added to.
abbrev pub partial_for : SyncChunk → ℕ → ChunkReassembler → PartialMessage
partial_for c now r =
    or_started c.header.total_chunks now (Assoc.get ℕ_discrete c.header.message_id r.partials)

abbrev pub received_with : SyncChunk → ℕ → ChunkReassembler → List (ℕ × List ℕ)
received_with c now r =
    insert ℕ_discrete c.header.chunk_index c.payload (partial_for c now r).received

abbrev pub updated_by : SyncChunk → ℕ → ChunkReassembler → PartialMessage
updated_by c now r = record {
  expected = (partial_for c now r).expected;
  received = received_with c now r;
  started_at = (partial_for c now r).started_at;
}

none-some : (v : List ℕ) → ¬ (none ≡ some v)
none-some v e = ground arith

partial_for-IsPartial :
    (pieces : List (List ℕ)) (total now : ℕ) (o : Option PartialMessage)
    → total ≡ length pieces
    → IsPartial pieces o
    → IsPartial pieces (some (or_started total now o))
unfolding Assoc.get
partial_for-IsPartial pieces total now none e h = (e, (tt, λ j v a. absurd (get_none j v a)))
  where
    get_none : (j : ℕ) (v : List ℕ) → ¬ (Assoc.get ℕ_discrete j [] ≡ some v)
    get_none j v a = none-some v a
partial_for-IsPartial pieces total now (some p) e h = h

received_of-or_started :
    (total now : ℕ) (o : Option PartialMessage) → (or_started total now o).received ≡ received_of o
received_of-or_started total now none = refl
received_of-or_started total now (some p) = refl

present :
    (i j : ℕ) (piece : List ℕ) (m : List (ℕ × List ℕ))
    → (Assoc.get ℕ_discrete j (insert ℕ_discrete i piece m) ≢ none)
      ↔ (i ≡ j) ⊎ (Assoc.get ℕ_discrete j m ≢ none)
present i j piece m = elim (ℕ_discrete i j) [
  | yes p ↦ (
    λ h. inl p,
    λ h e. none-some piece (
        sym e
        ∙ (ap (λ k. Assoc.get ℕ_discrete k (insert ℕ_discrete i piece m)) (sym p)
            ∙ get-insert_self ℕ_discrete i piece m)),
  )
  | no p ↦ (
    λ h. inr (λ e. h (get-insert_ne ℕ_discrete j i piece m p ∙ e)),
    λ h e. elim h [ inl q ↦ p q | inr q ↦ q (sym (get-insert_ne ℕ_discrete j i piece m p) ∙ e) ],
  )
]

module _ (pieces : List (List ℕ)) (c : SyncChunk) (now : ℕ) (r : ChunkReassembler)
    (many : 2 ≤ length pieces) (total : c.header.total_chunks ≡ length pieces)
    (piece : get_elem? pieces c.header.chunk_index ≡ some c.payload)
    (part : IsPartOf pieces c.header.message_id r) where
  started : IsPartial pieces (some (partial_for c now r))
  started =
      partial_for-IsPartial pieces c.header.total_chunks now
        (Assoc.get ℕ_discrete c.header.message_id r.partials) total part.1

  pub with_piece : Received pieces (received_with c now r)
  with_piece =
      Received-insert pieces c.header.chunk_index c.payload (partial_for c now r).received piece
        started.1

  process_last :
      length (received_with c now r) ≡ length pieces
      → process c now r ≡ (
        some (concat pieces),
        with_partials
            (remove ℕ_discrete c.header.message_id
              (insert ℕ_discrete c.header.message_id (updated_by c now r) r.partials))
            r,
      )
  unfolding process
  process_last e =
      let single : (c.header.total_chunks == 1) ≡ false = ground arith in
      let complete : (length (received_with c now r) == (partial_for c now r).expected) ≡ true =
        ground (arith, e, started.0) in
      let joined : join (partial_for c now r).expected 0 (received_with c now r)
          ≡ some (concat pieces) =
        ap (λ n. join n 0 (received_with c now r)) started.0
        ∙ join-Full pieces (received_with c now r) with_piece (
            length-Full (length pieces) (received_with c now r) with_piece.0
              (Received-Below pieces (received_with c now r) with_piece) e []) in
      rw (single, complete, joined) refl

  pub process_more :
      length (received_with c now r) ≢ length pieces
      → process c now r ≡ (
        none,
        with_partials (insert ℕ_discrete c.header.message_id (updated_by c now r) r.partials) r,
      )
  unfolding process
  process_more e =
      let single : (c.header.total_chunks == 1) ≡ false = ground arith in
      let partly : (length (received_with c now r) == (partial_for c now r).expected) ≡ false =
        ground (arith, e, started.0) in
      rw (single, partly) refl

  -- The pieces that the chunk is added to, before it and after it.
  pub held :
      (partial_for c now r).received
      ≡ received_of (Assoc.get ℕ_discrete c.header.message_id r.partials)
  held =
      received_of-or_started c.header.total_chunks now
        (Assoc.get ℕ_discrete c.header.message_id r.partials)

  has-present :
      (j : ℕ)
      → HasPiece c.header.message_id c.header.chunk_index r j
        ↔ (Assoc.get ℕ_discrete j (received_with c now r) ≢ none)
  has-present j =
      let iff = present c.header.chunk_index j c.payload (partial_for c now r).received in
      (
        λ h. iff.1 (
            subst (λ m. (c.header.chunk_index ≡ j) ⊎ (Assoc.get ℕ_discrete j m ≢ none)) (sym held)
              h),
        λ h.
            subst (λ m. (c.header.chunk_index ≡ j) ⊎ (Assoc.get ℕ_discrete j m ≢ none)) held
              (iff.0 h),
      )

-- With a chunk, each piece of a message of `total` pieces is there.
abbrev pub CompletedBy : ℕ → SyncChunk → ChunkReassembler → Type 0
CompletedBy total c r = (j : ℕ) → j < total → HasPiece c.header.message_id c.header.chunk_index r j

-- What a chunk is to give: the reassembler stays part of the message, and the message comes out
-- exactly when it is complete, and nothing else.
abbrev Outcome :
    List (List ℕ) → SyncChunk → ChunkReassembler → Option (List ℕ) × ChunkReassembler → Type 0
Outcome pieces c r out =
    IsPartOf pieces c.header.message_id out.1
    × ((out.0 ≡ none) ⊎ (out.0 ≡ some (concat pieces)))
    × ((out.0 ≡ some (concat pieces)) ↔ CompletedBy (length pieces) c r)

-- A reassembler that holds nothing but pieces of a message of two pieces or more receives one of
-- its chunks, in any order and perhaps again. It still holds nothing but pieces of the message,
-- what it hands over is the whole message or nothing, and it is the message exactly when each
-- piece is there with this chunk.
pub process_lem :
    (pieces : List (List ℕ)) (c : SyncChunk) (now : ℕ) (r : ChunkReassembler)
    → 2 ≤ length pieces
    → c.header.total_chunks ≡ length pieces
    → get_elem? pieces c.header.chunk_index ≡ some c.payload
    → IsPartOf pieces c.header.message_id r
    → IsPartOf pieces c.header.message_id (process c now r).1
      × (((process c now r).0 ≡ none) ⊎ ((process c now r).0 ≡ some (concat pieces)))
      × (((process c now r).0 ≡ some (concat pieces)) ↔ CompletedBy (length pieces) c r)
process_lem pieces c now r many total piece part =
    let id : ℕ = c.header.message_id in
    let m = received_with c now r in
    let part' = with_piece pieces c now r many total piece part in
    let here = has-present pieces c now r many total piece part in
    let upd : PartialMessage = updated_by c now r in
    let kept : List (ℕ × PartialMessage) = insert ℕ_discrete id upd r.partials in
    let distinct : Distinct ℕ_discrete kept = insert-Distinct ℕ_discrete id upd r.partials part.0 in
    elim (ℕ_discrete (length m) (length pieces)) [
      | yes e ↦
          subst (Outcome pieces c r) (sym (process_last pieces c now r many total piece part e)) (
            (
              remove-Distinct ℕ_discrete id kept distinct,
              subst (IsPartial pieces) (sym (get-remove_self ℕ_discrete id kept distinct)) tt,
            ),
            inr refl,
            ((
              λ h j l.
                  (here j).1 (
                    length-Full (length pieces) m part'.0 (Received-Below pieces m part') e [] j l),
              λ h. refl,
            )),
          )
      | no e ↦
          subst (Outcome pieces c r) (sym (process_more pieces c now r many total piece part e)) (
            (
              distinct,
              subst (IsPartial pieces) (sym (get-insert_self ℕ_discrete id upd r.partials))
                  ((started pieces c now r many total piece part).0, part'),
            ),
            inl refl,
            ((
              λ h. absurd (none-some (concat pieces) h),
              λ h. absurd (e (exact m part' (λ j l. (here j).0 (h j l)))),
            )),
          )
    ]
  where
    exact :
        (m : List (ℕ × List ℕ))
        → Received pieces m
        → Full (length pieces) m
        → length m ≡ length pieces
    exact m p f = omega (
      arith,
      length-le (length pieces) m p.0 (Received-Below pieces m p),
      le-length (length pieces) m p.0 f,
    )
