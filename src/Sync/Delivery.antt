-- ===== src/Sync/Delivery.antt =====
-- A message sent in chunks and received in order (src/sync/protocol.rs, `chunk_data` and
-- `ChunkReassembler`).
use peat_btle.Prelude.{
  false, ℕ, suc, ◌+◌, ◌-◌, ◌%◌, ◌*◌, ◌≤◌, ◌<◌, ◌≡◌, refl, ap, sym, ◌∙◌, none, some, List, [], ◌∷◌,
  length, append_nil, get_elem?, concat, ℕ_discrete, arith, ◌==◌, ltb, max, if◌then◌else◌,
}
use mathlib.Core.Path.{subst}
use peat_btle.Prelude.Bytes.{u16_mod}
use peat_btle.Prelude.Assoc
use peat_btle.Prelude.Assoc.{
  Distinct, insert, get-insert, get-insert_self, get-insert_ne, insert-Distinct,
}
use peat_btle.Prelude.Chunks.{chunks, div_ceil, div_ceil-le, concat-chunks, length-chunks}
use peat_btle.Sync.Chunk.{
  SyncChunk, ChunkReassembler, process, chunk_data, number_pieces, or_empty_chunk,
  chunk_header_size,
}
use peat_btle.Sync.Received.{IsPartial, received_of}
use peat_btle.Sync.Steps.{Upto, step_more, step-Upto, last_out}

-- The messages that come out of the reassembler when the chunks arrive one after the other, at the
-- times that the clock gives from `i` on.
abbrev pub delivered : (ℕ → ℕ) → ℕ → List SyncChunk → ChunkReassembler → List (List ℕ)
delivered clock i [] r = []
delivered clock i (c ∷ cs) r =
    let out = process c (clock i) r in
    let rest = delivered clock (suc i) cs out.1 in
    elim out.0 [ none ↦ rest | some message ↦ message ∷ rest ]

pub delivered-some :
    (clock : ℕ → ℕ) (i : ℕ) (c : SyncChunk) (cs : List SyncChunk) (r : ChunkReassembler)
    (message : List ℕ)
    → (process c (clock i) r).0 ≡ some message
    → delivered clock i (c ∷ cs) r ≡ message ∷ delivered clock (suc i) cs (process c (clock i) r).1
delivered-some clock i c cs r message e = ground arith

pub delivered-none :
    (clock : ℕ → ℕ) (i : ℕ) (c : SyncChunk) (cs : List SyncChunk) (r : ChunkReassembler)
    → (process c (clock i) r).0 ≡ none
    → delivered clock i (c ∷ cs) r ≡ delivered clock (suc i) cs (process c (clock i) r).1
delivered-none clock i c cs r e = ground arith

-- The chunk of the `k`-th piece.
abbrev numbered : ℕ → ℕ → ℕ → List ℕ → SyncChunk
numbered message_id total k piece = record {
  header = record { message_id = message_id; chunk_index = k % u16_mod; total_chunks = total };
  payload = piece;
}

-- Every piece of a message has an index that fits in 16 bits.
index_fits : (k n m : ℕ) → k + suc n ≡ m → m < u16_mod → k % u16_mod ≡ k
index_fits k n m e l = omega arith

piece_at :
    (k : ℕ) (piece : List ℕ) (rest pieces : List (List ℕ))
    → ((j : ℕ) → get_elem? (piece ∷ rest) j ≡ get_elem? pieces (k + j))
    → k % u16_mod ≡ k
    → get_elem? pieces (k % u16_mod) ≡ some piece
piece_at k piece rest pieces same word =
    ap (get_elem? pieces) {y = k + 0} (omega arith) ∙ sym (same 0)

Upto-at :
    (pieces : List (List ℕ)) (message_id i k : ℕ) (r : ChunkReassembler)
    → i ≡ k
    → Upto pieces message_id k r
    → Upto pieces message_id i r
Upto-at pieces message_id i k r e = subst (λ i. Upto pieces message_id i r) (sym e)

-- From the `k`-th piece on, where the earlier ones are there.
delivered_from :
    (clock : ℕ → ℕ) (message_id k : ℕ) (piece : List ℕ) (rest pieces : List (List ℕ))
    (r : ChunkReassembler)
    → 2 ≤ length pieces
    → length pieces < u16_mod
    → k + suc (length rest) ≡ length pieces
    → ((j : ℕ) → get_elem? (piece ∷ rest) j ≡ get_elem? pieces (k + j))
    → Upto pieces message_id k r
    → delivered clock k (number_pieces message_id (length pieces) k (piece ∷ rest)) r
      ≡ concat pieces ∷ []
unfolding number_pieces
delivered_from clock message_id k piece [] pieces r many small len same upto =
    let word : k % u16_mod ≡ k = index_fits k 0 (length pieces) len small in
    let d : SyncChunk = numbered message_id (length pieces) k piece in
    let here : get_elem? pieces (k % u16_mod) ≡ some piece = piece_at k piece [] pieces same word in
    let upto' = Upto-at pieces message_id (k % u16_mod) k r word upto in
    delivered-some clock k d [] r (concat pieces)
      (last_out pieces d (clock k) r many refl here upto' (omega arith))
delivered_from clock message_id k piece (q ∷ qs) pieces r many small len same upto =
    let word : k % u16_mod ≡ k = index_fits k (length (q ∷ qs)) (length pieces) len small in
    let d : SyncChunk = numbered message_id (length pieces) k piece in
    let here : get_elem? pieces (k % u16_mod) ≡ some piece =
      piece_at k piece (q ∷ qs) pieces same word in
    let upto' = Upto-at pieces message_id (k % u16_mod) k r word upto in
    let l : k % u16_mod + 1 < length pieces = omega arith in
    let next = step-Upto pieces d (clock k) r many refl here upto' l in
    let r' : ChunkReassembler = (process d (clock k) r).1 in
    let quiet : (process d (clock k) r).0 ≡ none =
      ap (λ out. out.0) (step_more pieces d (clock k) r many refl here upto' l) in
    delivered-none clock k d (number_pieces message_id (length pieces) (suc k) (q ∷ qs)) r quiet
    ∙ (delivered_from clock message_id (suc k) q qs pieces r' many small (omega arith)
        (λ j. same (suc j) ∙ ap (get_elem? pieces) (omega arith))
        (Upto-at pieces message_id (suc k) (k % u16_mod + 1) r' (omega arith) next))

-- Nothing of the message is there yet.
abbrev pub IsFresh : ℕ → ChunkReassembler → Type 0
IsFresh message_id r =
    Distinct ℕ_discrete r.partials × (Assoc.get ℕ_discrete message_id r.partials ≡ none)

fresh-Upto :
    (pieces : List (List ℕ)) (message_id : ℕ) (r : ChunkReassembler)
    → IsFresh message_id r
    → Upto pieces message_id 0 r
unfolding Assoc.get
fresh-Upto pieces message_id r h = (
  (h.0, subst (IsPartial pieces) (sym h.1) tt),
  λ j. ap (λ o. Assoc.get ℕ_discrete j (received_of o)) h.1 ∙ no_earlier j,
)
  where
    no_earlier : (j : ℕ) → none ≡ (if ltb j 0 then get_elem? pieces j else none)
    no_earlier j = ground arith

-- The chunks of all pieces.
delivered_pieces :
    (clock : ℕ → ℕ) (message_id : ℕ) (pieces : List (List ℕ)) (r : ChunkReassembler)
    → length pieces < u16_mod
    → IsFresh message_id r
    → delivered clock 0
        (or_empty_chunk message_id (number_pieces message_id (max (length pieces) 1) 0 pieces))
        r
      ≡ concat pieces ∷ []
unfolding number_pieces or_empty_chunk process
delivered_pieces clock message_id [] r small h = refl
delivered_pieces clock message_id (p ∷ []) r small h =
    ap (λ message. message ∷ []) (sym (append_nil p))
delivered_pieces clock message_id (p ∷ (q ∷ qs)) r small h =
    ap (λ n. delivered clock 0 (number_pieces message_id n 0 (p ∷ (q ∷ qs))) r)
      {y = length (p ∷ (q ∷ qs))} (omega arith)
    ∙ delivered_from clock message_id 0 p (q ∷ qs) (p ∷ (q ∷ qs)) r (omega arith) small
        (omega arith) (λ j. ap (get_elem? (p ∷ (q ∷ qs))) (omega arith))
        (fresh-Upto (p ∷ (q ∷ qs)) message_id r h)

-- Data that `chunk_data` splits into at most 65,535 chunks, at an MTU above the size of a chunk's
-- header. The chunks arrive in order, at whatever times, at a reassembler that has nothing of a
-- message with their id: it hands over the data, once and unchanged.
pub delivered-chunk_data :
    (clock : ℕ → ℕ) (bytes : List ℕ) (mtu message_id : ℕ) (r : ChunkReassembler)
    → chunk_header_size < mtu
    → length bytes ≤ 65535 * (mtu - chunk_header_size)
    → IsFresh message_id r
    → delivered clock 0 (chunk_data bytes mtu message_id) r ≡ bytes ∷ []
unfolding chunk_data
delivered-chunk_data clock bytes mtu message_id r room fits h =
    let size : ℕ = mtu - chunk_header_size in
    let pieces : List (List ℕ) = chunks bytes size in
    let count : length pieces ≡ div_ceil (length bytes) size =
      length-chunks bytes size (omega arith) in
    let few : div_ceil (length bytes) size ≤ 65535 =
      div_ceil-le 65535 (length bytes) size (omega arith) fits in
    let nonzero : (mtu - chunk_header_size == 0) ≡ false = ground arith in
    let total : max (div_ceil (length bytes) size) 1 % u16_mod ≡ max (length pieces) 1 =
      omega arith in
    ap
      (λ b.
        delivered clock 0
          (if b
            then []
            else or_empty_chunk message_id (
                number_pieces message_id (max (div_ceil (length bytes) size) 1 % u16_mod) 0 pieces))
          r)
      nonzero
    ∙ (ap
          (λ n.
            delivered clock 0 (or_empty_chunk message_id (number_pieces message_id n 0 pieces)) r)
          total
        ∙ (delivered_pieces clock message_id pieces r (omega arith) h
            ∙ ap (λ message. message ∷ []) (concat-chunks bytes size (omega arith))))
