-- ===== src/Gatt/Session.antt =====
-- A fragmented payload from one session to another (src/gatt/protocol.rs, `fragment_payload` and
-- `process_incoming`).
use peat_btle.Prelude.{
  ℕ, zero, suc, ◌+◌, ◌*◌, ◌%◌, ◌≤◌, ◌<◌, ◌≡◌, ◌≢◌, refl, ap, ◌∙◌, true, false, Option, none, some,
  List, [], ◌∷◌, ltb, if◌then◌else◌, length, get_or, drop, concat, get_at, drop_at, arith,
}
use peat_btle.Prelude.Bytes.{u16_mod}
use peat_btle.Prelude.Chunks.{chunks, concat-chunks, length-chunks, two-le-div_ceil, div_ceil-le}
use peat_btle.Gatt.Message.{SyncMessage, SyncMessageType, encode, error}
use peat_btle.Gatt.Fragments.{number_chunks, fragment_payload, is_complete}
use peat_btle.Gatt.Reassembly.{
  elem, covers, fragment, after, start-fragment, add_fragment-fragment, done-add_fragment,
  reassemble-after, all_some-filled,
}
use peat_btle.Gatt.Framing.{IsWf, decode_lem}
use peat_btle.Gatt.Protocol.{
  SyncProtocol, Received, process_incoming, on_fragment, begin_reassembly, deliver,
}

abbrev Delivered : Type 0
Delivered = SyncMessageType × List ℕ

abbrev prepend : Option Delivered → List Delivered → List Delivered
prepend none ds = ds
prepend (some d) ds = d ∷ ds

-- The packets of the messages come in one after another: the state at the end, and what was handed
-- over. `none` is a panic.
unfoldable pub receive :
    SyncProtocol → List SyncMessage → Option (SyncProtocol × List (SyncMessageType × List ℕ))
receive p [] = some (p, [])
receive p (m ∷ ms) = elim (process_incoming p (encode m)) [
  | none ↦ none
  | some (p', out) ↦ elim (receive p' ms) [ none ↦ none | some (q, ds) ↦ some (q, prepend out ds) ]
]

-- The indices below `k`, the last one first.
abbrev downto : ℕ → List ℕ
downto zero = []
downto (suc k) = k ∷ downto k

elem-downto : (j k : ℕ) → elem j (downto k) ≡ ltb j k
elem-downto j zero = ground arith
elem-downto j (suc k) = ground (arith, elem-downto j k)

covers_all : (a m k : ℕ) → a + m ≤ k → covers a m (downto k) ≡ true
covers_all a zero k h = refl
covers_all a (suc m) k h = ground (arith, elem-downto a k, covers_all (a + 1) m k)

covers_short : (a m k : ℕ) → a ≤ k → k < a + m → covers a m (downto k) ≡ false
covers_short a zero k h l = absurd (omega arith)
covers_short a (suc m) k h l = ground (arith, elem-downto a k, covers_short (a + 1) m k)

module _ (t : SyncMessageType) (seq : ℕ) (cs : List (List ℕ)) (ne : t ≢ error)
    (word : seq < u16_mod) (many : 1 < length cs) (few : length cs ≤ 255) where
  -- The session while it reassembles, and what it hands over when it is done.
  step_result : SyncProtocol → List ℕ → Received
  step_result p seen =
      if covers 0 (length cs) seen
      then (record p { reassembler = none }, some (t, concat cs))
      else (record p { reassembler = some (after t seq cs seen) }, none)

  fragment-IsWf : (i : ℕ) → i < length cs → IsWf (fragment t seq cs i)
  fragment-IsWf i h = record { seq_word = word; total_byte = omega arith; index_byte = omega arith }

  first_step :
      (p : SyncProtocol) (i : ℕ)
      → i < length cs
      → p.reassembler ≡ none
      → process_incoming p (encode (fragment t seq cs i)) ≡ some (step_result p (i ∷ []))
  unfolding process_incoming on_fragment begin_reassembly deliver is_complete step_result
  first_step p i h idle =
      rw (decode_lem (fragment t seq cs i) (fragment-IsWf i h) ne, process_incoming)
        (ground (
          arith,
          start-fragment t seq cs i h,
          reassemble-after t seq cs (i ∷ []),
          all_some-filled cs 0 (i ∷ []),
        ))

  next_step :
      (p : SyncProtocol) (i : ℕ) (seen : List ℕ)
      → i < length cs
      → p.reassembler ≡ some (after t seq cs seen)
      → process_incoming p (encode (fragment t seq cs i)) ≡ some (step_result p (i ∷ seen))
  unfolding process_incoming on_fragment deliver is_complete step_result
  next_step p i seen h busy =
      rw (decode_lem (fragment t seq cs i) (fragment-IsWf i h) ne, process_incoming)
        (ground (
          arith,
          add_fragment-fragment t seq cs i seen h,
          done-add_fragment t seq cs i seen h,
          reassemble-after t seq cs (i ∷ seen),
        ))

  -- The message that `number_chunks` writes for chunk `k`.
  abbrev numbered : ℕ → List ℕ → SyncMessage
  numbered k c = record {
    msg_type = t;
    seq = seq;
    total_fragments = length cs;
    fragment_index = k % 256;
    payload = c;
  }

  numbered-fragment :
      (k : ℕ) (c : List ℕ) (ss : List (List ℕ))
      → k < length cs
      → drop k cs ≡ c ∷ ss
      → numbered k c ≡ fragment t seq cs k
  numbered-fragment k c ss h here =
      let at : get_or cs k [] ≡ c =
        ap (λ i. get_or cs i []) (omega arith) ∙ get_at cs (c ∷ ss) k 0 [] here in
      ground arith

  -- The messages from chunk `k` on, when those below `k` have come in.
  rest_received :
      (ss : List (List ℕ)) (k : ℕ) (p : SyncProtocol)
      → k + suc (length ss) ≡ length cs
      → (c : List ℕ) → drop k cs ≡ c ∷ ss
      → p.reassembler ≡ some (after t seq cs (downto k))
      → receive p (number_chunks t seq (length cs) k (c ∷ ss))
        ≡ some (record p { reassembler = none }, (t, concat cs) ∷ [])
  unfolding receive number_chunks step_result
  rest_received [] k p count c here busy =
      let step =
        ap (λ m. process_incoming p (encode m)) (numbered-fragment k c [] (omega arith) here)
        ∙ next_step p k (downto k) (omega arith) busy in
      ground (arith, step, covers_all 0 (length cs) (suc k) (omega arith))
  rest_received (c' ∷ ss) k p count c here busy =
      let step =
        ap (λ m. process_incoming p (encode m)) (numbered-fragment k c (c' ∷ ss) (omega arith) here)
        ∙ next_step p k (downto k) (omega arith) busy in
      let p' = record p { reassembler = some (after t seq cs (downto (suc k))) } in
      let next : drop (k + 1) cs ≡ c' ∷ ss = drop_at cs (c ∷ c' ∷ ss) k 1 here in
      let one : k + 1 ≡ suc k = omega arith in
      let ih = rest_received ss (suc k) p' (omega arith) c' (rw one at next) refl in
      ground (arith, step, one, covers_short 0 (length cs) (suc k) (omega arith) (omega arith), ih)

all_received :
    (t : SyncMessageType) (seq : ℕ) (cs : List (List ℕ)) (p : SyncProtocol)
    → t ≢ error
    → seq < u16_mod
    → 1 < length cs
    → length cs ≤ 255
    → p.reassembler ≡ none
    → receive p (number_chunks t seq (length cs) 0 cs)
      ≡ some (record p { reassembler = none }, (t, concat cs) ∷ [])
unfolding receive number_chunks step_result
all_received t seq [] p ne word many few idle = absurd (omega arith)
all_received t seq (c ∷ []) p ne word many few idle = absurd (omega arith)
all_received t seq (c ∷ c' ∷ ss) p ne word many few idle =
    let cs = c ∷ c' ∷ ss in
    let step =
      ap (λ m. process_incoming p (encode m))
        (numbered-fragment t seq cs ne word many few 0 c (c' ∷ ss) (omega arith) refl)
      ∙ first_step t seq cs ne word many few p 0 (omega arith) idle in
    let p' = record p { reassembler = some (after t seq cs (downto 1)) } in
    let ih = rest_received t seq cs ne word many few ss 1 p' (omega arith) c' refl refl in
    ground (arith, step, covers_short 0 (length cs) 1 (omega arith) (omega arith), ih)

-- A payload that needs more than one fragment and at most 255, of a message that is no error message,
-- arrives: when the encoded fragments that `fragment_payload` makes of it come in in order, a session that
-- is not reassembling hands over the payload once, with its type, and is as it was before.
pub delivery :
    (p : SyncProtocol) (t : SyncMessageType) (seq size : ℕ) (payload : List ℕ)
    (ms : List SyncMessage)
    → p.reassembler ≡ none
    → t ≢ error
    → seq < u16_mod
    → 0 < size
    → size < length payload
    → length payload ≤ 255 * size
    → fragment_payload t seq payload size ≡ some ms
    → receive p ms ≡ some (record p { reassembler = none }, (t, payload) ∷ [])
unfolding fragment_payload
delivery p t seq size payload ms idle ne word pos large small e =
    let cs = chunks payload size in
    let n = length-chunks payload size pos in
    let most = div_ceil-le 255 (length payload) size pos small in
    let numbered : ms ≡ number_chunks t seq (length cs) 0 cs = ground arith in
    let whole =
      all_received t seq cs p ne word
        (omega (arith, n, two-le-div_ceil (length payload) size pos large)) (omega arith) idle in
    rw (numbered, whole, concat-chunks payload size pos)
