-- ===== src/Gatt/Oversize.antt =====
-- Payloads of more than 255 fragments, and packets with a fragment index out of range
-- (src/gatt/protocol.rs).
use peat_btle.Prelude.{
  ℕ, zero, suc, ◌+◌, ◌*◌, ◌≤◌, ◌<◌, ◌≡◌, ◌≢◌, refl, Bool, false, not, ◌&&◌, leb, ltb, is_some, ◌==◌,
  ap, ◌∙◌, Option, none, some, List, [], ◌∷◌, ◌⊎◌, inl, inr, length, set, replicate, All,
  length-append, arith, min,
}
use peat_btle.Prelude.Chunks.{chunks, All-chunks, div_ceil, le-div_ceil}
use peat_btle.Gatt.Message.{SyncMessage, SyncMessageType, encode}
use peat_btle.Gatt.Fragments.{
  FragmentReassembler, number_chunks, fragment_payload, start, add_fragment, gather, reassemble,
}
use peat_btle.Gatt.Reassembly.{feed}
use peat_btle.Gatt.Framing.{IsWf, decode-encode_type}
use peat_btle.Gatt.Protocol.{SyncProtocol, process_incoming, on_fragment, begin_reassembly}

-- What the loop of `fragment_payload` gives each message.
abbrev Carries : ℕ → ℕ → SyncMessage → Type 0
Carries total size m = (m.total_fragments ≡ total) × (length m.payload ≤ size)

number_chunks-Carries :
    (t : SyncMessageType) (seq total size i : ℕ) (cs : List (List ℕ))
    → All (λ c. length c ≤ size) cs
    → All (Carries total size) (number_chunks t seq total i cs)
unfolding number_chunks
number_chunks-Carries t seq total size i [] h = tt
number_chunks-Carries t seq total size i (c ∷ cs) h =
    ((refl, h.0), number_chunks-Carries t seq total size (i + 1) cs h.1)

-- At most `n` slots, none of them with more than `size` bytes.
abbrev Slots : ℕ → List (Option (List ℕ)) → Type 0
Slots size [] = Unit
Slots size (none ∷ fs) = Slots size fs
Slots size (some c ∷ fs) = (length c ≤ size) × Slots size fs

set-Slots :
    (size i : ℕ) (c : List ℕ) (fs : List (Option (List ℕ)))
    → length c ≤ size
    → Slots size fs
    → Slots size (set fs i (some c))
set-Slots size i c [] h s = tt
set-Slots size zero c (none ∷ fs) h s = (h, s)
set-Slots size zero c (some d ∷ fs) h s = (h, s.1)
set-Slots size (suc i) c (none ∷ fs) h s = set-Slots size i c fs h s
set-Slots size (suc i) c (some d ∷ fs) h s = (s.0, set-Slots size i c fs h s.1)

replicate-Slots : (size n : ℕ) → Slots size (replicate n none)
replicate-Slots size zero = tt
replicate-Slots size (suc n) = replicate-Slots size n

length-gather :
    (size : ℕ) (fs : List (Option (List ℕ))) → Slots size fs → length (gather fs) ≤ length fs * size
unfolding gather
length-gather size [] s = omega arith
length-gather size (none ∷ fs) s = omega (arith, length-gather size fs s)
length-gather size (some c ∷ fs) s =
    omega (arith, length-append c (gather fs), length-gather size fs s.1)

length-set_slot :
    (fs : List (Option (List ℕ))) (i : ℕ) (v : Option (List ℕ)) → length (set fs i v) ≡ length fs
length-set_slot [] i v = refl
length-set_slot (f ∷ fs) zero v = refl
length-set_slot (f ∷ fs) (suc i) v = ap suc (length-set_slot fs i v)

length-replicate_slot : (n : ℕ) → length (replicate {A = Option (List ℕ)} n none) ≡ n
length-replicate_slot zero = refl
length-replicate_slot (suc n) = ap suc (length-replicate_slot n)

record Fits (total size : ℕ) (r : FragmentReassembler) : Type 0 where
  slots : Slots size r.fragments
  count : length r.fragments ≡ total

start-Fits :
    (total size : ℕ) (m : SyncMessage) (r : FragmentReassembler)
    → Carries total size m
    → start m ≡ some r
    → Fits total size r
unfolding start
start-Fits total size m r h e =
    let empty = replicate {A = Option (List ℕ)} m.total_fragments none in
    let written : r.fragments ≡ set empty m.fragment_index (some m.payload) = ground arith in
    record {
      slots = rw written (
          set-Slots size m.fragment_index m.payload empty h.1
            (replicate-Slots size m.total_fragments));
      count = rw written (
          omega (
            arith,
            length-set_slot empty m.fragment_index (some m.payload),
            length-replicate_slot m.total_fragments,
            h.0,
          ));
    }

fragments-add_fragment :
    (r : FragmentReassembler) (m : SyncMessage)
    → ((add_fragment r m).0.fragments ≡ r.fragments)
      ⊎ ((add_fragment r m).0.fragments ≡ set r.fragments m.fragment_index (some m.payload))
unfolding add_fragment
fragments-add_fragment r m = ground arith

add_fragment-Fits :
    (total size : ℕ) (m : SyncMessage) (r : FragmentReassembler)
    → Carries total size m
    → Fits total size r
    → Fits total size (add_fragment r m).0
add_fragment-Fits total size m r h f = elim (fragments-add_fragment r m) [
  | inl same ↦ record { slots = rw same f.slots; count = rw same f.count }
  | inr written ↦ record {
    slots = rw written (set-Slots size m.fragment_index m.payload r.fragments h.1 f.slots);
    count = rw written (length-set_slot r.fragments m.fragment_index (some m.payload) ∙ f.count);
  }
]

feed-Fits :
    (total size : ℕ) (ms : List SyncMessage) (r : FragmentReassembler)
    → All (Carries total size) ms
    → Fits total size r
    → Fits total size (feed r ms)
unfolding feed
feed-Fits total size [] r h f = f
feed-Fits total size (m ∷ ms) r h f =
    feed-Fits total size ms (add_fragment r m).0 h.1 (add_fragment-Fits total size m r h.0 f)

-- `x` is one of the messages.
abbrev pub In : SyncMessage → List SyncMessage → Type 0
In x [] = ⊥
In x (m ∷ ms) = (x ≡ m) ⊎ In x ms

All-In :
    (P : SyncMessage → Type 0) (x : SyncMessage) (ms : List SyncMessage) → All P ms → In x ms → P x
All-In P x [] h i = absurd i
All-In P x (m ∷ ms) h (inl e) = rw e h.0
All-In P x (m ∷ ms) h (inr i) = All-In P x ms h.1 i

All-later :
    (P : SyncMessage → Type 0) (ms : List SyncMessage)
    → All P ms
    → (later : List SyncMessage) → All (λ m. In m ms) later
    → All P later
All-later P ms h [] i = tt
All-later P ms h (m ∷ later) i = (All-In P m ms h i.0, All-later P ms h later i.1)

reassemble-gather :
    (r : FragmentReassembler) (payload : List ℕ)
    → reassemble r ≡ some payload
    → payload ≡ gather r.fragments
unfolding reassemble
reassemble-gather r payload e = ground arith

large_count : (n size : ℕ) → 0 < size → 255 * size < n → min (div_ceil n size) 255 ≡ 255
large_count n size p h = omega (arith, le-div_ceil 255 n size p h)

-- A payload of more than 255 times the fragment size is fragmented without an error, and never
-- arrives: in whatever order and number its fragments are added to a reassembler that one of them
-- has started, the payload does not come out.
pub oversize_lost :
    (t : SyncMessageType) (seq size : ℕ) (payload : List ℕ) (ms : List SyncMessage)
    → 0 < size
    → 255 * size < length payload
    → fragment_payload t seq payload size ≡ some ms
    → (first : SyncMessage) (later : List SyncMessage) → In first ms
    → All (λ m. In m ms) later
    → (r : FragmentReassembler) → start first ≡ some r
    → reassemble (feed r later) ≢ some payload
unfolding fragment_payload
oversize_lost t seq size payload ms p big e first later i is r st out =
    let total = large_count (length payload) size p big in
    let numbered : ms ≡ number_chunks t seq 255 0 (chunks payload size) = ground (arith, total) in
    let carried : All (Carries 255 size) ms =
      rw numbered
        (number_chunks-Carries t seq 255 size 0 (chunks payload size) (All-chunks payload size)) in
    let f =
      feed-Fits 255 size later r (All-later (Carries 255 size) ms carried later is)
        (start-Fits 255 size first r (All-In (Carries 255 size) first ms carried i) st) in
    omega (
      arith,
      length-gather size (feed r later).fragments f.slots,
      f.count,
      ap length (reassemble-gather (feed r later) payload out),
      ap (λ n. n * size) f.count,
    )

-- Whether the session is reassembling a message of this sequence number.
unfoldable pub is_reassembling : SyncProtocol → SyncMessage → Bool
is_reassembling p m = elim p.reassembler [ none ↦ false | some r ↦ r.seq == m.seq ]

-- The packet of a message, with field values in their words, panics in a session in just one case: the
-- message has more than one fragment, its index is not below the number of fragments, and the session is
-- not reassembling a message of its sequence number already.
pub process_incoming-panic :
    (p : SyncProtocol) (m : SyncMessage)
    → IsWf m
    → is_some (process_incoming p (encode m))
      ≡ not (
          ltb 1 m.total_fragments
          && (leb m.total_fragments m.fragment_index && not (is_reassembling p m)))
unfolding process_incoming start on_fragment begin_reassembly is_reassembling
process_incoming-panic p m w =
    rw (decode-encode_type m w, process_incoming)
      (ground (arith, length-replicate_slot m.total_fragments))
