-- ===== src/Gatt/Reassembly.antt =====
-- Reassembly of a fragmented message (src/gatt/protocol.rs, `FragmentReassembler`).
use peat_btle.Prelude.{
  ℕ, zero, suc, ◌+◌, ◌<◌, ◌≡◌, refl, ap, ◌∙◌, Bool, true, false, ◌&&◌, ◌||◌, Option, none, some,
  List, [], ◌∷◌, ◌==◌, if◌then◌else◌, length, get_or, set, replicate, concat, All, arith,
}
use peat_btle.Gatt.Message.{SyncMessage, SyncMessageType}
use peat_btle.Gatt.Fragments.{
  FragmentReassembler, start, add_fragment, all_some, is_complete, gather, reassemble,
}

abbrev pub elem : ℕ → List ℕ → Bool
elem j [] = false
elem j (i ∷ is) = i == j || elem j is

-- Whether the `n` indices from `k` on occur.
abbrev pub covers : ℕ → ℕ → List ℕ → Bool
covers k zero is = true
covers k (suc n) is = elem k is && covers (k + 1) n is

-- The slots for chunks `k`, `k + 1`, …, of which those with an index in `seen` are filled.
pub filled : List (List ℕ) → ℕ → List ℕ → List (Option (List ℕ))
filled [] k seen = []
filled (c ∷ cs) k seen = (if elem k seen then some c else none) ∷ filled cs (k + 1) seen

length-filled : (cs : List (List ℕ)) (k : ℕ) (seen : List ℕ) → length (filled cs k seen) ≡ length cs
unfolding filled
length-filled [] k seen = refl
length-filled (c ∷ cs) k seen = ap suc (length-filled cs (k + 1) seen)

filled-nil : (cs : List (List ℕ)) (k : ℕ) → filled cs k [] ≡ replicate (length cs) none
unfolding filled
filled-nil [] k = refl
filled-nil (c ∷ cs) k = ap (◌∷◌ none) (filled-nil cs (k + 1))

filled_below :
    (cs : List (List ℕ)) (j k : ℕ) (seen : List ℕ)
    → j < k
    → filled cs k (j ∷ seen) ≡ filled cs k seen
unfolding filled
filled_below [] j k seen h = refl
filled_below (c ∷ cs) j k seen h = ground (arith, filled_below cs j (k + 1) seen)

set-filled :
    (cs : List (List ℕ)) (i j k : ℕ) (seen : List ℕ)
    → i < length cs
    → j ≡ k + i
    → set (filled cs k seen) i (some (get_or cs i [])) ≡ filled cs k (j ∷ seen)
unfolding filled
set-filled [] i j k seen h e = elim h [ ]
set-filled (c ∷ cs) zero j k seen h e = ground (arith, filled_below cs j (k + 1) seen)
set-filled (c ∷ cs) (suc i) j k seen h e = ground (arith, set-filled cs i j (k + 1) seen)

pub all_some-filled :
    (cs : List (List ℕ)) (k : ℕ) (seen : List ℕ)
    → all_some (filled cs k seen) ≡ covers k (length cs) seen
unfolding filled all_some
all_some-filled [] k seen = refl
all_some-filled (c ∷ cs) k seen = ground (arith, all_some-filled cs (k + 1) seen)

gather-filled :
    (cs : List (List ℕ)) (k : ℕ) (seen : List ℕ)
    → covers k (length cs) seen ≡ true
    → gather (filled cs k seen) ≡ concat cs
unfolding filled gather
gather-filled [] k seen h = refl
gather-filled (c ∷ cs) k seen h = ground (arith, gather-filled cs (k + 1) seen)

-- Fragments are added one after another.
unfoldable pub feed : FragmentReassembler → List SyncMessage → FragmentReassembler
feed r [] = r
feed r (m ∷ ms) = feed (add_fragment r m).0 ms

-- The indices seen so far, the last one first.
abbrev note : List ℕ → List ℕ → List ℕ
note seen [] = seen
note seen (i ∷ is) = note (i ∷ seen) is

elem-note : (j : ℕ) (seen is : List ℕ) → elem j (note seen is) ≡ elem j is || elem j seen
elem-note j seen [] = refl
elem-note j seen (i ∷ is) = elem-note j (i ∷ seen) is ∙ ground arith

covers_ext :
    (k n : ℕ) (is js : List ℕ) → ((j : ℕ) → elem j is ≡ elem j js) → covers k n is ≡ covers k n js
covers_ext k zero is js h = refl
covers_ext k (suc n) is js h = ground (arith, h k, covers_ext (k + 1) n is js h)

length-replicate : (n : ℕ) → length (replicate {A = Option (List ℕ)} n none) ≡ n
length-replicate zero = refl
length-replicate (suc n) = ap suc (length-replicate n)

module _ (msg_type : SyncMessageType) (seq : ℕ) (cs : List (List ℕ)) where
  -- The message that carries chunk `i`.
  abbrev pub fragment : ℕ → SyncMessage
  fragment i = record {
    msg_type = msg_type;
    seq = seq;
    total_fragments = length cs;
    fragment_index = i;
    payload = get_or cs i [];
  }

  abbrev pub fragments_of : List ℕ → List SyncMessage
  fragments_of [] = []
  fragments_of (i ∷ is) = fragment i ∷ fragments_of is

  abbrev pub after : List ℕ → FragmentReassembler
  after seen = record {
    total_fragments = length cs;
    fragments = filled cs 0 seen;
    seq = seq;
    msg_type = msg_type;
  }

  pub start-fragment : (i : ℕ) → i < length cs → start (fragment i) ≡ some (after (i ∷ []))
  unfolding start
  start-fragment i h =
      ground (arith, length-replicate (length cs), filled-nil cs 0, set-filled cs i i 0 [])

  pub add_fragment-fragment :
      (i : ℕ) (seen : List ℕ)
      → i < length cs
      → (add_fragment (after seen) (fragment i)).0 ≡ after (i ∷ seen)
  unfolding add_fragment
  add_fragment-fragment i seen h = ground (arith, length-filled cs 0 seen, set-filled cs i i 0 seen)

  pub done-add_fragment :
      (i : ℕ) (seen : List ℕ)
      → i < length cs
      → (add_fragment (after seen) (fragment i)).1 ≡ covers 0 (length cs) (i ∷ seen)
  unfolding add_fragment is_complete
  done-add_fragment i seen h =
      ground
        (arith, length-filled cs 0 seen, set-filled cs i i 0 seen, all_some-filled cs 0 (i ∷ seen))

  feed-fragments :
      (is seen : List ℕ)
      → All (λ i. i < length cs) is
      → feed (after seen) (fragments_of is) ≡ after (note seen is)
  unfolding feed
  feed-fragments [] seen h = refl
  feed-fragments (i ∷ is) seen h =
      ap (λ r. feed r (fragments_of is)) (add_fragment-fragment i seen h.0)
      ∙ feed-fragments is (i ∷ seen) h.1

  pub reassemble-after :
      (seen : List ℕ)
      → reassemble (after seen) ≡ (if covers 0 (length cs) seen then some (concat cs) else none)
  unfolding reassemble
  reassemble-after seen = ground (arith, all_some-filled cs 0 seen, gather-filled cs 0 seen)

  -- Reassembly does not depend on the order of the fragments, nor on duplicates: when the fragments
  -- of one message have come in with the indices `i ∷ is`, in whatever order, the whole payload is
  -- handed over if every index has occurred, and nothing otherwise.
  pub reassemble_any_order :
      (i : ℕ) (is : List ℕ)
      → All (λ j. j < length cs) (i ∷ is)
      → (r : FragmentReassembler) → start (fragment i) ≡ some r
      → reassemble (feed r (fragments_of is))
        ≡ (if covers 0 (length cs) (i ∷ is) then some (concat cs) else none)
  reassemble_any_order i is h r e =
      let same : r ≡ after (i ∷ []) = cc (start-fragment i h.0) in
      ap (λ x. reassemble (feed x (fragments_of is))) same
      ∙ ap reassemble (feed-fragments is (i ∷ []) h.1)
      ∙ reassemble-after (note (i ∷ []) is)
      ∙ ap (λ b. if b then some (concat cs) else none)
          (covers_ext 0 (length cs) (note (i ∷ []) is) (i ∷ is)
            (λ j. elem-note j (i ∷ []) is ∙ ground arith))
