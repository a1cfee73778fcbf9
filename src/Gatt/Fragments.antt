-- ===== src/Gatt/Fragments.antt =====
-- src/gatt/protocol.rs: `fragment_payload` and `FragmentReassembler`.
use peat_btle.Prelude.{
  ℕ, ◌+◌, ◌-◌, ◌%◌, Bool, true, false, not, ◌||◌, Option, none, some, List, [], ◌∷◌, ◌++◌, ltb, leb,
  ◌==◌, if◌then◌else◌, length, set, replicate, min,
}
use peat_btle.Prelude.Chunks.{chunks, div_ceil}
use peat_btle.Gatt.Message.{SyncMessageType, SyncMessage, new}

-- `max_payload_size`, with the subtraction that stops at 0.
unfoldable pub max_payload_size : ℕ → ℕ
max_payload_size mtu = mtu - (3 + 5)

abbrev pub default_max_payload : ℕ
default_max_payload = 15

-- The messages for a list of chunks, from index `i` on.
unfoldable pub number_chunks : SyncMessageType → ℕ → ℕ → ℕ → List (List ℕ) → List SyncMessage
number_chunks msg_type seq total i [] = []
number_chunks msg_type seq total i (c ∷ cs) =
    record {
      msg_type = msg_type;
      seq = seq;
      total_fragments = total;
      fragment_index = i % 256;
      payload = c;
    }
    ∷ number_chunks msg_type seq total (i + 1) cs

-- `none` is a panic: the division by a fragment size of 0.
unfoldable pub fragment_payload : SyncMessageType → ℕ → List ℕ → ℕ → Option (List SyncMessage)
fragment_payload msg_type seq payload max_fragment_size =
    if length payload == 0 || leb (length payload) max_fragment_size
    then some (new msg_type seq payload ∷ [])
    else if max_fragment_size == 0
    then none
    else let total = min (div_ceil (length payload) max_fragment_size) 255 in
      some (number_chunks msg_type seq total 0 (chunks payload max_fragment_size))

pub record FragmentReassembler : Type 0 where
  pub total_fragments : ℕ
  pub fragments : List (Option (List ℕ))
  pub seq : ℕ
  pub msg_type : SyncMessageType

-- `FragmentReassembler::new`. `none` is a panic: the index is out of bounds.
unfoldable pub start : SyncMessage → Option FragmentReassembler
start m =
    let fragments = replicate m.total_fragments none in
    if ltb m.fragment_index (length fragments)
    then some (record {
      total_fragments = m.total_fragments;
      fragments = set fragments m.fragment_index (some m.payload);
      seq = m.seq;
      msg_type = m.msg_type;
    })
    else none

unfoldable pub all_some : List (Option (List ℕ)) → Bool
all_some [] = true
all_some (none ∷ fs) = false
all_some (some c ∷ fs) = all_some fs

unfoldable pub is_complete : FragmentReassembler → Bool
unfolding all_some
is_complete r = all_some r.fragments

-- The new reassembler, and whether it is complete.
unfoldable pub add_fragment : FragmentReassembler → SyncMessage → FragmentReassembler × Bool
unfolding is_complete
add_fragment r m =
    if not (m.seq == r.seq) || not (m.total_fragments == r.total_fragments)
    then (r, false)
    else let r' =
        if ltb m.fragment_index (length r.fragments)
        then record r { fragments = set r.fragments m.fragment_index (some m.payload) }
        else r in
      (r', is_complete r')

-- The bytes of the fragments that are there, in order.
unfoldable pub gather : List (Option (List ℕ)) → List ℕ
gather [] = []
gather (none ∷ fs) = gather fs
gather (some c ∷ fs) = c ++ gather fs

unfoldable pub reassemble : FragmentReassembler → Option (List ℕ)
unfolding is_complete gather
reassemble r = if not (is_complete r) then none else some (gather r.fragments)
