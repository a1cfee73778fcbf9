-- ===== src/Gatt/Tests.antt =====
-- The GATT sync protocol on concrete inputs.
use peat_btle.Prelude.{
  ℕ, ◌≡◌, ◌≢◌, refl, some, none, List, [], ◌∷◌, inl, concat, replicate, if◌then◌else◌, arith, All,
  is_some, not, ◌&&◌, ltb, leb,
}
use peat_btle.Prelude.Chunks.{chunks}
use peat_btle.Gatt.Message.{SyncMessageType, SyncMessage, document, error, end_sync, encode, decode}
use peat_btle.Gatt.Fragments.{
  FragmentReassembler, fragment_payload, number_chunks, start, reassemble, is_complete,
  add_fragment,
}
use peat_btle.Gatt.Reassembly.{covers, fragments_of, feed, reassemble_any_order}
use peat_btle.Gatt.Framing.{IsWf, decode_lem}
use peat_btle.Gatt.Errors.{IsErrorFree, receive_packets, receive_packets-IsErrorFree}
use peat_btle.Gatt.Oversize.{oversize_lost, is_reassembling, process_incoming-panic}
use peat_btle.Gatt.Protocol.{SyncProtocol, SyncProtocolState, process_incoming, complete}
use peat_btle.Gatt.Session.{receive, delivery}

abbrev message : SyncMessage
message = record {
  msg_type = document;
  seq = 0x1234;
  total_fragments = 1;
  fragment_index = 0;
  payload = 1 ∷ 2 ∷ 3 ∷ [];
}

message-IsWf : IsWf message
message-IsWf = omega arith

encoded_message : encode message ≡ 1 ∷ 0x12 ∷ 0x34 ∷ 1 ∷ 0 ∷ 1 ∷ 2 ∷ 3 ∷ []
unfolding encode
encoded_message = refl

decode_lem_example : decode (encode message) ≡ some message
decode_lem_example = decode_lem message message-IsWf (λ e. cc e)

abbrev fresh : SyncProtocol
fresh = record {
  state = SyncProtocolState.idle;
  seq = 0;
  outgoing = [];
  pending_acks = [];
  reassembler = none;
  max_payload = 15;
}

-- An error message in two fragments, and then one in one piece.
abbrev packets : List (List ℕ)
packets =
    encode (record message { msg_type = error; total_fragments = 2; fragment_index = 0 })
    ∷ encode (record message { msg_type = error; total_fragments = 2; fragment_index = 1 })
    ∷ encode (record message { msg_type = error })
    ∷ []

receive_packets-IsErrorFree_example :
    IsErrorFree (record fresh { state = complete })
    × All {A = SyncMessageType × List ℕ}
        (λ d. d.0 ≢ error)
        ((end_sync, 1 ∷ 2 ∷ 3 ∷ 1 ∷ 2 ∷ 3 ∷ []) ∷ (end_sync, []) ∷ [])
unfolding receive_packets process_incoming encode decode start is_complete add_fragment reassemble
receive_packets-IsErrorFree_example =
    receive_packets-IsErrorFree fresh packets (record fresh { state = complete })
      ((end_sync, 1 ∷ 2 ∷ 3 ∷ 1 ∷ 2 ∷ 3 ∷ []) ∷ (end_sync, []) ∷ []) ((λ e. cc e), tt) refl

abbrev three : List (List ℕ)
three = (1 ∷ 2 ∷ []) ∷ (3 ∷ 4 ∷ []) ∷ (5 ∷ []) ∷ []

abbrev started : FragmentReassembler
started = record {
  total_fragments = 3;
  fragments = none ∷ none ∷ some (5 ∷ []) ∷ [];
  seq = 9;
  msg_type = document;
}

reassemble_any_order_example :
    reassemble (feed started (fragments_of document 9 three (0 ∷ 0 ∷ 1 ∷ [])))
    ≡ (if covers 0 3 (2 ∷ 0 ∷ 0 ∷ 1 ∷ []) then some (concat three) else none)
unfolding start
reassemble_any_order_example =
    reassemble_any_order document 9 three 2 (0 ∷ 0 ∷ 1 ∷ []) (omega arith) started refl

delivery_example :
    receive fresh (number_chunks document 9 3 0 three)
    ≡ some (record fresh { reassembler = none }, (document, 1 ∷ 2 ∷ 3 ∷ 4 ∷ 5 ∷ []) ∷ [])
unfolding fragment_payload chunks
delivery_example =
    delivery fresh document 9 2 (1 ∷ 2 ∷ 3 ∷ 4 ∷ 5 ∷ []) (number_chunks document 9 3 0 three) refl
      (λ e. cc e) (omega arith) (omega arith) (omega arith) (omega arith) refl

abbrev big : List ℕ
big = replicate 300 7

abbrev big_messages : List SyncMessage
big_messages = number_chunks document 9 255 0 (chunks big 1)

abbrev first_message : SyncMessage
first_message = record {
  msg_type = document;
  seq = 9;
  total_fragments = 255;
  fragment_index = 0;
  payload = 7 ∷ [];
}

abbrev big_started : FragmentReassembler
big_started = record {
  total_fragments = 255;
  fragments = some (7 ∷ []) ∷ replicate 254 none;
  seq = 9;
  msg_type = document;
}

oversize_lost_example : reassemble (feed big_started (first_message ∷ [])) ≢ some big
unfolding fragment_payload chunks start number_chunks
oversize_lost_example =
    oversize_lost document 9 1 big big_messages (omega arith) (omega arith) refl first_message
      (first_message ∷ []) (inl refl) (inl refl, tt) big_started refl

process_incoming-panic_example :
    is_some
      (process_incoming fresh (encode (record message { total_fragments = 2; fragment_index = 2 })))
    ≡ not (
        ltb 1 2
        && (leb 2 2
            && not (
                is_reassembling fresh
                  (record message { total_fragments = 2; fragment_index = 2 }))))
process_incoming-panic_example =
    process_incoming-panic fresh (record message { total_fragments = 2; fragment_index = 2 })
      (omega arith)
