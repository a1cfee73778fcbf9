-- ===== src/Gatt/Errors.antt =====
-- Error messages at the receiving session (src/gatt/protocol.rs, `process_incoming`).
use peat_btle.Prelude.{
  ℕ, ◌≡◌, ◌≢◌, refl, sym, ◌∙◌, Option, none, some, List, [], ◌∷◌, All, ltb, ◌==◌, arith, Bool, true,
  false, if◌then◌else◌, Bool-cases, Option-cases, inl, inr,
}
use mathlib.Core.Path.{subst}
use peat_btle.Gatt.Message.{
  SyncMessage, SyncMessageType, SyncDataOp, error, sync_vector, document, ack, end_sync, type_of,
  decode, decode_header,
}
use peat_btle.Gatt.Fragments.{FragmentReassembler, start, add_fragment, is_complete, reassemble}
use peat_btle.Gatt.Protocol.{
  SyncProtocol, Received, failed, process_incoming, on_fragment, on_whole, begin_reassembly,
  deliver,
}

-- Packets come in one after another: the session at the end, and what was handed over. `none` is a panic.
unfoldable pub receive_packets :
    SyncProtocol → List (List ℕ) → Option (SyncProtocol × List (SyncMessageType × List ℕ))
receive_packets p [] = some (p, [])
receive_packets p (bytes ∷ packets) = elim (process_incoming p bytes) [
  | none ↦ none
  | some (p', none) ↦ receive_packets p' packets
  | some (p', some d) ↦ elim (receive_packets p' packets) [
    | none ↦ none
    | some (q, ds) ↦ some (q, d ∷ ds)
  ]
]

-- A session that has not failed and is not reassembling an error.
abbrev pub IsErrorFree : SyncProtocol → Type 0
IsErrorFree p =
    (p.state ≢ failed) × elim p.reassembler [ none ↦ Unit | some r ↦ r.msg_type ≢ error ]

-- What a call of `process_incoming` comes to: a panic, or such a session and no error handed over.
abbrev Sound : Received → Type 0
Sound (p, none) = IsErrorFree p
Sound (p, some d) = IsErrorFree p × (d.0 ≢ error)

abbrev SoundUnlessPanic : Option Received → Type 0
SoundUnlessPanic none = Unit
SoundUnlessPanic (some out) = Sound out

type_of_lem : (op : SyncDataOp) → type_of op ≢ error
unfolding type_of
type_of_lem SyncDataOp.document e = cc e
type_of_lem SyncDataOp.vector e = cc e
type_of_lem SyncDataOp.ack e = cc e
type_of_lem SyncDataOp.end e = cc e

decode_type : (bytes : List ℕ) (m : SyncMessage) → decode bytes ≡ some m → m.msg_type ≢ error
unfolding decode
decode_type bytes m e = elim (Option-cases (decode_header bytes)) [
  | inl none_read ↦ absurd (ground (arith, none_read))
  | inr (header, read) ↦
      let same : type_of header.op ≡ m.msg_type = ground (arith, read) in
      λ is_error. type_of_lem header.op (same ∙ is_error)
]

msg_type-start :
    (m : SyncMessage) (r : FragmentReassembler) → start m ≡ some r → r.msg_type ≡ m.msg_type
unfolding start
msg_type-start m r e = ground arith

msg_type-add_fragment :
    (r : FragmentReassembler) (m : SyncMessage) → (add_fragment r m).0.msg_type ≡ r.msg_type
unfolding add_fragment
msg_type-add_fragment r m = ground arith

module _ (p : SyncProtocol) (running : p.state ≢ failed) where
  deliver-Sound : (r : FragmentReassembler) → r.msg_type ≢ error → Sound (deliver p r)
  unfolding deliver
  deliver-Sound r t = elim (Option-cases (reassemble r)) [
    | inl e ↦ rw (deliver, e) (running, t)
    | inr (payload, e) ↦ rw (deliver, e) ((running, tt), t)
  ]

  -- The two ends of a packet that adds a fragment.
  settled :
      (done : Bool) (r : FragmentReassembler)
      → r.msg_type ≢ error
      → Sound (if done then deliver p r else (record p { reassembler = some r }, none))
  settled true r t = deliver-Sound r t
  settled false r t = (running, t)

  begin_reassembly-Sound :
      (m : SyncMessage) → m.msg_type ≢ error → SoundUnlessPanic (begin_reassembly p m)
  unfolding begin_reassembly
  begin_reassembly-Sound m t = elim (Option-cases (start m)) [
    | inl e ↦ rw (begin_reassembly, e) tt
    | inr (r, e) ↦
        rw (begin_reassembly, e)
          (settled (is_complete r) r (λ is_error. t (sym (msg_type-start m r e) ∙ is_error)))
  ]

on_fragment-Sound :
    (p : SyncProtocol) (m : SyncMessage)
    → IsErrorFree p
    → m.msg_type ≢ error
    → SoundUnlessPanic (on_fragment p m)
unfolding on_fragment
on_fragment-Sound p m h t = elim (Option-cases p.reassembler) [
  | inl e ↦ rw (on_fragment, e) (begin_reassembly-Sound p h.0 m t)
  | inr (r, e) ↦ elim (Bool-cases (r.seq == m.seq)) [
    | inr other ↦ rw (on_fragment, e, other) (begin_reassembly-Sound p h.0 m t)
    | inl same ↦
        rw (on_fragment, e, same)
          (settled p h.0 (add_fragment r m).1 (add_fragment r m).0
            (λ is_error. (rw e at h.1) (sym (msg_type-add_fragment r m) ∙ is_error)))
  ]
]

on_whole-Sound :
    (p : SyncProtocol) (m : SyncMessage) (t : SyncMessageType)
    → IsErrorFree p
    → t ≢ error
    → Sound (on_whole p m t)
unfolding on_whole
on_whole-Sound p m ack h t = h
on_whole-Sound p m sync_vector h t = (((λ e. cc e), h.1), t)
on_whole-Sound p m document h t = (h, t)
on_whole-Sound p m end_sync h t = (((λ e. cc e), h.1), t)
on_whole-Sound p m error h t = absurd (t refl)

process_incoming-Sound :
    (p : SyncProtocol) (bytes : List ℕ)
    → IsErrorFree p
    → SoundUnlessPanic (process_incoming p bytes)
unfolding process_incoming
process_incoming-Sound p bytes h = elim (Option-cases (decode bytes)) [
  | inl e ↦ rw (process_incoming, e) h
  | inr (m, e) ↦ elim (Bool-cases (ltb 1 m.total_fragments)) [
    | inl many ↦ rw (process_incoming, e, many) (on_fragment-Sound p m h (decode_type bytes m e))
    | inr whole ↦
        rw (process_incoming, e, whole) (on_whole-Sound p m m.msg_type h (decode_type bytes m e))
  ]
]

abbrev SoundRun : Option (SyncProtocol × List (SyncMessageType × List ℕ)) → Type 0
SoundRun none = Unit
SoundRun (some (q, ds)) = IsErrorFree q × All (λ d. d.0 ≢ error) ds

module _ (rest : SyncProtocol → Option (SyncProtocol × List (SyncMessageType × List ℕ)))
    (ih : (p : SyncProtocol) → IsErrorFree p → SoundRun (rest p)) where
  delivered-SoundRun :
      (d : SyncMessageType × List ℕ) (out : Option (SyncProtocol × List (SyncMessageType × List ℕ)))
      → d.0 ≢ error
      → SoundRun out
      → SoundRun (elim out [ none ↦ none | some (q, ds) ↦ some (q, d ∷ ds) ])
  delivered-SoundRun d none t s = tt
  delivered-SoundRun d (some (q, ds)) t s = (s.0, (t, s.1))

  -- The packets after one that comes to `out`.
  then-SoundRun :
      (out : Option Received)
      → SoundUnlessPanic out
      → SoundRun (elim out [
        | none ↦ none
        | some (p', none) ↦ rest p'
        | some (p', some d) ↦ elim (rest p') [ none ↦ none | some (q, ds) ↦ some (q, d ∷ ds) ]
      ])
  then-SoundRun none s = tt
  then-SoundRun (some (p', none)) s = ih p' s
  then-SoundRun (some (p', some d)) s = delivered-SoundRun d (rest p') s.1 (ih p' s.0)

receive_packets-SoundRun :
    (packets : List (List ℕ)) (p : SyncProtocol)
    → IsErrorFree p
    → SoundRun (receive_packets p packets)
unfolding receive_packets
receive_packets-SoundRun [] p h = (h, tt)
receive_packets-SoundRun (bytes ∷ packets) p h =
    then-SoundRun (λ p'. receive_packets p' packets) (receive_packets-SoundRun packets)
      (process_incoming p bytes) (process_incoming-Sound p bytes h)

-- Whatever packets come in to a session that has not failed and is not reassembling an error: while no
-- packet panics, none makes it fail or starts the reassembly of an error, and no error is handed over.
pub receive_packets-IsErrorFree :
    (p : SyncProtocol) (packets : List (List ℕ)) (q : SyncProtocol)
    (ds : List (SyncMessageType × List ℕ))
    → IsErrorFree p
    → receive_packets p packets ≡ some (q, ds)
    → IsErrorFree q × All (λ d. d.0 ≢ error) ds
receive_packets-IsErrorFree p packets q ds h e =
    subst SoundRun e (receive_packets-SoundRun packets p h)
