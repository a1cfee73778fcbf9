-- ===== src/Sync/Resend.antt =====
-- What the delta encoder sends again (src/sync/delta.rs).
use peat_btle.Prelude.{
  ℕ, ◌-◌, ◌≤◌, ◌≡◌, ◌≢◌, refl, ap, ◌∙◌, false, some, List, [], ◌∷◌, ◌++◌, ltb, ℕ_discrete, arith,
  ite, All, map,
}
use peat_btle.Prelude.Bytes.{u64_mod}
use peat_btle.Prelude.Assoc
use peat_btle.Prelude.Assoc.{get-insert, get-insert_self, get-insert_ne}
use peat_btle.Crdt.Operation.{
  CrdtOperation, update_position, update_health, increment_counter, update_register,
}
use peat_btle.Sync.Delta.{
  PeerSyncState, DeltaEncoder, key_discrete, mark_key, needs_send, clear_sent, update_peer,
  get_peer_state, operation_key_timestamp, op_needs_send, filter_ops, filter_for_peer, mark_ops,
  mark_sent, reset_peer,
}

abbrev key_of : CrdtOperation → List ℕ
key_of op = (operation_key_timestamp op).0

abbrev time_of : CrdtOperation → ℕ
time_of op = (operation_key_timestamp op).1

-- No operation of the key is older than the time.
abbrev NoneOlder : List ℕ → ℕ → List CrdtOperation → Type 0
NoneOlder key t ops = All (λ op. key_of op ≡ key → t ≤ time_of op) ops

-- The operations of each key stand in the order of their timestamps.
abbrev pub IsAscending : List CrdtOperation → Type 0
IsAscending [] = Unit
IsAscending (op ∷ ops) = NoneOlder (key_of op) (time_of op) ops × IsAscending ops

needs_send-mark_key :
    (key key' : List ℕ) (t t' : ℕ) (s : PeerSyncState)
    → needs_send key t (mark_key key' t' s)
      ≡ ite (key_discrete key' key) (ltb t' t) (needs_send key t s)
unfolding needs_send mark_key
needs_send-mark_key key key' t t' s =
    ground (arith, get-insert key_discrete key key' t' s.last_sent)

keep_sent :
    (key : List ℕ) (t : ℕ) (ops : List CrdtOperation) (s : PeerSyncState)
    → NoneOlder key t ops
    → needs_send key t s ≡ false
    → needs_send key t (mark_ops ops s) ≡ false
unfolding mark_ops
keep_sent key t [] s h e = e
keep_sent key t (op ∷ ops) s h e =
    keep_sent key t ops (mark_key (key_of op) (time_of op) s) h.1
      (ground (arith, needs_send-mark_key key (key_of op) t (time_of op) s, h.0))

sent-All :
    (ops : List CrdtOperation) (s : PeerSyncState)
    → IsAscending ops
    → All (λ op. op_needs_send (mark_ops ops s) op ≡ false) ops
unfolding mark_ops op_needs_send
sent-All [] s h = tt
sent-All (op ∷ ops) s h = (
  keep_sent (key_of op) (time_of op) ops (mark_key (key_of op) (time_of op) s) h.0
      (ground (arith, needs_send-mark_key (key_of op) (key_of op) (time_of op) (time_of op) s)),
  sent-All ops (mark_key (key_of op) (time_of op) s) h.1,
)

filter_none :
    (s : PeerSyncState) (ops : List CrdtOperation)
    → All (λ op. op_needs_send s op ≡ false) ops
    → filter_ops s ops ≡ []
unfolding filter_ops
filter_none s [] h = refl
filter_none s (op ∷ ops) h = ground (arith, filter_none s ops h.1)

-- The state of a known peer after an update of it, and of any other peer.
get-update_peer :
    (peer_id : ℕ) (f : PeerSyncState → PeerSyncState) (e : DeltaEncoder) (s : PeerSyncState)
    → get_peer_state peer_id e ≡ some s
    → get_peer_state peer_id (update_peer peer_id f e) ≡ some (f s)
unfolding get_peer_state update_peer
get-update_peer peer_id f e s h = ground (arith, get-insert_self ℕ_discrete peer_id (f s) e.peers)

get-update_peer_ne :
    (peer_id other : ℕ) (f : PeerSyncState → PeerSyncState) (e : DeltaEncoder) (s : PeerSyncState)
    → get_peer_state peer_id e ≡ some s
    → peer_id ≢ other
    → get_peer_state other (update_peer peer_id f e) ≡ get_peer_state other e
unfolding get_peer_state update_peer
get-update_peer_ne peer_id other f e s h ne =
    ground (arith, get-insert_ne ℕ_discrete other peer_id (f s) e.peers)

filter_known :
    (peer_id : ℕ) (ops : List CrdtOperation) (e : DeltaEncoder) (s : PeerSyncState)
    → get_peer_state peer_id e ≡ some s
    → filter_for_peer peer_id ops e ≡ filter_ops s ops
unfolding filter_for_peer get_peer_state
filter_known peer_id ops e s h = ground arith

filter_same :
    (peer_id : ℕ) (ops : List CrdtOperation) (e e' : DeltaEncoder)
    → get_peer_state peer_id e' ≡ get_peer_state peer_id e
    → filter_for_peer peer_id ops e' ≡ filter_for_peer peer_id ops e
unfolding filter_for_peer get_peer_state
filter_same peer_id ops e e' h = ground arith

-- Marking operations as sent to a known peer, those of each key in the order of their timestamps,
-- keeps exactly that peer from being sent them again: the filter leaves none of them for it, and
-- for any other peer it leaves of any operations what it left before.
pub filter-mark_sent :
    (peer_id other : ℕ) (ops others : List CrdtOperation) (e : DeltaEncoder) (s : PeerSyncState)
    → get_peer_state peer_id e ≡ some s
    → IsAscending ops
    → peer_id ≢ other
    → (filter_for_peer peer_id ops (mark_sent peer_id ops e) ≡ [])
      × (filter_for_peer other others (mark_sent peer_id ops e) ≡ filter_for_peer other others e)
unfolding mark_sent
filter-mark_sent peer_id other ops others e s h asc ne = (
  filter_known peer_id ops (update_peer peer_id (mark_ops ops) e) (mark_ops ops s)
        (get-update_peer peer_id (mark_ops ops) e s h)
      ∙ filter_none (mark_ops ops s) ops (sent-All ops s asc),
  filter_same other others e (update_peer peer_id (mark_ops ops) e)
      (get-update_peer_ne peer_id other (mark_ops ops) e s h ne),
)

filter_new : (ops : List CrdtOperation) (s : PeerSyncState) → filter_ops (clear_sent s) ops ≡ ops
unfolding filter_ops clear_sent op_needs_send needs_send Assoc.get
filter_new [] s = refl
filter_new (op ∷ ops) s = ap (◌∷◌ op) (filter_new ops s)

-- After a reset of a known peer (a reconnection) the filter keeps every operation for it.
pub filter-reset_peer :
    (peer_id : ℕ) (ops : List CrdtOperation) (e : DeltaEncoder) (s : PeerSyncState)
    → get_peer_state peer_id e ≡ some s
    → filter_for_peer peer_id ops (reset_peer peer_id e) ≡ ops
unfolding reset_peer
filter-reset_peer peer_id ops e s h =
    filter_known peer_id ops (update_peer peer_id clear_sent e) (clear_sent s)
      (get-update_peer peer_id clear_sent e s h)
    ∙ filter_new ops s

-- The key of an increment differs from those of operations that carry a timestamp.
counter_key :
    (counter_id node_id amount : ℕ) (op : CrdtOperation)
    → key_of op ≡ key_of (increment_counter counter_id node_id amount)
    → u64_mod - 1 ≤ time_of op
unfolding operation_key_timestamp
counter_key c n a (update_position m p t) h = ground arith
counter_key c n a (update_health m p t) h = ground arith
counter_key c n a (increment_counter d m b) h = omega arith
counter_key c n a (update_register k v t m) h = ground arith

older_none :
    (counter_id node_id amount : ℕ) (ops : List CrdtOperation)
    → NoneOlder (key_of (increment_counter counter_id node_id amount)) (u64_mod - 1) ops
older_none c n a [] = tt
older_none c n a (op ∷ ops) = (counter_key c n a op, older_none c n a ops)

mark_ops-append :
    (xs ys : List CrdtOperation) (s : PeerSyncState)
    → mark_ops (xs ++ ys) s ≡ mark_ops ys (mark_ops xs s)
unfolding mark_ops
mark_ops-append [] ys s = refl
mark_ops-append (x ∷ xs) ys s = mark_ops-append xs ys (mark_key (key_of x) (time_of x) s)

increments_sent :
    (counter_id node_id : ℕ) (amounts : List ℕ) (s : PeerSyncState)
    → needs_send (key_of (increment_counter counter_id node_id 0)) (u64_mod - 1) s ≡ false
    → All (λ op. op_needs_send s op ≡ false) (map (increment_counter counter_id node_id) amounts)
unfolding op_needs_send operation_key_timestamp
increments_sent c n [] s h = tt
increments_sent c n (a ∷ amounts) s h = (h, increments_sent c n amounts s h)

marked_counter :
    (counter_id node_id amount : ℕ) (before after : List CrdtOperation) (s : PeerSyncState)
    → needs_send
        (key_of (increment_counter counter_id node_id 0))
        (u64_mod - 1)
        (mark_ops (before ++ (increment_counter counter_id node_id amount ∷ after)) s)
      ≡ false
unfolding mark_ops operation_key_timestamp
marked_counter c n a before after s =
    let op : CrdtOperation = increment_counter c n a in
    let key : List ℕ = key_of op in
    let s' : PeerSyncState = mark_ops before s in
    ap (needs_send key (u64_mod - 1)) (mark_ops-append before (op ∷ after) s)
    ∙ keep_sent key (u64_mod - 1) after (mark_key key (u64_mod - 1) s') (older_none c n a after)
        (ground (arith, needs_send-mark_key key key (u64_mod - 1) (u64_mod - 1) s'))

-- Once an increment of a counter by a node is marked as sent to a known peer, whatever is marked
-- with it before and after, the filter drops every later increment of that counter by that node
-- for the peer, whatever its amount.
pub increments_dropped :
    (peer_id counter_id node_id amount : ℕ) (before after : List CrdtOperation) (amounts : List ℕ)
    (e : DeltaEncoder) (s : PeerSyncState)
    → get_peer_state peer_id e ≡ some s
    → filter_for_peer peer_id
        (map (increment_counter counter_id node_id) amounts)
        (mark_sent peer_id (before ++ (increment_counter counter_id node_id amount ∷ after)) e)
      ≡ []
unfolding mark_sent
increments_dropped peer_id c n a before after amounts e s h =
    let ops : List CrdtOperation = before ++ (increment_counter c n a ∷ after) in
    filter_known peer_id (map (increment_counter c n) amounts)
      (update_peer peer_id (mark_ops ops) e) (mark_ops ops s)
      (get-update_peer peer_id (mark_ops ops) e s h)
    ∙ filter_none (mark_ops ops s) (map (increment_counter c n) amounts)
        (increments_sent c n amounts (mark_ops ops s) (marked_counter c n a before after s))
