-- ===== src/Crdt/Convergence.antt =====
-- Convergence of emergencies (src/sync/crdt.rs, `EmergencyEvent::merge`).
use peat_btle.Prelude.{ℕ, ◌≡◌, ◌≢◌, Bool, Option, List, [], ◌∷◌, refl, ◌⊎◌, arith, sym, ◌∙◌}
use peat_btle.Prelude.Sorted.{
  get, merge_entries, opt_step, IsSorted, ext, get-merge_entries, merge_entries-IsSorted,
}
use peat_btle.Crdt.Emergency.{EmergencyEvent, ack, merge, or_step}

or_step_comm : (x y : Option Bool) → opt_step or_step x y ≡ opt_step or_step y x
or_step_comm x y = ground arith

or_step_idem : (x : Option Bool) → opt_step or_step x x ≡ x
or_step_idem x = ground arith

module _ (a b : List (ℕ × Bool)) (s : IsSorted a) (t : IsSorted b) where
  join_comm : merge_entries or_step a b ≡ merge_entries or_step b a
  join_comm =
      ext (merge_entries or_step a b) (merge_entries or_step b a)
        (merge_entries-IsSorted or_step a b s) (merge_entries-IsSorted or_step b a t)
        (λ k.
          get-merge_entries or_step k a b t
          ∙ or_step_comm (get k a) (get k b)
          ∙ sym (get-merge_entries or_step k b a s))

  join_idem : merge_entries or_step a a ≡ a
  join_idem =
      ext (merge_entries or_step a a) a (merge_entries-IsSorted or_step a a s) s
        (λ k. get-merge_entries or_step k a a s ∙ or_step_idem (get k a))

-- Two replicas that exchange their emergencies hold the same one afterwards, if the emergencies are
-- views of one event or have different times; and a merge with itself changes nothing.
pub merge_converges :
    (a b : EmergencyEvent)
    → IsSorted a.acks
    → IsSorted b.acks
    → (a.source_node ≡ b.source_node) ⊎ (a.timestamp ≢ b.timestamp)
    → ((merge a b).0 ≡ (merge b a).0) × ((merge a a).0 ≡ a)
unfolding merge
merge_converges a b s t h =
    (ground (arith, join_comm a.acks b.acks s t), ground (arith, join_idem a.acks a.acks s s))

-- A step of two replicas: one merges the emergency of the other, or notes an acknowledgment.
pub data Exchange : Type 0 where
  left_merges : Exchange
  right_merges : Exchange
  left_acks : ℕ → Exchange
  right_acks : ℕ → Exchange

unfoldable pub exchange :
    List Exchange → EmergencyEvent × EmergencyEvent → EmergencyEvent × EmergencyEvent
exchange [] (a, b) = (a, b)
exchange (left_merges ∷ steps) (a, b) = exchange steps ((merge a b).0, b)
exchange (right_merges ∷ steps) (a, b) = exchange steps (a, (merge b a).0)
exchange (left_acks n ∷ steps) (a, b) = exchange steps ((ack a n).0, b)
exchange (right_acks n ∷ steps) (a, b) = exchange steps (a, (ack b n).0)

-- The nodes whose acknowledgment the left replica, and the right one, notes itself.
unfoldable pub acks_left : List Exchange → List ℕ
acks_left [] = []
acks_left (left_acks n ∷ steps) = n ∷ acks_left steps
acks_left (_ ∷ steps) = acks_left steps

unfoldable pub acks_right : List Exchange → List ℕ
acks_right [] = []
acks_right (right_acks n ∷ steps) = n ∷ acks_right steps
acks_right (_ ∷ steps) = acks_right steps

unfoldable pub ack_all : List ℕ → EmergencyEvent → EmergencyEvent
ack_all [] e = e
ack_all (n ∷ ns) e = ack_all ns (ack e n).0

-- Two emergencies that neither merge takes for the same or for an older one.
record AreTied (a b : EmergencyEvent) : Type 0 where
  sources : a.source_node ≢ b.source_node
  times : a.timestamp ≡ b.timestamp

AreTied-merge : (a b : EmergencyEvent) → AreTied a b → ((merge a b).0 ≡ a) × ((merge b a).0 ≡ b)
unfolding merge
AreTied-merge a b h = ground (arith, h.sources, h.times)

ack-same :
    (e : EmergencyEvent) (n : ℕ)
    → ((ack e n).0.source_node ≡ e.source_node) × ((ack e n).0.timestamp ≡ e.timestamp)
unfolding ack
ack-same e n = ground arith

AreTied-ack_left : (a b : EmergencyEvent) (n : ℕ) → AreTied a b → AreTied (ack a n).0 b
AreTied-ack_left a b n h =
    let (source, time) = ack-same a n in
    record { sources = λ e. h.sources (sym source ∙ e); times = time ∙ h.times }

AreTied-ack_right : (a b : EmergencyEvent) (n : ℕ) → AreTied a b → AreTied a (ack b n).0
AreTied-ack_right a b n h =
    let (source, time) = ack-same b n in
    record { sources = λ e. h.sources (e ∙ source); times = h.times ∙ sym time }

exchange-AreTied :
    (steps : List Exchange) (a b : EmergencyEvent)
    → AreTied a b
    → exchange steps (a, b) ≡ (ack_all (acks_left steps) a, ack_all (acks_right steps) b)
unfolding exchange acks_left acks_right ack_all
exchange-AreTied [] a b h = refl
exchange-AreTied (left_merges ∷ steps) a b h =
    rw (AreTied-merge a b h).0 (exchange-AreTied steps a b h)
exchange-AreTied (right_merges ∷ steps) a b h =
    rw (AreTied-merge a b h).1 (exchange-AreTied steps a b h)
exchange-AreTied (left_acks n ∷ steps) a b h =
    exchange-AreTied steps (ack a n).0 b (AreTied-ack_left a b n h)
exchange-AreTied (right_acks n ∷ steps) a b h =
    exchange-AreTied steps a (ack b n).0 (AreTied-ack_right a b n h)

ack_all-same : (ns : List ℕ) (e : EmergencyEvent) → (ack_all ns e).source_node ≡ e.source_node
unfolding ack_all
ack_all-same [] e = refl
ack_all-same (n ∷ ns) e = ack_all-same ns (ack e n).0 ∙ (ack-same e n).0

-- Two replicas hold emergencies of different nodes that have one time. However they merge with each
-- other and note acknowledgments, in whatever order, each one ends up with its own emergency and just the
-- acknowledgments that it noted itself, and the two are still emergencies of different nodes.
pub merge_diverges :
    (steps : List Exchange) (a b : EmergencyEvent)
    → a.source_node ≢ b.source_node
    → a.timestamp ≡ b.timestamp
    → (exchange steps (a, b) ≡ (ack_all (acks_left steps) a, ack_all (acks_right steps) b))
      × ((exchange steps (a, b)).0.source_node ≢ (exchange steps (a, b)).1.source_node)
merge_diverges steps a b ne same =
    let kept = exchange-AreTied steps a b (record { sources = ne; times = same }) in
    let apart : (ack_all (acks_left steps) a).source_node
        ≢ (ack_all (acks_right steps) b).source_node =
      λ e. ne (sym (ack_all-same (acks_left steps) a) ∙ (e ∙ ack_all-same (acks_right steps) b)) in
    (kept, rw kept apart)
