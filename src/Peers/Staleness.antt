-- ===== src/Peers/Staleness.antt =====
-- Which peers are stale, and what a cleanup removes (src/peer_lifetime.rs).
use peat_btle.Prelude.{
  ℕ, ◌-◌, ◌≡◌, refl, ap, ◌∙◌, Bool, true, false, not, Option, none, some, List, [], ◌∷◌, ltb,
  is_some, if◌then◌else◌, arith, Bool-cases, Option-cases, inl, inr,
}
use peat_btle.Prelude.Assoc
use peat_btle.Prelude.Assoc.{
  keys, retain, keep_if, get-retain, insert, get-insert_self, insert-Distinct,
}
use peat_btle.Prelude.SortBy.{remove_all, get-remove_all}
use peat_btle.Peers.Reconnect.{address_discrete}
use peat_btle.Peers.Ready.{listed}
use peat_btle.Peers.Lifetime.{
  PeerState, PeerLifetimeConfig, PeerLifetimeManager, is_stale, stale_info, stale_infos, addresses,
  get_stale_peers, get_stale_peer_addresses, cleanup_stale_peers, on_peer_activity, active,
  new_peer,
}

addresses-stale_infos :
    (c : PeerLifetimeConfig) (now : ℕ) (m : List (List ℕ × PeerState))
    → addresses (stale_infos c now m) ≡ keys (retain (is_stale c now) m)
unfolding addresses stale_infos retain stale_info
addresses-stale_infos c now [] = refl
addresses-stale_infos c now ((a, s) ∷ m) = elim (Bool-cases (is_stale c now s)) [
  | inl e ↦ rw (stale_infos, retain, e) (ap (◌∷◌ a) (addresses-stale_infos c now m))
  | inr e ↦ rw (stale_infos, retain, e) (addresses-stale_infos c now m)
]

listed-keys :
    (address : List ℕ) (m : List (List ℕ × PeerState))
    → listed address (keys m) ≡ is_some (Assoc.get address_discrete address m)
unfolding Assoc.get
listed-keys address [] = refl
listed-keys address ((a, s) ∷ m) = ground (arith, listed-keys address m)

abbrev pub stale_option : PeerLifetimeConfig → ℕ → Option PeerState → Bool
stale_option c now none = false
stale_option c now (some s) = is_stale c now s

keep_if-stale :
    (c : PeerLifetimeConfig) (now : ℕ) (o : Option PeerState)
    → is_some (keep_if (is_stale c now) o) ≡ stale_option c now o
keep_if-stale c now none = refl
keep_if-stale c now (some s) = ground arith

listed_lem :
    (c : PeerLifetimeConfig) (now : ℕ) (address : List ℕ) (m : List (List ℕ × PeerState))
    → Assoc.Distinct address_discrete m
    → listed address (addresses (stale_infos c now m))
      ≡ stale_option c now (Assoc.get address_discrete address m)
listed_lem c now address m d =
    ap (listed address) (addresses-stale_infos c now m)
    ∙ (listed-keys address (retain (is_stale c now) m)
        ∙ (ap is_some (get-retain address_discrete (is_stale c now) address m d)
            ∙ keep_if-stale c now (Assoc.get address_discrete address m)))

keep_if-others :
    (c : PeerLifetimeConfig) (now : ℕ) (o : Option PeerState)
    → elim (keep_if (is_stale c now) o) [ none ↦ o | some _ ↦ none ]
      ≡ keep_if (λ s. not (is_stale c now s)) o
keep_if-others c now none = refl
keep_if-others c now (some s) = ground arith

-- A manager that tracks no address twice. A cleanup reports an address exactly when its peer is stale, and
-- afterwards exactly the peers that are not stale are tracked, unchanged.
pub cleanup_stale_peers_lem :
    (now : ℕ) (address : List ℕ) (m : PeerLifetimeManager)
    → Assoc.Distinct address_discrete m.peers
    → (listed address (addresses (cleanup_stale_peers now m).0)
        ≡ stale_option m.config now (Assoc.get address_discrete address m.peers))
      × (Assoc.get address_discrete address (cleanup_stale_peers now m).1.peers
          ≡ keep_if
              (λ s. not (is_stale m.config now s))
              (Assoc.get address_discrete address m.peers))
unfolding cleanup_stale_peers get_stale_peers
cleanup_stale_peers_lem now address m d =
    let stale = retain (is_stale m.config now) m.peers in
    (
      listed_lem m.config now address m.peers d,
      ap (λ ks. Assoc.get address_discrete address (remove_all address_discrete ks m.peers))
            (addresses-stale_infos m.config now m.peers)
          ∙ (get-remove_all address_discrete address stale m.peers d
              ∙ (ap
                    (λ o. elim o [
                      | none ↦ Assoc.get address_discrete address m.peers
                      | some _ ↦ none
                    ])
                    (get-retain address_discrete (is_stale m.config now) address m.peers d)
                  ∙ keep_if-others m.config now (Assoc.get address_discrete address m.peers))),
    )

-- What activity makes of a peer.
active-connected :
    (now : ℕ) (connected : Bool) (s : PeerState)
    → ((active now connected s).connected ≡ connected) × ((active now connected s).last_seen ≡ now)
unfolding active
active-connected now true s = elim (Bool-cases s.connected) [
  | inl e ↦ ground (arith, e)
  | inr e ↦ ground (arith, e)
]
active-connected now false s = elim (Bool-cases s.connected) [
  | inl e ↦ ground (arith, e)
  | inr e ↦ ground (arith, e)
]

-- The time that a peer may be silent.
abbrev pub timeout_of : PeerLifetimeConfig → Bool → ℕ
timeout_of c connected = if connected then c.connected_timeout else c.disconnected_timeout

is_stale-timeout_of :
    (c : PeerLifetimeConfig) (now : ℕ) (s : PeerState)
    → is_stale c now s ≡ ltb (timeout_of c s.connected) (now - s.last_seen)
unfolding is_stale
is_stale-timeout_of c now s = elim (Bool-cases s.connected) [
  | inl e ↦ rw (is_stale, e) refl
  | inr e ↦ rw (is_stale, e) refl
]

is_stale_since :
    (c : PeerLifetimeConfig) (now later : ℕ) (connected : Bool) (s : PeerState)
    → (s.connected ≡ connected) × (s.last_seen ≡ now)
    → is_stale c later s ≡ ltb (timeout_of c connected) (later - now)
is_stale_since c now later connected s (a, b) =
    is_stale-timeout_of c later s
    ∙ (ap (λ x. ltb (timeout_of c x) (later - s.last_seen)) a
        ∙ ap (λ t. ltb (timeout_of c connected) (later - t)) b)

on_peer_activity-none :
    (now : ℕ) (address : List ℕ) (connected : Bool) (m : PeerLifetimeManager)
    → Assoc.get address_discrete address m.peers ≡ none
    → on_peer_activity now address connected m
      ≡ record m { peers = insert address_discrete address (new_peer now connected) m.peers }
unfolding on_peer_activity
on_peer_activity-none now address connected m e = rw (on_peer_activity, e) refl

on_peer_activity-some :
    (now : ℕ) (address : List ℕ) (connected : Bool) (s : PeerState) (m : PeerLifetimeManager)
    → Assoc.get address_discrete address m.peers ≡ some s
    → on_peer_activity now address connected m
      ≡ record m { peers = insert address_discrete address (active now connected s) m.peers }
unfolding on_peer_activity
on_peer_activity-some now address connected s m e = rw (on_peer_activity, e) refl

-- Activity of a peer, tracked or not, in a manager that tracks no address twice. At any other time the
-- peer is stale exactly when more than its timeout has passed since: the longer one if it was connected,
-- and the shorter one else.
pub get_stale_peer_addresses-on_peer_activity :
    (now later : ℕ) (address : List ℕ) (connected : Bool) (m : PeerLifetimeManager)
    → Assoc.Distinct address_discrete m.peers
    → listed address (get_stale_peer_addresses later (on_peer_activity now address connected m))
      ≡ ltb (timeout_of m.config connected) (later - now)
unfolding get_stale_peer_addresses get_stale_peers new_peer
get_stale_peer_addresses-on_peer_activity now later address connected m d =
    elim (Option-cases (Assoc.get address_discrete address m.peers)) [
      | inl e ↦
          noted (new_peer now connected) (on_peer_activity-none now address connected m e)
            (refl, refl)
      | inr (s, e) ↦
          noted (active now connected s) (on_peer_activity-some now address connected s m e)
            (active-connected now connected s)
    ]
  where
    noted :
        (s : PeerState)
        → on_peer_activity now address connected m
          ≡ record m { peers = insert address_discrete address s m.peers }
        → (s.connected ≡ connected) × (s.last_seen ≡ now)
        → listed address (get_stale_peer_addresses later (on_peer_activity now address connected m))
          ≡ ltb (timeout_of m.config connected) (later - now)
    noted s e h =
        ap (λ k. listed address (addresses (stale_infos k.config later k.peers))) e
        ∙ (listed_lem m.config later address (insert address_discrete address s m.peers)
              (insert-Distinct address_discrete address s m.peers d)
            ∙ (ap (stale_option m.config later) (get-insert_self address_discrete address s m.peers)
                ∙ is_stale_since m.config now later connected s h))
