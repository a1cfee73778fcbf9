-- ===== src/Peers/Ready.antt =====
-- Which peers are to be reconnected (src/reconnect.rs, `get_status` and `get_peers_to_reconnect`).
use peat_btle.Prelude.{
  ℕ, ◌<◌, ◌-◌, ◌≡◌, refl, ap, sym, ◌∙◌, Bool, true, false, Option, none, some, List, [], ◌∷◌, leb,
  ◌==◌, if◌then◌else◌, arith, Bool-cases, Option-cases, inl, inr, ite,
}
use mathlib.Core.Path.{subst}
use peat_btle.Prelude.Assoc
use peat_btle.Peers.Reconnect.{
  ReconnectionConfig, ReconnectionManager, PeerReconnectionState, ReconnectionStatus,
  address_discrete, calculate_delay, is_due, status_of, get_status, get_peers_to_reconnect,
  due_addresses, reset_exhausted, ready, waiting, exhausted, not_tracked,
}

abbrev pub is_ready : ReconnectionStatus → Bool
is_ready ready = true
is_ready (waiting t) = false
is_ready (exhausted n) = false
is_ready not_tracked = false

-- The address is in the list.
abbrev pub listed : List ℕ → List (List ℕ) → Bool
listed address [] = false
listed address (a ∷ rest) = ite (address_discrete a address) true (listed address rest)

listed-due_addresses-none :
    (c : ReconnectionConfig) (now : ℕ) (address : List ℕ)
    (m : List (List ℕ × PeerReconnectionState))
    → Assoc.get address_discrete address m ≡ none
    → listed address (due_addresses c now m) ≡ false
unfolding due_addresses Assoc.get
listed-due_addresses-none c now address [] e = refl
listed-due_addresses-none c now address ((a, s) ∷ m) e =
    ground (arith, listed-due_addresses-none c now address m)

abbrev due_option : ReconnectionConfig → ℕ → Option PeerReconnectionState → Bool
due_option c now none = false
due_option c now (some s) = is_due c now s

listed-due_addresses :
    (c : ReconnectionConfig) (now : ℕ) (address : List ℕ)
    (m : List (List ℕ × PeerReconnectionState))
    → Assoc.Distinct address_discrete m
    → listed address (due_addresses c now m)
      ≡ due_option c now (Assoc.get address_discrete address m)
unfolding due_addresses Assoc.get
listed-due_addresses c now address [] d = refl
listed-due_addresses c now address ((a, s) ∷ m) d =
    ground
      (arith, listed-due_addresses c now address m d.1, listed-due_addresses-none c now address m)

-- What the first loop makes of one entry.
abbrev reset_one : ReconnectionConfig → ℕ → PeerReconnectionState → PeerReconnectionState
reset_one c now s =
    if leb c.max_attempts s.attempts then record s { attempts = 0; last_attempt = now } else s

abbrev reset_option :
    ReconnectionConfig → ℕ → Option PeerReconnectionState → Option PeerReconnectionState
reset_option c now none = none
reset_option c now (some s) = some (reset_one c now s)

reset_exhausted-step :
    (c : ReconnectionConfig) (now : ℕ) (a : List ℕ) (s : PeerReconnectionState)
    (m : List (List ℕ × PeerReconnectionState))
    → reset_exhausted c now ((a, s) ∷ m) ≡ (a, reset_one c now s) ∷ reset_exhausted c now m
unfolding reset_exhausted
reset_exhausted-step c now a s m = elim (Bool-cases (leb c.max_attempts s.attempts)) [
  | inl e ↦ rw (reset_exhausted, e) refl
  | inr e ↦ rw (reset_exhausted, e) refl
]

get-reset_exhausted :
    (c : ReconnectionConfig) (now : ℕ) (address : List ℕ)
    (m : List (List ℕ × PeerReconnectionState))
    → Assoc.get address_discrete address (reset_exhausted c now m)
      ≡ reset_option c now (Assoc.get address_discrete address m)
unfolding Assoc.get reset_exhausted
get-reset_exhausted c now address [] = refl
get-reset_exhausted c now address ((a, s) ∷ m) =
    ap (Assoc.get address_discrete address) (reset_exhausted-step c now a s m)
    ∙ ground (arith, get-reset_exhausted c now address m)

reset_exhausted-Distinct :
    (c : ReconnectionConfig) (now : ℕ) (m : List (List ℕ × PeerReconnectionState))
    → Assoc.Distinct address_discrete m
    → Assoc.Distinct address_discrete (reset_exhausted c now m)
unfolding reset_exhausted
reset_exhausted-Distinct c now [] d = tt
reset_exhausted-Distinct c now ((a, s) ∷ m) d =
    subst (Assoc.Distinct address_discrete) (sym (reset_exhausted-step c now a s m)) (
      get-reset_exhausted c now a m ∙ ap (reset_option c now) d.0,
      reset_exhausted-Distinct c now m d.1,
    )

backoff-is_ready : (b : Bool) (t : ℕ) → is_ready (if b then ready else waiting t) ≡ b
backoff-is_ready true t = refl
backoff-is_ready false t = refl

-- Without resets, a peer is due exactly when its status is ready.
due-ready :
    (c : ReconnectionConfig) (now : ℕ) (s : PeerReconnectionState)
    → c.reset_on_exhaustion ≡ false
    → is_due c now s ≡ is_ready (status_of c now s)
unfolding is_due status_of
due-ready c now s e = elim (Bool-cases (leb c.max_attempts s.attempts)) [
  | inl l ↦ rw (l, e) refl
  | inr l ↦ elim (Bool-cases (s.attempts == 0)) [
    | inl z ↦ rw (l, z) refl
    | inr z ↦
        rw (l, z)
          (sym (
            backoff-is_ready (leb (calculate_delay c s.attempts) (now - s.last_attempt))
              (calculate_delay c s.attempts - (now - s.last_attempt))))
  ]
]

-- With resets, it is due after the reset exactly when its status was ready before.
due-reset :
    (c : ReconnectionConfig) (now : ℕ) (s : PeerReconnectionState)
    → c.reset_on_exhaustion ≡ true
    → 0 < c.max_attempts
    → is_due c now (reset_one c now s) ≡ is_ready (status_of c now s)
unfolding is_due status_of
due-reset c now s e some_attempts = elim (Bool-cases (leb c.max_attempts s.attempts)) [
  | inl l ↦ rw (l, e) (ground (arith, some_attempts))
  | inr l ↦ elim (Bool-cases (s.attempts == 0)) [
    | inl z ↦ rw (l, l, z) refl
    | inr z ↦
        rw (l, l, z)
          (sym (
            backoff-is_ready (leb (calculate_delay c s.attempts) (now - s.last_attempt))
              (calculate_delay c s.attempts - (now - s.last_attempt))))
  ]
]

-- A manager that tracks no address twice, with at least one attempt allowed. An address is among those
-- that `get_peers_to_reconnect` returns exactly when its status at that time is `Ready`, with or without
-- resets of exhausted peers.
pub get_peers_to_reconnect_lem :
    (now : ℕ) (address : List ℕ) (m : ReconnectionManager)
    → Assoc.Distinct address_discrete m.peers
    → 0 < m.config.max_attempts
    → listed address (get_peers_to_reconnect now m).0 ≡ is_ready (get_status now address m)
unfolding get_peers_to_reconnect get_status
get_peers_to_reconnect_lem now address m d some_attempts =
    elim (Bool-cases m.config.reset_on_exhaustion) [
      | inr e ↦
          ap (listed address) (chosen e)
          ∙ (listed-due_addresses m.config now address m.peers d
              ∙ elim (Option-cases (Assoc.get address_discrete address m.peers)) [
                | inl n ↦ rw (get_status, n) refl
                | inr (s, n) ↦ rw (get_status, n) (due-ready m.config now s e)
              ])
      | inl e ↦
          ap (listed address) (chosen e)
          ∙ (listed-due_addresses m.config now address (reset_exhausted m.config now m.peers)
                (reset_exhausted-Distinct m.config now m.peers d)
              ∙ (ap (due_option m.config now) (get-reset_exhausted m.config now address m.peers)
                  ∙ elim (Option-cases (Assoc.get address_discrete address m.peers)) [
                    | inl n ↦ rw (get_status, n) refl
                    | inr (s, n) ↦ rw (get_status, n) (due-reset m.config now s e some_attempts)
                  ]))
    ]
  where
    chosen :
        {b : Bool}
        → m.config.reset_on_exhaustion ≡ b
        → (get_peers_to_reconnect now m).0
          ≡ due_addresses m.config now (if b then reset_exhausted m.config now m.peers else m.peers)
    chosen e =
        ap
          (λ b.
            due_addresses m.config now
              (if b then reset_exhausted m.config now m.peers else m.peers))
          e
