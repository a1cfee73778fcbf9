-- ===== src/Peers/Backoff.antt =====
-- The delay between attempts (src/reconnect.rs, `calculate_delay` and `record_attempt`).
use peat_btle.Prelude.{
  ℕ, zero, suc, ◌+◌, ◌-◌, ◌*◌, ◌%◌, ◌^◌, ◌≤◌, ◌<◌, ◌≡◌, refl, ap, ◌∙◌, min, false, some, List, ltb,
  lt→ltb, le→ltb, leb, if◌then◌else◌, arith, dec_lt, ◌==◌,
}
use native.Mathlib.Nat.{pow-suc}
use peat_btle.Prelude.Bytes.{u32_mod, u64_mod}
use peat_btle.Prelude.Assoc
use peat_btle.Prelude.Assoc.{insert, get-insert_self}
use peat_btle.Prelude.Chunks.{mul_mono}
use peat_btle.Peers.Reconnect.{
  ReconnectionConfig, ReconnectionManager, PeerReconnectionState, address_discrete, calculate_delay,
  status_of, get_status, record_attempt, ready, waiting,
}

pow_mono : (m n : ℕ) → m ≤ n → 2 ^ m ≤ 2 ^ n
pow_mono zero zero h = omega arith
pow_mono zero (suc n) h = omega (arith, pow_mono zero n (omega arith), pow-suc 2 n)
pow_mono (suc m) zero h = absurd (omega arith)
pow_mono (suc m) (suc n) h = omega (arith, pow_mono m n (omega arith), pow-suc 2 n, pow-suc 2 m)

-- 2 ^ 33 milliseconds are 8589934592.
no_wrap : (base k : ℕ) → base < 8589934592 → k ≤ 30 → (base * 2 ^ k) % u64_mod ≡ base * 2 ^ k
no_wrap base k small le =
    let top : 2 ^ k ≤ 1073741824 = pow_mono k 30 le in
    let product : base * 2 ^ k ≤ base * 1073741824 =
      omega (arith, mul_mono (2 ^ k) 1073741824 base top) in
    omega (arith, product)

-- The delay of a configuration that backs off.
calculate_delay-min :
    (c : ReconnectionConfig) (n : ℕ)
    → c.use_flat_delay ≡ false
    → c.base_delay < 8589934592
    → calculate_delay c n ≡ min (c.base_delay * 2 ^ min n 30) c.max_delay
unfolding calculate_delay
calculate_delay-min c n e small =
    rw (calculate_delay, e)
      (ap (λ d. min d c.max_delay) (no_wrap c.base_delay (min n 30) small (omega arith)))

doubled : (base n : ℕ) → n < 30 → base * 2 ^ min (suc n) 30 ≡ 2 * (base * 2 ^ min n 30)
doubled base n l = ap (λ k. base * 2 ^ k) {y = suc (min n 30)} (omega arith) ∙ twice
  where
    twice : base * 2 ^ suc (min n 30) ≡ 2 * (base * 2 ^ min n 30)
    twice = ap (λ p. base * p) (pow-suc 2 (min n 30)) ∙ omega arith

capped : (base n : ℕ) → 30 ≤ n → base * 2 ^ min (suc n) 30 ≡ base * 2 ^ min n 30
capped base n l = ap (λ k. base * 2 ^ k) {y = min n 30} (omega arith)

-- A configuration that backs off, with a base below 8,589,934,592 ms (2 ^ 33, about 99 days): the product
-- does not wrap. The delay before any attempt is the base, or the maximum if that is less. Every delay is
-- at most the maximum, no later attempt waits less than an earlier one, and up to the 30th attempt each
-- delay is twice the one before it, or the maximum if that is less; from then on it stays.
pub calculate_delay_lem :
    (c : ReconnectionConfig) (n : ℕ)
    → c.use_flat_delay ≡ false
    → c.base_delay < 8589934592
    → (calculate_delay c 0 ≡ min c.base_delay c.max_delay)
      × (calculate_delay c n ≤ c.max_delay)
      × (calculate_delay c n ≤ calculate_delay c (suc n))
      × (calculate_delay c (suc n)
          ≡ (if ltb n 30 then min (2 * calculate_delay c n) c.max_delay else calculate_delay c n))
calculate_delay_lem c n e small = (
  calculate_delay-min c 0 e small ∙ ap (λ d. min d c.max_delay) (omega arith),
  omega (arith, here),
  elim (dec_lt n 30) [
    | yes l ↦ omega (arith, here, after, doubled c.base_delay n l)
    | no l ↦ omega (arith, here, after, capped c.base_delay n (omega arith))
  ],
  elim (dec_lt n 30) [
    | yes l ↦ rw (lt→ltb n 30 l) (omega (arith, here, after, doubled c.base_delay n l))
    | no l ↦
        rw (le→ltb n 30 (omega arith))
          (omega (arith, here, after, capped c.base_delay n (omega arith)))
  ],
)
  where
    here : calculate_delay c n ≡ min (c.base_delay * 2 ^ min n 30) c.max_delay
    here = calculate_delay-min c n e small

    after : calculate_delay c (suc n) ≡ min (c.base_delay * 2 ^ min (suc n) 30) c.max_delay
    after = calculate_delay-min c (suc n) e small

-- The state after an attempt.
abbrev tried : ℕ → PeerReconnectionState → PeerReconnectionState
tried now s = record s { attempts = s.attempts + 1; last_attempt = now }

lt→leb : (m n : ℕ) → n < m → leb m n ≡ false
lt→leb m n h = ground (arith, h)

record_attempt-some :
    (now : ℕ) (address : List ℕ) (s : PeerReconnectionState) (m : ReconnectionManager)
    → Assoc.get address_discrete address m.peers ≡ some s
    → record_attempt now address m ≡ record m {
      peers =
          insert address_discrete address
            (record s { attempts = (s.attempts + 1) % u32_mod; last_attempt = now })
            m.peers;
    }
unfolding record_attempt
record_attempt-some now address s m e = rw (record_attempt, e) refl

status_of_backoff :
    (c : ReconnectionConfig) (now : ℕ) (s : PeerReconnectionState)
    → leb c.max_attempts s.attempts ≡ false
    → (s.attempts == 0) ≡ false
    → status_of c now s ≡ (
        if leb (calculate_delay c s.attempts) (now - s.last_attempt)
        then ready
        else waiting (calculate_delay c s.attempts - (now - s.last_attempt)))
unfolding status_of
status_of_backoff c now s a b = rw (status_of, a, b) refl

-- A tracked peer that is not at its last attempt. An attempt is recorded at one time; at any other
-- time the peer is ready again exactly when the delay of its new count of attempts has passed since,
-- and else it waits for what is left of it.
pub get_status-record_attempt :
    (now later : ℕ) (address : List ℕ) (s : PeerReconnectionState) (m : ReconnectionManager)
    → Assoc.get address_discrete address m.peers ≡ some s
    → s.attempts + 1 < m.config.max_attempts
    → m.config.max_attempts < u32_mod
    → get_status later address (record_attempt now address m) ≡ (
        if leb (calculate_delay m.config (s.attempts + 1)) (later - now)
        then ready
        else waiting (calculate_delay m.config (s.attempts + 1) - (later - now)))
unfolding get_status
get_status-record_attempt now later address s m e few small =
    let same : (s.attempts + 1) % u32_mod ≡ s.attempts + 1 = omega arith in
    ap (get_status later address) (record_attempt-some now address s m e)
    ∙ rw (same, get_status, get-insert_self address_discrete address (tried now s) m.peers)
        (status_of_backoff m.config later (tried now s)
          (lt→leb m.config.max_attempts (s.attempts + 1) few) (ground arith))
