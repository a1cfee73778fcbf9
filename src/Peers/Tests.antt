-- ===== src/Peers/Tests.antt =====
-- Runs of the reconnection and of the lifetimes at concrete inputs.
use peat_btle.Prelude.{
  ◌-◌, ◌*◌, ◌≤◌, ◌≡◌, refl, false, not, min, some, [], ◌∷◌, ltb, leb, if◌then◌else◌, arith,
}
use peat_btle.Prelude.Assoc
use peat_btle.Prelude.Assoc.{keep_if, get-insert_self}
use peat_btle.Peers.Reconnect.{
  ReconnectionManager, PeerReconnectionState, default_reconnection, calculate_delay, record_attempt,
  get_status, get_peers_to_reconnect, address_discrete, ready, waiting,
}
use peat_btle.Peers.Backoff.{calculate_delay_lem, get_status-record_attempt}
use peat_btle.Peers.Ready.{listed, is_ready, get_peers_to_reconnect_lem}
use peat_btle.Peers.Lifetime.{
  PeerLifetimeManager, PeerState, default_lifetime, addresses, is_stale, cleanup_stale_peers,
}
use peat_btle.Peers.Staleness.{stale_option, cleanup_stale_peers_lem}

-- The delays of the default configuration: 4, 8, 16, 32 and then 60 seconds.
delay_doubled : calculate_delay default_reconnection 4 ≡ 32000
unfolding calculate_delay default_reconnection
delay_doubled = refl

calculate_delay_lem_example :
    (calculate_delay default_reconnection 0 ≡ 2000)
    × (calculate_delay default_reconnection 4 ≤ 60000)
    × (calculate_delay default_reconnection 4 ≤ calculate_delay default_reconnection 5)
    × (calculate_delay default_reconnection 5 ≡ (
        if ltb 4 30
        then min (2 * calculate_delay default_reconnection 4) 60000
        else calculate_delay default_reconnection 4))
unfolding default_reconnection
calculate_delay_lem_example = calculate_delay_lem default_reconnection 4 refl (omega arith)

abbrev tried_twice : PeerReconnectionState
tried_twice = record { attempts = 2; last_attempt = 100; disconnected_at = 50 }

abbrev one_lost : ReconnectionManager
one_lost = record { config = default_reconnection; peers = (7 ∷ [], tried_twice) ∷ [] }

get_status-record_attempt_example :
    get_status 9000 (7 ∷ []) (record_attempt 8500 (7 ∷ []) one_lost) ≡ (
      if leb (calculate_delay default_reconnection 3) 500
      then ready
      else waiting (calculate_delay default_reconnection 3 - 500))
unfolding default_reconnection Assoc.insert
get_status-record_attempt_example =
    get_status-record_attempt 8500 9000 (7 ∷ []) tried_twice one_lost
      (get-insert_self address_discrete (7 ∷ []) tried_twice []) (omega arith) (omega arith)

get_peers_to_reconnect_lem_example :
    listed (7 ∷ []) (get_peers_to_reconnect 9000 one_lost).0
    ≡ is_ready (get_status 9000 (7 ∷ []) one_lost)
unfolding default_reconnection Assoc.get
get_peers_to_reconnect_lem_example =
    get_peers_to_reconnect_lem 9000 (7 ∷ []) one_lost (refl, tt) (omega arith)

abbrev silent : PeerState
silent = record { connected = false; last_seen = 100; first_seen = 50; disconnected_at = some 100 }

abbrev one_silent : PeerLifetimeManager
one_silent = record { config = default_lifetime; peers = (7 ∷ [], silent) ∷ [] }

cleanup_stale_peers_lem_example :
    (listed (7 ∷ []) (addresses (cleanup_stale_peers 40000 one_silent).0)
      ≡ stale_option default_lifetime 40000 (Assoc.get address_discrete (7 ∷ []) one_silent.peers))
    × (Assoc.get address_discrete (7 ∷ []) (cleanup_stale_peers 40000 one_silent).1.peers
        ≡ keep_if
            (λ s. not (is_stale default_lifetime 40000 s))
            (Assoc.get address_discrete (7 ∷ []) one_silent.peers))
unfolding Assoc.get
cleanup_stale_peers_lem_example = cleanup_stale_peers_lem 40000 (7 ∷ []) one_silent (refl, tt)
