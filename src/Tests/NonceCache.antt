-- ===== src/Tests/NonceCache.antt =====
-- The replay cache: the tests of nonce.rs, and its theorems at their inputs.
use ocserv_fleet_agent.Common.Assoc.{insert, remove}
use ocserv_fleet_agent.Common.{
  ℕ, some, text_discrete, ◌≡◌, List, ◌↔◌, ◌∷◌, arith, ◌<◌, refl, is_some, [], true,
}
use ocserv_fleet_agent.Agent.Nonce.{
  NonceCache, NonceDecision, with_limits, register_at, expiry_of, prune_expired_at, peer_live_len,
  NonceLimitScope,
}
use ocserv_fleet_agent.Agent.Nonce.Validity.{
  IsValid, with_limits-IsValid, unexpired, expiry_of-prune,
}
use ocserv_fleet_agent.Agent.Nonce.Replay.{
  register_at-IsValid, replay_iff, accepted_once, accepted_after_expiry, run, Registration,
}

abbrev last_instant : ℕ
last_instant = 1000000

abbrev small : NonceCache
small = with_limits 2 1

abbrev one_stored : NonceCache
one_stored = (register_at last_instant 0 "remote-a" "nonce-1" 5 small).0

one_stored-IsValid : IsValid one_stored
one_stored-IsValid =
    register_at-IsValid last_instant 0 "remote-a" "nonce-1" 5 small (with_limits-IsValid 2 1)

first_accepted :
    (register_at last_instant 0 "remote-a" "nonce-1" 5 small).1 ≡ NonceDecision.accepted
unfolding register_at with_limits text_discrete insert remove
first_accepted = refl

second_over_limit :
    (register_at last_instant 4 "remote-a" "nonce-2" 5 one_stored).1
    ≡ NonceDecision.resource_exhausted NonceLimitScope.per_peer 1
unfolding register_at with_limits text_discrete insert remove
second_over_limit = refl

after_expiry :
    (register_at last_instant 5 "remote-a" "nonce-2" 5 one_stored).1 ≡ NonceDecision.accepted
unfolding register_at with_limits text_discrete insert remove
after_expiry = refl

register_at-IsValid_example :
    IsValid (register_at last_instant 3 "remote-b" "nonce-1" 7 one_stored).0
register_at-IsValid_example =
    register_at-IsValid last_instant 3 "remote-b" "nonce-1" 7 one_stored one_stored-IsValid

expiry_of-prune_example :
    expiry_of "remote-a" "nonce-1" (prune_expired_at 9 one_stored).0
    ≡ unexpired 9 (expiry_of "remote-a" "nonce-1" one_stored)
expiry_of-prune_example = expiry_of-prune 9 "remote-a" "nonce-1" one_stored one_stored-IsValid

replay_iff_example :
    ((register_at last_instant 4 "remote-a" "nonce-1" 5 one_stored).1 ≡ NonceDecision.replay)
    ↔ (is_some (unexpired 4 (expiry_of "remote-a" "nonce-1" one_stored)) ≡ true)
replay_iff_example = replay_iff last_instant 4 "remote-a" "nonce-1" 5 one_stored one_stored-IsValid

abbrev other_peers : List Registration
other_peers =
    record { now = 1; peer = "remote-b"; nonce = "nonce-1"; ttl = 9 }
    ∷ record { now = 2; peer = "remote-c"; nonce = "nonce-1"; ttl = 9 }
    ∷ []

accepted_once_example :
    (register_at last_instant 4 "remote-a" "nonce-1" 60 (run last_instant one_stored other_peers)).1
    ≡ NonceDecision.replay
accepted_once_example =
    accepted_once last_instant 0 "remote-a" "nonce-1" 5 small other_peers 4 60
      (with_limits-IsValid 2 1) first_accepted (omega arith) (omega arith) (omega arith)

stored_expiry : expiry_of "remote-a" "nonce-1" one_stored ≡ some 5
unfolding register_at with_limits text_discrete insert remove
stored_expiry = refl

room_left :
    (peer_live_len "remote-a" (prune_expired_at 6 one_stored).0 < 1)
    × ((prune_expired_at 6 one_stored).0.live_total < 2)
    × (one_stored.max_live_per_peer ≡ 1)
    × (one_stored.max_live_global ≡ 2)
unfolding register_at with_limits text_discrete insert remove peer_live_len prune_expired_at
room_left = (omega arith, omega arith, refl, refl)

accepted_after_expiry_example :
    (register_at last_instant 6 "remote-a" "nonce-1" 5 one_stored).1 ≡ NonceDecision.accepted
accepted_after_expiry_example =
    accepted_after_expiry last_instant 6 "remote-a" "nonce-1" 5 5 one_stored one_stored-IsValid
      stored_expiry (omega arith) (omega (arith, room_left)) (omega (arith, room_left))
