-- ===== src/Tests/Limiters.antt =====
-- The limiters, with two connections for all and one for each caller.
use ocserv_fleet_agent.Common.Assoc.{lookup, insert, remove}
use ocserv_fleet_agent.Agent.Limiters.{
  try_acquire, Event, new_pool, after_all, remove_guard, guard_count, drop_guard, after,
  try_acquire_handshake, drop_handshake, acquire_global, Pool, acquire_per_controller,
  return_refused, return_guard, release_global, release_per_controller,
}
use ocserv_fleet_agent.Agent.Limiters.Balance.{
  IsBalanced, after_all-IsBalanced, try_acquire_iff, acquire_iff, global_holders, own_holders,
  IsQuiet,
}
use ocserv_fleet_agent.Common.{
  List, text_discrete, ◌∷◌, ◌≡◌, [], arith, true, ◌↔◌, length, ◌<◌, refl, before, ◌⊎◌, false,
}

-- A caller is refused while another task, itself refused, has not yet given back the permit of all.
abbrev events : List Event
events =
    Event.ask "a"
    ∷ Event.enter "a"
    ∷ Event.choose "a"
    ∷ Event.enter "b"
    ∷ Event.give_up "a"
    ∷ Event.ask "b"
    ∷ Event.leave "a"
    ∷ Event.free_global "a"
    ∷ Event.ask "c"
    ∷ Event.free_own "a"
    ∷ []

events_end :
    ((after_all events (new_pool 2 1)).guards ≡ "c" ∷ "b" ∷ [])
    × ((after_all events (new_pool 2 1)).metrics.rejected ≡ 2)
    × IsQuiet (after_all events (new_pool 2 1))
unfolding text_discrete before new_pool remove_guard guard_count acquire_global
    acquire_per_controller return_refused return_guard drop_guard release_global
    release_per_controller try_acquire after after_all try_acquire_handshake drop_handshake lookup
    insert remove
events_end = (
  refl,
  refl,
  record {
    no_entered = refl;
    no_refused = refl;
    no_granted = refl;
    no_dropping = refl;
    no_returning = refl;
  },
)

after_all-IsBalanced_example : IsBalanced 2 1 (after_all events (new_pool 2 1))
after_all-IsBalanced_example = after_all-IsBalanced 2 1 events (omega arith)

acquire_iff_example :
    (((acquire_global "a" (after_all events (new_pool 2 1))).0 ≡ true)
      ↔ (global_holders (after_all events (new_pool 2 1)) < 2))
    × (((acquire_per_controller "a" (after_all events (new_pool 2 1))).0 ≡ true)
        ↔ (own_holders "a" (after_all events (new_pool 2 1)) < 1))
acquire_iff_example = acquire_iff 2 1 events "a" (omega arith)

abbrev end : Pool
end = after_all events (new_pool 2 1)

try_acquire_iff_example :
    (((try_acquire "a" end).0 ≡ true)
      ↔ ((length end.guards < 2) × (guard_count "a" end.guards < 1)))
    × ((((try_acquire "a" end).0 ≡ true) × ((try_acquire "a" end).1.guards ≡ "a" ∷ end.guards))
        ⊎ (((try_acquire "a" end).0 ≡ false)
            × ((try_acquire "a" end).1.guards ≡ end.guards)
            × ((try_acquire "a" end).1.free ≡ end.free)))
try_acquire_iff_example = try_acquire_iff 2 1 events "a" (omega arith) events_end.2
