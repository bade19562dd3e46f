-- ===== src/Agent/Limiters/Balance.antt =====
-- The permits of a resource over any sequence of requests and drops.
use ocserv_fleet_agent.Common.Assoc.{lookup, lookup-insert}
use ocserv_fleet_agent.Common.{
  ℕ, ◌≡◌, String, List, ◌+◌, length, ◌≢◌, ◌<◌, arith, ◌∷◌, if◌then◌else◌, [], decided, true, refl,
  text_discrete, ◌↔◌, ◌-◌, Bool-cases, ◌⊎◌, false, inr, ◌==◌, subst, inl,
}
use ocserv_fleet_agent.Agent.Limiters.{
  Pool, Event, Handshakes, remove_guard, try_acquire, drop_guard, after_all, new_pool,
  try_acquire_handshake, guard_count, after, drop_handshake, free_of, two_64, acquire_global,
  acquire_per_controller, return_refused, return_guard, release_global, release_per_controller,
  false, when_there,
}

-- The calls and guards that hold a permit of all, those that hold a permit of the caller, and how many
-- of the latter there are.
abbrev pub global_holders : Pool → ℕ
global_holders p =
    length p.entered + length p.refused + length p.granted + length p.guards + length p.dropping

abbrev pub own_holders : String → Pool → ℕ
own_holders caller p =
    guard_count caller p.granted
    + guard_count caller p.guards
    + guard_count caller p.dropping
    + guard_count caller p.returning

-- The permits of all, and of each caller, are free or held, and the gauge counts the guards.
pub record IsBalanced (limit per_controller_limit : ℕ) (p : Pool) : Type 0 where
  pub same_limit : p.per_controller_limit ≡ per_controller_limit
  pub total : p.free + global_holders p ≡ limit
  pub each : (caller : String) → free_of caller p + own_holders caller p ≡ per_controller_limit
  pub gauge : p.metrics.active ≡ length p.guards

remove_guard_counts :
    (caller : String) (gs : List String)
    → guard_count caller gs ≢ 0
    → length (remove_guard caller gs) + 1 ≡ length gs
unfolding remove_guard guard_count
remove_guard_counts caller [] h = ground arith
remove_guard_counts caller (g ∷ gs) h = ground (arith, remove_guard_counts caller gs)

remove_guard_count :
    (caller other : String) (gs : List String)
    → guard_count caller gs ≢ 0
    → guard_count other (remove_guard caller gs)
        + (if decided (text_discrete caller other) then 1 else 0)
      ≡ guard_count other gs
unfolding remove_guard guard_count
remove_guard_count caller other [] h = ground arith
remove_guard_count caller other (g ∷ gs) h = ground (arith, remove_guard_count caller other gs)

module _ (limit k : ℕ) (small : limit < two_64) (caller : String) (p : Pool)
    (b : IsBalanced limit k p) where
  enter-IsBalanced : IsBalanced limit k (acquire_global caller p).1
  unfolding acquire_global
  enter-IsBalanced = record {
    same_limit = ground (arith, b.same_limit);
    total = ground (arith, b.total);
    each = λ other. ground (arith, b.each other);
    gauge = ground (arith, b.gauge);
  }

  choose-IsBalanced :
      guard_count caller p.entered ≢ 0 → IsBalanced limit k (acquire_per_controller caller p).1
  unfolding acquire_per_controller guard_count
  choose-IsBalanced h = record {
    same_limit = ground (arith, b.same_limit);
    total = ground (arith, b.total, remove_guard_counts caller p.entered h);
    each = λ other. ground (
      arith,
      b.each other,
      b.each caller,
      b.same_limit,
      lookup-insert text_discrete caller other (free_of caller p - 1) p.per_controller,
      lookup-insert text_discrete caller other (free_of caller p) p.per_controller,
    );
    gauge = ground (arith, b.gauge);
  }

  give_up-IsBalanced :
      guard_count caller p.refused ≢ 0 → IsBalanced limit k (return_refused caller p)
  unfolding return_refused
  give_up-IsBalanced h = record {
    same_limit = b.same_limit;
    total = ground (arith, b.total, remove_guard_counts caller p.refused h);
    each = λ other. ground (arith, b.each other);
    gauge = ground (arith, b.gauge);
  }

  admit-IsBalanced : guard_count caller p.granted ≢ 0 → IsBalanced limit k (return_guard caller p)
  unfolding return_guard guard_count
  admit-IsBalanced h = record {
    same_limit = b.same_limit;
    total = ground (arith, b.total, remove_guard_counts caller p.granted h);
    each = λ other. ground (arith, b.each other, remove_guard_count caller other p.granted h);
    gauge = ground (arith, b.gauge, b.total, small, remove_guard_counts caller p.granted h);
  }

  leave-IsBalanced : guard_count caller p.guards ≢ 0 → IsBalanced limit k (drop_guard caller p)
  unfolding drop_guard guard_count
  leave-IsBalanced h = record {
    same_limit = b.same_limit;
    total = ground (arith, b.total, remove_guard_counts caller p.guards h);
    each = λ other. ground (arith, b.each other, remove_guard_count caller other p.guards h);
    gauge = ground (arith, b.gauge, b.total, small, remove_guard_counts caller p.guards h);
  }

  free_global-IsBalanced :
      guard_count caller p.dropping ≢ 0 → IsBalanced limit k (release_global caller p)
  unfolding release_global guard_count
  free_global-IsBalanced h = record {
    same_limit = b.same_limit;
    total = ground (arith, b.total, remove_guard_counts caller p.dropping h);
    each = λ other. ground (arith, b.each other, remove_guard_count caller other p.dropping h);
    gauge = ground (arith, b.gauge);
  }

  free_own-IsBalanced :
      guard_count caller p.returning ≢ 0 → IsBalanced limit k (release_per_controller caller p)
  unfolding release_per_controller
  free_own-IsBalanced h = record {
    same_limit = b.same_limit;
    total = ground (arith, b.total);
    each = λ other. ground (
      arith,
      b.each other,
      b.each caller,
      b.same_limit,
      remove_guard_count caller other p.returning h,
      lookup-insert text_discrete caller other (free_of caller p + 1) p.per_controller,
    );
    gauge = ground (arith, b.gauge);
  }

entered_there :
    (caller : String) (p : Pool)
    → (acquire_global caller p).0 ≡ true
    → guard_count caller (acquire_global caller p).1.entered ≢ 0
unfolding acquire_global guard_count
entered_there caller p h = ground (arith, h)

granted_there :
    (caller : String) (p : Pool)
    → (acquire_per_controller caller p).0 ≡ true
    → guard_count caller (acquire_per_controller caller p).1.granted ≢ 0
unfolding acquire_per_controller guard_count
granted_there caller p h = ground (arith, h)

refused_there :
    (caller : String) (p : Pool)
    → (acquire_per_controller caller p).0 ≡ false
    → guard_count caller (acquire_per_controller caller p).1.refused ≢ 0
unfolding acquire_per_controller guard_count
refused_there caller p h = ground (arith, h)

try_acquire-IsBalanced :
    (limit k : ℕ) (caller : String) (p : Pool)
    → limit < two_64
    → IsBalanced limit k p
    → IsBalanced limit k (try_acquire caller p).1
unfolding try_acquire
try_acquire-IsBalanced limit k caller p small b =
    let q = (acquire_global caller p).1 in
    let r = (acquire_per_controller caller q).1 in
    let b1 : IsBalanced limit k q = enter-IsBalanced limit k small caller p b in
    elim (Bool-cases (acquire_global caller p).0) [
      | inr e ↦ subst (IsBalanced limit k) (ground (arith, e)) b1
      | inl e ↦
          let b2 = choose-IsBalanced limit k small caller q b1 (entered_there caller p e) in
          elim (Bool-cases (acquire_per_controller caller q).0) [
            | inr f ↦
                subst (IsBalanced limit k) (ground (arith, e, f))
                  (give_up-IsBalanced limit k small caller r b2 (refused_there caller q f))
            | inl f ↦
                subst (IsBalanced limit k) (ground (arith, e, f))
                  (admit-IsBalanced limit k small caller r b2 (granted_there caller q f))
          ]
    ]

-- A step that takes a task of the caller from a place.
place-IsBalanced :
    (limit k : ℕ) (caller : String) (place : List String) (p next : Pool)
    → IsBalanced limit k p
    → (guard_count caller place ≢ 0 → IsBalanced limit k next)
    → IsBalanced limit k (when_there caller place p next)
place-IsBalanced limit k caller place p next b step =
    elim (Bool-cases (guard_count caller place == 0)) [
      | inl e ↦ subst (IsBalanced limit k) (ground (arith, e)) b
      | inr e ↦ subst (IsBalanced limit k) (ground (arith, e)) (step (ground (arith, e)))
    ]

event-IsBalanced :
    (limit k : ℕ) (event : Event) (p : Pool)
    → limit < two_64
    → IsBalanced limit k p
    → IsBalanced limit k (after event p)
unfolding after
event-IsBalanced limit k (Event.ask caller) p small b =
    try_acquire-IsBalanced limit k caller p small b
event-IsBalanced limit k (Event.enter caller) p small b = enter-IsBalanced limit k small caller p b
event-IsBalanced limit k (Event.choose caller) p small b =
    place-IsBalanced limit k caller p.entered p _ b (choose-IsBalanced limit k small caller p b)
event-IsBalanced limit k (Event.give_up caller) p small b =
    place-IsBalanced limit k caller p.refused p _ b (give_up-IsBalanced limit k small caller p b)
event-IsBalanced limit k (Event.admit caller) p small b =
    place-IsBalanced limit k caller p.granted p _ b (admit-IsBalanced limit k small caller p b)
event-IsBalanced limit k (Event.leave caller) p small b =
    place-IsBalanced limit k caller p.guards p _ b (leave-IsBalanced limit k small caller p b)
event-IsBalanced limit k (Event.free_global caller) p small b =
    place-IsBalanced limit k caller p.dropping p _ b
      (free_global-IsBalanced limit k small caller p b)
event-IsBalanced limit k (Event.free_own caller) p small b =
    place-IsBalanced limit k caller p.returning p _ b (free_own-IsBalanced limit k small caller p b)

events-IsBalanced :
    (limit k : ℕ) (events : List Event) (p : Pool)
    → limit < two_64
    → IsBalanced limit k p
    → IsBalanced limit k (after_all events p)
unfolding after_all
events-IsBalanced limit k [] p small b = b
events-IsBalanced limit k (event ∷ events) p small b =
    events-IsBalanced limit k events (after event p) small
      (event-IsBalanced limit k event p small b)

new_pool-IsBalanced : (limit k : ℕ) → IsBalanced limit k (new_pool limit k)
unfolding new_pool lookup guard_count
new_pool-IsBalanced limit k = record {
  same_limit = refl;
  total = ground arith;
  each = λ caller. ground arith;
  gauge = refl;
}

-- After any steps of any tasks on a new resource, interleaved in any order, the free permits and those
-- held (by guards, and by calls and drops between two steps) add up to the limit, for all callers and
-- for each, and the gauge counts the guards: no permit is lost or made, also when a call is refused.
pub after_all-IsBalanced :
    (limit per_controller_limit : ℕ) (events : List Event)
    → limit < two_64
    → IsBalanced limit per_controller_limit (after_all events (new_pool limit per_controller_limit))
after_all-IsBalanced limit per_controller_limit events small =
    events-IsBalanced limit per_controller_limit events (new_pool limit per_controller_limit) small
      (new_pool-IsBalanced limit per_controller_limit)

-- After any steps of any tasks on a new resource, interleaved in any order, a call gets the permit of
-- all exactly when fewer calls and guards than the limit hold one, refused calls that have not yet
-- returned included; and the next step gives it the caller's permit exactly when fewer calls and
-- guards of the caller than the caller's limit hold one.
pub acquire_iff :
    (limit per_controller_limit : ℕ) (events : List Event) (caller : String)
    → limit < two_64
    → let p = after_all events (new_pool limit per_controller_limit) in
      (((acquire_global caller p).0 ≡ true) ↔ (global_holders p < limit))
      × (((acquire_per_controller caller p).0 ≡ true)
          ↔ (own_holders caller p < per_controller_limit))
unfolding acquire_global acquire_per_controller
acquire_iff limit per_controller_limit events caller small =
    let b = after_all-IsBalanced limit per_controller_limit events small in
    (ground (arith, b.total), ground (arith, b.each caller))

-- No call or drop is between two steps.
pub record IsQuiet (p : Pool) : Type 0 where
  pub no_entered : p.entered ≡ []
  pub no_refused : p.refused ≡ []
  pub no_granted : p.granted ≡ []
  pub no_dropping : p.dropping ≡ []
  pub no_returning : p.returning ≡ []

-- After any steps of any tasks on a new resource, if no call or drop is left between two of its steps,
-- a whole call that no other task interrupts is admitted exactly when fewer guards than the limit are
-- alive and fewer of the caller than the caller's limit; then the caller has one guard more, and
-- otherwise the guards and the free permits of all are as before.
pub try_acquire_iff :
    (limit per_controller_limit : ℕ) (events : List Event) (caller : String)
    → limit < two_64
    → IsQuiet (after_all events (new_pool limit per_controller_limit))
    → let p = after_all events (new_pool limit per_controller_limit) in
      let (is_admitted, q) = try_acquire caller p in
      ((is_admitted ≡ true)
        ↔ ((length p.guards < limit) × (guard_count caller p.guards < per_controller_limit)))
      × (((is_admitted ≡ true) × (q.guards ≡ caller ∷ p.guards))
          ⊎ ((is_admitted ≡ false) × (q.guards ≡ p.guards) × (q.free ≡ p.free)))
unfolding try_acquire acquire_global acquire_per_controller return_refused return_guard guard_count
try_acquire_iff limit per_controller_limit events caller small quiet =
    let b = after_all-IsBalanced limit per_controller_limit events small in
    ground (
      arith,
      b.total,
      b.each caller,
      quiet.no_entered,
      quiet.no_refused,
      quiet.no_granted,
      quiet.no_dropping,
      quiet.no_returning,
    )

-- The same of the handshakes, which have no limit for each caller.
abbrev Balanced : ℕ → Handshakes → Type 0
Balanced limit h = (h.free + h.guards ≡ limit) × (h.metrics.active ≡ h.guards)

handshake-Balanced :
    (limit : ℕ) (h : Handshakes)
    → limit < two_64
    → Balanced limit h
    → Balanced limit (try_acquire_handshake h).1 × Balanced limit (drop_handshake h)
unfolding try_acquire_handshake drop_handshake
handshake-Balanced limit h small b = ground (arith, b)
