-- ===== src/Agent/Limiters.antt =====
-- The limits of crates/ocfleet-agent/src/server.rs on handshakes, connections and streams: semaphores
-- for all callers and for each, and the guards that give the permits back, step by step.
pub mod Balance
use ocserv_fleet_agent.Common.Assoc.{lookup, insert}
use ocserv_fleet_agent.Common.{
  ℕ, ◌+◌, List, [], String, ◌%◌, ◌-◌, Bool, ◌∷◌, if◌then◌else◌, text_discrete, ◌==◌, decided, false,
  suc, none, some, true,
}

abbrev pub two_64 : ℕ
two_64 = 18446744073709551616

-- The two gauges of a resource in metrics.rs, atomic counters of 64 bits.
pub record Admission : Type 0 where
  pub active : ℕ
  pub rejected : ℕ

abbrev pub admission_started : Admission → Admission
admission_started m = record { active = (m.active + 1) % two_64; rejected = m.rejected }

abbrev pub admission_finished : Admission → Admission
admission_finished m = record { active = (m.active + two_64 - 1) % two_64; rejected = m.rejected }

abbrev pub admission_rejected : Admission → Admission
admission_rejected m = record { active = m.active; rejected = (m.rejected + 1) % two_64 }

-- The semaphores of one resource, and the callers of the calls and of the guards that are between two
-- of their steps: each list is one place of the code.
pub record Pool : Type 0 where
  pub free : ℕ
  pub per_controller_limit : ℕ
  pub per_controller : List (String × ℕ)
  -- Calls that hold the permit of all only; that have been refused and still hold it; that hold both.
  pub entered : List String
  pub refused : List String
  pub granted : List String
  -- Guards that are alive; whose drop has counted; whose permit of all is back.
  pub guards : List String
  pub dropping : List String
  pub returning : List String
  pub metrics : Admission

unfoldable pub new_pool : ℕ → ℕ → Pool
new_pool limit per_controller_limit = record {
  free = limit;
  per_controller_limit = per_controller_limit;
  per_controller = [];
  entered = [];
  refused = [];
  granted = [];
  guards = [];
  dropping = [];
  returning = [];
  metrics = record { active = 0; rejected = 0 };
}

-- The free permits of a caller: the entry of the map, which is made on first use.
abbrev pub free_of : String → Pool → ℕ
free_of caller p = elim (lookup text_discrete caller p.per_controller) [
  | none ↦ p.per_controller_limit
  | some n ↦ n
]

unfoldable pub remove_guard : String → List String → List String
remove_guard caller [] = []
remove_guard caller (g ∷ gs) =
    let rest = remove_guard caller gs in if decided (text_discrete g caller) then gs else g ∷ rest

unfoldable pub guard_count : String → List String → ℕ
guard_count caller [] = 0
guard_count caller (g ∷ gs) =
    let n = guard_count caller gs in if decided (text_discrete g caller) then suc n else n

-- `try_acquire_connection` and `try_acquire_stream`, which differ in their fields, up to the permit of
-- all: does the call go on?
unfoldable pub acquire_global : String → Pool → Bool × Pool
acquire_global caller p =
    if p.free == 0
    then (false, record p { metrics = admission_rejected p.metrics })
    else (true, record p { free = p.free - 1; entered = caller ∷ p.entered })

-- From there to the permit of the caller: is it granted? A call that is refused keeps the permit of
-- all until it returns.
unfoldable pub acquire_per_controller : String → Pool → Bool × Pool
acquire_per_controller caller p =
    if free_of caller p == 0
    then (
      false,
      record p {
        per_controller = insert text_discrete caller (free_of caller p) p.per_controller;
        entered = remove_guard caller p.entered;
        refused = caller ∷ p.refused;
        metrics = admission_rejected p.metrics;
      },
    )
    else (
      true,
      record p {
        per_controller = insert text_discrete caller (free_of caller p - 1) p.per_controller;
        entered = remove_guard caller p.entered;
        granted = caller ∷ p.granted;
      },
    )

-- A refused call returns, and the permit of all is dropped.
unfoldable pub return_refused : String → Pool → Pool
return_refused caller p = record p { free = p.free + 1; refused = remove_guard caller p.refused }

-- A call that holds both permits counts its guard and returns it.
unfoldable pub return_guard : String → Pool → Pool
return_guard caller p = record p {
  granted = remove_guard caller p.granted;
  guards = caller ∷ p.guards;
  metrics = admission_started p.metrics;
}

-- A guard is dropped: `Drop::drop`, then its two permits, one field after the other.
unfoldable pub drop_guard : String → Pool → Pool
drop_guard caller p = record p {
  guards = remove_guard caller p.guards;
  dropping = caller ∷ p.dropping;
  metrics = admission_finished p.metrics;
}

unfoldable pub release_global : String → Pool → Pool
release_global caller p = record p {
  free = p.free + 1;
  dropping = remove_guard caller p.dropping;
  returning = caller ∷ p.returning;
}

unfoldable pub release_per_controller : String → Pool → Pool
release_per_controller caller p = record p {
  per_controller = insert text_discrete caller (free_of caller p + 1) p.per_controller;
  returning = remove_guard caller p.returning;
}

-- A whole call that no other task interrupts.
unfoldable pub try_acquire : String → Pool → Bool × Pool
try_acquire caller p =
    let (is_entered, q) = acquire_global caller p in
    elim is_entered [
      | false ↦ (false, q)
      | true ↦
          let (is_granted, r) = acquire_per_controller caller q in
          elim is_granted [
            | false ↦ (false, return_refused caller r)
            | true ↦ (true, return_guard caller r)
          ]
    ]

-- A whole call, or one step of some task on the resource. A step that has no task of the caller in its
-- place does nothing.
pub data Event : Type 0 where
  ask : String → Event
  enter : String → Event
  choose : String → Event
  give_up : String → Event
  admit : String → Event
  leave : String → Event
  free_global : String → Event
  free_own : String → Event

abbrev pub when_there : String → List String → Pool → Pool → Pool
when_there caller place p next = if guard_count caller place == 0 then p else next

unfoldable pub after : Event → Pool → Pool
after (Event.ask caller) p = (try_acquire caller p).1
after (Event.enter caller) p = (acquire_global caller p).1
after (Event.choose caller) p = when_there caller p.entered p (acquire_per_controller caller p).1
after (Event.give_up caller) p = when_there caller p.refused p (return_refused caller p)
after (Event.admit caller) p = when_there caller p.granted p (return_guard caller p)
after (Event.leave caller) p = when_there caller p.guards p (drop_guard caller p)
after (Event.free_global caller) p = when_there caller p.dropping p (release_global caller p)
after (Event.free_own caller) p = when_there caller p.returning p (release_per_controller caller p)

unfoldable pub after_all : List Event → Pool → Pool
after_all [] p = p
after_all (e ∷ es) p = after_all es (after e p)

-- The handshakes have one semaphore for all.
pub record Handshakes : Type 0 where
  pub free : ℕ
  pub guards : ℕ
  pub metrics : Admission

unfoldable pub try_acquire_handshake : Handshakes → Bool × Handshakes
try_acquire_handshake h =
    if h.free == 0
    then (
      false,
      record { free = h.free; guards = h.guards; metrics = admission_rejected h.metrics },
    )
    else (
      true,
      record { free = h.free - 1; guards = h.guards + 1; metrics = admission_started h.metrics },
    )

unfoldable pub drop_handshake : Handshakes → Handshakes
drop_handshake h =
    if h.guards == 0
    then h
    else record { free = h.free + 1; guards = h.guards - 1; metrics = admission_finished h.metrics }
