-- ===== src/Cli/Health/Counted.antt =====
-- When a rollup is built, and what its counts of statuses are in terms of the history.
use ocserv_fleet_agent.Cli.Health.Readable.{
  status_index_iff, IsReadable, statuses_by_slot_iff, status_index-status_text,
}
use ocserv_fleet_agent.Cli.Slo.Data.{HealthRollupRecord}
use ocserv_fleet_agent.Common.Assoc.{lookup, insert, Distinct, insert-Distinct}
use ocserv_fleet_agent.Common.Int.{ℤ, ℤ_discrete}
use ocserv_fleet_agent.Common.Options.{some_inj}
use ocserv_fleet_agent.Common.{
  String, Result, List, ℕ, text_discrete, ◌≡◌, Bool, ◌∷◌, some, err, ◌∙◌, ◌+◌, if◌then◌else◌, [],
  none, refl, arith, false, ap, decided, any, ok, All, Result-cases, suc, ◌&&◌, >>=-eq-ok, inl, inr,
  not, ok_or, subst, sym,
}
use ocserv_fleet_agent.Cli.Health.Rollup.{
  status_index, RollupLibraries, statuses_by_slot, count_statuses, RollupError, build_health_rollup,
  slot_of, rollup_row,
}
use ocserv_fleet_agent.Cli.Health.Records.{
  HealthStatus, HealthHistoryRecord, HealthRollupSource, HealthCounts, record_status, status_text,
  tick,
}

abbrev pub field_of : HealthStatus → HealthCounts → ℕ
field_of HealthStatus.healthy c = c.healthy
field_of HealthStatus.degraded c = c.degraded
field_of HealthStatus.unreachable c = c.unreachable
field_of HealthStatus.stale c = c.stale
field_of HealthStatus.disabled c = c.disabled
field_of HealthStatus.unknown c = c.unknown

unfoldable pub count_in : HealthStatus → List (ℤ × HealthStatus) → ℕ
count_in s [] = 0
count_in s ((k, st) ∷ m) = tick s st (count_in s m)

field_of-record_status :
    (s st : HealthStatus) (c : HealthCounts)
    → field_of s (record_status st c) ≡ tick s st (field_of s c)
unfolding record_status
field_of-record_status HealthStatus.healthy st c = refl
field_of-record_status HealthStatus.degraded st c = refl
field_of-record_status HealthStatus.unreachable st c = refl
field_of-record_status HealthStatus.stale st c = refl
field_of-record_status HealthStatus.disabled st c = refl
field_of-record_status HealthStatus.unknown st c = refl

field_of-count_statuses :
    (s : HealthStatus) (m : List (ℤ × HealthStatus)) → field_of s (count_statuses m) ≡ count_in s m
unfolding count_statuses count_in
field_of-count_statuses HealthStatus.healthy [] = refl
field_of-count_statuses HealthStatus.degraded [] = refl
field_of-count_statuses HealthStatus.unreachable [] = refl
field_of-count_statuses HealthStatus.stale [] = refl
field_of-count_statuses HealthStatus.disabled [] = refl
field_of-count_statuses HealthStatus.unknown [] = refl
field_of-count_statuses s ((k, st) ∷ m) =
    field_of-record_status s st (count_statuses m) ∙ ap (tick s st) (field_of-count_statuses s m)

tick_add : (s st : HealthStatus) (n : ℕ) → tick s st n ≡ n + tick s st 0
tick_add s st n = ground arith

status_text_inj : (s st : HealthStatus) → status_text st ≡ status_text s → st ≡ s
status_text_inj s st e =
    some_inj (sym (status_index-status_text st) ∙ (ap status_index e ∙ status_index-status_text s))

-- A status is counted exactly when its text is that of the count.
tick_text :
    (s st : HealthStatus) (n : ℕ)
    → tick s st n ≡ (if decided (text_discrete (status_text st) (status_text s)) then suc n else n)
tick_text s st n = elim (text_discrete (status_text st) (status_text s)) [
  | yes e ↦ ground (arith, e, status_text_inj s st e)
  | no k ↦ ground (arith, k, λ (e : st ≡ s). k (ap status_text e))
]

module _ (lib : RollupLibraries) where
  -- Was the record evaluated in the slot?
  abbrev pub has_slot : ℤ → HealthHistoryRecord → Bool
  has_slot k r = elim (lib.parse_rfc3339 r.snapshot.computed_at) [
    | none ↦ false
    | some t ↦ decided (ℤ_discrete (slot_of t) k)
  ]

  -- Is there a later evaluation in the record's slot?
  abbrev pub is_superseded : HealthHistoryRecord → List HealthHistoryRecord → Bool
  is_superseded r later = elim (lib.parse_rfc3339 r.snapshot.computed_at) [
    | none ↦ false
    | some t ↦ any (has_slot (slot_of t)) later
  ]

  -- The evaluations with the status that are the last in their slot.
  unfoldable pub last_count : HealthStatus → List HealthHistoryRecord → ℕ
  last_count s [] = 0
  last_count s (r ∷ later) =
      let n = last_count s later in
      if decided (text_discrete r.snapshot.status (status_text s)) && not (is_superseded r later)
      then suc n
      else n

  -- The entries with the status in slots of no record.
  unfoldable count_outside : HealthStatus → List HealthHistoryRecord → List (ℤ × HealthStatus) → ℕ
  count_outside s records [] = 0
  count_outside s records ((k, st) ∷ m) =
      let n = count_outside s records m in if any (has_slot k) records then n else tick s st n

  outside_none :
      (s : HealthStatus) (m : List (ℤ × HealthStatus)) → count_outside s [] m ≡ count_in s m
  unfolding count_outside count_in
  outside_none s [] = refl
  outside_none s ((k, st) ∷ m) = ap (tick s st) (outside_none s m)

  outside_absent :
      (s : HealthStatus) (r : HealthHistoryRecord) (later : List HealthHistoryRecord) (t : ℤ)
      (m : List (ℤ × HealthStatus))
      → lib.parse_rfc3339 r.snapshot.computed_at ≡ some t
      → lookup ℤ_discrete (slot_of t) m ≡ none
      → count_outside s (r ∷ later) m ≡ count_outside s later m
  unfolding count_outside lookup
  outside_absent s r later t [] p h = refl
  outside_absent s r later t ((k, st) ∷ m) p h =
      ground (arith, p, h, outside_absent s r later t m p)

  outside_insert :
      (s st : HealthStatus) (r : HealthHistoryRecord) (later : List HealthHistoryRecord) (t : ℤ)
      (m : List (ℤ × HealthStatus))
      → lib.parse_rfc3339 r.snapshot.computed_at ≡ some t
      → Distinct ℤ_discrete m
      → count_outside s later (insert ℤ_discrete (slot_of t) st m)
        ≡ count_outside s (r ∷ later) m
          + (if any (has_slot (slot_of t)) later then 0 else tick s st 0)
  unfolding count_outside insert
  outside_insert s st r later t [] p d = ground arith
  outside_insert s st r later t ((k, w) ∷ m) p d = ground (
    arith,
    p,
    outside_insert s st r later t m p d.1,
    outside_absent s r later t m p,
    tick_add s st (count_outside s later m),
    tick_add s w (count_outside s (r ∷ later) m),
    tick_add s w (count_outside s later (insert ℤ_discrete (slot_of t) st m)),
    d.0,
  )

  slots_counted :
      (s : HealthStatus) (history : List HealthHistoryRecord) (m out : List (ℤ × HealthStatus))
      → Distinct ℤ_discrete m
      → statuses_by_slot lib history m ≡ ok out
      → count_in s out ≡ count_outside s history m + last_count s history
  unfolding statuses_by_slot last_count
  slots_counted s [] m out d h = ground (arith, h, outside_none s m)
  slots_counted s (r ∷ later) m out d h =
      let (st, hs, h1) =
        >>=-eq-ok (ok_or (status_index r.snapshot.status) RollupError.invalid_status) _ h in
      let (t, ht, h2) =
        >>=-eq-ok (ok_or (lib.parse_rfc3339 r.snapshot.computed_at) RollupError.invalid_timestamp) _
          h1 in
      let parsed : lib.parse_rfc3339 r.snapshot.computed_at ≡ some t = ground (arith, ht) in
      let text : r.snapshot.status ≡ status_text st =
        (status_index_iff r.snapshot.status st).0 (ground (arith, hs)) in
      let counted =
        slots_counted s later (insert ℤ_discrete (slot_of t) st m) out
          (insert-Distinct ℤ_discrete (slot_of t) st m d) h2 in
      let same : decided (text_discrete r.snapshot.status (status_text s))
          ≡ decided (text_discrete (status_text st) (status_text s)) =
        ap (λ x. decided (text_discrete x (status_text s))) text in
      ground
        (arith, parsed, counted, outside_insert s st r later t m parsed d, tick_text s st 0, same)

  slots_count_history :
      (s : HealthStatus) (history : List HealthHistoryRecord) (out : List (ℤ × HealthStatus))
      → statuses_by_slot lib history [] ≡ ok out
      → field_of s (count_statuses out) ≡ last_count s history
  unfolding count_outside
  slots_count_history s history out h =
      ground (arith, field_of-count_statuses s out, slots_counted s history [] out tt h)

  -- What a call gives for a history: an error when it cannot all be read, and a row with these counts
  -- when it can.
  unfoldable pub IsRollupOf :
      List HealthHistoryRecord → Result RollupError HealthRollupRecord → Type 0
  IsRollupOf history (err e) = ¬ All (IsReadable lib) history
  IsRollupOf history (ok row) =
      All (IsReadable lib) history
      × (row.healthy_count ≡ last_count HealthStatus.healthy history)
      × (row.degraded_count ≡ last_count HealthStatus.degraded history)
      × (row.unreachable_count ≡ last_count HealthStatus.unreachable history)
      × (row.stale_count ≡ last_count HealthStatus.stale history)
      × (row.disabled_count ≡ last_count HealthStatus.disabled history)
      × (row.unknown_count ≡ last_count HealthStatus.unknown history)

  -- A rollup is built exactly when the status of every history record of the bucket is a text that the
  -- evaluation of a node's health writes, and its instant can be read. Then each of its six counts is
  -- the number of records of that status with no later record in the same five-minute slot.
  pub build_health_rollup-IsRollupOf :
      (node_id bucket_start bucket_end : String) (bucket_seconds : ℕ) (source : HealthRollupSource)
      → IsRollupOf source.history
          (build_health_rollup lib node_id bucket_seconds bucket_start bucket_end source)
  unfolding build_health_rollup IsRollupOf
  build_health_rollup-IsRollupOf node_id bucket_start bucket_end bucket_seconds source =
      let built = statuses_by_slot_iff lib source.history [] in
      let result = build_health_rollup lib node_id bucket_seconds bucket_start bucket_end source in
      elim (Result-cases (statuses_by_slot lib source.history [])) [
        | inl (e, h) ↦
            let failed : err e ≡ result = ground (arith, h) in
            subst (IsRollupOf source.history) failed (λ a. ground (arith, h, built.1 a))
        | inr (slots, h) ↦
            let row = rollup_row lib node_id bucket_seconds bucket_start bucket_end source slots in
            let succeeded : ok row ≡ result = ground (arith, h) in
            subst (IsRollupOf source.history) succeeded (
              built.0 (ground (arith, h)),
              slots_count_history HealthStatus.healthy source.history slots h,
              slots_count_history HealthStatus.degraded source.history slots h,
              slots_count_history HealthStatus.unreachable source.history slots h,
              slots_count_history HealthStatus.stale source.history slots h,
              slots_count_history HealthStatus.disabled source.history slots h,
              slots_count_history HealthStatus.unknown source.history slots h,
            )
      ]
