-- ===== src/Cli/Health/Consistent.antt =====
-- A rollup that health.rs builds, the store's check of its counters, and the report of slo.rs.
use ocserv_fleet_agent.Common.Words.{checked}
use ocserv_fleet_agent.Cli.Slo.Checks.{status_total}
use ocserv_fleet_agent.Cli.Health.Percentile.{
  sort_numbers_counts, get_elem?-some, get_elem?_mono, sort_numbers-Ascending, percentile_rank,
  Ascending,
}
use ocserv_fleet_agent.Cli.Health.Records.{HealthStatus}
use ocserv_fleet_agent.Common.Int.{ℤ}
use ocserv_fleet_agent.Cli.Health.Slots.{Slots, IsInBucket, statuses_by_slot_ok, length_le_range}
use ocserv_fleet_agent.Cli.Slo.Data.{SloWindow, HealthRollupRecord, bucket_seconds_of}
use ocserv_fleet_agent.Cli.Slo.Rows.{InOrder, IsConsistent}
use ocserv_fleet_agent.Cli.Health.Records.{
  record_status, ProbeObservationRecord, HealthRollupSource,
}
use ocserv_fleet_agent.Cli.Health.Rollup.{
  count_statuses, error_count, changes_from, change_count, durations_of, RollupLibraries,
  build_health_rollup, sort_numbers, percentile, counters_rejected, statuses_by_slot, rollup_row,
  classified, fingerprints_of,
}
use ocserv_fleet_agent.Common.{
  ℕ, Option, List, Bool, String, length, ◌≤◌, if◌then◌else◌, ◌+◌, arith, ◌==◌, ◌≡◌, ◌∷◌, none, [],
  is_some, before, true, codes, false, All, ◌/◌, ok, >>=-eq-ok, refl, ◌*◌, ◌-◌, some,
}

pub count_statuses_sum :
    (m : Slots)
    → (count_statuses m).healthy
        + (count_statuses m).degraded
        + (count_statuses m).unreachable
        + (count_statuses m).stale
        + (count_statuses m).disabled
        + (count_statuses m).unknown
      ≡ length m
unfolding count_statuses record_status
count_statuses_sum [] = refl
count_statuses_sum ((k, HealthStatus.healthy) ∷ m) = omega (arith, count_statuses_sum m)
count_statuses_sum ((k, HealthStatus.degraded) ∷ m) = omega (arith, count_statuses_sum m)
count_statuses_sum ((k, HealthStatus.unreachable) ∷ m) = omega (arith, count_statuses_sum m)
count_statuses_sum ((k, HealthStatus.stale) ∷ m) = omega (arith, count_statuses_sum m)
count_statuses_sum ((k, HealthStatus.disabled) ∷ m) = omega (arith, count_statuses_sum m)
count_statuses_sum ((k, HealthStatus.unknown) ∷ m) = omega (arith, count_statuses_sum m)

error_count_le : (bs : List Bool) → error_count bs ≤ length bs
unfolding error_count
error_count_le [] = omega arith
error_count_le (b ∷ bs) = ground (arith, error_count_le bs)

changes_from_le : (f : List String) (fs : List (List String)) → changes_from f fs ≤ length fs
unfolding changes_from
changes_from_le f [] = omega arith
changes_from_le f (g ∷ fs) = ground (arith, changes_from_le g fs)

change_count_le : (fs : List (List String)) → change_count fs ≤ length fs
unfolding change_count
change_count_le [] = omega arith
change_count_le (f ∷ fs) = ground (arith, changes_from_le f fs)

durations_le : (os : List ProbeObservationRecord) → length (durations_of os) ≤ length os
unfolding durations_of
durations_le [] = omega arith
durations_le (o ∷ os) = ground (arith, durations_le os)

-- The two percentiles that a rollup has: none of no durations, and otherwise both, in order.
abbrev pub ArePercentiles : ℕ → Option ℕ → Option ℕ → Type 0
ArePercentiles n p50 p95 =
    InOrder p50 p95
    × (if n == 0
        then (p50 ≡ none) × (p95 ≡ none)
        else ((is_some p50 ≡ true) × (is_some p95 ≡ true)))

percentiles_of :
    (ys : List ℕ)
    → Ascending ys
    → length ys ≤ 100000
    → ArePercentiles (length ys) (percentile ys 50) (percentile ys 95)
unfolding percentile
percentiles_of [] asc h = (tt, (refl, refl))
percentiles_of (y ∷ rest) asc h =
    let ys = y ∷ rest in
    let i = (50 * length ys + 99) / 100 - 1 in
    let j = (95 * length ys + 99) / 100 - 1 in
    let (a, ea) = get_elem?-some ys i (omega arith) in
    let (b, eb) = get_elem?-some ys j (omega arith) in
    let in_order = get_elem?_mono ys i j a b asc (omega arith) ea eb in
    let p50 : percentile ys 50 ≡ some a = ground (arith, percentile_rank ys 50, ea) in
    let p95 : percentile ys 95 ≡ some b = ground (arith, percentile_rank ys 95, eb) in
    ground (arith, p50, p95, in_order)

module _ (lib : RollupLibraries) (window : SloWindow) (node_id from to : String) where
  rollup_row-IsConsistent :
      (bucket_start bucket_end : String) (source : HealthRollupSource) (slots : Slots)
      → before (codes bucket_start) (codes from) ≡ false
      → before (codes bucket_start) (codes to) ≡ true
      → length source.observations ≤ 100000
      → length slots ≤ bucket_seconds_of window / 300
      → let row =
          rollup_row lib node_id (bucket_seconds_of window) bucket_start bucket_end source slots in
        IsConsistent node_id window from to row × (counters_rejected row ≡ false)
  unfolding counters_rejected status_total checked bucket_seconds_of
  rollup_row-IsConsistent bucket_start bucket_end source slots h1 h2 h3 h4 =
      let durations = sort_numbers (durations_of source.observations) in
      let size = (sort_numbers_counts 0 (durations_of source.observations)).2 in
      let small : length durations ≤ 100000 =
        omega (arith, size, durations_le source.observations) in
      let timed =
        percentiles_of durations (sort_numbers-Ascending (durations_of source.observations))
          small in
      let sum = count_statuses_sum slots in
      let errors = error_count_le (classified source.observations) in
      let changes = change_count_le (fingerprints_of lib source.observations) in
      (
        record {
          node = refl;
          width = refl;
          not_before = h1;
          inside = h2;
          slots = refl;
          sampled = refl;
          covered = h4;
          statuses = sum;
          fits = ground (arith, h4);
          errors = errors;
          changes = changes;
          timed = ground (arith, timed);
          percentiles = timed.0;
        },
        ground (arith, h4, sum, errors, changes, timed),
      )

  -- A rollup that is built for a bucket of a window of the report, from at most 100000 observations
  -- and from a history whose instants lie in the bucket, which starts at a multiple of five minutes,
  -- passes every check that slo.rs makes of a row on its own, and every check that the store makes of
  -- its counters.
  pub build_health_rollup-IsConsistent :
      (bucket_start bucket_end : String) (lo : ℤ) (source : HealthRollupSource)
      (row : HealthRollupRecord)
      → before (codes bucket_start) (codes from) ≡ false
      → before (codes bucket_start) (codes to) ≡ true
      → length source.observations ≤ 100000
      → All (IsInBucket lib lo (bucket_seconds_of window / 300)) source.history
      → build_health_rollup lib node_id (bucket_seconds_of window) bucket_start bucket_end source
        ≡ ok row
      → IsConsistent node_id window from to row × (counters_rejected row ≡ false)
  unfolding build_health_rollup
  build_health_rollup-IsConsistent bucket_start bucket_end lo source row h1 h2 h3 h4 h =
      let (slots, hs, h5) = >>=-eq-ok (statuses_by_slot lib source.history []) _ h in
      let n = bucket_seconds_of window / 300 in
      let kept = statuses_by_slot_ok lib lo n source.history [] slots h4 tt tt hs in
      let covered = length_le_range lo n slots kept.0 kept.1 in
      let good = rollup_row-IsConsistent bucket_start bucket_end source slots h1 h2 h3 covered in
      ground (arith, good, h5)
