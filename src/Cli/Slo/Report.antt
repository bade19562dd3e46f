-- ===== src/Cli/Slo/Report.antt =====
-- The sums, the shares and the report of slo.rs.
use ocserv_fleet_agent.Common.Options.{◌>>=◌, ◌>>◌, reject}
use ocserv_fleet_agent.Common.Words.{checked, checked_sub}
use ocserv_fleet_agent.Common.{
  ℕ, String, none, some, Option, List, ◌+◌, ltb, ◌==◌, ◌∷◌, if◌then◌else◌, ◌*◌, ◌/◌, min, max, [],
  length,
}
use ocserv_fleet_agent.Cli.Slo.Data.{
  HealthRollupRecord, HealthSloProjection, SloWindow, bucket_seconds_of, window_seconds,
  window_name,
}
use ocserv_fleet_agent.Cli.Slo.Checks.{check_rows}

-- `rows.iter().map(field).try_fold(0, u64::checked_add)`
unfoldable pub sum_from : ℕ → (HealthRollupRecord → ℕ) → List HealthRollupRecord → Option ℕ
sum_from acc field [] = some acc
sum_from acc field (row ∷ rows) = do next ← checked (acc + field row); sum_from next field rows

abbrev pub sum : (HealthRollupRecord → ℕ) → List HealthRollupRecord → Option ℕ
sum = sum_from 0

-- `rows.iter().filter_map(field).min()`, and `max`
unfoldable pub least : (HealthRollupRecord → Option ℕ) → List HealthRollupRecord → Option ℕ
least field [] = none
least field (row ∷ rows) = elim (field row) [
  | none ↦ least field rows
  | some a ↦ elim (least field rows) [ none ↦ some a | some b ↦ some (min a b) ]
]

unfoldable pub greatest : (HealthRollupRecord → Option ℕ) → List HealthRollupRecord → Option ℕ
greatest field [] = none
greatest field (row ∷ rows) = elim (field row) [
  | none ↦ greatest field rows
  | some a ↦ elim (greatest field rows) [ none ↦ some a | some b ↦ some (max a b) ]
]

unfoldable pub ratio_basis_points : ℕ → ℕ → Option ℕ
ratio_basis_points numerator denominator =
    if denominator == 0
    then none
    else (checked (numerator * 10000) >>= λ scaled. some (scaled / denominator))

-- The sums by status, and the samples that count for availability.
pub record StatusSums : Type 0 where
  pub healthy : ℕ
  pub degraded : ℕ
  pub unreachable : ℕ
  pub stale : ℕ
  pub disabled : ℕ
  pub unknown : ℕ
  pub eligible : ℕ
  pub serving : ℕ

unfoldable pub status_sums : List HealthRollupRecord → Option StatusSums
status_sums rows = do
  healthy ← sum (λ row. row.healthy_count) rows
  degraded ← sum (λ row. row.degraded_count) rows
  unreachable ← sum (λ row. row.unreachable_count) rows
  stale ← sum (λ row. row.stale_count) rows
  disabled ← sum (λ row. row.disabled_count) rows
  unknown ← sum (λ row. row.unknown_count) rows
  serving ← checked (healthy + degraded)
  reachable_or_not ← checked (serving + unreachable)
  eligible ← checked (reachable_or_not + stale)
  some (record {
    healthy = healthy;
    degraded = degraded;
    unreachable = unreachable;
    stale = stale;
    disabled = disabled;
    unknown = unknown;
    eligible = eligible;
    serving = serving;
  })

-- The sums of the other counters.
pub record OtherSums : Type 0 where
  pub health : ℕ
  pub covered : ℕ
  pub observations : ℕ
  pub observation_errors : ℕ
  pub durations : ℕ
  pub cert_warnings : ℕ
  pub cert_criticals : ℕ
  pub fingerprints : ℕ
  pub fingerprint_changes : ℕ

unfoldable pub other_sums : List HealthRollupRecord → Option OtherSums
other_sums rows = do
  health ← sum (λ row. row.health_samples) rows
  covered ← sum (λ row. row.covered_slots) rows
  observations ← sum (λ row. row.observation_count) rows
  observation_errors ← sum (λ row. row.observation_error_count) rows
  durations ← sum (λ row. row.duration_sample_count) rows
  cert_warnings ← sum (λ row. row.cert_warning_count) rows
  cert_criticals ← sum (λ row. row.cert_critical_count) rows
  fingerprints ← sum (λ row. row.fingerprint_sample_count) rows
  fingerprint_changes ← sum (λ row. row.fingerprint_change_count) rows
  some (record {
    health = health;
    covered = covered;
    observations = observations;
    observation_errors = observation_errors;
    durations = durations;
    cert_warnings = cert_warnings;
    cert_criticals = cert_criticals;
    fingerprints = fingerprints;
    fingerprint_changes = fingerprint_changes;
  })

pub record SlotSeconds : Type 0 where
  pub covered : ℕ
  pub missing : ℕ
  pub healthy : ℕ
  pub degraded : ℕ
  pub unreachable : ℕ
  pub stale : ℕ
  pub disabled : ℕ
  pub unknown : ℕ

-- The products by the slot's 300 seconds.
unfoldable pub slot_seconds : ℕ → ℕ → StatusSums → Option SlotSeconds
slot_seconds covered_slots missing_slots s = do
  covered ← checked (covered_slots * 300)
  missing ← checked (missing_slots * 300)
  healthy ← checked (s.healthy * 300)
  degraded ← checked (s.degraded * 300)
  unreachable ← checked (s.unreachable * 300)
  stale ← checked (s.stale * 300)
  disabled ← checked (s.disabled * 300)
  unknown ← checked (s.unknown * 300)
  some (record {
    covered = covered;
    missing = missing;
    healthy = healthy;
    degraded = degraded;
    unreachable = unreachable;
    stale = stale;
    disabled = disabled;
    unknown = unknown;
  })

-- The shares of the status sums: coverage of the slots, service, health, and observation errors.
pub record Ratios : Type 0 where
  pub coverage : Option ℕ
  pub service : Option ℕ
  pub strictly_healthy : Option ℕ
  pub observation_error : Option ℕ

abbrev pub ratios : ℕ → ℕ → StatusSums → OtherSums → Ratios
ratios covered_slots expected_slots s o = record {
  coverage = ratio_basis_points covered_slots expected_slots;
  service = ratio_basis_points s.serving s.eligible;
  strictly_healthy = ratio_basis_points s.healthy s.eligible;
  observation_error = ratio_basis_points o.observation_errors o.observations;
}

module _ (node_id : String) (window : SloWindow) (from to : String) where
  -- The record that is returned, from the sums.
  unfoldable pub projection :
      List HealthRollupRecord → ℕ → ℕ → StatusSums → OtherSums → SlotSeconds → HealthSloProjection
  projection rows covered_slots missing_slots s o d =
      let expected_buckets = window_seconds window / bucket_seconds_of window in
      let expected_slots = window_seconds window / 300 in
      let shares = ratios covered_slots expected_slots s o in
      record {
        node_id = node_id;
        window = window_name window;
        from = from;
        to = to;
        bucket_seconds = bucket_seconds_of window;
        expected_buckets = expected_buckets;
        present_buckets = min (length rows) expected_buckets;
        expected_slots = expected_slots;
        covered_slots = covered_slots;
        missing_slots = missing_slots;
        covered_duration_seconds = d.covered;
        missing_duration_seconds = d.missing;
        coverage_basis_points = shares.coverage;
        health_samples = o.health;
        healthy_samples = s.healthy;
        degraded_samples = s.degraded;
        unreachable_samples = s.unreachable;
        stale_samples = s.stale;
        disabled_samples = s.disabled;
        unknown_samples = s.unknown;
        healthy_duration_seconds = d.healthy;
        degraded_duration_seconds = d.degraded;
        unreachable_duration_seconds = d.unreachable;
        stale_duration_seconds = d.stale;
        disabled_duration_seconds = d.disabled;
        unknown_duration_seconds = d.unknown;
        availability_eligible_samples = s.eligible;
        service_available_basis_points = shares.service;
        strictly_healthy_basis_points = shares.strictly_healthy;
        observation_count = o.observations;
        observation_error_count = o.observation_errors;
        observation_error_basis_points = shares.observation_error;
        duration_sample_count = o.durations;
        latency_p50_ms_min = least (λ row. row.duration_p50_ms) rows;
        latency_p50_ms_max = greatest (λ row. row.duration_p50_ms) rows;
        latency_p95_ms_max = greatest (λ row. row.duration_p95_ms) rows;
        cert_warning_count = o.cert_warnings;
        cert_critical_count = o.cert_criticals;
        fingerprint_sample_count = o.fingerprints;
        fingerprint_change_count = o.fingerprint_changes;
      }

  -- From the sums, after the loop over the rows.
  unfoldable pub summarize : List HealthRollupRecord → Option HealthSloProjection
  summarize rows = do
    o ← other_sums rows
    let covered_slots = min o.covered (window_seconds window / 300)
    missing_slots ← checked_sub (window_seconds window / 300) covered_slots
    s ← status_sums rows
    d ← slot_seconds covered_slots missing_slots s
    some (projection rows covered_slots missing_slots s o d)

  unfoldable pub project_health_slo : List HealthRollupRecord → Option HealthSloProjection
  project_health_slo rows = do
    reject (ltb (window_seconds window / bucket_seconds_of window) (length rows))
    check_rows node_id window from to rows []
    summarize rows
