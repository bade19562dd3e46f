-- ===== src/Tests/Slo.antt =====
-- The service-level report: the fixture of slo.rs, and its theorems at it.
use ocserv_fleet_agent.Common.Words.{checked}
use ocserv_fleet_agent.Cli.Slo.Rows.{InOrder, IsConsistent, Apart}
use ocserv_fleet_agent.Cli.Slo.Projected.{AtMost, shares, reported, accounts, projected_rows}
use ocserv_fleet_agent.Cli.Slo.Data.{
  HealthRollupRecord, HealthSloProjection, SloWindow, window_seconds, bucket_seconds_of,
  window_name,
}
use ocserv_fleet_agent.Cli.Slo.Report.{
  project_health_slo, summarize, other_sums, status_sums, slot_seconds, projection, sum_from, least,
  greatest, ratio_basis_points,
}
use ocserv_fleet_agent.Cli.Slo.Checks.{
  check_rows, status_total, place_rejected, counts_rejected, latency_rejected, seen,
}
use ocserv_fleet_agent.Common.{
  String, List, length, ◌+◌, is_some, some, ◌∷◌, ◌≤◌, ◌≡◌, [], true, ◌/◌, min, arith, All,
  text_discrete, before, refl,
}

abbrev row : HealthRollupRecord
row = record {
  node_id = "node-a";
  bucket_seconds = 3600;
  bucket_start = "2026-07-11T00:00:00Z";
  bucket_end = "2026-07-11T01:00:00Z";
  input_watermark = "aaaa";
  health_samples = 10;
  covered_slots = 10;
  expected_slots = 12;
  healthy_count = 7;
  degraded_count = 1;
  unreachable_count = 2;
  stale_count = 0;
  disabled_count = 0;
  unknown_count = 0;
  observation_count = 5;
  observation_error_count = 1;
  duration_sample_count = 5;
  duration_p50_ms = some 10;
  duration_p95_ms = some 50;
  cert_warning_count = 1;
  cert_critical_count = 0;
  fingerprint_sample_count = 2;
  fingerprint_change_count = 1;
  computed_at = "2026-07-11T01:00:00Z";
}

abbrev rows : List HealthRollupRecord
rows = row ∷ []

abbrev from : String
from = "2026-07-05T00:00:00Z"

abbrev to : String
to = "2026-07-12T00:00:00Z"

abbrev week : HealthSloProjection
week = record {
  node_id = "node-a";
  window = "7d";
  from = from;
  to = to;
  bucket_seconds = 3600;
  expected_buckets = 168;
  present_buckets = 1;
  expected_slots = 2016;
  covered_slots = 10;
  missing_slots = 2006;
  covered_duration_seconds = 3000;
  missing_duration_seconds = 601800;
  coverage_basis_points = some 49;
  health_samples = 10;
  healthy_samples = 7;
  degraded_samples = 1;
  unreachable_samples = 2;
  stale_samples = 0;
  disabled_samples = 0;
  unknown_samples = 0;
  healthy_duration_seconds = 2100;
  degraded_duration_seconds = 300;
  unreachable_duration_seconds = 600;
  stale_duration_seconds = 0;
  disabled_duration_seconds = 0;
  unknown_duration_seconds = 0;
  availability_eligible_samples = 10;
  service_available_basis_points = some 8000;
  strictly_healthy_basis_points = some 7000;
  observation_count = 5;
  observation_error_count = 1;
  observation_error_basis_points = some 2000;
  duration_sample_count = 5;
  latency_p50_ms_min = some 10;
  latency_p50_ms_max = some 10;
  latency_p95_ms_max = some 50;
  cert_warning_count = 1;
  cert_critical_count = 0;
  fingerprint_sample_count = 2;
  fingerprint_change_count = 1;
}

week_projected : project_health_slo "node-a" SloWindow.days7 from to rows ≡ some week
unfolding project_health_slo check_rows status_total checked place_rejected counts_rejected
    latency_rejected seen summarize other_sums status_sums slot_seconds projection sum_from least
    greatest ratio_basis_points window_seconds bucket_seconds_of window_name text_discrete before
week_projected = refl

projected_rows_example :
    (length rows ≤ window_seconds SloWindow.days7 / bucket_seconds_of SloWindow.days7)
    × All (IsConsistent "node-a" SloWindow.days7 from to) rows
    × Apart "node-a" SloWindow.days7 from to rows []
    × (summarize "node-a" SloWindow.days7 from to rows ≡ some week)
projected_rows_example = projected_rows "node-a" SloWindow.days7 from to rows week week_projected

accounts_example :
    (week.covered_slots + week.missing_slots ≡ week.expected_slots)
    × (week.covered_duration_seconds + week.missing_duration_seconds
        ≡ window_seconds SloWindow.days7)
    × (week.healthy_samples + week.degraded_samples + week.unreachable_samples + week.stale_samples
          + week.disabled_samples + week.unknown_samples
        ≡ week.health_samples)
    × (week.covered_slots ≡ min week.health_samples week.expected_slots)
    × (week.availability_eligible_samples + week.disabled_samples + week.unknown_samples
        ≡ week.health_samples)
    × (week.present_buckets ≡ length rows)
accounts_example = accounts "node-a" SloWindow.days7 from to rows week week_projected

shares_example :
    AtMost 10000 week.coverage_basis_points
    × AtMost 10000 week.service_available_basis_points
    × AtMost 10000 week.strictly_healthy_basis_points
    × AtMost 10000 week.observation_error_basis_points
    × InOrder week.strictly_healthy_basis_points week.service_available_basis_points
shares_example = shares "node-a" SloWindow.days7 from to rows week week_projected

reported_example : is_some (project_health_slo "node-a" SloWindow.days7 from to rows) ≡ true
reported_example =
    reported "node-a" SloWindow.days7 from to rows projected_rows_example.0 projected_rows_example.1
      projected_rows_example.2 (omega arith) (omega arith) (omega arith) (omega arith) (omega arith)
