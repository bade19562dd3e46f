-- ===== src/Cli/Slo/Data.antt =====
-- The windows of slo.rs, a row of the health rollups and the report.
use ocserv_fleet_agent.Common.{ℕ, String, Option}

pub data SloWindow : Type 0 where
  hours24 days7 days30 : SloWindow

unfoldable pub window_seconds : SloWindow → ℕ
window_seconds hours24 = 86400
window_seconds days7 = 604800
window_seconds days30 = 2592000

unfoldable pub bucket_seconds_of : SloWindow → ℕ
bucket_seconds_of hours24 = 300
bucket_seconds_of days7 = 3600
bucket_seconds_of days30 = 86400

unfoldable pub window_name : SloWindow → String
window_name hours24 = "24h"
window_name days7 = "7d"
window_name days30 = "30d"

-- `HealthRollupRecord` of crates/ocfleet-cli/src/store.rs.
pub record HealthRollupRecord : Type 0 where
  pub node_id : String
  pub bucket_seconds : ℕ
  pub bucket_start : String
  pub bucket_end : String
  pub input_watermark : String
  pub health_samples : ℕ
  pub covered_slots : ℕ
  pub expected_slots : ℕ
  pub healthy_count : ℕ
  pub degraded_count : ℕ
  pub unreachable_count : ℕ
  pub stale_count : ℕ
  pub disabled_count : ℕ
  pub unknown_count : ℕ
  pub observation_count : ℕ
  pub observation_error_count : ℕ
  pub duration_sample_count : ℕ
  pub duration_p50_ms : Option ℕ
  pub duration_p95_ms : Option ℕ
  pub cert_warning_count : ℕ
  pub cert_critical_count : ℕ
  pub fingerprint_sample_count : ℕ
  pub fingerprint_change_count : ℕ
  pub computed_at : String

pub record HealthSloProjection : Type 0 where
  pub node_id : String
  pub window : String
  pub from : String
  pub to : String
  pub bucket_seconds : ℕ
  pub expected_buckets : ℕ
  pub present_buckets : ℕ
  pub expected_slots : ℕ
  pub covered_slots : ℕ
  pub missing_slots : ℕ
  pub covered_duration_seconds : ℕ
  pub missing_duration_seconds : ℕ
  pub coverage_basis_points : Option ℕ
  pub health_samples : ℕ
  pub healthy_samples : ℕ
  pub degraded_samples : ℕ
  pub unreachable_samples : ℕ
  pub stale_samples : ℕ
  pub disabled_samples : ℕ
  pub unknown_samples : ℕ
  pub healthy_duration_seconds : ℕ
  pub degraded_duration_seconds : ℕ
  pub unreachable_duration_seconds : ℕ
  pub stale_duration_seconds : ℕ
  pub disabled_duration_seconds : ℕ
  pub unknown_duration_seconds : ℕ
  pub availability_eligible_samples : ℕ
  pub service_available_basis_points : Option ℕ
  pub strictly_healthy_basis_points : Option ℕ
  pub observation_count : ℕ
  pub observation_error_count : ℕ
  pub observation_error_basis_points : Option ℕ
  pub duration_sample_count : ℕ
  pub latency_p50_ms_min : Option ℕ
  pub latency_p50_ms_max : Option ℕ
  pub latency_p95_ms_max : Option ℕ
  pub cert_warning_count : ℕ
  pub cert_critical_count : ℕ
  pub fingerprint_sample_count : ℕ
  pub fingerprint_change_count : ℕ
