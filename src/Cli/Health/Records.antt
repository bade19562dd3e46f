-- ===== src/Cli/Health/Records.antt =====
-- The records of store.rs that health.rs reads, and its own status and counts.
use ocserv_fleet_agent.Protocol.Json.{Value}
use ocserv_fleet_agent.Common.{ℕ, String, List, suc, Option, Bool}

pub record ProbeObservationRecord : Type 0 where
  pub observation_id : String
  pub run_id : Option String
  pub node_id : Option String
  pub endpoint_id : Option String
  pub method : String
  pub is_ok : Option Bool
  pub error_code : Option String
  pub duration_ms : Option ℕ
  pub observed_at : String
  pub expires_at : Option String
  pub result_class : String
  pub summary_json : Value

pub record HealthSnapshotRecord : Type 0 where
  pub node_id : String
  pub endpoint_id : Option String
  pub computed_at : String
  pub status : String
  pub freshness_seconds : Option ℕ
  pub last_success_at : Option String
  pub last_failure_at : Option String
  pub last_error_code : Option String
  pub degraded_methods_json : Value
  pub summary_json : Value

pub record HealthHistoryRecord : Type 0 where
  pub evaluation_id : String
  pub snapshot : HealthSnapshotRecord

pub record HealthRollupSource : Type 0 where
  pub history : List HealthHistoryRecord
  pub observations : List ProbeObservationRecord

pub record HealthPolicyRecord : Type 0 where
  pub stale_window_seconds : ℕ
  pub unreachable_consecutive_failures : ℕ
  pub cert_warning_days : ℕ
  pub cert_critical_days : ℕ
  pub updated_at : String

pub record NodeRecord : Type 0 where
  pub node_id : String
  pub endpoint_id : String
  pub name : String
  pub region : String
  pub role : String
  pub is_enabled : Bool

pub data EndpointStatus : Type 0 where
  active rotated revoked quarantined : EndpointStatus

pub data HealthStatus : Type 0 where
  healthy degraded unreachable stale disabled unknown : HealthStatus

unfoldable pub status_text : HealthStatus → String
status_text HealthStatus.healthy = "healthy"
status_text HealthStatus.degraded = "degraded"
status_text HealthStatus.unreachable = "unreachable"
status_text HealthStatus.stale = "stale"
status_text HealthStatus.disabled = "disabled"
status_text HealthStatus.unknown = "unknown"

pub record NodeHealth : Type 0 where
  pub node_id : String
  pub endpoint_id : String
  pub endpoint_status : Option EndpointStatus
  pub region : String
  pub role : String
  pub status : HealthStatus
  pub freshness_seconds : Option ℕ
  pub last_success_at : Option String
  pub last_failure_at : Option String
  pub last_error_code : Option String
  pub consecutive_unreachable_failures : ℕ
  pub degraded_methods : List String

pub record HealthCounts : Type 0 where
  pub total : ℕ
  pub healthy : ℕ
  pub degraded : ℕ
  pub unreachable : ℕ
  pub stale : ℕ
  pub disabled : ℕ
  pub unknown : ℕ

abbrev pub no_counts : HealthCounts
no_counts = record {
  total = 0;
  healthy = 0;
  degraded = 0;
  unreachable = 0;
  stale = 0;
  disabled = 0;
  unknown = 0;
}

abbrev pub tick : HealthStatus → HealthStatus → ℕ → ℕ
tick HealthStatus.healthy HealthStatus.healthy n = suc n
tick HealthStatus.degraded HealthStatus.degraded n = suc n
tick HealthStatus.unreachable HealthStatus.unreachable n = suc n
tick HealthStatus.stale HealthStatus.stale n = suc n
tick HealthStatus.disabled HealthStatus.disabled n = suc n
tick HealthStatus.unknown HealthStatus.unknown n = suc n
tick _ _ n = n

-- `HealthCounts::record`
unfoldable pub record_status : HealthStatus → HealthCounts → HealthCounts
record_status s c = record {
  total = suc c.total;
  healthy = tick HealthStatus.healthy s c.healthy;
  degraded = tick HealthStatus.degraded s c.degraded;
  unreachable = tick HealthStatus.unreachable s c.unreachable;
  stale = tick HealthStatus.stale s c.stale;
  disabled = tick HealthStatus.disabled s c.disabled;
  unknown = tick HealthStatus.unknown s c.unknown;
}
