-- ===== src/Tests/Health.antt =====
-- The health of a node and its rollup, at a node with two observations.
use ocserv_fleet_agent.Cli.Health.Counted.{IsRollupOf, build_health_rollup-IsRollupOf}
use ocserv_fleet_agent.Common.Assoc.{lookup, insert, remove}
use ocserv_fleet_agent.Common.Words.{checked}
use ocserv_fleet_agent.Cli.Health.Status.{
  value_get, texts, degraded_methods_from_summary, status_is_cert_warning, any_cert_warns,
  is_listed, push_new, insert_text, sort_texts, dedup_from, dedup, inactive_endpoint_error_code,
  add_statuses, health_counts, seconds_between, cert_observation_warns, degraded_by,
  collect_degraded, degraded_methods, freshness_seconds, timestamp_before, is_expired, is_not_fresh,
  latest_is_stale_or_expired, node_status, compute_node_health,
}
use ocserv_fleet_agent.Cli.Input.{
  is_whitespace, trim_start, trim_end, byte_len, validate_printable_text, validate_actor,
  validate_reason,
}
use ocserv_fleet_agent.Cli.Health.Percentile.{at_most, below, percentile-sort_numbers}
use ocserv_fleet_agent.Cli.Health.Consistent.{build_health_rollup-IsConsistent}
use ocserv_fleet_agent.Common.Int.{ℤ, pos, scale, ◌+ℤ◌, ◌-ℤ◌, ℤ_discrete}
use ocserv_fleet_agent.Cli.Health.Latest.{
  latest_for_method, is_older, latest_from, latest_observation, filter, latest_with_ok, place,
  newest_first, is_unreachable_error_code, leading,
  consecutive_unreachable_controller_ping_failures, latest_controller_ping_failed,
}
use ocserv_fleet_agent.Cli.Slo.Rows.{IsConsistent}
use ocserv_fleet_agent.Cli.Observation.Projection.{
  starts_with, contains, lowercase, forbidden_summary_key, forbidden_summary_value, is_public_key,
  is_unsafe_text, project_string, public_count, element_count, safe_observation_summary,
  safe_observation_summary_inner, project_fields, project_elements,
}
use ocserv_fleet_agent.Protocol.Method.{
  probe_controller_ping, ocserv_cert_expiry, one_of, classify_phase_one_method,
}
use ocserv_fleet_agent.Cli.Health.Healthy.{IsProven, node_status-IsProven, IsTimeOrdered}
use ocserv_fleet_agent.Cli.Health.Slots.{IsInBucket}
use ocserv_fleet_agent.Cli.Slo.Data.{
  HealthRollupRecord, bucket_seconds_of, SloWindow, window_seconds, window_name,
}
use ocserv_fleet_agent.Cli.Health.Rollup.{
  RollupLibraries, percentile, build_health_rollup, sort_numbers, counters_rejected, status_index,
  div_euclid, count_statuses, classified, error_count, durations_of, insert_number, get_elem?,
  is_changed, changes_from, change_count, statuses_by_slot, count_cert, count_certs, aliases_of,
  fingerprints_of,
}
use ocserv_fleet_agent.Cli.Health.Records.{
  HealthRollupSource, NodeRecord, HealthPolicyRecord, ProbeObservationRecord, HealthHistoryRecord,
  EndpointStatus, status_text, record_status, HealthStatus,
}
use ocserv_fleet_agent.Protocol.Json.{Value, Fields, field_count, get, as_object, as_str}
use mathlib.Core.Bool.{false≢true}
use ocserv_fleet_agent.Common.{
  ◌∙◌, sym, ℕ, inl, inr, ap, String, List, text_discrete, before, Option, none, ◌∷◌, some, true, [],
  All, ◌≡◌, if◌then◌else◌, ◌*◌, decided, false, length, ◌/◌, ◌≤◌, arith, refl, ◌<◌, ok,
}

-- Three instants of one bucket, which starts at 0.
abbrev read_time : String → Option ℤ
read_time text =
    if decided (text_discrete text "1970-01-01T00:01:00Z")
    then some (pos 60000000000)
    else if decided (text_discrete text "1970-01-01T00:02:00Z")
    then some (pos 120000000000)
    else if decided (text_discrete text "1970-01-01T00:07:00Z")
    then some (pos 420000000000)
    else none

abbrev untyped : Value → Option Value
untyped v = none

abbrev as_i64 : String → Option ℤ
as_i64 n = if decided (text_discrete n "20") then some (pos 20) else none

abbrev digest : HealthRollupSource → String
digest source = "0000"

abbrev lib : RollupLibraries
lib = record { typed = untyped; parse_rfc3339 = read_time; as_i64 = as_i64; digest = digest }

abbrev observation : String → Value → String → ProbeObservationRecord
observation method summary at = record {
  observation_id = "obs-1";
  run_id = none;
  node_id = some "node-a";
  endpoint_id = none;
  method = method;
  is_ok = some true;
  error_code = none;
  duration_ms = some 40;
  observed_at = at;
  expires_at = some "1970-01-01T00:07:00Z";
  result_class = "low_sensitive_summary";
  summary_json = summary;
}

abbrev cert_summary : Value
cert_summary = Value.object (Fields.field "days_remaining" (Value.number "20") Fields.end)

abbrev observations : List ProbeObservationRecord
observations =
    observation probe_controller_ping Value.null "1970-01-01T00:01:00Z"
    ∷ observation ocserv_cert_expiry cert_summary "1970-01-01T00:02:00Z"
    ∷ []

abbrev history_record : String → String → HealthHistoryRecord
history_record status at = record {
  evaluation_id = "health-eval-1";
  snapshot = record {
    node_id = "node-a";
    endpoint_id = none;
    computed_at = at;
    status = status;
    freshness_seconds = none;
    last_success_at = none;
    last_failure_at = none;
    last_error_code = none;
    degraded_methods_json = Value.null;
    summary_json = Value.null;
  };
}

abbrev source : HealthRollupSource
source = record {
  history =
      history_record "degraded" "1970-01-01T00:01:00Z"
      ∷ history_record "healthy" "1970-01-01T00:02:00Z"
      ∷ history_record "healthy" "1970-01-01T00:07:00Z"
      ∷ [];
  observations = observations;
}

-- The later of two evaluations in the first slot counts.
abbrev row : HealthRollupRecord
row = record {
  node_id = "node-a";
  bucket_seconds = 3600;
  bucket_start = "1970-01-01T00:00:00Z";
  bucket_end = "1970-01-01T01:00:00Z";
  input_watermark = "0000";
  health_samples = 2;
  covered_slots = 2;
  expected_slots = 12;
  healthy_count = 2;
  degraded_count = 0;
  unreachable_count = 0;
  stale_count = 0;
  disabled_count = 0;
  unknown_count = 0;
  observation_count = 2;
  observation_error_count = 0;
  duration_sample_count = 2;
  duration_p50_ms = some 40;
  duration_p95_ms = some 40;
  cert_warning_count = 1;
  cert_critical_count = 0;
  fingerprint_sample_count = 0;
  fingerprint_change_count = 0;
  computed_at = "1970-01-01T01:00:00Z";
}

row_built :
    build_health_rollup lib "node-a"
      (bucket_seconds_of SloWindow.days7)
      "1970-01-01T00:00:00Z"
      "1970-01-01T01:00:00Z"
      source
    ≡ ok row
unfolding text_discrete before starts_with contains lowercase forbidden_summary_key
    forbidden_summary_value is_public_key is_unsafe_text project_string public_count element_count
    safe_observation_summary safe_observation_summary_inner project_fields project_elements
    is_whitespace trim_start trim_end byte_len validate_printable_text validate_actor
    validate_reason status_index div_euclid count_statuses classified error_count durations_of
    insert_number sort_numbers get_elem? percentile is_changed changes_from change_count
    counters_rejected statuses_by_slot count_cert count_certs aliases_of fingerprints_of
    build_health_rollup value_get texts degraded_methods_from_summary status_is_cert_warning
    any_cert_warns is_listed push_new insert_text sort_texts dedup_from dedup
    inactive_endpoint_error_code add_statuses health_counts seconds_between cert_observation_warns
    degraded_by collect_degraded degraded_methods freshness_seconds timestamp_before is_expired
    is_not_fresh latest_is_stale_or_expired node_status compute_node_health status_text
    record_status latest_from latest_observation filter latest_with_ok latest_for_method place
    newest_first is_unreachable_error_code leading consecutive_unreachable_controller_ping_failures
    latest_controller_ping_failed window_seconds bucket_seconds_of window_name checked ◌+ℤ◌ ◌-ℤ◌
    scale ℤ_discrete lookup insert remove field_count get as_object as_str one_of
    classify_phase_one_method
row_built = refl

inside : All (IsInBucket lib (pos 0) (bucket_seconds_of SloWindow.days7 / 300)) source.history
unfolding text_discrete bucket_seconds_of scale ◌+ℤ◌
inside =
    ((λ t h. ground (arith, h)), ((λ t h. ground (arith, h)), ((λ t h. ground (arith, h)), tt)))

build_health_rollup-IsConsistent_example :
    IsConsistent "node-a" SloWindow.days7 "1970-01-01T00:00:00Z" "1970-01-08T00:00:00Z" row
    × (counters_rejected row ≡ false)
unfolding before
build_health_rollup-IsConsistent_example =
    build_health_rollup-IsConsistent lib SloWindow.days7 "node-a" "1970-01-01T00:00:00Z"
      "1970-01-08T00:00:00Z" "1970-01-01T00:00:00Z" "1970-01-01T01:00:00Z" (pos 0) source row refl
      refl (omega arith) inside row_built

build_health_rollup-IsRollupOf_example :
    IsRollupOf lib source.history
      (build_health_rollup lib "node-a" 3600 "1970-01-01T00:00:00Z" "1970-01-01T01:00:00Z" source)
build_health_rollup-IsRollupOf_example =
    build_health_rollup-IsRollupOf lib "node-a" "1970-01-01T00:00:00Z" "1970-01-01T01:00:00Z" 3600
      source

abbrev times : List ℕ
times = 40 ∷ 10 ∷ 30 ∷ 20 ∷ []

percentile-sort_numbers_example :
    (d : ℕ) × (percentile (sort_numbers times) 95 ≡ some d)
    × (95 * length times ≤ 100 * at_most d times)
    × (100 * below d times < 95 * length times)
percentile-sort_numbers_example =
    percentile-sort_numbers times 95 (omega arith) (omega arith) (omega arith) (omega arith)

abbrev node : NodeRecord
node = record {
  node_id = "node-a";
  endpoint_id = "endpoint";
  name = "a";
  region = "eu";
  role = "edge";
  is_enabled = true;
}

abbrev policy : HealthPolicyRecord
policy = record {
  stale_window_seconds = 300;
  unreachable_consecutive_failures = 3;
  cert_warning_days = 30;
  cert_critical_days = 7;
  updated_at = "1970-01-01T00:00:00Z";
}

abbrev now : String
now = "1970-01-01T00:07:00Z"

healthy :
    node_status untyped read_time node (some EndpointStatus.active) observations now policy
    ≡ HealthStatus.healthy
unfolding text_discrete before starts_with contains lowercase forbidden_summary_key
    forbidden_summary_value is_public_key is_unsafe_text project_string public_count element_count
    safe_observation_summary safe_observation_summary_inner project_fields project_elements
    is_whitespace trim_start trim_end byte_len validate_printable_text validate_actor
    validate_reason value_get texts degraded_methods_from_summary status_is_cert_warning
    any_cert_warns is_listed push_new insert_text sort_texts dedup_from dedup
    inactive_endpoint_error_code add_statuses health_counts seconds_between cert_observation_warns
    degraded_by collect_degraded degraded_methods freshness_seconds timestamp_before is_expired
    is_not_fresh latest_is_stale_or_expired node_status compute_node_health status_text
    record_status latest_from latest_observation filter latest_with_ok latest_for_method place
    newest_first is_unreachable_error_code leading consecutive_unreachable_controller_ping_failures
    latest_controller_ping_failed ◌+ℤ◌ ◌-ℤ◌ scale ℤ_discrete field_count get as_object as_str one_of
    classify_phase_one_method
healthy = refl

abbrev ping : ProbeObservationRecord
ping = observation probe_controller_ping Value.null "1970-01-01T00:01:00Z"

abbrev cert : ProbeObservationRecord
cert = observation ocserv_cert_expiry cert_summary "1970-01-01T00:02:00Z"

ping_older : is_older ping cert ≡ true
unfolding text_discrete before
ping_older = refl

time_ordered : IsTimeOrdered read_time observations
unfolding text_discrete
time_ordered r o (inl p) (inl q) h = (
  pos 60000000000,
  pos 60000000000,
  ap (λ x. read_time x.observed_at) p,
  ap (λ x. read_time x.observed_at) q,
  omega arith,
)
time_ordered r o (inl p) (inr (inl q)) h =
    let older : is_older r o ≡ true =
      ap (λ x. is_older x o) p ∙ (ap (is_older ping) q ∙ ping_older) in
    absurd (false≢true (sym h ∙ older))
time_ordered r o (inr (inl p)) (inl q) h = (
  pos 120000000000,
  pos 60000000000,
  ap (λ x. read_time x.observed_at) p,
  ap (λ x. read_time x.observed_at) q,
  omega arith,
)
time_ordered r o (inr (inl p)) (inr (inl q)) h = (
  pos 120000000000,
  pos 120000000000,
  ap (λ x. read_time x.observed_at) p,
  ap (λ x. read_time x.observed_at) q,
  omega arith,
)
time_ordered r o (inr (inr k)) q h = absurd k
time_ordered r o (inl p) (inr (inr k)) h = absurd k
time_ordered r o (inr (inl p)) (inr (inr k)) h = absurd k

node_status-IsProven_example :
    IsProven untyped read_time now policy node (some EndpointStatus.active) observations
node_status-IsProven_example =
    node_status-IsProven untyped read_time now policy node (some EndpointStatus.active) observations
      time_ordered healthy
