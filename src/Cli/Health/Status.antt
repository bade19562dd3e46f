-- ===== src/Cli/Health/Status.antt =====
-- The health of a node: `compute_node_health`.
use ocserv_fleet_agent.Cli.Health.Latest.{
  latest_for_method, latest_observation, has_ok, latest_with_ok,
  consecutive_unreachable_controller_ping_failures, latest_controller_ping_failed,
}
use ocserv_fleet_agent.Cli.Observation.Projection.{safe_observation_summary}
use ocserv_fleet_agent.Cli.Health.Records.{
  EndpointStatus, NodeHealth, ProbeObservationRecord, NodeRecord, HealthCounts, HealthPolicyRecord,
  record_status, no_counts, HealthStatus,
}
use ocserv_fleet_agent.Protocol.Method.{
  ocserv_service_summary, ocserv_version, one_of, ocserv_sessions_summary,
  ocserv_config_fingerprint, ocserv_cert_expiry,
}
use ocserv_fleet_agent.Common.Int.{ℤ, ltb_ℤ, pos_part, ◌-ℤ◌}
use ocserv_fleet_agent.Protocol.Json.{Elements, Value, get, as_str}
use ocserv_fleet_agent.Common.Options.{◌>>=◌}
use ocserv_fleet_agent.Common.{
  ℕ, String, Option, List, some, Bool, [], ◌∷◌, if◌then◌else◌, none, true, false, any, ◌++◌, before,
  decided, ◌||◌, text_discrete, codes, not, ltb, is_some, ◌/◌, leb,
}

-- `Value::get` with a key, and `Value::as_array`.
unfoldable pub value_get : String → Value → Option Value
value_get key (Value.object fields) = get key fields
value_get key _ = none

abbrev pub or_else {ℓ} : {A : Type ℓ} → Option A → Option A → Option A
or_else none b = b
or_else (some a) b = some a

abbrev pub is_empty {ℓ} : {A : Type ℓ} → List A → Bool
is_empty [] = true
is_empty (x ∷ xs) = false

abbrev pub text_of : Option Value → Option String
text_of none = none
text_of (some v) = as_str v

-- The texts among the elements.
unfoldable pub texts : Elements → List String
texts Elements.no_element = []
texts (Elements.element v rest) =
    let others = texts rest in elim (as_str v) [ none ↦ others | some s ↦ s ∷ others ]

abbrev pub array_of : Option Value → Elements
array_of (some (Value.array es)) = es
array_of _ = Elements.no_element

unfoldable pub degraded_methods_from_summary : Value → List String
degraded_methods_from_summary summary = texts (array_of (value_get "degraded_methods" summary))

unfoldable pub status_is_cert_warning : Option String → Bool
status_is_cert_warning none = false
status_is_cert_warning (some s) =
    one_of ("expiring_soon" ∷ "expired" ∷ "warning" ∷ "critical" ∷ []) s

unfoldable pub any_cert_warns : Elements → Bool
any_cert_warns Elements.no_element = false
any_cert_warns (Elements.element cert rest) =
    status_is_cert_warning (text_of (value_get "status" cert)) || any_cert_warns rest

unfoldable pub is_listed : String → List String → Bool
is_listed s names = any (λ n. decided (text_discrete s n)) names

-- `if !methods.contains(&degraded) { methods.push(degraded) }`, for each.
unfoldable pub push_new : List String → List String → List String
push_new [] methods = methods
push_new (d ∷ ds) methods =
    push_new ds (if is_listed d methods then methods else methods ++ (d ∷ []))

unfoldable pub insert_text : String → List String → List String
insert_text s [] = s ∷ []
insert_text s (t ∷ ts) =
    let rest = insert_text s ts in if before (codes t) (codes s) then t ∷ rest else s ∷ t ∷ ts

unfoldable pub sort_texts : List String → List String
sort_texts [] = []
sort_texts (s ∷ ss) = insert_text s (sort_texts ss)

-- `dedup`: of equal neighbours the first stays.
unfoldable pub dedup_from : String → List String → List String
dedup_from s [] = []
dedup_from s (t ∷ ts) =
    let rest = dedup_from t ts in if decided (text_discrete s t) then rest else t ∷ rest

unfoldable pub dedup : List String → List String
dedup [] = []
dedup (s ∷ ss) = s ∷ dedup_from s ss

abbrev pub reported_methods : List String
reported_methods =
    ocserv_service_summary ∷ ocserv_version ∷ ocserv_sessions_summary ∷ ocserv_config_fingerprint
    ∷ ocserv_cert_expiry ∷ []

unfoldable pub inactive_endpoint_error_code : Option EndpointStatus → Option String
inactive_endpoint_error_code none = some "ENDPOINT_TRUST_MISSING"
inactive_endpoint_error_code (some EndpointStatus.active) = none
inactive_endpoint_error_code (some EndpointStatus.revoked) = some "ENDPOINT_REVOKED"
inactive_endpoint_error_code (some EndpointStatus.quarantined) = some "ENDPOINT_QUARANTINED"
inactive_endpoint_error_code (some EndpointStatus.rotated) = some "ENDPOINT_ROTATED"

unfoldable pub add_statuses : List NodeHealth → HealthCounts → HealthCounts
add_statuses [] counts = counts
add_statuses (row ∷ rows) counts = add_statuses rows (record_status row.status counts)

unfoldable pub health_counts : List NodeHealth → HealthCounts
health_counts rows = add_statuses rows no_counts

abbrev pub nanoseconds : ℕ
nanoseconds = 1000000000

-- Whole seconds from one instant to a later one.
unfoldable pub seconds_between : ℤ → ℤ → ℕ
seconds_between generated observed =
    if ltb_ℤ generated observed then 0 else pos_part (generated -ℤ observed) / nanoseconds

-- `typed` is what a summary of the typed form shows (storage_payloads.rs).
module _ (typed : Value → Option Value) where
  unfoldable pub cert_observation_warns : ProbeObservationRecord → Bool
  cert_observation_warns r =
      let summary = safe_observation_summary typed r.summary_json in
      if not (decided (text_discrete r.method ocserv_cert_expiry))
      then false
      else (status_is_cert_warning
            (text_of (or_else (value_get "status" summary) (value_get "cert_status" summary)))
          || any_cert_warns (array_of (value_get "certs" r.summary_json)))

  -- What the latest observation of one method adds to the list.
  unfoldable pub degraded_by : String → ProbeObservationRecord → List String → List String
  degraded_by method r methods =
      push_new (degraded_methods_from_summary (safe_observation_summary typed r.summary_json))
        (if has_ok false r || cert_observation_warns r then methods ++ (method ∷ []) else methods)

  unfoldable pub collect_degraded :
      List String → List ProbeObservationRecord → List String → List String
  collect_degraded [] observations methods = methods
  collect_degraded (m ∷ ms) observations methods =
      collect_degraded ms observations (elim (latest_for_method observations m) [
        | none ↦ methods
        | some r ↦ degraded_by m r methods
      ])

  unfoldable pub degraded_methods : List ProbeObservationRecord → List String
  degraded_methods observations =
      dedup (sort_texts (collect_degraded reported_methods observations []))

-- `parse_rfc3339` is the instant of an RFC 3339 text in nanoseconds (the package time).
module _ (parse_rfc3339 : String → Option ℤ) where
  unfoldable pub freshness_seconds : String → String → Option ℕ
  freshness_seconds generated_at observed_at = do
    generated ← parse_rfc3339 generated_at
    observed ← parse_rfc3339 observed_at
    some (seconds_between generated observed)

  unfoldable pub timestamp_before : String → String → Option Bool
  timestamp_before left right = do l ← parse_rfc3339 left; r ← parse_rfc3339 right; some (ltb_ℤ l r)

  unfoldable pub is_expired : String → ProbeObservationRecord → Bool
  is_expired generated_at r = elim r.expires_at [
    | none ↦ false
    | some expires_at ↦ elim (timestamp_before expires_at generated_at) [ none ↦ true | some b ↦ b ]
  ]

  unfoldable pub is_not_fresh : String → ProbeObservationRecord → ℕ → Bool
  is_not_fresh generated_at r stale_window_seconds =
      elim (freshness_seconds generated_at r.observed_at) [
        | none ↦ true
        | some freshness ↦ ltb stale_window_seconds freshness
      ]

  unfoldable pub latest_is_stale_or_expired : String → List ProbeObservationRecord → ℕ → Bool
  latest_is_stale_or_expired generated_at observations stale_window_seconds =
      elim (latest_observation observations) [
        | none ↦ false
        | some r ↦ is_expired generated_at r || is_not_fresh generated_at r stale_window_seconds
      ]

module _ (typed : Value → Option Value) (parse_rfc3339 : String → Option ℤ) where
  unfoldable pub node_status :
      NodeRecord
      → Option EndpointStatus
      → List ProbeObservationRecord
      → String
      → HealthPolicyRecord
      → HealthStatus
  node_status node endpoint observations generated_at policy =
      if not node.is_enabled
      then HealthStatus.disabled
      else if is_some (inactive_endpoint_error_code endpoint)
      then HealthStatus.unreachable
      else if is_empty observations
      then HealthStatus.unknown
      else if latest_is_stale_or_expired parse_rfc3339 generated_at observations
          policy.stale_window_seconds
      then HealthStatus.stale
      else if leb policy.unreachable_consecutive_failures
          (consecutive_unreachable_controller_ping_failures observations)
      then HealthStatus.unreachable
      else if not (is_empty (degraded_methods typed observations))
          || latest_controller_ping_failed observations
      then HealthStatus.degraded
      else HealthStatus.healthy

  abbrev pub observed_at_of : Option ProbeObservationRecord → Option String
  observed_at_of none = none
  observed_at_of (some r) = some r.observed_at

  -- The trust of the endpoint and the observations of the node are what the store gives.
  unfoldable pub compute_node_health :
      Option EndpointStatus
      → List ProbeObservationRecord
      → NodeRecord
      → String
      → HealthPolicyRecord
      → NodeHealth
  compute_node_health endpoint observations node generated_at policy = record {
    node_id = node.node_id;
    endpoint_id = node.endpoint_id;
    endpoint_status = endpoint;
    region = node.region;
    role = node.role;
    status = node_status node endpoint observations generated_at policy;
    freshness_seconds = elim (latest_observation observations) [
      | none ↦ none
      | some r ↦ freshness_seconds parse_rfc3339 generated_at r.observed_at
    ];
    last_success_at = observed_at_of (latest_with_ok observations true);
    last_failure_at = observed_at_of (latest_with_ok observations false);
    last_error_code =
        or_else (inactive_endpoint_error_code endpoint)
          (elim (latest_with_ok observations false) [ none ↦ none | some r ↦ r.error_code ]);
    consecutive_unreachable_failures =
        consecutive_unreachable_controller_ping_failures observations;
    degraded_methods = degraded_methods typed observations;
  }
