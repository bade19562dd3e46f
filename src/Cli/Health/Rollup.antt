-- ===== src/Cli/Health/Rollup.antt =====
-- The rollup of a bucket: `build_health_rollup`, and the counters that the store checks before it
-- writes one (`validate_health_rollup_write` of crates/ocfleet-cli/src/store.rs).
use ocserv_fleet_agent.Cli.Slo.Checks.{status_total, is_inverted}
use ocserv_fleet_agent.Common.Assoc.{insert}
use ocserv_fleet_agent.Protocol.Method.{ocserv_cert_expiry, ocserv_config_fingerprint}
use ocserv_fleet_agent.Cli.Observation.Projection.{safe_observation_summary}
use ocserv_fleet_agent.Cli.Health.Status.{text_of, or_else, value_get, is_listed, is_empty}
use ocserv_fleet_agent.Cli.Health.Records.{
  ProbeObservationRecord, HealthStatus, HealthRollupSource, HealthHistoryRecord, HealthCounts,
  no_counts, record_status,
}
use ocserv_fleet_agent.Protocol.Json.{Value}
use ocserv_fleet_agent.Cli.Slo.Data.{HealthRollupRecord}
use ocserv_fleet_agent.Common.Int.{ℤ, pos, negsuc, ltb_ℤ, ℤ_discrete}
use ocserv_fleet_agent.Common.Words.{checked}
use ocserv_fleet_agent.Common.{
  ℕ, String, List, Option, Bool, ◌∷◌, none, if◌then◌else◌, some, decided, ◌/◌, suc, leb, length,
  false, not, [], Result, text_discrete, ◌==◌, any, ok, ◌++◌, zero, ◌>>=◌, ◌*◌, ◌||◌, ok_or, ◌+◌,
  ltb, ◌&&◌, ◌-◌, true, is_some,
}

pub data RollupError : Type 0 where
  invalid_status : RollupError
  invalid_timestamp : RollupError

-- The index of a stored status.
unfoldable pub status_index : String → Option HealthStatus
status_index s =
    if decided (text_discrete s "healthy")
    then some HealthStatus.healthy
    else if decided (text_discrete s "degraded")
    then some HealthStatus.degraded
    else if decided (text_discrete s "unreachable")
    then some HealthStatus.unreachable
    else if decided (text_discrete s "stale")
    then some HealthStatus.stale
    else if decided (text_discrete s "disabled")
    then some HealthStatus.disabled
    else if decided (text_discrete s "unknown")
    then some HealthStatus.unknown
    else none

-- `div_euclid` by a positive number, which is also how an instant in nanoseconds becomes one in seconds.
unfoldable pub div_euclid : ℕ → ℤ → ℤ
div_euclid k (pos n) = pos (n / k)
div_euclid k (negsuc n) = negsuc (n / k)

-- The five-minute slot of an instant.
abbrev pub slot_of : ℤ → ℤ
slot_of t = div_euclid 300 (div_euclid 1000000000 t)

-- `status_counts` after the loop over the values of the map.
unfoldable pub count_statuses : List (ℤ × HealthStatus) → HealthCounts
count_statuses [] = no_counts
count_statuses ((slot, s) ∷ rest) = record_status s (count_statuses rest)

unfoldable pub classified : List ProbeObservationRecord → List Bool
classified [] = []
classified (o ∷ rest) =
    let others = classified rest in elim o.is_ok [ none ↦ others | some b ↦ b ∷ others ]

unfoldable pub error_count : List Bool → ℕ
error_count [] = 0
error_count (b ∷ rest) = let n = error_count rest in if b then n else suc n

unfoldable pub durations_of : List ProbeObservationRecord → List ℕ
durations_of [] = []
durations_of (o ∷ rest) =
    let others = durations_of rest in elim o.duration_ms [ none ↦ others | some d ↦ d ∷ others ]

-- `sort_unstable` on numbers.
unfoldable pub insert_number : ℕ → List ℕ → List ℕ
insert_number n [] = n ∷ []
insert_number n (m ∷ rest) =
    let later = insert_number n rest in if leb n m then n ∷ m ∷ rest else m ∷ later

unfoldable pub sort_numbers : List ℕ → List ℕ
sort_numbers [] = []
sort_numbers (n ∷ rest) = insert_number n (sort_numbers rest)

unfoldable pub get_elem? : List ℕ → ℕ → Option ℕ
get_elem? [] i = none
get_elem? (x ∷ xs) zero = some x
get_elem? (x ∷ xs) (suc i) = get_elem? xs i

unfoldable pub percentile : List ℕ → ℕ → Option ℕ
percentile values p = if length values == 0 then none else elim (checked (p * length values)) [
  | none ↦ none
  | some product ↦ elim (checked (product + 99)) [
    | none ↦ none
    | some shifted ↦ get_elem? values (shifted / 100 - 1)
  ]
]

abbrev pub is_at_most : ℕ → Option ℤ → Bool
is_at_most n none = false
is_at_most n (some days) = not (ltb_ℤ (pos n) days)

-- Is the status one of the two?
abbrev pub matches_text : String → String → Option String → Bool
matches_text s t none = false
matches_text s t (some status) =
    decided (text_discrete status s) || decided (text_discrete status t)

pub record CertCounts : Type 0 where
  pub warning : ℕ
  pub critical : ℕ

-- `previous` shares no alias with `next`.
unfoldable pub is_changed : List String → List String → Bool
is_changed previous next = not (any (λ value. is_listed value next) previous)

-- `windows(2)`, filtered and counted.
unfoldable pub changes_from : List String → List (List String) → ℕ
changes_from previous [] = 0
changes_from previous (next ∷ rest) =
    let n = changes_from next rest in if is_changed previous next then suc n else n

unfoldable pub change_count : List (List String) → ℕ
change_count [] = 0
change_count (first ∷ rest) = changes_from first rest

-- The text of a field, as a list of none or one.
abbrev pub alias : Option Value → List String
alias v = elim (text_of v) [ none ↦ [] | some s ↦ s ∷ [] ]

-- The counters that the store requires of a row.
unfoldable pub counters_rejected : HealthRollupRecord → Bool
counters_rejected row =
    not (row.expected_slots == row.bucket_seconds / 300)
    || not (row.health_samples == row.covered_slots)
    || ltb row.expected_slots row.covered_slots
    || elim (status_total row) [ none ↦ true | some total ↦ not (total == row.health_samples) ]
    || ltb row.observation_count row.observation_error_count
    || ltb row.fingerprint_sample_count row.fingerprint_change_count
    || (if row.duration_sample_count == 0
        then is_some row.duration_p50_ms || is_some row.duration_p95_ms
        else not (is_some row.duration_p50_ms) || not (is_some row.duration_p95_ms))
    || is_inverted row.duration_p50_ms row.duration_p95_ms

-- Of other code: the form of a typed summary (storage_payloads.rs), the instant of an RFC 3339 text in
-- nanoseconds (time), the value of a JSON number as `i64` (serde_json), and the digest of the
-- source (blake3 over serde_json).
pub record RollupLibraries : Type 0 where
  pub typed : Value → Option Value
  pub parse_rfc3339 : String → Option ℤ
  pub as_i64 : String → Option ℤ
  pub digest : HealthRollupSource → String

module _ (lib : RollupLibraries) where
  -- `status_by_slot`: the last evaluation in a slot wins.
  unfoldable pub statuses_by_slot :
      List HealthHistoryRecord
      → List (ℤ × HealthStatus)
      → Result RollupError (List (ℤ × HealthStatus))
  statuses_by_slot [] slots = ok slots
  statuses_by_slot (r ∷ rest) slots = do
    index ← ok_or (status_index r.snapshot.status) RollupError.invalid_status
    timestamp ← ok_or (lib.parse_rfc3339 r.snapshot.computed_at) RollupError.invalid_timestamp
    statuses_by_slot rest (insert ℤ_discrete (slot_of timestamp) index slots)

  abbrev pub days_of : Option Value → Option ℤ
  days_of (some (Value.number n)) = lib.as_i64 n
  days_of _ = none

  -- One observation of a certificate's expiry.
  unfoldable pub count_cert : ProbeObservationRecord → CertCounts → CertCounts
  count_cert o c =
      let summary = safe_observation_summary lib.typed o.summary_json in
      let days = days_of (
        or_else (value_get "cert_min_days_remaining" summary)
          (value_get "days_remaining" summary)) in
      let status = text_of (value_get "status" summary) in
      if not (decided (text_discrete o.method ocserv_cert_expiry))
      then c
      else if is_at_most 7 days || matches_text "critical" "expired" status
      then record { warning = c.warning; critical = suc c.critical }
      else if is_at_most 30 days || matches_text "warning" "expiring_soon" status
      then record { warning = suc c.warning; critical = c.critical }
      else c

  unfoldable pub count_certs : List ProbeObservationRecord → CertCounts → CertCounts
  count_certs [] c = c
  count_certs (o ∷ rest) c = count_certs rest (count_cert o c)

  unfoldable pub aliases_of : ProbeObservationRecord → List String
  aliases_of o =
      let summary = safe_observation_summary lib.typed o.summary_json in
      alias (value_get "config_fingerprint_prefix" summary)
      ++ alias (value_get "config_fingerprint_previous_prefix" summary)

  unfoldable pub fingerprints_of : List ProbeObservationRecord → List (List String)
  fingerprints_of [] = []
  fingerprints_of (o ∷ rest) =
      let others = fingerprints_of rest in
      let aliases = aliases_of o in
      if decided (text_discrete o.method ocserv_config_fingerprint) && not (is_empty aliases)
      then aliases ∷ others
      else others

  abbrev pub rollup_row :
      String
      → ℕ
      → String
      → String
      → HealthRollupSource
      → List (ℤ × HealthStatus)
      → HealthRollupRecord
  rollup_row node_id bucket_seconds bucket_start bucket_end source slots =
      let durations = sort_numbers (durations_of source.observations) in
      let certs = count_certs source.observations (record { warning = 0; critical = 0 }) in
      let fingerprints = fingerprints_of source.observations in
      record {
        node_id = node_id;
        bucket_seconds = bucket_seconds;
        bucket_start = bucket_start;
        bucket_end = bucket_end;
        input_watermark = lib.digest source;
        health_samples = length slots;
        covered_slots = length slots;
        expected_slots = bucket_seconds / 300;
        healthy_count = (count_statuses slots).healthy;
        degraded_count = (count_statuses slots).degraded;
        unreachable_count = (count_statuses slots).unreachable;
        stale_count = (count_statuses slots).stale;
        disabled_count = (count_statuses slots).disabled;
        unknown_count = (count_statuses slots).unknown;
        observation_count = length (classified source.observations);
        observation_error_count = error_count (classified source.observations);
        duration_sample_count = length durations;
        duration_p50_ms = percentile durations 50;
        duration_p95_ms = percentile durations 95;
        cert_warning_count = certs.warning;
        cert_critical_count = certs.critical;
        fingerprint_sample_count = length fingerprints;
        fingerprint_change_count = change_count fingerprints;
        computed_at = bucket_end;
      }

  unfoldable pub build_health_rollup :
      String → ℕ → String → String → HealthRollupSource → Result RollupError HealthRollupRecord
  build_health_rollup node_id bucket_seconds bucket_start bucket_end source = do
    slots ← statuses_by_slot source.history []
    ok (rollup_row node_id bucket_seconds bucket_start bucket_end source slots)
