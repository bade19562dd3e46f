-- ===== src/Cli/Scheduler/Outcomes.antt =====
-- The writing of what a run, or the refusal of an invalid job, has observed.
use ocserv_fleet_agent.Cli.Health.Latest.{has_ok}
use ocserv_fleet_agent.Cli.Scheduler.Runs.{
  update_scheduler_job_clock_tx, ensure_active_scheduler_run_claim_tx,
}
use ocserv_fleet_agent.Cli.Scheduler.Claims.{is_text, is_running}
use ocserv_fleet_agent.Cli.Input.{StoreError, validate_actor}
use ocserv_fleet_agent.Protocol.Json.{Value}
use ocserv_fleet_agent.Protocol.Method.{
  probe_controller_ping, probe_path_echo, ocserv_service_summary, one_of, ocserv_version,
  ocserv_sessions_summary, ocserv_config_fingerprint, ocserv_cert_expiry,
}
use ocserv_fleet_agent.Cli.Scheduler.Checks.{
  SchedulerLibraries, bad_input, validate_bounded_rfc3339, validate_safe_id,
  validate_scheduler_job_clock, validate_optional_id, validate_scheduler_job_kind,
}
use ocserv_fleet_agent.Cli.Health.Records.{ProbeObservationRecord}
use ocserv_fleet_agent.Cli.Scheduler.Records.{
  AuditEvent, SchedulerOutcomeWrite, SchedulerOutcomeEntry, SchedulerJobClockUpdate, SchedulerStore,
  find_job, find_run, add_audit, SchedulerAudit, add_observation,
}
use ocserv_fleet_agent.Common.{
  ℕ, String, Option, List, Bool, Result, if◌then◌else◌, not, ◌∷◌, false, none, decided, is_some,
  some, ok, reject, before, ◌>>◌, ◌>>=◌, text_discrete, ◌==◌, ◌&&◌, codes, ok_or, [], ◌||◌, length,
  ltb,
}

abbrev pub max_scheduler_outcome_entries : ℕ
max_scheduler_outcome_entries = 4

unfoldable pub scheduler_job_kind_allows_method : String → String → Bool
scheduler_job_kind_allows_method kind method =
    if decided (text_discrete kind "controller-ping")
    then decided (text_discrete method probe_controller_ping)
    else if decided (text_discrete kind "ocserv-status")
    then one_of
        (ocserv_service_summary ∷ ocserv_version ∷ ocserv_sessions_summary
          ∷ ocserv_config_fingerprint ∷ [])
        method
    else if decided (text_discrete kind "ocserv-cert")
    then decided (text_discrete method ocserv_cert_expiry)
    else if decided (text_discrete kind "ocserv-sessions")
    then decided (text_discrete method ocserv_sessions_summary)
    else if decided (text_discrete kind "path-probe")
    then decided (text_discrete method probe_path_echo)
    else false

-- Equality of optional texts, truth values and numbers.
abbrev pub same_text : Option String → Option String → Bool
same_text none b = not (is_some b)
same_text (some s) b = is_text s b

abbrev pub same_bool : Option Bool → Option Bool → Bool
same_bool none b = not (is_some b)
same_bool (some x) none = false
same_bool (some x) (some y) = if x then y else not y

abbrev pub same_number : Option ℕ → Option ℕ → Bool
same_number none b = not (is_some b)
same_number (some x) none = false
same_number (some x) (some y) = x == y

-- A success with an error code, or a failure without one.
abbrev pub is_inconsistent : Option Bool → Option String → Bool
is_inconsistent is_ok error_code = elim is_ok [
  | none ↦ false
  | some b ↦ if b then is_some error_code else not (is_some error_code)
]

abbrev pub observed_methods : List String
observed_methods =
    probe_controller_ping ∷ probe_path_echo ∷ ocserv_service_summary ∷ ocserv_version
    ∷ ocserv_sessions_summary ∷ ocserv_cert_expiry ∷ ocserv_config_fingerprint ∷ []

unfoldable pub validate_scheduler_outcome_audit :
    AuditEvent → ProbeObservationRecord → String → Result StoreError (Unit {0})
validate_scheduler_outcome_audit audit o actor = do
  reject (not (decided (text_discrete audit.actor actor)))
      (bad_input "scheduler outcome audit actor does not match writer actor")
  reject
      (not (same_text audit.node_id o.node_id)
        || not (same_text audit.endpoint_id o.endpoint_id)
        || not (is_text o.method audit.method)
        || not (same_bool audit.is_ok o.is_ok)
        || not (same_number audit.duration_ms o.duration_ms))
      (bad_input "scheduler outcome audit fields do not match observation")
  reject (is_inconsistent audit.is_ok audit.error_code)
      (bad_input "scheduler outcome audit result and error_code are inconsistent")
  reject
      (not (decided (text_discrete audit.event "rpc.completed"))
        && not (same_text audit.error_code o.error_code))
      (bad_input "scheduler outcome audit error_code does not match observation")

unfoldable pub check_run_entries :
    String → List SchedulerOutcomeEntry → Result StoreError (Unit {0})
check_run_entries run_id [] = ok tt
check_run_entries run_id (e ∷ es) = do
  reject (not (is_text run_id e.observation.run_id))
      (bad_input "scheduler outcome contains a mismatched run_id")
  reject (not (one_of ("rpc.completed" ∷ "scheduler.task.outcome" ∷ []) e.audit.event))
      (bad_input "run-bound scheduler outcome audit event is invalid")
  check_run_entries run_id es

-- One entry, of a job that is invalid.
unfoldable pub is_invalid_job_entry : List SchedulerOutcomeEntry → Bool
is_invalid_job_entry (e ∷ []) =
    not (is_some e.observation.run_id)
    && decided (text_discrete e.audit.event "scheduler.job.invalid")
    && has_ok false e.observation
    && is_text "SCHEDULER_JOB_INVALID" e.observation.error_code
is_invalid_job_entry _ = false

unfoldable pub check_run_binding :
    SchedulerOutcomeWrite → Option String → Result StoreError (Unit {0})
check_run_binding outcome none =
    reject (not (is_invalid_job_entry outcome.entries))
      (bad_input "runless scheduler outcome must contain one failed scheduler.job.invalid entry")
check_run_binding outcome (some run_id) = do
  validate_safe_id "scheduler run_id" run_id 128
  reject (is_some outcome.job_clock)
      (bad_input "run-bound scheduler outcome cannot update job clocks")
  check_run_entries run_id outcome.entries

unfoldable pub check_methods : String → List SchedulerOutcomeEntry → Result StoreError (Unit {0})
check_methods kind [] = ok tt
check_methods kind (e ∷ es) = do
  reject (not (scheduler_job_kind_allows_method kind e.observation.method))
      (bad_input "scheduler outcome method is not allowed for job kind")
  check_methods kind es

-- The greatest time of the entries, as a text.
unfoldable pub latest_text : String → List SchedulerOutcomeEntry → String
latest_text best [] = best
latest_text best (e ∷ es) =
    latest_text
      (if before (codes best) (codes e.observation.observed_at)
        then e.observation.observed_at
        else best)
      es

unfoldable pub is_stored : String → List ProbeObservationRecord → Bool
is_stored id [] = false
is_stored id (o ∷ os) = decided (text_discrete o.observation_id id) || is_stored id os

abbrev pub with_summary : ProbeObservationRecord → Value → ProbeObservationRecord
with_summary o summary = record {
  observation_id = o.observation_id;
  run_id = o.run_id;
  node_id = o.node_id;
  endpoint_id = o.endpoint_id;
  method = o.method;
  is_ok = o.is_ok;
  error_code = o.error_code;
  duration_ms = o.duration_ms;
  observed_at = o.observed_at;
  expires_at = o.expires_at;
  result_class = o.result_class;
  summary_json = summary;
}

module _ (clock : SchedulerLibraries) where
  unfoldable pub validate_optional_time : String → Option String → Result StoreError (Unit {0})
  validate_optional_time message none = ok tt
  validate_optional_time message (some text) =
      validate_bounded_rfc3339 clock text message >>= λ _. ok tt

  unfoldable pub validate_scheduler_observation :
      ProbeObservationRecord → Result StoreError (Unit {0})
  validate_scheduler_observation o = do
    validate_safe_id "scheduler observation_id" o.observation_id 128
    validate_optional_id "scheduler observation run_id" o.run_id 128
    validate_optional_id "scheduler observation node_id" o.node_id 128
    validate_optional_id "scheduler observation endpoint_id" o.endpoint_id 128
    reject (not (one_of observed_methods o.method))
        (bad_input "scheduler observation method is invalid")
    validate_optional_id "scheduler observation error_code" o.error_code 64
    reject (not (is_some o.is_ok) || not (is_some o.duration_ms))
        (bad_input "scheduler observation ok and duration_ms are required")
    reject (is_inconsistent o.is_ok o.error_code)
        (bad_input "scheduler observation result and error_code are inconsistent")
    at ← validate_bounded_rfc3339 clock o.observed_at "scheduler observed_at"
    validate_optional_time "scheduler expires_at" o.expires_at
    reject
        (not (
          one_of ("controller_rpc_summary" ∷ "low_sensitive_summary" ∷ "scheduler_summary" ∷ [])
            o.result_class))
        (bad_input "scheduler observation result_class is invalid")
    reject (not (clock.is_low_sensitive o.summary_json)) (bad_input "observation summary")

  unfoldable pub check_entries : List SchedulerOutcomeEntry → String → Result StoreError (Unit {0})
  check_entries [] actor = ok tt
  check_entries (e ∷ es) actor = do
    validate_scheduler_observation e.observation
    validate_scheduler_outcome_audit e.audit e.observation actor
    check_entries es actor

  unfoldable pub check_outcome_clock :
      String → Option SchedulerJobClockUpdate → Result StoreError (Unit {0})
  check_outcome_clock job_id none = ok tt
  check_outcome_clock job_id (some update) = do
    validate_scheduler_job_clock clock update
    reject (not (decided (text_discrete update.job_id job_id)))
        (bad_input "scheduler outcome clock job_id does not match outcome")

  unfoldable pub validate_scheduler_outcome :
      SchedulerOutcomeWrite → String → Result StoreError (Unit {0})
  validate_scheduler_outcome outcome actor = do
    validate_actor actor
    validate_safe_id "scheduler job_id" outcome.job_id 128
    reject
        (length outcome.entries == 0 || ltb max_scheduler_outcome_entries (length outcome.entries))
        (bad_input "scheduler outcome entries")
    check_run_binding outcome outcome.run_id
    check_outcome_clock outcome.job_id outcome.job_clock
    check_entries outcome.entries actor

  unfoldable pub check_run :
      SchedulerOutcomeWrite → Option String → SchedulerStore → Result StoreError (Unit {0})
  check_run outcome none st =
      reject (not (is_some (find_job outcome.job_id st)))
        (StoreError.observability_job_not_found outcome.job_id)
  check_run outcome (some run_id) st = do
    run ← ok_or (find_run run_id st) (StoreError.observability_run_not_found run_id)
    reject (not (is_text outcome.job_id run.job_id))
        (bad_input "scheduler outcome job_id does not match run")
    ensure_active_scheduler_run_claim_tx clock outcome.job_id run_id
        (latest_text "" outcome.entries) st
    reject (not (is_running run)) (StoreError.observability_run_not_running run_id)
    job ← ok_or (find_job outcome.job_id st) (StoreError.observability_job_not_found outcome.job_id)
    validate_scheduler_job_kind job.kind
    check_methods job.kind outcome.entries

  -- `INSERT INTO probe_observations`, whose key is the identifier, and the audit event.
  unfoldable pub insert_entry :
      SchedulerOutcomeEntry → SchedulerStore → Result StoreError SchedulerStore
  insert_entry e st = do
    summary ← ok_or (clock.canonical_summary e.observation) (bad_input "observation summary")
    reject (is_stored e.observation.observation_id st.observations) StoreError.sqlite
    ok (
        add_audit (SchedulerAudit.outcome_event e.audit)
          (add_observation (with_summary e.observation summary) st))

  unfoldable pub insert_entries :
      List SchedulerOutcomeEntry → SchedulerStore → Result StoreError SchedulerStore
  insert_entries [] st = ok st
  insert_entries (e ∷ es) st = insert_entry e st >>= λ st1. insert_entries es st1

  unfoldable pub update_clock :
      Option SchedulerJobClockUpdate → SchedulerStore → Result StoreError SchedulerStore
  update_clock none st = ok st
  update_clock (some update) st = update_scheduler_job_clock_tx clock update st

  unfoldable pub write_scheduler_outcome :
      SchedulerOutcomeWrite → String → SchedulerStore → Result StoreError SchedulerStore
  write_scheduler_outcome outcome actor st = do
    validate_scheduler_outcome outcome actor
    check_run outcome outcome.run_id st
    st1 ← insert_entries outcome.entries st
    update_clock outcome.job_clock st1
