-- ===== src/Tests/Scheduler.antt =====
-- The claims of one job: two workers, a run that the first leaves behind, and the theorems there.
use ocserv_fleet_agent.Cli.Scheduler.Outcomes.{
  scheduler_job_kind_allows_method, validate_scheduler_outcome_audit, check_run_entries,
  is_invalid_job_entry, check_run_binding, check_methods, latest_text, is_stored,
  validate_optional_time, validate_scheduler_observation, check_entries, check_outcome_clock,
  validate_scheduler_outcome, check_run, insert_entry, insert_entries, update_clock,
  write_scheduler_outcome,
}
use ocserv_fleet_agent.Cli.Health.Records.{ProbeObservationRecord}
use ocserv_fleet_agent.Protocol.Method.{one_of, classify_phase_one_method, ocserv_version}
use ocserv_fleet_agent.Cli.Input.{
  is_whitespace, trim_start, trim_end, byte_len, validate_printable_text, validate_actor,
  validate_reason,
}
use ocserv_fleet_agent.Cli.Scheduler.Recovery.{IsStopped, acquire-IsStopped}
use ocserv_fleet_agent.Cli.Scheduler.Exclusive.{IsHeld, IsForeign, run_all-IsHeld, acquired-IsHeld}
use ocserv_fleet_agent.Cli.Scheduler.Runs.{
  running_summary, with_run, observation_count, failed_count, started_run, outcome_status,
  clear_run, check_claim, attach_run, insert_observability_run_tx,
  write_scheduler_run_start_with_claim, is_active_claim, ensure_active_scheduler_run_claim_tx,
  check_next, check_clock, update_scheduler_job_clock_tx, check_order, finish_writes,
  write_scheduler_run_finish,
}
use ocserv_fleet_agent.Cli.Scheduler.Steps.{Operation, step, run_all}
use ocserv_fleet_agent.Common.Assoc.{lookup, insert, remove}
use ocserv_fleet_agent.Cli.Scheduler.JobClock.{IsLater, last_run, last_run-run_all}
use ocserv_fleet_agent.Cli.Scheduler.Fence.{IsRefused, superseded-IsRefused}
use ocserv_fleet_agent.Cli.Scheduler.Claims.{
  acquire_scheduler_claim_tx, claimed_row, new_claim, audit_claim, recovery_time, fail_run,
  recover_expired_scheduler_run_tx, summary_of, recover_active_run, write_claim, finish_run,
  claim_scheduler_job, claim_due_scheduler_job, is_candidate, is_earlier_job, earliest,
  claim_next_due_scheduler_job,
}
use ocserv_fleet_agent.Cli.Scheduler.Leases.{renew_scheduler_job_claim, release_scheduler_job_claim}
use ocserv_fleet_agent.Cli.Scheduler.Records.{
  JobRow, SchedulerStore, ClaimRow, SchedulerJobClaim, SchedulerRunStart, RunSummary, add_audit,
  put_claim, SchedulerAudit, put_run, RunStatus, SchedulerRunFinish, AuditEvent,
  SchedulerOutcomeWrite, find_run,
}
use ocserv_fleet_agent.Cli.Scheduler.Checks.{
  SchedulerLibraries, validate_safe_id, validate_optional_id, validate_u64_range,
  validate_scheduler_job_kind, validate_bounded_rfc3339, validate_scheduler_claim_input,
  validate_scheduler_claim, scheduler_lease_expiry, validate_scheduler_job_clock,
}
use ocserv_fleet_agent.Protocol.Json.{Value}
use ocserv_fleet_agent.Common.Int.{ℤ, pos, negsuc, ◌+ℤ◌, ◌-ℤ◌, scale, ℤ_discrete}
use ocserv_fleet_agent.Common.{
  String, text_discrete, List, ◌<◌, Option, true, ◌∷◌, before, All, if◌then◌else◌, none, [], some,
  decided, ◌==◌, false, ◌≡◌, arith, ok, refl,
}

abbrev read_time : String → Option ℤ
read_time text =
    if decided (text_discrete text "0s")
    then some (pos 0)
    else if decided (text_discrete text "2s")
    then some (pos 2000000000)
    else if decided (text_discrete text "5s")
    then some (pos 5000000000)
    else if decided (text_discrete text "9s")
    then some (pos 9000000000)
    else none

abbrev format : ℤ → Option String
format (pos n) = if n == 5000000000 then some "5s" else some "99s"
format (negsuc n) = none

abbrev clock : SchedulerLibraries
clock = record {
  parse_rfc3339 = read_time;
  format_rfc3339 = format;
  is_low_sensitive = (λ v. true);
  canonical_summary = (λ o. some o.summary_json);
}

abbrev job : JobRow
job = record {
  kind = "ocserv-status";
  is_enabled = true;
  next_run_at = some "0s";
  last_run_at = none;
}

abbrev empty : SchedulerStore
empty = record { jobs = ("job-1", job) ∷ []; runs = []; claims = []; observations = []; audit = [] }

abbrev first_row : ClaimRow
first_row = claimed_row clock "worker-1" 1 "0s" "5s"

abbrev first_claim : SchedulerJobClaim
first_claim = new_claim clock "job-1" "worker-1" 1 "0s" "5s"

abbrev claimed : SchedulerStore
claimed =
    audit_claim "scheduler.claim.acquire" first_claim "operator" "acquired"
      (put_claim "job-1" first_row empty)

first_acquired :
    acquire_scheduler_claim_tx clock "job-1" "worker-1" "0s" 5 "operator" false empty
    ≡ ok (some first_claim, claimed)
unfolding text_discrete before recovery_time fail_run recover_expired_scheduler_run_tx
    recover_active_run write_claim acquire_scheduler_claim_tx claim_scheduler_job
    claim_due_scheduler_job is_candidate is_earlier_job earliest claim_next_due_scheduler_job
    renew_scheduler_job_claim release_scheduler_job_claim validate_safe_id validate_optional_id
    validate_u64_range validate_scheduler_job_kind validate_bounded_rfc3339
    validate_scheduler_claim_input validate_scheduler_claim scheduler_lease_expiry
    validate_scheduler_job_clock lookup insert remove ◌+ℤ◌ ◌-ℤ◌ scale ℤ_discrete is_whitespace
    trim_start trim_end byte_len validate_printable_text validate_actor validate_reason one_of
    classify_phase_one_method
first_acquired = refl

abbrev run_start : SchedulerRunStart
run_start = record { run_id = "run-1"; job_id = "job-1"; started_at = "2s" }

abbrev between : List Operation
between = Operation.start run_start (some first_claim) "operator" ∷ []

abbrev summary : RunSummary
summary = running_summary (some "job-1") (some "ocserv-status")

abbrev running_store : SchedulerStore
running_store =
    add_audit (SchedulerAudit.run_event "scheduler.run.start" "run-1" true none summary "operator")
      (put_claim "job-1" (with_run first_row (some "run-1") "2s")
        (put_run "run-1" (started_run run_start summary) claimed))

run_started : run_all clock between claimed ≡ running_store
unfolding text_discrete before step run_all observation_count failed_count outcome_status clear_run
    check_claim attach_run insert_observability_run_tx write_scheduler_run_start_with_claim
    is_active_claim ensure_active_scheduler_run_claim_tx check_next check_clock
    update_scheduler_job_clock_tx check_order finish_writes write_scheduler_run_finish recovery_time
    fail_run recover_expired_scheduler_run_tx recover_active_run write_claim
    acquire_scheduler_claim_tx claim_scheduler_job claim_due_scheduler_job is_candidate
    is_earlier_job earliest claim_next_due_scheduler_job renew_scheduler_job_claim
    release_scheduler_job_claim validate_safe_id validate_optional_id validate_u64_range
    validate_scheduler_job_kind validate_bounded_rfc3339 validate_scheduler_claim_input
    validate_scheduler_claim scheduler_lease_expiry validate_scheduler_job_clock lookup insert
    remove ◌+ℤ◌ ◌-ℤ◌ scale ℤ_discrete is_whitespace trim_start trim_end byte_len
    validate_printable_text validate_actor validate_reason one_of classify_phase_one_method
run_started = refl

abbrev second_claim : SchedulerJobClaim
second_claim = new_claim clock "job-1" "worker-2" 2 "9s" "99s"

abbrev reclaimed : SchedulerStore
reclaimed = audit_claim "scheduler.claim.acquire" second_claim "operator" "acquired" (
    put_claim "job-1" (claimed_row clock "worker-2" 2 "9s" "99s") (
      add_audit
        (SchedulerAudit.run_event "scheduler.run.recover" "run-1" false
          (some "SCHEDULER_LEASE_EXPIRED")
          (summary_of (some "job-1") (some "ocserv-status") RunStatus.failed 0 0) "operator")
        (put_run "run-1"
          (finish_run (started_run run_start summary) "9s" RunStatus.failed
            (summary_of (some "job-1") (some "ocserv-status") RunStatus.failed 0 0))
          running_store)))

second_acquired :
    acquire_scheduler_claim_tx clock "job-1" "worker-2" "9s" 5 "operator" true running_store
    ≡ ok (some second_claim, reclaimed)
unfolding text_discrete before recovery_time fail_run recover_expired_scheduler_run_tx
    recover_active_run write_claim acquire_scheduler_claim_tx claim_scheduler_job
    claim_due_scheduler_job is_candidate is_earlier_job earliest claim_next_due_scheduler_job
    renew_scheduler_job_claim release_scheduler_job_claim validate_safe_id validate_optional_id
    validate_u64_range validate_scheduler_job_kind validate_bounded_rfc3339
    validate_scheduler_claim_input validate_scheduler_claim scheduler_lease_expiry
    validate_scheduler_job_clock lookup insert remove ◌+ℤ◌ ◌-ℤ◌ scale ℤ_discrete is_whitespace
    trim_start trim_end byte_len validate_printable_text validate_actor validate_reason one_of
    classify_phase_one_method
second_acquired = refl

second_acquired_after :
    acquire_scheduler_claim_tx clock "job-1" "worker-2" "9s" 5 "operator" true
      (run_all clock between claimed)
    ≡ ok (some second_claim, reclaimed)
second_acquired_after = rw run_started second_acquired

superseded-IsRefused_example :
    (first_claim.fence_token < second_claim.fence_token)
    × IsRefused clock first_claim (run_all clock [] reclaimed)
superseded-IsRefused_example =
    superseded-IsRefused clock "job-1" "worker-1" "0s" "worker-2" "9s" 5 5 "operator" "operator"
      false true empty claimed reclaimed first_claim second_claim between [] first_acquired
      second_acquired_after

abbrev observation : ProbeObservationRecord
observation = record {
  observation_id = "obs-1";
  run_id = some "run-1";
  node_id = some "node-a";
  endpoint_id = none;
  method = ocserv_version;
  is_ok = some true;
  error_code = none;
  duration_ms = some 40;
  observed_at = "2s";
  expires_at = none;
  result_class = "low_sensitive_summary";
  summary_json = Value.null;
}

abbrev audit_event : AuditEvent
audit_event = record {
  actor = "operator";
  event = "rpc.completed";
  node_id = some "node-a";
  endpoint_id = none;
  method = some ocserv_version;
  is_ok = some true;
  error_code = none;
  duration_ms = some 40;
}

abbrev outcome : SchedulerOutcomeWrite
outcome = record {
  job_id = "job-1";
  run_id = some "run-1";
  entries = record { observation = observation; audit = audit_event } ∷ [];
  job_clock = none;
}

abbrev run_finish : SchedulerRunFinish
run_finish = record {
  run_id = "run-1";
  finished_at = "2s";
  job_clock = record { job_id = "job-1"; next_run_at = "9s"; last_run_at = "2s" };
}

abbrev finished : List Operation
finished =
    Operation.start run_start (some first_claim) "operator"
    ∷ Operation.observe outcome "operator"
    ∷ Operation.complete run_finish "operator"
    ∷ []

abbrev status_in : SchedulerStore → Option RunStatus
status_in st = elim (find_run "run-1" st) [ none ↦ none | some run ↦ some run.status ]

-- The run has one observation, which did not fail.
run_succeeded : status_in (run_all clock finished claimed) ≡ some RunStatus.succeeded
unfolding text_discrete before step run_all scheduler_job_kind_allows_method
    validate_scheduler_outcome_audit check_run_entries is_invalid_job_entry check_run_binding
    check_methods latest_text is_stored validate_optional_time validate_scheduler_observation
    check_entries check_outcome_clock validate_scheduler_outcome check_run insert_entry
    insert_entries update_clock write_scheduler_outcome observation_count failed_count
    outcome_status clear_run check_claim attach_run insert_observability_run_tx
    write_scheduler_run_start_with_claim is_active_claim ensure_active_scheduler_run_claim_tx
    check_next check_clock update_scheduler_job_clock_tx check_order finish_writes
    write_scheduler_run_finish recovery_time fail_run recover_expired_scheduler_run_tx
    recover_active_run write_claim acquire_scheduler_claim_tx claim_scheduler_job
    claim_due_scheduler_job is_candidate is_earlier_job earliest claim_next_due_scheduler_job
    renew_scheduler_job_claim release_scheduler_job_claim validate_safe_id validate_optional_id
    validate_u64_range validate_scheduler_job_kind validate_bounded_rfc3339
    validate_scheduler_claim_input validate_scheduler_claim scheduler_lease_expiry
    validate_scheduler_job_clock lookup insert remove ◌+ℤ◌ ◌-ℤ◌ scale ℤ_discrete is_whitespace
    trim_start trim_end byte_len validate_printable_text validate_actor validate_reason one_of
    classify_phase_one_method
run_succeeded = refl

run_finished : last_run clock "job-1" (run_all clock finished claimed) ≡ some (pos 2000000000)
unfolding text_discrete before step run_all scheduler_job_kind_allows_method
    validate_scheduler_outcome_audit check_run_entries is_invalid_job_entry check_run_binding
    check_methods latest_text is_stored validate_optional_time validate_scheduler_observation
    check_entries check_outcome_clock validate_scheduler_outcome check_run insert_entry
    insert_entries update_clock write_scheduler_outcome observation_count failed_count
    outcome_status clear_run check_claim attach_run insert_observability_run_tx
    write_scheduler_run_start_with_claim is_active_claim ensure_active_scheduler_run_claim_tx
    check_next check_clock update_scheduler_job_clock_tx check_order finish_writes
    write_scheduler_run_finish recovery_time fail_run recover_expired_scheduler_run_tx
    recover_active_run write_claim acquire_scheduler_claim_tx claim_scheduler_job
    claim_due_scheduler_job is_candidate is_earlier_job earliest claim_next_due_scheduler_job
    renew_scheduler_job_claim release_scheduler_job_claim validate_safe_id validate_optional_id
    validate_u64_range validate_scheduler_job_kind validate_bounded_rfc3339
    validate_scheduler_claim_input validate_scheduler_claim scheduler_lease_expiry
    validate_scheduler_job_clock lookup insert remove ◌+ℤ◌ ◌-ℤ◌ scale ℤ_discrete is_whitespace
    trim_start trim_end byte_len validate_printable_text validate_actor validate_reason one_of
    classify_phase_one_method
run_finished = refl

last_run-run_all_example :
    IsLater
      (last_run clock "job-1" claimed)
      (last_run clock "job-1" (run_all clock finished claimed))
last_run-run_all_example =
    last_run-run_all clock finished claimed "job-1" (refl, (refl, (refl, tt)))

acquire-IsStopped_example : IsStopped clock "run-1" running_store reclaimed
unfolding lookup insert text_discrete
acquire-IsStopped_example =
    acquire-IsStopped clock "job-1" "worker-2" "9s" 5 "operator" true running_store reclaimed
      second_claim (with_run first_row (some "run-1") "2s") "run-1" second_acquired refl refl

abbrev rival : List Operation
rival = Operation.claim "job-1" "worker-2" "2s" 5 "operator" ∷ []

foreign : All (IsForeign clock "job-1" "worker-1" 1 (pos 5000000000)) rival
unfolding text_discrete
foreign =
    (record { earlier = λ now t e p. ground (arith, e, p); other = λ c e. ground (arith, e) }, tt)

run_all-IsHeld_example : IsHeld clock "job-1" "worker-1" 1 "5s" (run_all clock rival claimed)
unfolding text_discrete
run_all-IsHeld_example =
    run_all-IsHeld clock "job-1" "worker-1" 1 "5s" (pos 5000000000) refl rival claimed foreign (
      acquired-IsHeld clock "job-1" "worker-1" "0s" 5 "operator" false empty claimed first_claim
        first_acquired)
