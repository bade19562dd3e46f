-- ===== src/Cli/Scheduler/Runs.antt =====
-- The start and the finish of a scheduler run, and the clock of its job.
use ocserv_fleet_agent.Cli.Health.Latest.{has_ok}
use ocserv_fleet_agent.Cli.Input.{StoreError, validate_actor}
use ocserv_fleet_agent.Cli.Scheduler.Claims.{is_text, summary_of, finish_run, is_running}
use ocserv_fleet_agent.Cli.Scheduler.Leases.{is_held_by, text_after}
use ocserv_fleet_agent.Cli.Health.Records.{ProbeObservationRecord}
use ocserv_fleet_agent.Common.Int.{ℤ, ltb_ℤ, ℤ_discrete}
use ocserv_fleet_agent.Cli.Scheduler.Checks.{
  SchedulerLibraries, expires_after, validate_scheduler_claim, validate_bounded_rfc3339,
  validate_safe_id, bad_input, validate_scheduler_job_kind, validate_scheduler_job_clock,
}
use ocserv_fleet_agent.Cli.Scheduler.Records.{
  SchedulerRunStart, ClaimRow, RunStatus, JobRow, RunSummary, SchedulerJobClockUpdate,
  SchedulerStore, SchedulerJobClaim, RunRow, SchedulerRunFinish, find_claim, put_claim, find_run,
  put_run, find_job, put_job, add_audit, SchedulerAudit,
}
use ocserv_fleet_agent.Common.{
  ℕ, Option, String, List, if◌then◌else◌, Bool, none, some, ◌==◌, true, Result, is_some, ◌∷◌, false,
  ◌&&◌, suc, ok, ◌>>◌, ◌>>=◌, ok_or, err, [], reject, not, decided, text_discrete,
}

abbrev pub running_summary : Option String → Option String → RunSummary
running_summary job_id kind = record {
  job_id = job_id;
  kind = kind;
  status = RunStatus.running;
  observations = none;
  failed_observations = none;
}

abbrev pub started_run : SchedulerRunStart → RunSummary → RunRow
started_run start summary = record {
  job_id = some start.job_id;
  started_at = start.started_at;
  finished_at = none;
  status = RunStatus.running;
  triggered_by = "scheduler.run.once";
  summary = summary;
}

-- The row with this run, or with none.
abbrev pub with_run : ClaimRow → Option String → String → ClaimRow
with_run row run_id now = record {
  owner_id = row.owner_id;
  fence_token = row.fence_token;
  claimed_at = row.claimed_at;
  lease_expires_at = row.lease_expires_at;
  active_run_id = run_id;
  updated_at = now;
}

-- `COUNT(*)` of a run's observations, and of those that failed.
unfoldable pub observation_count : String → List ProbeObservationRecord → ℕ
observation_count run_id [] = 0
observation_count run_id (o ∷ rest) =
    let n = observation_count run_id rest in if is_text run_id o.run_id then suc n else n

unfoldable pub failed_count : String → List ProbeObservationRecord → ℕ
failed_count run_id [] = 0
failed_count run_id (o ∷ rest) =
    let n = failed_count run_id rest in
    if is_text run_id o.run_id && has_ok false o then suc n else n

unfoldable pub outcome_status : ℕ → ℕ → RunStatus
outcome_status observations failures =
    if observations == 0
    then RunStatus.skipped
    else if failures == 0
    then RunStatus.succeeded
    else RunStatus.failed

abbrev pub is_failed : RunStatus → Bool
is_failed RunStatus.failed = true
is_failed _ = false

abbrev pub clocked_job : JobRow → SchedulerJobClockUpdate → JobRow
clocked_job job update = record {
  kind = job.kind;
  is_enabled = job.is_enabled;
  next_run_at = some update.next_run_at;
  last_run_at = some update.last_run_at;
}

-- `Store::update_observability_job_run_times`: both times of a job are overwritten, with no check.
abbrev pub timed_job : JobRow → Option String → Option String → JobRow
timed_job job next_run_at last_run_at = record {
  kind = job.kind;
  is_enabled = job.is_enabled;
  next_run_at = next_run_at;
  last_run_at = last_run_at;
}

unfoldable pub update_observability_job_run_times :
    String → Option String → Option String → SchedulerStore → Result StoreError SchedulerStore
update_observability_job_run_times job_id next_run_at last_run_at st = elim (find_job job_id st) [
  | none ↦ ok st
  | some job ↦ ok (put_job job_id (timed_job job next_run_at last_run_at) st)
]

-- `UPDATE scheduler_job_claims SET active_run_id = NULL WHERE job_id = ? AND active_run_id = ?`
unfoldable pub clear_run : String → String → String → SchedulerStore → SchedulerStore
clear_run job_id run_id now st = elim (find_claim job_id st) [
  | none ↦ st
  | some row ↦
      if is_text run_id row.active_run_id then put_claim job_id (with_run row none now) st else st
]

module _ (clock : SchedulerLibraries) where
  unfoldable pub check_claim :
      SchedulerRunStart → Option SchedulerJobClaim → Result StoreError (Unit {0})
  check_claim start none = ok tt
  check_claim start (some claim) = do
    validate_scheduler_claim clock claim
    reject (not (decided (text_discrete claim.job_id start.job_id)))
        (bad_input "scheduler claim job_id does not match run start")

  -- The claim's row takes the run, if it is the claim's, has no run and has not expired.
  unfoldable pub attach_run :
      SchedulerRunStart
      → Option SchedulerJobClaim
      → SchedulerStore
      → Result StoreError SchedulerStore
  attach_run start none st = ok st
  attach_run start (some claim) st = do
    row ← ok_or (find_claim claim.job_id st) (StoreError.scheduler_claim_lost start.job_id)
    reject
        (not (
          is_held_by clock claim row
          && not (is_some row.active_run_id)
          && text_after clock row.lease_expires_at start.started_at))
        (StoreError.scheduler_claim_lost start.job_id)
    ok (put_claim claim.job_id (with_run row (some start.run_id) start.started_at) st)

  -- `INSERT INTO observability_runs`, whose key is the identifier.
  unfoldable pub insert_observability_run_tx :
      String → RunRow → SchedulerStore → Result StoreError SchedulerStore
  insert_observability_run_tx run_id run st =
      if is_some (find_run run_id st) then err StoreError.sqlite else ok (put_run run_id run st)

  unfoldable pub write_scheduler_run_start_with_claim :
      SchedulerRunStart
      → Option SchedulerJobClaim
      → String
      → SchedulerStore
      → Result StoreError SchedulerStore
  write_scheduler_run_start_with_claim start claim actor st = do
    validate_actor actor
    validate_safe_id "scheduler run_id" start.run_id 128
    validate_safe_id "scheduler job_id" start.job_id 128
    at ← validate_bounded_rfc3339 clock start.started_at "scheduler started_at"
    check_claim start claim
    job ← ok_or (find_job start.job_id st) (StoreError.observability_job_not_found start.job_id)
    validate_scheduler_job_kind job.kind
    reject (not job.is_enabled) (bad_input "scheduler job is disabled")
    let summary = running_summary (some start.job_id) (some job.kind)
    st1 ← insert_observability_run_tx start.run_id (started_run start summary) st
    st2 ← attach_run start claim st1
    ok (
        add_audit
          (SchedulerAudit.run_event "scheduler.run.start" start.run_id true none summary actor) st2)

  unfoldable pub is_active_claim : String → ℤ → ClaimRow → Bool
  is_active_claim run_id at row =
      is_some row.owner_id
      && is_text run_id row.active_run_id
      && expires_after clock row.lease_expires_at at

  -- A job without a claim row needs none.
  unfoldable pub ensure_active_scheduler_run_claim_tx :
      String → String → String → SchedulerStore → Result StoreError (Unit {0})
  ensure_active_scheduler_run_claim_tx job_id run_id check_at st = elim (find_claim job_id st) [
    | none ↦ ok tt
    | some row ↦ elim (clock.parse_rfc3339 check_at) [
      | none ↦ err (bad_input "scheduler claim check timestamp is invalid")
      | some at ↦
          reject (not (is_active_claim run_id at row)) (StoreError.scheduler_claim_lost job_id)
    ]
  ]

  -- The next run may not go back while the last run stays.
  unfoldable pub check_next : Option String → ℤ → Result StoreError (Unit {0})
  check_next none proposed = ok tt
  check_next (some text) proposed = do
    existing ← validate_bounded_rfc3339 clock text "stored scheduler next_run_at"
    reject (ltb_ℤ proposed existing)
        (bad_input "scheduler job clock update would regress next_run_at")

  unfoldable pub check_clock : Option String → Option String → ℤ → ℤ → Result StoreError (Unit {0})
  check_clock none next proposed_last proposed_next = ok tt
  check_clock (some text) next proposed_last proposed_next = do
    existing ← validate_bounded_rfc3339 clock text "stored scheduler last_run_at"
    reject (ltb_ℤ proposed_last existing)
        (bad_input "scheduler job clock update would regress last_run_at")
    if decided (ℤ_discrete existing proposed_last) then check_next next proposed_next else ok tt

  unfoldable pub update_scheduler_job_clock_tx :
      SchedulerJobClockUpdate → SchedulerStore → Result StoreError SchedulerStore
  update_scheduler_job_clock_tx update st = do
    job ← ok_or (find_job update.job_id st) (StoreError.observability_job_not_found update.job_id)
    next ← validate_bounded_rfc3339 clock update.next_run_at "scheduler next_run_at"
    last ← validate_bounded_rfc3339 clock update.last_run_at "scheduler last_run_at"
    check_clock job.last_run_at job.next_run_at last next
    ok (put_job update.job_id (clocked_job job update) st)

  -- The run did not end before it started.
  unfoldable pub check_order : String → RunRow → Result StoreError (Unit {0})
  check_order finished_at run = do
    finished ← ok_or (clock.parse_rfc3339 finished_at) (bad_input "scheduler finished_at")
    started ←
        ok_or (clock.parse_rfc3339 run.started_at)
          (bad_input "stored scheduler started_at is not bounded RFC3339")
    reject (ltb_ℤ finished started) (bad_input "scheduler finished_at must not precede started_at")

  -- What is written when every check has passed.
  unfoldable pub finish_writes :
      SchedulerRunFinish
      → RunRow
      → JobRow
      → String
      → SchedulerStore
      → Result StoreError SchedulerStore
  finish_writes finish run job actor st = do
    let observations = observation_count finish.run_id st.observations
    let failures = failed_count finish.run_id st.observations
    let status = outcome_status observations failures
    let summary = summary_of run.job_id (some job.kind) status observations failures
    let st1 = put_run finish.run_id (finish_run run finish.finished_at status summary) st
    st2 ← update_scheduler_job_clock_tx finish.job_clock st1
    ok (
        add_audit
          (SchedulerAudit.run_event "scheduler.run.finish" finish.run_id (not (is_failed status))
            none summary actor)
          (clear_run finish.job_clock.job_id finish.run_id finish.finished_at st2))

  unfoldable pub write_scheduler_run_finish :
      SchedulerRunFinish → String → SchedulerStore → Result StoreError SchedulerStore
  write_scheduler_run_finish finish actor st = do
    validate_actor actor
    validate_safe_id "scheduler run_id" finish.run_id 128
    at ← validate_bounded_rfc3339 clock finish.finished_at "scheduler finished_at"
    validate_scheduler_job_clock clock finish.job_clock
    reject (not (decided (text_discrete finish.job_clock.last_run_at finish.finished_at)))
        (bad_input "scheduler last_run_at must equal finished_at")
    run ← ok_or (find_run finish.run_id st) (StoreError.observability_run_not_found finish.run_id)
    reject (not (is_running run)) (StoreError.observability_run_not_running finish.run_id)
    reject (not (is_text finish.job_clock.job_id run.job_id))
        (bad_input "scheduler finish job_id does not match run")
    ensure_active_scheduler_run_claim_tx finish.job_clock.job_id finish.run_id finish.finished_at st
    check_order finish.finished_at run
    job ←
        ok_or (find_job finish.job_clock.job_id st)
          (StoreError.observability_job_not_found finish.job_clock.job_id)
    validate_scheduler_job_kind job.kind
    finish_writes finish run job actor st
