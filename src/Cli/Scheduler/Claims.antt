-- ===== src/Cli/Scheduler/Claims.antt =====
-- Acquiring the claim of a job. A transaction that fails leaves the store as
-- it was, so each call gives the store after it only when it succeeds.
use ocserv_fleet_agent.Cli.Input.{StoreError}
use ocserv_fleet_agent.Common.Int.{ℤ, ltb_ℤ}
use ocserv_fleet_agent.Cli.Scheduler.Checks.{
  SchedulerLibraries, expires_after, validate_safe_id, validate_scheduler_claim_input, bad_input,
  scheduler_lease_expiry, i64_max,
}
use ocserv_fleet_agent.Cli.Scheduler.Records.{
  RunRow, RunStatus, RunSummary, SchedulerJobClaim, SchedulerStore, ClaimRow, JobRow, add_audit,
  SchedulerAudit, find_claim, find_job, find_run, put_run, put_claim,
}
use ocserv_fleet_agent.Common.{
  [], ◌∷◌, ℕ, Option, String, Bool, Result, List, some, true, ◌&&◌, false, none, before, not,
  decided, ok, is_some, ◌||◌, codes, ◌>>=◌, ◌>>◌, text_discrete, ok_or, reject, ltb, if◌then◌else◌,
  ◌+◌,
}

abbrev pub summary_of : Option String → Option String → RunStatus → ℕ → ℕ → RunSummary
summary_of job_id kind status observations failures = record {
  job_id = job_id;
  kind = kind;
  status = status;
  observations = some observations;
  failed_observations = some failures;
}

abbrev pub finish_run : RunRow → String → RunStatus → RunSummary → RunRow
finish_run run finished_at status summary = record {
  job_id = run.job_id;
  started_at = run.started_at;
  finished_at = some finished_at;
  status = status;
  triggered_by = run.triggered_by;
  summary = summary;
}

abbrev pub is_running_status : RunStatus → Bool
is_running_status RunStatus.running = true
is_running_status _ = false

-- `status = 'running' AND finished_at IS NULL`
abbrev pub is_running : RunRow → Bool
is_running run = is_running_status run.status && not (is_some run.finished_at)

abbrev pub is_text : String → Option String → Bool
is_text s none = false
is_text s (some t) = decided (text_discrete t s)

-- `AuditEvent` of a claim.
abbrev pub audit_claim :
    String → SchedulerJobClaim → String → String → SchedulerStore → SchedulerStore
audit_claim name claim actor state st =
    add_audit (SchedulerAudit.claim_event name claim actor state) st

module _ (clock : SchedulerLibraries) where
  -- The time a recovered run ends: not before it started.
  unfoldable pub recovery_time : RunRow → String → Result StoreError String
  recovery_time run recovered_at = do
    started_at ←
        ok_or (clock.parse_rfc3339 run.started_at)
          (bad_input "stored scheduler started_at is invalid")
    recovered ← ok_or (clock.parse_rfc3339 recovered_at) (bad_input "scheduler claim timestamp")
    ok (if ltb_ℤ recovered started_at then run.started_at else recovered_at)

  unfoldable pub fail_run :
      String → String → RunRow → String → String → SchedulerStore → Result StoreError SchedulerStore
  fail_run job_id run_id run recovered_at actor st = do
    finished_at ← recovery_time run recovered_at
    job ← ok_or (find_job job_id st) (StoreError.observability_job_not_found job_id)
    let summary = summary_of (some job_id) (some job.kind) RunStatus.failed 0 0
    ok (
        add_audit
          (SchedulerAudit.run_event "scheduler.run.recover" run_id false
            (some "SCHEDULER_LEASE_EXPIRED") summary actor)
          (put_run run_id (finish_run run finished_at RunStatus.failed summary) st))

  unfoldable pub recover_expired_scheduler_run_tx :
      String → String → String → String → SchedulerStore → Result StoreError SchedulerStore
  recover_expired_scheduler_run_tx job_id run_id recovered_at actor st = do
    run ← ok_or (find_run run_id st) (StoreError.observability_run_not_found run_id)
    reject (not (is_text job_id run.job_id))
        (bad_input "expired scheduler claim references a run for another job")
    if not (is_running run) then ok st else fail_run job_id run_id run recovered_at actor st

  unfoldable pub recover_active_run :
      String → Option String → String → String → SchedulerStore → Result StoreError SchedulerStore
  recover_active_run job_id none now actor st = ok st
  recover_active_run job_id (some run_id) now actor st =
      recover_expired_scheduler_run_tx job_id run_id now actor st

  -- No due time, one that cannot be read, or one that has come.
  abbrev pub is_due : Option String → ℤ → Bool
  is_due none at = true
  is_due (some due) at = elim (clock.parse_rfc3339 due) [
    | none ↦ true
    | some instant ↦ not (ltb_ℤ at instant)
  ]

  -- The row has an owner and its lease has not ended.
  abbrev pub is_live : Option ClaimRow → ℤ → Bool
  is_live none at = false
  is_live (some row) at = is_some row.owner_id && expires_after clock row.lease_expires_at at

  abbrev pub fence_of : Option ClaimRow → ℕ
  fence_of none = 0
  fence_of (some row) = row.fence_token

  abbrev pub run_of : Option ClaimRow → Option String
  run_of none = none
  run_of (some row) = row.active_run_id

  abbrev pub claimed_row : String → ℕ → String → String → ClaimRow
  claimed_row owner_id fence_token now lease_expires_at = record {
    owner_id = some owner_id;
    fence_token = fence_token;
    claimed_at = some now;
    lease_expires_at = some lease_expires_at;
    active_run_id = none;
    updated_at = now;
  }

  abbrev pub new_claim : String → String → ℕ → String → String → SchedulerJobClaim
  new_claim job_id owner_id fence_token now lease_expires_at = record {
    job_id = job_id;
    owner_id = owner_id;
    fence_token = fence_token;
    claimed_at = now;
    lease_expires_at = lease_expires_at;
    active_run_id = none;
  }

  -- A claim is written over the row that is there: its fence is the next one.
  unfoldable pub write_claim :
      String
      → String
      → String
      → ℕ
      → String
      → Option ClaimRow
      → SchedulerStore
      → Result StoreError (Option SchedulerJobClaim × SchedulerStore)
  write_claim job_id owner_id now lease_seconds actor existing st = do
    reject (ltb i64_max (fence_of existing + 1)) (bad_input "scheduler fence token is exhausted")
    let fence_token = fence_of existing + 1
    st1 ← recover_active_run job_id (run_of existing) now actor st
    lease_expires_at ← scheduler_lease_expiry clock now lease_seconds
    let claim = new_claim job_id owner_id fence_token now lease_expires_at
    ok (
      some claim,
      audit_claim "scheduler.claim.acquire" claim actor "acquired"
          (put_claim job_id (claimed_row owner_id fence_token now lease_expires_at) st1),
    )

  unfoldable pub acquire_scheduler_claim_tx :
      String
      → String
      → String
      → ℕ
      → String
      → Bool
      → SchedulerStore
      → Result StoreError (Option SchedulerJobClaim × SchedulerStore)
  acquire_scheduler_claim_tx job_id owner_id now lease_seconds actor require_due st = do
    job ← ok_or (find_job job_id st) (StoreError.observability_job_not_found job_id)
    at ← ok_or (clock.parse_rfc3339 now) (bad_input "scheduler claim timestamp")
    if not job.is_enabled
          || (require_due && not (is_due job.next_run_at at))
          || is_live (find_claim job_id st) at
        then ok (none, st)
        else write_claim job_id owner_id now lease_seconds actor (find_claim job_id st) st

  unfoldable pub claim_scheduler_job :
      String
      → String
      → String
      → ℕ
      → String
      → SchedulerStore
      → Result StoreError (Option SchedulerJobClaim × SchedulerStore)
  claim_scheduler_job job_id owner_id now lease_seconds actor st = do
    validate_safe_id "scheduler job_id" job_id 128
    validate_scheduler_claim_input clock owner_id now lease_seconds actor
    acquire_scheduler_claim_tx job_id owner_id now lease_seconds actor false st

  unfoldable pub claim_due_scheduler_job :
      String
      → String
      → String
      → ℕ
      → String
      → SchedulerStore
      → Result StoreError (Option SchedulerJobClaim × SchedulerStore)
  claim_due_scheduler_job job_id owner_id now lease_seconds actor st = do
    validate_safe_id "scheduler job_id" job_id 128
    validate_scheduler_claim_input clock owner_id now lease_seconds actor
    acquire_scheduler_claim_tx job_id owner_id now lease_seconds actor true st

  -- `column <= now` as texts, where the column may be NULL.
  abbrev pub text_at_most : Option String → String → Bool
  text_at_most none now = false
  text_at_most (some t) now = not (before (codes now) (codes t))

  -- The WHERE of the search for a due job, which compares the times as texts.
  unfoldable pub is_candidate : String → JobRow → String → SchedulerStore → Bool
  is_candidate job_id job now st =
      job.is_enabled
      && (not (is_some job.next_run_at) || text_at_most job.next_run_at now)
      && elim (find_claim job_id st) [
        | none ↦ true
        | some row ↦ not (is_some row.owner_id) || text_at_most row.lease_expires_at now
      ]

  abbrev pub due_text : JobRow → List ℕ
  due_text job = elim job.next_run_at [ none ↦ [] | some t ↦ codes t ]

  -- The order of the search: the due time, then the identifier.
  unfoldable pub is_earlier_job : (String × JobRow) → (String × JobRow) → Bool
  is_earlier_job (i, a) (j, b) =
      before (due_text a) (due_text b)
      || (not (before (due_text b) (due_text a)) && before (codes i) (codes j))

  unfoldable pub earliest :
      List (String × JobRow) → String → SchedulerStore → Option (String × JobRow)
  earliest [] now st = none
  earliest ((id, job) ∷ jobs) now st =
      let rest = earliest jobs now st in
      if not (is_candidate id job now st) then rest else elim rest [
        | none ↦ some (id, job)
        | some other ↦ if is_earlier_job other (id, job) then some other else some (id, job)
      ]

  unfoldable pub claim_next_due_scheduler_job :
      String
      → String
      → ℕ
      → String
      → SchedulerStore
      → Result StoreError (Option SchedulerJobClaim × SchedulerStore)
  claim_next_due_scheduler_job owner_id now lease_seconds actor st = do
    validate_scheduler_claim_input clock owner_id now lease_seconds actor
    elim (earliest st.jobs now st) [
      | none ↦ ok (none, st)
      | some (job_id, job) ↦
          acquire_scheduler_claim_tx job_id owner_id now lease_seconds actor true st
    ]
