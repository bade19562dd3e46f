-- ===== src/Cli/Scheduler/Leases.antt =====
-- Renewing and releasing the claim of a job, with the store as it was when a call fails.
use ocserv_fleet_agent.Cli.Input.{StoreError, validate_actor}
use ocserv_fleet_agent.Cli.Scheduler.Claims.{is_text, audit_claim}
use ocserv_fleet_agent.Cli.Scheduler.Records.{
  SchedulerJobClaim, ClaimRow, SchedulerStore, find_claim, put_claim,
}
use ocserv_fleet_agent.Cli.Scheduler.Checks.{
  SchedulerLibraries, validate_scheduler_claim, validate_scheduler_claim_input,
  scheduler_lease_expiry, validate_bounded_rfc3339,
}
use ocserv_fleet_agent.Common.{
  ℕ, Option, Bool, String, false, some, none, ◌&&◌, before, Result, ◌==◌, codes, ◌>>◌, ◌>>=◌, ok_or,
  reject, not, ok,
}

module _ (clock : SchedulerLibraries) where
  -- `owner_id = ?` and `fence_token = ?`
  abbrev pub is_held_by : SchedulerJobClaim → ClaimRow → Bool
  is_held_by claim row = is_text claim.owner_id row.owner_id && row.fence_token == claim.fence_token

  -- `lease_expires_at > ?`, as texts.
  abbrev pub text_after : Option String → String → Bool
  text_after none now = false
  text_after (some t) now = before (codes now) (codes t)

  abbrev pub renewed_row : ClaimRow → String → String → ClaimRow
  renewed_row row lease_expires_at now = record {
    owner_id = row.owner_id;
    fence_token = row.fence_token;
    claimed_at = row.claimed_at;
    lease_expires_at = some lease_expires_at;
    active_run_id = row.active_run_id;
    updated_at = now;
  }

  abbrev pub renewed_claim : SchedulerJobClaim → String → SchedulerJobClaim
  renewed_claim claim lease_expires_at = record {
    job_id = claim.job_id;
    owner_id = claim.owner_id;
    fence_token = claim.fence_token;
    claimed_at = claim.claimed_at;
    lease_expires_at = lease_expires_at;
    active_run_id = claim.active_run_id;
  }

  unfoldable pub renew_scheduler_job_claim :
      SchedulerJobClaim
      → String
      → ℕ
      → String
      → SchedulerStore
      → Result StoreError (SchedulerJobClaim × SchedulerStore)
  renew_scheduler_job_claim claim now lease_seconds actor st = do
    validate_scheduler_claim clock claim
    validate_scheduler_claim_input clock claim.owner_id now lease_seconds actor
    lease_expires_at ← scheduler_lease_expiry clock now lease_seconds
    row ← ok_or (find_claim claim.job_id st) (StoreError.scheduler_claim_lost claim.job_id)
    reject (not (is_held_by claim row && text_after row.lease_expires_at now))
        (StoreError.scheduler_claim_lost claim.job_id)
    let renewed = renewed_claim claim lease_expires_at
    ok (
      renewed,
      audit_claim "scheduler.claim.renew" renewed actor "renewed"
          (put_claim claim.job_id (renewed_row row lease_expires_at now) st),
    )

  abbrev pub released_row : ClaimRow → String → ClaimRow
  released_row row released_at = record {
    owner_id = none;
    fence_token = row.fence_token;
    claimed_at = none;
    lease_expires_at = none;
    active_run_id = none;
    updated_at = released_at;
  }

  unfoldable pub release_scheduler_job_claim :
      SchedulerJobClaim → String → String → SchedulerStore → Result StoreError SchedulerStore
  release_scheduler_job_claim claim released_at actor st = do
    validate_scheduler_claim clock claim
    at ← validate_bounded_rfc3339 clock released_at "scheduler released_at"
    validate_actor actor
    row ← ok_or (find_claim claim.job_id st) (StoreError.scheduler_claim_lost claim.job_id)
    reject (not (is_held_by claim row)) (StoreError.scheduler_claim_lost claim.job_id)
    ok (
        audit_claim "scheduler.claim.release" claim actor "released"
          (put_claim claim.job_id (released_row row released_at) st))
