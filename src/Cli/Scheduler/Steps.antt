-- ===== src/Cli/Scheduler/Steps.antt =====
-- The calls of the scheduler on the store, one after the other: a call that fails changes nothing.
use ocserv_fleet_agent.Cli.Scheduler.Outcomes.{write_scheduler_outcome}
use ocserv_fleet_agent.Cli.Scheduler.Runs.{
  write_scheduler_run_start_with_claim, write_scheduler_run_finish,
  update_observability_job_run_times,
}
use ocserv_fleet_agent.Cli.Input.{StoreError}
use ocserv_fleet_agent.Cli.Scheduler.Claims.{
  claim_scheduler_job, claim_due_scheduler_job, claim_next_due_scheduler_job,
}
use ocserv_fleet_agent.Cli.Scheduler.Leases.{renew_scheduler_job_claim, release_scheduler_job_claim}
use ocserv_fleet_agent.Cli.Scheduler.Checks.{SchedulerLibraries}
use ocserv_fleet_agent.Cli.Scheduler.Records.{
  SchedulerStore, SchedulerJobClaim, SchedulerRunStart, SchedulerRunFinish, SchedulerOutcomeWrite,
}
use ocserv_fleet_agent.Common.{ℕ, String, Result, List, ◌∷◌, Option, err, ok, []}

pub data Operation : Type 0 where
  claim : (job_id owner_id now : String) (lease_seconds : ℕ) (actor : String) → Operation
  claim_due : (job_id owner_id now : String) (lease_seconds : ℕ) (actor : String) → Operation
  claim_next : (owner_id now : String) (lease_seconds : ℕ) (actor : String) → Operation
  renew : (held : SchedulerJobClaim) (now : String) (lease_seconds : ℕ) (actor : String) → Operation
  release : (held : SchedulerJobClaim) (released_at actor : String) → Operation
  start : (run : SchedulerRunStart) (held : Option SchedulerJobClaim) (actor : String) → Operation
  complete : (run : SchedulerRunFinish) (actor : String) → Operation
  observe : (outcome : SchedulerOutcomeWrite) (actor : String) → Operation
  set_times : (job_id : String) (next_run_at last_run_at : Option String) → Operation

abbrev pub store_of :
    {A : Type 0} → SchedulerStore → Result StoreError (A × SchedulerStore) → SchedulerStore
store_of st (err e) = st
store_of st (ok (a, st')) = st'

abbrev pub store_or : SchedulerStore → Result StoreError SchedulerStore → SchedulerStore
store_or st (err e) = st
store_or st (ok st') = st'

module _ (clock : SchedulerLibraries) where
  unfoldable pub step : Operation → SchedulerStore → SchedulerStore
  step (Operation.claim job_id owner_id now lease_seconds actor) st =
      store_of st (claim_scheduler_job clock job_id owner_id now lease_seconds actor st)
  step (Operation.claim_due job_id owner_id now lease_seconds actor) st =
      store_of st (claim_due_scheduler_job clock job_id owner_id now lease_seconds actor st)
  step (Operation.claim_next owner_id now lease_seconds actor) st =
      store_of st (claim_next_due_scheduler_job clock owner_id now lease_seconds actor st)
  step (Operation.renew held now lease_seconds actor) st =
      store_of st (renew_scheduler_job_claim clock held now lease_seconds actor st)
  step (Operation.release held released_at actor) st =
      store_or st (release_scheduler_job_claim clock held released_at actor st)
  step (Operation.start run held actor) st =
      store_or st (write_scheduler_run_start_with_claim clock run held actor st)
  step (Operation.complete run actor) st =
      store_or st (write_scheduler_run_finish clock run actor st)
  step (Operation.observe outcome actor) st =
      store_or st (write_scheduler_outcome clock outcome actor st)
  step (Operation.set_times job_id next_run_at last_run_at) st =
      store_or st (update_observability_job_run_times job_id next_run_at last_run_at st)

  unfoldable pub run_all : List Operation → SchedulerStore → SchedulerStore
  run_all [] st = st
  run_all (op ∷ ops) st = run_all ops (step op st)
