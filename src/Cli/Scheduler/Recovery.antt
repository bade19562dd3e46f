-- ===== src/Cli/Scheduler/Recovery.antt =====
-- The run that an expired claim left behind.
use ocserv_fleet_agent.Common.Assoc.{lookup-insert}
use ocserv_fleet_agent.Cli.Input.{StoreError}
use ocserv_fleet_agent.Cli.Scheduler.Effects.{acquire_effect}
use ocserv_fleet_agent.Cli.Scheduler.Records.{
  SchedulerStore, RunRow, SchedulerJobClaim, find_run, ClaimRow, find_claim, find_job, RunStatus,
}
use ocserv_fleet_agent.Cli.Scheduler.Claims.{
  recover_expired_scheduler_run_tx, recover_active_run, fail_run, acquire_scheduler_claim_tx,
  is_running, is_text, recovery_time, finish_run, summary_of,
}
use ocserv_fleet_agent.Cli.Scheduler.Checks.{SchedulerLibraries}
use ocserv_fleet_agent.Common.{
  ℕ, String, Bool, ◌≡◌, ok, some, false, ◌≢◌, inl, arith, inr, >>=-eq-ok, ok_or, after_reject, not,
  Bool-cases, text_discrete, refl,
}

module _ (clock : SchedulerLibraries) where
  -- The run is there, no longer running, and no other run has changed.
  pub record IsStopped (run_id : String) (st st' : SchedulerStore) : Type 0 where
    pub run : RunRow
    pub found : find_run run_id st' ≡ some run
    pub stopped : is_running run ≡ false
    pub others : (other : String) → run_id ≢ other → find_run other st' ≡ find_run other st

  recover-IsStopped :
      (job_id run_id now actor : String) (st st' : SchedulerStore)
      → recover_expired_scheduler_run_tx clock job_id run_id now actor st ≡ ok st'
      → IsStopped run_id st st'
  unfolding recover_expired_scheduler_run_tx fail_run
  recover-IsStopped job_id run_id now actor st st' h =
      let missing = StoreError.observability_run_not_found run_id in
      let (run, hr, h1) = >>=-eq-ok (ok_or (find_run run_id st) missing) _ h in
      let (_, h2) = after_reject (not (is_text job_id run.job_id)) _ _ h1 in
      elim (Bool-cases (not (is_running run))) [
        | inl e ↦ record {
          run = run;
          found = ground (arith, hr, e, h2);
          stopped = ground (arith, e);
          others = λ other n. ground (arith, e, h2);
        }
        | inr e ↦
            let h3 : fail_run clock job_id run_id run now actor st ≡ ok st' =
              ground (arith, e, h2) in
            let (t, _, h4) = >>=-eq-ok (recovery_time clock run now) _ h3 in
            let no_job = StoreError.observability_job_not_found job_id in
            let (job, _, h5) = >>=-eq-ok (ok_or (find_job job_id st) no_job) _ h4 in
            let failed =
              finish_run run t RunStatus.failed
                (summary_of (some job_id) (some job.kind) RunStatus.failed 0 0) in
            record {
              run = failed;
              found = ground (arith, h5, lookup-insert text_discrete run_id run_id failed st.runs);
              stopped = refl;
              others = λ other n.
                  ground (arith, h5, n, lookup-insert text_discrete run_id other failed st.runs);
            }
      ]

  -- When a claim is taken over a row that still names a run, that run is no longer running
  -- afterwards, and no other run has changed.
  pub acquire-IsStopped :
      (job_id owner_id now : String) (lease_seconds : ℕ) (actor : String) (require_due : Bool)
      (st st' : SchedulerStore) (c : SchedulerJobClaim) (row : ClaimRow) (run_id : String)
      → acquire_scheduler_claim_tx clock job_id owner_id now lease_seconds actor require_due st
        ≡ ok (some c, st')
      → find_claim job_id st ≡ some row
      → row.active_run_id ≡ some run_id
      → IsStopped run_id st st'
  unfolding recover_active_run
  acquire-IsStopped job_id owner_id now lease_seconds actor require_due st st' c row run_id h f r =
      elim (acquire_effect clock job_id owner_id now lease_seconds actor require_due st (some c) st'
        h) [
          | inl (e, _) ↦ ground (arith, e)
          | inr (d, _, a) ↦
              let call : recover_expired_scheduler_run_tx clock job_id run_id now a.by st
                  ≡ ok a.recovered =
                ground (arith, a.recovery, f, r) in
              let s = recover-IsStopped job_id run_id now a.by st a.recovered call in
              record {
                run = s.run;
                found = ground (arith, a.runs, s.found);
                stopped = s.stopped;
                others = λ other n. ground (arith, a.runs, s.others other n);
              }
        ]
