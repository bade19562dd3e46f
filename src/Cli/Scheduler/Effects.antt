-- ===== src/Cli/Scheduler/Effects.antt =====
-- What a call that succeeds does to the claims.
use ocserv_fleet_agent.Cli.Input.{StoreError, validate_actor}
use ocserv_fleet_agent.Common.Assoc.{insert}
use ocserv_fleet_agent.Common.Int.{ℤ}
use ocserv_fleet_agent.Cli.Scheduler.Records.{
  SchedulerStore, SchedulerJobClaim, find_claim, find_run, find_job, ClaimRow,
}
use ocserv_fleet_agent.Cli.Scheduler.Claims.{
  recover_active_run, acquire_scheduler_claim_tx, recover_expired_scheduler_run_tx, write_claim,
  fail_run, is_live, fence_of, new_claim, claimed_row, is_text, is_running, is_due, recovery_time,
  run_of,
}
use ocserv_fleet_agent.Cli.Scheduler.Leases.{
  renew_scheduler_job_claim, release_scheduler_job_claim, is_held_by, renewed_row, released_row,
  text_after,
}
use ocserv_fleet_agent.Cli.Scheduler.Checks.{
  SchedulerLibraries, scheduler_lease_expiry, i64_max, bad_input, validate_scheduler_claim,
  validate_scheduler_claim_input, validate_bounded_rfc3339,
}
use ocserv_fleet_agent.Common.{
  refl, ℕ, String, Bool, Option, ◌≡◌, ok, some, arith, none, >>=-eq-ok, ◌⊎◌, ok_or, false, ◌+◌, ◌≤◌,
  text_discrete, after_reject, not, Bool-cases, ◌||◌, ◌&&◌, inl, inr, ltb, Result, err, true,
}

module _ (clock : SchedulerLibraries) where
  recovery_claims :
      (job_id : String) (run_id : Option String) (now actor : String) (st st' : SchedulerStore)
      → recover_active_run clock job_id run_id now actor st ≡ ok st'
      → (st'.claims ≡ st.claims) × (st'.jobs ≡ st.jobs)
  unfolding recover_active_run recover_expired_scheduler_run_tx fail_run
  recovery_claims job_id none now actor st st' h = ground arith
  recovery_claims job_id (some run_id) now actor st st' h =
      let (run, hr, h1) =
        >>=-eq-ok (ok_or (find_run run_id st) (StoreError.observability_run_not_found run_id)) _
          h in
      let (_, h2) = after_reject (not (is_text job_id run.job_id)) _ _ h1 in
      elim (Bool-cases (not (is_running run))) [
        | inl e ↦ ground (arith, e, h2)
        | inr e ↦
            let h3 : fail_run clock job_id run_id run now actor st ≡ ok st' =
              ground (arith, e, h2) in
            let (t, ht, h4) = >>=-eq-ok (recovery_time clock run now) _ h3 in
            let (job, hj, h5) =
              >>=-eq-ok (ok_or (find_job job_id st) (StoreError.observability_job_not_found job_id))
                _ h4 in
            ground (arith, h5)
      ]

  -- An acquisition that gives no claim changes nothing; one that gives a claim puts it over the row,
  -- whose lease has ended, with the next fence.
  pub record IsAcquired (job_id owner_id now : String) (lease_seconds : ℕ) (st : SchedulerStore)
      (c : SchedulerJobClaim) (st' : SchedulerStore) : Type 0 where
    pub at : ℤ
    pub parsed : clock.parse_rfc3339 now ≡ some at
    pub lease : String
    pub lease_set : scheduler_lease_expiry clock now lease_seconds ≡ ok lease
    pub not_live : is_live clock (find_claim job_id st) at ≡ false
    pub in_range : fence_of clock (find_claim job_id st) + 1 ≤ i64_max
    pub claim :
        c ≡ new_claim clock job_id owner_id (fence_of clock (find_claim job_id st) + 1) now lease
    pub claims :
        st'.claims
        ≡ insert text_discrete job_id
            (claimed_row clock owner_id (fence_of clock (find_claim job_id st) + 1) now lease)
            st.claims
    pub jobs : st'.jobs ≡ st.jobs
    pub by : String
    pub recovered : SchedulerStore
    pub recovery :
        recover_active_run clock job_id (run_of clock (find_claim job_id st)) now by st
        ≡ ok recovered
    pub runs : st'.runs ≡ recovered.runs

  pub acquire_effect :
      (job_id owner_id now : String) (lease_seconds : ℕ) (actor : String) (require_due : Bool)
      (st : SchedulerStore) (c : Option SchedulerJobClaim) (st' : SchedulerStore)
      → acquire_scheduler_claim_tx clock job_id owner_id now lease_seconds actor require_due st
        ≡ ok (c, st')
      → ((c ≡ none) × (st' ≡ st))
        ⊎ ((d : SchedulerJobClaim) × (c ≡ some d)
            × IsAcquired job_id owner_id now lease_seconds st d st')
  unfolding acquire_scheduler_claim_tx write_claim
  acquire_effect job_id owner_id now lease_seconds actor require_due st c st' h =
      let (job, hj, h1) =
        >>=-eq-ok (ok_or (find_job job_id st) (StoreError.observability_job_not_found job_id)) _
          h in
      let (at, ha, h2) =
        >>=-eq-ok (ok_or (clock.parse_rfc3339 now) (bad_input "scheduler claim timestamp")) _ h1 in
      let row = find_claim job_id st in
      elim (Bool-cases (
        not job.is_enabled
        || (require_due && not (is_due clock job.next_run_at at))
        || is_live clock row at)) [
          | inl e ↦ ground (arith, e, h2)
          | inr e ↦
              let h3 : write_claim clock job_id owner_id now lease_seconds actor row st
                  ≡ ok (c, st') =
                ground (arith, e, h2) in
              let (hf, h4) = after_reject (ltb i64_max (fence_of clock row + 1)) _ _ h3 in
              let (st1, hr, h5) =
                >>=-eq-ok (recover_active_run clock job_id (run_of clock row) now actor st) _ h4 in
              let (lease, hl, h6) =
                >>=-eq-ok (scheduler_lease_expiry clock now lease_seconds) _ h5 in
              let kept = recovery_claims job_id (run_of clock row) now actor st st1 hr in
              let d = new_claim clock job_id owner_id (fence_of clock row + 1) now lease in
              inr (
                d,
                ground (arith, h6),
                record {
                  at = at;
                  parsed = ground (arith, ha);
                  lease = lease;
                  lease_set = hl;
                  not_live = ground (arith, e);
                  in_range = ground (arith, hf);
                  claim = refl;
                  claims = ground (arith, h6, kept);
                  jobs = ground (arith, h6, kept);
                  by = actor;
                  recovered = st1;
                  recovery = hr;
                  runs = ground (arith, h6);
                },
              )
        ]

  abbrev pub is_accepted : {A : Type 0} → Result StoreError A → Bool
  is_accepted (err e) = false
  is_accepted (ok a) = true

  pub renew_effect :
      (held : SchedulerJobClaim) (now : String) (lease_seconds : ℕ) (actor : String)
      (st : SchedulerStore) (c : SchedulerJobClaim) (st' : SchedulerStore)
      → renew_scheduler_job_claim clock held now lease_seconds actor st ≡ ok (c, st')
      → (row : ClaimRow) × (lease : String) × (find_claim held.job_id st ≡ some row)
        × (is_held_by clock held row ≡ true)
        × (st'.claims
            ≡ insert text_discrete held.job_id (renewed_row clock row lease now) st.claims)
        × (st'.runs ≡ st.runs)
        × (st'.jobs ≡ st.jobs)
  unfolding renew_scheduler_job_claim
  renew_effect held now lease_seconds actor st c st' h =
      let lost = StoreError.scheduler_claim_lost held.job_id in
      let (_, _, h1) = >>=-eq-ok (validate_scheduler_claim clock held) _ h in
      let (_, _, h2) =
        >>=-eq-ok (validate_scheduler_claim_input clock held.owner_id now lease_seconds actor) _
          h1 in
      let (lease, _, h3) = >>=-eq-ok (scheduler_lease_expiry clock now lease_seconds) _ h2 in
      let (row, hr, h4) = >>=-eq-ok (ok_or (find_claim held.job_id st) lost) _ h3 in
      let (hh, h5) =
        after_reject (not (is_held_by clock held row && text_after clock row.lease_expires_at now))
          _ _ h4 in
      (
        row,
        lease,
        ground (arith, hr),
        ground (arith, hh),
        ground (arith, h5),
        ground (arith, h5),
        ground (arith, h5),
      )

  pub release_effect :
      (held : SchedulerJobClaim) (released_at actor : String) (st st' : SchedulerStore)
      → release_scheduler_job_claim clock held released_at actor st ≡ ok st'
      → (row : ClaimRow) × (find_claim held.job_id st ≡ some row)
        × (is_held_by clock held row ≡ true)
        × (st'.claims
            ≡ insert text_discrete held.job_id (released_row clock row released_at) st.claims)
        × (st'.runs ≡ st.runs)
        × (st'.jobs ≡ st.jobs)
  unfolding release_scheduler_job_claim
  release_effect held released_at actor st st' h =
      let lost = StoreError.scheduler_claim_lost held.job_id in
      let (_, _, h1) = >>=-eq-ok (validate_scheduler_claim clock held) _ h in
      let (_, _, h2) =
        >>=-eq-ok (validate_bounded_rfc3339 clock released_at "scheduler released_at") _ h1 in
      let (_, _, h3) = >>=-eq-ok (validate_actor actor) _ h2 in
      let (row, hr, h4) = >>=-eq-ok (ok_or (find_claim held.job_id st) lost) _ h3 in
      let (hh, h5) = after_reject (not (is_held_by clock held row)) _ _ h4 in
      (
        row,
        ground (arith, hr),
        ground (arith, hh),
        ground (arith, h5),
        ground (arith, h5),
        ground (arith, h5),
      )
