-- ===== src/Cli/Scheduler/RunEffects.antt =====
-- What the start and the finish of a run, when they succeed, do to the claims and to the jobs.
use ocserv_fleet_agent.Cli.Scheduler.Runs.{
  write_scheduler_run_start_with_claim, insert_observability_run_tx, write_scheduler_run_finish,
  attach_run, with_run, check_claim, started_run, running_summary, update_scheduler_job_clock_tx,
  finish_writes, clear_run, check_clock, ensure_active_scheduler_run_claim_tx, check_order,
  clocked_job,
}
use ocserv_fleet_agent.Cli.Input.{StoreError, validate_actor}
use ocserv_fleet_agent.Common.Assoc.{insert}
use ocserv_fleet_agent.Common.Int.{ℤ}
use ocserv_fleet_agent.Cli.Scheduler.Records.{
  SchedulerStore, SchedulerJobClaim, find_claim, find_run, find_job, SchedulerRunFinish, ClaimRow,
  SchedulerRunStart, SchedulerJobClockUpdate, RunRow, JobRow,
}
use ocserv_fleet_agent.Cli.Scheduler.Claims.{is_text, is_running}
use ocserv_fleet_agent.Cli.Scheduler.Leases.{is_held_by, text_after}
use ocserv_fleet_agent.Cli.Scheduler.Checks.{
  SchedulerLibraries, validate_bounded_rfc3339, validate_safe_id, validate_scheduler_job_kind,
  validate_scheduler_job_clock,
}
use ocserv_fleet_agent.Common.{
  refl, String, Option, ◌≡◌, ok, some, arith, none, >>=-eq-ok, ◌⊎◌, ok_or, text_discrete,
  after_reject, not, Bool-cases, ◌&&◌, inl, inr, true, is_some, decided, Option-cases,
}

module _ (clock : SchedulerLibraries) where
  attach_effect :
      (run : SchedulerRunStart) (held : Option SchedulerJobClaim) (st st' : SchedulerStore)
      → attach_run clock run held st ≡ ok st'
      → (st'.jobs ≡ st.jobs)
        × (((held ≡ none) × (st'.claims ≡ st.claims))
            ⊎ ((c : SchedulerJobClaim) × (row : ClaimRow) × (held ≡ some c)
                × (find_claim c.job_id st ≡ some row)
                × (is_held_by clock c row ≡ true)
                × (row.active_run_id ≡ none)
                × (st'.claims
                    ≡ insert text_discrete c.job_id
                        (with_run row (some run.run_id) run.started_at)
                        st.claims)))
  unfolding attach_run
  attach_effect run none st st' h = (ground (arith, h), inl (refl, ground (arith, h)))
  attach_effect run (some c) st st' h =
      let lost = StoreError.scheduler_claim_lost run.job_id in
      let (row, hr, h1) = >>=-eq-ok (ok_or (find_claim c.job_id st) lost) _ h in
      let (hh, h2) =
        after_reject
          (not (
            is_held_by clock c row
            && not (is_some row.active_run_id)
            && text_after clock row.lease_expires_at run.started_at))
          _ _ h1 in
      (
        ground (arith, h2),
        inr (
          c,
          row,
          refl,
          ground (arith, hr),
          ground (arith, hh),
          ground (arith, hh),
          ground (arith, h2),
        ),
      )

  -- The claims after a start: those before it, or the claim's row with the run.
  pub start_effect :
      (run : SchedulerRunStart) (held : Option SchedulerJobClaim) (actor : String)
      (st st' : SchedulerStore)
      → write_scheduler_run_start_with_claim clock run held actor st ≡ ok st'
      → (st'.jobs ≡ st.jobs)
        × (((held ≡ none) × (st'.claims ≡ st.claims))
            ⊎ ((c : SchedulerJobClaim) × (row : ClaimRow) × (held ≡ some c)
                × (find_claim c.job_id st ≡ some row)
                × (is_held_by clock c row ≡ true)
                × (row.active_run_id ≡ none)
                × (st'.claims
                    ≡ insert text_discrete c.job_id
                        (with_run row (some run.run_id) run.started_at)
                        st.claims)))
  unfolding write_scheduler_run_start_with_claim insert_observability_run_tx
  start_effect run held actor st st' h =
      let (_, _, h1) = >>=-eq-ok (validate_actor actor) _ h in
      let (_, _, h2) = >>=-eq-ok (validate_safe_id "scheduler run_id" run.run_id 128) _ h1 in
      let (_, _, h3) = >>=-eq-ok (validate_safe_id "scheduler job_id" run.job_id 128) _ h2 in
      let (_, _, h4) =
        >>=-eq-ok (validate_bounded_rfc3339 clock run.started_at "scheduler started_at") _ h3 in
      let (_, _, h5) = >>=-eq-ok (check_claim clock run held) _ h4 in
      let (job, _, h6) =
        >>=-eq-ok
          (ok_or (find_job run.job_id st) (StoreError.observability_job_not_found run.job_id)) _
          h5 in
      let (_, _, h7) = >>=-eq-ok (validate_scheduler_job_kind job.kind) _ h6 in
      let (_, h8) = after_reject (not job.is_enabled) _ _ h7 in
      let row = started_run run (running_summary (some run.job_id) (some job.kind)) in
      let (st1, hi, h9) = >>=-eq-ok (insert_observability_run_tx clock run.run_id row st) _ h8 in
      let (st2, ha, h10) = >>=-eq-ok (attach_run clock run held st1) _ h9 in
      let kept : st1.claims ≡ st.claims = ground (arith, hi) in
      let last : st'.claims ≡ st2.claims = ground (arith, h10) in
      let attached = attach_effect run held st1 st2 ha in
      let jobs : st1.jobs ≡ st.jobs = ground (arith, hi) in
      let jobs_after : st'.jobs ≡ st2.jobs = ground (arith, h10) in
      (
        ground (arith, jobs, jobs_after, attached.0),
        elim attached.1 [
          | inl (e, f) ↦ inl (e, ground (arith, kept, last, f))
          | inr (c, row', e, found, by, free, f) ↦
              inr (c, row', e, ground (arith, kept, found), by, free, ground (arith, kept, last, f))
        ],
      )

  -- The job's clock was checked against the row, and is the update's now.
  pub record IsClocked (update : SchedulerJobClockUpdate) (st st' : SchedulerStore) : Type 0 where
    pub job : JobRow
    pub found : find_job update.job_id st ≡ some job
    pub next : ℤ
    pub last : ℤ
    pub next_parsed :
        validate_bounded_rfc3339 clock update.next_run_at "scheduler next_run_at" ≡ ok next
    pub last_parsed :
        validate_bounded_rfc3339 clock update.last_run_at "scheduler last_run_at" ≡ ok last
    pub checked : check_clock clock job.last_run_at job.next_run_at last next ≡ ok tt
    pub jobs : st'.jobs ≡ insert text_discrete update.job_id (clocked_job job update) st.jobs

  pub clock_effect :
      (update : SchedulerJobClockUpdate) (st st' : SchedulerStore)
      → update_scheduler_job_clock_tx clock update st ≡ ok st'
      → IsClocked update st st' × (st'.claims ≡ st.claims)
  unfolding update_scheduler_job_clock_tx
  clock_effect update st st' h =
      let missing = StoreError.observability_job_not_found update.job_id in
      let (job, hj, h1) = >>=-eq-ok (ok_or (find_job update.job_id st) missing) _ h in
      let (next, hn, h2) =
        >>=-eq-ok (validate_bounded_rfc3339 clock update.next_run_at "scheduler next_run_at") _
          h1 in
      let (last, hl, h3) =
        >>=-eq-ok (validate_bounded_rfc3339 clock update.last_run_at "scheduler last_run_at") _
          h2 in
      let (_, hc, h4) =
        >>=-eq-ok (check_clock clock job.last_run_at job.next_run_at last next) _ h3 in
      (
        record {
          job = job;
          found = ground (arith, hj);
          next = next;
          last = last;
          next_parsed = hn;
          last_parsed = hl;
          checked = hc;
          jobs = ground (arith, h4);
        },
        ground (arith, h4),
      )

  writes_effect :
      (run : SchedulerRunFinish) (found : RunRow) (job : JobRow) (actor : String)
      (st st' : SchedulerStore)
      → finish_writes clock run found job actor st ≡ ok st'
      → IsClocked run.job_clock st st'
        × ((st'.claims ≡ st.claims)
            ⊎ ((row : ClaimRow) × (find_claim run.job_clock.job_id st ≡ some row)
                × (st'.claims
                    ≡ insert text_discrete run.job_clock.job_id
                        (with_run row none run.finished_at)
                        st.claims)))
  unfolding finish_writes clear_run
  writes_effect run found job actor st st' h =
      let (st2, hu, h1) = >>=-eq-ok (update_scheduler_job_clock_tx clock run.job_clock _) _ h in
      let (clocked, kept) = clock_effect run.job_clock _ st2 hu in
      (
        record {
          job = clocked.job;
          found = clocked.found;
          next = clocked.next;
          last = clocked.last;
          next_parsed = clocked.next_parsed;
          last_parsed = clocked.last_parsed;
          checked = clocked.checked;
          jobs = elim (Option-cases (find_claim run.job_clock.job_id st)) [
            | inl e ↦ ground (arith, h1, kept, e, clocked.jobs)
            | inr (row, e) ↦ ground (arith, h1, kept, e, clocked.jobs)
          ];
        },
        elim (Option-cases (find_claim run.job_clock.job_id st)) [
          | inl e ↦ inl (ground (arith, h1, kept, e))
          | inr (row, e) ↦ elim (Bool-cases (is_text run.run_id row.active_run_id)) [
            | inl f ↦ inr (row, e, ground (arith, h1, kept, e, f))
            | inr f ↦ inl (ground (arith, h1, kept, e, f))
          ]
        ],
      )

  pub finish_effect :
      (run : SchedulerRunFinish) (actor : String) (st st' : SchedulerStore)
      → write_scheduler_run_finish clock run actor st ≡ ok st'
      → IsClocked run.job_clock st st'
        × ((st'.claims ≡ st.claims)
            ⊎ ((row : ClaimRow) × (find_claim run.job_clock.job_id st ≡ some row)
                × (st'.claims
                    ≡ insert text_discrete run.job_clock.job_id
                        (with_run row none run.finished_at)
                        st.claims)))
  unfolding write_scheduler_run_finish
  finish_effect run actor st st' h =
      let id = run.run_id in
      let update = run.job_clock in
      let (_, _, h1) = >>=-eq-ok (validate_actor actor) _ h in
      let (_, _, h2) = >>=-eq-ok (validate_safe_id "scheduler run_id" id 128) _ h1 in
      let (_, _, h3) =
        >>=-eq-ok (validate_bounded_rfc3339 clock run.finished_at "scheduler finished_at") _ h2 in
      let (_, _, h4) = >>=-eq-ok (validate_scheduler_job_clock clock update) _ h3 in
      let (_, h5) =
        after_reject (not (decided (text_discrete update.last_run_at run.finished_at))) _ _ h4 in
      let (found, _, h6) =
        >>=-eq-ok (ok_or (find_run id st) (StoreError.observability_run_not_found id)) _ h5 in
      let (_, h7) = after_reject (not (is_running found)) _ _ h6 in
      let (_, h8) = after_reject (not (is_text update.job_id found.job_id)) _ _ h7 in
      let (_, _, h9) =
        >>=-eq-ok (ensure_active_scheduler_run_claim_tx clock update.job_id id run.finished_at st) _
          h8 in
      let (_, _, h10) = >>=-eq-ok (check_order clock run.finished_at found) _ h9 in
      let (job, _, h11) =
        >>=-eq-ok
          (ok_or (find_job update.job_id st) (StoreError.observability_job_not_found update.job_id))
          _ h10 in
      let (_, _, h12) = >>=-eq-ok (validate_scheduler_job_kind job.kind) _ h11 in
      writes_effect run found job actor st st' h12
