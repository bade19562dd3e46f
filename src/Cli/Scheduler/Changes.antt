-- ===== src/Cli/Scheduler/Changes.antt =====
-- What each call of the scheduler does to the table of claims.
use ocserv_fleet_agent.Cli.Scheduler.OutcomeEffects.{outcome_effect}
use ocserv_fleet_agent.Cli.Scheduler.Outcomes.{write_scheduler_outcome}
use ocserv_fleet_agent.Cli.Scheduler.RunEffects.{start_effect, finish_effect, IsClocked}
use ocserv_fleet_agent.Cli.Scheduler.Runs.{
  write_scheduler_run_start_with_claim, write_scheduler_run_finish, with_run,
  update_observability_job_run_times,
}
use ocserv_fleet_agent.Cli.Input.{StoreError}
use ocserv_fleet_agent.Common.Assoc.{insert}
use ocserv_fleet_agent.Cli.Scheduler.Effects.{
  IsAcquired, acquire_effect, renew_effect, release_effect,
}
use ocserv_fleet_agent.Cli.Scheduler.Claims.{
  claim_scheduler_job, claim_due_scheduler_job, claim_next_due_scheduler_job,
  acquire_scheduler_claim_tx, earliest,
}
use ocserv_fleet_agent.Cli.Scheduler.Leases.{
  is_held_by, renew_scheduler_job_claim, release_scheduler_job_claim, renewed_row, released_row,
}
use ocserv_fleet_agent.Cli.Scheduler.Records.{
  SchedulerStore, SchedulerJobClaim, ClaimRow, find_claim, SchedulerRunStart, SchedulerRunFinish,
  SchedulerJobClockUpdate, SchedulerOutcomeWrite,
}
use ocserv_fleet_agent.Cli.Scheduler.Checks.{
  SchedulerLibraries, validate_safe_id, validate_scheduler_claim_input,
}
use ocserv_fleet_agent.Cli.Scheduler.Steps.{Operation, step, store_of, store_or}
use ocserv_fleet_agent.Common.{
  ℕ, Option, String, some, ◌≡◌, Bool, none, ok, inl, >>=-eq-ok, inr, ap, false, true, Option-cases,
  text_discrete, arith, refl, Result, err,
}

abbrev pub op_time : Operation → Option String
op_time (Operation.claim job_id owner_id now lease_seconds actor) = some now
op_time (Operation.claim_due job_id owner_id now lease_seconds actor) = some now
op_time (Operation.claim_next owner_id now lease_seconds actor) = some now
op_time _ = none

-- The claim that a renewal or a release shows.
abbrev pub op_claim : Operation → Option SchedulerJobClaim
op_claim (Operation.renew held now lease_seconds actor) = some held
op_claim (Operation.release held released_at actor) = some held
op_claim _ = none

-- Does the call overwrite the times of a job?
abbrev pub sets_times : Operation → Bool
sets_times (Operation.set_times job_id next_run_at last_run_at) = true
sets_times _ = false

module _ (clock : SchedulerLibraries) where
  -- The change of the claims by one call: none; an acquisition at the call's time; a row that keeps
  -- its owner, its fence and its lease; a renewal or release of a row that is held by the claim shown.
  pub data Change (st st' : SchedulerStore) (op : Operation) : Type 0 where
    same : st'.claims ≡ st.claims → Change st st' op
    acquired :
        (job_id owner_id now : String) (lease_seconds : ℕ) (c : SchedulerJobClaim)
        → op_time op ≡ some now
        → IsAcquired clock job_id owner_id now lease_seconds st c st'
        → Change st st' op
    kept :
        (job_id : String) (row after : ClaimRow)
        → find_claim job_id st ≡ some row
        → (after.owner_id ≡ row.owner_id)
          × (after.fence_token ≡ row.fence_token)
          × (after.lease_expires_at ≡ row.lease_expires_at)
        → st'.claims ≡ insert text_discrete job_id after st.claims
        → Change st st' op
    shown :
        (c : SchedulerJobClaim) (row after : ClaimRow)
        → op_claim op ≡ some c
        → find_claim c.job_id st ≡ some row
        → is_held_by clock c row ≡ true
        → after.fence_token ≡ row.fence_token
        → st'.claims ≡ insert text_discrete c.job_id after st.claims
        → Change st st' op

  -- The change of the jobs by one call: none, the clock of one job, or an overwriting call.
  pub data JobChange (st st' : SchedulerStore) (op : Operation) : Type 0 where
    unchanged : st'.jobs ≡ st.jobs → JobChange st st' op
    clocked :
        (update : SchedulerJobClockUpdate) → IsClocked clock update st st' → JobChange st st' op
    overwritten : sets_times op ≡ true → JobChange st st' op

  abbrev pub Changed : SchedulerStore → SchedulerStore → Operation → Type 0
  Changed st st' op = Change st st' op × JobChange st st' op

  abbrev unmoved : (st : SchedulerStore) (op : Operation) → Changed st st op
  unmoved st op = (Change.same refl, JobChange.unchanged refl)

  acquire_change :
      (op : Operation) (job_id owner_id now : String) (lease_seconds : ℕ) (actor : String)
      (require_due : Bool) (st : SchedulerStore) (c : Option SchedulerJobClaim)
      (st' : SchedulerStore)
      → op_time op ≡ some now
      → acquire_scheduler_claim_tx clock job_id owner_id now lease_seconds actor require_due st
        ≡ ok (c, st')
      → Changed st st' op
  acquire_change op job_id owner_id now lease_seconds actor require_due st c st' t h =
      elim (acquire_effect clock job_id owner_id now lease_seconds actor require_due st c st' h) [
        | inl (_, e) ↦ (
          Change.same (ap (λ (s : SchedulerStore). s.claims) e),
          JobChange.unchanged (ap (λ (s : SchedulerStore). s.jobs) e),
        )
        | inr (d, _, a) ↦
            (Change.acquired job_id owner_id now lease_seconds d t a, JobChange.unchanged a.jobs)
      ]

  claim_change :
      (job_id owner_id now : String) (lease_seconds : ℕ) (actor : String) (st : SchedulerStore)
      (c : Option SchedulerJobClaim) (st' : SchedulerStore)
      → claim_scheduler_job clock job_id owner_id now lease_seconds actor st ≡ ok (c, st')
      → Changed st st' (Operation.claim job_id owner_id now lease_seconds actor)
  unfolding claim_scheduler_job
  claim_change job_id owner_id now lease_seconds actor st c st' h =
      let (_, _, h1) = >>=-eq-ok (validate_safe_id "scheduler job_id" job_id 128) _ h in
      let (_, _, h2) =
        >>=-eq-ok (validate_scheduler_claim_input clock owner_id now lease_seconds actor) _ h1 in
      acquire_change _ job_id owner_id now lease_seconds actor false st c st' refl h2

  claim_due_change :
      (job_id owner_id now : String) (lease_seconds : ℕ) (actor : String) (st : SchedulerStore)
      (c : Option SchedulerJobClaim) (st' : SchedulerStore)
      → claim_due_scheduler_job clock job_id owner_id now lease_seconds actor st ≡ ok (c, st')
      → Changed st st' (Operation.claim_due job_id owner_id now lease_seconds actor)
  unfolding claim_due_scheduler_job
  claim_due_change job_id owner_id now lease_seconds actor st c st' h =
      let (_, _, h1) = >>=-eq-ok (validate_safe_id "scheduler job_id" job_id 128) _ h in
      let (_, _, h2) =
        >>=-eq-ok (validate_scheduler_claim_input clock owner_id now lease_seconds actor) _ h1 in
      acquire_change _ job_id owner_id now lease_seconds actor true st c st' refl h2

  claim_next_change :
      (owner_id now : String) (lease_seconds : ℕ) (actor : String) (st : SchedulerStore)
      (c : Option SchedulerJobClaim) (st' : SchedulerStore)
      → claim_next_due_scheduler_job clock owner_id now lease_seconds actor st ≡ ok (c, st')
      → Changed st st' (Operation.claim_next owner_id now lease_seconds actor)
  unfolding claim_next_due_scheduler_job
  claim_next_change owner_id now lease_seconds actor st c st' h =
      let (_, _, h1) =
        >>=-eq-ok (validate_scheduler_claim_input clock owner_id now lease_seconds actor) _ h in
      elim (Option-cases (earliest clock st.jobs now st)) [
        | inl e ↦ (Change.same (ground (arith, e, h1)), JobChange.unchanged (ground (arith, e, h1)))
        | inr ((job_id, job), e) ↦
            acquire_change _ job_id owner_id now lease_seconds actor true st c st' refl
              (ground (arith, e, h1))
      ]

  outcome_change :
      {A : Type 0} (op : Operation) (st : SchedulerStore)
      (r : Result StoreError (A × SchedulerStore))
      → ((a : A) (st' : SchedulerStore) → r ≡ ok (a, st') → Changed st st' op)
      → Changed st (store_of st r) op
  outcome_change op st (err e) k = unmoved st op
  outcome_change op st (ok (a, st')) k = k a st' refl

  store_change :
      (op : Operation) (st : SchedulerStore) (r : Result StoreError SchedulerStore)
      → ((st' : SchedulerStore) → r ≡ ok st' → Changed st st' op)
      → Changed st (store_or st r) op
  store_change op st (err e) k = unmoved st op
  store_change op st (ok st') k = k st' refl

  renew_change :
      (c : SchedulerJobClaim) (now : String) (lease_seconds : ℕ) (actor : String)
      (st : SchedulerStore) (d : SchedulerJobClaim) (st' : SchedulerStore)
      → renew_scheduler_job_claim clock c now lease_seconds actor st ≡ ok (d, st')
      → Changed st st' (Operation.renew c now lease_seconds actor)
  renew_change c now lease_seconds actor st d st' h =
      let (row, lease, found, by, after, _, jobs) =
        renew_effect clock c now lease_seconds actor st d st' h in
      (
        Change.shown c row (renewed_row clock row lease now) refl found by refl after,
        JobChange.unchanged jobs,
      )

  release_change :
      (c : SchedulerJobClaim) (at actor : String) (st st' : SchedulerStore)
      → release_scheduler_job_claim clock c at actor st ≡ ok st'
      → Changed st st' (Operation.release c at actor)
  release_change c at actor st st' h =
      let (row, found, by, after, _, jobs) = release_effect clock c at actor st st' h in
      (
        Change.shown c row (released_row clock row at) refl found by refl after,
        JobChange.unchanged jobs,
      )

  start_change :
      (run : SchedulerRunStart) (c : Option SchedulerJobClaim) (actor : String)
      (st st' : SchedulerStore)
      → write_scheduler_run_start_with_claim clock run c actor st ≡ ok st'
      → Changed st st' (Operation.start run c actor)
  start_change run c actor st st' h =
      let (jobs, claims) = start_effect clock run c actor st st' h in
      (
        elim claims [
          | inl (_, e) ↦ Change.same e
          | inr (d, row, _, found, _, _, e) ↦
              Change.kept d.job_id row (with_run row (some run.run_id) run.started_at) found
                (refl, refl, refl) e
        ],
        JobChange.unchanged jobs,
      )

  finish_change :
      (run : SchedulerRunFinish) (actor : String) (st st' : SchedulerStore)
      → write_scheduler_run_finish clock run actor st ≡ ok st'
      → Changed st st' (Operation.complete run actor)
  finish_change run actor st st' h =
      let (clocked_by, claims) = finish_effect clock run actor st st' h in
      (
        elim claims [
          | inl e ↦ Change.same e
          | inr (row, found, e) ↦
              Change.kept run.job_clock.job_id row (with_run row none run.finished_at) found
                (refl, refl, refl) e
        ],
        JobChange.clocked run.job_clock clocked_by,
      )

  outcome_write_change :
      (outcome : SchedulerOutcomeWrite) (actor : String) (st st' : SchedulerStore)
      → write_scheduler_outcome clock outcome actor st ≡ ok st'
      → Changed st st' (Operation.observe outcome actor)
  outcome_write_change outcome actor st st' h =
      let (claims, jobs) = outcome_effect clock outcome actor st st' h in
      (
        Change.same claims,
        elim jobs [ inl e ↦ JobChange.unchanged e | inr (update, c) ↦ JobChange.clocked update c ],
      )

  set_times_change :
      (job_id : String) (next_run_at last_run_at : Option String) (st st' : SchedulerStore)
      → update_observability_job_run_times job_id next_run_at last_run_at st ≡ ok st'
      → Changed st st' (Operation.set_times job_id next_run_at last_run_at)
  unfolding update_observability_job_run_times
  set_times_change job_id next_run_at last_run_at st st' h =
      (Change.same (ground (arith, h)), JobChange.overwritten refl)

  pub step_change : (op : Operation) (st : SchedulerStore) → Changed st (step clock op st) op
  unfolding step
  step_change (Operation.claim job_id owner_id now lease_seconds actor) st =
      outcome_change _ st (claim_scheduler_job clock job_id owner_id now lease_seconds actor st)
        (claim_change job_id owner_id now lease_seconds actor st)
  step_change (Operation.claim_due job_id owner_id now lease_seconds actor) st =
      outcome_change _ st (claim_due_scheduler_job clock job_id owner_id now lease_seconds actor st)
        (claim_due_change job_id owner_id now lease_seconds actor st)
  step_change (Operation.claim_next owner_id now lease_seconds actor) st =
      outcome_change _ st (claim_next_due_scheduler_job clock owner_id now lease_seconds actor st)
        (claim_next_change owner_id now lease_seconds actor st)
  step_change (Operation.renew c now lease_seconds actor) st =
      outcome_change _ st (renew_scheduler_job_claim clock c now lease_seconds actor st)
        (renew_change c now lease_seconds actor st)
  step_change (Operation.release c released_at actor) st =
      store_change _ st (release_scheduler_job_claim clock c released_at actor st)
        (release_change c released_at actor st)
  step_change (Operation.start run c actor) st =
      store_change _ st (write_scheduler_run_start_with_claim clock run c actor st)
        (start_change run c actor st)
  step_change (Operation.complete run actor) st =
      store_change _ st (write_scheduler_run_finish clock run actor st) (finish_change run actor st)
  step_change (Operation.observe outcome actor) st =
      store_change _ st (write_scheduler_outcome clock outcome actor st)
        (outcome_write_change outcome actor st)
  step_change (Operation.set_times job_id next_run_at last_run_at) st =
      store_change _ st (update_observability_job_run_times job_id next_run_at last_run_at st)
        (set_times_change job_id next_run_at last_run_at st)
