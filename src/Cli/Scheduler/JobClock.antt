-- ===== src/Cli/Scheduler/JobClock.antt =====
-- The clock of a job over sequences of calls.
use ocserv_fleet_agent.Cli.Scheduler.Steps.{run_all, Operation, step}
use ocserv_fleet_agent.Cli.Scheduler.Changes.{JobChange, step_change, sets_times}
use ocserv_fleet_agent.Common.Assoc.{lookup-insert}
use ocserv_fleet_agent.Cli.Scheduler.RunEffects.{IsClocked}
use ocserv_fleet_agent.Cli.Scheduler.Runs.{check_clock, clocked_job}
use ocserv_fleet_agent.Cli.Scheduler.Records.{
  JobRow, SchedulerJobClockUpdate, SchedulerStore, find_job,
}
use ocserv_fleet_agent.Common.Int.{ℤ, ◌≤ℤ◌, ltb_ℤ}
use ocserv_fleet_agent.Cli.Scheduler.Checks.{SchedulerLibraries, validate_bounded_rfc3339}
use ocserv_fleet_agent.Common.{
  Option, String, some, ◌≡◌, arith, ok, none, Option-cases, inl, text_discrete, inr, >>=-eq-ok,
  after_reject, List, ◌∷◌, [], All, false,
}

-- From one optional instant to a later one, or the same; from none, anything.
abbrev pub IsLater : Option ℤ → Option ℤ → Type 0
IsLater none after = Unit
IsLater (some t) none = ⊥
IsLater (some t) (some u) = t ≤ℤ u

IsLater-refl : (t : Option ℤ) → IsLater t t
IsLater-refl none = tt
IsLater-refl (some t) = omega arith

IsLater-trans : (t u v : Option ℤ) → IsLater t u → IsLater u v → IsLater t v
IsLater-trans none u v h k = tt
IsLater-trans (some t) none v h k = absurd h
IsLater-trans (some t) (some u) none h k = absurd k
IsLater-trans (some t) (some u) (some v) h k = omega (arith, h, k)

module _ (clock : SchedulerLibraries) where
  abbrev pub instant_of : Option String → Option ℤ
  instant_of none = none
  instant_of (some text) = clock.parse_rfc3339 text

  abbrev pub last_of : Option JobRow → Option ℤ
  last_of none = none
  last_of (some job) = instant_of job.last_run_at

  -- The instant of a job's last run.
  abbrev pub last_run : String → SchedulerStore → Option ℤ
  last_run job_id st = last_of (find_job job_id st)

  bounded_parse :
      (text message : String) (t : ℤ)
      → validate_bounded_rfc3339 clock text message ≡ ok t
      → clock.parse_rfc3339 text ≡ some t
  unfolding validate_bounded_rfc3339
  bounded_parse text message t h = ground (arith, h)

  clock-IsLater :
      (job : JobRow) (last next : ℤ)
      → check_clock clock job.last_run_at job.next_run_at last next ≡ ok tt
      → IsLater (instant_of job.last_run_at) (some last)
  unfolding check_clock
  clock-IsLater job last next h = elim (Option-cases job.last_run_at) [
    | inl e ↦ ground (arith, e)
    | inr (text, e) ↦
        let h1 : check_clock clock (some text) job.next_run_at last next ≡ ok tt =
          ground (arith, h, e) in
        let (existing, p, h2) =
          >>=-eq-ok (validate_bounded_rfc3339 clock text "stored scheduler last_run_at") _ h1 in
        let (order, _) = after_reject (ltb_ℤ last existing) _ _ h2 in
        ground (arith, e, order, bounded_parse text "stored scheduler last_run_at" existing p)
  ]

  clocked_IsLater :
      (update : SchedulerJobClockUpdate) (st st' : SchedulerStore) (job_id : String)
      → IsClocked clock update st st'
      → IsLater (last_run job_id st) (last_run job_id st')
  clocked_IsLater update st st' job_id c =
      let parsed = bounded_parse update.last_run_at "scheduler last_run_at" c.last c.last_parsed in
      let row = clocked_job c.job update in
      let placed = lookup-insert text_discrete update.job_id job_id row st.jobs in
      elim (text_discrete update.job_id job_id) [
        | yes e ↦
            ground (
              arith,
              e,
              c.jobs,
              placed,
              parsed,
              c.found,
              clock-IsLater c.job c.last c.next c.checked,
            )
        | no e ↦ ground (arith, e, c.jobs, placed, IsLater-refl (last_run job_id st))
      ]

  same_IsLater :
      (st st' : SchedulerStore) (job_id : String)
      → st'.jobs ≡ st.jobs
      → IsLater (last_run job_id st) (last_run job_id st')
  same_IsLater st st' job_id e = ground (arith, e, IsLater-refl (last_run job_id st))

  change_IsLater :
      (st st' : SchedulerStore) (op : Operation) (job_id : String)
      → sets_times op ≡ false
      → JobChange clock st st' op
      → IsLater (last_run job_id st) (last_run job_id st')
  change_IsLater st st' op job_id k (JobChange.unchanged e) = same_IsLater st st' job_id e
  change_IsLater st st' op job_id k (JobChange.clocked update c) =
      clocked_IsLater update st st' job_id c
  change_IsLater st st' op job_id k (JobChange.overwritten e) = ground (arith, k, e)

  -- Over any calls that claim, renew or release a job, start or finish a run, or record its outcome,
  -- in any order, with success or without, but without calls of
  -- `update_observability_job_run_times`, the instant of a job's last run never goes back, and never
  -- disappears.
  pub last_run-run_all :
      (ops : List Operation) (st : SchedulerStore) (job_id : String)
      → All (λ op. sets_times op ≡ false) ops
      → IsLater (last_run job_id st) (last_run job_id (run_all clock ops st))
  unfolding run_all
  last_run-run_all [] st job_id a = IsLater-refl (last_run job_id st)
  last_run-run_all (op ∷ ops) st job_id a =
      let next = step clock op st in
      IsLater-trans (last_run job_id st) (last_run job_id next)
        (last_run job_id (run_all clock ops next))
        (change_IsLater st next op job_id a.0 (step_change clock op st).1)
        (last_run-run_all ops next job_id a.1)
