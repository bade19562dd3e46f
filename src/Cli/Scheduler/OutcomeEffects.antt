-- ===== src/Cli/Scheduler/OutcomeEffects.antt =====
-- What the writing of an outcome, when it succeeds, does to the claims and to the jobs.
use ocserv_fleet_agent.Cli.Scheduler.Runs.{update_scheduler_job_clock_tx}
use ocserv_fleet_agent.Cli.Scheduler.RunEffects.{IsClocked, clock_effect}
use ocserv_fleet_agent.Cli.Scheduler.Records.{
  SchedulerOutcomeEntry, SchedulerStore, SchedulerOutcomeWrite, SchedulerJobClockUpdate,
}
use ocserv_fleet_agent.Cli.Scheduler.Outcomes.{
  insert_entry, insert_entries, write_scheduler_outcome, update_clock, validate_scheduler_outcome,
  is_stored, check_run,
}
use ocserv_fleet_agent.Cli.Scheduler.Checks.{SchedulerLibraries, bad_input}
use ocserv_fleet_agent.Common.{
  List, ◌≡◌, String, ok, >>=-eq-ok, arith, ◌⊎◌, ok_or, ◌∷◌, [], after_reject, Option-cases, inl,
  inr,
}

module _ (clock : SchedulerLibraries) where
  entry_effect :
      (e : SchedulerOutcomeEntry) (st st' : SchedulerStore)
      → insert_entry clock e st ≡ ok st'
      → (st'.claims ≡ st.claims) × (st'.jobs ≡ st.jobs)
  unfolding insert_entry
  entry_effect e st st' h =
      let (summary, _, h1) =
        >>=-eq-ok (ok_or (clock.canonical_summary e.observation) (bad_input "observation summary"))
          _ h in
      let (_, h2) = after_reject (is_stored e.observation.observation_id st.observations) _ _ h1 in
      (ground (arith, h2), ground (arith, h2))

  entries_effect :
      (es : List SchedulerOutcomeEntry) (st st' : SchedulerStore)
      → insert_entries clock es st ≡ ok st'
      → (st'.claims ≡ st.claims) × (st'.jobs ≡ st.jobs)
  unfolding insert_entries
  entries_effect [] st st' h = (ground (arith, h), ground (arith, h))
  entries_effect (e ∷ es) st st' h =
      let (st1, h1, h2) = >>=-eq-ok (insert_entry clock e st) _ h in
      let one = entry_effect e st st1 h1 in
      let rest = entries_effect es st1 st' h2 in
      (ground (arith, one, rest), ground (arith, one, rest))

  -- The claims stay, and the jobs stay or one clock is set.
  pub outcome_effect :
      (outcome : SchedulerOutcomeWrite) (actor : String) (st st' : SchedulerStore)
      → write_scheduler_outcome clock outcome actor st ≡ ok st'
      → (st'.claims ≡ st.claims)
        × ((st'.jobs ≡ st.jobs)
            ⊎ ((update : SchedulerJobClockUpdate) × IsClocked clock update st st'))
  unfolding write_scheduler_outcome update_clock
  outcome_effect outcome actor st st' h =
      let (_, _, h1) = >>=-eq-ok (validate_scheduler_outcome clock outcome actor) _ h in
      let (_, _, h2) = >>=-eq-ok (check_run clock outcome outcome.run_id st) _ h1 in
      let (st1, he, h3) = >>=-eq-ok (insert_entries clock outcome.entries st) _ h2 in
      let same = entries_effect outcome.entries st st1 he in
      elim (Option-cases outcome.job_clock) [
        | inl e ↦ (ground (arith, e, h3, same), inl (ground (arith, e, h3, same)))
        | inr (update, e) ↦
            let h4 : update_scheduler_job_clock_tx clock update st1 ≡ ok st' =
              ground (arith, e, h3) in
            let (c, kept) = clock_effect clock update st1 st' h4 in
            (
              ground (arith, kept, same),
              inr (
                update,
                record {
                  job = c.job;
                  found = ground (arith, c.found, same);
                  next = c.next;
                  last = c.last;
                  next_parsed = c.next_parsed;
                  last_parsed = c.last_parsed;
                  checked = c.checked;
                  jobs = ground (arith, c.jobs, same);
                },
              ),
            )
      ]
