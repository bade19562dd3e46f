-- ===== src/Cli/Scheduler/Fence.antt =====
-- The fence tokens over any sequence of calls.
use ocserv_fleet_agent.Cli.Scheduler.RunEffects.{start_effect}
use ocserv_fleet_agent.Cli.Scheduler.Runs.{write_scheduler_run_start_with_claim}
use ocserv_fleet_agent.Common.Assoc.{lookup-insert}
use ocserv_fleet_agent.Cli.Scheduler.Changes.{Change, step_change}
use ocserv_fleet_agent.Cli.Scheduler.Effects.{
  is_accepted, renew_effect, release_effect, acquire_effect,
}
use ocserv_fleet_agent.Cli.Scheduler.Claims.{fence_of, acquire_scheduler_claim_tx, claimed_row}
use ocserv_fleet_agent.Cli.Scheduler.Leases.{renew_scheduler_job_claim, release_scheduler_job_claim}
use ocserv_fleet_agent.Cli.Scheduler.Steps.{run_all, Operation, step}
use ocserv_fleet_agent.Cli.Scheduler.Records.{
  SchedulerStore, SchedulerJobClaim, find_claim, SchedulerRunStart,
}
use ocserv_fleet_agent.Cli.Scheduler.Checks.{SchedulerLibraries}
use ocserv_fleet_agent.Common.{
  ℕ, String, List, ◌<◌, Bool, ◌≤◌, Result-cases, arith, ◌≡◌, inl, ◌∷◌, false, inr, ok, ◌+◌, some,
  text_discrete, [],
}

module _ (clock : SchedulerLibraries) where
  -- The fence of a job's row; 0 where there is none.
  abbrev pub fence_in : String → SchedulerStore → ℕ
  fence_in job_id st = fence_of clock (find_claim job_id st)

  change_fence :
      (st st' : SchedulerStore) (op : Operation) (job_id : String)
      → Change clock st st' op
      → fence_in job_id st ≤ fence_in job_id st'
  change_fence st st' op job_id (Change.same e) = ground (arith, e)
  change_fence st st' op job_id (Change.acquired id owner_id now lease_seconds c t a) =
      let row = claimed_row clock owner_id (fence_of clock (find_claim id st) + 1) now a.lease in
      ground (arith, a.claims, lookup-insert text_discrete id job_id row st.claims)
  change_fence st st' op job_id (Change.kept id row after found (_, f, _) e) =
      ground (arith, f, e, found, lookup-insert text_discrete id job_id after st.claims)
  change_fence st st' op job_id (Change.shown c row after _ found _ f e) =
      ground (arith, f, e, found, lookup-insert text_discrete c.job_id job_id after st.claims)

  -- Over any calls, in any order, with success or without, the fence of no job goes down.
  pub fence_le-run_all :
      (ops : List Operation) (st : SchedulerStore) (job_id : String)
      → fence_in job_id st ≤ fence_in job_id (run_all clock ops st)
  unfolding run_all
  fence_le-run_all [] st job_id = omega arith
  fence_le-run_all (op ∷ ops) st job_id = omega (
    arith,
    change_fence st (step clock op st) op job_id (step_change clock op st).0,
    fence_le-run_all ops (step clock op st) job_id,
  )

  -- No renewal, release or start of a run with this claim succeeds.
  pub record IsRefused (c : SchedulerJobClaim) (st : SchedulerStore) : Type 0 where
    pub no_renewal :
        (now : String) (lease_seconds : ℕ) (actor : String)
        → is_accepted clock (renew_scheduler_job_claim clock c now lease_seconds actor st) ≡ false
    pub no_release :
        (at actor : String)
        → is_accepted clock (release_scheduler_job_claim clock c at actor st) ≡ false
    pub no_start :
        (run : SchedulerRunStart) (actor : String)
        → is_accepted clock (write_scheduler_run_start_with_claim clock run (some c) actor st)
          ≡ false

  pub behind-IsRefused :
      (c : SchedulerJobClaim) (st : SchedulerStore)
      → c.fence_token < fence_in c.job_id st
      → IsRefused c st
  behind-IsRefused c st h = record {
    no_renewal = λ now lease_seconds actor.
        elim (Result-cases (renew_scheduler_job_claim clock c now lease_seconds actor st)) [
          | inl (e, f) ↦ ground (arith, f)
          | inr ((d, st'), f) ↦
              let (row, _, found, by, _, _, _) =
                renew_effect clock c now lease_seconds actor st d st' f in
              ground (arith, found, by, h)
        ];
    no_release = λ at actor. elim (Result-cases (release_scheduler_job_claim clock c at actor st)) [
      | inl (e, f) ↦ ground (arith, f)
      | inr (st', f) ↦
          let (row, found, by, _, _, _) = release_effect clock c at actor st st' f in
          ground (arith, found, by, h)
    ];
    no_start = λ run actor.
        elim (Result-cases (write_scheduler_run_start_with_claim clock run (some c) actor st)) [
          | inl (e, f) ↦ ground (arith, f)
          | inr (st', f) ↦ elim (start_effect clock run (some c) actor st st' f).1 [
            | inl (e, _) ↦ ground (arith, e)
            | inr (d, row, e, found, by, _, _) ↦ ground (arith, e, found, by, h)
          ]
        ];
  }

  acquired_fence :
      (job_id owner_id now : String) (lease_seconds : ℕ) (actor : String) (require_due : Bool)
      (st st' : SchedulerStore) (c : SchedulerJobClaim)
      → acquire_scheduler_claim_tx clock job_id owner_id now lease_seconds actor require_due st
        ≡ ok (some c, st')
      → (c.job_id ≡ job_id)
        × (c.fence_token ≡ fence_in job_id st')
        × (c.fence_token ≡ fence_in job_id st + 1)
  acquired_fence job_id owner_id now lease_seconds actor require_due st st' c h =
      elim (acquire_effect clock job_id owner_id now lease_seconds actor require_due st (some c) st'
        h) [
          | inl (e, _) ↦ ground (arith, e)
          | inr (d, e, a) ↦
              let next = fence_of clock (find_claim job_id st) + 1 in
              let row = claimed_row clock owner_id next now a.lease in
              ground (
                arith,
                e,
                a.claim,
                a.claims,
                lookup-insert text_discrete job_id job_id row st.claims,
              )
        ]

  -- When a job is claimed, and claimed again after any calls in between, the second claim has the
  -- greater fence, and from then on, after any further calls, no renewal, no release and no start of a
  -- run with the first claim succeeds.
  pub superseded-IsRefused :
      (job_id first_owner first_now second_owner second_now : String) (first_lease second_lease : ℕ)
      (first_actor second_actor : String) (first_due second_due : Bool)
      (st st1 st2 : SchedulerStore) (c d : SchedulerJobClaim) (between after : List Operation)
      → acquire_scheduler_claim_tx clock job_id first_owner first_now first_lease first_actor
          first_due st
        ≡ ok (some c, st1)
      → acquire_scheduler_claim_tx clock job_id second_owner second_now second_lease second_actor
          second_due
          (run_all clock between st1)
        ≡ ok (some d, st2)
      → (c.fence_token < d.fence_token) × IsRefused c (run_all clock after st2)
  superseded-IsRefused job_id first_owner first_now second_owner second_now first_lease second_lease
        first_actor second_actor first_due second_due st st1 st2 c d between after h k =
      let (job_c, now_c, _) =
        acquired_fence job_id first_owner first_now first_lease first_actor first_due st st1 c h in
      let (job_d, now_d, next_d) =
        acquired_fence job_id second_owner second_now second_lease second_actor second_due
          (run_all clock between st1) st2 d k in
      let before = fence_le-run_all between st1 job_id in
      let since = fence_le-run_all after st2 job_id in
      let less : c.fence_token < d.fence_token = omega (arith, now_c, next_d, before) in
      (
        less,
        behind-IsRefused c (run_all clock after st2) (rw job_c (omega (arith, less, now_d, since))),
      )
