-- ===== src/Cli/Scheduler/Exclusive.antt =====
-- A lease holds off every other claim of the job until it ends.
use ocserv_fleet_agent.Cli.Scheduler.Effects.{acquire_effect}
use ocserv_fleet_agent.Common.Assoc.{lookup-insert}
use ocserv_fleet_agent.Cli.Scheduler.Claims.{claimed_row, fence_of, acquire_scheduler_claim_tx}
use ocserv_fleet_agent.Cli.Scheduler.Changes.{op_time, Change, op_claim, step_change}
use ocserv_fleet_agent.Cli.Scheduler.Steps.{Operation, run_all, step}
use ocserv_fleet_agent.Common.Int.{ℤ, ◌<ℤ◌}
use ocserv_fleet_agent.Cli.Scheduler.Records.{
  SchedulerStore, ClaimRow, find_claim, SchedulerJobClaim,
}
use ocserv_fleet_agent.Cli.Scheduler.Checks.{SchedulerLibraries}
use ocserv_fleet_agent.Common.{
  ℕ, String, ◌≡◌, some, arith, List, All, ◌≢◌, ◌∷◌, ◌+◌, text_discrete, [], Bool, ok, inl, inr,
  refl,
}

module _ (clock : SchedulerLibraries) where
  -- The job's row has this owner, this fence and this lease.
  pub record IsHeld (job_id owner_id : String) (fence_token : ℕ) (lease : String)
      (st : SchedulerStore) : Type 0 where
    pub row : ClaimRow
    pub found : find_claim job_id st ≡ some row
    pub owner : row.owner_id ≡ some owner_id
    pub fence : row.fence_token ≡ fence_token
    pub until : row.lease_expires_at ≡ some lease

  pub acquired-IsHeld :
      (job_id owner_id now : String) (lease_seconds : ℕ) (actor : String) (require_due : Bool)
      (st st' : SchedulerStore) (c : SchedulerJobClaim)
      → acquire_scheduler_claim_tx clock job_id owner_id now lease_seconds actor require_due st
        ≡ ok (some c, st')
      → IsHeld job_id owner_id c.fence_token c.lease_expires_at st'
  acquired-IsHeld job_id owner_id now lease_seconds actor require_due st st' c h =
      elim (acquire_effect clock job_id owner_id now lease_seconds actor require_due st (some c) st'
        h) [
          | inl (e, _) ↦ ground (arith, e)
          | inr (d, e, a) ↦
              let next = fence_of clock (find_claim job_id st) + 1 in
              let row = claimed_row clock owner_id next now a.lease in
              record {
                row = row;
                found =
                    ground
                      (arith, a.claims, lookup-insert text_discrete job_id job_id row st.claims);
                owner = refl;
                fence = ground (arith, e, a.claim);
                until = ground (arith, e, a.claim);
              }
        ]

  -- A claiming call comes before the instant, and a renewal or release shows another claim.
  pub record IsForeign (job_id owner_id : String) (fence_token : ℕ) (expires : ℤ) (op : Operation)
      : Type 0 where
    pub earlier :
        (now : String) (t : ℤ)
        → op_time op ≡ some now
        → clock.parse_rfc3339 now ≡ some t
        → t <ℤ expires
    pub other :
        (c : SchedulerJobClaim)
        → op_claim op ≡ some c
        → c.job_id ≡ job_id
        → c.owner_id ≡ owner_id
        → c.fence_token ≢ fence_token

  module _ (job_id owner_id : String) (fence_token : ℕ) (lease : String) (expires : ℤ)
      (parsed : clock.parse_rfc3339 lease ≡ some expires) where
    change-IsHeld :
        (st st' : SchedulerStore) (op : Operation)
        → IsForeign job_id owner_id fence_token expires op
        → IsHeld job_id owner_id fence_token lease st
        → Change clock st st' op
        → IsHeld job_id owner_id fence_token lease st'
    change-IsHeld st st' op f h (Change.same e) = record {
      row = h.row;
      found = ground (arith, e, h.found);
      owner = h.owner;
      fence = h.fence;
      until = h.until;
    }
    change-IsHeld st st' op f h (Change.acquired id new_owner now lease_seconds c t a) =
        let before_end = f.earlier now a.at t a.parsed in
        let row = claimed_row clock new_owner (fence_of clock (find_claim id st) + 1) now a.lease in
        record {
          row = h.row;
          found = ground (
            arith,
            before_end,
            parsed,
            h.found,
            h.owner,
            h.until,
            a.not_live,
            a.claims,
            lookup-insert text_discrete id job_id row st.claims,
          );
          owner = h.owner;
          fence = h.fence;
          until = h.until;
        }
    change-IsHeld st st' op f h (Change.kept id row after found (o, fe, u) e) =
        elim (text_discrete id job_id) [
          | yes p ↦ record {
            row = after;
            found = ground (arith, p, e, lookup-insert text_discrete id job_id after st.claims);
            owner = ground (arith, p, found, h.found, o, h.owner);
            fence = ground (arith, p, found, h.found, fe, h.fence);
            until = ground (arith, p, found, h.found, u, h.until);
          }
          | no p ↦ record {
            row = h.row;
            found =
                ground
                  (arith, p, e, h.found, lookup-insert text_discrete id job_id after st.claims);
            owner = h.owner;
            fence = h.fence;
            until = h.until;
          }
        ]
    change-IsHeld st st' op f h (Change.shown c row after t found by fe e) = record {
      row = h.row;
      found = ground (
        arith,
        f.other c t,
        found,
        by,
        e,
        h.found,
        h.owner,
        h.fence,
        lookup-insert text_discrete c.job_id job_id after st.claims,
      );
      owner = h.owner;
      fence = h.fence;
      until = h.until;
    }

    -- While a job is held under a lease, any calls whose claiming times come before the end of the
    -- lease, and that neither renew nor release with this claim, leave the job's owner, its fence and
    -- its lease as they are: nobody else claims the job.
    pub run_all-IsHeld :
        (ops : List Operation) (st : SchedulerStore)
        → All (IsForeign job_id owner_id fence_token expires) ops
        → IsHeld job_id owner_id fence_token lease st
        → IsHeld job_id owner_id fence_token lease (run_all clock ops st)
    unfolding run_all
    run_all-IsHeld [] st a h = h
    run_all-IsHeld (op ∷ ops) st a h =
        run_all-IsHeld ops (step clock op st) a.1
          (change-IsHeld st (step clock op st) op a.0 h (step_change clock op st).0)
