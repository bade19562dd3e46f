-- ===== src/Cli/Scheduler/Records.antt =====
-- The tables of the scheduler in store.rs: jobs, runs, claims, and the records that its calls take.
use ocserv_fleet_agent.Common.Assoc.{lookup, insert}
use ocserv_fleet_agent.Cli.Health.Records.{ProbeObservationRecord}
use ocserv_fleet_agent.Common.{ℕ, String, Option, List, ◌∷◌, Bool, text_discrete}

pub record SchedulerJobClaim : Type 0 where
  pub job_id : String
  pub owner_id : String
  pub fence_token : ℕ
  pub claimed_at : String
  pub lease_expires_at : String
  pub active_run_id : Option String

-- A row of `scheduler_job_claims`, under its job.
pub record ClaimRow : Type 0 where
  pub owner_id : Option String
  pub fence_token : ℕ
  pub claimed_at : Option String
  pub lease_expires_at : Option String
  pub active_run_id : Option String
  pub updated_at : String

-- A row of `observability_jobs`: the columns that the scheduler reads and writes.
pub record JobRow : Type 0 where
  pub kind : String
  pub is_enabled : Bool
  pub next_run_at : Option String
  pub last_run_at : Option String

pub data RunStatus : Type 0 where
  running succeeded failed skipped : RunStatus

-- `RunSummaryPayloadV1`
pub record RunSummary : Type 0 where
  pub job_id : Option String
  pub kind : Option String
  pub status : RunStatus
  pub observations : Option ℕ
  pub failed_observations : Option ℕ

-- A row of `observability_runs`, under its identifier.
pub record RunRow : Type 0 where
  pub job_id : Option String
  pub started_at : String
  pub finished_at : Option String
  pub status : RunStatus
  pub triggered_by : String
  pub summary : RunSummary

-- The audit event that comes with an outcome: the fields that are checked.
pub record AuditEvent : Type 0 where
  pub actor : String
  pub event : String
  pub node_id : Option String
  pub endpoint_id : Option String
  pub method : Option String
  pub is_ok : Option Bool
  pub error_code : Option String
  pub duration_ms : Option ℕ

-- The audit events of the scheduler.
pub data SchedulerAudit : Type 0 where
  claim_event : (name : String) (claim : SchedulerJobClaim) (actor state : String) → SchedulerAudit
  run_event :
      (name run_id : String) (is_ok : Bool) (error : Option String) (summary : RunSummary)
      (actor : String)
      → SchedulerAudit
  outcome_event : AuditEvent → SchedulerAudit

-- `ProbeObservationInsert` has the fields of `ProbeObservationRecord`.
pub record SchedulerOutcomeEntry : Type 0 where
  pub observation : ProbeObservationRecord
  pub audit : AuditEvent

pub record SchedulerStore : Type 0 where
  pub jobs : List (String × JobRow)
  pub runs : List (String × RunRow)
  pub claims : List (String × ClaimRow)
  pub observations : List ProbeObservationRecord
  pub audit : List SchedulerAudit

pub record SchedulerRunStart : Type 0 where
  pub run_id : String
  pub job_id : String
  pub started_at : String

pub record SchedulerJobClockUpdate : Type 0 where
  pub job_id : String
  pub next_run_at : String
  pub last_run_at : String

pub record SchedulerRunFinish : Type 0 where
  pub run_id : String
  pub finished_at : String
  pub job_clock : SchedulerJobClockUpdate

abbrev pub find_job : String → SchedulerStore → Option JobRow
find_job id st = lookup text_discrete id st.jobs

abbrev pub find_run : String → SchedulerStore → Option RunRow
find_run id st = lookup text_discrete id st.runs

abbrev pub find_claim : String → SchedulerStore → Option ClaimRow
find_claim id st = lookup text_discrete id st.claims

abbrev pub put_job : String → JobRow → SchedulerStore → SchedulerStore
put_job id row st = record {
  jobs = insert text_discrete id row st.jobs;
  runs = st.runs;
  claims = st.claims;
  observations = st.observations;
  audit = st.audit;
}

abbrev pub put_run : String → RunRow → SchedulerStore → SchedulerStore
put_run id row st = record {
  jobs = st.jobs;
  runs = insert text_discrete id row st.runs;
  claims = st.claims;
  observations = st.observations;
  audit = st.audit;
}

abbrev pub put_claim : String → ClaimRow → SchedulerStore → SchedulerStore
put_claim id row st = record {
  jobs = st.jobs;
  runs = st.runs;
  claims = insert text_discrete id row st.claims;
  observations = st.observations;
  audit = st.audit;
}

abbrev pub add_audit : SchedulerAudit → SchedulerStore → SchedulerStore
add_audit event st = record {
  jobs = st.jobs;
  runs = st.runs;
  claims = st.claims;
  observations = st.observations;
  audit = event ∷ st.audit;
}

pub record SchedulerOutcomeWrite : Type 0 where
  pub job_id : String
  pub run_id : Option String
  pub entries : List SchedulerOutcomeEntry
  pub job_clock : Option SchedulerJobClockUpdate

abbrev pub add_observation : ProbeObservationRecord → SchedulerStore → SchedulerStore
add_observation o st = record {
  jobs = st.jobs;
  runs = st.runs;
  claims = st.claims;
  observations = o ∷ st.observations;
  audit = st.audit;
}
