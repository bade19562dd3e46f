-- ===== src/Cli/Scheduler/Planning.antt =====
-- The times of a job and the calls of a tick, in crates/ocfleet-cli/src/scheduler.rs.
use ocserv_fleet_agent.Protocol.Method.{one_of}
use ocserv_fleet_agent.Cli.Scheduler.Records.{SchedulerJobClockUpdate}
use ocserv_fleet_agent.Cli.Input.{StoreError}
use ocserv_fleet_agent.Common.Words.{saturated, checked}
use ocserv_fleet_agent.Common.Int.{ℤ, ◌+ℤ◌, pos_part, pos, ◌-ℤ◌, ltb_ℤ, sub_ℕ}
use ocserv_fleet_agent.Cli.Scheduler.Checks.{SchedulerLibraries, i64_max, bad_input}
use ocserv_fleet_agent.Common.{
  ℕ, List, Option, String, Bool, none, some, if◌then◌else◌, Result, false, not, ◌*◌, ◌++◌, [], ◌∷◌,
  ◌+◌, ◌==◌, ◌&&◌, length, ◌^◌, suc, leb, ◌>>=◌, ◌-◌, ltb, ok_or, ◌%◌, ◌/◌, all, ◌||◌, zero, codes,
  ◌>>◌, reject, min, ok,
}

abbrev pub min_interval_seconds : ℕ
min_interval_seconds = 60

abbrev pub max_interval_seconds : ℕ
max_interval_seconds = 86400

abbrev pub max_reported_missed_intervals : ℕ
max_reported_missed_intervals = 10000

abbrev pub max_attempts : ℕ
max_attempts = 3

abbrev pub retry_base_ms : ℕ
retry_base_ms = 100

pub data IntervalError : Type 0 where
  no_unit no_number invalid_number not_positive too_large out_of_range : IntervalError

-- The last character, and the text before it.
unfoldable pub split_last : List ℕ → Option (List ℕ × ℕ)
split_last [] = none
split_last (c ∷ cs) = elim (split_last cs) [
  | none ↦ some ([], c)
  | some (front, last) ↦ some (c ∷ front, last)
]

unfoldable pub digits_from : ℕ → List ℕ → Option ℕ
digits_from n [] = some n
digits_from n (c ∷ cs) =
    let rest = digits_from (n * 10 + (c - b'0')) cs in
    if leb b'0' c && leb c b'9' then rest else none

-- At least one digit.
unfoldable pub digits : List ℕ → Option ℕ
digits [] = none
digits (c ∷ cs) = digits_from 0 (c ∷ cs)

-- `str::parse::<i64>`: a sign or none, and digits in range.
unfoldable pub parse_i64 : List ℕ → Option ℤ
parse_i64 [] = none
parse_i64 (c ∷ cs) =
    if c == b'-'
    then elim (digits cs) [
      | none ↦ none
      | some n ↦ if ltb (i64_max + 1) n then none else some (sub_ℕ 0 n)
    ]
    else elim (digits (if c == b'+' then cs else c ∷ cs)) [
      | none ↦ none
      | some n ↦ if ltb i64_max n then none else some (pos n)
    ]

unfoldable pub unit_seconds : ℕ → Option ℕ
unit_seconds unit =
    if unit == b's'
    then some 1
    else if unit == b'm'
    then some 60
    else if unit == b'h'
    then some 3600
    else if unit == b'd'
    then some 86400
    else none

unfoldable pub parse_interval_seconds : String → Result IntervalError ℕ
parse_interval_seconds value = do
  parts ← ok_or (split_last (codes value)) IntervalError.no_unit
  reject (length parts.0 == 0) IntervalError.no_number
  amount ← ok_or (parse_i64 parts.0) IntervalError.invalid_number
  reject (not (ltb_ℤ (pos 0) amount)) IntervalError.not_positive
  multiplier ← ok_or (unit_seconds parts.1) IntervalError.no_unit
  seconds ← ok_or (checked (pos_part amount * multiplier)) IntervalError.too_large
  reject (ltb i64_max seconds) IntervalError.too_large
  reject (ltb seconds min_interval_seconds || ltb max_interval_seconds seconds)
      IntervalError.out_of_range
  ok seconds

-- The fields of `ObservabilityJobRecord` that the clock reads.
pub record JobTimes : Type 0 where
  pub job_id : String
  pub interval_seconds : ℕ
  pub jitter_seconds : ℕ
  pub next_run_at : Option String

-- The first eight bytes of the digest of the job and the time (blake3), as a number, are an argument.
unfoldable pub scheduler_job_jitter_seconds : (String → String → ℕ) → JobTimes → String → ℕ
scheduler_job_jitter_seconds digest job finished_at =
    if job.jitter_seconds == 0 then 0 else digest job.job_id finished_at % (job.jitter_seconds + 1)

-- The instant of the next run: the run's end, the interval and the jitter.
unfoldable pub next_instant : (String → String → ℕ) → JobTimes → String → ℤ → ℤ
next_instant digest job finished_at finished =
    finished
    +ℤ pos
        ((job.interval_seconds + scheduler_job_jitter_seconds digest job finished_at) * 1000000000)

module _ (clock : SchedulerLibraries) (digest : String → String → ℕ) where
  unfoldable pub scheduler_job_clock : JobTimes → String → Result StoreError SchedulerJobClockUpdate
  scheduler_job_clock job finished_at = do
    reject (ltb i64_max job.interval_seconds) (bad_input "scheduler job interval is too large")
    reject (ltb i64_max (scheduler_job_jitter_seconds digest job finished_at))
        (bad_input "scheduler job jitter is too large")
    finished ←
        ok_or (clock.parse_rfc3339 finished_at) (bad_input "scheduler finished_at must be RFC3339")
    next_run_at ←
        ok_or (clock.format_rfc3339 (next_instant digest job finished_at finished))
          (bad_input "the next run cannot be formatted")
    ok (record { job_id = job.job_id; next_run_at = next_run_at; last_run_at = finished_at })

-- The whole intervals that have passed since a job was due, at least one, and at most the greatest
-- number that is reported.
unfoldable pub missed_between : ℕ → ℤ → ℤ → Option ℕ
missed_between interval_seconds scheduled now =
    let elapsed = pos_part (now -ℤ scheduled) / 1000000000 in
    if not (ltb_ℤ scheduled now) || interval_seconds == 0 || ltb elapsed interval_seconds
    then none
    else some (min (elapsed / interval_seconds) max_reported_missed_intervals)

-- What one attempt at a task has observed, and the audit records that it made.
pub record Attempt : Type 0 where
  pub observations : List (Bool × Option String)
  pub rpc_audits : List String

unfoldable pub is_transient : Bool × Option String → Bool
is_transient (is_ok, none) = false
is_transient (is_ok, some code) =
    not is_ok
    && one_of ("CONNECT_FAILED" ∷ "RPC_TIMEOUT" ∷ "SQLITE_BUSY_TIMEOUT" ∷ "RESOURCE_EXHAUSTED" ∷ [])
        code

unfoldable pub is_retryable : Attempt → Bool
is_retryable o = not (length o.observations == 0) && all is_transient o.observations

-- `100 * (1 << (attempt - 1))`, saturating.
abbrev pub backoff_ms : ℕ → ℕ
backoff_ms attempt = saturated (retry_base_ms * 2 ^ (attempt - 1))

-- The end of the retries: the last attempt's observations with all audits, and how many attempts
-- were made.
pub record Retried : Type 0 where
  pub outcome : Attempt
  pub attempts : ℕ

abbrev pub with_audits : Attempt → List String → Attempt
with_audits o audits = record { observations = o.observations; rpc_audits = audits ++ o.rpc_audits }

-- The loop from an attempt on, with so many left; none is the code's `unreachable!`.
unfoldable pub retry_from : (ℕ → Attempt) → ℕ → ℕ → List String → Option Retried
retry_from execute attempt zero prior_audits = none
retry_from execute attempt (suc left) prior_audits =
    let o = execute attempt in
    let again = retry_from execute (suc attempt) left (prior_audits ++ o.rpc_audits) in
    if not (is_retryable o) || attempt == max_attempts
    then some (record { outcome = with_audits o prior_audits; attempts = attempt })
    else again

unfoldable pub execute_scheduler_task_with_retry : (ℕ → Attempt) → Option Retried
execute_scheduler_task_with_retry execute = retry_from execute 1 max_attempts []

abbrev pub attempts_of : Option Retried → ℕ
attempts_of none = 0
attempts_of (some r) = r.attempts

module _ {T : Type 0} where
  unfoldable pub truncate : ℕ → List T → List T
  truncate zero tasks = []
  truncate (suc n) [] = []
  truncate (suc n) (t ∷ tasks) = t ∷ truncate n tasks

  -- The tasks that are kept, and the budget that is left.
  unfoldable pub limit_tasks_by_rpc_budget : List T → ℕ → List T × ℕ
  limit_tasks_by_rpc_budget tasks budget =
      if leb (length tasks) (budget / max_attempts)
      then (tasks, budget - length tasks * max_attempts)
      else (truncate (budget / max_attempts) tasks, budget - budget / max_attempts * max_attempts)

  -- The attempts at tasks, one after the other.
  unfoldable pub attempts_at : (T → ℕ → Attempt) → List T → ℕ
  attempts_at execute [] = 0
  attempts_at execute (t ∷ tasks) =
      attempts_of (execute_scheduler_task_with_retry (execute t)) + attempts_at execute tasks

  -- The attempts of a tick, whose jobs share the budget.
  unfoldable pub tick_attempts : (T → ℕ → Attempt) → List (List T) → ℕ → ℕ
  tick_attempts execute [] budget = 0
  tick_attempts execute (tasks ∷ jobs) budget =
      let limited = limit_tasks_by_rpc_budget tasks budget in
      attempts_at execute limited.0 + tick_attempts execute jobs limited.1
