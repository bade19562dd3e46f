-- ===== src/Tests/Planning.antt =====
-- Intervals, and the attempts of a tick with a budget for two tasks.
use ocserv_fleet_agent.Common.Int.{◌+ℤ◌, ◌-ℤ◌, scale, ℤ_discrete}
use ocserv_fleet_agent.Common.Words.{checked}
use ocserv_fleet_agent.Protocol.Method.{one_of, classify_phase_one_method}
use ocserv_fleet_agent.Cli.Scheduler.Retries.{tick_attempts_bounded}
use ocserv_fleet_agent.Cli.Scheduler.Planning.{
  split_last, Attempt, Retried, digits_from, execute_scheduler_task_with_retry, digits, parse_i64,
  unit_seconds, parse_interval_seconds, max_attempts, scheduler_job_jitter_seconds, is_retryable,
  next_instant, scheduler_job_clock, tick_attempts, missed_between, is_transient, retry_from,
  truncate, limit_tasks_by_rpc_budget, attempts_at, IntervalError,
}
use ocserv_fleet_agent.Common.{
  ℕ, text_discrete, String, List, ◌∷◌, if◌then◌else◌, [], ◌==◌, ◌≡◌, false, some, true, ◌≤◌, none,
  ◌⊎◌, refl, ok, err,
}

hours : parse_interval_seconds "2h" ≡ ok 7200
unfolding text_discrete split_last digits_from digits parse_i64 unit_seconds parse_interval_seconds
    scheduler_job_jitter_seconds next_instant scheduler_job_clock missed_between is_transient
    is_retryable retry_from execute_scheduler_task_with_retry truncate limit_tasks_by_rpc_budget
    attempts_at tick_attempts checked ◌+ℤ◌ ◌-ℤ◌ scale ℤ_discrete
hours = refl

too_short : parse_interval_seconds "59s" ≡ err IntervalError.out_of_range
unfolding text_discrete split_last digits_from digits parse_i64 unit_seconds parse_interval_seconds
    scheduler_job_jitter_seconds next_instant scheduler_job_clock missed_between is_transient
    is_retryable retry_from execute_scheduler_task_with_retry truncate limit_tasks_by_rpc_budget
    attempts_at tick_attempts checked ◌+ℤ◌ ◌-ℤ◌ scale ℤ_discrete
too_short = refl

-- The first attempt times out, the second succeeds.
abbrev execute : String → ℕ → Attempt
execute task attempt = record {
  observations = (if attempt == 1 then (false, some "RPC_TIMEOUT") else (true, none)) ∷ [];
  rpc_audits = task ∷ [];
}

abbrev jobs : List (List String)
jobs = ("a" ∷ "b" ∷ "c" ∷ []) ∷ ("d" ∷ []) ∷ []

four_attempts : tick_attempts execute jobs 7 ≡ 4
unfolding text_discrete split_last digits_from digits parse_i64 unit_seconds parse_interval_seconds
    scheduler_job_jitter_seconds next_instant scheduler_job_clock missed_between is_transient
    is_retryable retry_from execute_scheduler_task_with_retry truncate limit_tasks_by_rpc_budget
    attempts_at tick_attempts one_of classify_phase_one_method
four_attempts = refl

tick_attempts_bounded_example :
    ((t : String)
      → (r : Retried) × (execute_scheduler_task_with_retry (execute t) ≡ some r)
        × (r.attempts ≤ max_attempts)
        × ((is_retryable (execute t r.attempts) ≡ false) ⊎ (r.attempts ≡ max_attempts)))
    × (tick_attempts execute jobs 7 ≤ 7)
tick_attempts_bounded_example = tick_attempts_bounded execute jobs 7
