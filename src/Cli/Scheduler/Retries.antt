-- ===== src/Cli/Scheduler/Retries.antt =====
-- The attempts of a tick against its budget, and the interval of a job.
use ocserv_fleet_agent.Cli.Scheduler.Planning.{
  retry_from, execute_scheduler_task_with_retry, truncate, attempts_at, limit_tasks_by_rpc_budget,
  tick_attempts, Attempt, Retried, max_attempts, is_retryable, with_audits,
}
use ocserv_fleet_agent.Common.{
  ℕ, List, String, ◌≡◌, length, ◌≤◌, ◌+◌, some, arith, ◌*◌, ◌<◌, suc, ◌∷◌, ◌/◌, zero, [], false,
  ◌⊎◌, Bool-cases, refl, not, ◌||◌, ◌==◌, inl, inr, ◌++◌,
}

retry_from_lem :
    (execute : ℕ → Attempt) (attempt left : ℕ) (audits : List String)
    → attempt + left ≡ 4
    → 0 < left
    → (r : Retried) × (retry_from execute attempt left audits ≡ some r)
      × (r.attempts ≤ max_attempts)
      × ((is_retryable (execute r.attempts) ≡ false) ⊎ (r.attempts ≡ max_attempts))
unfolding retry_from
retry_from_lem execute attempt zero audits h k = ground arith
retry_from_lem execute attempt (suc left) audits h k =
    let o = execute attempt in
    elim (Bool-cases (not (is_retryable o) || attempt == max_attempts)) [
      | inl e ↦ (
        record { outcome = with_audits o audits; attempts = attempt },
        ground (arith, e),
        ground (arith, h),
        ground (arith, e),
      )
      | inr e ↦
          let more : 0 < left = ground (arith, e, h) in
          let (r, f, g, last) =
            retry_from_lem execute (suc attempt) left (audits ++ o.rpc_audits) (omega (arith, h))
              more in
          (r, ground (arith, e, f), g, last)
    ]

retried :
    (execute : ℕ → Attempt)
    → (r : Retried) × (execute_scheduler_task_with_retry execute ≡ some r)
      × (r.attempts ≤ max_attempts)
      × ((is_retryable (execute r.attempts) ≡ false) ⊎ (r.attempts ≡ max_attempts))
unfolding execute_scheduler_task_with_retry
retried execute = retry_from_lem execute 1 max_attempts [] refl (omega arith)

module _ {T : Type 0} where
  length-truncate : (n : ℕ) (tasks : List T) → length (truncate n tasks) ≤ n
  unfolding truncate
  length-truncate zero tasks = omega arith
  length-truncate (suc n) [] = omega arith
  length-truncate (suc n) (t ∷ tasks) = omega (arith, length-truncate n tasks)

  attempts_le :
      (execute : T → ℕ → Attempt) (tasks : List T)
      → attempts_at execute tasks ≤ length tasks * max_attempts
  unfolding attempts_at
  attempts_le execute [] = omega arith
  attempts_le execute (t ∷ tasks) =
      let (r, e, k, _) = retried (execute t) in
      let ih = attempts_le execute tasks in ground (arith, e, k, ih)

  limited_le :
      (tasks : List T) (budget : ℕ)
      → length (limit_tasks_by_rpc_budget tasks budget).0 * max_attempts
          + (limit_tasks_by_rpc_budget tasks budget).1
        ≤ budget
  unfolding limit_tasks_by_rpc_budget
  limited_le tasks budget = ground (arith, length-truncate (budget / max_attempts) tasks)

  tick_le :
      (execute : T → ℕ → Attempt) (jobs : List (List T)) (budget : ℕ)
      → tick_attempts execute jobs budget ≤ budget
  unfolding tick_attempts
  tick_le execute [] budget = omega arith
  tick_le execute (tasks ∷ jobs) budget =
      let limited = limit_tasks_by_rpc_budget tasks budget in
      omega (
        arith,
        limited_le tasks budget,
        attempts_le execute limited.0,
        tick_le execute jobs limited.1,
      )

  -- Whatever the jobs of a tick and whatever their attempts observe, every task that is executed ends
  -- within three attempts, so that the loop never runs past its end, and the attempts of all tasks
  -- together are at most the budget of the tick.
  pub tick_attempts_bounded :
      (execute : T → ℕ → Attempt) (jobs : List (List T)) (budget : ℕ)
      → ((t : T)
          → (r : Retried) × (execute_scheduler_task_with_retry (execute t) ≡ some r)
            × (r.attempts ≤ max_attempts)
            × ((is_retryable (execute t r.attempts) ≡ false) ⊎ (r.attempts ≡ max_attempts)))
        × (tick_attempts execute jobs budget ≤ budget)
  tick_attempts_bounded execute jobs budget =
      ((λ t. retried (execute t)), tick_le execute jobs budget)
