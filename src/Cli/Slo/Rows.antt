-- ===== src/Cli/Slo/Rows.antt =====
-- The loop of slo.rs over the rows: which rows it lets through.
use ocserv_fleet_agent.Common.Words.{checked, u64_max}
use ocserv_fleet_agent.Common.{
  Option, String, ℕ, List, ◌≡◌, ◌∷◌, Any, false, some, ◌≤◌, ◌↔◌, before, [], arith, All, codes, ◌+◌,
  ◌/◌, none, true,
}
use ocserv_fleet_agent.Cli.Slo.Data.{SloWindow, HealthRollupRecord, bucket_seconds_of}
use ocserv_fleet_agent.Cli.Slo.Checks.{
  seen, status_total, place_rejected, counts_rejected, latency_rejected, check_rows,
}

abbrev pub InOrder : Option ℕ → Option ℕ → Type 0
InOrder (some p50) (some p95) = p50 ≤ p95
InOrder _ _ = Unit

module _ (node_id : String) (window : SloWindow) (from to : String) where
  -- The row is one of this report, and its counts agree with one another.
  pub record IsConsistent (row : HealthRollupRecord) : Type 0 where
    pub node : row.node_id ≡ node_id
    pub width : row.bucket_seconds ≡ bucket_seconds_of window
    pub not_before : before (codes row.bucket_start) (codes from) ≡ false
    pub inside : before (codes row.bucket_start) (codes to) ≡ true
    pub slots : row.expected_slots ≡ row.bucket_seconds / 300
    pub sampled : row.health_samples ≡ row.covered_slots
    pub covered : row.covered_slots ≤ row.expected_slots
    pub statuses :
        row.healthy_count + row.degraded_count + row.unreachable_count + row.stale_count
          + row.disabled_count + row.unknown_count
        ≡ row.health_samples
    pub fits : row.health_samples ≤ u64_max
    pub errors : row.observation_error_count ≤ row.observation_count
    pub changes : row.fingerprint_change_count ≤ row.fingerprint_sample_count
    pub timed :
        (row.duration_sample_count ≡ 0)
        ↔ ((row.duration_p50_ms ≡ none) × (row.duration_p95_ms ≡ none))
    pub percentiles : InOrder row.duration_p50_ms row.duration_p95_ms

  -- No row starts where an earlier one or one of the given starts does.
  abbrev pub Apart : List HealthRollupRecord → List String → Type 0
  Apart [] starts = Unit
  Apart (row ∷ rows) starts =
      (¬ Any (λ s. row.bucket_start ≡ s) starts) × Apart rows (row.bucket_start ∷ starts)

  seen-none : (s : String) (ts : List String) → (seen s ts ≡ false) ↔ (¬ Any (λ t. s ≡ t) ts)
  unfolding seen
  seen-none s [] = ground arith
  seen-none s (t ∷ ts) = ground (arith, seen-none s ts)

  abbrev statuses_of : HealthRollupRecord → ℕ
  statuses_of row =
      row.healthy_count + row.degraded_count + row.unreachable_count + row.stale_count
      + row.disabled_count + row.unknown_count

  status_total_lem : (row : HealthRollupRecord) → status_total row ≡ checked (statuses_of row)
  unfolding status_total checked
  status_total_lem row = ground arith

  place_accepted :
      (row : HealthRollupRecord) (starts : List String)
      → (place_rejected node_id window from to row starts ≡ false) ↔ (
          (row.node_id ≡ node_id)
          × (row.bucket_seconds ≡ bucket_seconds_of window)
          × (before (codes row.bucket_start) (codes from) ≡ false)
          × (before (codes row.bucket_start) (codes to) ≡ true)
          × (¬ Any (λ s. row.bucket_start ≡ s) starts))
  unfolding place_rejected
  place_accepted row starts = ground (arith, seen-none row.bucket_start starts)

  counts_accepted :
      (row : HealthRollupRecord) (t : ℕ)
      → (counts_rejected row t ≡ false) ↔ (
          (row.expected_slots ≡ row.bucket_seconds / 300)
          × (row.health_samples ≡ row.covered_slots)
          × (row.covered_slots ≤ row.expected_slots)
          × (t ≡ row.health_samples)
          × (row.observation_error_count ≤ row.observation_count)
          × (row.fingerprint_change_count ≤ row.fingerprint_sample_count))
  unfolding counts_rejected
  counts_accepted row t = ground arith

  latency_accepted :
      (row : HealthRollupRecord)
      → (latency_rejected row ≡ false) ↔ (
          ((row.duration_sample_count ≡ 0)
            ↔ ((row.duration_p50_ms ≡ none) × (row.duration_p95_ms ≡ none)))
          × InOrder row.duration_p50_ms row.duration_p95_ms)
  unfolding latency_rejected
  latency_accepted row = ground arith

  -- The loop passes exactly when every row is one of this report with counts that agree, no
  -- total overflows, and no two rows (nor a start seen before) share a start.
  pub check_rows_iff :
      (rows : List HealthRollupRecord) (starts : List String)
      → (check_rows node_id window from to rows starts ≡ some tt)
        ↔ (All IsConsistent rows × Apart rows starts)
  unfolding check_rows checked
  check_rows_iff [] starts = ground arith
  check_rows_iff (row ∷ rows) starts = ground (
    arith,
    place_accepted row starts,
    counts_accepted row (statuses_of row),
    latency_accepted row,
    status_total_lem row,
    check_rows_iff rows (row.bucket_start ∷ starts),
  )
