-- ===== src/Cli/Slo/Checks.antt =====
-- The tests that slo.rs makes of each row, and its loop over the rows.
use ocserv_fleet_agent.Common.Options.{◌>>=◌, ◌>>◌, reject}
use ocserv_fleet_agent.Common.Words.{checked}
use ocserv_fleet_agent.Common.{
  ℕ, String, some, Bool, Option, not, List, ◌+◌, ltb, ◌==◌, false, decided, ◌∷◌, true, ◌/◌, is_some,
  text_discrete, ◌||◌, [], ◌&&◌, before, codes,
}
use ocserv_fleet_agent.Cli.Slo.Data.{HealthRollupRecord, SloWindow, bucket_seconds_of}

-- The six counts of a row, added with an overflow check.
unfoldable pub status_total : HealthRollupRecord → Option ℕ
status_total row = do
  a ← checked (row.healthy_count + row.degraded_count)
  b ← checked (a + row.unreachable_count)
  c ← checked (b + row.stale_count)
  d ← checked (c + row.disabled_count)
  checked (d + row.unknown_count)

-- `p50 > p95`, where both are known
abbrev pub is_inverted : Option ℕ → Option ℕ → Bool
is_inverted (some p50) (some p95) = ltb p95 p50
is_inverted _ _ = false

abbrev pub iff : Bool → Bool → Bool
iff true b = b
iff false b = not b

-- The tests of a row on its own counts.
unfoldable pub counts_rejected : HealthRollupRecord → ℕ → Bool
counts_rejected row total =
    not (row.expected_slots == row.bucket_seconds / 300)
    || not (row.health_samples == row.covered_slots)
    || ltb row.expected_slots row.covered_slots
    || not (total == row.health_samples)
    || ltb row.observation_count row.observation_error_count
    || ltb row.fingerprint_sample_count row.fingerprint_change_count

unfoldable pub latency_rejected : HealthRollupRecord → Bool
latency_rejected row =
    not (
      iff (row.duration_sample_count == 0)
        (not (is_some row.duration_p50_ms) && not (is_some row.duration_p95_ms)))
    || is_inverted row.duration_p50_ms row.duration_p95_ms

-- `bucket_starts.contains(start)`
unfoldable pub seen : String → List String → Bool
seen s [] = false
seen s (t ∷ ts) = decided (text_discrete s t) || seen s ts

module _ (node_id : String) (window : SloWindow) (from to : String) where
  -- The tests of a row against the report, and its start against the starts before it.
  unfoldable pub place_rejected : HealthRollupRecord → List String → Bool
  place_rejected row bucket_starts =
      not (decided (text_discrete row.node_id node_id))
      || not (row.bucket_seconds == bucket_seconds_of window)
      || before (codes row.bucket_start) (codes from)
      || not (before (codes row.bucket_start) (codes to))
      || seen row.bucket_start bucket_starts

  -- The loop over the rows.
  unfoldable pub check_rows : List HealthRollupRecord → List String → Option (Unit {0})
  check_rows [] bucket_starts = some tt
  check_rows (row ∷ rows) bucket_starts = do
    total ← status_total row
    reject (place_rejected row bucket_starts || counts_rejected row total || latency_rejected row)
    check_rows rows (row.bucket_start ∷ bucket_starts)
