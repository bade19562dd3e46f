-- ===== src/Cli/Slo/Totals.antt =====
-- The totals of the rows that slo.rs lets through: they add up, and they fit a machine word.
use ocserv_fleet_agent.Common.Words.{checked, u64_max}
use ocserv_fleet_agent.Cli.Slo.Rows.{IsConsistent}
use ocserv_fleet_agent.Cli.Slo.Data.{
  SloWindow, HealthRollupRecord, window_seconds, bucket_seconds_of,
}
use ocserv_fleet_agent.Cli.Slo.Report.{
  StatusSums, SlotSeconds, status_sums, other_sums, slot_seconds,
}
use ocserv_fleet_agent.Cli.Slo.Sums.{total, sum-checked}
use ocserv_fleet_agent.Common.{
  ℕ, ◌≡◌, String, List, All, some, length, ◌≤◌, ◌/◌, arith, ◌+◌, ◌∷◌, [], ◌*◌, is_some, true, refl,
}

-- The sums of the rows let through: the statuses and the covered slots both add up to the samples.
pub total_statuses :
    (node_id : String) (window : SloWindow) (from to : String) (rows : List HealthRollupRecord)
    → All (IsConsistent node_id window from to) rows
    → (total (λ row. row.healthy_count) rows
          + total (λ row. row.degraded_count) rows
          + total (λ row. row.unreachable_count) rows
          + total (λ row. row.stale_count) rows
          + total (λ row. row.disabled_count) rows
          + total (λ row. row.unknown_count) rows
        ≡ total (λ row. row.health_samples) rows)
      × (total (λ row. row.health_samples) rows ≡ total (λ row. row.covered_slots) rows)
      × (total (λ row. row.observation_error_count) rows
          ≤ total (λ row. row.observation_count) rows)
      × (total (λ row. row.fingerprint_change_count) rows
          ≤ total (λ row. row.fingerprint_sample_count) rows)
total_statuses node_id window from to [] a = ground arith
total_statuses node_id window from to (row ∷ rows) a = ground (
  arith,
  a.0.statuses,
  a.0.sampled,
  a.0.errors,
  a.0.changes,
  total_statuses node_id window from to rows a.1,
)

pub window_slots : (window : SloWindow) → window_seconds window / 300 * 300 ≡ window_seconds window
unfolding window_seconds
window_slots SloWindow.hours24 = refl
window_slots SloWindow.days7 = refl
window_slots SloWindow.days30 = refl

-- At most a slot for every 300 seconds of every bucket.
covered_le :
    (node_id : String) (window : SloWindow) (from to : String) (rows : List HealthRollupRecord)
    → All (IsConsistent node_id window from to) rows
    → total (λ row. row.covered_slots) rows ≤ length rows * (bucket_seconds_of window / 300)
covered_le node_id window from to [] a = ground arith
covered_le node_id window from to (row ∷ rows) a =
    ground (arith, a.0.covered, a.0.slots, a.0.width, covered_le node_id window from to rows a.1)

pub covered_fits :
    (node_id : String) (window : SloWindow) (from to : String) (rows : List HealthRollupRecord)
    → All (IsConsistent node_id window from to) rows
    → length rows ≤ window_seconds window / bucket_seconds_of window
    → total (λ row. row.covered_slots) rows ≤ 8640
unfolding window_seconds bucket_seconds_of
covered_fits node_id SloWindow.hours24 from to rows a k =
    ground (arith, covered_le node_id SloWindow.hours24 from to rows a)
covered_fits node_id SloWindow.days7 from to rows a k =
    ground (arith, covered_le node_id SloWindow.days7 from to rows a)
covered_fits node_id SloWindow.days30 from to rows a k =
    ground (arith, covered_le node_id SloWindow.days30 from to rows a)

pub slot_seconds-some :
    (c m : ℕ) (s : StatusSums) (d : SlotSeconds)
    → slot_seconds c m s ≡ some d
    → (d.covered ≡ c * 300) × (d.missing ≡ m * 300)
unfolding slot_seconds checked
slot_seconds-some c m s d h = ground arith

pub other_sums_fits :
    (rows : List HealthRollupRecord)
    → total (λ row. row.health_samples) rows ≤ u64_max
    → total (λ row. row.covered_slots) rows ≤ u64_max
    → total (λ row. row.observation_count) rows ≤ u64_max
    → total (λ row. row.observation_error_count) rows ≤ u64_max
    → total (λ row. row.duration_sample_count) rows ≤ u64_max
    → total (λ row. row.cert_warning_count) rows ≤ u64_max
    → total (λ row. row.cert_critical_count) rows ≤ u64_max
    → total (λ row. row.fingerprint_sample_count) rows ≤ u64_max
    → total (λ row. row.fingerprint_change_count) rows ≤ u64_max
    → is_some (other_sums rows) ≡ true
unfolding other_sums checked
other_sums_fits rows a b c d e f g h i = ground (
  arith,
  sum-checked (λ row. row.health_samples) rows,
  sum-checked (λ row. row.covered_slots) rows,
  sum-checked (λ row. row.observation_count) rows,
  sum-checked (λ row. row.observation_error_count) rows,
  sum-checked (λ row. row.duration_sample_count) rows,
  sum-checked (λ row. row.cert_warning_count) rows,
  sum-checked (λ row. row.cert_critical_count) rows,
  sum-checked (λ row. row.fingerprint_sample_count) rows,
  sum-checked (λ row. row.fingerprint_change_count) rows,
)

pub status_sums_fits :
    (rows : List HealthRollupRecord)
    → total (λ row. row.healthy_count) rows
        + total (λ row. row.degraded_count) rows
        + total (λ row. row.unreachable_count) rows
        + total (λ row. row.stale_count) rows
        + total (λ row. row.disabled_count) rows
        + total (λ row. row.unknown_count) rows
      ≤ u64_max
    → is_some (status_sums rows) ≡ true
unfolding status_sums checked
status_sums_fits rows k = ground (
  arith,
  sum-checked (λ row. row.healthy_count) rows,
  sum-checked (λ row. row.degraded_count) rows,
  sum-checked (λ row. row.unreachable_count) rows,
  sum-checked (λ row. row.stale_count) rows,
  sum-checked (λ row. row.disabled_count) rows,
  sum-checked (λ row. row.unknown_count) rows,
)

pub slot_seconds_fits :
    (c m : ℕ) (s : StatusSums)
    → c ≤ 8640
    → m ≤ 8640
    → s.healthy + s.degraded + s.unreachable + s.stale + s.disabled + s.unknown ≤ 8640
    → is_some (slot_seconds c m s) ≡ true
unfolding slot_seconds checked
slot_seconds_fits c m s h g k = ground arith

pub window_le : (window : SloWindow) → window_seconds window / 300 ≤ 8640
unfolding window_seconds
window_le SloWindow.hours24 = omega arith
window_le SloWindow.days7 = omega arith
window_le SloWindow.days30 = omega arith
