-- ===== src/Cli/Slo/Sums.antt =====
-- The sums of slo.rs: a sum that does not overflow is the sum of the field over the rows, and a
-- share of two counts is a number of basis points.
use native.Mathlib.Nat.{div-le_of_le-mul, le-div_iff_mul-le, div-mul-le_self}
use ocserv_fleet_agent.Common.Words.{checked, u64_max}
use ocserv_fleet_agent.Common.{List, ℕ, ◌≡◌, ◌≤◌, ◌∷◌, ◌+◌, ◌*◌, some, arith, [], ◌/◌, suc, zero}
use ocserv_fleet_agent.Cli.Slo.Data.{HealthRollupRecord}
use ocserv_fleet_agent.Cli.Slo.Report.{
  sum_from, ratio_basis_points, status_sums, other_sums, StatusSums, OtherSums, sum,
}

abbrev pub total : (HealthRollupRecord → ℕ) → List HealthRollupRecord → ℕ
total field [] = 0
total field (row ∷ rows) = field row + total field rows

sum_from-checked :
    (acc : ℕ) (field : HealthRollupRecord → ℕ) (rows : List HealthRollupRecord)
    → acc ≤ u64_max
    → sum_from acc field rows ≡ checked (acc + total field rows)
unfolding sum_from checked
sum_from-checked acc field [] k = ground arith
sum_from-checked acc field (row ∷ rows) k =
    ground (arith, sum_from-checked (acc + field row) field rows)

pub sum-checked :
    (field : HealthRollupRecord → ℕ) (rows : List HealthRollupRecord)
    → sum field rows ≡ checked (total field rows)
sum-checked field rows = ground (arith, sum_from-checked 0 field rows)

scaled_le : (n d : ℕ) → n ≤ d → n * 10000 / d ≤ 10000
scaled_le n d k = div-le_of_le-mul d (omega arith)

pub ratio_le : (n d r : ℕ) → n ≤ d → ratio_basis_points n d ≡ some r → r ≤ 10000
unfolding ratio_basis_points checked
ratio_le n d r k h = ground (arith, scaled_le n d k)

scaled_mono : (n m d : ℕ) → n ≤ m → n * 10000 / d ≤ m * 10000 / d
scaled_mono n m zero k = ground arith
scaled_mono n m (suc d) k =
    (le-div_iff_mul-le (omega arith)).1 (omega (arith, div-mul-le_self (n * 10000) (suc d)))

pub ratio_mono :
    (n m d r q : ℕ)
    → n ≤ m
    → ratio_basis_points n d ≡ some r
    → ratio_basis_points m d ≡ some q
    → r ≤ q
unfolding ratio_basis_points checked
ratio_mono n m d r q k h g = ground (arith, scaled_mono n m d k)

-- What the record of status sums holds.
pub record IsStatusSums (rows : List HealthRollupRecord) (s : StatusSums) : Type 0 where
  pub healthy : s.healthy ≡ total (λ row. row.healthy_count) rows
  pub degraded : s.degraded ≡ total (λ row. row.degraded_count) rows
  pub unreachable : s.unreachable ≡ total (λ row. row.unreachable_count) rows
  pub stale : s.stale ≡ total (λ row. row.stale_count) rows
  pub disabled : s.disabled ≡ total (λ row. row.disabled_count) rows
  pub unknown : s.unknown ≡ total (λ row. row.unknown_count) rows
  pub serving : s.serving ≡ s.healthy + s.degraded
  pub eligible : s.eligible ≡ s.serving + s.unreachable + s.stale

pub status_sums-some :
    (rows : List HealthRollupRecord) (s : StatusSums)
    → status_sums rows ≡ some s
    → IsStatusSums rows s
unfolding status_sums checked
status_sums-some rows s h = ground (
  arith,
  sum-checked (λ row. row.healthy_count) rows,
  sum-checked (λ row. row.degraded_count) rows,
  sum-checked (λ row. row.unreachable_count) rows,
  sum-checked (λ row. row.stale_count) rows,
  sum-checked (λ row. row.disabled_count) rows,
  sum-checked (λ row. row.unknown_count) rows,
)

pub record IsOtherSums (rows : List HealthRollupRecord) (o : OtherSums) : Type 0 where
  pub health : o.health ≡ total (λ row. row.health_samples) rows
  pub covered : o.covered ≡ total (λ row. row.covered_slots) rows
  pub observations : o.observations ≡ total (λ row. row.observation_count) rows
  pub errors : o.observation_errors ≡ total (λ row. row.observation_error_count) rows

pub other_sums-some :
    (rows : List HealthRollupRecord) (o : OtherSums) → other_sums rows ≡ some o → IsOtherSums rows o
unfolding other_sums checked
other_sums-some rows o h = ground (
  arith,
  sum-checked (λ row. row.health_samples) rows,
  sum-checked (λ row. row.covered_slots) rows,
  sum-checked (λ row. row.observation_count) rows,
  sum-checked (λ row. row.observation_error_count) rows,
)
