-- ===== src/Cli/Slo/Projected.antt =====
-- The report of slo.rs: what its figures say of the window and of one another.
use ocserv_fleet_agent.Cli.Slo.Totals.{
  window_le, total_statuses, slot_seconds_fits, slot_seconds-some, covered_fits, window_slots,
  status_sums_fits, other_sums_fits,
}
use ocserv_fleet_agent.Common.Words.{u64_max}
use ocserv_fleet_agent.Cli.Slo.Rows.{IsConsistent, Apart, check_rows_iff, InOrder}
use ocserv_fleet_agent.Cli.Slo.Report.{
  projection, summarize, StatusSums, OtherSums, SlotSeconds, status_sums, other_sums, slot_seconds,
  projection, project_health_slo,
}
use ocserv_fleet_agent.Cli.Slo.Data.{
  SloWindow, HealthRollupRecord, HealthSloProjection, window_seconds, bucket_seconds_of,
}
use ocserv_fleet_agent.Cli.Slo.Sums.{total, status_sums-some, other_sums-some, ratio_le, ratio_mono}
use ocserv_fleet_agent.Common.{
  ℕ, ◌≡◌, String, List, All, some, length, ◌≤◌, ◌/◌, min, ◌-◌, arith, ◌+◌, [], is_some, true, refl,
  sym, ap, ◌∙◌, Option, none,
}

-- The sums that a report is made of.
summarize_inv :
    (node_id : String) (window : SloWindow) (from to : String) (rows : List HealthRollupRecord)
    (p : HealthSloProjection)
    → summarize node_id window from to rows ≡ some p
    → (s : StatusSums) × (o : OtherSums) × (d : SlotSeconds) × (status_sums rows ≡ some s)
      × (other_sums rows ≡ some o)
      × (slot_seconds
            (min o.covered (window_seconds window / 300))
            (window_seconds window / 300 - min o.covered (window_seconds window / 300))
            s
          ≡ some d)
      × (p
          ≡ projection node_id window from to rows
              (min o.covered (window_seconds window / 300))
              (window_seconds window / 300 - min o.covered (window_seconds window / 300))
              s
              o
              d)
unfolding summarize
summarize_inv node_id window from to rows p h = ground arith

summarize-some :
    (node_id : String) (window : SloWindow) (from to : String) (rows : List HealthRollupRecord)
    (s : StatusSums) (o : OtherSums)
    → status_sums rows ≡ some s
    → other_sums rows ≡ some o
    → s.healthy + s.degraded + s.unreachable + s.stale + s.disabled + s.unknown ≤ 8640
    → is_some (summarize node_id window from to rows) ≡ true
unfolding summarize
summarize-some node_id window from to rows s o hs ho k = ground (
  arith,
  window_le window,
  slot_seconds_fits (min o.covered (window_seconds window / 300))
      (window_seconds window / 300 - min o.covered (window_seconds window / 300)) s,
)

is_some-eq {ℓ} : {A : Type ℓ} (o : Option A) → is_some o ≡ true → (a : A) × (o ≡ some a)
is_some-eq none h = cc
is_some-eq (some a) h = (a, refl)

-- The value, if there is one, is at most the bound.
abbrev pub AtMost : ℕ → Option ℕ → Type 0
AtMost n none = Unit
AtMost n (some r) = r ≤ n

AtMost-of : (o : Option ℕ) → ((r : ℕ) → o ≡ some r → r ≤ 10000) → AtMost 10000 o
AtMost-of none f = tt
AtMost-of (some r) f = f r refl

InOrder-of : (o u : Option ℕ) → ((r q : ℕ) → o ≡ some r → u ≡ some q → r ≤ q) → InOrder o u
InOrder-of none u f = tt
InOrder-of (some r) none f = tt
InOrder-of (some r) (some q) f = f r q refl refl

module _ (node_id : String) (window : SloWindow) (from to : String)
    (rows : List HealthRollupRecord) where
  -- A report is given only for at most one row for each bucket of the window, all of them rows of
  -- the node and the window whose counts agree, no two with the same start, and it is then what
  -- the sums over the rows give.
  pub projected_rows :
      (p : HealthSloProjection)
      → project_health_slo node_id window from to rows ≡ some p
      → (length rows ≤ window_seconds window / bucket_seconds_of window)
        × All (IsConsistent node_id window from to) rows
        × Apart node_id window from to rows []
        × (summarize node_id window from to rows ≡ some p)
  unfolding project_health_slo
  projected_rows p h = ground (arith, check_rows_iff node_id window from to rows [])

  -- The figures of a report account for the whole window: covered and missing slots add up to the
  -- slots of the window and their durations to its seconds, the six statuses add up to the
  -- samples, the covered slots are the samples, cut at the slots of the window, the samples that
  -- count for availability are those that are not disabled or unknown, and the buckets present
  -- are as many as the rows.
  pub accounts :
      (p : HealthSloProjection)
      → project_health_slo node_id window from to rows ≡ some p
      → (p.covered_slots + p.missing_slots ≡ p.expected_slots)
        × (p.covered_duration_seconds + p.missing_duration_seconds ≡ window_seconds window)
        × (p.healthy_samples + p.degraded_samples + p.unreachable_samples + p.stale_samples
              + p.disabled_samples + p.unknown_samples
            ≡ p.health_samples)
        × (p.covered_slots ≡ min p.health_samples p.expected_slots)
        × (p.availability_eligible_samples + p.disabled_samples + p.unknown_samples
            ≡ p.health_samples)
        × (p.present_buckets ≡ length rows)
  unfolding projection
  accounts p h =
      let rows_of = projected_rows p h in
      let (s, o, d, hs, ho, hd, hp) = summarize_inv node_id window from to rows p rows_of.3 in
      let sums = status_sums-some rows s hs in
      let others = other_sums-some rows o ho in
      let add_up = total_statuses node_id window from to rows rows_of.1 in
      ground (
        arith,
        hp,
        rows_of.0,
        add_up,
        sums.healthy,
        sums.degraded,
        sums.unreachable,
        sums.stale,
        sums.disabled,
        sums.unknown,
        sums.serving,
        sums.eligible,
        others.health,
        others.covered,
        others.observations,
        others.errors,
        slot_seconds-some _ _ s d hd,
        window_slots window,
      )

  -- Every share of a report is at most 10,000 basis points, and the strictly healthy share is at
  -- most the share of available service.
  pub shares :
      (p : HealthSloProjection)
      → project_health_slo node_id window from to rows ≡ some p
      → AtMost 10000 p.coverage_basis_points
        × AtMost 10000 p.service_available_basis_points
        × AtMost 10000 p.strictly_healthy_basis_points
        × AtMost 10000 p.observation_error_basis_points
        × InOrder p.strictly_healthy_basis_points p.service_available_basis_points
  unfolding projection
  shares p h =
      let rows_of = projected_rows p h in
      let (s, o, d, hs, ho, hd, hp) = summarize_inv node_id window from to rows p rows_of.3 in
      let sums = status_sums-some rows s hs in
      let others = other_sums-some rows o ho in
      let add_up = total_statuses node_id window from to rows rows_of.1 in
      let healthy_le : s.healthy ≤ s.serving = ground (arith, sums.serving) in
      let serving_le : s.serving ≤ s.eligible = ground (arith, sums.eligible) in
      let errors_le : o.observation_errors ≤ o.observations =
        ground (arith, add_up, others.observations, others.errors) in
      (
        AtMost-of p.coverage_basis_points λ r e.
            ratio_le (min o.covered (window_seconds window / 300)) (window_seconds window / 300) r
              (omega arith) (sym (ap (λ q. q.coverage_basis_points) hp) ∙ e),
        AtMost-of p.service_available_basis_points λ r e.
            ratio_le s.serving s.eligible r serving_le
              (sym (ap (λ q. q.service_available_basis_points) hp) ∙ e),
        AtMost-of p.strictly_healthy_basis_points λ r e.
            ratio_le s.healthy s.eligible r (omega (arith, healthy_le, serving_le))
              (sym (ap (λ q. q.strictly_healthy_basis_points) hp) ∙ e),
        AtMost-of p.observation_error_basis_points λ r e.
            ratio_le o.observation_errors o.observations r errors_le
              (sym (ap (λ q. q.observation_error_basis_points) hp) ∙ e),
        InOrder-of p.strictly_healthy_basis_points p.service_available_basis_points λ r q e g.
            ratio_mono s.healthy s.serving s.eligible r q healthy_le
              (sym (ap (λ v. v.strictly_healthy_basis_points) hp) ∙ e)
              (sym (ap (λ v. v.service_available_basis_points) hp) ∙ g),
      )

  -- A report is always given for at most one row for each bucket, of the node and the window, with
  -- counts that agree and different starts, as long as the totals of the other counters fit a
  -- machine word.
  pub reported :
      length rows ≤ window_seconds window / bucket_seconds_of window
      → All (IsConsistent node_id window from to) rows
      → Apart node_id window from to rows []
      → total (λ row. row.observation_count) rows ≤ u64_max
      → total (λ row. row.duration_sample_count) rows ≤ u64_max
      → total (λ row. row.cert_warning_count) rows ≤ u64_max
      → total (λ row. row.cert_critical_count) rows ≤ u64_max
      → total (λ row. row.fingerprint_sample_count) rows ≤ u64_max
      → is_some (project_health_slo node_id window from to rows) ≡ true
  unfolding project_health_slo
  reported few cs apart a b c d e =
      let add_up = total_statuses node_id window from to rows cs in
      let fits = covered_fits node_id window from to rows cs few in
      let (s, hs) =
        is_some-eq (status_sums rows)
          (status_sums_fits rows (omega (arith, add_up.0, add_up.1, fits))) in
      let (o, ho) =
        is_some-eq (other_sums rows) (ground (arith, add_up, fits, other_sums_fits rows)) in
      let sums = status_sums-some rows s hs in
      ground (
        arith,
        check_rows_iff node_id window from to rows [],
        summarize-some node_id window from to rows s o hs ho (
            omega (
              arith, add_up.0, add_up.1, fits, sums.healthy, sums.degraded, sums.unreachable,
              sums.stale, sums.disabled, sums.unknown,
            )),
      )
