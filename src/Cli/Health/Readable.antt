-- ===== src/Cli/Health/Readable.antt =====
-- Which history records a rollup can read.
use ocserv_fleet_agent.Common.Assoc.{insert}
use ocserv_fleet_agent.Common.Int.{ℤ, ℤ_discrete}
use ocserv_fleet_agent.Cli.Health.Slots.{Slots}
use ocserv_fleet_agent.Common.{
  String, Result, List, text_discrete, ◌≡◌, Bool, ◌∷◌, before, some, err, true, ◌∙◌, [], refl,
  arith, ◌↔◌, false, ap, ok, All, Option-cases, inl, inr,
}
use ocserv_fleet_agent.Cli.Health.Rollup.{
  status_index, RollupLibraries, statuses_by_slot, RollupError, slot_of,
}
use ocserv_fleet_agent.Cli.Health.Records.{HealthStatus, HealthHistoryRecord, status_text}

pub status_index-status_text : (s : HealthStatus) → status_index (status_text s) ≡ some s
unfolding status_index status_text text_discrete before
status_index-status_text HealthStatus.healthy = refl
status_index-status_text HealthStatus.degraded = refl
status_index-status_text HealthStatus.unreachable = refl
status_index-status_text HealthStatus.stale = refl
status_index-status_text HealthStatus.disabled = refl
status_index-status_text HealthStatus.unknown = refl

text_of_index :
    (text : String) (s : HealthStatus) → status_index text ≡ some s → text ≡ status_text s
unfolding status_index status_text
text_of_index text s h = ground (arith, h)

-- A text is read as a status exactly when it is the text that the status is written as.
pub status_index_iff :
    (text : String) (s : HealthStatus) → (status_index text ≡ some s) ↔ (text ≡ status_text s)
status_index_iff text s =
    (text_of_index text s, λ e. ap status_index e ∙ status_index-status_text s)

-- The record's status is the text that some status is written as, and its instant can be read.
abbrev pub IsReadable : RollupLibraries → HealthHistoryRecord → Type 0
IsReadable lib r =
    ((s : HealthStatus) × (r.snapshot.status ≡ status_text s))
    × ((t : ℤ) × (lib.parse_rfc3339 r.snapshot.computed_at ≡ some t))

abbrev pub is_built : {A : Type 0} → Result RollupError A → Bool
is_built (err e) = false
is_built (ok a) = true

pub statuses_by_slot_iff :
    (lib : RollupLibraries) (history : List HealthHistoryRecord) (m : Slots)
    → (is_built (statuses_by_slot lib history m) ≡ true) ↔ All (IsReadable lib) history
unfolding statuses_by_slot
statuses_by_slot_iff lib [] m = ground arith
statuses_by_slot_iff lib (r ∷ rest) m = elim (Option-cases (status_index r.snapshot.status)) [
  | inl e ↦ (
    λ h. ground (arith, e, h),
    λ a. ground (arith, e, (status_index_iff r.snapshot.status a.0.0.0).1 a.0.0.1),
  )
  | inr (s, e) ↦ elim (Option-cases (lib.parse_rfc3339 r.snapshot.computed_at)) [
    | inl f ↦ ground (arith, e, f)
    | inr (t, f) ↦
        let rest_iff = statuses_by_slot_iff lib rest (insert ℤ_discrete (slot_of t) s m) in
        let text : r.snapshot.status ≡ status_text s = (status_index_iff r.snapshot.status s).0 e in
        (
          λ h. (((s, text), (t, f)), rest_iff.0 (ground (arith, e, f, h))),
          λ a. ground (arith, e, f, rest_iff.1 a.1),
        )
  ]
]
