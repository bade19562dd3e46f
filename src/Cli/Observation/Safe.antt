-- ===== src/Cli/Observation/Safe.antt =====
-- What a projected summary can hold.
use ocserv_fleet_agent.Cli.Input.{byte_len}
use ocserv_fleet_agent.Cli.Observation.Projection.{
  project_string, safe_observation_summary_inner, is_unsafe_text, project_fields, redacted,
  ProjectionBudget, project_elements, is_public_key, public_count, reserve, forbidden_summary_key,
  element_count, is_plain, forbidden_summary_value, safe_observation_summary, full_budget,
}
use ocserv_fleet_agent.Protocol.Json.{Value, Fields, Elements}
use ocserv_fleet_agent.Common.{
  ℕ, String, ◌≡◌, ◌<◌, suc, ◌⊎◌, arith, min, codes, ◌≤◌, all, false, true, zero, Option,
}

-- A text that is shown: redacted, or short, printable and without a marker.
unfoldable pub IsShown : String → Type 0
IsShown s =
    (s ≡ redacted)
    ⊎ ((byte_len (codes s) ≤ 256)
        × (all is_plain (codes s) ≡ true)
        × (forbidden_summary_value s ≡ false))

-- At this depth: every text is shown, every key passes the filter, and no container is below depth 7.
unfoldable mutual
  pub IsPublic : ℕ → Value → Type 0
  IsPublic depth (Value.string s) = IsShown s
  IsPublic depth (Value.object fields) = (depth < 8) × ArePublic (suc depth) fields
  IsPublic depth (Value.array elements) = (depth < 8) × AllPublic (suc depth) elements
  IsPublic depth Value.null = Unit
  IsPublic depth (Value.bool b) = Unit
  IsPublic depth (Value.number n) = Unit

  pub ArePublic : ℕ → Fields → Type 0
  ArePublic depth Fields.end = Unit
  ArePublic depth (Fields.field key value rest) =
      (byte_len (codes key) ≤ 64)
      × (forbidden_summary_key key ≡ false)
      × IsPublic depth value
      × ArePublic depth rest

  pub AllPublic : ℕ → Elements → Type 0
  AllPublic depth Elements.no_element = Unit
  AllPublic depth (Elements.element value rest) = IsPublic depth value × AllPublic depth rest

project_string-IsPublic :
    (s : String) (depth : ℕ) (b : ProjectionBudget) → IsPublic depth (project_string s b).0
unfolding IsPublic IsShown project_string is_unsafe_text
project_string-IsPublic s depth b = ground arith

mutual
  unfolding IsPublic ArePublic AllPublic IsShown safe_observation_summary_inner project_fields
      project_elements is_public_key

  pub inner-IsPublic :
      (v : Value) (depth : ℕ) (b : ProjectionBudget)
      → IsPublic depth (safe_observation_summary_inner v depth b).0
  inner-IsPublic (Value.object fields) depth b = ground (
    arith,
    fields-ArePublic fields (min (public_count fields) b.entries_remaining) (suc depth)
        (reserve (min (public_count fields) b.entries_remaining) b),
  )
  inner-IsPublic (Value.array elements) depth b = ground (
    arith,
    elements-AllPublic elements (min (element_count elements) b.entries_remaining) (suc depth)
        (reserve (min (element_count elements) b.entries_remaining) b),
  )
  inner-IsPublic (Value.string s) depth b = ground (arith, project_string-IsPublic s depth b)
  inner-IsPublic Value.null depth b = ground arith
  inner-IsPublic (Value.bool x) depth b = ground arith
  inner-IsPublic (Value.number x) depth b = ground arith

  fields-ArePublic :
      (fields : Fields) (n depth : ℕ) (b : ProjectionBudget)
      → ArePublic depth (project_fields fields n depth b).0
  fields-ArePublic Fields.end n depth b = tt
  fields-ArePublic (Fields.field key value rest) zero depth b = tt
  fields-ArePublic (Fields.field key value rest) (suc n) depth b =
      let ih = fields-ArePublic rest n depth (safe_observation_summary_inner value depth b).1 in
      ground (arith, inner-IsPublic value depth b, ih, fields-ArePublic rest (suc n) depth b)

  elements-AllPublic :
      (elements : Elements) (n depth : ℕ) (b : ProjectionBudget)
      → AllPublic depth (project_elements elements n depth b).0
  elements-AllPublic Elements.no_element n depth b = tt
  elements-AllPublic (Elements.element value rest) zero depth b = tt
  elements-AllPublic (Elements.element value rest) (suc n) depth b =
      let ih = elements-AllPublic rest n depth (safe_observation_summary_inner value depth b).1 in
      ground (arith, inner-IsPublic value depth b, ih)

module _ (typed : Value → Option Value) where
  -- Of a summary that is not of the typed form, whatever it is, only this is shown: texts that are
  -- redacted, or at most 256 bytes of printable ASCII without a forbidden marker; keys of at most 64
  -- bytes without a forbidden marker; and no object or array below depth 7.
  pub safe_observation_summary-IsPublic :
      (v : Value) → typed v ≡ Option.none → IsPublic 0 (safe_observation_summary typed v)
  unfolding safe_observation_summary
  safe_observation_summary-IsPublic v h = ground (arith, inner-IsPublic v 0 full_budget)
