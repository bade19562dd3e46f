-- ===== src/Tests/Observation.antt =====
-- The projection of a summary: a run of it, and its theorems at that summary.
use ocserv_fleet_agent.Cli.Input.{
  is_whitespace, trim_start, trim_end, byte_len, validate_printable_text, validate_actor,
  validate_reason,
}
use ocserv_fleet_agent.Cli.Observation.Projection.{
  safe_observation_summary, starts_with, redacted, contains, lowercase, forbidden_summary_key,
  forbidden_summary_value, is_public_key, is_unsafe_text, project_string, public_count,
  element_count, safe_observation_summary_inner, project_fields, project_elements,
}
use ocserv_fleet_agent.Cli.Observation.Budget.{
  entries, string_bytes, safe_observation_summary_bounded, name_bytes,
}
use ocserv_fleet_agent.Cli.Observation.Safe.{IsPublic, safe_observation_summary-IsPublic}
use ocserv_fleet_agent.Protocol.Json.{Value, Fields, Elements}
use ocserv_fleet_agent.Common.{text_discrete, Option, before, none, ◌≤◌, refl, ◌≡◌}

-- No summary is of the typed form.
abbrev untyped : Value → Option Value
untyped v = none

abbrev summary : Value
summary = Value.object (
    Fields.field "status" (Value.string "ok") (
      Fields.field "Username" (Value.string "someone") (
        Fields.field "paths"
          (Value.array (
            Elements.element (Value.string "/Etc/ocserv")
              (Elements.element Value.null Elements.no_element)))
          Fields.end)))

abbrev shown : Value
shown = Value.object (
    Fields.field "status" (Value.string "ok") (
      Fields.field "paths"
        (Value.array (
          Elements.element (Value.string redacted)
            (Elements.element Value.null Elements.no_element)))
        Fields.end))

summary_projected : safe_observation_summary untyped summary ≡ shown
unfolding text_discrete before starts_with contains lowercase forbidden_summary_key
    forbidden_summary_value is_public_key is_unsafe_text project_string public_count element_count
    safe_observation_summary safe_observation_summary_inner project_fields project_elements
    is_whitespace trim_start trim_end byte_len validate_printable_text validate_actor
    validate_reason
summary_projected = refl

safe_observation_summary-IsPublic_example : IsPublic 0 (safe_observation_summary untyped summary)
safe_observation_summary-IsPublic_example = safe_observation_summary-IsPublic untyped summary refl

safe_observation_summary_bounded_example :
    (entries (safe_observation_summary untyped summary) ≤ 256)
    × (string_bytes (safe_observation_summary untyped summary) ≤ 4096)
    × (name_bytes (safe_observation_summary untyped summary) ≤ 16384)
safe_observation_summary_bounded_example = safe_observation_summary_bounded untyped summary refl
