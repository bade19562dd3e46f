-- ===== src/Cli/Observation/Budget.antt =====
-- How large a projected summary can be.
use ocserv_fleet_agent.Cli.Input.{byte_len}
use ocserv_fleet_agent.Cli.Observation.Projection.{
  ProjectionBudget, project_string, safe_observation_summary_inner, project_fields,
  project_elements, redacted, public_count, reserve, element_count, safe_observation_summary,
  full_budget, is_public_key,
}
use ocserv_fleet_agent.Protocol.Json.{Value, Fields, Elements}
use ocserv_fleet_agent.Common.{
  ℕ, text_discrete, String, ◌+◌, suc, if◌then◌else◌, ◌≤◌, arith, ◌≡◌, decided, min, codes, zero,
  Option, ◌*◌, true,
}

-- The members and elements in a value, at any depth, and the bytes of its texts that are not redacted.
unfoldable mutual
  pub entries : Value → ℕ
  entries (Value.object fields) = field_entries fields
  entries (Value.array elements) = element_entries elements
  entries (Value.string s) = 0
  entries Value.null = 0
  entries (Value.bool b) = 0
  entries (Value.number n) = 0

  pub field_entries : Fields → ℕ
  field_entries Fields.end = 0
  field_entries (Fields.field key value rest) = suc (entries value + field_entries rest)

  pub element_entries : Elements → ℕ
  element_entries Elements.no_element = 0
  element_entries (Elements.element value rest) = suc (entries value + element_entries rest)

unfoldable pub text_bytes : String → ℕ
unfolding text_discrete
text_bytes s = if decided (text_discrete s redacted) then 0 else byte_len (codes s)

unfoldable mutual
  pub string_bytes : Value → ℕ
  string_bytes (Value.object fields) = field_bytes fields
  string_bytes (Value.array elements) = element_bytes elements
  string_bytes (Value.string s) = text_bytes s
  string_bytes Value.null = 0
  string_bytes (Value.bool b) = 0
  string_bytes (Value.number n) = 0

  pub field_bytes : Fields → ℕ
  field_bytes Fields.end = 0
  field_bytes (Fields.field key value rest) = string_bytes value + field_bytes rest

  pub element_bytes : Elements → ℕ
  element_bytes Elements.no_element = 0
  element_bytes (Elements.element value rest) = string_bytes value + element_bytes rest

-- The bytes of the names of the members in a value, at any depth.
unfoldable mutual
  pub name_bytes : Value → ℕ
  name_bytes (Value.object fields) = field_name_bytes fields
  name_bytes (Value.array elements) = element_name_bytes elements
  name_bytes (Value.string s) = 0
  name_bytes Value.null = 0
  name_bytes (Value.bool b) = 0
  name_bytes (Value.number n) = 0

  pub field_name_bytes : Fields → ℕ
  field_name_bytes Fields.end = 0
  field_name_bytes (Fields.field key value rest) =
      byte_len (codes key) + name_bytes value + field_name_bytes rest

  pub element_name_bytes : Elements → ℕ
  element_name_bytes Elements.no_element = 0
  element_name_bytes (Elements.element value rest) = name_bytes value + element_name_bytes rest

-- From one budget to another, so many entries and bytes were shown.
abbrev pub Fits : ℕ → ℕ → ProjectionBudget → ProjectionBudget → Type 0
Fits n m before after =
    (n + after.entries_remaining ≤ before.entries_remaining)
    × (m + after.string_bytes_remaining ≤ before.string_bytes_remaining)

-- A loop over children: its container has already paid for `n` of them.
abbrev pub FitsPaid : ℕ → ℕ → ℕ → ProjectionBudget → ProjectionBudget → Type 0
FitsPaid paid n m before after =
    (n + after.entries_remaining ≤ paid + before.entries_remaining)
    × (m + after.string_bytes_remaining ≤ before.string_bytes_remaining)

project_string-Fits :
    (s : String) (b : ProjectionBudget)
    → Fits 0 (string_bytes (project_string s b).0) b (project_string s b).1
unfolding project_string string_bytes text_bytes
project_string-Fits s b = ground arith

entries-project_string : (s : String) (b : ProjectionBudget) → entries (project_string s b).0 ≡ 0
unfolding project_string entries
entries-project_string s b = ground arith

mutual
  unfolding entries field_entries element_entries string_bytes field_bytes element_bytes text_bytes
      safe_observation_summary_inner project_fields project_elements

  pub inner-Fits :
      (v : Value) (depth : ℕ) (b : ProjectionBudget)
      → Fits
          (entries (safe_observation_summary_inner v depth b).0)
          (string_bytes (safe_observation_summary_inner v depth b).0)
          b
          (safe_observation_summary_inner v depth b).1
  inner-Fits (Value.object fields) depth b = ground (
    arith,
    fields-FitsPaid fields (min (public_count fields) b.entries_remaining) (suc depth)
        (reserve (min (public_count fields) b.entries_remaining) b),
  )
  inner-Fits (Value.array elements) depth b = ground (
    arith,
    elements-FitsPaid elements (min (element_count elements) b.entries_remaining) (suc depth)
        (reserve (min (element_count elements) b.entries_remaining) b),
  )
  inner-Fits (Value.string s) depth b =
      ground (arith, project_string-Fits s b, entries-project_string s b)
  inner-Fits Value.null depth b = ground arith
  inner-Fits (Value.bool x) depth b = ground arith
  inner-Fits (Value.number x) depth b = ground arith

  fields-FitsPaid :
      (fields : Fields) (n depth : ℕ) (b : ProjectionBudget)
      → FitsPaid n
          (field_entries (project_fields fields n depth b).0)
          (field_bytes (project_fields fields n depth b).0)
          b
          (project_fields fields n depth b).1
  fields-FitsPaid Fields.end n depth b = ground arith
  fields-FitsPaid (Fields.field key value rest) zero depth b = ground arith
  fields-FitsPaid (Fields.field key value rest) (suc n) depth b =
      let ih = fields-FitsPaid rest n depth (safe_observation_summary_inner value depth b).1 in
      ground (arith, inner-Fits value depth b, ih, fields-FitsPaid rest (suc n) depth b)

  elements-FitsPaid :
      (elements : Elements) (n depth : ℕ) (b : ProjectionBudget)
      → FitsPaid n
          (element_entries (project_elements elements n depth b).0)
          (element_bytes (project_elements elements n depth b).0)
          b
          (project_elements elements n depth b).1
  elements-FitsPaid Elements.no_element n depth b = ground arith
  elements-FitsPaid (Elements.element value rest) zero depth b = ground arith
  elements-FitsPaid (Elements.element value rest) (suc n) depth b =
      let ih = elements-FitsPaid rest n depth (safe_observation_summary_inner value depth b).1 in
      ground (arith, inner-Fits value depth b, ih)

name_bytes-project_string :
    (s : String) (b : ProjectionBudget) → name_bytes (project_string s b).0 ≡ 0
unfolding project_string name_bytes
name_bytes-project_string s b = ground arith

public_key_short : (key : String) → is_public_key key ≡ true → byte_len (codes key) ≤ 64
unfolding is_public_key
public_key_short key h = ground (arith, h)

-- A member that is shown has a name of at most 64 bytes.
mutual
  unfolding entries field_entries element_entries name_bytes field_name_bytes element_name_bytes
      safe_observation_summary_inner project_fields project_elements

  pub inner_names :
      (v : Value) (depth : ℕ) (b : ProjectionBudget)
      → name_bytes (safe_observation_summary_inner v depth b).0
        ≤ 64 * entries (safe_observation_summary_inner v depth b).0
  inner_names (Value.object fields) depth b = ground (
    arith,
    fields_names fields (min (public_count fields) b.entries_remaining) (suc depth)
        (reserve (min (public_count fields) b.entries_remaining) b),
  )
  inner_names (Value.array elements) depth b = ground (
    arith,
    elements_names elements (min (element_count elements) b.entries_remaining) (suc depth)
        (reserve (min (element_count elements) b.entries_remaining) b),
  )
  inner_names (Value.string s) depth b = ground (arith, name_bytes-project_string s b)
  inner_names Value.null depth b = ground arith
  inner_names (Value.bool x) depth b = ground arith
  inner_names (Value.number x) depth b = ground arith

  fields_names :
      (fields : Fields) (n depth : ℕ) (b : ProjectionBudget)
      → field_name_bytes (project_fields fields n depth b).0
        ≤ 64 * field_entries (project_fields fields n depth b).0
  fields_names Fields.end n depth b = ground arith
  fields_names (Fields.field key value rest) zero depth b = ground arith
  fields_names (Fields.field key value rest) (suc n) depth b =
      let ih = fields_names rest n depth (safe_observation_summary_inner value depth b).1 in
      ground (
        arith,
        public_key_short key,
        inner_names value depth b,
        ih,
        fields_names rest (suc n) depth b,
      )

  elements_names :
      (elements : Elements) (n depth : ℕ) (b : ProjectionBudget)
      → element_name_bytes (project_elements elements n depth b).0
        ≤ 64 * element_entries (project_elements elements n depth b).0
  elements_names Elements.no_element n depth b = ground arith
  elements_names (Elements.element value rest) zero depth b = ground arith
  elements_names (Elements.element value rest) (suc n) depth b =
      let ih = elements_names rest n depth (safe_observation_summary_inner value depth b).1 in
      ground (arith, inner_names value depth b, ih)

module _ (typed : Value → Option Value) where
  -- Of a summary that is not of the typed form, however large, at most 256 members and elements are
  -- shown, all depths together; the text values that are not redacted have at most 4096 bytes
  -- together, and the names of the members at most 16384. Numbers are not counted.
  pub safe_observation_summary_bounded :
      (v : Value)
      → typed v ≡ Option.none
      → (entries (safe_observation_summary typed v) ≤ 256)
        × (string_bytes (safe_observation_summary typed v) ≤ 4096)
        × (name_bytes (safe_observation_summary typed v) ≤ 16384)
  unfolding safe_observation_summary
  safe_observation_summary_bounded v h =
      ground (arith, inner-Fits v 0 full_budget, inner_names v 0 full_budget)
