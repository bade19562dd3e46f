-- ===== src/Cli/Observation/Projection.antt =====
-- What observation.rs shows of the stored summary of an observation: texts and keys that could carry
-- private data are left out or redacted, under a budget of entries and of bytes.
use ocserv_fleet_agent.Cli.Input.{byte_len}
use ocserv_fleet_agent.Protocol.Json.{Fields, Elements, Value}
use ocserv_fleet_agent.Common.{
  ℕ, List, if◌then◌else◌, String, Bool, ◌-◌, true, ◌∷◌, leb, any, ltb, ◌||◌, suc, Option, false,
  ◌&&◌, [], codes, ◌==◌, min, ◌+◌, not, zero, all,
}

pub record ProjectionBudget : Type 0 where
  pub entries_remaining : ℕ
  pub string_bytes_remaining : ℕ

unfoldable pub starts_with : List ℕ → List ℕ → Bool
starts_with [] text = true
starts_with (p ∷ prefix) [] = false
starts_with (p ∷ prefix) (c ∷ text) = p == c && starts_with prefix text

-- `text.contains(marker)`
unfoldable pub contains : List ℕ → List ℕ → Bool
contains [] marker = starts_with marker []
contains (c ∷ text) marker = starts_with marker (c ∷ text) || contains text marker

abbrev pub to_ascii_lowercase : ℕ → ℕ
to_ascii_lowercase c = if leb 65 c && leb c 90 then c + 32 else c

unfoldable pub lowercase : List ℕ → List ℕ
lowercase [] = []
lowercase (c ∷ text) = to_ascii_lowercase c ∷ lowercase text

abbrev pub key_markers : List String
key_markers =
    "raw" ∷ "stdout" ∷ "stderr" ∷ "body" ∷ "username" ∷ "client_ip" ∷ "client-ip" ∷ "session_id"
    ∷ "session-id" ∷ "subject" ∷ "issuer" ∷ "serial" ∷ "san" ∷ "certificate_pem" ∷ "private_key"
    ∷ "config_content" ∷ []

abbrev pub value_markers : List String
value_markers =
    "/etc/" ∷ "/var/log" ∷ "systemctl" ∷ "journalctl" ∷ "occtl" ∷ "username" ∷ "client_ip"
    ∷ "session_id" ∷ "-----begin certificate-----" ∷ "-----begin private key-----" ∷ []

unfoldable pub forbidden_summary_key : String → Bool
forbidden_summary_key key = any (λ m. contains (lowercase (codes key)) (codes m)) key_markers

unfoldable pub forbidden_summary_value : String → Bool
forbidden_summary_value value =
    any (λ m. contains (lowercase (codes value)) (codes m)) value_markers

abbrev pub redacted : String
redacted = "<redacted>"

-- Neither a control character nor beyond ASCII.
abbrev pub is_plain : ℕ → Bool
is_plain c = leb 32 c && leb c 126

-- The filter of an object's members.
unfoldable pub is_public_key : String → Bool
is_public_key key = leb (byte_len (codes key)) 64 && not (forbidden_summary_key key)

-- Is a text redacted, whatever the budget?
unfoldable pub is_unsafe_text : String → Bool
is_unsafe_text s =
    ltb 256 (byte_len (codes s)) || not (all is_plain (codes s)) || forbidden_summary_value s

unfoldable pub project_string : String → ProjectionBudget → Value × ProjectionBudget
project_string s b =
    if is_unsafe_text s || ltb b.string_bytes_remaining (byte_len (codes s))
    then (Value.string redacted, b)
    else (
      Value.string s,
      record {
        entries_remaining = b.entries_remaining;
        string_bytes_remaining = b.string_bytes_remaining - byte_len (codes s);
      },
    )

-- How many members pass the filter, and how many elements there are.
unfoldable pub public_count : Fields → ℕ
public_count Fields.end = 0
public_count (Fields.field key value rest) =
    let n = public_count rest in if is_public_key key then suc n else n

unfoldable pub element_count : Elements → ℕ
element_count Elements.no_element = 0
element_count (Elements.element value rest) = suc (element_count rest)

-- The entries that a container takes before its children are projected.
abbrev pub reserve : ℕ → ProjectionBudget → ProjectionBudget
reserve n b = record {
  entries_remaining = b.entries_remaining - n;
  string_bytes_remaining = b.string_bytes_remaining;
}

-- A container at depth 8, or with no entries left, is redacted whole.
abbrev pub is_closed : ℕ → ProjectionBudget → Bool
is_closed depth b = leb 8 depth || b.entries_remaining == 0

-- `safe_observation_summary_inner`, with its loops over the first `n` members that pass the filter and
-- over the first `n` elements. Each gives the budget that is left.
unfoldable mutual
  pub safe_observation_summary_inner : Value → ℕ → ProjectionBudget → Value × ProjectionBudget
  safe_observation_summary_inner (Value.object fields) depth b = elim (is_closed depth b) [
    | true ↦ (Value.string redacted, b)
    | false ↦
        let n = min (public_count fields) b.entries_remaining in
        let out = project_fields fields n (suc depth) (reserve n b) in (Value.object out.0, out.1)
  ]
  safe_observation_summary_inner (Value.array elements) depth b = elim (is_closed depth b) [
    | true ↦ (Value.string redacted, b)
    | false ↦
        let n = min (element_count elements) b.entries_remaining in
        let out = project_elements elements n (suc depth) (reserve n b) in
        (Value.array out.0, out.1)
  ]
  safe_observation_summary_inner (Value.string s) depth b =
      if leb 8 depth then (Value.string redacted, b) else project_string s b
  safe_observation_summary_inner Value.null depth b =
      if leb 8 depth then (Value.string redacted, b) else (Value.null, b)
  safe_observation_summary_inner (Value.bool x) depth b =
      if leb 8 depth then (Value.string redacted, b) else (Value.bool x, b)
  safe_observation_summary_inner (Value.number x) depth b =
      if leb 8 depth then (Value.string redacted, b) else (Value.number x, b)

  pub project_fields : Fields → ℕ → ℕ → ProjectionBudget → Fields × ProjectionBudget
  project_fields Fields.end n depth b = (Fields.end, b)
  project_fields (Fields.field key value rest) zero depth b = (Fields.end, b)
  project_fields (Fields.field key value rest) (suc n) depth b = elim (is_public_key key) [
    | true ↦
        let first = safe_observation_summary_inner value depth b in
        let others = project_fields rest n depth first.1 in
        (Fields.field key first.0 others.0, others.1)
    | false ↦ project_fields rest (suc n) depth b
  ]

  pub project_elements : Elements → ℕ → ℕ → ProjectionBudget → Elements × ProjectionBudget
  project_elements Elements.no_element n depth b = (Elements.no_element, b)
  project_elements (Elements.element value rest) zero depth b = (Elements.no_element, b)
  project_elements (Elements.element value rest) (suc n) depth b =
      let first = safe_observation_summary_inner value depth b in
      let others = project_elements rest n depth first.1 in
      (Elements.element first.0 others.0, others.1)

abbrev pub full_budget : ProjectionBudget
full_budget = record { entries_remaining = 256; string_bytes_remaining = 4096 }

-- The argument is `ObservationSummaryPayloadV1` of storage_payloads.rs: what it shows of a summary
-- that has its form.
unfoldable pub safe_observation_summary : (Value → Option Value) → Value → Value
safe_observation_summary typed value = elim (typed value) [
  | Option.some summary ↦ summary
  | Option.none ↦ (safe_observation_summary_inner value 0 full_budget).0
]
