-- ===== src/Cli/Input.antt =====
-- crates/ocfleet-cli/src/input_validation.rs: the texts that an operator types.
use ocserv_fleet_agent.Common.{
  ℕ, String, Bool, leb, List, if◌then◌else◌, Result, ◌&&◌, ◌∷◌, ltb, codes, ◌||◌, ◌+◌, [], ◌>>◌,
  ◌==◌, reject, length, not, all, ok,
}

-- The errors of the store that the commands here return: `StoreError::InvalidInput` with its message,
-- those of the scheduler's jobs, runs and claims, and an error of the database (a constraint of a table).
pub data StoreError : Type 0 where
  invalid_input : String → StoreError
  scheduler_claim_lost : String → StoreError
  observability_job_not_found : String → StoreError
  observability_run_not_found : String → StoreError
  observability_run_not_running : String → StoreError
  sqlite : StoreError

-- `char::is_whitespace`
unfoldable pub is_whitespace : ℕ → Bool
is_whitespace c =
    (leb 9 c && leb c 13)
    || c == 32
    || c == 133
    || c == 160
    || c == 5760
    || (leb 8192 c && leb c 8202)
    || c == 8232
    || c == 8233
    || c == 8239
    || c == 8287
    || c == 12288

unfoldable pub trim_start : List ℕ → List ℕ
trim_start [] = []
trim_start (c ∷ cs) = if is_whitespace c then trim_start cs else c ∷ cs

-- The text up to its last character that is no white space.
unfoldable pub trim_end : List ℕ → List ℕ
trim_end [] = []
trim_end (c ∷ cs) = elim (trim_end cs) [
  | [] ↦ if is_whitespace c then [] else c ∷ []
  | d ∷ ds ↦ c ∷ d ∷ ds
]

abbrev pub trim : List ℕ → List ℕ
trim cs = trim_end (trim_start cs)

-- The bytes of a character in UTF-8.
abbrev pub utf8_len : ℕ → ℕ
utf8_len c = if ltb c 128 then 1 else if ltb c 2048 then 2 else if ltb c 65536 then 3 else 4

unfoldable pub byte_len : List ℕ → ℕ
byte_len [] = 0
byte_len (c ∷ cs) = utf8_len c + byte_len cs

abbrev pub is_printable : ℕ → Bool
is_printable c = leb 32 c && leb c 126

-- The messages of a field.
pub record FieldMessages : Type 0 where
  pub empty : String
  pub too_long : String
  pub not_printable : String

unfoldable pub validate_printable_text : String → FieldMessages → ℕ → Result StoreError (Unit {0})
validate_printable_text value field max_len = do
  let trimmed = trim (codes value)
  reject (length trimmed == 0) (StoreError.invalid_input field.empty)
  reject (ltb max_len (byte_len trimmed)) (StoreError.invalid_input field.too_long)
  reject (not (all is_printable trimmed)) (StoreError.invalid_input field.not_printable)
  ok tt

unfoldable pub validate_actor : String → Result StoreError (Unit {0})
validate_actor value =
    validate_printable_text value
      (record {
        empty = "actor must not be empty";
        too_long = "actor must be at most 128 bytes";
        not_printable = "actor must contain only printable ASCII";
      })
      128

unfoldable pub validate_reason : String → Result StoreError (Unit {0})
validate_reason value =
    validate_printable_text value
      (record {
        empty = "reason must not be empty";
        too_long = "reason must be at most 256 bytes";
        not_printable = "reason must contain only printable ASCII";
      })
      256
