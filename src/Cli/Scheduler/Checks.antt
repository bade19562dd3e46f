-- ===== src/Cli/Scheduler/Checks.antt =====
-- What store.rs checks of the scheduler's inputs before it opens a transaction.
use ocserv_fleet_agent.Cli.Health.Records.{ProbeObservationRecord}
use ocserv_fleet_agent.Protocol.Json.{Value}
use ocserv_fleet_agent.Protocol.Method.{one_of}
use ocserv_fleet_agent.Cli.Input.{StoreError, byte_len, validate_actor}
use ocserv_fleet_agent.Common.Int.{ℤ, ltb_ℤ, ◌+ℤ◌, pos}
use ocserv_fleet_agent.Cli.Scheduler.Records.{SchedulerJobClaim, SchedulerJobClockUpdate}
use ocserv_fleet_agent.Common.{
  ℕ, String, Bool, List, Option, leb, Result, ◌∷◌, ◌&&◌, if◌then◌else◌, ok, reject, [], false, ◌>>◌,
  ◌>>=◌, ◌||◌, some, ltb, not, ◌==◌, ok_or, codes, none, all, err, ◌*◌,
}

-- The package time: the instant of an RFC 3339 text, in nanoseconds, and the text of an instant. Of
-- the repository: the store's test that a JSON value is low-sensitive, and the form in which it keeps
-- an observation's summary (storage_payloads.rs), which may refuse it.
pub record SchedulerLibraries : Type 0 where
  pub parse_rfc3339 : String → Option ℤ
  pub format_rfc3339 : ℤ → Option String
  pub is_low_sensitive : Value → Bool
  pub canonical_summary : ProbeObservationRecord → Option Value

abbrev pub min_scheduler_lease_seconds : ℕ
min_scheduler_lease_seconds = 5

abbrev pub max_scheduler_lease_seconds : ℕ
max_scheduler_lease_seconds = 21600

abbrev pub i64_max : ℕ
i64_max = 9223372036854775807

abbrev pub is_safe_id_char : ℕ → Bool
is_safe_id_char c =
    (leb b'a' c && leb c b'z')
    || (leb b'A' c && leb c b'Z')
    || (leb b'0' c && leb c b'9')
    || c == b'.'
    || c == b'_'
    || c == b'-'
    || c == b':'

abbrev pub bad_input : String → StoreError
bad_input = StoreError.invalid_input

unfoldable pub validate_safe_id : String → String → ℕ → Result StoreError (Unit {0})
validate_safe_id message value max_len =
    if leb 1 (byte_len (codes value))
      && leb (byte_len (codes value)) max_len
      && all is_safe_id_char (codes value)
    then ok tt
    else err (bad_input message)

unfoldable pub validate_optional_id : String → Option String → ℕ → Result StoreError (Unit {0})
validate_optional_id message none max_len = ok tt
validate_optional_id message (some value) max_len = validate_safe_id message value max_len

unfoldable pub validate_u64_range : String → ℕ → ℕ → ℕ → Result StoreError (Unit {0})
validate_u64_range message value low high =
    reject (ltb value low || ltb high value) (bad_input message)

abbrev pub job_kinds : List String
job_kinds =
    "controller-ping" ∷ "ocserv-status" ∷ "ocserv-cert" ∷ "ocserv-sessions" ∷ "path-probe" ∷ []

unfoldable pub validate_scheduler_job_kind : String → Result StoreError (Unit {0})
validate_scheduler_job_kind kind =
    reject (not (one_of job_kinds kind)) (bad_input "scheduler job kind is invalid")

module _ (clock : SchedulerLibraries) where
  unfoldable pub validate_bounded_rfc3339 : String → String → Result StoreError ℤ
  validate_bounded_rfc3339 value message =
      if byte_len (codes value) == 0 || ltb 64 (byte_len (codes value))
      then err (bad_input message)
      else ok_or (clock.parse_rfc3339 value) (bad_input message)

  unfoldable pub validate_scheduler_claim_input :
      String → String → ℕ → String → Result StoreError (Unit {0})
  validate_scheduler_claim_input owner_id now lease_seconds actor = do
    validate_safe_id "scheduler owner_id" owner_id 128
    at ← validate_bounded_rfc3339 now "scheduler claim timestamp must be bounded RFC3339"
    validate_u64_range "scheduler lease_seconds" lease_seconds min_scheduler_lease_seconds
        max_scheduler_lease_seconds
    validate_actor actor

  unfoldable pub validate_scheduler_claim : SchedulerJobClaim → Result StoreError (Unit {0})
  validate_scheduler_claim claim = do
    validate_safe_id "scheduler job_id" claim.job_id 128
    validate_safe_id "scheduler owner_id" claim.owner_id 128
    reject (claim.fence_token == 0 || ltb i64_max claim.fence_token)
        (bad_input "scheduler fence token is out of range")
    claimed_at ← validate_bounded_rfc3339 claim.claimed_at "scheduler claimed_at"
    lease_expires_at ← validate_bounded_rfc3339 claim.lease_expires_at "scheduler lease_expires_at"
    validate_optional_id "scheduler active_run_id" claim.active_run_id 128
    reject (not (ltb_ℤ claimed_at lease_expires_at))
        (bad_input "scheduler lease must expire after it is claimed")

  unfoldable pub scheduler_lease_expiry : String → ℕ → Result StoreError String
  scheduler_lease_expiry now lease_seconds = do
    at ← ok_or (clock.parse_rfc3339 now) (bad_input "scheduler claim timestamp must be RFC3339")
    ok_or (clock.format_rfc3339 (at +ℤ pos (lease_seconds * 1000000000)))
        (bad_input "the lease cannot be formatted")

  unfoldable pub validate_scheduler_job_clock :
      SchedulerJobClockUpdate → Result StoreError (Unit {0})
  validate_scheduler_job_clock update = do
    validate_safe_id "scheduler clock job_id" update.job_id 128
    next_run_at ← validate_bounded_rfc3339 update.next_run_at "scheduler next_run_at"
    last_run_at ← validate_bounded_rfc3339 update.last_run_at "scheduler last_run_at"
    reject (not (ltb_ℤ last_run_at next_run_at))
        (bad_input "scheduler next_run_at must be later than last_run_at")

  -- `expires.parse().is_some_and(|expires| expires > at)`, for an optional column.
  abbrev pub expires_after : Option String → ℤ → Bool
  expires_after none at = false
  expires_after (some text) at = elim (clock.parse_rfc3339 text) [
    | none ↦ false
    | some expires ↦ ltb_ℤ at expires
  ]
