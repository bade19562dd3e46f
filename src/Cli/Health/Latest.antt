-- ===== src/Cli/Health/Latest.antt =====
-- The searches of health.rs for the latest observation. Instants in the records are texts in the form
-- of the store, and the code compares them as texts here.
use ocserv_fleet_agent.Protocol.Method.{one_of, probe_controller_ping}
use ocserv_fleet_agent.Cli.Health.Records.{ProbeObservationRecord}
use ocserv_fleet_agent.Common.{
  ℕ, List, Bool, String, before, ◌∷◌, Option, decided, false, none, codes, if◌then◌else◌, some,
  text_discrete, [], ◌&&◌, not, suc,
}

-- `left.observed_at < right.observed_at`
abbrev pub is_older : ProbeObservationRecord → ProbeObservationRecord → Bool
is_older left right = before (codes left.observed_at) (codes right.observed_at)

-- `max_by`, which gives the last of several that are the latest.
unfoldable pub latest_from :
    ProbeObservationRecord → List ProbeObservationRecord → ProbeObservationRecord
latest_from best [] = best
latest_from best (r ∷ rs) = latest_from (if is_older r best then best else r) rs

unfoldable pub latest_observation : List ProbeObservationRecord → Option ProbeObservationRecord
latest_observation [] = none
latest_observation (r ∷ rs) = some (latest_from r rs)

unfoldable pub filter :
    (ProbeObservationRecord → Bool) → List ProbeObservationRecord → List ProbeObservationRecord
filter p [] = []
filter p (r ∷ rs) = let rest = filter p rs in if p r then r ∷ rest else rest

-- `record.ok == Some(ok)`
abbrev pub has_ok : Bool → ProbeObservationRecord → Bool
has_ok is_ok r = elim r.is_ok [ none ↦ false | some b ↦ if is_ok then b else not b ]

abbrev pub has_method : String → ProbeObservationRecord → Bool
has_method method r = decided (text_discrete r.method method)

unfoldable pub latest_with_ok : List ProbeObservationRecord → Bool → Option ProbeObservationRecord
latest_with_ok observations is_ok = latest_observation (filter (has_ok is_ok) observations)

unfoldable pub latest_for_method :
    List ProbeObservationRecord → String → Option ProbeObservationRecord
latest_for_method observations method = latest_observation (filter (has_method method) observations)

-- `sort_by` with the newest first: stable, so that of equal ones the first stays first.
unfoldable pub place :
    ProbeObservationRecord → List ProbeObservationRecord → List ProbeObservationRecord
place r [] = r ∷ []
place r (s ∷ rest) = let later = place r rest in if is_older r s then s ∷ later else r ∷ s ∷ rest

unfoldable pub newest_first : List ProbeObservationRecord → List ProbeObservationRecord
newest_first [] = []
newest_first (r ∷ rs) = place r (newest_first rs)

unfoldable pub is_unreachable_error_code : String → Bool
is_unreachable_error_code code =
    one_of
      ("CONNECT_FAILED" ∷ "RPC_TIMEOUT" ∷ "ENDPOINT_NOT_ALLOWED" ∷ "ENDPOINT_MISMATCH"
        ∷ "RESPONSE_TOO_LARGE" ∷ "FRAME_READ_FAILED" ∷ "NODE_NOT_FOUND" ∷ "NODE_DISABLED"
        ∷ "ENDPOINT_REVOKED" ∷ "ENDPOINT_QUARANTINED" ∷ "ENDPOINT_ROTATED"
        ∷ "ENDPOINT_TRUST_MISSING" ∷ [])
      code

abbrev pub is_unreachable_failure : ProbeObservationRecord → Bool
is_unreachable_failure r =
    has_ok false r
    && elim r.error_code [ none ↦ false | some code ↦ is_unreachable_error_code code ]

-- `take_while(..).count()`
unfoldable pub leading : (ProbeObservationRecord → Bool) → List ProbeObservationRecord → ℕ
leading p [] = 0
leading p (r ∷ rs) = let n = leading p rs in if p r then suc n else 0

unfoldable pub consecutive_unreachable_controller_ping_failures : List ProbeObservationRecord → ℕ
consecutive_unreachable_controller_ping_failures observations =
    leading is_unreachable_failure
      (newest_first (filter (has_method probe_controller_ping) observations))

unfoldable pub latest_controller_ping_failed : List ProbeObservationRecord → Bool
latest_controller_ping_failed observations =
    elim (latest_for_method observations probe_controller_ping) [
      | none ↦ false
      | some r ↦ has_ok false r
    ]
