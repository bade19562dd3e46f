-- ===== src/Cli/Change/Validate.antt =====
-- The validation of controlled_writes.rs: of a new request, of a decision, of an identifier.
use ocserv_fleet_agent.Common.Assoc.{lookup}
use ocserv_fleet_agent.Protocol.Json.{Value}
use ocserv_fleet_agent.Cli.Change.Records.{
  ControlledWriteOperationKind, CreateChangeRequest, ApprovalDecision, CanonicalIntent,
  TrustedIntentKey, operation_kind_text,
}
use ocserv_fleet_agent.Common.Int.{ℤ, ltb_ℤ, scale, pos, ◌-ℤ◌}
use ocserv_fleet_agent.Cli.Input.{StoreError, validate_actor, validate_reason}
use ocserv_fleet_agent.Common.{
  none, ℕ, String, Bool, Option, ◌*◌, leb, ◌||◌, Result, List, ◌&&◌, ◌==◌, reject, not, true, ok_or,
  some, false, ◌>>◌, length, ok, ◌∷◌, ◌>>=◌, codes, decided, ltb, text_discrete, all, [],
}

-- What the code calls of other packages (time, uuid, iroh, base64, serde_json with sha2, ring), and the
-- test of a JSON value of the store's own module. An instant is in nanoseconds.
pub record Libraries : Type 0 where
  pub parse_rfc3339 : String → Option ℤ
  pub is_uuid : String → Bool
  pub is_endpoint_id : String → Bool
  pub is_low_sensitive : Value → Bool
  pub decode_base64 : String → Option (List ℕ)
  pub decode_base64_url : String → Option (List ℕ)
  pub sha256_hex : CanonicalIntent → String
  pub verify_ed25519 : List ℕ → String → List ℕ → Bool

abbrev pub invalid : String → StoreError
invalid = StoreError.invalid_input

abbrev pub max_lifetime_seconds : ℕ
max_lifetime_seconds = 30 * 24 * 60 * 60

abbrev pub is_ascii_alphanumeric : ℕ → Bool
is_ascii_alphanumeric b =
    (leb 48 b && leb b 57) || (leb 65 b && leb b 90) || (leb 97 b && leb b 122)

-- `.`, `_`, `-`, `:`
unfoldable pub safe_id_byte : ℕ → Bool
safe_id_byte b = is_ascii_alphanumeric b || b == 46 || b == 95 || b == 45 || b == 58

-- A text that is not ASCII is refused on its bytes as on its characters.
unfoldable pub validate_id : String → String → Result StoreError (Unit {0})
validate_id value message =
    reject
      (length (codes value) == 0
        || ltb 128 (length (codes value))
        || not (all safe_id_byte (codes value)))
      (invalid message)

-- `expires <= now || expires - now > Duration::seconds(MAX_LIFETIME_SECONDS)`
unfoldable pub lifetime_rejected : ℤ → ℤ → Bool
lifetime_rejected now expires =
    not (ltb_ℤ now expires) || ltb_ℤ (scale 1000000000 (pos max_lifetime_seconds)) (expires -ℤ now)

abbrev pub is_disconnect : ControlledWriteOperationKind → Bool
is_disconnect ControlledWriteOperationKind.ocserv_session_disconnect = true
is_disconnect _ = false

module _ (lib : Libraries) where
  unfoldable pub parse_time : String → String → Result StoreError ℤ
  parse_time value message = ok_or (lib.parse_rfc3339 value) (invalid message)

  unfoldable pub validate_create : CreateChangeRequest → String → Result StoreError (Unit {0})
  validate_create input now_text = do
    validate_id input.request_id "request_id is invalid"
    reject (not (lib.is_uuid input.request_id)) (invalid "request_id must be a UUID")
    validate_id input.operation_id "operation_id is invalid"
    reject (not (lib.is_endpoint_id input.endpoint_id)) (invalid "endpoint_id is not canonical")
    validate_actor input.actor
    validate_reason input.reason
    validate_id input.change_ticket "change_ticket is invalid"
    validate_id input.signed_intent.key_id "signer key id is invalid"
    reject (not (decided (text_discrete input.signed_intent.algorithm "Ed25519")))
        (invalid "signed intent algorithm must be Ed25519")
    reject
        (ltb (length (codes input.nonce)) 16
          || ltb 128 (length (codes input.nonce))
          || not (all safe_id_byte (codes input.nonce)))
        (invalid "nonce must be a bounded opaque identifier")
    reject (not (lib.is_low_sensitive input.params_summary))
        (invalid "controlled write params summary is invalid")
    now ← parse_time now_text "now must be RFC3339"
    expires ← parse_time input.expires_at "expires_at must be RFC3339"
    reject (lifetime_rejected now expires)
        (invalid "change request expiry must be in the future and within 30 days")
    reject (is_disconnect input.operation_kind)
        (invalid "session disconnect is not supported by D0")

  unfoldable pub validate_approval : ApprovalDecision → String → Result StoreError (Unit {0})
  validate_approval input now_text = do
    validate_id input.approval_id "approval_id is invalid"
    validate_actor input.approver
    validate_reason input.reason
    reject
        (not (decided (text_discrete input.role "change-approver"))
          && not (decided (text_discrete input.role "security-admin")))
        (invalid "approver role is not permitted")
    now ← parse_time now_text "now must be RFC3339"
    expires ← parse_time input.expires_at "approval expires_at must be RFC3339"
    reject (lifetime_rejected now expires)
        (invalid "approval expiry must be in the future and within 30 days")

  unfoldable pub canonical_intent : CreateChangeRequest → CanonicalIntent
  canonical_intent input = record {
    schema = "ocfleet.controlled_write_intent.v1";
    request_id = input.request_id;
    operation_id = input.operation_id;
    operation_kind = operation_kind_text input.operation_kind;
    endpoint_id = input.endpoint_id;
    actor = input.actor;
    reason = input.reason;
    change_ticket = input.change_ticket;
    nonce = input.nonce;
    expires_at = input.expires_at;
    params_summary = input.params_summary;
  }

  unfoldable pub operation_digest : CreateChangeRequest → String
  operation_digest input = lib.sha256_hex (canonical_intent input)

  unfoldable pub decode_signature : String → Result StoreError (List ℕ)
  decode_signature value = elim (lib.decode_base64 value) [
    | some bytes ↦ ok bytes
    | none ↦
        ok_or (lib.decode_base64_url value) (invalid "signed intent signature is not valid base64")
  ]

-- `TrustedIntentKeyring::resolve`
unfoldable pub contains_text : String → List String → Bool
contains_text s [] = false
contains_text s (t ∷ ts) = decided (text_discrete s t) || contains_text s ts

unfoldable pub resolve :
    List (String × TrustedIntentKey) → String → String → Result StoreError TrustedIntentKey
resolve keys key_id actor = do
  key ← ok_or (lookup text_discrete key_id keys) (invalid "signed intent key_id is not trusted")
  reject (not (contains_text actor key.allowed_actors))
      (invalid "signed intent key is not authorized for actor")
  ok key
