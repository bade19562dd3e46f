-- ===== src/Cli/Change/Records.antt =====
-- The requests, rows and decisions of controlled_writes.rs, and the tables that keep them.
use ocserv_fleet_agent.Cli.Change.State.{ChangeState}
use ocserv_fleet_agent.Protocol.Json.{Value}
use ocserv_fleet_agent.Common.{ℕ, String, Option, List, Bool, []}

pub data ControlledWriteOperationKind : Type 0 where
  ocserv_reload ocserv_restart ocserv_config_apply ocserv_config_rollback
        ocserv_session_disconnect :
      ControlledWriteOperationKind

unfoldable pub operation_kind_text : ControlledWriteOperationKind → String
operation_kind_text ControlledWriteOperationKind.ocserv_reload = "ocserv_reload"
operation_kind_text ControlledWriteOperationKind.ocserv_restart = "ocserv_restart"
operation_kind_text ControlledWriteOperationKind.ocserv_config_apply = "ocserv_config_apply"
operation_kind_text ControlledWriteOperationKind.ocserv_config_rollback = "ocserv_config_rollback"
operation_kind_text ControlledWriteOperationKind.ocserv_session_disconnect =
    "ocserv_session_disconnect"

pub record SignedControlledWriteIntent : Type 0 where
  pub key_id : String
  pub algorithm : String
  pub payload_sha256 : String
  pub signature : String

pub record CreateChangeRequest : Type 0 where
  pub request_id : String
  pub operation_id : String
  pub operation_kind : ControlledWriteOperationKind
  pub endpoint_id : String
  pub actor : String
  pub reason : String
  pub change_ticket : String
  pub nonce : String
  pub expires_at : String
  pub params_summary : Value
  pub signed_intent : SignedControlledWriteIntent

-- What the digest is taken of.
pub record CanonicalIntent : Type 0 where
  pub schema : String
  pub request_id : String
  pub operation_id : String
  pub operation_kind : String
  pub endpoint_id : String
  pub actor : String
  pub reason : String
  pub change_ticket : String
  pub nonce : String
  pub expires_at : String
  pub params_summary : Value

pub record TrustedIntentKey : Type 0 where
  pub public_key : List ℕ
  pub public_key_fingerprint : String
  pub allowed_actors : List String

pub record ApprovalDecision : Type 0 where
  pub approval_id : String
  pub approver : String
  pub role : String
  pub reason : String
  pub expires_at : String

-- A row of `change_requests`, without the primary key `request_id`, under which it is kept. Its state
-- is written and read as the text of `as_str`, which the column's CHECK allows.
pub record ChangeRow : Type 0 where
  pub operation_id : String
  pub operation_kind : String
  pub endpoint_id : String
  pub actor : String
  pub reason : String
  pub change_ticket : String
  pub operation_digest : String
  pub nonce : String
  pub signer_key_id : String
  pub signed_intent : SignedControlledWriteIntent
  pub public_key_fingerprint : String
  pub params_summary : Value
  pub state : ChangeState
  pub expires_at : String
  pub created_at : String
  pub updated_at : String

pub record ChangeRequestRecord : Type 0 where
  pub request_id : String
  pub operation_id : String
  pub operation_kind : String
  pub endpoint_id : String
  pub actor : String
  pub change_ticket : String
  pub operation_digest : String
  pub state : ChangeState
  pub expires_at : String
  pub created_at : String
  pub updated_at : String

pub data Decision : Type 0 where
  approve_decision reject_decision : Decision

-- A row of `change_approvals`.
pub record ApprovalRow : Type 0 where
  pub approval_id : String
  pub request_id : String
  pub approver_actor : String
  pub approver_role : String
  pub decision : Decision
  pub reason : String
  pub expires_at : String
  pub created_at : String

-- A dry run's row of `write_operation_attempts`.
pub record AttemptRow : Type 0 where
  pub attempt_id : String
  pub request_id : String
  pub has_succeeded : Bool
  pub validation_code : String
  pub created_at : String

-- A row of `write_operation_audit`, whose number is its place.
pub record ChangeAuditRecord : Type 0 where
  pub timestamp : String
  pub request_id : String
  pub operation_id : String
  pub operation_kind : String
  pub actor : String
  pub approval_id : Option String
  pub state_from : Option ChangeState
  pub state_to : ChangeState
  pub is_ok : Bool
  pub error_code : Option String

-- The tables: the change requests by their primary key, the others with the newest row first.
pub record ChangeStore : Type 0 where
  pub changes : List (String × ChangeRow)
  pub approvals : List ApprovalRow
  pub attempts : List AttemptRow
  pub audit : List ChangeAuditRecord

abbrev pub empty_store : ChangeStore
empty_store = record { changes = []; approvals = []; attempts = []; audit = [] }
