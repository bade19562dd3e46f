-- ===== src/Tests/Change.antt =====
-- The change requests: a request from its draft to an approval, and the theorems at it.
use ocserv_fleet_agent.Cli.Change.Commands.{
  dry_run_tx, record_change_dry_run, approve_tx, approve_change, reject_tx, reject_change,
  cancel_tx, cancel_change,
}
use ocserv_fleet_agent.Cli.Input.{
  is_whitespace, trim_start, trim_end, byte_len, validate_printable_text, validate_actor,
  validate_reason,
}
use ocserv_fleet_agent.Cli.Change.Operations.{
  new_row, reread, finish, expire_change, read_expiry, persist_expiry_if_needed,
  require_active_change, unless_expired, in_transaction, check_intent, create_tx,
  create_change_request,
}
use ocserv_fleet_agent.Cli.Change.Runs.{
  Command, run_commands, execute, approved_by_other, never_dispatched, execute-Moves,
  finished_stays,
}
use ocserv_fleet_agent.Cli.Change.State.{parse, ChangeState, as_str, parse_iff}
use ocserv_fleet_agent.Common.Assoc.{lookup, insert}
use ocserv_fleet_agent.Cli.Change.Refines.{Moves}
use ocserv_fleet_agent.Cli.Change.Machine.{IsDryRun, is_undispatched, IsApprovedByOther}
use ocserv_fleet_agent.Cli.Change.Table.{
  find_change, with_state, put_change, change_from_row, get_change_tx, transition, taken,
  insert_change, conflicts, insert_approval, attempted, insert_attempt,
}
use ocserv_fleet_agent.Cli.Change.Records.{
  TrustedIntentKey, CreateChangeRequest, ApprovalDecision, ChangeRow, ChangeStore,
  ControlledWriteOperationKind, empty_store, operation_kind_text,
}
use ocserv_fleet_agent.Cli.Change.Validate.{
  validate_approval, Libraries, safe_id_byte, validate_id, lifetime_rejected, parse_time,
  validate_create, validate_approval, canonical_intent, operation_digest, decode_signature,
  contains_text, resolve,
}
use ocserv_fleet_agent.Protocol.Json.{Value}
use ocserv_fleet_agent.Common.Int.{pos, ◌-ℤ◌, scale}
use ocserv_fleet_agent.Common.{
  String, List, if◌then◌else◌, [], ◌∷◌, ◌≡◌, decided, true, some, text_discrete, ok, refl, ◌↔◌,
  none,
}

abbrev digest : String
digest = "0123456789abcdef0123456789abcdef0123456789abcdef0123456789abcdef"

abbrev libraries : Libraries
libraries = record {
  parse_rfc3339 = λ s. if decided (text_discrete s "later") then some (pos 1000) else some (pos 5);
  is_uuid = λ s. true;
  is_endpoint_id = λ s. true;
  is_low_sensitive = λ v. true;
  decode_base64 = λ s. some [];
  decode_base64_url = λ s. none;
  sha256_hex = λ c. digest;
  verify_ed25519 = λ k d s. true;
}

abbrev key : TrustedIntentKey
key = record {
  public_key = [];
  public_key_fingerprint = "print";
  allowed_actors = "operator-a" ∷ [];
}

abbrev keyring : List (String × TrustedIntentKey)
keyring = ("key-1", key) ∷ []

abbrev input : CreateChangeRequest
input = record {
  request_id = "request-1";
  operation_id = "op-1";
  operation_kind = ControlledWriteOperationKind.ocserv_reload;
  endpoint_id = "endpoint-1";
  actor = "operator-a";
  reason = "Reviewed reload";
  change_ticket = "CHG-1";
  nonce = "nonce-0123456789";
  expires_at = "later";
  params_summary = Value.null;
  signed_intent = record {
    key_id = "key-1";
    algorithm = "Ed25519";
    payload_sha256 = digest;
    signature = "AA==";
  };
}

abbrev approval : ApprovalDecision
approval = record {
  approval_id = "approval-1";
  approver = "approver-b";
  role = "change-approver";
  reason = "Looks right";
  expires_at = "later";
}

abbrev commands : List Command
commands =
    Command.create input "now"
    ∷ Command.dry_run "request-1" "operator-a" true true "dry-run:1" "now"
    ∷ Command.approve "request-1" approval "now"
    ∷ []

abbrev approved_row : ChangeRow
approved_row = with_state (new_row libraries input key "now") ChangeState.approved "now"

approved_found :
    find_change "request-1" (run_commands libraries keyring commands empty_store)
    ≡ some approved_row
unfolding is_whitespace trim_start trim_end byte_len validate_printable_text validate_actor
    validate_reason as_str operation_kind_text safe_id_byte validate_id lifetime_rejected parse_time
    validate_create validate_approval canonical_intent operation_digest decode_signature
    contains_text resolve change_from_row get_change_tx transition taken insert_change conflicts
    insert_approval attempted insert_attempt reread finish expire_change read_expiry
    persist_expiry_if_needed require_active_change unless_expired in_transaction new_row
    check_intent create_tx create_change_request dry_run_tx record_change_dry_run approve_tx
    approve_change reject_tx reject_change cancel_tx cancel_change execute run_commands lookup
    insert text_discrete ◌-ℤ◌ scale
approved_found = refl

approved_by_other_example :
    IsDryRun "request-1" (run_commands libraries keyring commands empty_store).attempts
    × IsApprovedByOther "request-1" approved_row
        (run_commands libraries keyring commands empty_store).approvals
approved_by_other_example =
    approved_by_other libraries keyring commands "request-1" approved_row approved_found refl

never_dispatched_example : is_undispatched approved_row.state ≡ true
never_dispatched_example =
    never_dispatched libraries keyring commands "request-1" approved_row approved_found

execute-Moves_example :
    Moves empty_store (execute libraries keyring (Command.create input "now") empty_store)
execute-Moves_example = execute-Moves libraries keyring (Command.create input "now") empty_store

-- A cancelled request, as it is stored.
abbrev cancelled_row : ChangeRow
cancelled_row = with_state (new_row libraries input key "now") ChangeState.cancelled "now"

abbrev cancelled_store : ChangeStore
cancelled_store = put_change "request-1" cancelled_row empty_store

cancelled_found : find_change "request-1" cancelled_store ≡ some cancelled_row
unfolding lookup insert text_discrete
cancelled_found = refl

finished_stays_example :
    find_change "request-1" (run_commands libraries keyring commands cancelled_store)
    ≡ some cancelled_row
finished_stays_example =
    finished_stays libraries keyring commands cancelled_store "request-1" cancelled_row
      cancelled_found refl

parse_iff_example :
    (parse "approved" ≡ ok ChangeState.approved) ↔ ("approved" ≡ as_str ChangeState.approved)
parse_iff_example = parse_iff "approved" ChangeState.approved
