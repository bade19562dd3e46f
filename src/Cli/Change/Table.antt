-- ===== src/Cli/Change/Table.antt =====
-- The tables of controlled_writes.rs: reading a request, moving it to another state, and the rows that
-- are added, with the constraints of the schema (crates/ocfleet-cli/src/migrations.rs).
use ocserv_fleet_agent.Cli.Change.Validate.{invalid}
use ocserv_fleet_agent.Cli.Input.{StoreError}
use ocserv_fleet_agent.Common.Assoc.{lookup, insert}
use ocserv_fleet_agent.Cli.Change.State.{ChangeState, as_str}
use ocserv_fleet_agent.Cli.Change.Records.{
  ChangeStore, ChangeRow, ChangeAuditRecord, ChangeRequestRecord, CreateChangeRequest, ApprovalRow,
  AttemptRow, operation_kind_text,
}
use ocserv_fleet_agent.Common.{
  ℕ, String, Bool, Option, leb, List, Result, ◌∷◌, length, false, none, text_discrete, some, codes,
  decided, ◌&&◌, ◌||◌, ◌>>=◌, ◌>>◌, ok_or, reject, [], is_some, not, ok,
}

abbrev pub find_change : String → ChangeStore → Option ChangeRow
find_change request_id st = lookup text_discrete request_id st.changes

unfoldable pub change_from_row : String → ChangeRow → ChangeRequestRecord
change_from_row request_id row = record {
  request_id = request_id;
  operation_id = row.operation_id;
  operation_kind = row.operation_kind;
  endpoint_id = row.endpoint_id;
  actor = row.actor;
  change_ticket = row.change_ticket;
  operation_digest = row.operation_digest;
  state = row.state;
  expires_at = row.expires_at;
  created_at = row.created_at;
  updated_at = row.updated_at;
}

unfoldable pub get_change_tx : String → ChangeStore → Option ChangeRequestRecord
get_change_tx request_id st = elim (find_change request_id st) [
  | none ↦ none
  | some row ↦ some (change_from_row request_id row)
]

abbrev pub with_state : ChangeRow → ChangeState → String → ChangeRow
with_state row to now = record {
  operation_id = row.operation_id;
  operation_kind = row.operation_kind;
  endpoint_id = row.endpoint_id;
  actor = row.actor;
  reason = row.reason;
  change_ticket = row.change_ticket;
  operation_digest = row.operation_digest;
  nonce = row.nonce;
  signer_key_id = row.signer_key_id;
  signed_intent = row.signed_intent;
  public_key_fingerprint = row.public_key_fingerprint;
  params_summary = row.params_summary;
  state = to;
  expires_at = row.expires_at;
  created_at = row.created_at;
  updated_at = now;
}

abbrev pub put_change : String → ChangeRow → ChangeStore → ChangeStore
put_change request_id row st = record {
  changes = insert text_discrete request_id row st.changes;
  approvals = st.approvals;
  attempts = st.attempts;
  audit = st.audit;
}

-- `UPDATE ... WHERE request_id = ? AND state = ?`, which must change a row.
unfoldable pub transition :
    String → ChangeState → ChangeState → String → ChangeStore → Result StoreError ChangeStore
transition request_id from to now st = do
  row ←
      ok_or (find_change request_id st)
        (invalid "change request transition lost a concurrent update")
  reject (not (decided (text_discrete (as_str row.state) (as_str from))))
      (invalid "change request transition lost a concurrent update")
  ok (put_change request_id (with_state row to now) st)

-- `TransitionAudit` for a record.
pub record TransitionAudit : Type 0 where
  pub state_from : Option ChangeState
  pub state_to : ChangeState
  pub actor : String
  pub approval_id : Option String
  pub is_ok : Bool
  pub error : Option String
  pub now : String

abbrev pub audit_row : String → String → String → TransitionAudit → ChangeAuditRecord
audit_row request_id operation_id operation_kind a = record {
  timestamp = a.now;
  request_id = request_id;
  operation_id = operation_id;
  operation_kind = operation_kind;
  actor = a.actor;
  approval_id = a.approval_id;
  state_from = a.state_from;
  state_to = a.state_to;
  is_ok = a.is_ok;
  error_code = a.error;
}

abbrev pub with_audit : ChangeAuditRecord → ChangeStore → ChangeStore
with_audit row st = record {
  changes = st.changes;
  approvals = st.approvals;
  attempts = st.attempts;
  audit = row ∷ st.audit;
}

abbrev pub insert_record_audit : ChangeRequestRecord → TransitionAudit → ChangeStore → ChangeStore
insert_record_audit r a st =
    with_audit (audit_row r.request_id r.operation_id r.operation_kind a) st

abbrev pub insert_transition_audit :
    CreateChangeRequest → TransitionAudit → ChangeStore → ChangeStore
insert_transition_audit input a st =
    with_audit
      (audit_row input.request_id input.operation_id (operation_kind_text input.operation_kind) a)
      st

-- `CHECK (length(column) BETWEEN low AND high)`
abbrev pub length_between : ℕ → ℕ → String → Bool
length_between low high text = leb low (length (codes text)) && leb (length (codes text)) high

-- `UNIQUE` on a column of `change_requests`.
unfoldable pub taken : (ChangeRow → String) → String → List (String × ChangeRow) → Bool
taken column value [] = false
taken column value ((id, row) ∷ rows) =
    decided (text_discrete (column row) value) || taken column value rows

unfoldable pub insert_change : String → ChangeRow → ChangeStore → Result StoreError ChangeStore
insert_change request_id row st = do
  reject
      (is_some (find_change request_id st)
        || taken (λ r. r.operation_id) row.operation_id st.changes
        || taken (λ r. r.nonce) row.nonce st.changes
        || not (length_between 1 128 row.endpoint_id)
        || not (length_between 1 128 row.actor)
        || not (length_between 1 256 row.reason)
        || not (length_between 64 64 row.operation_digest))
      StoreError.sqlite
  ok (put_change request_id row st)

-- `approval_id TEXT PRIMARY KEY` and `UNIQUE(request_id, approver_actor)`
unfoldable pub conflicts : ApprovalRow → List ApprovalRow → Bool
conflicts a [] = false
conflicts a (b ∷ rows) =
    decided (text_discrete a.approval_id b.approval_id)
    || (decided (text_discrete a.request_id b.request_id)
        && decided (text_discrete a.approver_actor b.approver_actor))
    || conflicts a rows

unfoldable pub insert_approval : ApprovalRow → ChangeStore → Result StoreError ChangeStore
insert_approval a st = do
  reject
      (conflicts a st.approvals
        || not (length_between 1 128 a.approver_actor)
        || not (length_between 1 256 a.reason))
      StoreError.sqlite
  ok (record {
    changes = st.changes;
    approvals = a ∷ st.approvals;
    attempts = st.attempts;
    audit = st.audit;
  })

unfoldable pub attempted : String → List AttemptRow → Bool
attempted id [] = false
attempted id (a ∷ rows) = decided (text_discrete id a.attempt_id) || attempted id rows

unfoldable pub insert_attempt : AttemptRow → ChangeStore → Result StoreError ChangeStore
insert_attempt a st = do
  reject (attempted a.attempt_id st.attempts || not (length_between 1 128 a.attempt_id))
      StoreError.sqlite
  ok (record {
    changes = st.changes;
    approvals = st.approvals;
    attempts = a ∷ st.attempts;
    audit = st.audit;
  })
