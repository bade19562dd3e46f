-- ===== src/Cli/Change/Commands.antt =====
-- The commands of controlled_writes.rs on a request that exists: dry run, approval, rejection,
-- cancellation.
use ocserv_fleet_agent.Cli.Change.Table.{
  insert_attempt, insert_approval, transition, insert_approval, insert_attempt,
}
use ocserv_fleet_agent.Cli.Input.{StoreError, validate_actor}
use ocserv_fleet_agent.Cli.Change.Operations.{
  finish, Outcome, in_transaction, require_active_change, may_dry_run, awaits_approval, may_cancel,
}
use ocserv_fleet_agent.Cli.Change.Records.{
  ChangeStore, ApprovalDecision, Decision, ApprovalRow, ChangeRequestRecord, AttemptRow,
}
use ocserv_fleet_agent.Cli.Change.State.{ChangeState}
use ocserv_fleet_agent.Cli.Change.Validate.{Libraries, validate_approval, parse_time, invalid}
use ocserv_fleet_agent.Common.{
  String, Bool, if◌then◌else◌, Result, ◌>>◌, ◌>>=◌, reject, ok, not, ◌&&◌, decided, text_discrete,
  some, none, true,
}

abbrev pub dry_run_target : Bool → ChangeState
dry_run_target allowed =
    if allowed then ChangeState.dry_run_succeeded else ChangeState.dry_run_failed

abbrev pub attempt_row : String → Bool → String → String → AttemptRow
attempt_row request_id allowed attempt_id now = record {
  attempt_id = attempt_id;
  request_id = request_id;
  has_succeeded = allowed;
  validation_code = (if allowed then "POLICY_ALLOWED" else "POLICY_DISABLED");
  created_at = now;
}

-- The row of a decision.
abbrev pub decision_row : String → ApprovalDecision → Decision → String → ApprovalRow
decision_row request_id approval decision now = record {
  approval_id = approval.approval_id;
  request_id = request_id;
  approver_actor = approval.approver;
  approver_role = approval.role;
  decision = decision;
  reason = approval.reason;
  expires_at = approval.expires_at;
  created_at = now;
}

module _ (lib : Libraries) where
  unfoldable pub dry_run_tx :
      String
      → String
      → Bool
      → String
      → String
      → ChangeStore
      → Result StoreError (ChangeRequestRecord × ChangeStore)
  dry_run_tx request_id actor allowed attempt_id now st = do
    current ← require_active_change lib request_id now st
    reject (not (decided (text_discrete current.actor actor)))
        (invalid "dry-run actor must be the change request actor")
    reject (not (may_dry_run current.state)) (invalid "invalid transition to dry_run_pending")
    st1 ← transition request_id current.state ChangeState.dry_run_pending now st
    st2 ← insert_attempt (attempt_row request_id allowed attempt_id now) st1
    finish request_id current ChangeState.dry_run_pending
        (record {
          state_from = some current.state;
          state_to = dry_run_target allowed;
          actor = actor;
          approval_id = none;
          is_ok = allowed;
          error = (if allowed then none else some "POLICY_DISABLED");
          now = now;
        })
        st2

  -- The identifier of the attempt, `dry-run:` and a fresh UUID, is an argument.
  unfoldable pub record_change_dry_run :
      String → String → Bool → Bool → String → String → ChangeStore → Outcome
  record_change_dry_run request_id actor feature_enabled local_policy_enabled attempt_id now st =
      in_transaction lib
        (validate_actor actor >> (parse_time lib now "now must be RFC3339" >>= λ _. ok tt))
        request_id now
        (dry_run_tx request_id actor (feature_enabled && local_policy_enabled) attempt_id now) st

  unfoldable pub approve_tx :
      String
      → ApprovalDecision
      → String
      → ChangeStore
      → Result StoreError (ChangeRequestRecord × ChangeStore)
  approve_tx request_id approval now st = do
    current ← require_active_change lib request_id now st
    reject (decided (text_discrete current.actor approval.approver))
        (invalid "change actor and approver must be different principals")
    reject (not (awaits_approval current.state)) (invalid "approval requires a successful dry-run")
    st1 ← insert_approval (decision_row request_id approval Decision.approve_decision now) st
    finish request_id current current.state
        (record {
          state_from = some current.state;
          state_to = ChangeState.approved;
          actor = approval.approver;
          approval_id = some approval.approval_id;
          is_ok = true;
          error = none;
          now = now;
        })
        st1

  unfoldable pub approve_change : String → ApprovalDecision → String → ChangeStore → Outcome
  approve_change request_id approval now st =
      in_transaction lib (validate_approval lib approval now) request_id now
        (approve_tx request_id approval now) st

  unfoldable pub reject_tx :
      String
      → ApprovalDecision
      → String
      → ChangeStore
      → Result StoreError (ChangeRequestRecord × ChangeStore)
  reject_tx request_id decision now st = do
    current ← require_active_change lib request_id now st
    reject (decided (text_discrete current.actor decision.approver))
        (invalid "change actor and approver must be different principals")
    reject (not (awaits_approval current.state)) (invalid "change request is not awaiting approval")
    st1 ← insert_approval (decision_row request_id decision Decision.reject_decision now) st
    finish request_id current current.state
        (record {
          state_from = some current.state;
          state_to = ChangeState.rejected;
          actor = decision.approver;
          approval_id = some decision.approval_id;
          is_ok = true;
          error = none;
          now = now;
        })
        st1

  unfoldable pub reject_change : String → ApprovalDecision → String → ChangeStore → Outcome
  reject_change request_id decision now st =
      in_transaction lib (validate_approval lib decision now) request_id now
        (reject_tx request_id decision now) st

  unfoldable pub cancel_tx :
      String → String → String → ChangeStore → Result StoreError (ChangeRequestRecord × ChangeStore)
  cancel_tx request_id actor now st = do
    current ← require_active_change lib request_id now st
    reject (not (decided (text_discrete current.actor actor)))
        (invalid "only the requesting actor may cancel a change")
    reject (not (may_cancel current.state)) (invalid "change can no longer be cancelled")
    finish request_id current current.state
        (record {
          state_from = some current.state;
          state_to = ChangeState.cancelled;
          actor = actor;
          approval_id = none;
          is_ok = true;
          error = none;
          now = now;
        })
        st

  unfoldable pub cancel_change : String → String → String → ChangeStore → Outcome
  cancel_change request_id actor now st =
      in_transaction lib (validate_actor actor) request_id now (cancel_tx request_id actor now) st
