-- ===== src/Cli/Change/Effects.antt =====
-- What each command of controlled_writes.rs does to the tables when its transaction commits.
use ocserv_fleet_agent.Cli.Change.Steps.{
  cancel_audit, decision_audit, dry_run_audit, put_approval, put_attempt, IsActive, IsActive-row,
  transition-some, finish_effect,
}
use ocserv_fleet_agent.Common.Assoc.{lookup-insert, insert-insert}
use ocserv_fleet_agent.Cli.Change.Commands.{
  cancel_tx, approve_tx, dry_run_target, decision_row, reject_tx, dry_run_tx, attempt_row,
}
use ocserv_fleet_agent.Cli.Change.Table.{
  transition, find_change, change_from_row, put_change, with_state, insert_record_audit,
  insert_approval, insert_attempt, length_between, attempted,
}
use ocserv_fleet_agent.Cli.Change.Operations.{
  require_active_change, may_cancel, awaits_approval, may_dry_run,
}
use ocserv_fleet_agent.Cli.Change.State.{ChangeState}
use ocserv_fleet_agent.Cli.Change.Validate.{Libraries}
use ocserv_fleet_agent.Cli.Change.Records.{
  ChangeRow, ChangeStore, ChangeRequestRecord, ApprovalDecision, ApprovalRow, Decision,
}
use ocserv_fleet_agent.Common.{
  String, Bool, ◌≡◌, some, ok, arith, text_discrete, true, >>=-eq-ok, after_reject, ◌≢◌, not,
  decided, ◌||◌,
}

module _ (lib : Libraries) where
  insert_approval_some :
      (a : ApprovalRow) (st st' : ChangeStore)
      → insert_approval a st ≡ ok st'
      → st' ≡ put_approval a st
  unfolding insert_approval
  insert_approval_some a st st' h = ground arith

  pub cancel_effect :
      (id actor now : String) (st st' : ChangeStore) (r : ChangeRequestRecord)
      → cancel_tx lib id actor now st ≡ ok (r, st')
      → (row : ChangeRow) × IsActive lib id now st row
        × (row.actor ≡ actor)
        × (may_cancel row.state ≡ true)
        × (st'
            ≡ insert_record_audit
                (change_from_row id row)
                (cancel_audit (change_from_row id row) actor now)
                (put_change id (with_state row ChangeState.cancelled now) st))
  unfolding cancel_tx change_from_row
  cancel_effect id actor now st st' r h =
      let (current, ha, h1) = >>=-eq-ok (require_active_change lib id now st) _ h in
      let (row, active, hc) = IsActive-row lib id now st current ha in
      let (d1, h2) = after_reject (not (decided (text_discrete current.actor actor))) _ _ h1 in
      let (d2, h3) = after_reject (not (may_cancel current.state)) _ _ h2 in
      let he =
        finish_effect lib id current current.state (cancel_audit current actor now) st st' r row
          active.found h3 in
      (row, active, ground (arith, hc, d1), ground (arith, hc, d2), ground (arith, he, hc))

  pub approve_effect :
      (id : String) (a : ApprovalDecision) (now : String) (st st' : ChangeStore)
      (r : ChangeRequestRecord)
      → approve_tx lib id a now st ≡ ok (r, st')
      → (row : ChangeRow) × IsActive lib id now st row
        × (row.actor ≢ a.approver)
        × (awaits_approval row.state ≡ true)
        × (st'
            ≡ insert_record_audit
                (change_from_row id row)
                (decision_audit (change_from_row id row) a ChangeState.approved now)
                (put_change id
                  (with_state row ChangeState.approved now)
                  (put_approval (decision_row id a Decision.approve_decision now) st)))
  unfolding approve_tx change_from_row
  approve_effect id a now st st' r h =
      let (current, ha, h1) = >>=-eq-ok (require_active_change lib id now st) _ h in
      let (row, active, hc) = IsActive-row lib id now st current ha in
      let (d1, h2) = after_reject (decided (text_discrete current.actor a.approver)) _ _ h1 in
      let (d2, h3) = after_reject (not (awaits_approval current.state)) _ _ h2 in
      let (st1, hi, h4) =
        >>=-eq-ok (insert_approval (decision_row id a Decision.approve_decision now) st) _ h3 in
      let hs = insert_approval_some (decision_row id a Decision.approve_decision now) st st1 hi in
      let found : find_change id st1 ≡ some row = ground (arith, hs, active.found) in
      let he =
        finish_effect lib id current current.state
          (decision_audit current a ChangeState.approved now) st1 st' r row found h4 in
      (row, active, ground (arith, hc, d1), ground (arith, hc, d2), ground (arith, he, hc, hs))

  pub reject_effect :
      (id : String) (a : ApprovalDecision) (now : String) (st st' : ChangeStore)
      (r : ChangeRequestRecord)
      → reject_tx lib id a now st ≡ ok (r, st')
      → (row : ChangeRow) × IsActive lib id now st row
        × (row.actor ≢ a.approver)
        × (awaits_approval row.state ≡ true)
        × (st'
            ≡ insert_record_audit
                (change_from_row id row)
                (decision_audit (change_from_row id row) a ChangeState.rejected now)
                (put_change id
                  (with_state row ChangeState.rejected now)
                  (put_approval (decision_row id a Decision.reject_decision now) st)))
  unfolding reject_tx change_from_row
  reject_effect id a now st st' r h =
      let (current, ha, h1) = >>=-eq-ok (require_active_change lib id now st) _ h in
      let (row, active, hc) = IsActive-row lib id now st current ha in
      let (d1, h2) = after_reject (decided (text_discrete current.actor a.approver)) _ _ h1 in
      let (d2, h3) = after_reject (not (awaits_approval current.state)) _ _ h2 in
      let (st1, hi, h4) =
        >>=-eq-ok (insert_approval (decision_row id a Decision.reject_decision now) st) _ h3 in
      let hs = insert_approval_some (decision_row id a Decision.reject_decision now) st st1 hi in
      let found : find_change id st1 ≡ some row = ground (arith, hs, active.found) in
      let he =
        finish_effect lib id current current.state
          (decision_audit current a ChangeState.rejected now) st1 st' r row found h4 in
      (row, active, ground (arith, hc, d1), ground (arith, hc, d2), ground (arith, he, hc, hs))

  pub dry_run_effect :
      (id actor : String) (allowed : Bool) (attempt_id now : String) (st st' : ChangeStore)
      (r : ChangeRequestRecord)
      → dry_run_tx lib id actor allowed attempt_id now st ≡ ok (r, st')
      → (row : ChangeRow) × IsActive lib id now st row
        × (row.actor ≡ actor)
        × (may_dry_run row.state ≡ true)
        × (st'
            ≡ insert_record_audit
                (change_from_row id row)
                (dry_run_audit (change_from_row id row) actor allowed now)
                (put_change id
                  (with_state row (dry_run_target allowed) now)
                  (put_attempt (attempt_row id allowed attempt_id now) st)))
  unfolding dry_run_tx change_from_row insert_attempt
  dry_run_effect id actor allowed attempt_id now st st' r h =
      let (current, ha, h1) = >>=-eq-ok (require_active_change lib id now st) _ h in
      let (row, active, hc) = IsActive-row lib id now st current ha in
      let (d1, h2) = after_reject (not (decided (text_discrete current.actor actor))) _ _ h1 in
      let (d2, h3) = after_reject (not (may_dry_run current.state)) _ _ h2 in
      let (st1, ht, h4) =
        >>=-eq-ok (transition id current.state ChangeState.dry_run_pending now st) _ h3 in
      let (row', found', _, hs) =
        transition-some lib id now current.state ChangeState.dry_run_pending st st1 ht in
      let (st2, hi, h5) =
        >>=-eq-ok (insert_attempt (attempt_row id allowed attempt_id now) st1) _ h4 in
      let (_, hj) =
        after_reject (attempted attempt_id st1.attempts || not (length_between 1 128 attempt_id)) _
          _ hi in
      let pending = with_state row ChangeState.dry_run_pending now in
      let found : find_change id st2 ≡ some pending = ground (
        arith,
        hj,
        hs,
        found',
        active.found,
        lookup-insert text_discrete id id pending st.changes,
      ) in
      let he =
        finish_effect lib id current ChangeState.dry_run_pending
          (dry_run_audit current actor allowed now) st2 st' r pending found h5 in
      (
        row,
        active,
        ground (arith, hc, d1),
        ground (arith, hc, d2),
        ground (
          arith,
          he,
          hc,
          hj,
          hs,
          found',
          active.found,
          insert-insert text_discrete id (with_state row (dry_run_target allowed) now) pending
              st.changes,
        ),
      )
