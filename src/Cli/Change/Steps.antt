-- ===== src/Cli/Change/Steps.antt =====
-- The parts of the commands of controlled_writes.rs: the request that a command reads, and the
-- transition, audit row and last read that end it.
use ocserv_fleet_agent.Cli.Input.{StoreError}
use ocserv_fleet_agent.Common.Int.{ℤ, ◌<ℤ◌, ltb_ℤ}
use ocserv_fleet_agent.Cli.Change.Commands.{dry_run_target}
use ocserv_fleet_agent.Cli.Change.Table.{
  transition, find_change, change_from_row, get_change_tx, put_change, with_state, TransitionAudit,
  insert_record_audit,
}
use ocserv_fleet_agent.Cli.Change.Operations.{require_active_change, reread, read_expiry, finish}
use ocserv_fleet_agent.Cli.Change.State.{ChangeState, as_str}
use ocserv_fleet_agent.Cli.Change.Validate.{Libraries, parse_time, validate_id, invalid}
use ocserv_fleet_agent.Cli.Change.Records.{
  ChangeRow, ChangeStore, ChangeRequestRecord, ApprovalDecision, ApprovalRow, AttemptRow,
}
use ocserv_fleet_agent.Common.{
  String, Bool, ◌≡◌, some, ok, arith, true, >>=-eq-ok, ◌∷◌, ok_or, none, if◌then◌else◌,
}

abbrev pub cancel_audit : ChangeRequestRecord → String → String → TransitionAudit
cancel_audit current actor now = record {
  state_from = some current.state;
  state_to = ChangeState.cancelled;
  actor = actor;
  approval_id = none;
  is_ok = true;
  error = none;
  now = now;
}

abbrev pub decision_audit :
    ChangeRequestRecord → ApprovalDecision → ChangeState → String → TransitionAudit
decision_audit current a to now = record {
  state_from = some current.state;
  state_to = to;
  actor = a.approver;
  approval_id = some a.approval_id;
  is_ok = true;
  error = none;
  now = now;
}

abbrev pub dry_run_audit : ChangeRequestRecord → String → Bool → String → TransitionAudit
dry_run_audit current actor allowed now = record {
  state_from = some current.state;
  state_to = dry_run_target allowed;
  actor = actor;
  approval_id = none;
  is_ok = allowed;
  error = (if allowed then none else some "POLICY_DISABLED");
  now = now;
}

abbrev pub put_approval : ApprovalRow → ChangeStore → ChangeStore
put_approval a st = record {
  changes = st.changes;
  approvals = a ∷ st.approvals;
  attempts = st.attempts;
  audit = st.audit;
}

abbrev pub put_attempt : AttemptRow → ChangeStore → ChangeStore
put_attempt a st = record {
  changes = st.changes;
  approvals = st.approvals;
  attempts = a ∷ st.attempts;
  audit = st.audit;
}

-- The request is there, and it expires after the instant.
pub record IsActive (lib : Libraries) (id now : String) (st : ChangeStore) (row : ChangeRow)
    : Type 0 where
  pub found : find_change id st ≡ some row
  pub now_time : ℤ
  pub expires : ℤ
  pub now_read : lib.parse_rfc3339 now ≡ some now_time
  pub expires_read : lib.parse_rfc3339 row.expires_at ≡ some expires
  pub is_before : now_time <ℤ expires

module _ (lib : Libraries) where
  get_change_some :
      (id : String) (st : ChangeStore) (e : StoreError) (c : ChangeRequestRecord)
      → ok_or (get_change_tx id st) e ≡ ok c
      → (row : ChangeRow) × (find_change id st ≡ some row) × (c ≡ change_from_row id row)
  unfolding get_change_tx
  get_change_some id st e c h = ground arith

  pub read_expiry_row :
      (id now : String) (st : ChangeStore) (current : ChangeRequestRecord) (is_active : Bool)
      → read_expiry lib id now st ≡ ok (current, is_active)
      → (row : ChangeRow) × (find_change id st ≡ some row)
        × (current ≡ change_from_row id row)
        × (now_time : ℤ) × (expires : ℤ) × (lib.parse_rfc3339 now ≡ some now_time)
        × (lib.parse_rfc3339 row.expires_at ≡ some expires)
        × (is_active ≡ ltb_ℤ now_time expires)
  unfolding read_expiry parse_time change_from_row
  read_expiry_row id now st current is_active h =
      let (_, _, h2) = >>=-eq-ok (validate_id id "request_id is invalid") _ h in
      let (t, ht, h3) = >>=-eq-ok (parse_time lib now "now must be RFC3339") _ h2 in
      let (c, hc, h4) =
        >>=-eq-ok (ok_or (get_change_tx id st) (invalid "change request not found")) _ h3 in
      let (e, he, h5) =
        >>=-eq-ok (parse_time lib c.expires_at "stored expires_at must be RFC3339") _ h4 in
      let (row, found, hr) = get_change_some id st _ c hc in
      (row, found, ground arith, t, e, ground arith, ground arith, ground arith)

  -- A request that is active: it is there, and it expires after the instant.
  pub IsActive-row :
      (id now : String) (st : ChangeStore) (current : ChangeRequestRecord)
      → require_active_change lib id now st ≡ ok current
      → (row : ChangeRow) × IsActive lib id now st row × (current ≡ change_from_row id row)
  unfolding require_active_change
  IsActive-row id now st current h =
      let (p, hp, h1) = >>=-eq-ok (read_expiry lib id now st) _ h in
      let (row, found, hr, t, e, ht, he, hb) = read_expiry_row id now st p.0 p.1 hp in
      (
        row,
        record {
          found = found;
          now_time = t;
          expires = e;
          now_read = ht;
          expires_read = he;
          is_before = ground (arith, h1, hb);
        },
        ground (arith, h1, hr),
      )

  pub transition-some :
      (id now : String) (from to : ChangeState) (st st' : ChangeStore)
      → transition id from to now st ≡ ok st'
      → (row : ChangeRow) × (find_change id st ≡ some row)
        × (as_str row.state ≡ as_str from)
        × (st' ≡ put_change id (with_state row to now) st)
  unfolding transition
  transition-some id now from to st st' h = ground arith

  pub reread_ok :
      (id message : String) (st st' : ChangeStore) (r : ChangeRequestRecord)
      → reread id message st ≡ ok (r, st')
      → st' ≡ st
  unfolding reread
  reread_ok id message st st' r h = ground arith

  -- The end of a command: the row has the new state, and the audit a new entry.
  pub finish_effect :
      (id : String) (current : ChangeRequestRecord) (from : ChangeState) (a : TransitionAudit)
      (st st' : ChangeStore) (r : ChangeRequestRecord) (row : ChangeRow)
      → find_change id st ≡ some row
      → finish id current from a st ≡ ok (r, st')
      → st' ≡ insert_record_audit current a (put_change id (with_state row a.state_to a.now) st)
  unfolding finish
  finish_effect id current from a st st' r row found h =
      let (st1, ht, h1) = >>=-eq-ok (transition id from a.state_to a.now st) _ h in
      let (row', found', _, hs) = transition-some id a.now from a.state_to st st1 ht in
      ground (
        arith,
        hs,
        found',
        reread_ok id "change request is missing" (insert_record_audit current a st1) st' r h1,
      )
