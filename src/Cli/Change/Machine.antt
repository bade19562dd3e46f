-- ===== src/Cli/Change/Machine.antt =====
-- The change requests as a state machine: the moves that a store can make, and what holds of every
-- store that they reach.
use ocserv_fleet_agent.Cli.Change.Steps.{put_attempt, put_approval}
use ocserv_fleet_agent.Cli.Change.Commands.{dry_run_target, attempt_row, decision_row}
use ocserv_fleet_agent.Cli.Change.Operations.{
  may_cancel, awaits_approval, is_finished, may_dry_run, may_cancel,
}
use ocserv_fleet_agent.Cli.Change.Table.{find_change, put_change, with_audit, with_state}
use ocserv_fleet_agent.Common.Assoc.{lookup, lookup-insert, insert}
use ocserv_fleet_agent.Cli.Change.State.{ChangeState}
use ocserv_fleet_agent.Cli.Change.Records.{
  ChangeStore, ChangeRow, ChangeAuditRecord, empty_store, Decision, ApprovalDecision, ApprovalRow,
  AttemptRow,
}
use ocserv_fleet_agent.Common.{
  String, Bool, ◌≡◌, ◌⊎◌, true, Any, none, false, some, ◌≢◌, arith, text_discrete, inl, refl, subst,
  inr, List, ◌∷◌,
}

abbrev pub IsApproverRole : String → Type 0
IsApproverRole role = (role ≡ "change-approver") ⊎ (role ≡ "security-admin")

-- The moves, at the time that a command is given. Each one logs an entry of its own.
pub data Move : ChangeStore → ChangeStore → Type 0 where
  creates :
      (st : ChangeStore) (id : String) (row : ChangeRow) (entry : ChangeAuditRecord)
      → find_change id st ≡ none
      → row.state ≡ ChangeState.draft
      → Move st (with_audit entry (put_change id row st))
  expires :
      (st : ChangeStore) (id now : String) (row : ChangeRow) (entry : ChangeAuditRecord)
      → find_change id st ≡ some row
      → is_finished row.state ≡ false
      → Move st (with_audit entry (put_change id (with_state row ChangeState.expired now) st))
  dry_runs :
      (st : ChangeStore) (id now : String) (row : ChangeRow) (entry : ChangeAuditRecord)
      (allowed : Bool) (attempt_id : String)
      → find_change id st ≡ some row
      → may_dry_run row.state ≡ true
      → Move st (
          with_audit entry (
            put_change id
              (with_state row (dry_run_target allowed) now)
              (put_attempt (attempt_row id allowed attempt_id now) st)))
  approves :
      (st : ChangeStore) (id now : String) (row : ChangeRow) (entry : ChangeAuditRecord)
      (a : ApprovalDecision)
      → find_change id st ≡ some row
      → awaits_approval row.state ≡ true
      → row.actor ≢ a.approver
      → IsApproverRole a.role
      → Move st (
          with_audit entry (
            put_change id
              (with_state row ChangeState.approved now)
              (put_approval (decision_row id a Decision.approve_decision now) st)))
  rejects :
      (st : ChangeStore) (id now : String) (row : ChangeRow) (entry : ChangeAuditRecord)
      (a : ApprovalDecision)
      → find_change id st ≡ some row
      → awaits_approval row.state ≡ true
      → row.actor ≢ a.approver
      → IsApproverRole a.role
      → Move st (
          with_audit entry (
            put_change id
              (with_state row ChangeState.rejected now)
              (put_approval (decision_row id a Decision.reject_decision now) st)))
  cancels :
      (st : ChangeStore) (id now : String) (row : ChangeRow) (entry : ChangeAuditRecord)
      → find_change id st ≡ some row
      → may_cancel row.state ≡ true
      → Move st (with_audit entry (put_change id (with_state row ChangeState.cancelled now) st))

-- The states that a request can be in: none of them is a dispatch or comes after one.
abbrev pub is_undispatched : ChangeState → Bool
is_undispatched ChangeState.draft = true
is_undispatched ChangeState.dry_run_succeeded = true
is_undispatched ChangeState.dry_run_failed = true
is_undispatched ChangeState.approved = true
is_undispatched ChangeState.rejected = true
is_undispatched ChangeState.cancelled = true
is_undispatched ChangeState.expired = true
is_undispatched _ = false

-- Another principal than the requester, in an approver's role, has approved the request.
abbrev pub IsApprovedByOther : String → ChangeRow → List ApprovalRow → Type 0
IsApprovedByOther id row approvals =
    Any
      (λ a.
        (a.request_id ≡ id)
        × (a.decision ≡ Decision.approve_decision)
        × (row.actor ≢ a.approver_actor)
        × IsApproverRole a.approver_role)
      approvals

-- A dry run of the request has succeeded.
abbrev pub IsDryRun : String → List AttemptRow → Type 0
IsDryRun id attempts = Any (λ a. (a.request_id ≡ id) × (a.has_succeeded ≡ true)) attempts

pub record IsSoundRow (id : String) (row : ChangeRow) (approvals : List ApprovalRow)
    (attempts : List AttemptRow) : Type 0 where
  pub undispatched : is_undispatched row.state ≡ true
  pub dry_run : awaits_approval row.state ≡ true → IsDryRun id attempts
  pub approved :
      row.state ≡ ChangeState.approved → IsDryRun id attempts × IsApprovedByOther id row approvals

abbrev pub IsSound : ChangeStore → Type 0
IsSound st =
    (id : String) (row : ChangeRow)
    → find_change id st ≡ some row
    → IsSoundRow id row st.approvals st.attempts

pub empty-IsSound : IsSound empty_store
unfolding lookup
empty-IsSound id row h = cc

later_approval :
    (id : String) (row : ChangeRow) (a : ApprovalRow) (bs : List ApprovalRow) (ts : List AttemptRow)
    → IsSoundRow id row bs ts
    → IsSoundRow id row (a ∷ bs) ts
later_approval id row a bs ts s = record {
  undispatched = s.undispatched;
  dry_run = s.dry_run;
  approved = λ k. ((s.approved k).0, inr (s.approved k).1);
}

later_attempt :
    (id : String) (row : ChangeRow) (t : AttemptRow) (bs : List ApprovalRow) (ts : List AttemptRow)
    → IsSoundRow id row bs ts
    → IsSoundRow id row bs (t ∷ ts)
later_attempt id row t bs ts s = record {
  undispatched = s.undispatched;
  dry_run = λ k. inr (s.dry_run k);
  approved = λ k. (inr (s.approved k).0, (s.approved k).1);
}

-- The row that is found after a request's row is put: the new one, or one of another request.
put_cases :
    (id j : String) (row found : ChangeRow) (st : ChangeStore)
    → find_change j (put_change id row st) ≡ some found
    → ((id ≡ j) × (row ≡ found)) ⊎ (find_change j st ≡ some found)
put_cases id j row found st h = ground (arith, lookup-insert text_discrete id j row st.changes)

-- A row is put: it is sound, and what holds of the other rows still does.
put-IsSound :
    (id : String) (row : ChangeRow) (st st' : ChangeStore)
    → st'.changes ≡ insert text_discrete id row st.changes
    → ((j : String) (r : ChangeRow)
        → IsSoundRow j r st.approvals st.attempts
        → IsSoundRow j r st'.approvals st'.attempts)
    → IsSoundRow id row st'.approvals st'.attempts
    → IsSound st
    → IsSound st'
put-IsSound id row st st' e grow new s j found h =
    elim (put_cases id j row found st (ground (arith, h, e))) [
      | inl (p, q) ↦
          subst (λ k. IsSoundRow k found st'.approvals st'.attempts) p
            (subst (λ r. IsSoundRow id r st'.approvals st'.attempts) q new)
      | inr k ↦ grow j found (s j found k)
    ]

-- A row in a state that neither awaits an approval nor has one.
plain_row :
    (id : String) (row : ChangeRow) (bs : List ApprovalRow) (ts : List AttemptRow)
    → is_undispatched row.state ≡ true
    → awaits_approval row.state ≡ false
    → row.state ≢ ChangeState.approved
    → IsSoundRow id row bs ts
plain_row id row bs ts u a n = record {
  undispatched = u;
  dry_run = λ k. cc;
  approved = λ k. absurd (n k);
}

-- The row after a dry run, of which the newest attempt tells.
dry_run_row :
    (id now : String) (row : ChangeRow) (allowed : Bool) (attempt_id : String)
    (bs : List ApprovalRow) (ts : List AttemptRow)
    → IsSoundRow id
        (with_state row (dry_run_target allowed) now)
        bs
        (attempt_row id allowed attempt_id now ∷ ts)
dry_run_row id now row true attempt_id bs ts = record {
  undispatched = refl;
  dry_run = λ k. inl (refl, refl);
  approved = λ k. cc;
}
dry_run_row id now row false attempt_id bs ts = plain_row id _ bs _ refl refl (λ k. cc)

-- Every move keeps every row sound.
pub Move-IsSound : (st st' : ChangeStore) → Move st st' → IsSound st → IsSound st'
Move-IsSound _ _ (creates st id row entry free d) s =
    put-IsSound id row st (with_audit entry (put_change id row st)) refl (λ j r k. k)
      (plain_row id row _ _ (ground (arith, d)) (ground (arith, d)) (ground (arith, d))) s
Move-IsSound _ _ (expires st id now row entry f d) s =
    let row' = with_state row ChangeState.expired now in
    put-IsSound id row' st (with_audit entry (put_change id row' st)) refl (λ j r k. k)
      (plain_row id row' _ _ refl refl (λ k. cc)) s
Move-IsSound _ _ (dry_runs st id now row entry allowed attempt_id f d) s =
    let row' = with_state row (dry_run_target allowed) now in
    let attempt = attempt_row id allowed attempt_id now in
    put-IsSound id row' st (with_audit entry (put_change id row' (put_attempt attempt st))) refl
      (λ j r k. later_attempt j r attempt st.approvals st.attempts k)
      (dry_run_row id now row allowed attempt_id st.approvals st.attempts) s
Move-IsSound _ _ (approves st id now row entry a f d n o) s =
    let row' = with_state row ChangeState.approved now in
    let approval = decision_row id a Decision.approve_decision now in
    put-IsSound id row' st (with_audit entry (put_change id row' (put_approval approval st))) refl
      (λ j r k. later_approval j r approval st.approvals st.attempts k)
      (record {
        undispatched = refl;
        dry_run = λ k. cc;
        approved = λ k. ((s id row f).dry_run d, inl (refl, refl, n, o));
      })
      s
Move-IsSound _ _ (rejects st id now row entry a f d n o) s =
    let row' = with_state row ChangeState.rejected now in
    let approval = decision_row id a Decision.reject_decision now in
    put-IsSound id row' st (with_audit entry (put_change id row' (put_approval approval st))) refl
      (λ j r k. later_approval j r approval st.approvals st.attempts k)
      (plain_row id row' _ _ refl refl (λ k. cc)) s
Move-IsSound _ _ (cancels st id now row entry f d) s =
    let row' = with_state row ChangeState.cancelled now in
    put-IsSound id row' st (with_audit entry (put_change id row' st)) refl (λ j r k. k)
      (plain_row id row' _ _ refl refl (λ k. cc)) s
