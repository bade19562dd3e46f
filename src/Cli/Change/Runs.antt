-- ===== src/Cli/Change/Runs.antt =====
-- Any sequence of commands on the store of controlled_writes.rs, and what it cannot do.
use ocserv_fleet_agent.Common.Assoc.{lookup-insert}
use ocserv_fleet_agent.Cli.Change.Commands.{
  record_change_dry_run, approve_change, reject_change, cancel_change, dry_run_target,
}
use ocserv_fleet_agent.Cli.Change.Table.{find_change, with_state}
use ocserv_fleet_agent.Cli.Change.Machine.{
  IsSound, Move, IsDryRun, is_undispatched, IsApprovedByOther, empty-IsSound,
}
use ocserv_fleet_agent.Cli.Change.Refines.{
  Moves, create-Moves, Moves-IsSound, dry_run-Moves, approve-Moves, reject-Moves, cancel-Moves,
}
use ocserv_fleet_agent.Cli.Change.Operations.{
  may_dry_run, awaits_approval, may_cancel, is_finished, create_change_request,
}
use ocserv_fleet_agent.Cli.Change.Validate.{Libraries}
use ocserv_fleet_agent.Cli.Change.State.{ChangeState}
use ocserv_fleet_agent.Cli.Change.Records.{
  CreateChangeRequest, ApprovalDecision, TrustedIntentKey, ChangeStore, ChangeRow, empty_store,
}
use ocserv_fleet_agent.Common.{
  String, Bool, List, ◌≡◌, true, ◌∷◌, false, some, [], arith, text_discrete,
}

-- A command with its arguments; the last one is the time that it is given at.
pub data Command : Type 0 where
  create : CreateChangeRequest → String → Command
  dry_run : String → String → Bool → Bool → String → String → Command
  approve : String → ApprovalDecision → String → Command
  decline : String → ApprovalDecision → String → Command
  cancel : String → String → String → Command

-- A command that takes a request further takes it from a state that is not finished.
may_dry_run_finished : (s : ChangeState) → may_dry_run s ≡ true → is_finished s ≡ false
may_dry_run_finished s h = ground arith

awaits_finished : (s : ChangeState) → awaits_approval s ≡ true → is_finished s ≡ false
awaits_finished s h = ground arith

may_cancel_finished : (s : ChangeState) → may_cancel s ≡ true → is_finished s ≡ false
may_cancel_finished s h = ground arith

module _ (lib : Libraries) (keyring : List (String × TrustedIntentKey)) where
  unfoldable pub execute : Command → ChangeStore → ChangeStore
  execute (Command.create input now) st = (create_change_request lib input keyring now st).1
  execute (Command.dry_run id actor feature policy attempt_id now) st =
      (record_change_dry_run lib id actor feature policy attempt_id now st).1
  execute (Command.approve id a now) st = (approve_change lib id a now st).1
  execute (Command.decline id a now) st = (reject_change lib id a now st).1
  execute (Command.cancel id actor now) st = (cancel_change lib id actor now st).1

  unfoldable pub run_commands : List Command → ChangeStore → ChangeStore
  run_commands [] st = st
  run_commands (c ∷ cs) st = run_commands cs (execute c st)

  -- Whatever a command answers, the store after it is reached by moves of the state machine.
  pub execute-Moves : (c : Command) (st : ChangeStore) → Moves st (execute c st)
  unfolding execute
  execute-Moves (Command.create input now) st = create-Moves lib input keyring now st
  execute-Moves (Command.dry_run id actor feature policy attempt_id now) st =
      dry_run-Moves lib id actor feature policy attempt_id now st
  execute-Moves (Command.approve id a now) st = approve-Moves lib id a now st
  execute-Moves (Command.decline id a now) st = reject-Moves lib id a now st
  execute-Moves (Command.cancel id actor now) st = cancel-Moves lib id actor now st

  run-IsSound : (cs : List Command) (st : ChangeStore) → IsSound st → IsSound (run_commands cs st)
  unfolding run_commands
  run-IsSound [] st s = s
  run-IsSound (c ∷ cs) st s =
      run-IsSound cs (execute c st) (Moves-IsSound st (execute c st) (execute-Moves c st) s)

  -- After any sequence of commands on an empty store, a request that is approved has had a dry run
  -- that succeeded, and has an approval by another principal than its requester, in the role of a
  -- change approver or a security administrator.
  pub approved_by_other :
      (cs : List Command) (id : String) (row : ChangeRow)
      → find_change id (run_commands cs empty_store) ≡ some row
      → row.state ≡ ChangeState.approved
      → IsDryRun id (run_commands cs empty_store).attempts
        × IsApprovedByOther id row (run_commands cs empty_store).approvals
  approved_by_other cs id row found h =
      (run-IsSound cs empty_store empty-IsSound id row found).approved h

  -- After any sequence of commands on an empty store, every request is a draft, or its dry run has
  -- succeeded or failed, or it is approved, rejected, cancelled or expired: none is dispatched.
  pub never_dispatched :
      (cs : List Command) (id : String) (row : ChangeRow)
      → find_change id (run_commands cs empty_store) ≡ some row
      → is_undispatched row.state ≡ true
  never_dispatched cs id row found =
      (run-IsSound cs empty_store empty-IsSound id row found).undispatched

  Move-finished :
      (a b : ChangeStore) (id : String) (row : ChangeRow)
      → Move a b
      → find_change id a ≡ some row
      → is_finished row.state ≡ true
      → find_change id b ≡ some row
  Move-finished _ _ id row (Move.creates st j new entry free d) found f =
      ground (arith, found, free, lookup-insert text_discrete j id new st.changes)
  Move-finished _ _ id row (Move.expires st j now old entry g d) found f = ground (
    arith,
    found,
    g,
    d,
    f,
    lookup-insert text_discrete j id (with_state old ChangeState.expired now) st.changes,
  )
  Move-finished _ _ id row (Move.dry_runs st j now old entry allowed attempt_id g d) found f =
      ground (
        arith,
        found,
        g,
        may_dry_run_finished old.state d,
        f,
        lookup-insert text_discrete j id (with_state old (dry_run_target allowed) now) st.changes,
      )
  Move-finished _ _ id row (Move.approves st j now old entry a g d n o) found f = ground (
    arith,
    found,
    g,
    awaits_finished old.state d,
    f,
    lookup-insert text_discrete j id (with_state old ChangeState.approved now) st.changes,
  )
  Move-finished _ _ id row (Move.rejects st j now old entry a g d n o) found f = ground (
    arith,
    found,
    g,
    awaits_finished old.state d,
    f,
    lookup-insert text_discrete j id (with_state old ChangeState.rejected now) st.changes,
  )
  Move-finished _ _ id row (Move.cancels st j now old entry g d) found f = ground (
    arith,
    found,
    g,
    may_cancel_finished old.state d,
    f,
    lookup-insert text_discrete j id (with_state old ChangeState.cancelled now) st.changes,
  )

  Moves-finished :
      (a b : ChangeStore) (id : String) (row : ChangeRow)
      → Moves a b
      → find_change id a ≡ some row
      → is_finished row.state ≡ true
      → find_change id b ≡ some row
  Moves-finished _ _ id row (Moves.stays st) found f = found
  Moves-finished _ _ id row (Moves.moves a b c m r) found f =
      Moves-finished b c id row r (Move-finished a b id row m found f) f

  -- A request that is rejected, cancelled, expired, succeeded, failed or rolled back is left as it
  -- is by every sequence of commands, from any store.
  pub finished_stays :
      (cs : List Command) (st : ChangeStore) (id : String) (row : ChangeRow)
      → find_change id st ≡ some row
      → is_finished row.state ≡ true
      → find_change id (run_commands cs st) ≡ some row
  unfolding run_commands
  finished_stays [] st id row found f = found
  finished_stays (c ∷ cs) st id row found f =
      finished_stays cs (execute c st) id row
        (Moves-finished st (execute c st) id row (execute-Moves c st) found f) f
