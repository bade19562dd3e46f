-- ===== src/Cli/Change/Refines.antt =====
-- The commands of controlled_writes.rs are moves of the state machine: each one leaves the store as it
-- is, expires the request, or makes its move, after an expiry that changed nothing.
use ocserv_fleet_agent.Cli.Change.Commands.{
  record_change_dry_run, approve_change, reject_change, cancel_change,
}
use ocserv_fleet_agent.Cli.Change.Steps.{read_expiry_row, reread_ok}
use ocserv_fleet_agent.Cli.Change.Effects.{
  dry_run_effect, approve_effect, reject_effect, cancel_effect,
}
use ocserv_fleet_agent.Cli.Input.{StoreError}
use ocserv_fleet_agent.Cli.Change.Table.{
  transition, find_change, with_audit, put_change, change_from_row, audit_row, insert_change,
}
use ocserv_fleet_agent.Cli.Change.Operations.{
  expire_change, persist_expiry_if_needed, is_finished, then_expired, read_expiry, committed,
  unless_expired, in_transaction, create_change_request, create_tx, new_row, check_intent,
}
use ocserv_fleet_agent.Cli.Change.Machine.{Move, IsSound, Move-IsSound, IsApproverRole}
use ocserv_fleet_agent.Cli.Change.Validate.{Libraries, validate_approval, validate_create}
use ocserv_fleet_agent.Cli.Change.Records.{
  ChangeStore, ApprovalDecision, ChangeRequestRecord, ChangeRow, CreateChangeRequest,
  TrustedIntentKey, operation_kind_text,
}
use ocserv_fleet_agent.Cli.Change.State.{ChangeState}
use ocserv_fleet_agent.Common.{
  refl, inr, inl, String, Bool, ◌≡◌, ok, ◌⊎◌, some, Result, Result-cases, false, err, subst, inl,
  arith, inr, none, true, Bool-cases, sym, ◌&&◌, List, >>=-eq-ok, ◌∙◌, ap,
}

-- A run of the machine: no move, or some.
pub data Moves : ChangeStore → ChangeStore → Type 0 where
  stays : (st : ChangeStore) → Moves st st
  moves : (a b c : ChangeStore) → Move a b → Moves b c → Moves a c

pub Moves-IsSound : (a b : ChangeStore) → Moves a b → IsSound a → IsSound b
Moves-IsSound _ _ (stays st) s = s
Moves-IsSound _ _ (moves a b c m r) s = Moves-IsSound b c r (Move-IsSound a b m s)

module _ (lib : Libraries) where
  expire_moves :
      (id now : String) (st st' : ChangeStore) (row : ChangeRow)
      → find_change id st ≡ some row
      → is_finished row.state ≡ false
      → expire_change lib id (change_from_row id row) now st ≡ ok (tt, st')
      → Move st st'
  unfolding expire_change transition change_from_row
  expire_moves id now st st' row found f h = subst (Move st) (ground (arith, h, found)) (
      Move.expires st id now row
        (audit_row id row.operation_id row.operation_kind (record {
          state_from = some row.state;
          state_to = ChangeState.expired;
          actor = "system:expiry";
          approval_id = none;
          is_ok = true;
          error = none;
          now = now;
        }))
        found f)

  -- The expiry changes nothing when it lets a command pass, and is a move or nothing when it does not.
  abbrev ExpiryMoves : ChangeStore → Result StoreError (Unit {0}) × ChangeStore → Type 0
  ExpiryMoves st (ok _, st') = st' ≡ st
  ExpiryMoves st (err e, st') = Move st st' ⊎ (st' ≡ st)

  committed_expiry :
      (st : ChangeStore) (r : Result StoreError (Unit {0} × ChangeStore))
      → ((st' : ChangeStore) → r ≡ ok (tt, st') → Move st st')
      → ExpiryMoves st (then_expired lib (committed st r))
  committed_expiry st (err e) f = inr refl
  committed_expiry st (ok (_, st')) f = inl (f st' refl)

  expiry_moves :
      (id now : String) (st : ChangeStore) → ExpiryMoves st (persist_expiry_if_needed lib id now st)
  unfolding persist_expiry_if_needed change_from_row
  expiry_moves id now st = elim (Result-cases (read_expiry lib id now st)) [
    | inl (e, h) ↦ rw (h, persist_expiry_if_needed) (inr refl)
    | inr ((current, true), h) ↦ rw (h, persist_expiry_if_needed) refl
    | inr ((current, false), h) ↦
        rw (h, persist_expiry_if_needed)
          (let (row, found, hr, t, e, ht, he, hb) = read_expiry_row lib id now st current false h in
            elim (Bool-cases (is_finished row.state)) [
              | inl p ↦ rw (hr, p) (inr refl)
              | inr q ↦
                  rw (hr, q)
                    (committed_expiry st _ λ st' g. expire_moves id now st st' row found q g)
            ])
  ]

  approver_role :
      (a : ApprovalDecision) (now : String)
      → validate_approval lib a now ≡ ok tt
      → IsApproverRole a.role
  unfolding validate_approval
  approver_role a now h = ground arith

  one-Move : (a b : ChangeStore) → Move a b → Moves a b
  one-Move a b m = Moves.moves a b b m (Moves.stays b)

  same_store : (a b : ChangeStore) → b ≡ a → Moves a b
  same_store a b e = subst (Moves a) (sym e) (Moves.stays a)

  committed-Moves :
      (st : ChangeStore) (r : Result StoreError (ChangeRequestRecord × ChangeStore))
      → ((c : ChangeRequestRecord) (st' : ChangeStore) → r ≡ ok (c, st') → Move st st')
      → Moves st (committed st r).1
  committed-Moves st (err e) f = Moves.stays st
  committed-Moves st (ok (c, st')) f = one-Move st st' (f c st' refl)

  unless_expired-Moves :
      (body : ChangeStore → Result StoreError (ChangeRequestRecord × ChangeStore))
      (st : ChangeStore) (p : Result StoreError (Unit {0}) × ChangeStore)
      → ExpiryMoves st p
      → ((c : ChangeRequestRecord) (st' : ChangeStore) → body st ≡ ok (c, st') → Move st st')
      → Moves st (unless_expired lib body p).1
  unfolding unless_expired
  unless_expired-Moves body st (ok _, st1) e f =
      subst (λ s. Moves st (committed s (body s)).1) (sym e) (committed-Moves st (body st) f)
  unless_expired-Moves body st (err _, st1) (inl m) f = one-Move st st1 m
  unless_expired-Moves body st (err _, st1) (inr e) f = same_store st st1 e

  in_transaction-Moves :
      (v : Result StoreError (Unit {0})) (id now : String)
      (body : ChangeStore → Result StoreError (ChangeRequestRecord × ChangeStore))
      (st : ChangeStore)
      → ((c : ChangeRequestRecord) (st' : ChangeStore)
          → v ≡ ok tt
          → body st ≡ ok (c, st')
          → Move st st')
      → Moves st (in_transaction lib v id now body st).1
  unfolding in_transaction
  in_transaction-Moves (err e) id now body st f = Moves.stays st
  in_transaction-Moves (ok _) id now body st f =
      unless_expired-Moves body st _ (expiry_moves id now st) (λ c st' h. f c st' refl h)

  inserted :
      (id : String) (row : ChangeRow) (st st' : ChangeStore)
      → insert_change id row st ≡ ok st'
      → (find_change id st ≡ none) × (st' ≡ put_change id row st)
  unfolding insert_change
  inserted id row st st' h = ground arith

  create-Move :
      (input : CreateChangeRequest) (keyring : List (String × TrustedIntentKey)) (now : String)
      (st st' : ChangeStore) (c : ChangeRequestRecord)
      → create_tx lib input keyring now st ≡ ok (c, st')
      → Move st st'
  unfolding create_tx new_row
  create-Move input keyring now st st' c h =
      let (_, _, h1) = >>=-eq-ok (validate_create lib input now) _ h in
      let (key, hk, h2) = >>=-eq-ok (check_intent lib keyring input) _ h1 in
      let (st1, hi, h3) =
        >>=-eq-ok (insert_change input.request_id (new_row lib input key now) st) _ h2 in
      let (free, hs) = inserted input.request_id (new_row lib input key now) st st1 hi in
      let he = reread_ok lib input.request_id "created change request is missing" _ st' c h3 in
      subst (Move st)
        (sym (
          he
          ∙ ap
              (λ s.
                with_audit
                  (audit_row input.request_id input.operation_id
                    (operation_kind_text input.operation_kind)
                    (record {
                      state_from = none;
                      state_to = ChangeState.draft;
                      actor = input.actor;
                      approval_id = none;
                      is_ok = true;
                      error = none;
                      now = now;
                    }))
                  s)
              hs))
        (Move.creates st input.request_id (new_row lib input key now) _ free refl)

  pub create-Moves :
      (input : CreateChangeRequest) (keyring : List (String × TrustedIntentKey)) (now : String)
      (st : ChangeStore)
      → Moves st (create_change_request lib input keyring now st).1
  unfolding create_change_request
  create-Moves input keyring now st =
      committed-Moves st _ λ c st' h. create-Move input keyring now st st' c h

  pub dry_run-Moves :
      (id actor : String) (feature policy : Bool) (attempt_id now : String) (st : ChangeStore)
      → Moves st (record_change_dry_run lib id actor feature policy attempt_id now st).1
  unfolding record_change_dry_run
  dry_run-Moves id actor feature policy attempt_id now st =
      in_transaction-Moves _ id now _ st λ c st' _ h.
        let (row, active, e, d, hs) =
          dry_run_effect lib id actor (feature && policy) attempt_id now st st' c h in
        subst (Move st) (sym hs)
          (Move.dry_runs st id now row _ (feature && policy) attempt_id active.found d)

  pub approve-Moves :
      (id : String) (a : ApprovalDecision) (now : String) (st : ChangeStore)
      → Moves st (approve_change lib id a now st).1
  unfolding approve_change
  approve-Moves id a now st = in_transaction-Moves _ id now _ st λ c st' v h.
      let (row, active, n, d, hs) = approve_effect lib id a now st st' c h in
      subst (Move st) (sym hs)
        (Move.approves st id now row _ a active.found d n (approver_role a now v))

  pub reject-Moves :
      (id : String) (a : ApprovalDecision) (now : String) (st : ChangeStore)
      → Moves st (reject_change lib id a now st).1
  unfolding reject_change
  reject-Moves id a now st = in_transaction-Moves _ id now _ st λ c st' v h.
      let (row, active, n, d, hs) = reject_effect lib id a now st st' c h in
      subst (Move st) (sym hs)
        (Move.rejects st id now row _ a active.found d n (approver_role a now v))

  pub cancel-Moves :
      (id actor now : String) (st : ChangeStore) → Moves st (cancel_change lib id actor now st).1
  unfolding cancel_change
  cancel-Moves id actor now st = in_transaction-Moves _ id now _ st λ c st' _ h.
      let (row, active, e, d, hs) = cancel_effect lib id actor now st st' c h in
      subst (Move st) (sym hs) (Move.cancels st id now row _ active.found d)
