-- ===== src/Cli/Change/Operations.antt =====
-- The commands of controlled_writes.rs on the store. A command's transaction is committed when it
-- succeeds and rolled back when it fails; the expiry is a transaction of its own before it, which is
-- committed also when the command then fails.
use ocserv_fleet_agent.Common.Int.{ltb_ℤ}
use ocserv_fleet_agent.Cli.Change.Table.{
  transition, get_change_tx, insert_record_audit, insert_change, insert_transition_audit,
  TransitionAudit,
}
use ocserv_fleet_agent.Cli.Input.{StoreError}
use ocserv_fleet_agent.Cli.Change.Validate.{
  Libraries, invalid, validate_id, validate_create, parse_time, operation_digest, decode_signature,
  resolve,
}
use ocserv_fleet_agent.Cli.Change.State.{ChangeState}
use ocserv_fleet_agent.Cli.Change.Records.{
  ChangeStore, ChangeRequestRecord, CreateChangeRequest, TrustedIntentKey, ChangeRow,
  operation_kind_text,
}
use ocserv_fleet_agent.Common.{
  String, Bool, Result, true, List, ok, false, err, ◌>>=◌, ◌>>◌, ok_or, if◌then◌else◌, reject, not,
  some, decided, none, text_discrete,
}

abbrev pub Outcome : Type 0
Outcome = Result StoreError ChangeRequestRecord × ChangeStore

-- The transaction: its store when it commits, the store before it when it does not.
abbrev pub committed :
    {A : Type 0}
    → ChangeStore
    → Result StoreError (A × ChangeStore)
    → Result StoreError A × ChangeStore
committed st (ok (a, st')) = (ok a, st')
committed st (err e) = (err e, st)

abbrev pub is_finished : ChangeState → Bool
is_finished ChangeState.succeeded = true
is_finished ChangeState.failed = true
is_finished ChangeState.rejected = true
is_finished ChangeState.cancelled = true
is_finished ChangeState.expired = true
is_finished ChangeState.rolled_back = true
is_finished _ = false

abbrev pub may_dry_run : ChangeState → Bool
may_dry_run ChangeState.draft = true
may_dry_run ChangeState.dry_run_failed = true
may_dry_run _ = false

abbrev pub awaits_approval : ChangeState → Bool
awaits_approval ChangeState.dry_run_succeeded = true
awaits_approval ChangeState.approval_pending = true
awaits_approval _ = false

abbrev pub may_cancel : ChangeState → Bool
may_cancel ChangeState.draft = true
may_cancel ChangeState.dry_run_pending = true
may_cancel ChangeState.dry_run_succeeded = true
may_cancel ChangeState.dry_run_failed = true
may_cancel ChangeState.approval_pending = true
may_cancel ChangeState.approved = true
may_cancel _ = false

-- The last read of a command's transaction.
unfoldable pub reread :
    String → String → ChangeStore → Result StoreError (ChangeRequestRecord × ChangeStore)
reread request_id message st = do
  r ← ok_or (get_change_tx request_id st) (invalid message)
  ok (r, st)

-- The end of a command: the transition, its audit row and the last read.
unfoldable pub finish :
    String
    → ChangeRequestRecord
    → ChangeState
    → TransitionAudit
    → ChangeStore
    → Result StoreError (ChangeRequestRecord × ChangeStore)
finish request_id current from audit st = do
  st1 ← transition request_id from audit.state_to audit.now st
  reread request_id "change request is missing" (insert_record_audit current audit st1)

module _ (lib : Libraries) where
  -- The expiry of a request whose time has come, in a store: the answer of the function that calls it
  -- is always the error.
  unfoldable pub expire_change :
      String
      → ChangeRequestRecord
      → String
      → ChangeStore
      → Result StoreError (Unit {0} × ChangeStore)
  expire_change request_id current now st = do
    st1 ← transition request_id current.state ChangeState.expired now st
    ok (
      tt,
      insert_record_audit current
          (record {
            state_from = some current.state;
            state_to = ChangeState.expired;
            actor = "system:expiry";
            approval_id = none;
            is_ok = true;
            error = none;
            now = now;
          })
          st1,
    )

  -- `Err("change request has expired")` after a commit.
  abbrev pub then_expired :
      Result StoreError (Unit {0}) × ChangeStore → Result StoreError (Unit {0}) × ChangeStore
  then_expired (ok _, st) = (err (invalid "change request has expired"), st)
  then_expired (err e, st) = (err e, st)

  -- The request and the two instants that its expiry is decided on.
  unfoldable pub read_expiry :
      String → String → ChangeStore → Result StoreError (ChangeRequestRecord × Bool)
  read_expiry request_id now st = do
    validate_id request_id "request_id is invalid"
    now_time ← parse_time lib now "now must be RFC3339"
    current ← ok_or (get_change_tx request_id st) (invalid "change request not found")
    expires ← parse_time lib current.expires_at "stored expires_at must be RFC3339"
    ok (current, ltb_ℤ now_time expires)

  unfoldable pub persist_expiry_if_needed :
      String → String → ChangeStore → Result StoreError (Unit {0}) × ChangeStore
  persist_expiry_if_needed request_id now st = elim (read_expiry request_id now st) [
    | err e ↦ (err e, st)
    | ok (current, true) ↦ (ok tt, st)
    | ok (current, false) ↦
        if is_finished current.state
        then (err (invalid "change request has expired"), st)
        else then_expired (committed st (expire_change request_id current now st))
  ]

  unfoldable pub require_active_change :
      String → String → ChangeStore → Result StoreError ChangeRequestRecord
  require_active_change request_id now st = do
    (current, is_active) ← read_expiry request_id now st
    reject (not is_active) (invalid "change request has expired")
    ok current

  -- The command's own transaction, when the expiry lets it through.
  unfoldable pub unless_expired :
      (ChangeStore → Result StoreError (ChangeRequestRecord × ChangeStore))
      → Result StoreError (Unit {0}) × ChangeStore
      → Outcome
  unless_expired body (ok _, st) = committed st (body st)
  unless_expired body (err e, st) = (err e, st)

  -- The validation, the expiry, then the command's own transaction.
  unfoldable pub in_transaction :
      Result StoreError (Unit {0})
      → String
      → String
      → (ChangeStore → Result StoreError (ChangeRequestRecord × ChangeStore))
      → ChangeStore
      → Outcome
  in_transaction (err e) request_id now body st = (err e, st)
  in_transaction (ok _) request_id now body st =
      unless_expired body (persist_expiry_if_needed request_id now st)

  -- `create_change_request`, with its row.
  unfoldable pub new_row : CreateChangeRequest → TrustedIntentKey → String → ChangeRow
  new_row input key now = record {
    operation_id = input.operation_id;
    operation_kind = operation_kind_text input.operation_kind;
    endpoint_id = input.endpoint_id;
    actor = input.actor;
    reason = input.reason;
    change_ticket = input.change_ticket;
    operation_digest = operation_digest lib input;
    nonce = input.nonce;
    signer_key_id = input.signed_intent.key_id;
    signed_intent = input.signed_intent;
    public_key_fingerprint = key.public_key_fingerprint;
    params_summary = input.params_summary;
    state = ChangeState.draft;
    expires_at = input.expires_at;
    created_at = now;
    updated_at = now;
  }

  unfoldable pub check_intent :
      List (String × TrustedIntentKey) → CreateChangeRequest → Result StoreError TrustedIntentKey
  check_intent keyring input = do
    reject
        (not
          (decided (text_discrete (operation_digest lib input) input.signed_intent.payload_sha256)))
        (invalid "signed intent digest does not match the operation")
    signature ← decode_signature lib input.signed_intent.signature
    key ← resolve keyring input.signed_intent.key_id input.actor
    reject (not (lib.verify_ed25519 key.public_key (operation_digest lib input) signature))
        (invalid "signed intent signature is invalid")
    ok key

  unfoldable pub create_tx :
      CreateChangeRequest
      → List (String × TrustedIntentKey)
      → String
      → ChangeStore
      → Result StoreError (ChangeRequestRecord × ChangeStore)
  create_tx input keyring now st = do
    validate_create lib input now
    key ← check_intent keyring input
    st1 ← insert_change input.request_id (new_row input key now) st
    reread input.request_id "created change request is missing" (
        insert_transition_audit input
          (record {
            state_from = none;
            state_to = ChangeState.draft;
            actor = input.actor;
            approval_id = none;
            is_ok = true;
            error = none;
            now = now;
          })
          st1)

  unfoldable pub create_change_request :
      CreateChangeRequest → List (String × TrustedIntentKey) → String → ChangeStore → Outcome
  create_change_request input keyring now st = committed st (create_tx input keyring now st)
