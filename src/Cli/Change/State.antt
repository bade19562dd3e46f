-- ===== src/Cli/Change/State.antt =====
-- `ChangeState` of controlled_writes.rs, and its text in the store.
use ocserv_fleet_agent.Cli.Input.{StoreError}
use ocserv_fleet_agent.Common.Assoc.{lookup}
use ocserv_fleet_agent.Common.Options.{some_inj}
use ocserv_fleet_agent.Common.{
  String, List, ◌≡◌, ◌∷◌, Result, ok, [], ◌↔◌, ok_or, text_discrete, some, arith, refl, Option, ap,
  ◌∙◌, none, sym,
}

pub data ChangeState : Type 0 where
  draft dry_run_pending dry_run_succeeded dry_run_failed approval_pending approved rejected :
      ChangeState
  dispatching succeeded failed rollback_pending rolled_back cancelled expired : ChangeState

unfoldable pub as_str : ChangeState → String
as_str ChangeState.draft = "draft"
as_str ChangeState.dry_run_pending = "dry_run_pending"
as_str ChangeState.dry_run_succeeded = "dry_run_succeeded"
as_str ChangeState.dry_run_failed = "dry_run_failed"
as_str ChangeState.approval_pending = "approval_pending"
as_str ChangeState.approved = "approved"
as_str ChangeState.rejected = "rejected"
as_str ChangeState.dispatching = "dispatching"
as_str ChangeState.succeeded = "succeeded"
as_str ChangeState.failed = "failed"
as_str ChangeState.rollback_pending = "rollback_pending"
as_str ChangeState.rolled_back = "rolled_back"
as_str ChangeState.cancelled = "cancelled"
as_str ChangeState.expired = "expired"

-- The arms of the match on the text, in order.
unfoldable pub arms : List (String × ChangeState)
arms =
    ("draft", ChangeState.draft)
    ∷ ("dry_run_pending", ChangeState.dry_run_pending)
    ∷ ("dry_run_succeeded", ChangeState.dry_run_succeeded)
    ∷ ("dry_run_failed", ChangeState.dry_run_failed)
    ∷ ("approval_pending", ChangeState.approval_pending)
    ∷ ("approved", ChangeState.approved)
    ∷ ("rejected", ChangeState.rejected)
    ∷ ("dispatching", ChangeState.dispatching)
    ∷ ("succeeded", ChangeState.succeeded)
    ∷ ("failed", ChangeState.failed)
    ∷ ("rollback_pending", ChangeState.rollback_pending)
    ∷ ("rolled_back", ChangeState.rolled_back)
    ∷ ("cancelled", ChangeState.cancelled)
    ∷ ("expired", ChangeState.expired)
    ∷ []

unfoldable pub parse : String → Result StoreError ChangeState
unfolding lookup arms
parse value =
    ok_or (lookup text_discrete value arms)
      (StoreError.invalid_input "stored change state is invalid")

ok_or-some :
    {A : Type 0} {E : Type 0} {a : A} (e : E) (o : Option A) → ok_or o e ≡ ok a → o ≡ some a
ok_or-some e none h = cc
ok_or-some e (some a) h = cc

arms-as_str : (s : ChangeState) → lookup text_discrete (as_str s) arms ≡ some s
unfolding as_str arms lookup text_discrete
arms-as_str ChangeState.draft = refl
arms-as_str ChangeState.dry_run_pending = refl
arms-as_str ChangeState.dry_run_succeeded = refl
arms-as_str ChangeState.dry_run_failed = refl
arms-as_str ChangeState.approval_pending = refl
arms-as_str ChangeState.approved = refl
arms-as_str ChangeState.rejected = refl
arms-as_str ChangeState.dispatching = refl
arms-as_str ChangeState.succeeded = refl
arms-as_str ChangeState.failed = refl
arms-as_str ChangeState.rollback_pending = refl
arms-as_str ChangeState.rolled_back = refl
arms-as_str ChangeState.cancelled = refl
arms-as_str ChangeState.expired = refl

lookup-arms :
    (value : String) (s : ChangeState) → lookup text_discrete value arms ≡ some s → value ≡ as_str s
unfolding as_str arms lookup
lookup-arms value s h = ground arith

-- The state that a stored text is read as is the state that was written, and a text is read as a
-- state only if it is that state's text.
pub parse_iff : (value : String) (s : ChangeState) → (parse value ≡ ok s) ↔ (value ≡ as_str s)
unfolding parse
parse_iff value s = (
  λ h. lookup-arms value s (ok_or-some _ (lookup text_discrete value arms) h),
  λ e.
      ap (λ o. ok_or o (StoreError.invalid_input "stored change state is invalid"))
        (ap (λ v. lookup text_discrete v arms) e ∙ arms-as_str s),
)

-- No two states have the same text.
pub as_str_inj : (s t : ChangeState) → as_str s ≡ as_str t → s ≡ t
as_str_inj s t e =
    some_inj (sym (arms-as_str s) ∙ ap (λ v. lookup text_discrete v arms) e ∙ arms-as_str t)
