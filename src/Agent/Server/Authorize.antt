-- ===== src/Agent/Server/Authorize.antt =====
-- Which methods a caller may call: `authorize_request_method` and what it calls.
use ocserv_fleet_agent.Cli.Change.Records.{ControlledWriteOperationKind}
use ocserv_fleet_agent.Protocol.Method.{
  classify_phase_one_method, MethodStatus, probe_peer_echo, probe_path_echo, one_of, one_of-all,
  classify_outside, classify_refused, refused_methods, phase_one_methods,
}
use ocserv_fleet_agent.Protocol.Error.{
  ErrorCode, endpoint_not_allowed, method_not_allowed, method_not_found,
}
use ocserv_fleet_agent.Agent.Authz.{
  CallerClass, controller, peer, disabled_peer, unknown, method_allowed,
}
use ocserv_fleet_agent.Agent.Server.Refusal.{Dispatch, refusal}
use text.Mathlib.Text.{starts_with}
use ocserv_fleet_agent.Common.{
  refl, not, String, err, text_discrete, ◌≡◌, if◌then◌else◌, true, ok, decided, ◌↔◌, Bool, false,
  arith, ◌≢◌, ◌⊎◌, inl, ap, ◌∙◌, inr,
}

unfoldable pub authorize_controller_method : String → String → Dispatch (Unit {0})
authorize_controller_method method request_id = elim (classify_phase_one_method method) [
  | MethodStatus.known_but_not_allowed ↦ err (refusal request_id method_not_allowed)
  | MethodStatus.unknown ↦ err (
      refusal request_id
        (if starts_with method "ocserv." then method_not_allowed else method_not_found))
  | MethodStatus.allowed ↦ ok tt
]

unfoldable pub authorize_peer_method : String → String → Dispatch (Unit {0})
authorize_peer_method method request_id = elim (classify_phase_one_method method) [
  | MethodStatus.unknown ↦
      if decided (text_discrete method probe_path_echo)
      then err (refusal request_id method_not_allowed)
      else if starts_with method "ocserv."
      then err (refusal request_id method_not_allowed)
      else err (refusal request_id method_not_found)
  | _ ↦ err (refusal request_id method_not_allowed)
]

unfoldable pub authorize_request_method : CallerClass → String → String → Dispatch (Unit {0})
authorize_request_method controller method request_id =
    if method_allowed controller method
    then ok tt
    else if decided (text_discrete method probe_peer_echo)
    then err (refusal request_id method_not_allowed)
    else authorize_controller_method method request_id
authorize_request_method peer method request_id =
    if method_allowed peer method then ok tt else authorize_peer_method method request_id
authorize_request_method _ method request_id = err (refusal request_id endpoint_not_allowed)

-- The first classification allows a controller nothing that the allowlist does not.
phase_one-method_allowed :
    (m : String) → one_of phase_one_methods m ≡ true → method_allowed controller m ≡ true
unfolding method_allowed one_of text_discrete
phase_one-method_allowed m h = one_of-all (method_allowed controller) phase_one_methods m h refl

not-true : {b : Bool} → not b ≡ true → b ≡ false
not-true {b} h = ground arith

none_allowed : {A : Type 0} (m : String) → false ≡ true → A
none_allowed m h = cc

controller_refused :
    (m r : String) → one_of phase_one_methods m ≡ false → authorize_controller_method m r ≢ ok tt
unfolding authorize_controller_method
controller_refused m r h = ground (arith, classify_outside m h)

controller_known :
    (m r : String)
    → one_of phase_one_methods m ≡ false
    → one_of refused_methods m ≡ true
    → authorize_controller_method m r ≡ err (refusal r method_not_allowed)
unfolding authorize_controller_method
controller_known m r h k = ground (arith, classify_refused m h k)

peer_refused : (m r : String) → authorize_peer_method m r ≢ ok tt
unfolding authorize_peer_method
peer_refused m r = ground arith

peer_known :
    (m r : String)
    → one_of phase_one_methods m ≡ false
    → one_of refused_methods m ≡ true
    → authorize_peer_method m r ≡ err (refusal r method_not_allowed)
unfolding authorize_peer_method
peer_known m r h k = ground (arith, classify_refused m h k)

controller_iff :
    (m r : String)
    → (authorize_request_method controller m r ≡ ok tt) ↔ (method_allowed controller m ≡ true)
unfolding authorize_request_method
controller_iff m r = ground (arith, phase_one-method_allowed m, controller_refused m r)

peer_iff :
    (m r : String) → (authorize_request_method peer m r ≡ ok tt) ↔ (method_allowed peer m ≡ true)
unfolding authorize_request_method
peer_iff m r = ground (arith, peer_refused m r)

-- A caller is authorized for a method exactly when the allowlist of its class has the method: the
-- classification that words the refusal never lets another method through.
pub authorize_iff :
    (c : CallerClass) (m r : String)
    → (authorize_request_method c m r ≡ ok tt) ↔ (method_allowed c m ≡ true)
unfolding authorize_request_method method_allowed
authorize_iff controller m r = controller_iff m r
authorize_iff peer m r = peer_iff m r
authorize_iff disabled_peer m r = (λ h. cc, λ h. none_allowed m h)
authorize_iff unknown m r = (λ h. cc, λ h. none_allowed m h)

-- What a caller of each class is told of a method that nobody may call.
abbrev pub refusal_code : CallerClass → ErrorCode
refusal_code controller = method_not_allowed
refusal_code peer = method_not_allowed
refusal_code _ = endpoint_not_allowed

outside_controller :
    (m : String)
    → one_of refused_methods m ≡ true
    → (method_allowed controller m ≡ false) × (one_of phase_one_methods m ≡ false)
unfolding method_allowed one_of text_discrete
outside_controller m h = (
  not-true (one_of-all (λ n. not (method_allowed controller n)) refused_methods m h refl),
  not-true (one_of-all (λ n. not (one_of phase_one_methods n)) refused_methods m h refl),
)

outside_peer : (m : String) → one_of refused_methods m ≡ true → method_allowed peer m ≡ false
unfolding method_allowed one_of text_discrete
outside_peer m h = not-true (one_of-all (λ n. not (method_allowed peer n)) refused_methods m h refl)

-- The methods that would change a gateway, by the kinds of change in
-- crates/ocfleet-protocol/src/controlled_write.rs, under the names of
-- docs/controlled-write-operations.md.
unfoldable pub write_method : ControlledWriteOperationKind → String
write_method ControlledWriteOperationKind.ocserv_reload = "ocserv.reload"
write_method ControlledWriteOperationKind.ocserv_restart = "ocserv.restart"
write_method ControlledWriteOperationKind.ocserv_config_apply = "ocserv.config.apply"
write_method ControlledWriteOperationKind.ocserv_config_rollback = "ocserv.config.rollback"
write_method ControlledWriteOperationKind.ocserv_session_disconnect = "ocserv.session.disconnect"

write_refused :
    (kind : ControlledWriteOperationKind) → one_of refused_methods (write_method kind) ≡ true
unfolding write_method one_of text_discrete
write_refused ControlledWriteOperationKind.ocserv_reload = refl
write_refused ControlledWriteOperationKind.ocserv_restart = refl
write_refused ControlledWriteOperationKind.ocserv_config_apply = refl
write_refused ControlledWriteOperationKind.ocserv_config_rollback = refl
write_refused ControlledWriteOperationKind.ocserv_session_disconnect = refl

listed_refused :
    (c : CallerClass) (m r : String)
    → one_of refused_methods m ≡ true
    → authorize_request_method c m r ≡ err (refusal r (refusal_code c))
unfolding authorize_request_method
listed_refused controller m r h =
    ground (arith, outside_controller m h, controller_known m r (outside_controller m h).1 h)
listed_refused peer m r h =
    ground (arith, outside_peer m h, peer_known m r (outside_controller m h).1 h)
listed_refused disabled_peer m r h = refl
listed_refused unknown m r h = refl

-- The method of each kind of change to a gateway (reload, restart, configuration apply and rollback,
-- session disconnect), and each other method of the list of known refused methods, is refused to every
-- class of caller: with `method_not_allowed` to controllers and enabled peers, and with
-- `endpoint_not_allowed` to all others.
pub refused_for_all :
    (c : CallerClass) (m r : String)
    → ((kind : ControlledWriteOperationKind) × (m ≡ write_method kind))
      ⊎ (one_of refused_methods m ≡ true)
    → authorize_request_method c m r ≡ err (refusal r (refusal_code c))
refused_for_all c m r (inl (kind, e)) =
    listed_refused c m r (ap (one_of refused_methods) e ∙ write_refused kind)
refused_for_all c m r (inr h) = listed_refused c m r h
