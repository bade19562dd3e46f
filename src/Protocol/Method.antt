-- ===== src/Protocol/Method.antt =====
-- crates/ocfleet-protocol/src/method.rs: the names of the methods and their first classification.
use ocserv_fleet_agent.Common.{
  ◌≡◌, Bool, true, List, [], ◌∷◌, String, arith, if◌then◌else◌, any, all, decided, text_discrete,
  subst, sym, false, ◌≢◌,
}

pub data MethodStatus : Type 0 where
  allowed known_but_not_allowed unknown : MethodStatus

abbrev pub node_ping : String
node_ping = "node.ping"

abbrev pub node_info : String
node_info = "node.info"

abbrev pub node_capabilities : String
node_capabilities = "node.capabilities"

abbrev pub probe_controller_ping : String
probe_controller_ping = "probe.controller.ping"

abbrev pub probe_peer_echo : String
probe_peer_echo = "probe.peer.echo"

abbrev pub probe_path_echo : String
probe_path_echo = "probe.path.echo"

abbrev pub ocserv_service_summary : String
ocserv_service_summary = "ocserv.service.summary"

abbrev pub ocserv_version : String
ocserv_version = "ocserv.version"

abbrev pub ocserv_sessions_summary : String
ocserv_sessions_summary = "ocserv.sessions.summary"

abbrev pub ocserv_cert_expiry : String
ocserv_cert_expiry = "ocserv.cert.expiry"

abbrev pub ocserv_config_fingerprint : String
ocserv_config_fingerprint = "ocserv.config.fingerprint"

abbrev pub ocserv_reload : String
ocserv_reload = "ocserv.reload"

abbrev pub ocserv_restart : String
ocserv_restart = "ocserv.restart"

abbrev pub ocserv_config_apply : String
ocserv_config_apply = "ocserv.config.apply"

abbrev pub ocserv_config_rollback : String
ocserv_config_rollback = "ocserv.config.rollback"

abbrev pub ocserv_session_disconnect : String
ocserv_session_disconnect = "ocserv.session.disconnect"

-- `matches!(method, A | B | …)`
unfoldable pub one_of : List String → String → Bool
one_of names m = any (λ n. decided (text_discrete m n)) names

abbrev pub phase_one_methods : List String
phase_one_methods =
    node_ping ∷ node_info ∷ node_capabilities ∷ probe_controller_ping ∷ ocserv_service_summary
    ∷ ocserv_version ∷ ocserv_sessions_summary ∷ ocserv_cert_expiry ∷ ocserv_config_fingerprint ∷ []

abbrev pub refused_methods : List String
refused_methods =
    "ocserv.service.status" ∷ "ocserv.status" ∷ ocserv_reload ∷ ocserv_restart ∷ ocserv_config_apply
    ∷ ocserv_config_rollback ∷ ocserv_session_disconnect ∷ "ocserv.users.list" ∷ "ocserv.users.get"
    ∷ "ocserv.logs.recent" ∷ "ocserv.cert.status" ∷ "ocserv.config.summary" ∷ []

unfoldable pub classify_phase_one_method : String → MethodStatus
classify_phase_one_method method =
    if one_of phase_one_methods method
    then allowed
    else if one_of refused_methods method
    then known_but_not_allowed
    else unknown

pub classify_outside :
    (m : String) → one_of phase_one_methods m ≡ false → classify_phase_one_method m ≢ allowed
unfolding classify_phase_one_method
classify_outside m h = ground arith

pub classify_refused :
    (m : String)
    → one_of phase_one_methods m ≡ false
    → one_of refused_methods m ≡ true
    → classify_phase_one_method m ≡ known_but_not_allowed
unfolding classify_phase_one_method
classify_refused m h k = ground arith

-- What holds of every name in a list holds of a method that is one of them.
pub one_of-all :
    (P : String → Bool) (names : List String) (m : String)
    → one_of names m ≡ true
    → all P names ≡ true
    → P m ≡ true
unfolding one_of
one_of-all P [] m h a = cc
one_of-all P (n ∷ names) m h a = elim (text_discrete m n) [
  | yes p ↦ subst (λ x. P x ≡ true) (sym p) (ground arith)
  | no q ↦ one_of-all P names m (ground arith) (ground arith)
]
