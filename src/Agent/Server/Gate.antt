-- ===== src/Agent/Server/Gate.antt =====
-- `validate_and_dispatch_request`: the checks in their order, with the state that they change.
-- What runs an allowed method (`dispatch_allowed_method`, its services and its time limit) is the
-- argument `execute`, whose `none` is a call that exceeded the time limit.
pub mod Passed
pub mod Once
pub mod Edge
use ocserv_fleet_agent.Common.{
  ℕ, String, Bool, Option, Result, ◌+◌, ok, none, ◌>>◌, ◌>>=◌, List, err, ◌%◌, ok_or, reject, some,
  if◌then◌else◌, not, decided, length, ◌==◌, text_discrete, is_some, ◌||◌, ltb,
}
use ocserv_fleet_agent.Common.Int.{ℤ}
use ocserv_fleet_agent.Protocol.Method.{probe_path_echo}
use ocserv_fleet_agent.Protocol.Error.{
  ErrorCode, invalid_version, invalid_request_id, unsupported_auth_scheme, invalid_deadline,
  invalid_nonce, replayed_nonce, resource_exhausted, params_invalid, endpoint_not_allowed,
  internal_error, rpc_timeout,
}
use ocserv_fleet_agent.Agent.Nonce.{NonceCache, NonceDecision, register_at}
use ocserv_fleet_agent.Agent.Authz.{
  AgentAuthorization, CallerClass, PathProbeDecision, classify, path_probe_decision,
}
use ocserv_fleet_agent.Agent.Server.Refusal.{Dispatch, refusal}
use ocserv_fleet_agent.Agent.Server.Clock.{validate_issued_at, nonce_ttl}
use ocserv_fleet_agent.Agent.Server.Authorize.{authorize_request_method}
use ocserv_fleet_agent.Agent.Server.Request.{
  RpcRequest, protocol_version, valid_request_id, params_are_empty, validate_path_echo_params,
}

-- The parts of `AgentServerState` that the gate reads and changes.
pub record AgentServerState (EndpointId : Type 0) : Type 0 where
  pub allowed_clock_skew_seconds : ℤ
  pub max_deadline_ms : ℕ
  pub agent_endpoint_id : String
  pub authz : AgentAuthorization EndpointId
  pub nonce_cache : NonceCache
  pub nonce_replay_rejected : ℕ
  pub nonce_resource_rejected : ℕ

-- Third-party code: the parsers of the `time`, `base64` and `iroh` crates, and the platform's clock.
pub record Platform (EndpointId : Type 0) : Type 0 where
  pub id_discrete : Discrete EndpointId
  pub parse_endpoint_id : String → Option EndpointId
  pub ends_with_z : String → Bool
  pub parse_rfc3339 : String → Option ℤ
  pub decode_base64url : String → Option (List ℕ)
  pub instant_max : ℕ

abbrev pub with_request_id : {A : Type 0} → String → Result ErrorCode A → Dispatch A
with_request_id request_id (ok a) = ok a
with_request_id request_id (err code) = err (refusal request_id code)

-- `AtomicU64::fetch_add`
abbrev pub bump : ℕ → ℕ
bump n = (n + 1) % 18446744073709551616

module _ {EndpointId : Type 0} (platform : Platform EndpointId) where
  open platform use {
    id_discrete, parse_endpoint_id, ends_with_z, parse_rfc3339, decode_base64url, instant_max,
  }

  unfoldable pub validate_nonce : String → Result ErrorCode (Unit {0})
  validate_nonce nonce = do
    bytes ← ok_or (decode_base64url nonce) invalid_nonce
    reject (not (length bytes == 16)) invalid_nonce

  -- The checks before the nonce is registered, at a reading of the wall clock.
  unfoldable pub validate_request :
      AgentServerState EndpointId → RpcRequest → ℤ → Dispatch (Unit {0})
  validate_request state request now = do
    reject (not (request.version == protocol_version)) (record {
      request_id = if valid_request_id request.request_id then some request.request_id else none;
      code = invalid_version;
    })
    reject (not (valid_request_id request.request_id))
        (record { request_id = none; code = invalid_request_id })
    reject (is_some request.auth) (refusal request.request_id unsupported_auth_scheme)
    reject (request.deadline_ms == 0 || ltb state.max_deadline_ms request.deadline_ms)
        (refusal request.request_id invalid_deadline)
    with_request_id request.request_id (validate_nonce request.nonce)
    with_request_id request.request_id (
        validate_issued_at ends_with_z parse_rfc3339 request.issued_at request.deadline_ms
          state.allowed_clock_skew_seconds now)

  abbrev pub nonce_outcome :
      AgentServerState EndpointId
      → String
      → NonceDecision
      → AgentServerState EndpointId × Dispatch (Unit {0})
  nonce_outcome state request_id NonceDecision.accepted = (state, ok tt)
  nonce_outcome state request_id NonceDecision.replay = (
    record state { nonce_replay_rejected = bump state.nonce_replay_rejected },
    err (refusal request_id replayed_nonce),
  )
  nonce_outcome state request_id (NonceDecision.resource_exhausted scope limit) = (
    record state { nonce_resource_rejected = bump state.nonce_resource_rejected },
    err (refusal request_id resource_exhausted),
  )

  -- The registration of the nonce, at an instant, with what the metrics count.
  unfoldable pub register_nonce :
      AgentServerState EndpointId
      → String
      → RpcRequest
      → ℕ
      → AgentServerState EndpointId × Dispatch (Unit {0})
  register_nonce state remote request instant =
      let (cache, decision) =
        register_at instant_max instant remote request.nonce
          (nonce_ttl request.deadline_ms state.allowed_clock_skew_seconds) state.nonce_cache in
      nonce_outcome (record state { nonce_cache = cache }) request.request_id decision

  unfoldable pub classify_request_caller : AgentServerState EndpointId → String → CallerClass
  classify_request_caller state remote = elim (parse_endpoint_id remote) [
    | none ↦ CallerClass.unknown
    | some endpoint_id ↦ classify id_discrete state.authz endpoint_id
  ]

  abbrev pub probe_outcome : PathProbeDecision → String → Dispatch (Unit {0})
  probe_outcome PathProbeDecision.allowed request_id = ok tt
  probe_outcome PathProbeDecision.self_target request_id = err (refusal request_id params_invalid)
  probe_outcome _ request_id = err (refusal request_id endpoint_not_allowed)

  unfoldable pub authorize_path_probe_target :
      AgentServerState EndpointId → String → EndpointId → String → Dispatch (Unit {0})
  authorize_path_probe_target state remote target request_id = do
    controller_id ← ok_or (parse_endpoint_id remote) (refusal request_id endpoint_not_allowed)
    source_id ←
        ok_or (parse_endpoint_id state.agent_endpoint_id) (refusal request_id internal_error)
    probe_outcome (path_probe_decision id_discrete state.authz controller_id target source_id)
        request_id

  unfoldable pub probed_target :
      AgentServerState EndpointId → String → RpcRequest → Dispatch (Option EndpointId)
  probed_target state remote request = do
    target ← validate_path_echo_params parse_endpoint_id request.params request.request_id
    authorize_path_probe_target state remote target request.request_id
    ok (some target)

  unfoldable pub no_params : RpcRequest → Dispatch (Option EndpointId)
  no_params request = do
    reject (not (params_are_empty request.params)) (refusal request.request_id params_invalid)
    ok none

  unfoldable pub validated_path_probe :
      AgentServerState EndpointId → String → RpcRequest → Dispatch (Option EndpointId)
  validated_path_probe state remote request =
      if decided (text_discrete request.method probe_path_echo)
      then probed_target state remote request
      else no_params request

  -- What remains to be authorized once the nonce is accepted.
  unfoldable pub authorize_request :
      AgentServerState EndpointId → String → RpcRequest → Dispatch (Option EndpointId)
  authorize_request state remote request = do
    authorize_request_method (classify_request_caller state remote) request.method
        request.request_id
    validated_path_probe state remote request

  module _ {Reply : Type 0}
      (execute : String → RpcRequest → Option EndpointId → Option (Dispatch Reply)) where
    abbrev pub timed : String → Option (Dispatch Reply) → Dispatch (String × Reply)
    timed request_id none = err (refusal request_id rpc_timeout)
    timed request_id (some result) = do value ← result; ok (request_id, value)

    unfoldable pub dispatch :
        AgentServerState EndpointId → String → RpcRequest → Dispatch (String × Reply)
    dispatch state remote request = do
      path_probe ← authorize_request state remote request
      timed request.request_id (execute remote request path_probe)

    abbrev pub after_nonce :
        String
        → RpcRequest
        → AgentServerState EndpointId × Dispatch (Unit {0})
        → AgentServerState EndpointId × Dispatch (String × Reply)
    after_nonce remote request (state, ok u) = (state, dispatch state remote request)
    after_nonce remote request (state, err e) = (state, err e)

    unfoldable pub validate_and_dispatch_request :
        AgentServerState EndpointId
        → String
        → RpcRequest
        → ℤ
        → ℕ
        → AgentServerState EndpointId × Dispatch (String × Reply)
    validate_and_dispatch_request state remote request now instant =
        elim (validate_request state request now) [
          | err e ↦ (state, err e)
          | ok u ↦ after_nonce remote request (register_nonce state remote request instant)
        ]
