-- ===== src/Agent/Server/Gate/Passed.antt =====
-- What a dispatched request has passed.
use ocserv_fleet_agent.Agent.Nonce.{NonceCache}
use ocserv_fleet_agent.Agent.Server.Authorize.{authorize_iff}
use ocserv_fleet_agent.Common.{
  String, ◌≡◌, Option, true, ◌≢◌, some, ok, arith, is_some, none, false, ◌<◌, ◌≤◌, ℕ, text_discrete,
  subst, >>=-eq-ok, sym, ap, ◌∙◌, refl,
}
use ocserv_fleet_agent.Common.Int.{ℤ}
use ocserv_fleet_agent.Protocol.Method.{probe_path_echo}
use ocserv_fleet_agent.Agent.Authz.{PathProbeDecision, path_probe_decision, method_allowed}
use ocserv_fleet_agent.Agent.Server.Clock.{validate_issued_at, nonce_ttl}
use ocserv_fleet_agent.Agent.Server.Request.{
  RpcRequest, protocol_version, valid_request_id, params_are_empty, validate_path_echo_params,
}
use ocserv_fleet_agent.Agent.Server.Gate.{
  AgentServerState, Platform, validate_nonce, validate_request, authorize_path_probe_target,
  probed_target, Option, some, ok, is_some, validated_path_probe, authorize_request, Dispatch,
  no_params, dispatch, ℕ, register_nonce, text_discrete, classify_request_caller, NonceDecision,
  register_at, authorize_request_method, validate_and_dispatch_request, NonceCache,
}

module _ {EndpointId : Type 0} (platform : Platform EndpointId) where
  open platform use {
    id_discrete, parse_endpoint_id, ends_with_z, parse_rfc3339, decode_base64url, instant_max,
  }

  -- The request's own fields are in order, and its time is within the window.
  pub record IsWellFormed (state : AgentServerState EndpointId) (request : RpcRequest) (now : ℤ)
      : Type 0 where
    pub version_known : request.version ≡ protocol_version
    pub id_valid : valid_request_id request.request_id ≡ true
    pub auth_absent : is_some request.auth ≡ false
    pub deadline_positive : 0 < request.deadline_ms
    pub deadline_bounded : request.deadline_ms ≤ state.max_deadline_ms
    pub nonce_decodes : validate_nonce platform request.nonce ≡ ok tt
    pub in_window :
        validate_issued_at ends_with_z parse_rfc3339 request.issued_at request.deadline_ms
          state.allowed_clock_skew_seconds now
        ≡ ok tt

  -- The probing controller, the target and this agent are parsed, and the pair is allowed.
  abbrev pub IsProbeAllowed : AgentServerState EndpointId → String → EndpointId → Type 0
  IsProbeAllowed state remote target =
      (c s : EndpointId) × (parse_endpoint_id remote ≡ some c)
      × (parse_endpoint_id state.agent_endpoint_id ≡ some s)
      × (path_probe_decision id_discrete state.authz c target s ≡ PathProbeDecision.allowed)

  abbrev pub IsTarget :
      AgentServerState EndpointId → String → RpcRequest → Option EndpointId → Type 0
  IsTarget state remote request none =
      (request.method ≢ probe_path_echo) × (params_are_empty request.params ≡ true)
  IsTarget state remote request (some target) =
      (request.method ≡ probe_path_echo)
      × (validate_path_echo_params parse_endpoint_id request.params request.request_id ≡ ok target)
      × IsProbeAllowed state remote target

  pub well_formed :
      (state : AgentServerState EndpointId) (request : RpcRequest) (now : ℤ)
      → validate_request platform state request now ≡ ok tt
      → IsWellFormed state request now
  unfolding validate_request
  well_formed state request now h = ground arith

  probe_allowed :
      (state : AgentServerState EndpointId) (remote : String) (target : EndpointId)
      (request_id : String)
      → authorize_path_probe_target platform state remote target request_id ≡ ok tt
      → IsProbeAllowed state remote target
  unfolding authorize_path_probe_target
  probe_allowed state remote target request_id h = ground arith

  probed :
      (state : AgentServerState EndpointId) (remote : String) (request : RpcRequest)
      (p : Option EndpointId)
      → probed_target platform state remote request ≡ ok p
      → (target : EndpointId) × (p ≡ some target)
        × (validate_path_echo_params parse_endpoint_id request.params request.request_id
            ≡ ok target)
        × (authorize_path_probe_target platform state remote target request.request_id ≡ ok tt)
  unfolding probed_target
  probed state remote request p h = ground arith

  IsTarget-of :
      (state : AgentServerState EndpointId) (remote : String) (request : RpcRequest)
      (p : Option EndpointId)
      → validated_path_probe platform state remote request ≡ ok p
      → IsTarget state remote request p
  unfolding validated_path_probe no_params
  IsTarget-of state remote request p h = elim (text_discrete request.method probe_path_echo) [
    | yes q ↦
        let (target, e, v, a) = probed state remote request p (ground arith) in
        subst (IsTarget state remote request) (sym e)
          (q, v, probe_allowed state remote target request.request_id a)
    | no q ↦
        let e : params_are_empty request.params ≡ true = ground arith in
        subst (IsTarget state remote request) (none_of request p (ground arith)) (q, e)
  ]
    where
      none_of :
          (request : RpcRequest) (p : Option EndpointId)
          → no_params platform request ≡ ok p
          → none ≡ p
      none_of request p h = ground arith

  pub authorized :
      (state : AgentServerState EndpointId) (remote : String) (request : RpcRequest)
      (p : Option EndpointId)
      → authorize_request platform state remote request ≡ ok p
      → (method_allowed (classify_request_caller platform state remote) request.method ≡ true)
        × IsTarget state remote request p
  unfolding authorize_request
  authorized state remote request p h =
      let (u, a, v) =
        >>=-eq-ok
          (authorize_request_method (classify_request_caller platform state remote) request.method
            request.request_id)
          (λ _. validated_path_probe platform state remote request) h in
      (
        (authorize_iff _ request.method request.request_id).0 a,
        IsTarget-of state remote request p v,
      )

  module _ {Reply : Type 0}
      (execute : String → RpcRequest → Option EndpointId → Option (Dispatch Reply)) where
    dispatched :
        (state : AgentServerState EndpointId) (remote : String) (request : RpcRequest)
        (r : String × Reply)
        → dispatch platform execute state remote request ≡ ok r
        → (p : Option EndpointId) × (authorize_request platform state remote request ≡ ok p)
          × (r.0 ≡ request.request_id)
          × (execute remote request p ≡ some (ok r.1))
    unfolding dispatch
    dispatched state remote request r h = ground arith

    -- The registration that the gate makes.
    abbrev pub decision : AgentServerState EndpointId → String → RpcRequest → ℕ → NonceDecision
    decision state remote request instant =
        (register_at instant_max instant remote request.nonce
          (nonce_ttl request.deadline_ms state.allowed_clock_skew_seconds) state.nonce_cache).1

    registered :
        (state : AgentServerState EndpointId) (remote : String) (request : RpcRequest) (instant : ℕ)
        → (register_nonce platform state remote request instant).1 ≡ ok tt
        → (decision state remote request instant ≡ NonceDecision.accepted)
    unfolding register_nonce
    registered state remote request instant h = ground arith

    -- With an accepted nonce only the cache changes.
    pub accepted_state :
        (state : AgentServerState EndpointId) (remote : String) (request : RpcRequest) (instant : ℕ)
        → decision state remote request instant ≡ NonceDecision.accepted
        → register_nonce platform state remote request instant ≡ (
          record state {
            nonce_cache =
                (register_at instant_max instant remote request.nonce
                  (nonce_ttl request.deadline_ms state.allowed_clock_skew_seconds)
                  state.nonce_cache).0;
          },
          ok tt,
        )
    unfolding register_nonce
    accepted_state state remote request instant h = ground arith

    authorize-cache :
        (state : AgentServerState EndpointId) (c : NonceCache) (remote : String)
        (request : RpcRequest)
        → authorize_request platform (record state { nonce_cache = c }) remote request
          ≡ authorize_request platform state remote request
    unfolding authorize_request classify_request_caller validated_path_probe probed_target
        authorize_path_probe_target
    authorize-cache state c remote request = refl

    stages :
        (state : AgentServerState EndpointId) (remote : String) (request : RpcRequest) (now : ℤ)
        (instant : ℕ) (r : String × Reply)
        → (validate_and_dispatch_request platform execute state remote request now instant).1 ≡ ok r
        → (validate_request platform state request now ≡ ok tt)
          × ((register_nonce platform state remote request instant).1 ≡ ok tt)
          × (dispatch platform execute
                (register_nonce platform state remote request instant).0
                remote
                request
              ≡ ok r)
    unfolding validate_and_dispatch_request
    stages state remote request now instant r h = ground arith

    -- A request that gives a result, under its own id, has passed every check of the gate: its
    -- fields are in order and its time is in the window, its nonce was accepted by the replay
    -- cache, its method is one that the caller's class may call, and its params are empty, or name
    -- the target of an allowed path probe.
    pub result_passed :
        (state : AgentServerState EndpointId) (remote : String) (request : RpcRequest) (now : ℤ)
        (instant : ℕ) (r : String × Reply)
        → (validate_and_dispatch_request platform execute state remote request now instant).1 ≡ ok r
        → (r.0 ≡ request.request_id)
          × IsWellFormed state request now
          × (decision state remote request instant ≡ NonceDecision.accepted)
          × (method_allowed (classify_request_caller platform state remote) request.method ≡ true)
          × ((p : Option EndpointId) × IsTarget state remote request p
              × (execute remote request p ≡ some (ok r.1)))
    result_passed state remote request now instant r h =
        let (v, n, d) = stages state remote request now instant r h in
        let accepted = registered state remote request instant n in
        let changed =
          ap (λ (x : AgentServerState EndpointId × Dispatch (Unit {0})). x.0)
            (accepted_state state remote request instant accepted) in
        let (p, a, same_id, run) =
          dispatched _ remote request r
            (subst (λ s. dispatch platform execute s remote request ≡ ok r) changed d) in
        let (allowed, target) =
          authorized state remote request p (sym (authorize-cache state _ remote request) ∙ a) in
        (same_id, well_formed state request now v, accepted, allowed, (p, target, run))
