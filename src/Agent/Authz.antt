-- ===== src/Agent/Authz.antt =====
-- crates/ocfleet-agent/src/authz.rs: who may call what.
-- The type of endpoint identities, its equality and the parser of their texts are iroh's: they are
-- parameters. A `HashSet` is the list of the elements inserted.
pub mod Allowlist
use ocserv_fleet_agent.Common.{
  String, List, ap, if◌then◌else◌, Bool, text_discrete, Option, false, true, decided, ◌∷◌, Result,
  ◌||◌, not, ok, [], ◌>>=◌, ok_or,
}
use ocserv_fleet_agent.Protocol.Method.{
  node_ping, one_of, node_info, probe_peer_echo, node_capabilities, probe_controller_ping,
  probe_path_echo, ocserv_service_summary, ocserv_version, ocserv_sessions_summary,
  ocserv_cert_expiry, ocserv_config_fingerprint,
}

-- The parts of `SecurityConfig` that name endpoints.
pub record ControllerConfig : Type 0 where
  pub endpoint_id : String
  pub role : String

pub record PeerConfig : Type 0 where
  pub endpoint_id : String
  pub enabled : Bool

pub record PathProbeConfig : Type 0 where
  pub controller_endpoint_id : String
  pub target_endpoint_id : String
  pub enabled : Bool

pub record EndpointLists : Type 0 where
  pub controllers : List ControllerConfig
  pub peers : List PeerConfig
  pub path_probes : List PathProbeConfig

pub data CallerClass : Type 0 where
  controller peer disabled_peer unknown : CallerClass

pub data PathProbeDecision : Type 0 where
  allowed disabled missing target_is_controller self_target : PathProbeDecision

-- The texts that `from_security_config` reports as invalid.
pub data ConfigError : Type 0 where
  invalid_controller invalid_peer : String → ConfigError
  invalid_path_controller invalid_path_target : String → ConfigError

pub record AgentAuthorization (EndpointId : Type 0) : Type 0 where
  pub controllers : List EndpointId
  pub enabled_peers : List EndpointId
  pub disabled_peers : List EndpointId
  pub enabled_path_probes : List (EndpointId × EndpointId)
  pub disabled_path_probes : List (EndpointId × EndpointId)

module _ {EndpointId : Type 0} (parse_endpoint_id : String → Option EndpointId) where
  unfoldable pub load_controllers : List ControllerConfig → Result ConfigError (List EndpointId)
  load_controllers [] = ok []
  load_controllers (c ∷ cs) = do
    endpoint_id ← ok_or (parse_endpoint_id c.endpoint_id) (invalid_controller c.endpoint_id)
    rest ← load_controllers cs
    ok (endpoint_id ∷ rest)

  -- The loop over the peers, with the two sets that it fills.
  unfoldable pub load_peers :
      List PeerConfig
      → List EndpointId
      → List EndpointId
      → Result ConfigError (List EndpointId × List EndpointId)
  load_peers [] enabled_peers disabled_peers = ok (enabled_peers, disabled_peers)
  load_peers (p ∷ ps) enabled_peers disabled_peers = do
    endpoint_id ← ok_or (parse_endpoint_id p.endpoint_id) (invalid_peer p.endpoint_id)
    load_peers ps (if p.enabled then endpoint_id ∷ enabled_peers else enabled_peers)
        (if p.enabled then disabled_peers else endpoint_id ∷ disabled_peers)

  unfoldable pub load_path_probes :
      List PathProbeConfig
      → List (EndpointId × EndpointId)
      → List (EndpointId × EndpointId)
      → Result ConfigError (List (EndpointId × EndpointId) × List (EndpointId × EndpointId))
  load_path_probes [] enabled_probes disabled_probes = ok (enabled_probes, disabled_probes)
  load_path_probes (p ∷ ps) enabled_probes disabled_probes = do
    controller_id ←
        ok_or (parse_endpoint_id p.controller_endpoint_id)
          (invalid_path_controller p.controller_endpoint_id)
    target_id ←
        ok_or (parse_endpoint_id p.target_endpoint_id) (invalid_path_target p.target_endpoint_id)
    load_path_probes ps
        (if p.enabled then (controller_id, target_id) ∷ enabled_probes else enabled_probes)
        (if p.enabled then disabled_probes else (controller_id, target_id) ∷ disabled_probes)

  unfoldable pub from_security_config :
      EndpointLists → Result ConfigError (AgentAuthorization EndpointId)
  unfolding load_controllers load_peers load_path_probes
  from_security_config config = do
    controllers ← load_controllers config.controllers
    peers ← load_peers config.peers [] []
    probes ← load_path_probes config.path_probes [] []
    ok (record {
      controllers = controllers;
      enabled_peers = peers.0;
      disabled_peers = peers.1;
      enabled_path_probes = probes.0;
      disabled_path_probes = probes.1;
    })

-- `HashSet::contains`
unfoldable pub contains {ℓ} : {A : Type ℓ} → Discrete A → List A → A → Bool
contains dec [] a = false
contains dec (x ∷ xs) a = decided (dec x a) || contains dec xs a

module _ {EndpointId : Type 0} (dec : Discrete EndpointId) where
  unfoldable pub pair_discrete : Discrete (EndpointId × EndpointId)
  pair_discrete (a, b) (c, d) = elim (dec a c) [
    | yes p ↦ elim (dec b d) [
      | yes q ↦ yes (λ i. (p i, q i))
      | no q ↦ no (λ e. q (ap (λ (x : EndpointId × EndpointId). x.1) e))
    ]
    | no p ↦ no (λ e. p (ap (λ (x : EndpointId × EndpointId). x.0) e))
  ]

  unfoldable pub classify : AgentAuthorization EndpointId → EndpointId → CallerClass
  unfolding contains
  classify a endpoint_id =
      if contains dec a.controllers endpoint_id
      then controller
      else if contains dec a.enabled_peers endpoint_id
      then peer
      else if contains dec a.disabled_peers endpoint_id
      then disabled_peer
      else unknown

  unfoldable pub is_connection_admitted : AgentAuthorization EndpointId → EndpointId → Bool
  unfolding classify
  is_connection_admitted a endpoint_id = elim (classify a endpoint_id) [
    | controller ↦ true
    | peer ↦ true
    | _ ↦ false
  ]

  unfoldable pub path_probe_decision :
      AgentAuthorization EndpointId → EndpointId → EndpointId → EndpointId → PathProbeDecision
  unfolding contains pair_discrete
  path_probe_decision a controller_id target_id source_id =
      if decided (dec target_id source_id)
      then self_target
      else if contains dec a.controllers target_id
      then target_is_controller
      else if not (contains dec a.enabled_peers target_id)
      then missing
      else if contains pair_discrete a.enabled_path_probes (controller_id, target_id)
      then allowed
      else if contains pair_discrete a.disabled_path_probes (controller_id, target_id)
      then disabled
      else missing

abbrev pub controller_methods : List String
controller_methods =
    node_ping ∷ node_info ∷ node_capabilities ∷ probe_controller_ping ∷ probe_path_echo
    ∷ ocserv_service_summary ∷ ocserv_version ∷ ocserv_sessions_summary ∷ ocserv_cert_expiry
    ∷ ocserv_config_fingerprint ∷ []

unfoldable pub method_allowed : CallerClass → String → Bool
method_allowed controller method = one_of controller_methods method
method_allowed peer method = decided (text_discrete method probe_peer_echo)
method_allowed _ method = false
