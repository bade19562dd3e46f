-- ===== src/Agent/Authz/Allowlist.antt =====
-- What the sets that `from_security_config` builds hold, in terms of the configuration.
use ocserv_fleet_agent.Common.{
  String, Option, Any, Bool, List, ◌≡◌, ◌∷◌, some, ok, arith, true, ◌↔◌, [], ◌⊎◌, ◌≢◌,
  if◌then◌else◌, false, inl, inr,
}
use ocserv_fleet_agent.Agent.Authz.{
  ControllerConfig, PeerConfig, PathProbeConfig, EndpointLists, AgentAuthorization,
  load_controllers, load_peers, load_path_probes, from_security_config, contains, pair_discrete,
  is_connection_admitted, path_probe_decision, PathProbeDecision, String, Option, Bool, List, ok,
  true, false,
}

from_left :
    {A : Type 0} (dec : Discrete A) {P : Type 0} (a : A) → P ⊎ (contains dec [] a ≡ true) → P
unfolding contains
from_left dec a (inl p) = p
from_left dec a (inr q) = cc

module _ {EndpointId : Type 0} (parse_endpoint_id : String → Option EndpointId)
    (dec : Discrete EndpointId) where
  abbrev pub IsController : EndpointLists → EndpointId → Type 0
  IsController config e = Any (λ c. parse_endpoint_id c.endpoint_id ≡ some e) config.controllers

  abbrev pub IsPeer : Bool → EndpointLists → EndpointId → Type 0
  IsPeer enabled config e =
      Any (λ p. (parse_endpoint_id p.endpoint_id ≡ some e) × (p.enabled ≡ enabled)) config.peers

  abbrev pub IsPathProbe : Bool → EndpointLists → EndpointId → EndpointId → Type 0
  IsPathProbe enabled config c t =
      Any
        (λ p.
          (parse_endpoint_id p.controller_endpoint_id ≡ some c)
          × (parse_endpoint_id p.target_endpoint_id ≡ some t)
          × (p.enabled ≡ enabled))
        config.path_probes

  controllers_cons :
      (c : ControllerConfig) (cs : List ControllerConfig) (ids : List EndpointId)
      → load_controllers parse_endpoint_id (c ∷ cs) ≡ ok ids
      → (x : EndpointId) × (rest : List EndpointId) × (parse_endpoint_id c.endpoint_id ≡ some x)
        × (load_controllers parse_endpoint_id cs ≡ ok rest)
        × (ids ≡ x ∷ rest)
  unfolding load_controllers
  controllers_cons c cs ids h = ground arith

  controllers_iff :
      (e : EndpointId) (cs : List ControllerConfig) (ids : List EndpointId)
      → load_controllers parse_endpoint_id cs ≡ ok ids
      → (contains dec ids e ≡ true) ↔ Any (λ c. parse_endpoint_id c.endpoint_id ≡ some e) cs
  unfolding contains load_controllers
  controllers_iff e [] ids h = ground arith
  controllers_iff e (c ∷ cs) ids h =
      let (x, rest, p, q, r) = controllers_cons c cs ids h in
      let ih = controllers_iff e cs rest q in ground (arith, p, r, ih.0, ih.1)

  abbrev PeerIn : Bool → EndpointId → List PeerConfig → Type 0
  PeerIn b e = Any (λ p. (parse_endpoint_id p.endpoint_id ≡ some e) × (p.enabled ≡ b))

  peers_cons :
      (p : PeerConfig) (ps : List PeerConfig) (enabled disabled : List EndpointId)
      (r : List EndpointId × List EndpointId)
      → load_peers parse_endpoint_id (p ∷ ps) enabled disabled ≡ ok r
      → (x : EndpointId) × (parse_endpoint_id p.endpoint_id ≡ some x)
        × (load_peers parse_endpoint_id ps
              (if p.enabled then x ∷ enabled else enabled)
              (if p.enabled then disabled else x ∷ disabled)
            ≡ ok r)
  unfolding load_peers
  peers_cons p ps enabled disabled r h = ground arith

  peers_iff :
      (e : EndpointId) (ps : List PeerConfig) (enabled disabled : List EndpointId)
      (r : List EndpointId × List EndpointId)
      → load_peers parse_endpoint_id ps enabled disabled ≡ ok r
      → ((contains dec r.0 e ≡ true) ↔ (PeerIn true e ps ⊎ (contains dec enabled e ≡ true)))
        × ((contains dec r.1 e ≡ true) ↔ (PeerIn false e ps ⊎ (contains dec disabled e ≡ true)))
  unfolding contains load_peers
  peers_iff e [] enabled disabled r h = ground arith
  peers_iff e (p ∷ ps) enabled disabled r h =
      let (x, q, g) = peers_cons p ps enabled disabled r h in
      let ih = peers_iff e ps _ _ r g in ground (arith, q, ih.0.0, ih.0.1, ih.1.0, ih.1.1)

  abbrev ProbeIn : Bool → EndpointId → EndpointId → List PathProbeConfig → Type 0
  ProbeIn b c t = Any λ p.
      (parse_endpoint_id p.controller_endpoint_id ≡ some c)
      × (parse_endpoint_id p.target_endpoint_id ≡ some t)
      × (p.enabled ≡ b)

  probes_cons :
      (p : PathProbeConfig) (ps : List PathProbeConfig)
      (enabled disabled : List (EndpointId × EndpointId))
      (r : List (EndpointId × EndpointId) × List (EndpointId × EndpointId))
      → load_path_probes parse_endpoint_id (p ∷ ps) enabled disabled ≡ ok r
      → (x y : EndpointId) × (parse_endpoint_id p.controller_endpoint_id ≡ some x)
        × (parse_endpoint_id p.target_endpoint_id ≡ some y)
        × (load_path_probes parse_endpoint_id ps
              (if p.enabled then (x, y) ∷ enabled else enabled)
              (if p.enabled then disabled else (x, y) ∷ disabled)
            ≡ ok r)
  unfolding load_path_probes
  probes_cons p ps enabled disabled r h = ground arith

  probes_iff :
      (c t : EndpointId) (ps : List PathProbeConfig)
      (enabled disabled : List (EndpointId × EndpointId))
      (r : List (EndpointId × EndpointId) × List (EndpointId × EndpointId))
      → load_path_probes parse_endpoint_id ps enabled disabled ≡ ok r
      → (contains (pair_discrete dec) r.0 (c, t) ≡ true)
        ↔ (ProbeIn true c t ps ⊎ (contains (pair_discrete dec) enabled (c, t) ≡ true))
  unfolding contains load_path_probes
  probes_iff c t [] enabled disabled r h = ground arith
  probes_iff c t (p ∷ ps) enabled disabled r h =
      let (x, y, q, s, g) = probes_cons p ps enabled disabled r h in
      let ih = probes_iff c t ps _ _ r g in ground (arith, q, s, ih.0, ih.1)

  config_parts :
      (config : EndpointLists) (a : AgentAuthorization EndpointId)
      → from_security_config parse_endpoint_id config ≡ ok a
      → (load_controllers parse_endpoint_id config.controllers ≡ ok a.controllers)
        × (load_peers parse_endpoint_id config.peers [] [] ≡ ok (a.enabled_peers, a.disabled_peers))
        × (load_path_probes parse_endpoint_id config.path_probes [] []
            ≡ ok (a.enabled_path_probes, a.disabled_path_probes))
  unfolding from_security_config
  config_parts config a h = ground arith

  decision_allowed_iff :
      (a : AgentAuthorization EndpointId) (c t s : EndpointId)
      → (path_probe_decision dec a c t s ≡ PathProbeDecision.allowed) ↔ (
          (t ≢ s)
          × (contains dec a.controllers t ≢ true)
          × (contains dec a.enabled_peers t ≡ true)
          × (contains (pair_discrete dec) a.enabled_path_probes (c, t) ≡ true))
  unfolding path_probe_decision
  decision_allowed_iff a c t s = (λ h. ground arith, λ h. ground arith)

  -- A connection is admitted exactly from the endpoints that the configuration names as a
  -- controller or as an enabled peer.
  pub admitted_iff :
      (config : EndpointLists) (a : AgentAuthorization EndpointId) (e : EndpointId)
      → from_security_config parse_endpoint_id config ≡ ok a
      → (is_connection_admitted dec a e ≡ true) ↔ (IsController config e ⊎ IsPeer true config e)
  unfolding is_connection_admitted contains
  admitted_iff config a e h =
      let (p, q, r) = config_parts config a h in
      let cs = controllers_iff e config.controllers a.controllers p in
      let ps = peers_iff e config.peers [] [] _ q in ground (arith, cs.0, cs.1, ps.0.0, ps.0.1)

  -- A path probe is allowed exactly when its target is not the probing agent, is no controller of
  -- the configuration, is an enabled peer of it, and the configuration has an enabled path probe
  -- from that controller to that target.
  pub probe_decision_iff :
      (config : EndpointLists) (a : AgentAuthorization EndpointId) (c t s : EndpointId)
      → from_security_config parse_endpoint_id config ≡ ok a
      → (path_probe_decision dec a c t s ≡ PathProbeDecision.allowed)
        ↔ ((t ≢ s) × (¬ IsController config t) × IsPeer true config t × IsPathProbe true config c t)
  probe_decision_iff config a c t s h =
      let (p, q, r) = config_parts config a h in
      let cs = controllers_iff t config.controllers a.controllers p in
      let ps = peers_iff t config.peers [] [] _ q in
      let ts = probes_iff c t config.path_probes [] [] _ r in
      let d = decision_allowed_iff a c t s in
      (
        λ g. (
          (d.0 g).0,
          λ k. (d.0 g).1 (cs.1 k),
          from_left dec t (ps.0.0 (d.0 g).2),
          from_left (pair_discrete dec) (c, t) (ts.0 (d.0 g).3),
        ),
        λ g. d.1 (g.0, λ k. g.1 (cs.0 k), ps.0.1 (inl g.2), ts.1 (inl g.3)),
      )
