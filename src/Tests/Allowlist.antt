-- ===== src/Tests/Allowlist.antt =====
-- The allowlists of a small configuration.
use ocserv_fleet_agent.Common.{
  ℕ, String, none, some, Option, ◌∷◌, ◌≡◌, ℕ_discrete, if◌then◌else◌, [], ok, true, ◌↔◌, false, ◌⊎◌,
  ◌≢◌, refl,
}
use text.Mathlib.Text.{◌==◌ as str_eq}
use ocserv_fleet_agent.Agent.Authz.{
  EndpointLists, AgentAuthorization, from_security_config, is_connection_admitted,
  path_probe_decision, PathProbeDecision,
}
use ocserv_fleet_agent.Agent.Authz.Allowlist.{
  IsController, IsPeer, IsPathProbe, admitted_iff, probe_decision_iff,
}

-- Three identities stand for the parser's results.
abbrev pub parse_id : String → Option ℕ
parse_id s =
    if str_eq s "controller-a"
    then some 1
    else if str_eq s "peer-b"
    then some 2
    else if str_eq s "peer-c"
    then some 3
    else none

abbrev pub lists : EndpointLists
lists = record {
  controllers = record { endpoint_id = "controller-a"; role = "viewer" } ∷ [];
  peers =
      record { endpoint_id = "peer-b"; enabled = true }
      ∷ record { endpoint_id = "peer-c"; enabled = false }
      ∷ [];
  path_probes =
      record {
        controller_endpoint_id = "controller-a";
        target_endpoint_id = "peer-b";
        enabled = true;
      }
      ∷ [];
}

abbrev pub authorization : AgentAuthorization ℕ
authorization = record {
  controllers = 1 ∷ [];
  enabled_peers = 2 ∷ [];
  disabled_peers = 3 ∷ [];
  enabled_path_probes = (1, 2) ∷ [];
  disabled_path_probes = [];
}

loaded : from_security_config parse_id lists ≡ ok authorization
unfolding from_security_config
loaded = refl

admitted_iff_example :
    (is_connection_admitted ℕ_discrete authorization 2 ≡ true)
    ↔ (IsController parse_id ℕ_discrete lists 2 ⊎ IsPeer parse_id ℕ_discrete true lists 2)
admitted_iff_example = admitted_iff parse_id ℕ_discrete lists authorization 2 loaded

probe_decision_iff_example :
    (path_probe_decision ℕ_discrete authorization 1 2 3 ≡ PathProbeDecision.allowed) ↔ (
      (◌≢◌ {A = ℕ} 2 3)
      × (¬ IsController parse_id ℕ_discrete lists 2)
      × IsPeer parse_id ℕ_discrete true lists 2
      × IsPathProbe parse_id ℕ_discrete true lists 1 2)
probe_decision_iff_example = probe_decision_iff parse_id ℕ_discrete lists authorization 1 2 3 loaded
