-- ===== src/Tests/Gate.antt =====
-- One request through the agent's gate, and the same request again.
use ocserv_fleet_agent.Common.Assoc.{insert, remove}
use ocserv_fleet_agent.Common.{
  ℕ, String, none, some, ◌≡◌, text_discrete, ℕ_discrete, Option, ok, true, err, ◌↔◌, ◌∷◌, refl, [],
  List, ◌≢◌, ◌+◌, arith, inl,
}
use ocserv_fleet_agent.Common.Int.{ℤ, pos, pos_part, ◌+ℤ◌, ◌-ℤ◌, scale, ◌<ℤ◌}
use ocserv_fleet_agent.Protocol.Json.{object, end, field_count}
use ocserv_fleet_agent.Protocol.Method.{probe_controller_ping, one_of}
use ocserv_fleet_agent.Agent.Authz.{CallerClass, method_allowed, classify}
use ocserv_fleet_agent.Agent.Nonce.{with_limits, register_at, NonceDecision}
use ocserv_fleet_agent.Agent.Nonce.Validity.{with_limits-IsValid}
use ocserv_fleet_agent.Agent.Server.Refusal.{Dispatch, refusal}
use ocserv_fleet_agent.Agent.Server.Clock.{
  nonce_ttl, seconds, validate_issued_at, check_window, as_i64,
}
use ocserv_fleet_agent.Agent.Server.Authorize.{
  authorize_request_method, authorize_iff, refused_for_all, refusal_code, write_method,
}
use ocserv_fleet_agent.Agent.Server.Request.{RpcRequest, valid_request_id, params_are_empty}
use ocserv_fleet_agent.Agent.Server.Gate.{
  AgentServerState, Platform, validate_and_dispatch_request, validate_request,
  classify_request_caller, validate_nonce, register_nonce, dispatch, authorize_request,
  validated_path_probe, no_params,
}
use ocserv_fleet_agent.Agent.Server.Gate.Passed.{result_passed, IsWellFormed, decision, IsTarget}
use ocserv_fleet_agent.Agent.Server.Gate.Once.{one_result, run, Call}
use ocserv_fleet_agent.Agent.Server.Gate.Edge.{replay_at_edge, deadline_of}
use ocserv_fleet_agent.Cli.Change.Records.{ControlledWriteOperationKind}
use ocserv_fleet_agent.Tests.Allowlist.{parse_id, authorization}

authorize_iff_example :
    (authorize_request_method CallerClass.controller probe_controller_ping "r" ≡ ok tt)
    ↔ (method_allowed CallerClass.controller probe_controller_ping ≡ true)
authorize_iff_example = authorize_iff CallerClass.controller probe_controller_ping "r"

restart_is_write : "ocserv.restart" ≡ write_method ControlledWriteOperationKind.ocserv_restart
unfolding write_method
restart_is_write = refl

refused_for_all_example :
    authorize_request_method CallerClass.controller "ocserv.restart" "r"
    ≡ err (refusal "r" (refusal_code CallerClass.controller))
refused_for_all_example =
    refused_for_all CallerClass.controller "ocserv.restart" "r"
      (inl (ControlledWriteOperationKind.ocserv_restart, restart_is_write))

-- The clock stood at 100 s when the request was made.
abbrev platform : Platform ℕ
platform = record {
  id_discrete = ℕ_discrete;
  parse_endpoint_id = parse_id;
  ends_with_z = λ s. true;
  parse_rfc3339 = λ s. some (pos 100000000000);
  decode_base64url =
      λ s. some (1 ∷ 2 ∷ 3 ∷ 4 ∷ 5 ∷ 6 ∷ 7 ∷ 8 ∷ 9 ∷ 10 ∷ 11 ∷ 12 ∷ 13 ∷ 14 ∷ 15 ∷ 16 ∷ []);
  instant_max = 18446744073709551615;
}

abbrev state : AgentServerState ℕ
state = record {
  allowed_clock_skew_seconds = pos 60;
  max_deadline_ms = 10000;
  agent_endpoint_id = "peer-c";
  authz = authorization;
  nonce_cache = with_limits 100 10;
  nonce_replay_rejected = 0;
  nonce_resource_rejected = 0;
}

abbrev ping : RpcRequest
ping = record {
  version = 1;
  request_id = "018f2f5e-4c44-7b55-9000-000000000001";
  method = probe_controller_ping;
  params = object end;
  issued_at = "1970-01-01T00:01:40Z";
  nonce = "AQIDBAUGBwgJCgsMDQ4PEA";
  deadline_ms = 5000;
  actor = none;
  auth = none;
}

abbrev reply : String → RpcRequest → Option ℕ → Option (Dispatch String)
reply remote request target = some (ok "pong")

abbrev first_result : AgentServerState ℕ × Dispatch (String × String)
first_result =
    validate_and_dispatch_request platform reply state "controller-a" ping (pos 101000000000) 7

first_passes : first_result.1 ≡ ok ("018f2f5e-4c44-7b55-9000-000000000001", "pong")
unfolding validate_and_dispatch_request validate_request validate_nonce validate_issued_at
    check_window as_i64 scale ◌+ℤ◌ ◌-ℤ◌ valid_request_id register_nonce nonce_ttl register_at
    with_limits insert remove dispatch authorize_request authorize_request_method
    classify_request_caller classify method_allowed one_of text_discrete validated_path_probe
    no_params params_are_empty field_count ℕ_discrete
first_passes = refl

abbrev first_reply : String × String
first_reply = ("018f2f5e-4c44-7b55-9000-000000000001", "pong")

result_passed_example :
    (first_reply.0 ≡ ping.request_id)
    × IsWellFormed platform state ping (pos 101000000000)
    × (decision platform reply state "controller-a" ping 7 ≡ NonceDecision.accepted)
    × (method_allowed (classify_request_caller platform state "controller-a") ping.method ≡ true)
    × ((p : Option ℕ) × IsTarget platform state "controller-a" ping p
        × (reply "controller-a" ping p ≡ some (ok first_reply.1)))
result_passed_example =
    result_passed platform reply state "controller-a" ping (pos 101000000000) 7 first_reply
      first_passes

lifetime : nonce_ttl 5000 (pos 60) ≡ 65000000000
unfolding nonce_ttl
lifetime = refl

skew_in_ns : pos_part (seconds (pos 60)) ≡ 60000000000
unfolding scale
skew_in_ns = refl

early :
    (issued : ℤ)
    → some (pos 100000000000) ≡ some issued
    → issued <ℤ pos 101000000000 +ℤ seconds (pos 60)
unfolding scale ◌+ℤ◌
early issued e = ground arith

abbrev another : List (Call platform reply)
another =
    record { remote = "peer-b"; request = ping; now = pos 102000000000; instant = 1000000007 } ∷ []

one_result_example :
    (validate_and_dispatch_request platform reply
      (run platform reply first_result.0 another)
      "controller-a"
      ping
      (pos 103000000000)
      2000000007).1
    ≢ ok first_reply
one_result_example =
    one_result platform reply state "controller-a" ping (pos 101000000000) (pos 103000000000) 7
      2000000007 60 another first_reply first_reply (with_limits-IsValid 100 10) refl (omega arith)
      (omega (arith, lifetime)) first_passes early refl (omega arith)

abbrev at_edge : String → Option ℤ
at_edge s = some (pos 160000000000)

edge_parsed : at_edge "" ≡ some (pos 100000000000 +ℤ seconds (pos 60))
unfolding scale ◌+ℤ◌
edge_parsed = refl

edge_accepted :
    (register_at 18446744073709551615 7 "controller-a" "nonce"
      (nonce_ttl 5000 (pos 60))
      (with_limits 100 10)).1
    ≡ NonceDecision.accepted
unfolding register_at with_limits nonce_ttl insert remove text_discrete
edge_accepted = refl

replay_at_edge_example :
    (validate_issued_at (λ s. true) at_edge "" 5000 (pos 60) (pos 100000000000) ≡ ok tt)
    × (validate_issued_at
          (λ s. true)
          at_edge
          ""
          5000
          (pos 60)
          (deadline_of (λ s. true) at_edge 18446744073709551615 (pos 100000000000) 60 5000)
        ≡ ok tt)
    × ((register_at 18446744073709551615
          (7 + nonce_ttl 5000 (pos 60))
          "controller-a"
          "nonce"
          (nonce_ttl 5000 (pos 60))
          (register_at 18446744073709551615 7 "controller-a" "nonce"
            (nonce_ttl 5000 (pos 60))
            (with_limits 100 10)).0).1
        ≢ NonceDecision.replay)
replay_at_edge_example =
    replay_at_edge (λ s. true) at_edge 18446744073709551615 "" "controller-a" "nonce" 5000 60
      (pos 100000000000) 7 (with_limits 100 10) (omega arith) (omega arith) refl edge_parsed
      (with_limits-IsValid 100 10) (omega (arith, lifetime)) edge_accepted
