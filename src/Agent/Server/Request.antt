-- ===== src/Agent/Server/Request.antt =====
-- The checks of a request that look at the request alone: its fields and its params.
use ocserv_fleet_agent.Common.{
  none, some, ℕ, String, Bool, Option, leb, List, length, true, ◌&&◌, ◌∷◌, codes, ◌==◌, ◌>>=◌, ◌||◌,
  if◌then◌else◌, false, ok_or, ◌+◌, ◌>>◌, reject, [], not, is_some, err,
}
use ocserv_fleet_agent.Protocol.Json.{Value, null, object, field_count, get, as_object, as_str}
use ocserv_fleet_agent.Protocol.Error.{params_invalid}
use ocserv_fleet_agent.Agent.Server.Refusal.{Dispatch, refusal}

-- `RpcRequest` of crates/ocfleet-protocol/src/rpc.rs.
pub record RpcRequest : Type 0 where
  pub version : ℕ
  pub request_id : String
  pub method : String
  pub params : Value
  pub issued_at : String
  pub nonce : String
  pub deadline_ms : ℕ
  pub actor : Option String
  pub auth : Option Value

abbrev pub protocol_version : ℕ
protocol_version = 1

abbrev pub is_ascii_hexdigit : ℕ → Bool
is_ascii_hexdigit b =
    (leb b'0' b && leb b b'9') || (leb b'a' b && leb b b'f') || (leb b'A' b && leb b b'F')

-- The loop of `valid_request_id`, from an index on.
unfoldable pub valid_id_bytes : ℕ → List ℕ → Bool
valid_id_bytes index [] = true
valid_id_bytes index (b ∷ bs) =
    (if index == 8 || index == 13 || index == 18 || index == 23
      then b == b'-'
      else is_ascii_hexdigit b)
    && valid_id_bytes (index + 1) bs

-- A text that is not ASCII is refused on its bytes as on its characters.
unfoldable pub valid_request_id : String → Bool
unfolding valid_id_bytes
valid_request_id value = length (codes value) == 36 && valid_id_bytes 0 (codes value)

unfoldable pub params_are_empty : Value → Bool
params_are_empty null = true
params_are_empty (object fs) = field_count fs == 0
params_are_empty _ = false

-- The target of a path echo, or `params_invalid`.
unfoldable pub validate_path_echo_params :
    {EndpointId : Type 0} → (String → Option EndpointId) → Value → String → Dispatch EndpointId
unfolding get field_count as_object as_str
validate_path_echo_params parse_endpoint_id params request_id = do
  fields ← ok_or (as_object params) (refusal request_id params_invalid)
  reject (not (field_count fields == 1) || not (is_some (get "target_agent_endpoint_id" fields)))
      (refusal request_id params_invalid)
  target ← elim (get "target_agent_endpoint_id" fields) [
    | none ↦ err (refusal request_id params_invalid)
    | some v ↦ ok_or (as_str v) (refusal request_id params_invalid)
  ]
  ok_or (parse_endpoint_id target) (refusal request_id params_invalid)
