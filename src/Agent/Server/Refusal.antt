-- ===== src/Agent/Server/Refusal.antt =====
-- `RequestDispatchError` without its message and details, which are texts for the reader.
use ocserv_fleet_agent.Common.{Option, String, Result, some}
use ocserv_fleet_agent.Protocol.Error.{ErrorCode}

pub record RequestDispatchError : Type 0 where
  pub request_id : Option String
  pub code : ErrorCode

abbrev pub Dispatch : Type 0 → Type 0
Dispatch A = Result RequestDispatchError A

abbrev pub refusal : String → ErrorCode → RequestDispatchError
refusal request_id code = record { request_id = some request_id; code = code }
