-- ===== src/Protocol/Error.antt =====
-- crates/ocfleet-protocol/src/error.rs: the codes of refusals.
pub data ErrorCode : Type 0 where
  frame_too_large frame_read_failed invalid_json invalid_version invalid_request_id : ErrorCode
  invalid_timestamp request_expired clock_skew_exceeded invalid_nonce replayed_nonce : ErrorCode
  invalid_deadline params_invalid unsupported_auth_scheme response_too_large : ErrorCode
  invalid_response endpoint_not_allowed endpoint_mismatch node_not_found node_disabled : ErrorCode
  method_not_found method_not_allowed connect_failed rpc_timeout audit_write_failed : ErrorCode
  resource_exhausted sqlite_error sqlite_busy_timeout schema_migration_failed : ErrorCode
  schema_version_unsupported config_load_failed secret_key_load_failed : ErrorCode
  secret_key_permission_invalid ocserv_readonly_disabled ocserv_provider_unavailable : ErrorCode
  ocserv_provider_invalid_data ocserv_provider_unsafe_source ocserv_output_bound_exceeded :
      ErrorCode
  ocserv_unsupported_field internal_error : ErrorCode
