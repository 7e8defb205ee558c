-- ===== src/Protocol/Errors.antt =====
-- packages/protocol/src/types/errors.ts: the error codes, their HTTP statuses and the payloads. An
-- error's `details`, `cause`, stack and request id are not modelled.
use desired_state_protocol.Common.{ℕ, Bool, false, JsString, js}

pub data DspErrorCode : Type 0 where
  validation_failed schema_validation_failed immutable_field_changed unknown_kind : DspErrorCode
  unknown_resource_type provider_not_found provider_error provider_timeout : DspErrorCode
  secret_not_found secret_access_denied policy_denied contract_violated : DspErrorCode
  contract_predicate_invalid approval_required approval_invalid plan_not_found : DspErrorCode
  plan_expired plan_not_executable plan_hash_mismatch state_drift_detected : DspErrorCode
  operation_not_found operation_already_running idempotency_key_required : DspErrorCode
  idempotency_key_conflict destructive_action_blocked field_ownership_conflict : DspErrorCode
  dependency_cycle_detected document_too_large document_too_deep too_many_resources : DspErrorCode
  too_many_changes unsupported_operation not_implemented unauthorized forbidden : DspErrorCode
  cancelled verification_failed internal_error : DspErrorCode

unfoldable pub default_http_status_for : DspErrorCode → ℕ
default_http_status_for validation_failed = 422
default_http_status_for schema_validation_failed = 422
default_http_status_for immutable_field_changed = 422
default_http_status_for unknown_kind = 404
default_http_status_for unknown_resource_type = 404
default_http_status_for provider_not_found = 404
default_http_status_for provider_error = 502
default_http_status_for provider_timeout = 504
default_http_status_for secret_not_found = 400
default_http_status_for secret_access_denied = 403
default_http_status_for policy_denied = 403
default_http_status_for contract_violated = 422
default_http_status_for contract_predicate_invalid = 422
default_http_status_for approval_required = 409
default_http_status_for approval_invalid = 409
default_http_status_for plan_not_found = 404
default_http_status_for plan_expired = 409
default_http_status_for plan_not_executable = 409
default_http_status_for plan_hash_mismatch = 409
default_http_status_for state_drift_detected = 409
default_http_status_for operation_not_found = 404
default_http_status_for operation_already_running = 409
default_http_status_for idempotency_key_required = 400
default_http_status_for idempotency_key_conflict = 409
default_http_status_for destructive_action_blocked = 403
default_http_status_for field_ownership_conflict = 409
default_http_status_for dependency_cycle_detected = 422
default_http_status_for document_too_large = 413
default_http_status_for document_too_deep = 422
default_http_status_for too_many_resources = 422
default_http_status_for too_many_changes = 422
default_http_status_for unsupported_operation = 501
default_http_status_for not_implemented = 501
default_http_status_for unauthorized = 401
default_http_status_for forbidden = 403
default_http_status_for cancelled = 409
default_http_status_for verification_failed = 200
default_http_status_for internal_error = 500

-- A `DSPError`: its code, message and `retryable` flag.
pub record DspError : Type 0 where
  pub code : DspErrorCode
  pub message : JsString
  pub retryable : Bool

-- `new DSPError(code, message)`: not retryable unless the options say so.
abbrev pub dsp_error : DspErrorCode → JsString → DspError
dsp_error code message = record { code = code; message = message; retryable = false }

-- Why a call gives no value. It throws, a DSP error or any other value, or, as `unsettled`, what it
-- awaits never settles: nothing behind it runs, and no `catch` sees that.
pub data Thrown : Type 0 where
  dsp : DspError → Thrown
  other : Thrown
  unsettled : Thrown

-- What a call comes to: the value it returns, or why there is none.
pub data Result (A : Type 0) : Type 0 where
  return : A → Result A
  throw : Thrown → Result A

pub record ErrorPayload : Type 0 where
  pub code : DspErrorCode
  pub message : JsString
  pub retryable : Bool

unfoldable pub to_error_payload : Thrown → ErrorPayload
to_error_payload (dsp e) = record { code = e.code; message = e.message; retryable = e.retryable }
to_error_payload _ = record {
  code = internal_error;
  message = js "An unexpected internal error occurred";
  retryable = false;
}

-- `DSPError.isDSPError(e) && e.retryable`
unfoldable pub is_retryable : Thrown → Bool
is_retryable (dsp e) = e.retryable
is_retryable _ = false
