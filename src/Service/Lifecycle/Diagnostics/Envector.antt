-- ===== src/Service/Lifecycle/Diagnostics/Envector.antt =====
-- The probe of enVector: probeEnvector's answer, and ClassifyEnvectorError of
-- internal/service/diagnostics_classify.go. Times are in milliseconds.
use rune_mcp.Prelude.{ℕ, Bool, true, false, Option, none, some, [], ◌++◌}
use rune_mcp.Prelude.Text.{Text, codes, decimal}
use rune_mcp.Domain.Errors.{Error, GrpcCode, as_status, error_text}

pub data EnvectorErrorType : Type 0 where
  connection_refused auth_failure deadline_exceeded timed_out unknown_error : EnvectorErrorType

pub record EnvectorInfo : Type 0 where
  pub reachable : Bool
  pub latency_ms : ℕ
  pub error : Text
  pub error_type : Option EnvectorErrorType
  pub elapsed_ms : ℕ
  pub hint : Text

abbrev pub no_envector : EnvectorInfo
no_envector = record {
  reachable = false;
  latency_ms = 0;
  error = [];
  error_type = none;
  elapsed_ms = 0;
  hint = [];
}

-- ClassifyEnvectorError, of a gRPC code.
abbrev pub status_error : GrpcCode → EnvectorErrorType × Text
status_error GrpcCode.unavailable = (
  EnvectorErrorType.connection_refused,
  codes "enVector cluster appears unreachable from this host - check network connectivity",
)
status_error GrpcCode.unauthenticated = (
  EnvectorErrorType.auth_failure,
  codes "enVector API key was rejected - contact your Vault administrator",
)
status_error GrpcCode.deadline_exceeded = (
  EnvectorErrorType.deadline_exceeded,
  codes "enVector gRPC deadline exceeded - check network latency to the cluster",
)
status_error _ = (
  EnvectorErrorType.unknown_error,
  codes "enVector probe failed after recovery attempt - check network connectivity",
)

abbrev pub status_error_or : Option GrpcCode → Error → ℕ → EnvectorErrorType × Text
status_error_or none e elapsed = (
  EnvectorErrorType.unknown_error,
  codes "Unexpected envector error (" ++ (decimal elapsed ++ (codes ".0ms): " ++ error_text e)),
)
status_error_or (some c) e elapsed = status_error c

unfoldable pub classify_envector_error : Error → ℕ → EnvectorErrorType × Text
classify_envector_error e elapsed = status_error_or (as_status e) e elapsed

-- What the probe of enVector ends with: the call's answer, or the timeout in seconds.
pub data ProbeEnd : Type 0 where
  answered : Option Error → ProbeEnd
  timed_out_after : ℕ → ProbeEnd

unfoldable pub envector_info : ProbeEnd → ℕ → EnvectorInfo
unfolding classify_envector_error
envector_info (answered none) elapsed = record no_envector {
  reachable = true;
  latency_ms = elapsed;
}
envector_info (answered (some e)) elapsed =
    let (kind, hint) = classify_envector_error e elapsed in
    record no_envector {
      error = error_text e;
      error_type = some kind;
      hint = hint;
      elapsed_ms = elapsed;
    }
envector_info (timed_out_after s) elapsed = record no_envector {
  error =
      codes "Health check timed out after "
      ++ (decimal s ++ (codes "s (elapsed: " ++ (decimal elapsed ++ codes ".0ms).")));
  error_type = some EnvectorErrorType.timed_out;
  elapsed_ms = elapsed;
}
