-- ===== src/Adapters/Grpc.antt =====
-- The errors that the three adapters make of the errors of their calls: MapGRPCError of
-- internal/adapters/vault/errors.go and of embedder/errors.go, MapSDKError of envector/errors.go.
pub mod Laws
use rune_mcp.Prelude.{Bool, true, false, ◌&&◌, Option, none, some, [], ◌++◌, String, if◌then◌else◌}
use rune_mcp.Prelude.Text.{Text, codes, contains}
use rune_mcp.Domain.Errors.{
  Adapter, AdapterError, Error, GrpcCode, Sentinel, as_status, error_text, is_sentinel,
  status_message, typed,
}

abbrev pub made : Adapter → String → Text → Bool → Error → Error
made k code message retryable e =
    typed (record { adapter = k; code = codes code; message = message; retryable = retryable }) e

-- The message of a top_k over the limit of the token's role.
abbrev pub is_topk_message : Text → Bool
is_topk_message m = contains m (codes "top_k") && contains m (codes "exceeds limit")

abbrev pub vault_status : GrpcCode → Error → Error
vault_status GrpcCode.unauthenticated e =
    made Adapter.vault "VAULT_AUTH_FAILED" (status_message e) false e
vault_status GrpcCode.permission_denied e =
    made Adapter.vault "VAULT_PERMISSION_DENIED" (status_message e) false e
vault_status GrpcCode.invalid_argument e =
    if is_topk_message (status_message e)
    then made Adapter.vault "VAULT_TOPK_EXCEEDED" (status_message e) false e
    else made Adapter.vault "VAULT_INVALID_INPUT" (status_message e) false e
vault_status GrpcCode.resource_exhausted e =
    made Adapter.vault "VAULT_RATE_LIMITED" (status_message e) true e
vault_status GrpcCode.not_found e =
    made Adapter.vault "VAULT_KEY_NOT_FOUND" (status_message e) false e
vault_status GrpcCode.unavailable e =
    made Adapter.vault "VAULT_UNAVAILABLE" (status_message e) true e
vault_status GrpcCode.deadline_exceeded e =
    made Adapter.vault "VAULT_TIMEOUT" (status_message e) true e
vault_status _ e = made Adapter.vault "VAULT_INTERNAL" (status_message e) true e

abbrev pub vault_mapped : Option GrpcCode → Error → Error
vault_mapped none e = made Adapter.vault "VAULT_INTERNAL" (error_text e) true e
vault_mapped (some c) e = vault_status c e

unfoldable pub map_vault_error : Error → Error
map_vault_error e = vault_mapped (as_status e) e

abbrev pub embedder_status : GrpcCode → Error → Error
embedder_status GrpcCode.unavailable e =
    made Adapter.embedder "EMBEDDER_UNAVAILABLE" (status_message e) true e
embedder_status GrpcCode.resource_exhausted e =
    made Adapter.embedder "EMBEDDER_UNAVAILABLE" (status_message e) true e
embedder_status GrpcCode.deadline_exceeded e =
    made Adapter.embedder "EMBEDDER_TIMEOUT" (status_message e) true e
embedder_status _ e = made Adapter.embedder "EMBEDDER_INTERNAL" (status_message e) false e

abbrev pub embedder_mapped : Option GrpcCode → Error → Error
embedder_mapped none e = made Adapter.embedder "EMBEDDER_INTERNAL" (error_text e) false e
embedder_mapped (some c) e = embedder_status c e

unfoldable pub map_embedder_error : Error → Error
map_embedder_error e = embedder_mapped (as_status e) e

abbrev pub envector_internal : Error → Error
envector_internal e = made Adapter.envector "ENVECTOR_INTERNAL" (error_text e) false e

abbrev pub envector_status : GrpcCode → Error → Error
envector_status GrpcCode.unavailable e =
    made Adapter.envector "ENVECTOR_CONNECTION_LOST" (status_message e) true e
envector_status GrpcCode.deadline_exceeded e =
    made Adapter.envector "ENVECTOR_CONNECTION_LOST" (status_message e) true e
envector_status GrpcCode.resource_exhausted e =
    made Adapter.envector "ENVECTOR_CONNECTION_LOST"
      (codes "resource exhausted: " ++ status_message e) true e
envector_status GrpcCode.unauthenticated e =
    made Adapter.envector "ENVECTOR_AUTH_FAILED" (status_message e) false e
envector_status _ e = envector_internal e

abbrev pub envector_mapped : Option GrpcCode → Error → Error
envector_mapped none e = envector_internal e
envector_mapped (some c) e = envector_status c e

-- MapSDKError
unfoldable pub map_sdk_error : Error → Error
map_sdk_error e =
    if is_sentinel Sentinel.keys_not_for_encrypt e
    then made Adapter.envector "DECRYPTOR_UNAVAILABLE" (error_text e) false e
    else if is_sentinel Sentinel.keys_not_for_decrypt e
    then made Adapter.envector "DECRYPTOR_UNAVAILABLE" (error_text e) false e
    else if is_sentinel Sentinel.keys_not_for_register e
    then made Adapter.envector "KEY_NOT_FOR_REGISTER" (error_text e) false e
    else if is_sentinel Sentinel.client_closed e
    then made Adapter.envector "ENVECTOR_CONNECTION_LOST" (error_text e) true e
    else if is_sentinel Sentinel.keys_not_found e
    then made Adapter.envector "ENVECTOR_KEYS_NOT_FOUND" (error_text e) false e
    else if is_sentinel Sentinel.keys_required e
    then made Adapter.envector "ENVECTOR_KEYS_REQUIRED" (error_text e) false e
    else envector_mapped (as_status e) e
