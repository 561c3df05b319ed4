-- ===== src/Domain/Errors.antt =====
-- internal/domain/errors.go: the error taxonomy of the tools, and Go's `(value, error)` results.
use rune_mcp.Prelude.{Bool, true, false, Option, none, some, [], ◌++◌, String, if◌then◌else◌}
use rune_mcp.Prelude.Text.{Text, codes, is_empty}

-- The codes (`Code…`).
pub data Code : Type 0 where
  internal vault_connection vault_decryption envector_connection envector_insert : Code
  pipeline_not_ready invalid_input topk_limit embedder_unreachable : Code
  empty_embed_text extraction_missing : Code

pub record RuneError : Type 0 where
  pub code : Code
  pub message : Text
  pub retryable : Bool
  pub recovery_hint : Text

-- The predefined errors (`Err…`): a code and whether a retry may help.
abbrev predefined : Code → Bool → RuneError
predefined c r = record { code = c; message = []; retryable = r; recovery_hint = [] }

abbrev pub err_internal : RuneError
err_internal = predefined Code.internal false

abbrev pub err_pipeline_not_ready : RuneError
err_pipeline_not_ready = predefined Code.pipeline_not_ready false

abbrev pub err_invalid_input : RuneError
err_invalid_input = predefined Code.invalid_input false

abbrev pub err_extraction_missing : RuneError
err_extraction_missing = predefined Code.extraction_missing false

-- The status codes of gRPC.
pub data GrpcCode : Type 0 where
  grpc_ok cancelled unknown_code invalid_argument deadline_exceeded not_found : GrpcCode
  already_exists permission_denied resource_exhausted failed_precondition aborted : GrpcCode
  out_of_range unimplemented internal_code unavailable data_loss unauthenticated : GrpcCode

-- The sentinel errors of the enVector SDK.
pub data Sentinel : Type 0 where
  sdk_already_exists keys_not_for_encrypt keys_not_for_decrypt keys_not_for_register : Sentinel
  client_closed keys_not_found keys_required : Sentinel

pub data Adapter : Type 0 where
  vault envector embedder : Adapter

-- The `Error` struct of the three adapters, without its cause.
pub record AdapterError : Type 0 where
  pub adapter : Adapter
  pub code : Text
  pub message : Text
  pub retryable : Bool

-- An `error` value: one of the program's structs, a gRPC status (code, message and error text), a
-- sentinel, another error with its message, or one of these under a `%w` wrap.
pub data Error : Type 0 where
  rune : RuneError → Error
  typed : AdapterError → Error → Error
  grpc : GrpcCode → Text → Text → Error
  sentinel : Sentinel → Text → Error
  wrap : Text → Error → Error
  other : Text → Error

abbrev pub same_adapter : Adapter → Adapter → Bool
same_adapter Adapter.vault Adapter.vault = true
same_adapter Adapter.envector Adapter.envector = true
same_adapter Adapter.embedder Adapter.embedder = true
same_adapter _ _ = false

-- `errors.As(err, &e)` for an adapter's error: the first of the chain.
unfoldable pub as_adapter : Adapter → Error → Option AdapterError
as_adapter k (typed a cause) = if same_adapter a.adapter k then some a else as_adapter k cause
as_adapter k (wrap m e) = as_adapter k e
as_adapter k _ = none

-- `status.FromError(err)`: the code of the first gRPC status of the chain, if there is one.
unfoldable pub as_status : Error → Option GrpcCode
as_status (grpc c m t) = some c
as_status (typed a cause) = as_status cause
as_status (wrap m e) = as_status e
as_status _ = none

abbrev pub same_sentinel : Sentinel → Sentinel → Bool
same_sentinel Sentinel.sdk_already_exists Sentinel.sdk_already_exists = true
same_sentinel Sentinel.keys_not_for_encrypt Sentinel.keys_not_for_encrypt = true
same_sentinel Sentinel.keys_not_for_decrypt Sentinel.keys_not_for_decrypt = true
same_sentinel Sentinel.keys_not_for_register Sentinel.keys_not_for_register = true
same_sentinel Sentinel.client_closed Sentinel.client_closed = true
same_sentinel Sentinel.keys_not_found Sentinel.keys_not_found = true
same_sentinel Sentinel.keys_required Sentinel.keys_required = true
same_sentinel _ _ = false

-- `errors.Is(err, sentinel)`
unfoldable pub is_sentinel : Sentinel → Error → Bool
is_sentinel k (sentinel s m) = same_sentinel s k
is_sentinel k (typed a cause) = is_sentinel k cause
is_sentinel k (wrap m e) = is_sentinel k e
is_sentinel k _ = false

-- The message of an adapter's error (`Error()`).
unfoldable pub adapter_text : AdapterError → Text
adapter_text a = if is_empty a.message then a.code else a.code ++ (codes ": " ++ a.message)

-- `err.Error()`
unfoldable pub error_text : Error → Text
unfolding adapter_text
error_text (rune e) = e.message
error_text (typed a cause) = adapter_text a
error_text (grpc c m t) = t
error_text (sentinel s m) = m
error_text (wrap m e) = m ++ (codes ": " ++ error_text e)
error_text (other m) = m

-- The message of `status.FromError(err)`: the status' own, or the error text where it is wrapped.
unfoldable pub status_message : Error → Text
unfolding error_text
status_message (grpc c m t) = m
status_message e = error_text e

-- The outcome of a call: a value, an error, or a run-time panic.
pub data Result {ℓ} (A : Type ℓ) : Type ℓ where
  ok : A → Result A
  err : Error → Result A
  panic : Result A

infixl 5 ◌>>=◌
abbrev pub ◌>>=◌ {ℓ κ} : {A : Type ℓ} {B : Type κ} → Result A → (A → Result B) → Result B
ok a >>= f = f a
err e >>= f = err e
panic >>= f = panic

-- A `&RuneError{Code: CodeInvalidInput, Message: …}`.
abbrev pub invalid_input_error : String → Error
invalid_input_error m =
    rune (record {
      code = Code.invalid_input;
      message = codes m;
      retryable = false;
      recovery_hint = [];
    })
