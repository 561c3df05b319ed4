-- ===== src/Mcp/State.antt =====
-- internal/mcp/state.go: CheckState and the validation of the arguments; MakeError of
-- internal/domain/errors.go.
use rune_mcp.Prelude.{
  ℕ, zero, Bool, true, false, Option, none, some, [], ◌++◌, String, if◌then◌else◌,
}
use rune_mcp.Prelude.Int.{ℤ, pos, ltb_ℤ, pos_part}
use rune_mcp.Prelude.Json.{Json, Object, end, field}
use rune_mcp.Prelude.Text.{Text, codes, decimal, is_empty, trim_space}
use rune_mcp.Domain.Capture.{CaptureRequest}
use rune_mcp.Domain.Errors.{
  Code, Error, Result, RuneError, err, err_invalid_input, err_pipeline_not_ready, error_text, ok,
  rune, typed, wrap,
}
use rune_mcp.Domain.Query.{RecallArgs}
use rune_mcp.Lifecycle.Boot.{State}

abbrev pub code_text : Code → Text
code_text Code.internal = codes "INTERNAL_ERROR"
code_text Code.vault_connection = codes "VAULT_CONNECTION_ERROR"
code_text Code.vault_decryption = codes "VAULT_DECRYPTION_ERROR"
code_text Code.envector_connection = codes "ENVECTOR_CONNECTION_ERROR"
code_text Code.envector_insert = codes "ENVECTOR_INSERT_ERROR"
code_text Code.pipeline_not_ready = codes "PIPELINE_NOT_READY"
code_text Code.invalid_input = codes "INVALID_INPUT"
code_text Code.topk_limit = codes "TOPK_LIMIT"
code_text Code.embedder_unreachable = codes "EMBEDDER_UNREACHABLE"
code_text Code.empty_embed_text = codes "EMPTY_EMBED_TEXT"
code_text Code.extraction_missing = codes "EXTRACTION_MISSING"

-- `errors.As(err, &runeErr)`: the first of the chain.
unfoldable pub as_rune : Error → Option RuneError
as_rune (rune e) = some e
as_rune (typed a cause) = as_rune cause
as_rune (wrap m e) = as_rune e
as_rune _ = none

module _ {F : Type 0} where
  abbrev hint_field : Text → Object F
  hint_field hint = if is_empty hint then end else field (codes "recovery_hint") (Json.str hint) end

  abbrev pub error_body : Text → Text → Bool → Text → Object F
  error_body code message retryable hint = field (codes "code") (Json.str code) (
      field (codes "message") (Json.str message)
        (field (codes "retryable") (Json.bool retryable) (hint_field hint)))

  abbrev pub failed_object : Object F → Object F
  failed_object body =
      field (codes "ok") (Json.bool false) (field (codes "error") (Json.obj body) end)

  abbrev pub error_of : Option RuneError → Error → Object F
  error_of (some e) whole =
      failed_object (error_body (code_text e.code) e.message e.retryable e.recovery_hint)
  error_of none whole =
      failed_object (error_body (code_text Code.internal) (error_text whole) false [])

  -- MakeError
  unfoldable pub make_error : Error → Object F
  unfolding as_rune
  make_error e = error_of (as_rune e) e

-- withHint
abbrev pub with_hint : RuneError → String → RuneError
with_hint base hint = record base { recovery_hint = codes hint }

-- CheckState; a nil manager is `none`.
unfoldable pub check_state : Option State → Option RuneError
check_state none =
    some (with_hint err_pipeline_not_ready "rune-mcp boot has not been wired (Deps.State == nil).")
check_state (some State.active) = none
check_state (some State.starting) =
    some (with_hint err_pipeline_not_ready "Rune is starting up. Wait 1-2 seconds and retry.")
check_state (some State.waiting_for_vault) = some (
    with_hint err_pipeline_not_ready
      "Waiting for Vault connection. Run /rune:vault_status for diagnostics.")
check_state (some State.dormant) =
    some (with_hint err_pipeline_not_ready "Rune is deactivated. Run /rune:activate to re-enable.")

abbrev has_extracted : {F : Type 0} → Option (Object F) → Bool
has_extracted none = false
has_extracted (some m) = true

-- ValidateCaptureRequest: the request, if it passes.
unfoldable pub validate_capture_request :
    {F : Type 0} → CaptureRequest F → Result (CaptureRequest F)
validate_capture_request req =
    if is_empty (trim_space req.text)
    then err (rune err_invalid_input)
    else if has_extracted req.extracted
    then ok req
    else err (rune err_invalid_input)

abbrev pub max_recall_top_k : ℕ
max_recall_top_k = 50

abbrev pub is_zero : ℤ → Bool
is_zero (pos zero) = true
is_zero _ = false

abbrev pub defaulted : RecallArgs → RecallArgs
defaulted args = if is_zero args.top_k then record args { top_k = pos 5 } else args

abbrev pub top_k_error : ℤ → Error
top_k_error k = rune (record {
  code = Code.invalid_input;
  message =
      codes "top_k "
      ++ (decimal (pos_part k) ++ (codes " exceeds maximum " ++ decimal max_recall_top_k));
  retryable = false;
  recovery_hint = [];
})

abbrev pub capped : RecallArgs → Result RecallArgs
capped args =
    if ltb_ℤ (pos max_recall_top_k) args.top_k then err (top_k_error args.top_k) else ok args

-- ValidateRecallArgs: the arguments with the default of top_k, if they pass.
unfoldable pub validate_recall_args : RecallArgs → Result RecallArgs
validate_recall_args args =
    if is_empty (trim_space args.query)
    then err (rune err_invalid_input)
    else capped (defaulted args)
