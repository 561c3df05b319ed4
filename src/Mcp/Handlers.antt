-- ===== src/Mcp/Handlers.antt =====
-- internal/mcp/handlers.go and result.go: the handlers of the tools over their services.
pub mod Laws
use rune_mcp.Prelude.{Bool, true, false, Option, none, some, List, [], ◌++◌, if◌then◌else◌}
use rune_mcp.Prelude.Float.{Float}
use rune_mcp.Prelude.Json.{Json, Object}
use rune_mcp.Prelude.Text.{Text, Unicode, codes}
use rune_mcp.Adapters.AesCtr.{Crypto}
use rune_mcp.Domain.Calendar.{Calendar, Time}
use rune_mcp.Domain.Capture.{CaptureRequest, CaptureResponse}
use rune_mcp.Domain.Errors.{Code, Error, Result, RuneError, err, error_text, ok, panic, rune}
use rune_mcp.Domain.Query.{RecallArgs, RecallResult}
use rune_mcp.Lifecycle.Boot.{State}
use rune_mcp.Mcp.State.{check_state, make_error, validate_capture_request, validate_recall_args}
use rune_mcp.Policy.Regexp.{Regexp}
use rune_mcp.Service.Backend.{Action, Backend, either, fail, lift, pure, ◌>>=◌}
use rune_mcp.Service.Capture.{AgentKey, Recorder, capture}
use rune_mcp.Service.Capture.Batch.{BatchCaptureArgs, BatchCaptureResult, batch}
use rune_mcp.Service.Recall.Flow.{Walk, recall}

-- CallToolResult, with its one text.
pub record CallToolResult : Type 0 where
  pub is_error : Bool
  pub content : Text

module _ {F : Type 0} (marshal_map : Object F → Text) where
  -- errorResult; json.Marshal of MakeError's map does not fail.
  abbrev pub error_result : Error → CallToolResult
  error_result e = record { is_error = true; content = marshal_map (make_error e) }

  abbrev pub marshal_error : Error → Error
  marshal_error e = rune (record {
    code = Code.internal;
    message = codes "failed to marshal result: " ++ error_text e;
    retryable = false;
    recovery_hint = [];
  })

  -- okResult, of the body and the error that json.Marshal returns.
  abbrev pub ok_result : Text × Option Error → CallToolResult
  ok_result (body, none) = record { is_error = false; content = body }
  ok_result (body, some e) = error_result (marshal_error e)

  module _ {W A : Type 0} (marshal : A → Text × Option Error) where
    abbrev pub answered : A → Action W (CallToolResult × Option A)
    answered out = pure (ok_result (marshal out), some out)

    abbrev pub refused : Error → Action W (CallToolResult × Option A)
    refused e = pure (error_result e, none)

    -- The end of every handler: the error as a result, or the answer with its structured content.
    unfoldable pub respond : Action W A → Action W (CallToolResult × Option A)
    respond act = either act answered refused

abbrev pub gate : {W A : Type 0} → Option RuneError → Action W A → Action W A
gate none act = act
gate (some e) act = fail (rune e)

-- The check of the state before a write tool.
unfoldable pub gated : {W A : Type 0} → Option State → Action W A → Action W A
gated state act = gate (check_state state) act

module _ ⦃fl : Float⦄ ⦃u : Unicode⦄ ⦃rx : Regexp⦄ ⦃cal : Calendar⦄ (b : Backend fl.F)
    (marshal_map : Object fl.F → Text) (state : Option State) where
  unfoldable pub handle_recall :
      (RecallResult fl.F → Text × Option Error)
      → Walk fl.F
      → RecallArgs
      → Time
      → Action b.W (CallToolResult × Option (RecallResult fl.F))
  handle_recall marshal walk args now =
      respond marshal_map marshal
        (gated state (lift (validate_recall_args args) >>= λ args. recall b walk args now))

  module _ (crypto : Crypto b.W) (rec : Recorder fl.F b.W) (key : AgentKey) where
    unfoldable pub handle_capture :
        (CaptureResponse fl.F → Text × Option Error)
        → CaptureRequest fl.F
        → Time
        → Time
        → Action b.W (CallToolResult × Option (CaptureResponse fl.F))
    handle_capture marshal req now later = respond marshal_map marshal (
        gated state
          (lift (validate_capture_request req) >>= λ req. capture b crypto rec key req now later))

    unfoldable pub handle_batch_capture :
        (BatchCaptureResult → Text × Option Error)
        → (Text → Option (List (Option (Object fl.F))))
        → BatchCaptureArgs
        → Time
        → Time
        → Action b.W (CallToolResult × Option BatchCaptureResult)
    handle_batch_capture marshal parse_items args now later =
        respond marshal_map marshal
          (gated state (batch (λ req. capture b crypto rec key req now later) parse_items args))
