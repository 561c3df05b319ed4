-- ===== src/Mcp/Tools.antt =====
-- internal/mcp/handlers.go: the handlers of the lifecycle tools. Only the deletion is gated.
use rune_mcp.Prelude.{Bool, Option}
use rune_mcp.Prelude.Float.{Float}
use rune_mcp.Prelude.Json.{Object}
use rune_mcp.Prelude.Text.{Text}
use rune_mcp.Adapters.AesCtr.{Bytes, Crypto}
use rune_mcp.Adapters.CaptureLog.{LogFile}
use rune_mcp.Domain.Calendar.{Calendar, Time}
use rune_mcp.Domain.Capture.{CaptureLogEntry}
use rune_mcp.Domain.Errors.{Error, Result, ok}
use rune_mcp.Lifecycle.Boot.{State}
use rune_mcp.Mcp.Handlers.{CallToolResult, gated, respond}
use rune_mcp.Service.Backend.{Action, Backend}
use rune_mcp.Service.Capture.{AgentKey}
use rune_mcp.Service.Lifecycle.Activate.{ActivateResult, activate}
use rune_mcp.Service.Lifecycle.Configure.{ConfigureArgs, ConfigureResult, configure}
use rune_mcp.Service.Lifecycle.Delete.{DeleteCaptureResult, delete_capture}
use rune_mcp.Service.Lifecycle.Diagnostics.{DiagnosticsResult, KeyState, diagnostics}
use rune_mcp.Service.Lifecycle.Diagnostics.Envector.{ProbeEnd}
use rune_mcp.Service.Lifecycle.History.{CaptureHistoryArgs, CaptureHistoryResult, capture_history}
use rune_mcp.Service.Lifecycle.Host.{Host}
use rune_mcp.Service.Lifecycle.Status.{VaultStatusResult, vault_status}
use rune_mcp.Service.Lifecycle.Reload.{ReloadPipelinesResult, reload_pipelines}

module _ ⦃fl : Float⦄ ⦃cal : Calendar⦄ (b : Backend fl.F) (crypto : Crypto b.W)
    (marshal_map : Object fl.F → Text) (marshal_record : Object fl.F → Result Text)
    (utf8 : Text → Bytes) (append_log : CaptureLogEntry fl.F → b.W → b.W) where
  unfoldable pub handle_delete_capture :
      Option State
      → (DeleteCaptureResult → Text × Option Error)
      → Option AgentKey
      → Text
      → Time
      → Action b.W (CallToolResult × Option DeleteCaptureResult)
  handle_delete_capture state marshal key id now =
      respond marshal_map marshal
        (gated state (delete_capture b crypto marshal_record utf8 append_log key id now))

module _ {F W : Type 0} (marshal_map : Object F → Text) where
  unfoldable pub handle_capture_history :
      (CaptureHistoryResult F → Text × Option Error)
      → (W → LogFile × W)
      → (Text → Option (CaptureLogEntry F))
      → (Text → Bool)
      → (CaptureLogEntry F → Object F)
      → CaptureHistoryArgs
      → Action W (CallToolResult × Option (CaptureHistoryResult F))
  handle_capture_history marshal read parse too_long to_map args =
      respond marshal_map marshal (capture_history read parse too_long to_map args)

  -- A service method without an error.
  abbrev pub always : {A : Type 0} → (W → A × W) → Action W A
  always f w = (ok (f w).0, (f w).1)

  module _ (h : Host W) where
    unfoldable pub handle_vault_status :
        (VaultStatusResult → Text × Option Error)
        → Action W (CallToolResult × Option VaultStatusResult)
    handle_vault_status marshal = respond marshal_map marshal (always (vault_status h))

    unfoldable pub handle_diagnostics :
        (DiagnosticsResult → Text × Option Error)
        → (W → ProbeEnd × W)
        → KeyState
        → Action W (CallToolResult × Option DiagnosticsResult)
    handle_diagnostics marshal probe keys = respond marshal_map marshal (diagnostics h probe keys)

    unfoldable pub handle_configure :
        (ConfigureResult → Text × Option Error)
        → (ConfigureArgs → W → Option Error × W)
        → ConfigureArgs
        → Action W (CallToolResult × Option ConfigureResult)
    handle_configure marshal probe args = respond marshal_map marshal (configure h probe args)

    unfoldable pub handle_activate :
        (ActivateResult → Text × Option Error) → Action W (CallToolResult × Option ActivateResult)
    handle_activate marshal = respond marshal_map marshal (activate h)

    unfoldable pub handle_reload_pipelines :
        (ReloadPipelinesResult → Text × Option Error)
        → Action W (CallToolResult × Option ReloadPipelinesResult)
    handle_reload_pipelines marshal = respond marshal_map marshal (always (reload_pipelines h))
