-- ===== src/Service/Lifecycle/History.antt =====
-- CaptureHistory: the newest entries of the capture log.
use rune_mcp.Prelude.{ℕ, Bool, true, Option, List, [], length, map}
use rune_mcp.Prelude.Int.{ℤ, pos}
use rune_mcp.Prelude.Json.{Object}
use rune_mcp.Prelude.Text.{Text}
use rune_mcp.Adapters.CaptureLog.{LogFile, clamp_limit, tail}
use rune_mcp.Domain.Capture.{CaptureLogEntry}
use rune_mcp.Domain.Errors.{Result, err, ok, panic}
use rune_mcp.Service.Backend.{Action, pure}

pub record CaptureHistoryArgs : Type 0 where
  pub limit : ℤ
  pub domain : Option Text
  pub since : Option Text

pub record CaptureHistoryResult (F : Type 0) : Type 0 where
  pub okay : Bool
  pub count : ℕ
  pub entries : List (Object F)

-- `parse` reads a line of the log, and `too_long` is a line beyond the scanner's buffer; `to_map` is json.Marshal and Unmarshal of an entry.
module _ {F W : Type 0} (read : W → LogFile × W) (parse : Text → Option (CaptureLogEntry F))
    (too_long : Text → Bool) (to_map : CaptureLogEntry F → Object F) where
  -- A log that cannot be read is shown as an empty one.
  abbrev pub history_of : Result (List (CaptureLogEntry F)) → Action W (CaptureHistoryResult F)
  history_of (ok es) w =
      pure (record { okay = true; count = length (map to_map es); entries = map to_map es }) w
  history_of (err e) w = pure (record { okay = true; count = 0; entries = [] }) w
  history_of panic w = (panic, w)

  -- The limit is clamped here and in Tail.
  unfoldable pub capture_history : CaptureHistoryArgs → Action W (CaptureHistoryResult F)
  capture_history args w =
      history_of
        (tail parse args.domain args.since too_long (pos (clamp_limit args.limit)) (read w).0)
        (read w).1
