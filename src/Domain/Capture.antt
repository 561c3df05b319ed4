-- ===== src/Domain/Capture.antt =====
-- internal/domain/capture.go, and the log entry of internal/domain/logio.go.
use rune_mcp.Prelude.{Bool, Option}
use rune_mcp.Prelude.Json.{Object}
use rune_mcp.Prelude.Text.{Text}
use rune_mcp.Domain.Record.{Domain}
use rune_mcp.Policy.Novelty.{NoveltyClass, NoveltyInfo}

-- A nil `extracted` is `none`.
pub record CaptureRequest (F : Type 0) : Type 0 where
  pub text : Text
  pub source : Text
  pub user : Text
  pub channel : Text
  pub extracted : Option (Object F)

pub record CaptureResponse (F : Type 0) : Type 0 where
  pub okay : Bool
  pub captured : Bool
  pub record_id : Text
  pub title : Text
  pub domain : Option Domain
  pub reason : Text
  pub novelty : Option (NoveltyInfo F)

pub record CaptureLogEntry (F : Type 0) : Type 0 where
  pub ts : Text
  pub action : Text
  pub id : Text
  pub title : Text
  pub domain : Text
  pub mode : Text
  pub novelty_class : Option NoveltyClass
  pub novelty_score : Option F
