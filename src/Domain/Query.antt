-- ===== src/Domain/Query.antt =====
-- internal/domain/query.go: the types of a recall.
use rune_mcp.Prelude.{ℕ, Bool, Option, List}
use rune_mcp.Prelude.Int.{ℤ}
use rune_mcp.Prelude.Json.{Object}
use rune_mcp.Prelude.Text.{Text}

pub data QueryIntent : Type 0 where
  decision_rationale feature_history pattern_lookup technical_context : QueryIntent
  security_compliance historical_context attribution general : QueryIntent

pub data TimeScope : Type 0 where
  last_week last_month last_quarter last_year all_time : TimeScope

pub record ParsedQuery : Type 0 where
  pub original : Text
  pub cleaned : Text
  pub intent : QueryIntent
  pub time_scope : TimeScope
  pub entities : List Text
  pub keywords : List Text
  pub expanded_queries : List Text

pub record RecallArgs : Type 0 where
  pub query : Text
  pub top_k : ℤ
  pub domain : Option Text
  pub status : Option Text
  pub since : Option Text

pub record RecallEntry (F : Type 0) : Type 0 where
  pub record_id : Text
  pub title : Text
  pub domain : Text
  pub certainty : Text
  pub status : Text
  pub score : F
  pub adjusted_score : F
  pub reusable_insight : Text
  pub payload_text : Text
  pub group_id : Option Text
  pub group_type : Option Text
  pub phase_seq : Option ℤ
  pub phase_total : Option ℤ

pub record RecallSource : Type 0 where
  pub record_id : Text
  pub title : Text

-- Without `error`, which no code sets.
pub record RecallResult (F : Type 0) : Type 0 where
  pub okay : Bool
  pub found : ℕ
  pub results : List (RecallEntry F)
  pub confidence : F
  pub sources : List RecallSource
  pub synthesized : Bool

pub record SearchHit (F : Type 0) : Type 0 where
  pub record_id : Text
  pub title : Text
  pub payload_text : Text
  pub domain : Text
  pub certainty : Text
  pub status : Text
  pub score : F
  pub reusable_insight : Text
  pub adjusted_score : F
  pub metadata : Object F
  pub group_id : Option Text
  pub group_type : Option Text
  pub phase_seq : Option ℤ
  pub phase_total : Option ℤ
