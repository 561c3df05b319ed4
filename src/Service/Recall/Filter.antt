-- ===== src/Service/Recall/Filter.antt =====
-- applyMetadataFilters.
use rune_mcp.Prelude.{
  Bool, true, false, not, ◌&&◌, Option, none, some, List, [], keep, if◌then◌else◌,
}
use rune_mcp.Prelude.Json.{as_string, get}
use rune_mcp.Prelude.Text.{Text, codes, is_empty, teq, text_lt}
use rune_mcp.Domain.Query.{SearchHit}

pub record Filters : Type 0 where
  pub domain : Option Text
  pub status : Option Text
  pub since : Option Text

abbrev pub differs : Text → Option Text → Bool
differs s none = false
differs s (some f) = not (teq s f)

abbrev string_or_empty : Option Text → Text
string_or_empty none = []
string_or_empty (some s) = s

abbrev pub earlier : Text → Option Text → Bool
earlier ts none = false
earlier ts (some since) = not (is_empty ts) && text_lt ts since

module _ {F : Type 0} where
  abbrev pub timestamp_text : SearchHit F → Text
  timestamp_text h = string_or_empty (as_string (get h.metadata (codes "timestamp")))

  -- The three `continue` of the loop.
  unfoldable pub passes_filters : Filters → SearchHit F → Bool
  passes_filters f h =
      if differs h.domain f.domain
      then false
      else if differs h.status f.status
      then false
      else if earlier (timestamp_text h) f.since
      then false
      else true

  unfoldable pub apply_metadata_filters : Filters → List (SearchHit F) → List (SearchHit F)
  unfolding passes_filters
  apply_metadata_filters f results = keep (passes_filters f) results
