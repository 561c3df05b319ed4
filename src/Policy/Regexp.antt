-- ===== src/Policy/Regexp.antt =====
-- Package `regexp`, as an interface: a compiled pattern is the pattern's source text.
use rune_mcp.Prelude.{Bool, List, String}
use rune_mcp.Prelude.Text.{Text}

pub record Regexp : Type 0 where
  pub match_string : String → Text → Bool
  pub find_all : String → Text → List Text  -- FindAllString(s, -1)
  pub find_all_submatch : String → Text → List (List Text)  -- FindAllStringSubmatch(s, -1)
  pub replace_all : String → Text → Text → Text  -- ReplaceAllString(s, replacement)
