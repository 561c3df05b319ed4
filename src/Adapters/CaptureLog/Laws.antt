-- ===== src/Adapters/CaptureLog/Laws.antt =====
-- Tail against its plain description, and after an Append.
use mathlib.Core.List.{reverse}
use rune_mcp.Prelude.{Bool, false, ◌&&◌, Option, none, some, List, [], ◌∷◌, ◌≡◌, keep}
use rune_mcp.Prelude.Text.{Text}
use rune_mcp.Adapters.CaptureLog.{LogFile, all_lines, has_long, in_domain, is_full_line, not_before}
use rune_mcp.Domain.Capture.{CaptureLogEntry}

abbrev pub pushed : {A : Type 0} → Option A → List A → List A
pushed none xs = xs
pushed (some a) xs = a ∷ xs

-- The entries of the lines that parse.
abbrev pub parsed : {A : Type 0} → (Text → Option A) → List Text → List A
parsed parse [] = []
parsed parse (l ∷ ls) = pushed (parse l) (parsed parse ls)

-- The entries of a log, the newest first.
abbrev pub entries_of : {A : Type 0} → (Text → Option A) → LogFile → List A
entries_of parse (LogFile.lines ls rest) =
    parsed parse (reverse (keep is_full_line (all_lines ls rest)))
entries_of parse _ = []

-- The file is not there, or is read and has no line beyond the buffer.
abbrev pub IsReadable : (Text → Bool) → LogFile → Type 0
IsReadable too_long LogFile.absent = Unit {0}
IsReadable too_long (LogFile.lines ls rest) = has_long too_long (all_lines ls rest) ≡ false
IsReadable too_long _ = ⊥

-- Its last line ends with a newline, as each Append leaves it.
abbrev pub IsEnded : LogFile → Type 0
IsEnded (LogFile.lines ls rest) = rest ≡ []
IsEnded _ = Unit {0}

module _ {F : Type 0} (parse : Text → Option (CaptureLogEntry F)) (domain since : Option Text) where
  abbrev pub is_wanted : CaptureLogEntry F → Bool
  is_wanted e = in_domain domain e && not_before since e
