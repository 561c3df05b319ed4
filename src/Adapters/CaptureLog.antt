-- ===== src/Adapters/CaptureLog.antt =====
-- internal/adapters/logio/capture_log.go: Tail and Append of the capture log. Locks and fsync are left
-- out; what the file answers is a value.
pub mod Laws
use mathlib.Core.List.{reverse}
use rune_mcp.Prelude.{
  ℕ, Bool, true, false, not, ◌&&◌, ◌||◌, Option, none, some, List, [], ◌∷◌, ◌++◌, keep, length, ltb,
  if◌then◌else◌,
}
use rune_mcp.Prelude.Int.{ℤ, pos, ltb_ℤ, pos_part}
use rune_mcp.Prelude.Text.{Text, codes, is_empty, teq, text_lt}
use rune_mcp.Domain.Capture.{CaptureLogEntry}
use rune_mcp.Domain.Errors.{Error, Result, err, ok, other, wrap}

-- os.Open and what the file holds: the lines that end with a newline, and what follows the last one.
pub data LogFile : Type 0 where
  absent : LogFile
  not_opened : Error → LogFile
  not_scanned : Error → LogFile
  lines : List Text → Text → LogFile

-- A limit of 0 or less asks for 20, and 100 is the most.
unfoldable pub clamp_limit : ℤ → ℕ
clamp_limit limit =
    let n = if ltb_ℤ (pos 0) limit then pos_part limit else 20 in if ltb 100 n then 100 else n

abbrev pub is_full_line : Text → Bool
is_full_line line = not (is_empty line)

abbrev pub in_domain : {F : Type 0} → Option Text → CaptureLogEntry F → Bool
in_domain none e = true
in_domain (some d) e = teq e.domain d

abbrev pub not_before : {F : Type 0} → Option Text → CaptureLogEntry F → Bool
not_before none e = true
not_before (some since) e = not (text_lt e.ts since)

-- What the scanner yields: text after the last newline is a line too.
abbrev pub all_lines : List Text → Text → List Text
all_lines ls [] = ls
all_lines ls (c ∷ rest) = ls ++ (c ∷ rest) ∷ []

abbrev pub token_too_long : Error
token_too_long = other (codes "bufio.Scanner: token too long")

-- A line is beyond the scanner's buffer.
unfoldable pub has_long : (Text → Bool) → List Text → Bool
has_long too_long [] = false
has_long too_long (l ∷ ls) = too_long l || has_long too_long ls

module _ {F : Type 0} (parse : Text → Option (CaptureLogEntry F)) (domain since : Option Text) where
  -- The entries with this line's, if it parses and passes the filters.
  abbrev pub with_line :
      Option (CaptureLogEntry F) → List (CaptureLogEntry F) → List (CaptureLogEntry F)
  with_line none entries = entries
  with_line (some e) entries =
      if in_domain domain e
      then (if not_before since e then entries ++ e ∷ [] else entries)
      else entries

  -- The loop over the lines, the last one first.
  unfoldable pub tail_loop : ℕ → List Text → List (CaptureLogEntry F) → List (CaptureLogEntry F)
  tail_loop limit [] entries = entries
  tail_loop limit (line ∷ rest) entries =
      let more = tail_loop limit rest (with_line (parse line) entries) in
      if ltb (length entries) limit then more else entries

  -- Tail; `too_long` is whether a line has more bytes than the scanner's buffer, 256 KB.
  unfoldable pub tail : (Text → Bool) → ℤ → LogFile → Result (List (CaptureLogEntry F))
  unfolding tail_loop clamp_limit has_long
  tail too_long limit absent = ok []
  tail too_long limit (not_opened e) = err (wrap (codes "capture log open") e)
  tail too_long limit (not_scanned e) = err (wrap (codes "capture log scan") e)
  tail too_long limit (lines ls rest) =
      let found = all_lines ls rest in
      if has_long too_long found
      then err (wrap (codes "capture log scan") token_too_long)
      else ok (tail_loop (clamp_limit limit) (reverse (keep is_full_line found)) [])

-- Append of a marshalled entry, to a file that opens: it comes right after what the file ends with.
unfoldable pub append_line : Text → LogFile → LogFile
append_line line absent = lines (line ∷ []) []
append_line line (not_opened e) = not_opened e
append_line line (not_scanned e) = not_scanned e
append_line line (lines ls rest) = lines (ls ++ (rest ++ line) ∷ []) []
