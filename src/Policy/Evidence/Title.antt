-- ===== src/Policy/Evidence/Title.antt =====
-- extractTitle and firstNonEmpty of internal/policy/record_builder.go.
use rune_mcp.Prelude.{
  ◌≤◌, ◌<◌, List, [], ◌∷◌, arith, length, length-take, ltb, ltb→lt, if-elim, ◌==◌, if◌then◌else◌,
}
use rune_mcp.Prelude.Text.{Text, byte_len, codes, is_empty, trim_space, trim_left, trim_right}
use rune_mcp.Domain.Record.{max_title_len}
use rune_mcp.Policy.Truncate.{trunc_runes, trunc_runes-eq-take}

unfoldable pub first_non_empty : List Text → Text
first_non_empty [] = []
first_non_empty (v ∷ vs) = if is_empty (trim_space v) then first_non_empty vs else v

-- The runes in front of the first "."; the whole text if there is none.
unfoldable pub up_to_dot : Text → Text
up_to_dot [] = []
up_to_dot (c ∷ s) = if c == b'.' then [] else c ∷ up_to_dot s

-- `text[:idx]`, if `strings.Index(text, ".")` is above 0.
unfoldable pub first_sentence : Text → Text
unfolding up_to_dot
first_sentence text = if is_empty (up_to_dot text) then text else up_to_dot text

abbrev pub general_decision : Text
general_decision = codes "General decision"

unfoldable pub extract_title : Text → Text
unfolding first_sentence
extract_title text =
    let title = trim_space (trunc_runes (first_sentence text) max_title_len) in
    if ltb 10 (byte_len title) then title else general_decision

length-trim_left : (s : Text) → length (trim_left s) ≤ length s
unfolding trim_left
length-trim_left [] = omega arith
length-trim_left (c ∷ s) = ground (arith, length-trim_left s)

length-trim_right : (s : Text) → length (trim_right s) ≤ length s
unfolding trim_right
length-trim_right [] = omega arith
length-trim_right (c ∷ s) = ground (arith, length-trim_right s)

pub length-trim_space : (s : Text) → length (trim_space s) ≤ length s
unfolding trim_space
length-trim_space s = omega (arith, length-trim_right (trim_left s), length-trim_left s)

cut_short : (s : Text) → length (trunc_runes s 60) ≤ 60
cut_short s = rw trunc_runes-eq-take (omega (arith, length-take 60 s))

abbrev FitsTitle : Text → Type 0
FitsTitle t = (10 < byte_len t) × (length t ≤ 60)

general_decision_fits : FitsTitle general_decision
unfolding codes byte_len
general_decision_fits = omega arith

-- The title of any text has more than 10 bytes and at most 60 runes.
pub extract_title_bounds :
    (text : Text) → (10 < byte_len (extract_title text)) × (length (extract_title text) ≤ 60)
unfolding extract_title
extract_title_bounds text =
    let cut = trunc_runes (first_sentence text) 60 in
    let short : length (trim_space cut) ≤ 60 =
      omega (arith, length-trim_space cut, cut_short (first_sentence text)) in
    if-elim FitsTitle (ltb 10 (byte_len (trim_space cut)))
      (λ long. (ltb→lt 10 (byte_len (trim_space cut)) long, short)) (λ _. general_decision_fits)
