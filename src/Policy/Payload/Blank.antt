-- ===== src/Policy/Payload/Blank.antt =====
-- The clean-up of blank lines: `for strings.Contains(text, "\n\n\n") { … ReplaceAll … }`.
use rune_mcp.Prelude.{
  ℕ, zero, suc, ◌≤◌, ◌<◌, ◌≡◌, refl, true, false, ◌&&◌, [], ◌∷◌, arith, length, ◌==◌, if◌then◌else◌,
  Bool-cases, inl, inr,
}
use rune_mcp.Prelude.Text.{Text, contains, has_prefix}

abbrev pub three_newlines : Text
three_newlines = 10 ∷ 10 ∷ 10 ∷ []

-- `strings.ReplaceAll(text, "\n\n\n", "\n\n")`: from the left, without overlap.
unfoldable pub replace_blank : Text → Text
replace_blank [] = []
replace_blank (a ∷ []) = a ∷ []
replace_blank (a ∷ b ∷ []) = a ∷ b ∷ []
replace_blank (a ∷ b ∷ c ∷ s) =
    let hit = 10 ∷ 10 ∷ replace_blank s in
    let miss = a ∷ replace_blank (b ∷ c ∷ s) in if a == 10 && b == 10 && c == 10 then hit else miss

-- Each round makes the text shorter, so its length is fuel enough.
unfoldable pub collapse_loop : ℕ → Text → Text
collapse_loop zero text = text
collapse_loop (suc fuel) text =
    let rest = collapse_loop fuel (replace_blank text) in
    if contains text three_newlines then rest else text

unfoldable pub collapse_blank_lines : Text → Text
collapse_blank_lines text = collapse_loop (length text) text

length-replace_blank : (s : Text) → length (replace_blank s) ≤ length s
unfolding replace_blank
length-replace_blank [] = omega arith
length-replace_blank (a ∷ []) = omega arith
length-replace_blank (a ∷ b ∷ []) = omega arith
length-replace_blank (a ∷ b ∷ c ∷ s) =
    ground (arith, length-replace_blank s, length-replace_blank (b ∷ c ∷ s))

-- A round on a text with three newlines in a row removes at least one.
replace_blank_shorter :
    (s : Text) → contains s three_newlines ≡ true → length (replace_blank s) < length s
unfolding replace_blank contains has_prefix
replace_blank_shorter [] h = cc
replace_blank_shorter (a ∷ []) h = ground arith
replace_blank_shorter (a ∷ b ∷ []) h = ground arith
replace_blank_shorter (a ∷ b ∷ c ∷ s) h =
    ground (arith, length-replace_blank s, replace_blank_shorter (b ∷ c ∷ s))

collapse_loop_clean :
    (fuel : ℕ) (s : Text) → length s ≤ fuel → contains (collapse_loop fuel s) three_newlines ≡ false
unfolding collapse_loop
collapse_loop_clean zero [] h = unfold contains has_prefix in refl
collapse_loop_clean zero (c ∷ s) h = absurd (omega arith)
collapse_loop_clean (suc fuel) s h = elim (Bool-cases (contains s three_newlines)) [
  | inl hit ↦
      rw hit
        (collapse_loop_clean fuel (replace_blank s) (omega (arith, replace_blank_shorter s hit)))
  | inr miss ↦ rw miss miss
]

-- The loop ends, and what it leaves has no three newlines in a row.
pub collapse_blank_lines_clean :
    (s : Text) → contains (collapse_blank_lines s) three_newlines ≡ false
unfolding collapse_blank_lines
collapse_blank_lines_clean s = collapse_loop_clean (length s) s (omega arith)
