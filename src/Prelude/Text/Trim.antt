-- ===== src/Prelude/Text/Trim.antt =====
-- `strings.TrimSpace` only removes: what the trimmed text contains stood in the text, and trimming
-- again changes nothing.
use rune_mcp.Prelude.Tests.{Bool-cases}
use rune_mcp.Prelude.Text.{Text, contains, has_prefix, trim_left, trim_right, trim_space}
use mathlib.Core.Bool.{true, false}
use mathlib.Core.List.{[], ◌∷◌}
use mathlib.Core.Logic.{inl, inr}
use mathlib.Core.Path.{◌≡◌, refl, ap, ◌∙◌}
use native.Mathlib.Omega.{arith}

has_prefix-nil : (s : Text) → has_prefix s [] ≡ true
unfolding has_prefix
has_prefix-nil [] = refl
has_prefix-nil (c ∷ s) = refl

pub contains-nil : (s : Text) → contains s [] ≡ true
unfolding contains
contains-nil [] = has_prefix-nil []
contains-nil (c ∷ s) = ground (arith, has_prefix-nil (c ∷ s))

has_prefix-trim_right : (s p : Text) → has_prefix (trim_right s) p ≡ true → has_prefix s p ≡ true
unfolding has_prefix trim_right
has_prefix-trim_right [] p h = h
has_prefix-trim_right (c ∷ s) [] h = refl
has_prefix-trim_right (c ∷ s) (d ∷ p) h = ground (arith, has_prefix-trim_right s p)

contains_of_prefix : (s p : Text) → has_prefix s p ≡ true → contains s p ≡ true
unfolding contains
contains_of_prefix [] p h = h
contains_of_prefix (c ∷ s) p h = ground arith

contains-trim_right : (s p : Text) → contains (trim_right s) p ≡ true → contains s p ≡ true
unfolding contains trim_right has_prefix
contains-trim_right [] p h = h
contains-trim_right (c ∷ s) [] h = contains-nil (c ∷ s)
contains-trim_right (c ∷ s) (d ∷ p) h =
    ground (arith, has_prefix-trim_right s p, contains-trim_right s (d ∷ p))

contains-trim_left : (s p : Text) → contains (trim_left s) p ≡ true → contains s p ≡ true
unfolding contains trim_left
contains-trim_left [] p h = h
contains-trim_left (c ∷ s) p h = ground (arith, contains-trim_left s p)

pub contains-trim_space : (s p : Text) → contains s p ≡ false → contains (trim_space s) p ≡ false
unfolding trim_space
contains-trim_space s p h = elim (Bool-cases (contains (trim_space s) p)) [
  | inl e ↦ cc (contains-trim_left s p (contains-trim_right (trim_left s) p e))
  | inr e ↦ e
]

trim_right_idem : (s : Text) → trim_right (trim_right s) ≡ trim_right s
unfolding trim_right
trim_right_idem [] = refl
trim_right_idem (c ∷ s) = ground (arith, trim_right_idem s)

-- The trimmed front stays: the first rune is no space, so it is not cut from behind either.
trim_left-trim_right : (s : Text) → trim_left (trim_right (trim_left s)) ≡ trim_right (trim_left s)
unfolding trim_left trim_right
trim_left-trim_right [] = refl
trim_left-trim_right (c ∷ s) = ground (arith, trim_left-trim_right s)

pub trim_space_idem : (s : Text) → trim_space (trim_space s) ≡ trim_space s
unfolding trim_space
trim_space_idem s = ap trim_right (trim_left-trim_right s) ∙ trim_right_idem (trim_left s)
