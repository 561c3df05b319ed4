-- ===== src/Prelude/Text/Equality.antt =====
-- `s == t` on strings, and membership tests in a list of strings.
use Prim.Native.Nat.{ℕ}
use mathlib.Core.Path.{◌≡◌, refl}
use mathlib.Core.Logic.{◌↔◌}
use mathlib.Core.Bool.{Bool, true, false, ◌&&◌, ◌||◌}
use mathlib.Core.List.{List, [], ◌∷◌}
use native.Mathlib.Omega.{arith}
use rune_mcp.Prelude.Tests.{◌==◌}

unfoldable pub teq : List ℕ → List ℕ → Bool
teq [] [] = true
teq [] (d ∷ t) = false
teq (c ∷ s) [] = false
teq (c ∷ s) (d ∷ t) = c == d && teq s t

teq-eq : (s t : List ℕ) → teq s t ≡ true → s ≡ t
unfolding teq
teq-eq [] [] h = refl
teq-eq [] (d ∷ t) h = cc
teq-eq (c ∷ s) [] h = cc
teq-eq (c ∷ s) (d ∷ t) h = ground (arith, teq-eq s t)

pub teq_refl : (s : List ℕ) → teq s s ≡ true
unfolding teq
teq_refl [] = refl
teq_refl (c ∷ s) = ground (arith, teq_refl s)

pub teq_iff : (s t : List ℕ) → (teq s t ≡ true) ↔ (s ≡ t)
teq_iff s t = (teq-eq s t, λ e. rw e (teq_refl t))

-- A `for … if x == s` loop, or a set built as a map to `true`.
unfoldable pub member : List ℕ → List (List ℕ) → Bool
member s [] = false
member s (t ∷ ts) = teq t s || member s ts
