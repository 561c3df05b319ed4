-- ===== src/Policy/Truncate.antt =====
-- internal/policy/utf8_safe.go: a string cut to a number of runes.
use rune_mcp.Prelude.{
  ℕ, zero, suc, ◌+◌, ◌≡◌, refl, [], ◌∷◌, arith, take, take_all, leb, ◌==◌, if◌then◌else◌,
}
use rune_mcp.Prelude.Text.{Text, byte_len, length-le-byte_len}

-- The loop over the runes, `count` of them seen; it returns in front of rune number `max_runes`.
unfoldable pub runes_up_to : ℕ → ℕ → Text → Text
runes_up_to max_runes count [] = []
runes_up_to max_runes count (c ∷ s) =
    if count == max_runes then [] else c ∷ runes_up_to max_runes (count + 1) s

unfoldable pub trunc_runes : Text → ℕ → Text
unfolding runes_up_to
trunc_runes s max_runes =
    if leb max_runes 0
    then []
    else if leb (byte_len s) max_runes
    then s
    else runes_up_to max_runes 0 s

runes_up_to-eq-take : (s : Text) (n count m : ℕ) → count + n ≡ m → runes_up_to m count s ≡ take n s
unfolding runes_up_to
runes_up_to-eq-take [] zero count m e = refl
runes_up_to-eq-take [] (suc n) count m e = refl
runes_up_to-eq-take (c ∷ s) zero count m e = ground arith
runes_up_to-eq-take (c ∷ s) (suc n) count m e =
    ground (arith, runes_up_to-eq-take s n (count + 1) m (omega arith))

-- For every string and every limit, the shortcut on the byte length and the loop give the first
-- `max_runes` runes of the string.
pub trunc_runes-eq-take : (s : Text) (max_runes : ℕ) → trunc_runes s max_runes ≡ take max_runes s
unfolding trunc_runes
trunc_runes-eq-take s zero = refl
trunc_runes-eq-take s (suc n) = ground (
  arith,
  runes_up_to-eq-take s (suc n) 0 (suc n) (omega arith),
  length-le-byte_len s,
  take_all (suc n) s,
)
