-- ===== src/Prelude/Seen.antt =====
-- A loop with a `seen` map that appends the items whose key is new.
use mathlib.Core.Path.{◌≡◌}
use mathlib.Core.Bool.{true, false}
use mathlib.Core.List.{List, [], ◌∷◌}
use native.Mathlib.Omega.{arith}
use rune_mcp.Prelude.Tests.{if◌then◌else◌, if-elim}
use rune_mcp.Prelude.Lists.{All, All-impl}
use rune_mcp.Prelude.Permuted.{AllPairs}
use rune_mcp.Prelude.Text.{Text, member, teq, teq_iff}
use rune_mcp.Prelude.Tests.{Bool-cases}
use mathlib.Core.Logic.{inl, inr}

pub member_cons :
    (s t : Text) (ts : List Text)
    → member s (t ∷ ts) ≡ false
    → (teq t s ≡ false) × (member s ts ≡ false)
unfolding member
member_cons s t ts e = ground arith

member_same : (s t : Text) (ts : List Text) → t ≡ s → member s ts ≡ false → member t ts ≡ true → ⊥
member_same s t ts h e m = cc

-- A key that is no member differs from each key that is one.
pub member_apart :
    (s t : Text) (ts : List Text) → member s ts ≡ false → member t ts ≡ true → teq t s ≡ false
member_apart s t ts e m = elim (Bool-cases (teq t s)) [
  | inr h ↦ h
  | inl h ↦ absurd (member_same s t ts ((teq_iff t s).0 h) e m)
]

pub member-All : (s : Text) (ts : List Text) → member s ts ≡ false → All (λ t. teq t s ≡ false) ts
member-All s [] e = tt
member-All s (t ∷ ts) e = let r = member_cons s t ts e in (r.0, member-All s ts r.1)

module _ {ℓ} {A : Type ℓ} (key : A → Text) where
  unfoldable pub first_seen : List Text → List A → List A
  first_seen seen [] = []
  first_seen seen (x ∷ xs) =
      let old = first_seen seen xs in
      let new = x ∷ first_seen (key x ∷ seen) xs in if member (key x) seen then old else new

  first_seen-new :
      (seen : List Text) (xs : List A) → All (λ x. member (key x) seen ≡ false) (first_seen seen xs)
  unfolding first_seen
  first_seen-new seen [] = tt
  first_seen-new seen (x ∷ xs) =
      if-elim (All (λ x. member (key x) seen ≡ false)) (member (key x) seen)
        (λ e. first_seen-new seen xs)
        (λ e. (
          e,
          All-impl (λ y h. (member_cons (key y) (key x) seen h).1) (first_seen (key x ∷ seen) xs)
              (first_seen-new (key x ∷ seen) xs),
        ))

  -- The kept keys differ.
  pub first_seen-AllPairs :
      (seen : List Text) (xs : List A)
      → AllPairs (λ x y. teq (key x) (key y) ≡ false) (first_seen seen xs)
  unfolding first_seen
  first_seen-AllPairs seen [] = tt
  first_seen-AllPairs seen (x ∷ xs) =
      if-elim (AllPairs (λ x y. teq (key x) (key y) ≡ false)) (member (key x) seen)
        (λ e. first_seen-AllPairs seen xs)
        (λ e. (
          All-impl (λ y h. (member_cons (key y) (key x) seen h).0) (first_seen (key x ∷ seen) xs)
              (first_seen-new (key x ∷ seen) xs),
          first_seen-AllPairs (key x ∷ seen) xs,
        ))

  pub All-first_seen {κ} :
      (P : A → Type κ) (seen : List Text) (xs : List A) → All P xs → All P (first_seen seen xs)
  unfolding first_seen
  All-first_seen P seen [] h = tt
  All-first_seen P seen (x ∷ xs) h =
      if-elim (All P) (member (key x) seen) (λ e. All-first_seen P seen xs h.1)
        (λ e. (h.0, All-first_seen P (key x ∷ seen) xs h.1))
