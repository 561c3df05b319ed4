-- ===== src/Prelude/Sort.antt =====
-- `sort.SliceStable(xs, less)`: a stable sort, so its result is the one of an insertion sort that
-- puts an item in front of the later items that are not `less` than it.
use mathlib.Core.List.{Perm}
use mathlib.Core.List.Perm
use Prim.Native.Nat.{ℕ, zero, suc}
use mathlib.Core.Path.{◌≡◌, refl, ap, ◌∙◌}
use mathlib.Core.Bool.{Bool, true, false}
use mathlib.Core.List.{List, [], ◌∷◌}
use native.Mathlib.Omega.{arith}
use rune_mcp.Prelude.Tests.{if◌then◌else◌, if-elim}
use rune_mcp.Prelude.Lists.{All, All-impl, All-take, keep, length, take}

module _ {ℓ} {A : Type ℓ} where
  pub insert_by : (A → A → Bool) → A → List A → List A
  insert_by less x [] = x ∷ []
  insert_by less x (y ∷ ys) =
      let rest = insert_by less x ys in if less y x then y ∷ rest else x ∷ y ∷ ys

  unfoldable pub sort_stable : (A → A → Bool) → List A → List A
  unfolding insert_by
  sort_stable less [] = []
  sort_stable less (x ∷ xs) = insert_by less x (sort_stable less xs)

  -- No item is `less` than one that stands before it.
  abbrev pub IsSorted : (A → A → Bool) → List A → Type 0
  IsSorted less [] = Unit
  IsSorted less (x ∷ xs) = All (λ y. less y x ≡ false) xs × IsSorted less xs

  -- What the `less` of a sort has to satisfy (a strict weak order).
  pub record IsRanking (less : A → A → Bool) : Type ℓ where
    pub asym : (a b : A) → less a b ≡ true → less b a ≡ false
    pub trans : (a b c : A) → less b a ≡ false → less c b ≡ false → less c a ≡ false

  insert_by-perm : (less : A → A → Bool) (x : A) (ys : List A) → Perm (insert_by less x ys) (x ∷ ys)
  unfolding insert_by
  insert_by-perm less x [] = Perm.rfl
  insert_by-perm less x (y ∷ ys) =
      if-elim (λ l. Perm l (x ∷ y ∷ ys)) (less y x)
        (λ _. Perm.trans (Perm.cons y (insert_by-perm less x ys)) (Perm.swap x y ys))
        (λ _. Perm.rfl)

  pub sort_stable-perm : (less : A → A → Bool) (xs : List A) → Perm (sort_stable less xs) xs
  unfolding sort_stable
  sort_stable-perm less [] = Perm.rfl
  sort_stable-perm less (x ∷ xs) =
      Perm.trans (insert_by-perm less x (sort_stable less xs))
        (Perm.cons x (sort_stable-perm less xs))

  length-insert_by :
      (less : A → A → Bool) (x : A) (ys : List A) → length (insert_by less x ys) ≡ suc (length ys)
  unfolding insert_by
  length-insert_by less x [] = refl
  length-insert_by less x (y ∷ ys) = ground (arith, length-insert_by less x ys)

  pub length-sort_stable :
      (less : A → A → Bool) (xs : List A) → length (sort_stable less xs) ≡ length xs
  unfolding sort_stable
  length-sort_stable less [] = refl
  length-sort_stable less (x ∷ xs) =
      length-insert_by less x (sort_stable less xs) ∙ ap suc (length-sort_stable less xs)

  -- Items of which none is `less` than another keep their order (stability).
  keep-insert_by :
      (less : A → A → Bool) (p : A → Bool)
      → ((a b : A) → p a ≡ true → p b ≡ true → less a b ≡ false)
      → (x : A) (ys : List A) → keep p (insert_by less x ys) ≡ keep p (x ∷ ys)
  unfolding insert_by
  keep-insert_by less p tie x [] = refl
  keep-insert_by less p tie x (y ∷ ys) = ground (arith, keep-insert_by less p tie x ys, tie y x)

  pub keep-sort_stable :
      (less : A → A → Bool) (p : A → Bool)
      → ((a b : A) → p a ≡ true → p b ≡ true → less a b ≡ false)
      → (xs : List A) → keep p (sort_stable less xs) ≡ keep p xs
  unfolding sort_stable
  keep-sort_stable less p tie [] = refl
  keep-sort_stable less p tie (x ∷ xs) =
      keep-insert_by less p tie x (sort_stable less xs)
      ∙ ap (λ rest. if p x then x ∷ rest else rest) (keep-sort_stable less p tie xs)

module _ {ℓ κ} {A : Type ℓ} (P : A → Type κ) where
  All-insert_by :
      (less : A → A → Bool) (x : A) (ys : List A) → P x → All P ys → All P (insert_by less x ys)
  unfolding insert_by
  All-insert_by less x [] px h = (px, tt)
  All-insert_by less x (y ∷ ys) px h =
      if-elim (All P) (less y x) (λ _. (h.0, All-insert_by less x ys px h.1)) (λ _. (px, h))

  pub All-sort_stable : (less : A → A → Bool) (xs : List A) → All P xs → All P (sort_stable less xs)
  unfolding sort_stable
  All-sort_stable less [] h = tt
  All-sort_stable less (x ∷ xs) h =
      All-insert_by less x (sort_stable less xs) h.0 (All-sort_stable less xs h.1)

module _ {ℓ} {A : Type ℓ} {less : A → A → Bool} (r : IsRanking less) where
  insert_by-IsSorted :
      (x : A) (ys : List A) → IsSorted less ys → IsSorted less (insert_by less x ys)
  unfolding insert_by
  insert_by-IsSorted x [] h = (tt, tt)
  insert_by-IsSorted x (y ∷ ys) h =
      if-elim (IsSorted less) (less y x)
        (λ e. (
          All-insert_by (λ z. less z y ≡ false) less x ys (r.asym y x e) h.0,
          insert_by-IsSorted x ys h.1,
        ))
        (λ e. ((e, All-impl (λ z. r.trans x y z e) ys h.0), h))

  pub sort_stable-IsSorted : (xs : List A) → IsSorted less (sort_stable less xs)
  unfolding sort_stable
  sort_stable-IsSorted [] = tt
  sort_stable-IsSorted (x ∷ xs) =
      insert_by-IsSorted x (sort_stable less xs) (sort_stable-IsSorted xs)

module _ {ℓ} {A : Type ℓ} (less : A → A → Bool) where
  pub IsSorted-take : (n : ℕ) (xs : List A) → IsSorted less xs → IsSorted less (take n xs)
  IsSorted-take zero xs h = tt
  IsSorted-take (suc n) [] h = tt
  IsSorted-take (suc n) (x ∷ xs) h =
      (All-take (λ y. less y x ≡ false) n xs h.0, IsSorted-take n xs h.1)
