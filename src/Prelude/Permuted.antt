-- ===== src/Prelude/Permuted.antt =====
-- Permutations of lists that are put together from lists, and predicates carried along them.
use mathlib.Core.List.{Perm, Perm-prop, Permᴰ, append-nil, append_assoc, perm_middle}
use mathlib.Core.List.Perm
use mathlib.Core.Logic.{∥∥₁_elim}
use mathlib.Core.HLevel.{×_prop}
use mathlib.Core.Path.{◌≡◌, refl, subst, sym, ap}
use mathlib.Core.List.{List, [], ◌∷◌, ◌++◌}
use Prim.Native.Nat.{ℕ, zero, suc}
use mathlib.Core.Bool.{Bool}
use rune_mcp.Prelude.Tests.{if-elim}
use rune_mcp.Prelude.Lists.{All, All-append, All-keep, All-take, keep, take}

module _ {ℓ} {A : Type ℓ} where
  pub perm_of_eq : {xs ys : List A} → xs ≡ ys → Perm xs ys
  perm_of_eq {xs} e = subst (λ l. Perm xs l) e Perm.rfl

  -- An item at the end, and one between two lists.
  pub perm-snoc : (xs : List A) (x : A) → Perm (xs ++ (x ∷ [])) (x ∷ xs)
  perm-snoc xs x = Perm.trans (perm_middle xs []) (Perm.cons x (perm_of_eq (append-nil xs)))

  pub append-comm : (xs ys : List A) → Perm (xs ++ ys) (ys ++ xs)
  append-comm [] ys = perm_of_eq (sym (append-nil ys))
  append-comm (x ∷ xs) ys =
      Perm.trans (Perm.cons x (append-comm xs ys)) (Perm.symm (perm_middle ys xs))

  -- Two lists at the front change places.
  pub append-swap : (xs ys zs : List A) → Perm (xs ++ (ys ++ zs)) (ys ++ (xs ++ zs))
  append-swap xs ys zs =
      Perm.trans (perm_of_eq (sym (append_assoc xs ys zs)))
        (Perm.trans (Perm.append_right zs (append-comm xs ys)) (perm_of_eq (append_assoc ys xs zs)))

module _ {ℓ κ} {A : Type ℓ} (P : A → Type κ) where
  All-permᴰ : {xs ys : List A} → Permᴰ xs ys → All P xs → All P ys
  All-permᴰ Permᴰ.nil h = h
  All-permᴰ (Permᴰ.cons e d) h = (subst P e h.0, All-permᴰ d h.1)
  All-permᴰ (Permᴰ.swap e e') h = (subst P e' h.1.0, (subst P e h.0, h.1.1))
  All-permᴰ (Permᴰ.trans d d') h = All-permᴰ d' (All-permᴰ d h)

  All-prop : ((x : A) → IsProp (P x)) → (xs : List A) → IsProp (All P xs)
  All-prop p [] = λ a b. refl
  All-prop p (x ∷ xs) = ×_prop (p x) (All-prop p xs)

  pub All-perm : ((x : A) → IsProp (P x)) → {xs ys : List A} → Perm xs ys → All P xs → All P ys
  All-perm p {xs} {ys} d h = ∥∥₁_elim d (All-prop p ys) (λ d'. All-permᴰ d' h)

-- The lists of some items, one after the other.
module _ {ℓ κ} {A : Type ℓ} {B : Type κ} (f : A → List B) where
  abbrev pub concat_of : List A → List B
  concat_of [] = []
  concat_of (x ∷ xs) = f x ++ concat_of xs

  concat_of-permᴰ : {xs ys : List A} → Permᴰ xs ys → Perm (concat_of xs) (concat_of ys)
  concat_of-permᴰ Permᴰ.nil = Perm.rfl
  concat_of-permᴰ (Permᴰ.cons e d) = Perm.append (perm_of_eq (ap f e)) (concat_of-permᴰ d)
  concat_of-permᴰ (Permᴰ.swap {a} {b} {a'} {b'} {l} e e') =
      Perm.trans (append-swap (f a) (f b) (concat_of l))
        (Perm.append (perm_of_eq (ap f e')) (Perm.append_right (concat_of l) (perm_of_eq (ap f e))))
  concat_of-permᴰ (Permᴰ.trans d d') = Perm.trans (concat_of-permᴰ d) (concat_of-permᴰ d')

  pub concat_of-perm : {xs ys : List A} → Perm xs ys → Perm (concat_of xs) (concat_of ys)
  concat_of-perm d = ∥∥₁_elim d Perm-prop concat_of-permᴰ

-- A symmetric relation between any two items.
module _ {ℓ κ} {A : Type ℓ} (R : A → A → Type κ) where
  abbrev pub AllPairs : List A → Type κ
  AllPairs [] = Unit
  AllPairs (x ∷ xs) = All (R x) xs × AllPairs xs

  module _ (symmetric : (x y : A) → R x y → R y x) where
    AllPairs-permᴰ : {xs ys : List A} → Permᴰ xs ys → AllPairs xs → AllPairs ys
    AllPairs-permᴰ Permᴰ.nil h = h
    AllPairs-permᴰ (Permᴰ.cons {a} {b} {l₁} {l₂} e d) h =
        (All-permᴰ (R b) d (subst (λ z. All (R z) l₁) e h.0), AllPairs-permᴰ d h.1)
    AllPairs-permᴰ (Permᴰ.swap {a} {b} {a'} {b'} {l} e e') ((ab, al), (bl, rest)) = (
      (
        subst (λ z. R a' z) e (subst (λ z. R z a) e' (symmetric a b ab)),
        subst (λ z. All (R z) l) e' bl,
      ),
      (subst (λ z. All (R z) l) e al, rest),
    )
    AllPairs-permᴰ (Permᴰ.trans d d') h = AllPairs-permᴰ d' (AllPairs-permᴰ d h)

    AllPairs-prop : ((x y : A) → IsProp (R x y)) → (xs : List A) → IsProp (AllPairs xs)
    AllPairs-prop p [] = λ a b. refl
    AllPairs-prop p (x ∷ xs) = ×_prop (All-prop (R x) (p x) xs) (AllPairs-prop p xs)

    pub AllPairs-perm :
        ((x y : A) → IsProp (R x y)) → {xs ys : List A} → Perm xs ys → AllPairs xs → AllPairs ys
    AllPairs-perm p {xs} {ys} d h = ∥∥₁_elim d (AllPairs-prop p ys) (λ d'. AllPairs-permᴰ d' h)

module _ {ℓ κ} {A : Type ℓ} (R : A → A → Type κ) where
  pub AllPairs-snoc :
      (xs : List A) (y : A) → AllPairs R xs → All (λ x. R x y) xs → AllPairs R (xs ++ y ∷ [])
  AllPairs-snoc [] y h r = (tt, tt)
  AllPairs-snoc (x ∷ xs) y h r =
      (All-append (R x) xs (y ∷ []) h.0 (r.0, tt), AllPairs-snoc xs y h.1 r.1)

  pub AllPairs-take : (n : ℕ) (xs : List A) → AllPairs R xs → AllPairs R (take n xs)
  AllPairs-take zero xs h = tt
  AllPairs-take (suc n) [] h = tt
  AllPairs-take (suc n) (x ∷ xs) h = (All-take (R x) n xs h.0, AllPairs-take n xs h.1)

  pub AllPairs-keep : (p : A → Bool) (xs : List A) → AllPairs R xs → AllPairs R (keep p xs)
  AllPairs-keep p [] h = tt
  AllPairs-keep p (x ∷ xs) h =
      if-elim (AllPairs R) (p x) (λ e. (All-keep (R x) p xs h.0, AllPairs-keep p xs h.1))
        (λ e. AllPairs-keep p xs h.1)
