-- ===== src/Service/Backend/Outcome.antt =====
-- What holds of the value, or of the error, that an action ends with, whatever world it runs in.
use rune_mcp.Prelude.{◌≡◌, refl}
use rune_mcp.Prelude.Text.{Text}
use rune_mcp.Domain.Errors.{Error, Result, ok, err, panic}
use rune_mcp.Service.Backend.{Action, continue, either, handled, wrapped, wrapping, ◌>>=◌}

abbrev pub Outcome : {A : Type 0} → (A → Type 0) → (Error → Type 0) → Result A → Type 0
Outcome P Q (ok a) = P a
Outcome P Q (err e) = Q e
Outcome P Q panic = Unit

module _ {W A B : Type 0} (P : A → Type 0) (R : B → Type 0) (Q : Error → Type 0) where
  continue-Outcome :
      (r : Result A) (f : A → Action W B) (w : W)
      → Outcome P Q r
      → ((a : A) (w : W) → P a → Outcome R Q (f a w).0)
      → Outcome R Q (continue r f w).0
  continue-Outcome (ok a) f w h k = k a w h
  continue-Outcome (err e) f w h k = h
  continue-Outcome panic f w h k = tt

  pub bind-Outcome :
      (m : Action W A) (f : A → Action W B) (w : W)
      → Outcome P Q (m w).0
      → ((a : A) (w : W) → P a → Outcome R Q (f a w).0)
      → Outcome R Q ((m >>= f) w).0
  bind-Outcome m f w = continue-Outcome (m w).0 f (m w).1

module _ {W A B : Type 0} (R : B → Type 0) (Q : Error → Type 0) where
  handled-Outcome :
      (r : Result A) (f : A → Action W B) (h : Error → Action W B) (w : W)
      → ((a : A) (w : W) → Outcome R Q (f a w).0)
      → ((e : Error) (w : W) → Outcome R Q (h e w).0)
      → Outcome R Q (handled r f h w).0
  handled-Outcome (ok a) f h w kf kh = kf a w
  handled-Outcome (err e) f h w kf kh = kh e w
  handled-Outcome panic f h w kf kh = tt

  pub either-Outcome :
      (m : Action W A) (f : A → Action W B) (h : Error → Action W B) (w : W)
      → ((a : A) (w : W) → Outcome R Q (f a w).0)
      → ((e : Error) (w : W) → Outcome R Q (h e w).0)
      → Outcome R Q (either m f h w).0
  either-Outcome m f h w = handled-Outcome (m w).0 f h (m w).1

module _ {A : Type 0} (P : A → Type 0) where
  pub Outcome-impl :
      (Q R : Error → Type 0) (r : Result A)
      → ((e : Error) → Q e → R e)
      → Outcome P Q r
      → Outcome P R r
  Outcome-impl Q R (ok a) f h = h
  Outcome-impl Q R (err e) f h = f e h
  Outcome-impl Q R panic f h = tt

  pub wrapped-Outcome :
      (Q R : Error → Type 0) (m : Text) (r : Result A)
      → ((e : Error) → Q e → R (Error.wrap m e))
      → Outcome P Q r
      → Outcome P R (wrapped m r)
  wrapped-Outcome Q R m (ok a) f h = h
  wrapped-Outcome Q R m (err e) f h = f e h
  wrapped-Outcome Q R m panic f h = tt

module _ {A : Type 0} where
  pub any-Outcome : (r : Result A) → Outcome (λ a. Unit) (λ e. Unit) r
  any-Outcome (ok a) = tt
  any-Outcome (err e) = tt
  any-Outcome panic = tt

  pub known-Outcome : (r : Result A) → Outcome (λ a. r ≡ ok a) (λ e. Unit) r
  known-Outcome (ok a) = refl
  known-Outcome (err e) = tt
  known-Outcome panic = tt

  pub ok-Outcome :
      (P : A → Type 0) (Q : Error → Type 0) (r : Result A) (a : A) → r ≡ ok a → P a → Outcome P Q r
  ok-Outcome P Q r a e h = rw e h

  pub panic-Outcome :
      (P : A → Type 0) (Q : Error → Type 0) (r : Result A) → r ≡ panic → Outcome P Q r
  panic-Outcome P Q r e = rw e tt

  pub Outcome-map :
      (P R : A → Type 0) (Q S : Error → Type 0) (r : Result A)
      → ((a : A) → P a → R a)
      → ((e : Error) → Q e → S e)
      → Outcome P Q r
      → Outcome R S r
  Outcome-map P R Q S (ok a) f g h = f a h
  Outcome-map P R Q S (err e) f g h = g e h
  Outcome-map P R Q S panic f g h = tt

-- What holds of the value and of the world that an action ends with.
abbrev pub EndsAt : {W A : Type 0} → (A → W → Type 0) → Result A → W → Type 0
EndsAt P (ok a) w = P a w
EndsAt P (err e) w = Unit
EndsAt P panic w = Unit

abbrev pub Ends : {W A : Type 0} → (A → W → Type 0) → Result A × W → Type 0
Ends P r = EndsAt P r.0 r.1

-- Of a call and what follows it, the call's answer and the world after it being known.
module _ {W A B : Type 0} (P : B → W → Type 0) where
  continue-Ends :
      (r : Result A × W) (f : A → Action W B)
      → ((a : A) (w : W) → r ≡ (ok a, w) → Ends P (f a w))
      → Ends P (continue r.0 f r.1)
  continue-Ends (ok a, w) f k = k a w refl
  continue-Ends (err e, w) f k = tt
  continue-Ends (panic, w) f k = tt

  pub bind-Ends :
      (m : Action W A) (f : A → Action W B) (w : W)
      → ((a : A) (w' : W) → m w ≡ (ok a, w') → Ends P (f a w'))
      → Ends P ((m >>= f) w)
  bind-Ends m f w = continue-Ends (m w) f

  wrapped-Ends :
      (t : Text) (r : Result A × W) (f : A → Action W B)
      → ((a : A) (w : W) → r ≡ (ok a, w) → Ends P (f a w))
      → Ends P (continue (wrapped t r.0) f r.1)
  wrapped-Ends t (ok a, w) f k = k a w refl
  wrapped-Ends t (err e, w) f k = tt
  wrapped-Ends t (panic, w) f k = tt

  pub call-Ends :
      (t : Text) (m : Action W A) (f : A → Action W B) (w : W)
      → ((a : A) (w' : W) → m w ≡ (ok a, w') → Ends P (f a w'))
      → Ends P ((wrapping t m >>= f) w)
  call-Ends t m f w = wrapped-Ends t (m w) f
