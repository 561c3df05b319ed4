-- ===== src/Service/Recovery/Once.antt =====
-- What a backend that logs its Insert calls, its Score calls and its waits has seen of the two helpers
-- of internal/service/recovery.go.
use rune_mcp.Prelude.{
  Bool, true, false, not, ◌&&◌, List, [], ◌∷◌, ◌++◌, ◌≡◌, refl, ap, sym, ◌∙◌, if◌then◌else◌,
}
use rune_mcp.Prelude.Text.{Text}
use rune_mcp.Domain.Errors.{Error, Result, Sentinel, err, is_sentinel, ok, panic}
use rune_mcp.Service.Backend.{Action, Backend, InsertRequest, either, fail, handled, pure}
use rune_mcp.Service.Recovery.{
  after_wait, insert_with_recovery, is_envector_retryable, score_with_recovery,
}

module _ {F : Type 0} (b : Backend F) where
  pub data Event : Type 0 where
    inserted : Result (List Text) → Event
    scored : Result (List b.Blob) → Event
    waited : Bool → Event

  abbrev Logged : Type 0
  Logged = b.W × List Event

  abbrev quiet : {A : Type 0} → Action b.W A → Action Logged A
  quiet m (w, l) = ((m w).0, ((m w).1, l))

  abbrev noted : {A : Type 0} → (Result A → Event) → Action b.W A → Action Logged A
  noted f m (w, l) = ((m w).0, ((m w).1, l ++ (f (m w).0 ∷ [])))

  abbrev wait_noted : Logged → Bool × Logged
  wait_noted (w, l) = (
    (b.wait_for_active w).0,
    ((b.wait_for_active w).1, l ++ (waited (b.wait_for_active w).0 ∷ [])),
  )

  -- The same backend with the log.
  abbrev pub logging : Backend F
  logging = record {
    W = Logged;
    Vec = b.Vec;
    Blob = b.Blob;
    embed_batch = λ xs. quiet (b.embed_batch xs);
    embed_single = λ x. quiet (b.embed_single x);
    envector_score = λ v. noted scored (b.envector_score v);
    get_metadata = λ rs. quiet (b.get_metadata rs);
    insert = λ req. noted inserted (b.insert req);
    decrypt_scores = λ t k. quiet (b.decrypt_scores t k);
    decrypt_metadata = λ es. quiet (b.decrypt_metadata es);
    wait_for_active = wait_noted;
    base64 = b.base64;
    base64_decode = b.base64_decode;
    parse_object = b.parse_object;
  }

  -- What the caller of insert gets for a result: ErrAlreadyExists counts as success.
  abbrev pub committed : Result (List Text) → Result (List Text)
  committed (ok ids) = ok ids
  committed (err e) = if is_sentinel Sentinel.sdk_already_exists e then ok [] else err e
  committed panic = panic

  abbrev pub is_failed : {A : Type 0} → Result A → Bool
  is_failed (ok a) = false
  is_failed (err e) = is_envector_retryable e
  is_failed panic = false

  abbrev pub is_uncommitted : Result (List Text) → Bool
  is_uncommitted (err e) =
      not (is_sentinel Sentinel.sdk_already_exists e) && is_envector_retryable e
  is_uncommitted _ = false

  -- One call that is not repeated; or a call that failed, a wait, and, where it succeeds, one more.
  abbrev pub IsInsertOnce : List Event → Result (List Text) → Type 0
  IsInsertOnce (inserted r ∷ []) s = (is_uncommitted r ≡ false) × (s ≡ committed r)
  IsInsertOnce (inserted r ∷ waited false ∷ []) s = (is_uncommitted r ≡ true) × (s ≡ r)
  IsInsertOnce (inserted r ∷ waited true ∷ inserted r' ∷ []) s =
      (is_uncommitted r ≡ true) × (s ≡ committed r')
  IsInsertOnce _ _ = ⊥

  abbrev pub IsScoreOnce : List Event → Result (List b.Blob) → Type 0
  IsScoreOnce (scored r ∷ []) s = (is_failed r ≡ false) × (s ≡ r)
  IsScoreOnce (scored r ∷ waited false ∷ []) s = (is_failed r ≡ true) × (s ≡ r)
  IsScoreOnce (scored r ∷ waited true ∷ scored r' ∷ []) s = (is_failed r ≡ true) × (s ≡ r')
  IsScoreOnce _ _ = ⊥

  abbrev pub IsDone : {A : Type 0} → (List Event → Result A → Type 0) → Result A × Logged → Type 0
  IsDone P r = P r.1.1 r.0

  module _ {A : Type 0} (P : List Event → Result A → Type 0) where
    chosen-IsDone :
        (s : Bool) (x : A) (e : Error) (w : Logged)
        → P w.1 (if s then ok x else err e)
        → IsDone P ((if s then pure x else fail e) w)
    chosen-IsDone true x e w h = h
    chosen-IsDone false x e w h = h

    after_wait-IsDone :
        (e : Error) (again : Action Logged A) (w : b.W) (l : List Event)
        → ((w' : b.W) → IsDone P (again (w', l ++ (waited true ∷ []))))
        → P (l ++ (waited false ∷ [])) (err e)
        → IsDone P (after_wait logging e again (w, l))
    after_wait-IsDone e again w l h k = after_answer (b.wait_for_active w).0 (b.wait_for_active w).1
      where
        after_answer :
            (active : Bool) (w' : b.W)
            → IsDone P (
                let v : Logged = (w', l ++ (waited active ∷ [])) in
                if active then again v else (err e, v))
        after_answer true w' = h w'
        after_answer false w' = k

  insert_again-IsDone :
      (P : List Event → Result (List Text) → Type 0) (r : Result (List Text)) (w : Logged)
      → P w.1 (committed r)
      → IsDone P (
          handled r pure
            (λ e. if is_sentinel Sentinel.sdk_already_exists e then pure [] else fail e)
            w)
  insert_again-IsDone P (ok ids) w h = h
  insert_again-IsDone P (err e) w h =
      chosen-IsDone P (is_sentinel Sentinel.sdk_already_exists e) [] e w h
  insert_again-IsDone P panic w h = h

  -- The second half of insert_with_recovery.
  abbrev insert_again : InsertRequest b.Vec → Action Logged (List Text)
  insert_again req =
      either (logging.insert req) pure
        λ e. if is_sentinel Sentinel.sdk_already_exists e then pure [] else fail e

  insert_failed-IsDone :
      (req : InsertRequest b.Vec) (e : Error) (w : b.W)
      → is_uncommitted (err e) ≡ true
      → IsDone IsInsertOnce (after_wait logging e (insert_again req) (w, inserted (err e) ∷ []))
  insert_failed-IsDone req e w h =
      after_wait-IsDone IsInsertOnce e (insert_again req) w (inserted (err e) ∷ [])
        (λ w'.
          insert_again-IsDone IsInsertOnce (b.insert req w').0
            (
              (b.insert req w').1,
              inserted (err e) ∷ waited true ∷ inserted (b.insert req w').0 ∷ [],
            )
            (h, refl))
        (h, refl)

  insert_error-IsDone :
      (req : InsertRequest b.Vec) (e : Error) (w : b.W) (s t : Bool)
      → is_sentinel Sentinel.sdk_already_exists e ≡ s
      → is_envector_retryable e ≡ t
      → IsDone IsInsertOnce (
          (if s then pure [] else if t then after_wait logging e (insert_again req) else fail e)
            (w, inserted (err e) ∷ []))
  insert_error-IsDone req e w true t es et =
      (ap (λ x. not x && is_envector_retryable e) es, sym (ap (λ x. if x then ok [] else err e) es))
  insert_error-IsDone req e w false true es et =
      insert_failed-IsDone req e w (ap (λ x. not x && is_envector_retryable e) es ∙ et)
  insert_error-IsDone req e w false false es et = (
    ap (λ x. not x && is_envector_retryable e) es ∙ et,
    sym (ap (λ x. if x then ok [] else err e) es),
  )

  inserted-IsDone :
      (req : InsertRequest b.Vec) (r : Result (List Text)) (w : b.W)
      → IsDone IsInsertOnce (
          handled r pure
            (λ e.
              if is_sentinel Sentinel.sdk_already_exists e
              then pure []
              else if is_envector_retryable e
              then after_wait logging e (insert_again req)
              else fail e)
            (w, inserted r ∷ []))
  inserted-IsDone req (ok ids) w = (refl, refl)
  inserted-IsDone req panic w = (refl, refl)
  inserted-IsDone req (err e) w =
      insert_error-IsDone req e w (is_sentinel Sentinel.sdk_already_exists e)
        (is_envector_retryable e) refl refl

  -- Whatever enVector and the wait answer: insert_with_recovery inserts once; it waits once, and only
  -- where that insert ended with a retryable error that is not ErrAlreadyExists; it inserts a second
  -- time only where the wait succeeds, and never a third time. The result is that of the last insert,
  -- where ErrAlreadyExists counts as success.
  pub insert_with_recovery-IsInsertOnce :
      (req : InsertRequest b.Vec) (w : b.W)
      → IsDone IsInsertOnce (insert_with_recovery logging req (w, []))
  unfolding insert_with_recovery
  insert_with_recovery-IsInsertOnce req w =
      inserted-IsDone req (b.insert req w).0 (b.insert req w).1

  score_error-IsDone :
      (v : b.Vec) (e : Error) (w : b.W) (t : Bool)
      → is_envector_retryable e ≡ t
      → IsDone IsScoreOnce (
          (if t then after_wait logging e (logging.envector_score v) else fail e)
            (w, scored (err e) ∷ []))
  score_error-IsDone v e w true et =
      after_wait-IsDone IsScoreOnce e (logging.envector_score v) w (scored (err e) ∷ [])
        (λ w'. (et, refl)) (et, refl)
  score_error-IsDone v e w false et = (et, refl)

  scored-IsDone :
      (v : b.Vec) (r : Result (List b.Blob)) (w : b.W)
      → IsDone IsScoreOnce (
          handled r pure
            (λ e.
              if is_envector_retryable e
              then after_wait logging e (logging.envector_score v)
              else fail e)
            (w, scored r ∷ []))
  scored-IsDone v (ok bs) w = (refl, refl)
  scored-IsDone v panic w = (refl, refl)
  scored-IsDone v (err e) w = score_error-IsDone v e w (is_envector_retryable e) refl

  -- Whatever enVector and the wait answer: score_with_recovery scores once; it waits once, and only
  -- where that call ended with a retryable error; it scores a second time only where the wait
  -- succeeds, and never a third time. The result is that of the last call.
  pub score_with_recovery-IsScoreOnce :
      (v : b.Vec) (w : b.W) → IsDone IsScoreOnce (score_with_recovery logging v (w, []))
  unfolding score_with_recovery
  score_with_recovery-IsScoreOnce v w =
      scored-IsDone v (b.envector_score v w).0 (b.envector_score v w).1
