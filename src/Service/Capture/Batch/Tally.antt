-- ===== src/Service/Capture/Batch/Tally.antt =====
-- A batch answers every item, and its counters tell the statuses of the answers.
use mathlib.Core.Path.{subst}
use rune_mcp.Prelude.{
  ℕ, suc, ◌+◌, Bool, true, false, Option, none, some, List, [], ◌∷◌, ◌++◌, ◌≡◌, refl, arith, keep,
  length, if◌then◌else◌, if-elim, length-append,
}
use rune_mcp.Prelude.Json.{Object}
use rune_mcp.Prelude.Text.{Text}
use rune_mcp.Domain.Capture.{CaptureRequest, CaptureResponse}
use rune_mcp.Domain.Errors.{Error, Result, ok, err, panic}
use rune_mcp.Policy.Novelty.{NoveltyClass}
use rune_mcp.Service.Backend.{Action}
use rune_mcp.Service.Backend.Outcome.{Outcome}
use rune_mcp.Service.Capture.Batch.{
  BatchCaptureArgs, BatchCaptureResult, BatchItemResult, ItemStatus, add_error, add_response, batch,
  batch_loop, captured_item, class_of, empty_result, error_item, item_request, next_item,
  skipped_item, skipped_status,
}

abbrev pub is_captured : BatchItemResult → Bool
is_captured r = elim r.status [ ItemStatus.captured ↦ true | _ ↦ false ]

abbrev pub is_error : BatchItemResult → Bool
is_error r = elim r.status [ ItemStatus.error ↦ true | _ ↦ false ]

-- The item at place `i` has the index `i`.
abbrev pub AreNumbered : ℕ → List BatchItemResult → Type 0
AreNumbered i [] = Unit
AreNumbered i (r ∷ rs) = (r.index ≡ i) × AreNumbered (suc i) rs

-- The result of a batch of `n` items, of which `k` are done.
pub record IsTally (n k : ℕ) (r : BatchCaptureResult) : Type 0 where
  pub okay : r.okay ≡ true
  pub total : r.total ≡ n
  pub answered : length r.results ≡ k
  pub numbered : AreNumbered 0 r.results
  pub captured : length (keep is_captured r.results) ≡ r.captured
  pub errors : length (keep is_error r.results) ≡ r.errors
  pub counted : r.captured + r.skipped + r.errors ≡ k

length-keep_snoc :
    (p : BatchItemResult → Bool) (xs : List BatchItemResult) (x : BatchItemResult)
    → length (keep p (xs ++ x ∷ [])) ≡ length (keep p xs) + (if p x then 1 else 0)
length-keep_snoc p [] x = ground arith
length-keep_snoc p (y ∷ ys) x = ground (arith, length-keep_snoc p ys x)

AreNumbered-snoc :
    (i : ℕ) (xs : List BatchItemResult) (x : BatchItemResult)
    → AreNumbered i xs
    → x.index ≡ i + length xs
    → AreNumbered i (xs ++ x ∷ [])
AreNumbered-snoc i [] x h e = (omega arith, tt)
AreNumbered-snoc i (y ∷ ys) x h e = (h.0, AreNumbered-snoc (suc i) ys x h.1 (omega arith))

skipped_status-plain :
    (o : Option NoveltyClass) (r : BatchItemResult)
    → r.status ≡ skipped_status o
    → (is_captured r ≡ false) × (is_error r ≡ false)
skipped_status-plain none r e = (rw e refl, rw e refl)
skipped_status-plain (some NoveltyClass.near_duplicate) r e = (rw e refl, rw e refl)
skipped_status-plain (some NoveltyClass.novel) r e = (rw e refl, rw e refl)
skipped_status-plain (some NoveltyClass.evolution) r e = (rw e refl, rw e refl)
skipped_status-plain (some NoveltyClass.related) r e = (rw e refl, rw e refl)

add_error-IsTally :
    (e : Error) (n k : ℕ) (r : BatchCaptureResult)
    → IsTally n k r
    → IsTally n (suc k) (add_error e r)
unfolding add_error
add_error-IsTally e n k r t =
    let item = error_item (length r.results) e in
    record {
      okay = t.okay;
      total = t.total;
      answered = omega (arith, length-append r.results (item ∷ []), t.answered);
      numbered = AreNumbered-snoc 0 r.results item t.numbered (omega arith);
      captured = omega (arith, length-keep_snoc is_captured r.results item, t.captured);
      errors = omega (arith, length-keep_snoc is_error r.results item, t.errors);
      counted = omega (arith, t.counted);
    }

module _ {F : Type 0} where
  captured-IsTally :
      (resp : CaptureResponse F) (n k : ℕ) (r : BatchCaptureResult)
      → IsTally n k r
      → IsTally n (suc k) (record r {
        results = r.results ++ captured_item (length r.results) resp ∷ [];
        captured = suc r.captured;
      })
  captured-IsTally resp n k r t =
      let item = captured_item (length r.results) resp in
      record {
        okay = t.okay;
        total = t.total;
        answered = omega (arith, length-append r.results (item ∷ []), t.answered);
        numbered = AreNumbered-snoc 0 r.results item t.numbered (omega arith);
        captured = omega (arith, length-keep_snoc is_captured r.results item, t.captured);
        errors = omega (arith, length-keep_snoc is_error r.results item, t.errors);
        counted = omega (arith, t.counted);
      }

  skipped-IsTally :
      (resp : CaptureResponse F) (n k : ℕ) (r : BatchCaptureResult)
      → IsTally n k r
      → IsTally n (suc k) (record r {
        results = r.results ++ skipped_item (length r.results) resp ∷ [];
        skipped = suc r.skipped;
      })
  skipped-IsTally resp n k r t =
      let item = skipped_item (length r.results) resp in
      let (a, b) = skipped_status-plain (class_of resp.novelty) item refl in
      record {
        okay = t.okay;
        total = t.total;
        answered = omega (arith, length-append r.results (item ∷ []), t.answered);
        numbered = AreNumbered-snoc 0 r.results item t.numbered (omega arith);
        captured = ground (arith, length-keep_snoc is_captured r.results item, t.captured, a);
        errors = ground (arith, length-keep_snoc is_error r.results item, t.errors, b);
        counted = omega (arith, t.counted);
      }

  add_response-IsTally :
      (resp : CaptureResponse F) (n k : ℕ) (r : BatchCaptureResult)
      → IsTally n k r
      → IsTally n (suc k) (add_response resp r)
  unfolding add_response
  add_response-IsTally resp n k r t =
      if-elim (IsTally n (suc k)) resp.captured (λ e. captured-IsTally resp n k r t)
        (λ e. skipped-IsTally resp n k r t)

  module _ {W : Type 0} (handle : CaptureRequest F → Action W (CaptureResponse F)) where
    abbrev pub Never : Error → Type 0
    Never e = ⊥

    next_item-IsTally :
        (n k m : ℕ) (o : Result (CaptureResponse F))
        (rest : BatchCaptureResult → Action W BatchCaptureResult) (r : BatchCaptureResult) (w : W)
        → IsTally n k r
        → ((r' : BatchCaptureResult) (w : W)
            → IsTally n (suc k) r'
            → Outcome (IsTally n m) Never (rest r' w).0)
        → Outcome (IsTally n m) Never (next_item handle o rest r w).0
    next_item-IsTally n k m (ok resp) rest r w t f =
        f (add_response resp r) w (add_response-IsTally resp n k r t)
    next_item-IsTally n k m (err e) rest r w t f = f (add_error e r) w (add_error-IsTally e n k r t)
    next_item-IsTally n k m panic rest r w t f = tt

    batch_loop-IsTally :
        (args : BatchCaptureArgs) (raw : List (Option (Object F))) (n k : ℕ)
        (r : BatchCaptureResult) (w : W)
        → IsTally n k r
        → Outcome (IsTally n (k + length raw)) Never (batch_loop handle args raw r w).0
    unfolding batch_loop
    batch_loop-IsTally args [] n k r w t = subst (λ m. IsTally n m r) (omega arith) t
    batch_loop-IsTally args (item ∷ raw) n k r w t =
        let o = handle (item_request args item) w in
        next_item-IsTally n k (k + length (item ∷ raw)) o.0 (batch_loop handle args raw) r o.1 t
          λ r' w' t'.
            subst (λ m. Outcome (IsTally n m) Never (batch_loop handle args raw r' w').0)
              {x = suc k + length raw} (omega arith)
              (batch_loop-IsTally args raw n (suc k) r' w' t')

    -- Whatever the captures of the items do, short of a panic: a batch whose items parse never fails;
    -- it answers each of its items once, in their order, and its three counters add up to the number
    -- of items, `captured` and `errors` being the numbers of answers with these statuses.
    pub batch-IsTally :
        (parse_items : Text → Option (List (Option (Object F)))) (args : BatchCaptureArgs)
        (raw : List (Option (Object F))) (w : W)
        → parse_items args.items_text ≡ some raw
        → Outcome (IsTally (length raw) (length raw)) Never (batch handle parse_items args w).0
    unfolding batch
    batch-IsTally parse_items args raw w e = rw e (
        subst
          (λ m.
            Outcome (IsTally (length raw) m) Never
              (batch_loop handle args raw (empty_result handle (length raw)) w).0)
          {x = 0 + length raw} (omega arith)
          (batch_loop-IsTally args raw (length raw) 0 (empty_result handle (length raw)) w (record {
            okay = refl;
            total = refl;
            answered = refl;
            numbered = tt;
            captured = refl;
            errors = refl;
            counted = refl;
          })))
