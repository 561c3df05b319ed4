-- ===== src/Adapters/Retry.antt =====
-- internal/adapters/embedder/retry.go: the three attempts of an embedder call.
use rune_mcp.Prelude.{
  ℕ, zero, suc, ◌+◌, ◌≤◌, Bool, true, false, Option, none, some, List, [], ◌∷◌, ◌≡◌, refl, arith,
  length, if◌then◌else◌, if-elim,
}
use rune_mcp.Prelude.Text.{codes}
use rune_mcp.Domain.Errors.{
  Adapter, AdapterError, Error, GrpcCode, Result, as_status, err, ok, other, panic, typed, wrap,
}
use rune_mcp.Adapters.Grpc.{map_embedder_error}
use rune_mcp.Service.Backend.{Action, either, fail, handled, pure}
use rune_mcp.Service.Backend.Outcome.{Outcome}
use rune_mcp.Adapters.Grpc.{embedder_mapped}

abbrev retryable_code : Option GrpcCode → Bool
retryable_code (some GrpcCode.unavailable) = true
retryable_code (some GrpcCode.deadline_exceeded) = true
retryable_code (some GrpcCode.resource_exhausted) = true
retryable_code _ = false

unfoldable pub retryable : Error → Bool
retryable e = retryable_code (as_status e)

-- RetryBackoffs, in milliseconds.
abbrev pub retry_backoffs : List ℕ
retry_backoffs = 0 ∷ 500 ∷ 2000 ∷ []

-- An error of the embedder adapter.
abbrev pub IsEmbedderError : Error → Type 0
IsEmbedderError e =
    (a : AdapterError) × (cause : Error) × (e ≡ typed a cause) × (a.adapter ≡ Adapter.embedder)

module _ {W R : Type 0} (sleep : ℕ → W → Option Error × W) (call : Action W R) where
  -- The context's error cuts the wait short.
  abbrev pub after_sleep : Option Error → Action W R → Action W R
  after_sleep none next w = next w
  after_sleep (some e) next w = fail (map_embedder_error e) w

  abbrev pub waiting : ℕ → Action W R → Action W R
  waiting zero next w = next w
  waiting (suc d) next w = after_sleep (sleep (suc d) w).0 next (sleep (suc d) w).1

  -- The loop over the delays, with the last error.
  unfoldable pub retry_loop : List ℕ → Error → Action W R
  unfolding retryable
  retry_loop [] last w =
      fail (map_embedder_error (wrap (codes "embedder: all retries exhausted") last)) w
  retry_loop (d ∷ ds) last w =
      waiting d
        (either call pure λ e. if retryable e then retry_loop ds e else fail (map_embedder_error e))
        w

  -- retry; the loop sets the last error before it is read.
  unfoldable pub retry : Action W R
  unfolding retry_loop
  retry = retry_loop retry_backoffs (wrap [] (other []))

-- A call that succeeds at once is made once.
pub retry_first :
    {W R : Type 0} (sleep : ℕ → W → Option Error × W) (call : Action W R) (r : R) (w : W)
    → (call w).0 ≡ ok r
    → retry sleep call w ≡ (ok r, (call w).1)
unfolding retry retry_loop
retry_first sleep call r w h = rw h refl

embedder_mapped-IsEmbedderError :
    (o : Option GrpcCode) (e : Error) → IsEmbedderError (embedder_mapped o e)
embedder_mapped-IsEmbedderError none e = (_, e, refl, refl)
embedder_mapped-IsEmbedderError (some GrpcCode.grpc_ok) e = (_, e, refl, refl)
embedder_mapped-IsEmbedderError (some GrpcCode.cancelled) e = (_, e, refl, refl)
embedder_mapped-IsEmbedderError (some GrpcCode.unknown_code) e = (_, e, refl, refl)
embedder_mapped-IsEmbedderError (some GrpcCode.invalid_argument) e = (_, e, refl, refl)
embedder_mapped-IsEmbedderError (some GrpcCode.deadline_exceeded) e = (_, e, refl, refl)
embedder_mapped-IsEmbedderError (some GrpcCode.not_found) e = (_, e, refl, refl)
embedder_mapped-IsEmbedderError (some GrpcCode.already_exists) e = (_, e, refl, refl)
embedder_mapped-IsEmbedderError (some GrpcCode.permission_denied) e = (_, e, refl, refl)
embedder_mapped-IsEmbedderError (some GrpcCode.resource_exhausted) e = (_, e, refl, refl)
embedder_mapped-IsEmbedderError (some GrpcCode.failed_precondition) e = (_, e, refl, refl)
embedder_mapped-IsEmbedderError (some GrpcCode.aborted) e = (_, e, refl, refl)
embedder_mapped-IsEmbedderError (some GrpcCode.out_of_range) e = (_, e, refl, refl)
embedder_mapped-IsEmbedderError (some GrpcCode.unimplemented) e = (_, e, refl, refl)
embedder_mapped-IsEmbedderError (some GrpcCode.internal_code) e = (_, e, refl, refl)
embedder_mapped-IsEmbedderError (some GrpcCode.unavailable) e = (_, e, refl, refl)
embedder_mapped-IsEmbedderError (some GrpcCode.data_loss) e = (_, e, refl, refl)
embedder_mapped-IsEmbedderError (some GrpcCode.unauthenticated) e = (_, e, refl, refl)

map_embedder_error-IsEmbedderError : (e : Error) → IsEmbedderError (map_embedder_error e)
unfolding map_embedder_error
map_embedder_error-IsEmbedderError e = embedder_mapped-IsEmbedderError (as_status e) e

-- The same wait and call in a world that counts the calls.
module _ {W R : Type 0} (sleep : ℕ → W → Option Error × W) (call : Action W R) where
  abbrev pub counting_sleep : ℕ → W × ℕ → Option Error × (W × ℕ)
  counting_sleep d (w, n) = ((sleep d w).0, ((sleep d w).1, n))

  abbrev pub counting_call : Action (W × ℕ) R
  counting_call (w, n) = ((call w).0, ((call w).1, suc n))

  abbrev counted_loop : List ℕ → Error → Action (W × ℕ) R
  counted_loop = retry_loop counting_sleep counting_call

  -- Between `k` and `k'` calls after `n`, and an error is one of the embedder adapter.
  abbrev pub IsBetween : ℕ → ℕ → Result R × (W × ℕ) → Type 0
  IsBetween k k' r = (k ≤ r.1.1) × (r.1.1 ≤ k') × Outcome (λ x. Unit) IsEmbedderError r.0

  failed-IsBetween :
      (e : Error) (w : W) (k k' n : ℕ)
      → k ≤ n
      → n ≤ k'
      → IsBetween k k' (fail (map_embedder_error e) (w, n))
  failed-IsBetween e w k k' n h h' = (h, h', map_embedder_error-IsEmbedderError e)

  handled-IsBetween :
      (r : Result R) (ds : List ℕ) (w : W) (n : ℕ)
      → ((e : Error) (w : W) → IsBetween n (n + length ds) (counted_loop ds e (w, n)))
      → IsBetween n (n + length ds) (
          handled r pure
            (λ e. if retryable e then counted_loop ds e else fail (map_embedder_error e))
            (w, n))
  handled-IsBetween (ok x) ds w n ih = (omega arith, omega arith, tt)
  handled-IsBetween (err e) ds w n ih =
      if-elim {A = Action (W × ℕ) R} (λ m. IsBetween n (n + length ds) (m (w, n))) (retryable e)
        (λ _. ih e w) (λ _. failed-IsBetween e w n (n + length ds) n (omega arith) (omega arith))
  handled-IsBetween panic ds w n ih = (omega arith, omega arith, tt)

  called-IsBetween :
      (ds : List ℕ) (w : W) (n : ℕ)
      → ((e : Error) (w : W) → IsBetween (suc n) (suc n + length ds) (counted_loop ds e (w, suc n)))
      → IsBetween (suc n) (suc n + length ds) (
          either counting_call pure
            (λ e. if retryable e then counted_loop ds e else fail (map_embedder_error e))
            (w, n))
  called-IsBetween ds w n ih = handled-IsBetween (call w).0 ds (call w).1 (suc n) ih

  after_sleep-IsBetween :
      (o : Option Error) (next : Action (W × ℕ) R) (w : W) (n k : ℕ)
      → n ≤ k
      → IsBetween (suc n) k (next (w, n))
      → IsBetween n k (after_sleep counting_sleep counting_call o next (w, n))
  after_sleep-IsBetween none next w n k h b = (omega (arith, b.0), b.1, b.2)
  after_sleep-IsBetween (some e) next w n k h b = failed-IsBetween e w n k n (omega arith) h

  retry_loop-IsBetween :
      (ds : List ℕ) (last : Error) (w : W) (n : ℕ)
      → IsBetween n (n + length ds) (counted_loop ds last (w, n))
  unfolding retry_loop
  retry_loop-IsBetween [] last w n =
      failed-IsBetween (wrap (codes "embedder: all retries exhausted") last) w n
        (n + length {A = ℕ} []) n (omega arith) (omega arith)
  retry_loop-IsBetween (zero ∷ ds) last w n =
      let b = called-IsBetween ds w n (λ e w'. retry_loop-IsBetween ds e w' (suc n)) in
      (omega (arith, b.0), omega (arith, b.1), b.2)
  retry_loop-IsBetween (suc d ∷ ds) last w n =
      let w' = (sleep (suc d) w).1 in
      let b = called-IsBetween ds w' n (λ e w''. retry_loop-IsBetween ds e w'' (suc n)) in
      let c =
        after_sleep-IsBetween (sleep (suc d) w).0
          (either counting_call pure
            (λ e. if retryable e then counted_loop ds e else fail (map_embedder_error e)))
          w' n (suc n + length ds) (omega arith) b in
      (c.0, omega (arith, c.1), c.2)

  -- Whatever the call, the waits and the context do: a retried call is made at least once and at most
  -- three times, and an error that it returns is one of the embedder adapter.
  pub retry-IsBetween :
      (w : W) (n : ℕ) → IsBetween (suc n) (n + 3) (retry counting_sleep counting_call (w, n))
  unfolding retry retry_loop
  retry-IsBetween w n =
      let b =
        called-IsBetween (500 ∷ 2000 ∷ []) w n
          (λ e w'. retry_loop-IsBetween (500 ∷ 2000 ∷ []) e w' (suc n)) in
      (b.0, omega (arith, b.1), b.2)
