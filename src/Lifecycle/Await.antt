-- ===== src/Lifecycle/Await.antt =====
-- WaitForActive and sleepBackoff of internal/lifecycle/boot.go. Times are in milliseconds.
use rune_mcp.Prelude.{
  ℕ, zero, suc, ◌+◌, ◌≤◌, Bool, true, false, List, [], ◌∷◌, ◌≡◌, refl, arith, ltb, if◌then◌else◌,
  if-elim,
}
use rune_mcp.Lifecycle.Boot.{State}

-- How the wait ends: the code returns true where the state is Active. `no_fuel` is the model's alone.
pub data AwaitEnd : Type 0 where
  is_up is_dormant late cancelled no_fuel : AwaitEnd

abbrev pub awaited : AwaitEnd → Bool
awaited AwaitEnd.is_up = true
awaited _ = false

-- The switch on the state; `again` goes on with the wait.
abbrev pub await_end : State → AwaitEnd → AwaitEnd
await_end State.active again = AwaitEnd.is_up
await_end State.dormant again = AwaitEnd.is_dormant
await_end _ again = again

module _ {W : Type 0} (clock : W → ℕ × W) (current : W → State × W) (sleep : ℕ → W → Bool × W) where
  abbrev pub await_round : ℕ → (W → AwaitEnd) → W → AwaitEnd
  await_round deadline again w =
      let (now, w₁) = clock w in
      let (s, w₂) = current w₁ in
      let (done, w₃) = sleep 100 w₂ in
      if ltb now deadline
      then await_end s (if done then AwaitEnd.cancelled else again w₃)
      else AwaitEnd.late

  unfoldable pub await_loop : ℕ → ℕ → W → AwaitEnd
  await_loop zero deadline w = AwaitEnd.no_fuel
  await_loop (suc fuel) deadline w = await_round deadline (await_loop fuel deadline) w

  -- A round takes 100 ms at least, so that the fuel is enough; the manager is not nil.
  unfoldable pub wait_for_active : ℕ → W → AwaitEnd
  unfolding await_loop
  wait_for_active timeout w =
      let (done, w₁) = sleep 500 w in
      let (now, w₂) = clock w₁ in
      if done then AwaitEnd.cancelled else await_loop (suc timeout) (now + timeout) w₂

  -- A wait that reports Active has read that state.
  abbrev HasRead : AwaitEnd → Type 0
  HasRead AwaitEnd.is_up = (w : W) × ((current w).0 ≡ State.active)
  HasRead _ = Unit {0}

  await_end-HasRead :
      (s : State) (w : W) (again : AwaitEnd)
      → (current w).0 ≡ s
      → HasRead again
      → HasRead (await_end s again)
  await_end-HasRead State.active w again e h = (w, e)
  await_end-HasRead State.dormant w again e h = tt
  await_end-HasRead State.starting w again e h = h
  await_end-HasRead State.waiting_for_vault w again e h = h

  await_loop-HasRead : (fuel deadline : ℕ) (w : W) → HasRead (await_loop fuel deadline w)
  unfolding await_loop
  await_loop-HasRead zero deadline w = tt
  await_loop-HasRead (suc fuel) deadline w =
      let w₁ = (clock w).1 in
      let w₂ = (current w₁).1 in
      if-elim HasRead (ltb (clock w).0 deadline)
        (λ _. await_end-HasRead (current w₁).0 w₁ _ refl (
          if-elim HasRead (sleep 100 w₂).0 (λ _. tt)
            (λ _. await_loop-HasRead fuel deadline (sleep 100 w₂).1)))
        (λ _. tt)

  -- Whatever the clock, the state and the waits do: where WaitForActive reports that the process is
  -- active, it has read the state Active.
  wait_for_active-HasRead : (timeout : ℕ) (w : W) → HasRead (wait_for_active timeout w)
  unfolding wait_for_active
  wait_for_active-HasRead timeout w =
      let w₁ = (sleep 500 w).1 in
      if-elim HasRead (sleep 500 w).0 (λ _. tt)
        (λ _. await_loop-HasRead (suc timeout) ((clock w₁).0 + timeout) (clock w₁).1)

-- BootBackoffs, and the delay of an attempt: the last one for every attempt after those that are listed.
abbrev pub boot_backoffs : List ℕ
boot_backoffs = 1000 ∷ 2000 ∷ 5000 ∷ 15000 ∷ 30000 ∷ 60000 ∷ []

unfoldable pub backoff_at : List ℕ → ℕ → ℕ
backoff_at [] attempt = 0
backoff_at (d ∷ []) attempt = d
backoff_at (d ∷ e ∷ ds) zero = d
backoff_at (d ∷ e ∷ ds) (suc attempt) = backoff_at (e ∷ ds) attempt

-- sleepBackoff; a context that ends cuts the wait short.
unfoldable pub sleep_backoff : {W : Type 0} → (ℕ → W → Bool × W) → ℕ → W → W
unfolding backoff_at
sleep_backoff sleep attempt w = (sleep (backoff_at boot_backoffs attempt) w).1

-- No attempt waits for longer than a minute.
sleep_backoff_bound : (attempt : ℕ) → backoff_at boot_backoffs attempt ≤ 60000
unfolding backoff_at
sleep_backoff_bound zero = omega arith
sleep_backoff_bound (suc zero) = omega arith
sleep_backoff_bound (suc (suc zero)) = omega arith
sleep_backoff_bound (suc (suc (suc zero))) = omega arith
sleep_backoff_bound (suc (suc (suc (suc zero)))) = omega arith
sleep_backoff_bound (suc (suc (suc (suc (suc n))))) = omega arith
